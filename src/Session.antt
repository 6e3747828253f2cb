-- ===== src/Session.antt =====
-- internal/session/session.go: one session. Times are nanoseconds; `time.Now()` and the UUID are
-- arguments.
pub mod Store
mod Tests
use tailbus.Base.{ℕ, String, Bool, true, false, ◌==◌, ◌||◌, inc_u64, Result, ok, err, if◌then◌else◌}

pub data State : Type 0 where
  state_open state_resolved : State

abbrev pub is_open : State → Bool
is_open state_open = true
is_open state_resolved = false

pub record Session : Type 0 where
  pub id : String
  pub from_handle : String
  pub to_handle : String
  pub state : State
  pub trace_id : String
  pub next_seq : ℕ
  pub created_at : ℕ
  pub updated_at : ℕ

unfoldable pub new : String → String → String → ℕ → Session
new uuid from to now = record {
  id = uuid;
  from_handle = from;
  to_handle = to;
  state = state_open;
  trace_id = "";
  next_seq = 1;
  created_at = now;
  updated_at = now;
}

-- The returned number, and the session after the call.
unfoldable pub next_sequence : Session → ℕ → ℕ × Session
next_sequence s now = (s.next_seq, record s { next_seq = inc_u64 s.next_seq; updated_at = now })

pub data NotOpen : Type 0 where
  not_open : State → NotOpen

unfoldable pub resolve : Session → ℕ → Result NotOpen Session
resolve s now =
    if is_open s.state
    then ok (record s { state = state_resolved; updated_at = now })
    else err (not_open s.state)

-- One of the two ends of the session.
abbrev pub involves : Session → String → Bool
involves s handle = s.from_handle == handle || s.to_handle == handle

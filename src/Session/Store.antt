-- ===== src/Session/Store.antt =====
-- internal/session/session.go: the in-memory store with its persistence callbacks, and what the
-- callbacks do to the disk (internal/daemon/msgstore.go, StoreSession and RemoveSession).
pub mod Mirror
pub mod Evict
use tailbus.Base.{
  ℕ, ◌+◌, ◌-◌, ◌/◌, ◌^◌, String, Bool, true, false, ◌==◌, ◌&&◌, Option, none, some, List, [], ◌∷◌,
  ◌++◌, ltb, length, if◌then◌else◌, Dict, lookup, insert, delete,
}
use tailbus.Session.{State, Session, is_open, involves}
use mathlib.Core.Bool.{not}

-- The two callbacks are set together, by `SetPersistence`.
pub record Store : Type 0 where
  pub sessions : Dict Session
  pub persistence : Bool

pub data Call : Type 0 where
  persist : Session → Call
  remove : String → Call

abbrev pub new_store : Store
new_store = record { sessions = []; persistence = false }

unfoldable pub set_persistence : Store → Store
set_persistence s = record s { persistence = true }

-- The new store and the callbacks called.
unfoldable pub put : Session → Store → Store × List Call
put sess s = (
  record s { sessions = insert sess.id sess s.sessions },
  if s.persistence then persist sess ∷ [] else [],
)

unfoldable pub get : String → Store → Option Session
get id s = lookup id s.sessions

unfoldable pub list_all : Dict Session → List Session
list_all [] = []
list_all ((id, sess) ∷ rest) = sess ∷ list_all rest

unfoldable pub list_by_handle : String → Dict Session → List Session
list_by_handle handle [] = []
list_by_handle handle ((id, sess) ∷ rest) =
    if involves sess handle then sess ∷ list_by_handle handle rest else list_by_handle handle rest

-- sess.State == StateResolved && sess.UpdatedAt.Before(cutoff)
unfoldable pub is_stale : ℕ → Session → Bool
is_stale cutoff sess = not (is_open sess.state) && ltb sess.updated_at cutoff

-- The loop over the map, which deletes as it goes: what is left, and the evicted IDs.
unfoldable pub evict_loop : ℕ → Dict Session → Dict Session → Dict Session × List String
evict_loop cutoff [] m = (m, [])
evict_loop cutoff ((id, sess) ∷ rest) m =
    let left = evict_loop cutoff rest m in
    let gone = evict_loop cutoff rest (delete id m) in
    if is_stale cutoff sess then (gone.0, id ∷ gone.1) else left

abbrev pub removals : List String → List Call
removals [] = []
removals (id ∷ ids) = remove id ∷ removals ids

-- The new store, the callbacks called, and the number of sessions removed.
unfoldable pub evict : ℕ → ℕ → Store → Store × List Call × ℕ
evict ttl now s =
    let (m, evicted) = evict_loop (now - ttl) s.sessions s.sessions in
    (record s { sessions = m }, if s.persistence then removals evicted else [], length evicted)

-- The JSON form: times in whole seconds.
pub record StoredSession : Type 0 where
  pub id : String
  pub from_handle : String
  pub to_handle : String
  pub state : State
  pub trace_id : String
  pub next_seq : ℕ
  pub created_at : ℕ
  pub updated_at : ℕ

abbrev pub unix : ℕ → ℕ
unix t = t / 10 ^ 9

unfoldable pub to_stored : Session → StoredSession
to_stored s = record {
  id = s.id;
  from_handle = s.from_handle;
  to_handle = s.to_handle;
  state = s.state;
  trace_id = s.trace_id;
  next_seq = s.next_seq;
  created_at = unix s.created_at;
  updated_at = unix s.updated_at;
}

-- What one callback does to the bucket of sessions.
unfoldable pub write : Call → Dict StoredSession → Dict StoredSession
write (persist s) disk = insert s.id (to_stored s) disk
write (remove id) disk = delete id disk

unfoldable pub write_all : List Call → Dict StoredSession → Dict StoredSession
write_all [] disk = disk
write_all (c ∷ cs) disk = write_all cs (write c disk)

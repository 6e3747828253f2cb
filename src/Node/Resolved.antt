-- ===== src/Node/Resolved.antt =====
-- What becomes of a resolved session over a history of the daemon (internal/daemon/agentserver.go,
-- internal/session/session.go).
use tailbus.Base.{ℕ, ◌-◌, All, ◌≡◌, ◌≢◌, String, Bool, false, List, [], ◌∷◌}
use tailbus.Session.{Session}
use tailbus.Session.Store.{is_stale}
use tailbus.Node.{Draw}
use tailbus.Node.History.{Underway, copy_of, Daemon, Step, evicts, step}
use tailbus.Node.Filed.{Filed}

-- A history: each step with what it draws.
unfoldable pub run : (String → Bool) → List (Draw × Step) → Daemon → Daemon
run down [] d = d
run down ((x, op) ∷ steps) d = run down steps (step down x op d)

-- No step draws the identifier for a new session.
abbrev pub NotDrawn : String → List (Draw × Step) → Type 0
NotDrawn id [] = Unit {0}
NotDrawn id ((x, op) ∷ steps) = (x.session_id ≢ id) × NotDrawn id steps

-- No step is an eviction that comes when the session is due.
abbrev pub Young : ℕ → Step → Session → Type 0
Young now (evicts ttl) s = is_stale (now - ttl) s ≡ false
Young now _ s = Unit {0}

abbrev pub NotDue : Session → List (Draw × Step) → Type 0
NotDue s [] = Unit {0}
NotDue s ((x, op) ∷ steps) = Young x.now op s × NotDue s steps

-- No call under way holds a copy of the session.
abbrev pub NoCopy : String → List Underway → Type 0
NoCopy id = All (λ c. (copy_of c).id ≢ id)

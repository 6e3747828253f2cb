-- ===== src/Session/Tests.antt =====
-- Runs of the session store (internal/session/session.go).
use tailbus.Base.{ℕ, refl, String, true, [], ◌∷◌, lookup, IsMap}
use tailbus.Session.{Session, State, state_open, state_resolved}
use tailbus.Session.Store.{Store}

abbrev session : String → State → ℕ → Session
session id state updated = record {
  id = id;
  from_handle = "ann";
  to_handle = "bob";
  state = state;
  trace_id = "t";
  next_seq = 2;
  created_at = 1;
  updated_at = updated;
}

-- One stale session, one fresh one, and an old one that is open.
abbrev three : Store
three = record {
  sessions =
      ("s1", session "s1" state_resolved 5)
      ∷ ("s2", session "s2" state_resolved 95)
      ∷ ("s3", session "s3" state_open 5)
      ∷ [];
  persistence = true;
}

three-IsMap : IsMap three.sessions
unfolding lookup
three-IsMap = (refl, (refl, (refl, tt)))

-- ===== src/Session/Store/Mirror.antt =====
-- The disk follows the memory (internal/session/session.go, internal/daemon/msgstore.go).
use mathlib.Core.Option
use tailbus.Base.{
  ℕ, ◌-◌, String, true, ◌≡◌, List, [], ◌∷◌, arith, inl, inr, Bool-cases, Dict, lookup, insert,
  delete, lookup-insert, lookup-delete,
}
use tailbus.Session.{Session}
use tailbus.Session.Store.{
  Store, Call, StoredSession, put, is_stale, evict_loop, evict, removals, to_stored, write,
  write_all,
}

-- At every ID the disk holds the stored form of what the memory holds.
abbrev pub Mirrors : Dict Session → Dict StoredSession → Type 0
Mirrors m disk = (id : String) → lookup id disk ≡ Option.map to_stored (lookup id m)

insert-Mirrors :
    (s : Session) (m : Dict Session) (disk : Dict StoredSession)
    → Mirrors m disk
    → Mirrors (insert s.id s m) (insert s.id (to_stored s) disk)
insert-Mirrors s m disk h id = simp lookup-insert (ground (arith, h id))

delete-Mirrors :
    (k : String) (m : Dict Session) (disk : Dict StoredSession)
    → Mirrors m disk
    → Mirrors (delete k m) (delete k disk)
delete-Mirrors k m disk h id = simp lookup-delete (ground (arith, h id))

evict_loop-Mirrors :
    (cutoff : ℕ) (entries m : Dict Session) (disk : Dict StoredSession)
    → Mirrors m disk
    → Mirrors
        (evict_loop cutoff entries m).0
        (write_all (removals (evict_loop cutoff entries m).1) disk)
unfolding evict_loop write_all write
evict_loop-Mirrors cutoff [] m disk h = h
evict_loop-Mirrors cutoff ((id, sess) ∷ rest) m disk h = elim (Bool-cases (is_stale cutoff sess)) [
  | inl e ↦
      rw e
        (evict_loop-Mirrors cutoff rest (delete id m) (delete id disk) (delete-Mirrors id m disk h))
  | inr e ↦ rw e (evict_loop-Mirrors cutoff rest m disk h)
]

-- An operation of the store.
pub data Op : Type 0 where
  puts : Session → Op
  evicts : ℕ → ℕ → Op

pub step : Op → Store → Store × List Call
step (puts s) st = put s st
step (evicts ttl now) st = let r = evict ttl now st in (r.0, r.1)

-- The store and the disk after a history, each operation's callbacks run before the next.
pub run : List Op → Store → Dict StoredSession → Store × Dict StoredSession
run [] st disk = (st, disk)
run (op ∷ ops) st disk = let (st', calls) = step op st in run ops st' (write_all calls disk)

step-Mirrors :
    (op : Op) (st : Store) (disk : Dict StoredSession)
    → st.persistence ≡ true
    → Mirrors st.sessions disk
    → Mirrors (step op st).0.sessions (write_all (step op st).1 disk)
      × ((step op st).0.persistence ≡ true)
unfolding step put evict write_all write
step-Mirrors (puts s) st disk on h = (rw on (insert-Mirrors s st.sessions disk h), on)
step-Mirrors (evicts ttl now) st disk on h =
    (rw on (evict_loop-Mirrors (now - ttl) st.sessions st.sessions disk h), on)

-- With persistence on, after any history of puts and evictions the disk holds, at every ID, the
-- stored form of exactly what the memory holds.
pub run-Mirrors :
    (ops : List Op) (st : Store) (disk : Dict StoredSession)
    → st.persistence ≡ true
    → Mirrors st.sessions disk
    → Mirrors (run ops st disk).0.sessions (run ops st disk).1
unfolding run
run-Mirrors [] st disk on h = h
run-Mirrors (op ∷ ops) st disk on h =
    let next = step-Mirrors op st disk on h in run-Mirrors ops _ _ next.1 next.0

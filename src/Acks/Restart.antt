-- ===== src/Acks/Restart.antt =====
-- A restart of the daemon restores the messages that wait for an ACK (internal/daemon/daemon.go,
-- internal/daemon/acktracker.go, internal/daemon/msgstore.go).
use tailbus.Base.{
  ◌≡◌, refl, sym, ap, ◌∙◌, String, ◌==◌, Bool, false, eq_iff, Option, none, some, List, [], ◌∷◌,
  arith, Dict, lookup, delete, lookup-insert, lookup-delete, IsMap, if◌then◌else◌, Bool-cases, ◌&&◌,
  not, inl, inr,
}
use tailbus.Acks.{
  Pending, StoredPending, AckTracker, loaded, load_pending, restore, discard, restore_one,
  restore_all, new_ack_tracker,
}
use tailbus.Acks.Bucket.{IsFiled, IsBucket, delete-IsBucket}
use tailbus.Acks.Durable.{Facts, in_memory, on_disk, IsDurable, Op, run, run-IsDurable}

-- The message that a restart finds.
abbrev from_disk : Option StoredPending → Option Pending → Option Pending
from_disk none o = o
from_disk (some sp) o = if sp.peer_addr == "" then o else some (loaded sp)

lookup-restore_one :
    (j : String) (pm : Pending) (t : AckTracker)
    → lookup j (restore_one pm t).pending ≡ (
        if (pm.env.message_id == j) && not (pm.peer_addr == "")
        then some pm
        else lookup j t.pending)
unfolding restore_one restore discard
lookup-restore_one j pm t = elim (Bool-cases (pm.peer_addr == "")) [
  | inl e ↦ rw (e, restore_one) (ground arith)
  | inr e ↦ rw (e, restore_one) (ground (arith, lookup-insert pm.env.message_id j pm t.pending))
]

lookup-restore_all :
    (j : String) (d : Dict StoredPending) (t : AckTracker)
    → IsMap d
    → IsFiled d
    → lookup j (restore_all (load_pending d) t).pending
      ≡ from_disk (lookup j d) (lookup j t.pending)
unfolding restore_all load_pending lookup
lookup-restore_all j [] t h f = refl
lookup-restore_all j ((id, sp) ∷ rest) t h f = ground (
  arith,
  h.0,
  f.0,
  lookup-restore_all j rest (restore_one (loaded sp) t) h.1 f.1,
  lookup-restore_one j (loaded sp) t,
  eq_iff id j,
)

-- The bucket after one message, and after all of them.
discard_one : Pending → Dict StoredPending → Dict StoredPending
discard_one pm d = if pm.peer_addr == "" then delete pm.env.message_id d else d

discard_all : List Pending → Dict StoredPending → Dict StoredPending
discard_all [] d = d
discard_all (pm ∷ pms) d = discard_all pms (discard_one pm d)

store-restore_one :
    (pm : Pending) (t : AckTracker) (d : Dict StoredPending)
    → t.store ≡ some d
    → (restore_one pm t).store ≡ some (discard_one pm d)
unfolding restore_one restore discard discard_one
store-restore_one pm t d e = elim (Bool-cases (pm.peer_addr == "")) [
  | inl b ↦ rw (b, restore_one, discard_one, e) refl
  | inr b ↦ rw (b, restore_one, discard_one) e
]

store-restore_all :
    (pms : List Pending) (t : AckTracker) (d : Dict StoredPending)
    → t.store ≡ some d
    → (restore_all pms t).store ≡ some (discard_all pms d)
unfolding restore_all discard_all
store-restore_all [] t d e = e
store-restore_all (pm ∷ pms) t d e =
    store-restore_all pms (restore_one pm t) (discard_one pm d) (store-restore_one pm t d e)

discard_all-IsBucket :
    (pms : List Pending) (d : Dict StoredPending) → IsBucket d → IsBucket (discard_all pms d)
unfolding discard_all discard_one
discard_all-IsBucket [] d b = b
discard_all-IsBucket (pm ∷ pms) d b = elim (Bool-cases (pm.peer_addr == "")) [
  | inl e ↦
      rw (e, discard_one)
        (discard_all-IsBucket pms (delete pm.env.message_id d)
          (delete-IsBucket pm.env.message_id d b))
  | inr e ↦ rw (e, discard_one) (discard_all-IsBucket pms d b)
]

unaddressed : Option StoredPending → Bool
unaddressed none = false
unaddressed (some sp) = sp.peer_addr == ""

lookup-discard_one :
    (j : String) (pm : Pending) (d : Dict StoredPending)
    → lookup j (discard_one pm d)
      ≡ (if (pm.env.message_id == j) && (pm.peer_addr == "") then none else lookup j d)
unfolding discard_one
lookup-discard_one j pm d = ground (arith, lookup-delete pm.env.message_id j d)

lookup-discard_all :
    (j : String) (d m : Dict StoredPending)
    → IsMap d
    → IsFiled d
    → lookup j (discard_all (load_pending d) m)
      ≡ (if unaddressed (lookup j d) then none else lookup j m)
unfolding discard_all load_pending unaddressed lookup
lookup-discard_all j [] m h f = refl
lookup-discard_all j ((id, sp) ∷ rest) m h f = ground (
  arith,
  h.0,
  f.0,
  lookup-discard_all j rest (discard_one (loaded sp) m) h.1 f.1,
  lookup-discard_one j (loaded sp) m,
  eq_iff id j,
)

-- The tracker of a daemon that starts on a bucket.
abbrev pub restarted : Dict StoredPending → AckTracker
restarted d = restore_all (load_pending d) (record new_ack_tracker { store = some d })

-- What a restart keeps: a message with an address.
abbrev pub addressed : Option Facts → Option Facts
addressed none = none
addressed (some f) = if f.peer_addr == "" then none else some f

from_disk_fresh : (o : Option StoredPending) → in_memory (from_disk o none) ≡ addressed (on_disk o)
from_disk_fresh none = refl
from_disk_fresh (some sp) = ground arith

discarded_facts :
    (o : Option StoredPending) → on_disk (if unaddressed o then none else o) ≡ addressed (on_disk o)
unfolding unaddressed
discarded_facts none = refl
discarded_facts (some sp) = ground arith

restarted_facts :
    (j : String) (d : Dict StoredPending)
    → IsBucket d
    → in_memory (lookup j (restarted d).pending) ≡ addressed (on_disk (lookup j d))
unfolding lookup
restarted_facts j d b =
    ap in_memory
      (lookup-restore_all j d (record new_ack_tracker { store = some d }) b.is_map b.is_filed)
    ∙ from_disk_fresh (lookup j d)

restarted-IsDurable : (d : Dict StoredPending) → IsBucket d → IsDurable (restarted d)
restarted-IsDurable d b = record {
  disk = discard_all (load_pending d) d;
  attached = store-restore_all (load_pending d) (record new_ack_tracker { store = some d }) d refl;
  bucket = discard_all-IsBucket (load_pending d) d b;
  agree = λ j.
      ap on_disk (lookup-discard_all j d d b.is_map b.is_filed)
      ∙ discarded_facts (lookup j d)
      ∙ sym (restarted_facts j d b);
}

-- What the next start finds on the disk of a tracker.
abbrev pub after_restart : AckTracker → AckTracker
after_restart t = elim t.store [ none ↦ new_ack_tracker | some d ↦ restarted d ]

-- The daemon may stop after any calls of the tracker: the next start restores the messages it then
-- waited for, with where they went and their retries, save those with no address, and no other.
pub restart_lossless :
    (ops : List Op) (d : Dict StoredPending) (j : String)
    → IsBucket d
    → in_memory (lookup j (after_restart (run ops (restarted d))).pending)
      ≡ addressed (in_memory (lookup j (run ops (restarted d)).pending))
restart_lossless ops d j b =
    let h = run-IsDurable ops (restarted d) (restarted-IsDurable d b) in
    rw h.attached (restarted_facts j h.disk h.bucket ∙ ap addressed (h.agree j))

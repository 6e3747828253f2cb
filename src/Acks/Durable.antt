-- ===== src/Acks/Durable.antt =====
-- The durable copy of the pending messages (internal/daemon/acktracker.go,
-- internal/daemon/msgstore.go).

use tailbus.Base.{
  ℕ, ◌+◌, ◌≡◌, refl, ◌∙◌, String, ◌==◌, eq_iff, Option, none, some, List, [], ◌∷◌, arith, inl, inr,
  Option-cases, if◌then◌else◌, Dict, lookup, delete, lookup-insert, lookup-delete,
}
use tailbus.Envelope.{Envelope}
use tailbus.Acks.{
  Pending, StoredPending, AckTracker, scan, delete_all, retry_one, retry_all, drop_all, sweep,
  track, acknowledge, store_pending, update_pending, unix,
}
use tailbus.Acks.Bucket.{
  IsBucket, store_pending-IsBucket, delete-IsBucket, update_pending-IsBucket, delete_all-IsBucket,
}
use tailbus.Acks.Sweep.{lookup-delete_all}

-- What must survive a restart: the message, where it goes, and its retries so far. The time is
-- kept in whole seconds only.
pub record Facts : Type 0 where
  pub env : Envelope
  pub peer_addr : String
  pub retries : ℕ

abbrev pub in_memory : Option Pending → Option Facts
in_memory none = none
in_memory (some pm) = some (record { env = pm.env; peer_addr = pm.peer_addr; retries = pm.retries })

abbrev pub on_disk : Option StoredPending → Option Facts
on_disk none = none
on_disk (some sp) =
    some (record { env = sp.envelope; peer_addr = sp.peer_addr; retries = sp.retries })

-- The disk and the memory agree at every ID.
abbrev pub Agree : Dict Pending → Dict StoredPending → Type 0
Agree m d = (id : String) → on_disk (lookup id d) ≡ in_memory (lookup id m)

-- A store is attached, and agrees with the memory.
pub record IsDurable (t : AckTracker) : Type 0 where
  pub disk : Dict StoredPending
  pub attached : t.store ≡ some disk
  pub bucket : IsBucket disk
  pub agree : Agree t.pending disk

track-IsDurable :
    (env : Envelope) (addr : String) (now stored : ℕ) (t : AckTracker)
    → IsDurable t
    → IsDurable (track env addr now stored t)
unfolding track store_pending
track-IsDurable env addr now stored t h = record {
  disk = store_pending env addr (unix stored) 0 h.disk;
  attached = rw h.attached refl;
  bucket = store_pending-IsBucket env addr (unix stored) 0 h.disk h.bucket;
  agree = λ id. simp lookup-insert (ground (arith, h.agree id));
}

acknowledge-IsDurable :
    (id : String) (t : AckTracker) → IsDurable t → IsDurable (acknowledge id t).1
unfolding acknowledge
acknowledge-IsDurable id t h = elim (Option-cases (lookup id t.pending)) [
  | inl e ↦ rw (e, acknowledge) h
  | inr (pm, e) ↦
      rw (e, acknowledge)
        (record {
          disk = delete id h.disk;
          attached = rw h.attached refl;
          bucket = delete-IsBucket id h.disk h.bucket;
          agree = λ j. simp lookup-delete (ground (arith, h.agree j));
        })
]

drop_all-IsDurable : (ids : List String) (t : AckTracker) → IsDurable t → IsDurable (drop_all ids t)
unfolding drop_all
drop_all-IsDurable ids t h = record {
  disk = delete_all ids h.disk;
  attached = rw h.attached refl;
  bucket = delete_all-IsBucket ids h.disk h.bucket;
  agree = λ j. simp lookup-delete_all (ground (arith, h.agree j));
}

with_retries : ℕ → Option Facts → Option Facts
with_retries n none = none
with_retries n (some f) = some (record f { retries = n })

lookup-update_pending :
    (id j : String) (at n : ℕ) (d : Dict StoredPending)
    → on_disk (lookup j (update_pending id at n d))
      ≡ (if id == j then with_retries n (on_disk (lookup j d)) else on_disk (lookup j d))
unfolding update_pending with_retries
lookup-update_pending id j at n d = elim (Option-cases (lookup id d)) [
  | inl e ↦ rw (e, update_pending) (ground (arith, e, eq_iff id j))
  | inr (sp, e) ↦
      rw (e, update_pending)
        (ground (
          arith,
          e,
          eq_iff id j,
          lookup-insert id j (record sp { stored_at = unix at; retries = n }) d,
        ))
]

retry_one-IsDurable :
    (clock : String → ℕ) (pm : Pending) (t : AckTracker)
    → IsDurable t
    → IsDurable (retry_one clock pm t)
unfolding retry_one with_retries
retry_one-IsDurable clock pm t h = elim (Option-cases (lookup pm.env.message_id t.pending)) [
  | inl e ↦
      rw (e, retry_one)
        (record { disk = h.disk; attached = h.attached; bucket = h.bucket; agree = h.agree })
  | inr (p, e) ↦
      rw (e, retry_one)
        (record {
          disk = update_pending pm.env.message_id (clock pm.env.message_id) (p.retries + 1) h.disk;
          attached = rw h.attached refl;
          bucket =
              update_pending-IsBucket pm.env.message_id (clock pm.env.message_id) (p.retries + 1)
                h.disk h.bucket;
          agree = λ j.
              lookup-update_pending pm.env.message_id j (clock pm.env.message_id) (p.retries + 1)
                h.disk
              ∙ simp lookup-insert (ground (arith, h.agree j, e, eq_iff pm.env.message_id j));
        })
]

retry_all-IsDurable :
    (clock : String → ℕ) (pms : List Pending) (t : AckTracker)
    → IsDurable t
    → IsDurable (retry_all clock pms t)
unfolding retry_all
retry_all-IsDurable clock [] t h = h
retry_all-IsDurable clock (pm ∷ pms) t h =
    retry_all-IsDurable clock pms (retry_one clock pm t) (retry_one-IsDurable clock pm t h)

sweep-IsDurable :
    (now : ℕ) (clock : String → ℕ) (t : AckTracker) → IsDurable t → IsDurable (sweep now clock t)
unfolding sweep
sweep-IsDurable now clock t h =
    let (drops, retries) = scan t.timeout t.max_retries now t.pending in
    retry_all-IsDurable clock retries (drop_all drops t) (drop_all-IsDurable drops t h)

-- One call of the tracker.
pub data Op : Type 0 where
  tracked : Envelope → String → ℕ → ℕ → Op
  acknowledged : String → Op
  swept : ℕ → (String → ℕ) → Op

unfoldable pub step : Op → AckTracker → AckTracker
step (tracked env addr now stored) t = track env addr now stored t
step (acknowledged id) t = (acknowledge id t).1
step (swept now clock) t = sweep now clock t

unfoldable pub run : List Op → AckTracker → AckTracker
run [] t = t
run (op ∷ ops) t = run ops (step op t)

step-IsDurable : (op : Op) (t : AckTracker) → IsDurable t → IsDurable (step op t)
unfolding step
step-IsDurable (tracked env addr now stored) t h = track-IsDurable env addr now stored t h
step-IsDurable (acknowledged id) t h = acknowledge-IsDurable id t h
step-IsDurable (swept now clock) t h = sweep-IsDurable now clock t h

-- Any sequence of calls keeps the disk and the memory in agreement.
pub run-IsDurable : (ops : List Op) (t : AckTracker) → IsDurable t → IsDurable (run ops t)
unfolding run
run-IsDurable [] t h = h
run-IsDurable (op ∷ ops) t h = run-IsDurable ops (step op t) (step-IsDurable op t h)

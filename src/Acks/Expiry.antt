-- ===== src/Acks/Expiry.antt =====
-- A message that is never acknowledged is retried a bounded number of times and then dropped
-- (internal/daemon/acktracker.go).
use tailbus.Base.{
  ℕ, ◌+◌, ◌-◌, ◌≤◌, ◌<◌, ◌≡◌, refl, ◌∙◌, String, eq_iff, none, some, List, [], ◌∷◌, arith, inl, inr,
  Bool-cases, Option-cases, length, leb, Dict, lookup, insert, delete, IsMap, insert-IsMap,
  delete-IsMap,
}
use tailbus.Envelope.{Envelope}
use tailbus.Acks.{
  Pending, AckTracker, verdict, scan, delete_all, retry_one, retry_all, drop_all, sweep, track,
}
use tailbus.Acks.Sweep.{IsKeyed, lookup-sweep}

delete-IsKeyed : (k : String) (m : Dict Pending) → IsKeyed m → IsKeyed (delete k m)
unfolding delete
delete-IsKeyed k [] h = tt
delete-IsKeyed k ((id, pm) ∷ rest) h = ground (arith, h.0, delete-IsKeyed k rest h.1)

insert-IsKeyed :
    (k : String) (pm : Pending) (m : Dict Pending)
    → pm.env.message_id ≡ k
    → IsKeyed m
    → IsKeyed (insert k pm m)
unfolding insert
insert-IsKeyed k pm [] e h = (e, tt)
insert-IsKeyed k pm ((id, q) ∷ rest) e h =
    ground (arith, h.0, e, insert-IsKeyed k pm rest e h.1, eq_iff id k)

lookup-IsKeyed :
    (k : String) (m : Dict Pending) (pm : Pending)
    → IsKeyed m
    → lookup k m ≡ some pm
    → pm.env.message_id ≡ k
unfolding lookup
lookup-IsKeyed k [] pm h e = cc
lookup-IsKeyed k ((id, q) ∷ rest) pm h e =
    ground (arith, h.0, lookup-IsKeyed k rest pm h.1, eq_iff id k)

-- The keys are distinct, and each is the ID of its message.
pub record IsSound (t : AckTracker) : Type 0 where
  pub is_map : IsMap t.pending
  pub is_keyed : IsKeyed t.pending

pub track-IsSound :
    (env : Envelope) (addr : String) (now stored : ℕ) (t : AckTracker)
    → IsSound t
    → IsSound (track env addr now stored t)
unfolding track
track-IsSound env addr now stored t s = record {
  is_map = insert-IsMap env.message_id _ t.pending s.is_map;
  is_keyed = insert-IsKeyed env.message_id _ t.pending refl s.is_keyed;
}

retry_one-IsSound :
    (clock : String → ℕ) (pm : Pending) (t : AckTracker)
    → IsSound t
    → IsSound (retry_one clock pm t)
unfolding retry_one
retry_one-IsSound clock pm t s = elim (Option-cases (lookup pm.env.message_id t.pending)) [
  | inl e ↦ rw (e, retry_one) (record { is_map = s.is_map; is_keyed = s.is_keyed })
  | inr (p, e) ↦
      rw (e, retry_one)
        (record {
          is_map = insert-IsMap pm.env.message_id _ t.pending s.is_map;
          is_keyed =
              insert-IsKeyed pm.env.message_id _ t.pending
                (lookup-IsKeyed pm.env.message_id t.pending p s.is_keyed e) s.is_keyed;
        })
]

retry_all-IsSound :
    (clock : String → ℕ) (pms : List Pending) (t : AckTracker)
    → IsSound t
    → IsSound (retry_all clock pms t)
unfolding retry_all
retry_all-IsSound clock [] t s = s
retry_all-IsSound clock (pm ∷ pms) t s =
    retry_all-IsSound clock pms (retry_one clock pm t) (retry_one-IsSound clock pm t s)

delete_all-kept :
    (ids : List String) (m : Dict Pending)
    → IsMap m
    → IsKeyed m
    → IsMap (delete_all ids m) × IsKeyed (delete_all ids m)
unfolding delete_all
delete_all-kept [] m h k = (h, k)
delete_all-kept (id ∷ ids) m h k =
    delete_all-kept ids (delete id m) (delete-IsMap id m h) (delete-IsKeyed id m k)

pub sweep-IsSound :
    (now : ℕ) (clock : String → ℕ) (t : AckTracker) → IsSound t → IsSound (sweep now clock t)
unfolding sweep drop_all
sweep-IsSound now clock t s =
    let ids = (scan t.timeout t.max_retries now t.pending).0 in
    let kept = delete_all-kept ids t.pending s.is_map s.is_keyed in
    retry_all-IsSound clock (scan t.timeout t.max_retries now t.pending).1 (drop_all ids t)
      (record { is_map = kept.0; is_keyed = kept.1 })

-- Sweeps at the given times, each with the times that its sends end at.
pub sweeps : List (ℕ × (String → ℕ)) → AckTracker → AckTracker
sweeps [] t = t
sweeps ((now, clock) ∷ times) t = sweeps times (sweep now clock t)

-- Each sweep starts at least `timeout` after the message's last send has ended, which for the first is
-- `sent_at`.
abbrev pub Spaced : ℕ → String → ℕ → List (ℕ × (String → ℕ)) → Type 0
Spaced timeout id sent_at [] = Unit {0}
Spaced timeout id sent_at ((now, clock) ∷ times) =
    (sent_at + timeout ≤ now) × Spaced timeout id (clock id) times

settings-retry_all :
    (clock : String → ℕ) (pms : List Pending) (t : AckTracker)
    → ((retry_all clock pms t).timeout ≡ t.timeout)
      × ((retry_all clock pms t).max_retries ≡ t.max_retries)
unfolding retry_all retry_one
settings-retry_all clock [] t = (refl, refl)
settings-retry_all clock (pm ∷ pms) t =
    ground (arith, settings-retry_all clock pms (retry_one clock pm t))

settings-sweep :
    (now : ℕ) (clock : String → ℕ) (t : AckTracker)
    → ((sweep now clock t).timeout ≡ t.timeout) × ((sweep now clock t).max_retries ≡ t.max_retries)
unfolding sweep drop_all
settings-sweep now clock t = settings-retry_all clock _ (drop_all _ t)

gone_stays :
    (times : List (ℕ × (String → ℕ))) (id : String) (t : AckTracker)
    → IsSound t
    → lookup id t.pending ≡ none
    → lookup id (sweeps times t).pending ≡ none
unfolding sweeps
gone_stays [] id t s e = e
gone_stays ((now, clock) ∷ times) id t s e =
    gone_stays times id (sweep now clock t) (sweep-IsSound now clock t s)
      (rw (lookup-sweep now clock id t s.is_map s.is_keyed, e))

-- A message that nobody acknowledges is gone after one sweep for each retry that it has left and
-- one more, when each sweep starts at least the timeout after the end of the message's last send.
pub unacked_dropped :
    (times : List (ℕ × (String → ℕ))) (id : String) (pm : Pending) (t : AckTracker)
    → IsSound t
    → lookup id t.pending ≡ some pm
    → Spaced t.timeout id pm.sent_at times
    → t.max_retries - pm.retries < length times
    → lookup id (sweeps times t).pending ≡ none
unfolding sweeps
unacked_dropped [] id pm t s e sp n = absurd (omega arith)
unacked_dropped ((now, clock) ∷ times) id pm t s e sp n =
    elim (Bool-cases (leb t.max_retries pm.retries)) [
      | inl over ↦ gone_stays times id (sweep now clock t) (sweep-IsSound now clock t s) (
          lookup-sweep now clock id t s.is_map s.is_keyed
          ∙ (unfold verdict in rw e (ground (arith, over, sp.0))))
      | inr left ↦
          unacked_dropped times id (record pm { sent_at = clock id; retries = pm.retries + 1 })
            (sweep now clock t) (sweep-IsSound now clock t s)
            (lookup-sweep now clock id t s.is_map s.is_keyed
              ∙ (unfold verdict in rw e (ground (arith, left, sp.0))))
            (rw (settings-sweep now clock t).0 sp.1)
            (rw (settings-sweep now clock t).1 (ground (arith, left, n)))
    ]

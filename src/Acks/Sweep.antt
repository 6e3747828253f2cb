-- ===== src/Acks/Sweep.antt =====
-- What one sweep does to each pending message (internal/daemon/acktracker.go).
use tailbus.Base.{
  ℕ, ◌+◌, ◌≡◌, refl, ap, ◌∙◌, String, Bool, true, false, ◌==◌, eq_iff, Option, none, some, List, [],
  ◌∷◌, arith, inl, inr, Option-cases, contains, if◌then◌else◌, Dict, lookup, delete, lookup-insert,
  lookup-delete, IsMap,
}
use tailbus.Acks.{
  Pending, AckTracker, wait, drop, retry, verdict, scan, delete_all, retry_one, retry_all, drop_all,
  sweep,
}

-- Every message stands under its own ID.
abbrev pub IsKeyed : Dict Pending → Type 0
IsKeyed [] = Unit {0}
IsKeyed ((id, pm) ∷ rest) = (pm.env.message_id ≡ id) × IsKeyed rest

pub lookup-delete_all {ℓ} :
    {V : Type ℓ} (ids : List String) (j : String) (m : Dict V)
    → lookup j (delete_all ids m) ≡ (if contains ids j then none else lookup j m)
unfolding delete_all contains
lookup-delete_all [] j m = refl
lookup-delete_all (id ∷ ids) j m =
    ground (arith, lookup-delete_all ids j (delete id m), lookup-delete id j m, eq_iff id j)

bump : ℕ → Option Pending → Option Pending
bump now none = none
bump now (some pm) = some (record pm { sent_at = now; retries = pm.retries + 1 })

lookup-retry_one :
    (clock : String → ℕ) (pm : Pending) (j : String) (t : AckTracker)
    → lookup j (retry_one clock pm t).pending
      ≡ (if pm.env.message_id == j then bump (clock j) (lookup j t.pending) else lookup j t.pending)
unfolding retry_one bump
lookup-retry_one clock pm j t = elim (Option-cases (lookup pm.env.message_id t.pending)) [
  | inl e ↦ rw (e, retry_one) (ground (arith, e, eq_iff pm.env.message_id j))
  | inr (p, e) ↦
      rw (e, retry_one)
        (ground (
          arith,
          e,
          eq_iff pm.env.message_id j,
          lookup-insert pm.env.message_id j
              (record p { sent_at = clock pm.env.message_id; retries = p.retries + 1 }) t.pending,
        ))
]

-- The outcome of a sweep for a message.
abbrev pub after : ℕ → ℕ → ℕ → ℕ → Option Pending → Option Pending
after timeout max_retries now at none = none
after timeout max_retries now at (some pm) = elim (verdict timeout max_retries now pm) [
  | wait ↦ some pm
  | drop ↦ none
  | retry ↦ some (record pm { sent_at = at; retries = pm.retries + 1 })
]

module _ (timeout max_retries now : ℕ) where
  dropped : Option Pending → Bool
  dropped none = false
  dropped (some pm) = elim (verdict timeout max_retries now pm) [ drop ↦ true | _ ↦ false ]

  retried : Option Pending → Bool
  retried none = false
  retried (some pm) = elim (verdict timeout max_retries now pm) [ retry ↦ true | _ ↦ false ]

  not_dropped :
      (j : String) (m : Dict Pending)
      → lookup j m ≡ none
      → contains (scan timeout max_retries now m).0 j ≡ false
  unfolding scan contains lookup
  not_dropped j [] h = refl
  not_dropped j ((id, pm) ∷ rest) h = ground (arith, not_dropped j rest, h)

  contains-scan :
      (j : String) (m : Dict Pending)
      → IsMap m
      → contains (scan timeout max_retries now m).0 j ≡ dropped (lookup j m)
  unfolding scan contains lookup dropped
  contains-scan j [] h = refl
  contains-scan j ((id, pm) ∷ rest) h =
      ground (arith, h.0, contains-scan j rest h.1, not_dropped j rest, eq_iff id j)

  lookup-retry_all :
      (clock : String → ℕ) (j : String) (m : Dict Pending) (t : AckTracker)
      → IsMap m
      → IsKeyed m
      → lookup j (retry_all clock (scan timeout max_retries now m).1 t).pending
        ≡ (if retried (lookup j m) then bump (clock j) (lookup j t.pending) else lookup j t.pending)
  unfolding scan lookup retried retry_all
  lookup-retry_all clock j [] t h k = refl
  lookup-retry_all clock j ((id, pm) ∷ rest) t h k = ground (
    arith,
    h.0,
    k.0,
    lookup-retry_all clock j rest t h.1 k.1,
    lookup-retry_all clock j rest (retry_one clock pm t) h.1 k.1,
    lookup-retry_one clock pm j t,
    eq_iff id j,
  )

  after-parts :
      (at : ℕ) (o : Option Pending)
      → (if retried o
          then bump at (if dropped o then none else o)
          else (if dropped o then none else o))
        ≡ after timeout max_retries now at o
  unfolding dropped retried bump
  after-parts at none = refl
  after-parts at (some pm) = ground arith

-- A sweep decides each message by itself: one that is not due is left alone, one that is due and
-- out of retries goes, and any other due one is stamped with the time after its send and one more retry.
pub lookup-sweep :
    (now : ℕ) (clock : String → ℕ) (j : String) (t : AckTracker)
    → IsMap t.pending
    → IsKeyed t.pending
    → lookup j (sweep now clock t).pending
      ≡ after t.timeout t.max_retries now (clock j) (lookup j t.pending)
unfolding sweep drop_all
lookup-sweep now clock j t h k =
    let m = t.pending in
    lookup-retry_all t.timeout t.max_retries now clock j m
      (drop_all (scan t.timeout t.max_retries now m).0 t) h k
    ∙ ap
        (λ (o : Option Pending).
          if retried t.timeout t.max_retries now (lookup j m) then bump (clock j) o else o)
        (lookup-delete_all (scan t.timeout t.max_retries now m).0 j m
          ∙ ap (λ (b : Bool). if b then none else lookup j m)
              (contains-scan t.timeout t.max_retries now j m h))
    ∙ after-parts t.timeout t.max_retries now (clock j) (lookup j m)

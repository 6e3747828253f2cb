-- ===== src/Acks/Bucket.antt =====
-- The bucket of pending messages (internal/daemon/msgstore.go): one entry for each ID.

use tailbus.Base.{
  ℕ, ◌≡◌, refl, String, eq_iff, some, List, [], ◌∷◌, arith, inl, inr, Option-cases, Dict, lookup,
  insert, delete, IsMap, insert-IsMap, delete-IsMap,
}
use tailbus.Envelope.{Envelope}
use tailbus.Acks.{StoredPending, delete_all, store_pending, update_pending}

-- Every stored message stands under its own ID.
abbrev pub IsFiled : Dict StoredPending → Type 0
IsFiled [] = Unit {0}
IsFiled ((id, sp) ∷ rest) = (sp.envelope.message_id ≡ id) × IsFiled rest

delete-IsFiled : (k : String) (d : Dict StoredPending) → IsFiled d → IsFiled (delete k d)
unfolding delete
delete-IsFiled k [] h = tt
delete-IsFiled k ((id, sp) ∷ rest) h = ground (arith, h.0, delete-IsFiled k rest h.1)

insert-IsFiled :
    (k : String) (sp : StoredPending) (d : Dict StoredPending)
    → sp.envelope.message_id ≡ k
    → IsFiled d
    → IsFiled (insert k sp d)
unfolding insert
insert-IsFiled k sp [] e h = (e, tt)
insert-IsFiled k sp ((id, q) ∷ rest) e h =
    ground (arith, h.0, e, insert-IsFiled k sp rest e h.1, eq_iff id k)

lookup-IsFiled :
    (k : String) (d : Dict StoredPending) (sp : StoredPending)
    → IsFiled d
    → lookup k d ≡ some sp
    → sp.envelope.message_id ≡ k
unfolding lookup
lookup-IsFiled k [] sp h e = cc
lookup-IsFiled k ((id, q) ∷ rest) sp h e =
    ground (arith, h.0, lookup-IsFiled k rest sp h.1, eq_iff id k)

-- The bucket has one entry for each key, filed under its message's ID.
pub record IsBucket (d : Dict StoredPending) : Type 0 where
  pub is_map : IsMap d
  pub is_filed : IsFiled d

pub store_pending-IsBucket :
    (env : Envelope) (addr : String) (at n : ℕ) (d : Dict StoredPending)
    → IsBucket d
    → IsBucket (store_pending env addr at n d)
unfolding store_pending
store_pending-IsBucket env addr at n d h = record {
  is_map = insert-IsMap env.message_id _ d h.is_map;
  is_filed = insert-IsFiled env.message_id _ d refl h.is_filed;
}

pub delete-IsBucket : (id : String) (d : Dict StoredPending) → IsBucket d → IsBucket (delete id d)
delete-IsBucket id d h = record {
  is_map = delete-IsMap id d h.is_map;
  is_filed = delete-IsFiled id d h.is_filed;
}

pub update_pending-IsBucket :
    (id : String) (at n : ℕ) (d : Dict StoredPending)
    → IsBucket d
    → IsBucket (update_pending id at n d)
unfolding update_pending
update_pending-IsBucket id at n d h = elim (Option-cases (lookup id d)) [
  | inl e ↦ rw (e, update_pending) h
  | inr (sp, e) ↦
      rw (e, update_pending)
        (record {
          is_map = insert-IsMap id _ d h.is_map;
          is_filed = insert-IsFiled id _ d (lookup-IsFiled id d sp h.is_filed e) h.is_filed;
        })
]

pub delete_all-IsBucket :
    (ids : List String) (d : Dict StoredPending) → IsBucket d → IsBucket (delete_all ids d)
unfolding delete_all
delete_all-IsBucket [] d h = h
delete_all-IsBucket (id ∷ ids) d h = delete_all-IsBucket ids (delete id d) (delete-IsBucket id d h)

-- ===== src/Session/Store/Evict.antt =====
-- What eviction removes (internal/session/session.go).
use tailbus.Base.{
  ℕ, ◌-◌, ◌≡◌, String, Bool, false, refl, ◌==◌, eq_iff, Option, none, some, [], ◌∷◌, arith, ◌∙◌,
  ◌&&◌, ◌||◌, IsMap, if◌then◌else◌, Dict, lookup, delete, lookup-delete,
}
use tailbus.Session.{Session, state_open}
use tailbus.Session.Store.{Store, is_stale, evict_loop, evict, get}

-- Some entry of that key is stale.
stale_at : ℕ → String → Dict Session → Bool
stale_at cutoff j [] = false
stale_at cutoff j ((id, sess) ∷ rest) = (id == j && is_stale cutoff sess) || stale_at cutoff j rest

lookup-evict_loop :
    (cutoff : ℕ) (j : String) (entries m : Dict Session)
    → lookup j (evict_loop cutoff entries m).0
      ≡ (if stale_at cutoff j entries then none else lookup j m)
unfolding evict_loop stale_at
lookup-evict_loop cutoff j [] m = refl
lookup-evict_loop cutoff j ((id, sess) ∷ rest) m = ground (
  arith,
  lookup-evict_loop cutoff j rest m,
  lookup-evict_loop cutoff j rest (delete id m),
  lookup-delete id j m,
)

-- The session, if it is there and not stale.
abbrev pub fresh : ℕ → Option Session → Option Session
fresh cutoff none = none
fresh cutoff (some s) = if is_stale cutoff s then none else some s

stale_at-none :
    (cutoff : ℕ) (j : String) (m : Dict Session) → lookup j m ≡ none → stale_at cutoff j m ≡ false
unfolding stale_at lookup
stale_at-none cutoff j [] h = refl
stale_at-none cutoff j ((id, sess) ∷ rest) h = ground (arith, stale_at-none cutoff j rest)

fresh-lookup :
    (cutoff : ℕ) (j : String) (m : Dict Session)
    → IsMap m
    → (if stale_at cutoff j m then none else lookup j m) ≡ fresh cutoff (lookup j m)
unfolding stale_at lookup
fresh-lookup cutoff j [] h = refl
fresh-lookup cutoff j ((id, sess) ∷ rest) h =
    ground (arith, h.0, eq_iff id j, stale_at-none cutoff j rest, fresh-lookup cutoff j rest h.1)

-- After an eviction a look-up finds what it found before, unless that session was resolved and
-- last touched before `now - ttl`; then it finds nothing.
pub get-evict :
    (ttl now : ℕ) (id : String) (st : Store)
    → IsMap st.sessions
    → get id (evict ttl now st).0 ≡ fresh (now - ttl) (get id st)
unfolding get evict
get-evict ttl now id st h =
    lookup-evict_loop (now - ttl) id st.sessions st.sessions
    ∙ fresh-lookup (now - ttl) id st.sessions h

-- An open session is never evicted.
pub get-evict_open :
    (ttl now : ℕ) (id : String) (st : Store) (s : Session)
    → IsMap st.sessions
    → get id st ≡ some s
    → s.state ≡ state_open
    → get id (evict ttl now st).0 ≡ some s
get-evict_open ttl now id st s h found op =
    rw (get-evict ttl now id st h, found) (unfold is_stale in ground arith)

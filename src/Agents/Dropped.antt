-- ===== src/Agents/Dropped.antt =====
-- What the end of a connection does to each map of the server (internal/daemon/agentserver.go).
use tailbus.Base.{
  ℕ, ◌≡◌, refl, String, eq_iff, none, [], ◌∷◌, arith, if◌then◌else◌, Dict, lookup, delete,
  lookup-delete,
}
use tailbus.Agents.{
  notify, Names, has, AgentServer, update, drop_handle, drop_handles, disconnect_conn,
}

-- The dictionary without the names.
unfoldable pub without_names {ℓ} : {V : Type ℓ} → Names → Dict V → Dict V
without_names [] d = d
without_names ((h, _) ∷ hs) d = without_names hs (delete h d)

pub lookup-without_names {ℓ} :
    {V : Type ℓ} (hs : Names) (j : String) (d : Dict V)
    → lookup j (without_names hs d) ≡ (if has j hs then none else lookup j d)
unfolding without_names lookup
lookup-without_names [] j d = refl
lookup-without_names ((h, u) ∷ hs) j d =
    ground (arith, lookup-without_names hs j (delete h d), lookup-delete h j d, eq_iff h j)

-- What a disconnect does to each field.
pub record Dropped (hs : Names) (s t : AgentServer) : Type 0 where
  pub handles_eq : t.handles ≡ without_names hs s.handles
  pub manifests_eq : t.manifests ≡ without_names hs s.manifests
  pub owner_eq : t.handle_owner ≡ without_names hs s.handle_owner
  pub subscribers_eq : t.subscribers ≡ without_names hs s.subscribers
  pub conn_eq : t.conn_handles ≡ s.conn_handles
  pub panicked_eq : t.panicked ≡ s.panicked

pub drop_handles-Dropped : (hs : Names) (s : AgentServer) → Dropped hs s (drop_handles hs s)
unfolding drop_handles drop_handle without_names
drop_handles-Dropped [] s = record {
  handles_eq = refl;
  manifests_eq = refl;
  owner_eq = refl;
  subscribers_eq = refl;
  conn_eq = refl;
  panicked_eq = refl;
}
drop_handles-Dropped ((h, u) ∷ hs) s =
    let d = drop_handles-Dropped hs (drop_handle h s) in
    record {
      handles_eq = d.handles_eq;
      manifests_eq = d.manifests_eq;
      owner_eq = d.owner_eq;
      subscribers_eq = d.subscribers_eq;
      conn_eq = d.conn_eq;
      panicked_eq = d.panicked_eq;
    }

-- Only the log of changes moves.
pub notify-Dropped :
    (hs ks : Names) (s t : AgentServer) → Dropped hs s t → Dropped hs s (notify ks t)
notify-Dropped hs [] s t d = d
notify-Dropped hs (_ ∷ _) s t d = record {
  handles_eq = d.handles_eq;
  manifests_eq = d.manifests_eq;
  owner_eq = d.owner_eq;
  subscribers_eq = d.subscribers_eq;
  conn_eq = d.conn_eq;
  panicked_eq = d.panicked_eq;
}

pub disconnect-Dropped :
    (c : ℕ) (s : AgentServer)
    → Dropped
        (s.conn_handles c)
        (record s { conn_handles = update c [] s.conn_handles })
        (disconnect_conn c s)
unfolding disconnect_conn
disconnect-Dropped c s = notify-Dropped (s.conn_handles c) (s.conn_handles c) _ _ (
    drop_handles-Dropped (s.conn_handles c)
      (record s { conn_handles = update c [] s.conn_handles }))

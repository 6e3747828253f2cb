-- ===== src/Agents/Channels.antt =====
-- The channels of the subscribers (internal/daemon/agentserver.go): none that a delivery uses is
-- closed, unless the delivery reads the list before the end of a connection and sends after it.
use tailbus.Base.{
  ℕ, ◌<◌, ◌≡◌, refl, String, Bool, true, false, ◌==◌, eq_iff, ◌||◌, ◌&&◌, Option, some, List, [],
  ◌∷◌, ◌++◌, arith, inl, inr, Bool-cases, Option-cases, eqb, eqb_iff, if◌then◌else◌, lookup, insert,
  lookup-insert, lookup-delete, Result, ok, err,
}
use tailbus.Agents.{
  Names, Channel, AgentServer, AuthError, RegisterRequest, update, subs, channels_of, has_handle,
  register, add_subscriber, drop_channel, unsubscribe, close_all, drop_handle, drop_handles, notify,
  disconnect_conn,
}

abbrev pub among : ℕ → List ℕ → Bool
among i [] = false
among i (ch ∷ chs) = eqb ch i || among i chs

-- Each subscribed channel has been made, serves one handle, and is open; nothing has crashed.
pub record IsLive (s : AgentServer) : Type 0 where
  pub made : (h : String) (i : ℕ) → among i (subs h s) ≡ true → i < s.next_channel
  pub alone : (h k : String) (i : ℕ) → among i (subs h s) ≡ true → among i (subs k s) ≡ true → h ≡ k
  pub opened : (h : String) (i : ℕ) → among i (subs h s) ≡ true → (s.channels i).closed ≡ false
  pub calm : s.panicked ≡ false

pub closed-close_all :
    (chs : List ℕ) (m : ℕ → Channel) (i : ℕ)
    → (close_all chs m i).closed ≡ (among i chs || (m i).closed)
unfolding close_all
closed-close_all [] m i = refl
closed-close_all (ch ∷ chs) m i =
    ground
      (arith, closed-close_all chs (update ch (record (m ch) { closed = true }) m) i, eqb_iff ch i)

pub subs-drop_handle :
    (h k : String) (i : ℕ) (s : AgentServer)
    → among i (subs k (drop_handle h s)) ≡ (if h == k then false else among i (subs k s))
unfolding drop_handle
subs-drop_handle h k i s = ground (arith, lookup-delete h k s.subscribers)

drop_handle-IsLive : (h : String) (s : AgentServer) → IsLive s → IsLive (drop_handle h s)
unfolding drop_handle
drop_handle-IsLive h s w = record {
  made = λ k i e. ground (arith, subs-drop_handle h k i s, w.made k i, e);
  alone = λ k l i e f.
      ground (arith, subs-drop_handle h k i s, subs-drop_handle h l i s, w.alone k l i, e, f);
  opened = λ k i e. ground (
    arith,
    subs-drop_handle h k i s,
    closed-close_all (subs h s) s.channels i,
    w.alone h k i,
    w.opened k i,
    eq_iff h k,
    e,
  );
  calm = w.calm;
}

drop_handles-IsLive : (hs : Names) (s : AgentServer) → IsLive s → IsLive (drop_handles hs s)
unfolding drop_handles
drop_handles-IsLive [] s w = w
drop_handles-IsLive ((h, u) ∷ hs) s w =
    drop_handles-IsLive hs (drop_handle h s) (drop_handle-IsLive h s w)

notify-IsLive : (hs : Names) (s : AgentServer) → IsLive s → IsLive (notify hs s)
notify-IsLive [] s w = w
notify-IsLive (_ ∷ _) s w = record {
  made = w.made;
  alone = w.alone;
  opened = w.opened;
  calm = w.calm;
}

pub disconnect-IsLive : (c : ℕ) (s : AgentServer) → IsLive s → IsLive (disconnect_conn c s)
unfolding disconnect_conn
disconnect-IsLive c s w = notify-IsLive (s.conn_handles c) _ (
    drop_handles-IsLive (s.conn_handles c) (record s { conn_handles = update c [] s.conn_handles })
      (record { made = w.made; alone = w.alone; opened = w.opened; calm = w.calm }))

pub register-IsLive :
    (conn : Option ℕ) (req : RegisterRequest) (s : AgentServer)
    → IsLive s
    → IsLive (register conn req s).1
unfolding register
register-IsLive conn req s w = elim (Bool-cases (has_handle req.handle s)) [
  | inl e ↦ rw (e, register) w
  | inr e ↦
      rw (e, register) (record { made = w.made; alone = w.alone; opened = w.opened; calm = w.calm })
]

among-snoc : (i c : ℕ) (chs : List ℕ) → among i (chs ++ c ∷ []) ≡ (among i chs || eqb c i)
among-snoc i c [] = ground arith
among-snoc i c (ch ∷ chs) = ground (arith, among-snoc i c chs)

-- One more channel for `h`.
subs-added :
    (h k : String) (i : ℕ) (s : AgentServer)
    → among i (channels_of (lookup k (insert h (subs h s ++ s.next_channel ∷ []) s.subscribers)))
      ≡ (among i (subs k s) || ((h == k) && eqb s.next_channel i))
subs-added h k i s = ground (
  arith,
  lookup-insert h k (subs h s ++ s.next_channel ∷ []) s.subscribers,
  among-snoc i s.next_channel (subs h s),
  eq_iff h k,
)

pub add_subscriber-IsLive :
    (r : Result AuthError (Unit {0})) (h : String) (s : AgentServer)
    → IsLive s
    → IsLive (add_subscriber r h s).1
add_subscriber-IsLive (err e) h s w = w
add_subscriber-IsLive (ok u) h s w = record {
  made = λ k i e. ground (arith, subs-added h k i s, w.made k i, eqb_iff s.next_channel i, e);
  alone = λ k l i e f. ground (
    arith,
    subs-added h k i s,
    subs-added h l i s,
    w.alone k l i,
    w.made k i,
    w.made l i,
    eqb_iff s.next_channel i,
    eq_iff h k,
    eq_iff h l,
    e,
    f,
  );
  opened = λ k i e. ground (arith, subs-added h k i s, w.opened k i, eqb_iff s.next_channel i, e);
  calm = w.calm;
}

among-drop_channel :
    (i ch : ℕ) (chs : List ℕ) → among i (drop_channel ch chs) ≡ true → among i chs ≡ true
unfolding drop_channel
among-drop_channel i ch [] e = e
among-drop_channel i ch (c ∷ chs) e = ground (arith, among-drop_channel i ch chs, e)

subs-removed :
    (h k : String) (i ch : ℕ) (chs : List ℕ) (s : AgentServer)
    → lookup h s.subscribers ≡ some chs
    → among i (channels_of (lookup k (insert h (drop_channel ch chs) s.subscribers))) ≡ true
    → among i (subs k s) ≡ true
subs-removed h k i ch chs s found e = ground (
  arith,
  lookup-insert h k (drop_channel ch chs) s.subscribers,
  among-drop_channel i ch chs,
  eq_iff h k,
  found,
  e,
)

pub unsubscribe-IsLive :
    (h : String) (ch : ℕ) (s : AgentServer) → IsLive s → IsLive (unsubscribe h ch s)
unfolding unsubscribe
unsubscribe-IsLive h ch s w = elim (Option-cases (lookup h s.subscribers)) [
  | inl e ↦ rw (e, unsubscribe) w
  | inr (chs, e) ↦
      rw (e, unsubscribe)
        (record {
          made = λ k i m. w.made k i (subs-removed h k i ch chs s e m);
          alone = λ k l i m n.
              w.alone k l i (subs-removed h k i ch chs s e m) (subs-removed h l i ch chs s e n);
          opened = λ k i m. w.opened k i (subs-removed h k i ch chs s e m);
          calm = w.calm;
        })
]

-- ===== src/Relay/Forwarding.antt =====
-- Where the relay sends a message (internal/relay/server.go).
use tailbus.Base.{
  subst, ap, ◌∙◌, ok, Result-cases, ℕ, ◌≡◌, ◌≢◌, String, Bool, true, false, ◌==◌, Option,
  Option-cases, none, some, List, [], ◌∷◌, ◌++◌, eqb, if◌then◌else◌, lookup, insert, lookup-insert,
  lookup-delete, lookup-insert_self, arith, eq_iff, inl, inr, Bool-cases, str_eq_ne,
}
use tailbus.Relay.{
  Message, Server, Peer, extract_pub_key, cut, connect, disconnect, send_to, forward,
}

pub data Op : Type 0 where
  connects : ℕ → Peer → Op
  leaves : ℕ → String → Op
  receives : (ℕ → Bool) → String → Message → Op

abbrev pub handle : Op → Server → Server
handle (connects id p) s = connect id p s
handle (leaves id key) s = disconnect id key s
handle (receives broken from msg) s = forward broken from msg s

-- A process that has panicked handles nothing more.
unfoldable pub step : Op → Server → Server
step op s = if s.panicked then s else handle op s

unfoldable pub run : List Op → Server → Server
run [] s = s
run (op ∷ ops) s = run ops (step op s)

-- The event leaves the stream of a key alone: no other stream connects with the key, and the stream
-- does not end.
abbrev pub Spares : String → ℕ → Op → Type 0
Spares key id (connects other p) = extract_pub_key p ≢ ok key
Spares key id (leaves other k) = (k ≡ key) → (other ≢ id)
Spares key id (receives broken from msg) = Unit {0}

abbrev pub Sparing : String → ℕ → List Op → Type 0
Sparing key id [] = Unit {0}
Sparing key id (op ∷ ops) = Spares key id op × Sparing key id ops

cut-streams : (key : String) (s : Server) → (cut key s).streams ≡ s.streams
cut-streams key s = ground arith

cut-sent : (key : String) (s : Server) → (cut key s).sent ≡ s.sent
cut-sent key s = ground arith

send_to-streams :
    (broken : ℕ → Bool) (from : String) (msg : Message) (target : Option ℕ) (s : Server)
    → (send_to broken from msg target s).streams ≡ s.streams
send_to-streams broken from msg none s =
    cut-streams msg.relay_target_key (cut from s) ∙ cut-streams from s
send_to-streams broken from msg (some target) s = ground arith

forward-streams :
    (broken : ℕ → Bool) (from : String) (msg : Message) (s : Server)
    → (forward broken from msg s).streams ≡ s.streams
unfolding forward
forward-streams broken from msg s = ground (
  arith,
  cut-streams from s,
  send_to-streams broken from msg (lookup msg.relay_target_key s.streams) s,
)

connect-lookup :
    (key : String) (id other : ℕ) (p : Peer) (s : Server)
    → extract_pub_key p ≢ ok key
    → lookup key s.streams ≡ some id
    → lookup key (connect other p s).streams ≡ some id
unfolding connect
connect-lookup key id other p s differs e = elim (Result-cases (extract_pub_key p)) [
  | inl (bad, f) ↦ rw f e
  | inr (k, f) ↦
      let other_key : (k == key) ≡ false = str_eq_ne k key (λ same. differs (f ∙ ap ok same)) in
      rw f (
        ap (lookup key) (cut-streams k (record s { streams = insert k other s.streams }))
        ∙ lookup-insert k key other s.streams
        ∙ ap (λ b. if b then some other else lookup key s.streams) other_key
        ∙ e)
]

disconnect-lookup :
    (key k : String) (id other : ℕ) (s : Server)
    → ((k ≡ key) → (other ≢ id))
    → lookup key s.streams ≡ some id
    → lookup key (disconnect other k s).streams ≡ some id
unfolding disconnect
disconnect-lookup key k id other s spares e = elim (Option-cases (lookup k s.streams)) [
  | inl gone ↦ rw gone e
  | inr (current, f) ↦ rw f (elim (Bool-cases (eqb current other)) [
    | inr newer ↦ rw newer e
    | inl own ↦ rw own (elim (Bool-cases (k == key)) [
      | inl same ↦
          absurd (spares ((eq_iff k key).0 same) (ground (arith, own, f, e, same, eq_iff k key)))
      | inr other_key ↦ ground (arith, lookup-delete k key s.streams, other_key, e)
    ])
  ])
]

handle-lookup :
    (key : String) (id : ℕ) (op : Op) (s : Server)
    → Spares key id op
    → lookup key s.streams ≡ some id
    → lookup key (handle op s).streams ≡ some id
handle-lookup key id (connects other p) s spares e = connect-lookup key id other p s spares e
handle-lookup key id (leaves other k) s spares e = disconnect-lookup key k id other s spares e
handle-lookup key id (receives broken from msg) s spares e =
    ap (lookup key) (forward-streams broken from msg s) ∙ e

pub step_live : (op : Op) (s : Server) → s.panicked ≡ false → step op s ≡ handle op s
unfolding step
step_live op s lives = ap (λ b. if b then s else handle op s) lives

step_dead : (op : Op) (s : Server) → s.panicked ≡ true → step op s ≡ s
unfolding step
step_dead op s over = ap (λ b. if b then s else handle op s) over

step-lookup :
    (key : String) (id : ℕ) (op : Op) (s : Server)
    → Spares key id op
    → lookup key s.streams ≡ some id
    → lookup key (step op s).streams ≡ some id
step-lookup key id op s spares e = elim (Bool-cases s.panicked) [
  | inl over ↦ ap (λ (x : Server). lookup key x.streams) (step_dead op s over) ∙ e
  | inr lives ↦
      ap (λ (x : Server). lookup key x.streams) (step_live op s lives)
      ∙ handle-lookup key id op s spares e
]

-- A process that lives at the end has lived all along.
run_lived : (ops : List Op) (s : Server) → (run ops s).panicked ≡ false → s.panicked ≡ false
unfolding run
run_lived [] s lives = lives
run_lived (op ∷ ops) s lives = elim (Bool-cases s.panicked) [
  | inr now ↦ now
  | inl over ↦
      run_lived ops s
        (subst (λ (x : Server). (run ops x).panicked ≡ false) (step_dead op s over) lives)
]

run-lookup :
    (key : String) (id : ℕ) (ops : List Op) (s : Server)
    → Sparing key id ops
    → lookup key s.streams ≡ some id
    → lookup key (run ops s).streams ≡ some id
unfolding run
run-lookup key id [] s spares e = e
run-lookup key id (op ∷ ops) s spares e =
    run-lookup key id ops (step op s) spares.1 (step-lookup key id op s spares.0 e)

pub forward-sent :
    (broken : ℕ → Bool) (from : String) (msg : Message) (id : ℕ) (s : Server)
    → lookup msg.relay_target_key s.streams ≡ some id
    → msg.relay_target_key ≢ ""
    → broken id ≡ false
    → (forward broken from msg s).sent ≡ s.sent ++ (id, msg) ∷ []
unfolding forward
forward-sent broken from msg id s e named works =
    rw (str_eq_ne msg.relay_target_key "" named, e, works)
      (cut-sent msg.relay_target_key (cut from (record s { sent = s.sent ++ (id, msg) ∷ [] }))
        ∙ cut-sent from (record s { sent = s.sent ++ (id, msg) ∷ [] }))

pub connect-own :
    (key : String) (id : ℕ) (p : Peer) (s : Server)
    → extract_pub_key p ≡ ok key
    → lookup key (connect id p s).streams ≡ some id
unfolding connect
connect-own key id p s named = rw named (
    ap (lookup key) (cut-streams key (record s { streams = insert key id s.streams }))
    ∙ lookup-insert_self key id s.streams)

pub step-sent :
    (broken : ℕ → Bool) (from : String) (msg : Message) (id : ℕ) (s : Server)
    → s.panicked ≡ false
    → lookup msg.relay_target_key s.streams ≡ some id
    → msg.relay_target_key ≢ ""
    → broken id ≡ false
    → (step (receives broken from msg) s).sent ≡ s.sent ++ (id, msg) ∷ []
step-sent broken from msg id s lives e named works =
    rw (step_live (receives broken from msg) s lives)
      (forward-sent broken from msg id s e named works)

pub connects-own :
    (key : String) (id : ℕ) (p : Peer) (ops : List Op) (s : Server)
    → extract_pub_key p ≡ ok key
    → (run (connects id p ∷ ops) s).panicked ≡ false
    → lookup key (step (connects id p) s).streams ≡ some id
connects-own key id p ops s named lives =
    rw (step_live (connects id p) s (run_lived (connects id p ∷ ops) s lives))
      (connect-own key id p s named)

last :
    (key : String) (id : ℕ) (p : Peer) (ops : List Op) (s : Server)
    → extract_pub_key p ≡ ok key
    → Sparing key id ops
    → (run (connects id p ∷ ops) s).panicked ≡ false
    → lookup key (run (connects id p ∷ ops) s).streams ≡ some id
unfolding run
last key id p ops s named sparing lives =
    run-lookup key id ops (step (connects id p) s) sparing (connects-own key id p ops s named lives)

-- From the connection of a stream on, until its end or the connection of another stream with its key, a
-- message to the key is sent to the stream, once, whoever sends it, as long as the relay has not
-- panicked. The end of an older stream with the key does not matter.
pub connected_reached :
    (key : String) (id : ℕ) (p : Peer) (ops : List Op) (s : Server) (broken : ℕ → Bool)
    (from payload : String)
    → extract_pub_key p ≡ ok key
    → Sparing key id ops
    → key ≢ ""
    → broken id ≡ false
    → (run (connects id p ∷ ops) s).panicked ≡ false
    → let s' = run (connects id p ∷ ops) s in
      let msg : Message = record { relay_target_key = key; payload = payload } in
      (step (receives broken from msg) s').sent ≡ s'.sent ++ (id, msg) ∷ []
connected_reached key id p ops s broken from payload named sparing given works lives =
    step-sent broken from (record { relay_target_key = key; payload = payload }) id
      (run (connects id p ∷ ops) s) lives (last key id p ops s named sparing lives) given works

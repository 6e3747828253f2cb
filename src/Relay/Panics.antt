-- ===== src/Relay/Panics.antt =====
-- How a peer can end the relay's process (internal/relay/server.go), and when none can.
use Prim.Native.String.{len}
use tailbus.Base.{
  eq_iff, ap, ◌∙◌, ok, Result-cases, ℕ, ◌≡◌, ◌≢◌, ◌≤◌, ◌<◌, refl, String, Bool, true, false, ◌==◌,
  Option-cases, none, List, [], ◌∷◌, ◌++◌, lookup, insert, arith, inl, inr, Bool-cases, lt→ltb,
  str_eq_ne,
}
use tailbus.Relay.{Server, Peer, new_server, extract_pub_key, cut, connect, forward, disconnect}
use tailbus.Relay.Forwarding.{step_live, handle, Op, connects, leaves, receives, step, run}

cut-panics : (key : String) (s : Server) → len key < 16 → (cut key s).panicked ≡ true
cut-panics key s short = rw (lt→ltb (len key) 16 short) refl

-- A peer whose key has less than eight bytes ends the relay as it connects, and so does a message that
-- names such a key of nobody.
pub short_key_panics :
    (key : String) (s : Server)
    → len key < 16
    → ((id : ℕ) (p : Peer) → extract_pub_key p ≡ ok key → (connect id p s).panicked ≡ true)
      × ((broken : ℕ → Bool) (from payload : String)
          → key ≢ ""
          → lookup key s.streams ≡ none
          → (forward broken from (record { relay_target_key = key; payload = payload }) s).panicked
            ≡ true)
unfolding connect forward
short_key_panics key s short = (
  λ id p named. rw named (cut-panics key (record s { streams = insert key id s.streams }) short),
  λ broken from payload given absent.
      rw (str_eq_ne key "" given, absent) (cut-panics key (cut from s) short),
)

-- The keys of an event are long enough.
abbrev pub LongKeys : Op → Type 0
LongKeys (connects id p) = (key : String) → extract_pub_key p ≡ ok key → 16 ≤ len key
LongKeys (leaves id key) = Unit {0}
LongKeys (receives broken from msg) =
    (16 ≤ len from) × ((msg.relay_target_key ≢ "") → 16 ≤ len msg.relay_target_key)

cut_calm : (key : String) (s : Server) → 16 ≤ len key → (cut key s).panicked ≡ s.panicked
cut_calm key s long = ground (arith, long)

handle_calm :
    (op : Op) (s : Server) → LongKeys op → s.panicked ≡ false → (handle op s).panicked ≡ false
unfolding connect disconnect forward
handle_calm (connects id p) s long calm = elim (Result-cases (extract_pub_key p)) [
  | inl (e, f) ↦ rw f calm
  | inr (key, f) ↦
      rw f (cut_calm key (record s { streams = insert key id s.streams }) (long key f) ∙ calm)
]
handle_calm (leaves id key) s long calm = ground (arith, calm)
handle_calm (receives broken from msg) s long calm =
    elim (Bool-cases (msg.relay_target_key == "")) [
      | inl unnamed ↦ rw unnamed (cut_calm from s long.0 ∙ calm)
      | inr named ↦
          let far = long.1 (λ e. ground (arith, named, e, eq_iff msg.relay_target_key "")) in
          rw named (elim (Option-cases (lookup msg.relay_target_key s.streams)) [
            | inl gone ↦
                rw gone
                  (cut_calm msg.relay_target_key (cut from s) far ∙ cut_calm from s long.0 ∙ calm)
            | inr (target, e) ↦ rw e (elim (Bool-cases (broken target)) [
              | inl fails ↦ rw fails (cut_calm msg.relay_target_key s far ∙ calm)
              | inr works ↦
                  let s' = record s { sent = s.sent ++ (target, msg) ∷ [] } in
                  rw works (
                    cut_calm msg.relay_target_key (cut from s') far
                    ∙ cut_calm from s' long.0
                    ∙ calm)
            ])
          ])
    ]

step_calm : (op : Op) (s : Server) → LongKeys op → s.panicked ≡ false → (step op s).panicked ≡ false
step_calm op s long calm =
    ap (λ (x : Server). x.panicked) (step_live op s calm) ∙ handle_calm op s long calm

abbrev pub AllLong : List Op → Type 0
AllLong [] = Unit {0}
AllLong (op ∷ ops) = LongKeys op × AllLong ops

run_calm_from :
    (ops : List Op) (s : Server) → AllLong ops → s.panicked ≡ false → (run ops s).panicked ≡ false
unfolding run
run_calm_from [] s long calm = calm
run_calm_from (op ∷ ops) s long calm =
    run_calm_from ops (step op s) long.1 (step_calm op s long.0 calm)

-- As long as every key has eight bytes, no course of connections, ends and messages ends the relay.
pub long_keys_calm : (ops : List Op) → AllLong ops → (run ops new_server).panicked ≡ false
long_keys_calm ops long = run_calm_from ops new_server long refl

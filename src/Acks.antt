-- ===== src/Acks.antt =====
-- internal/daemon/acktracker.go: messages that wait for an ACK, their retries, and the durable copy
-- of them (internal/daemon/msgstore.go, pending messages). Times are nanoseconds; a write to the
-- database does not fail, and a send that fails is only logged.
pub mod Sweep
pub mod Bucket
pub mod Durable
pub mod Restart
pub mod Tests
pub mod Expiry
use tailbus.Base.{
  ℕ, ◌+◌, ◌-◌, ◌*◌, ◌/◌, ◌^◌, String, Bool, true, false, ◌==◌, Option, none, some, List, [], ◌∷◌,
  ◌++◌, ltb, leb, if◌then◌else◌, Dict, lookup, insert, delete,
}
use tailbus.Envelope.{Envelope}

pub record Pending : Type 0 where
  pub env : Envelope
  pub peer_addr : String
  pub sent_at : ℕ
  pub retries : ℕ

pub record StoredPending : Type 0 where
  pub envelope : Envelope
  pub peer_addr : String
  pub stored_at : ℕ
  pub retries : ℕ

-- `store` is the bucket of pending messages, if a store is attached; `sends` are the calls of
-- `sendFn`.
pub record AckTracker : Type 0 where
  pub pending : Dict Pending
  pub timeout : ℕ
  pub max_retries : ℕ
  pub store : Option (Dict StoredPending)
  pub sends : List (String × Envelope)

abbrev pub default_ack_timeout : ℕ
default_ack_timeout = 5 * 10 ^ 9

abbrev pub default_max_retries : ℕ
default_max_retries = 3

abbrev pub new_ack_tracker : AckTracker
new_ack_tracker = record {
  pending = [];
  timeout = default_ack_timeout;
  max_retries = default_max_retries;
  store = none;
  sends = [];
}

abbrev pub on_store :
    (Dict StoredPending → Dict StoredPending)
    → Option (Dict StoredPending)
    → Option (Dict StoredPending)
on_store f none = none
on_store f (some d) = some (f d)

abbrev pub unix : ℕ → ℕ
unix t = t / 10 ^ 9

-- storePending, and UpdatePending, which leaves a missing key alone.
unfoldable pub store_pending : Envelope → String → ℕ → ℕ → Dict StoredPending → Dict StoredPending
store_pending env peer_addr stored_at retries d =
    insert env.message_id
      (record { envelope = env; peer_addr = peer_addr; stored_at = stored_at; retries = retries }) d

unfoldable pub update_pending : String → ℕ → ℕ → Dict StoredPending → Dict StoredPending
update_pending id sent_at retries d = elim (lookup id d) [
  | none ↦ d
  | some sp ↦ insert id (record sp { stored_at = unix sent_at; retries = retries }) d
]

unfoldable pub restore : Pending → AckTracker → AckTracker
restore pm t = record t { pending = insert pm.env.message_id pm t.pending }

-- The store reads the clock for itself, at `stored`.
unfoldable pub track : Envelope → String → ℕ → ℕ → AckTracker → AckTracker
track env peer_addr now stored t = record t {
  pending =
      insert env.message_id
        (record { env = env; peer_addr = peer_addr; sent_at = now; retries = 0 }) t.pending;
  store = on_store (store_pending env peer_addr (unix stored) 0) t.store;
}

unfoldable pub acknowledge : String → AckTracker → Bool × AckTracker
acknowledge id t = elim (lookup id t.pending) [
  | none ↦ (false, t)
  | some _ ↦
      (true, record t { pending = delete id t.pending; store = on_store (delete id) t.store })
]

-- LoadPending, and the restores that follow it at the start of the daemon.
abbrev pub loaded : StoredPending → Pending
loaded sp = record {
  env = sp.envelope;
  peer_addr = sp.peer_addr;
  sent_at = sp.stored_at * 10 ^ 9;
  retries = sp.retries;
}

unfoldable pub load_pending : Dict StoredPending → List Pending
load_pending [] = []
load_pending ((id, sp) ∷ rest) = loaded sp ∷ load_pending rest

-- A message with no address is discarded.
unfoldable pub discard : Pending → AckTracker → AckTracker
discard pm t = record t { store = on_store (delete pm.env.message_id) t.store }

unfoldable pub restore_one : Pending → AckTracker → AckTracker
restore_one pm t = if pm.peer_addr == "" then discard pm t else restore pm t

unfoldable pub restore_all : List Pending → AckTracker → AckTracker
restore_all [] t = t
restore_all (pm ∷ pms) t = restore_all pms (restore_one pm t)

pub data Verdict : Type 0 where
  wait drop retry : Verdict

-- What a sweep does with one message.
unfoldable pub verdict : ℕ → ℕ → ℕ → Pending → Verdict
verdict timeout max_retries now pm =
    if ltb (now - pm.sent_at) timeout
    then wait
    else if leb max_retries pm.retries
    then drop
    else retry

-- The loop over the map: the IDs to drop, and the messages to retry.
unfoldable pub scan : ℕ → ℕ → ℕ → Dict Pending → List String × List Pending
scan timeout max_retries now [] = ([], [])
scan timeout max_retries now ((id, pm) ∷ rest) =
    let (drops, retries) = scan timeout max_retries now rest in
    elim (verdict timeout max_retries now pm) [
      | wait ↦ (drops, retries)
      | drop ↦ (id ∷ drops, retries)
      | retry ↦ (drops, pm ∷ retries)
    ]

unfoldable pub delete_all {ℓ} : {V : Type ℓ} → List String → Dict V → Dict V
delete_all [] m = m
delete_all (id ∷ ids) m = delete_all ids (delete id m)

-- One retry: the send, and then the entry's counters, if it has not been acknowledged meanwhile. The
-- clock is read after the send, which takes its time: `clock` says what it then shows for a message.
unfoldable pub retry_one : (String → ℕ) → Pending → AckTracker → AckTracker
retry_one clock pm t =
    let sent = record t { sends = t.sends ++ (pm.peer_addr, pm.env) ∷ [] } in
    let now = clock pm.env.message_id in
    elim (lookup pm.env.message_id t.pending) [
      | none ↦ sent
      | some existing ↦ record sent {
        pending =
            insert pm.env.message_id
              (record existing { sent_at = now; retries = existing.retries + 1 }) t.pending;
        store = on_store (update_pending pm.env.message_id now (existing.retries + 1)) t.store;
      }
    ]

unfoldable pub retry_all : (String → ℕ) → List Pending → AckTracker → AckTracker
retry_all clock [] t = t
retry_all clock (pm ∷ pms) t = retry_all clock pms (retry_one clock pm t)

unfoldable pub drop_all : List String → AckTracker → AckTracker
drop_all ids t = record t {
  pending = delete_all ids t.pending;
  store = on_store (delete_all ids) t.store;
}

-- A sweep that no ACK interrupts.
unfoldable pub sweep : ℕ → (String → ℕ) → AckTracker → AckTracker
sweep now clock t =
    let (drops, retries) = scan t.timeout t.max_retries now t.pending in
    retry_all clock retries (drop_all drops t)

-- ===== src/Agents.antt =====
-- internal/daemon/agentserver.go: handles, the connections that own them, and the channels of their
-- subscribers. A map[string]bool, whose values are all true, is a dictionary of units; the map of
-- connections is a function; a channel is shared by its number. A call of `onHandleChange` is
-- appended to `changes`; the activity event of a registration is left out.
pub mod Deliver
pub mod Same
pub mod Dropped
pub mod Takeover
pub mod Ownership
pub mod Channels
pub mod Crash
mod Tests
use tailbus.Base.{
  ℕ, ◌+◌, String, Bool, true, false, ◌==◌, Option, none, some, List, [], ◌∷◌, ◌++◌, Result, ok, err,
  eqb, if◌then◌else◌, Dict, lookup, insert, delete,
}
use tailbus.Envelope.{Envelope}
use tailbus.Resolver.{ServiceManifest}
use tailbus.Rooms.{RoomEvent}

-- IncomingMessage: an envelope or a room event.
pub data Incoming : Type 0 where
  envelope : Envelope → Incoming
  room_event : RoomEvent → Incoming

pub record Channel : Type 0 where
  pub queue : List Incoming
  pub closed : Bool

pub record HandleStats : Type 0 where
  pub msgs_in : ℕ
  pub msgs_out : ℕ
  pub drops : ℕ

abbrev pub Names : Type 0
Names = Dict (Unit {0})

abbrev pub has : String → Names → Bool
has h names = elim (lookup h names) [ none ↦ false | some _ ↦ true ]

-- `next_channel` is the number of the next channel made; `panicked` is a crash of the process.
pub record AgentServer : Type 0 where
  pub handles : Names
  pub manifests : Dict ServiceManifest
  pub subscribers : Dict (List ℕ)
  pub hstats : Dict HandleStats
  pub conn_handles : ℕ → Names
  pub handle_owner : Dict ℕ
  pub channels : ℕ → Channel
  pub next_channel : ℕ
  pub changes : List (Names × Dict ServiceManifest)
  pub panicked : Bool

abbrev pub new_channel : Channel
new_channel = record { queue = []; closed = false }

abbrev pub new_agent_server : AgentServer
new_agent_server = record {
  handles = [];
  manifests = [];
  subscribers = [];
  hstats = [];
  conn_handles = λ c. [];
  handle_owner = [];
  channels = λ i. new_channel;
  next_channel = 0;
  changes = [];
  panicked = false;
}

-- m[k] = v, for a map keyed by a number
abbrev pub update {ℓ} : {A : Type ℓ} → ℕ → A → (ℕ → A) → ℕ → A
update k v m i = if eqb i k then v else m i

abbrev pub channels_of : Option (List ℕ) → List ℕ
channels_of none = []
channels_of (some chs) = chs

abbrev pub subs : String → AgentServer → List ℕ
subs h s = channels_of (lookup h s.subscribers)

abbrev pub has_handle : String → AgentServer → Bool
has_handle h s = has h s.handles

pub data AuthError : Type 0 where
  not_registered other_connection : String → AuthError

-- A context without a connection passes.
abbrev pub check_owner : ℕ → String → Option ℕ → Result AuthError (Unit {0})
check_owner c handle none = err (not_registered handle)
check_owner c handle (some owner) = if eqb owner c then ok tt else err (other_connection handle)

unfoldable pub verify_ownership : Option ℕ → String → AgentServer → Result AuthError (Unit {0})
verify_ownership none handle s = ok tt
verify_ownership (some c) handle s = check_owner c handle (lookup handle s.handle_owner)

pub record RegisterRequest : Type 0 where
  pub handle : String
  pub manifest : Option ServiceManifest
  pub description : String

abbrev describe : String → ServiceManifest
describe description = record {
  description = description;
  commands = [];
  tags = [];
  version = "";
  capabilities = [];
  domains = [];
  input_types = [];
  output_types = [];
}

abbrev pub add_manifest : RegisterRequest → Dict ServiceManifest → Dict ServiceManifest
add_manifest req manifests = elim req.manifest [
  | some m ↦ insert req.handle m manifests
  | none ↦
      if req.description == ""
      then manifests
      else insert req.handle (describe req.description) manifests
]

abbrev pub bind_handles : Option ℕ → String → (ℕ → Names) → ℕ → Names
bind_handles none h m = m
bind_handles (some c) h m = update c (insert h tt (m c)) m

abbrev pub bind_owner : Option ℕ → String → Dict ℕ → Dict ℕ
bind_owner none h m = m
bind_owner (some c) h m = insert h c m

-- The Boolean is the response's `ok`.
unfoldable pub register : Option ℕ → RegisterRequest → AgentServer → Bool × AgentServer
register conn req s =
    let handles = insert req.handle tt s.handles in
    let manifests = add_manifest req s.manifests in
    if has_handle req.handle s then (false, s) else (
      true,
      record s {
        handles = handles;
        manifests = manifests;
        hstats = insert req.handle (record { msgs_in = 0; msgs_out = 0; drops = 0 }) s.hstats;
        conn_handles = bind_handles conn req.handle s.conn_handles;
        handle_owner = bind_owner conn req.handle s.handle_owner;
        changes = s.changes ++ (handles, manifests) ∷ [];
      },
    )

abbrev pub add_subscriber :
    Result AuthError (Unit {0}) → String → AgentServer → Result AuthError ℕ × AgentServer
add_subscriber (err e) handle s = (err e, s)
add_subscriber (ok _) handle s = (
  ok s.next_channel,
  record s {
    subscribers = insert handle (subs handle s ++ s.next_channel ∷ []) s.subscribers;
    channels = update s.next_channel new_channel s.channels;
    next_channel = s.next_channel + 1;
  },
)

-- Subscribe up to its loop, and its deferred function.
unfoldable pub subscribe : Option ℕ → String → AgentServer → Result AuthError ℕ × AgentServer
subscribe conn handle s = add_subscriber (verify_ownership conn handle s) handle s

-- The slice without the first channel that is `ch`.
unfoldable pub drop_channel : ℕ → List ℕ → List ℕ
drop_channel ch [] = []
drop_channel ch (c ∷ chs) = if eqb c ch then chs else c ∷ drop_channel ch chs

abbrev pub remove_subscriber : Option (List ℕ) → String → ℕ → AgentServer → AgentServer
remove_subscriber none handle ch s = s
remove_subscriber (some chs) handle ch s = record s {
  subscribers = insert handle (drop_channel ch chs) s.subscribers;
}

unfoldable pub unsubscribe : String → ℕ → AgentServer → AgentServer
unsubscribe handle ch s = remove_subscriber (lookup handle s.subscribers) handle ch s

unfoldable pub close_all : List ℕ → (ℕ → Channel) → ℕ → Channel
close_all [] m i = m i
close_all (ch ∷ chs) m i = close_all chs (update ch (record (m ch) { closed = true }) m) i

unfoldable pub drop_handle : String → AgentServer → AgentServer
drop_handle h s = record s {
  handles = delete h s.handles;
  manifests = delete h s.manifests;
  hstats = delete h s.hstats;
  handle_owner = delete h s.handle_owner;
  channels = close_all (subs h s) s.channels;
  subscribers = delete h s.subscribers;
}

unfoldable pub drop_handles : Names → AgentServer → AgentServer
drop_handles [] s = s
drop_handles ((h, _) ∷ hs) s = drop_handles hs (drop_handle h s)

abbrev pub notify : Names → AgentServer → AgentServer
notify [] s = s
notify (_ ∷ _) s = record s { changes = s.changes ++ (s.handles, s.manifests) ∷ [] }

unfoldable pub disconnect_conn : ℕ → AgentServer → AgentServer
disconnect_conn c s =
    let hs = s.conn_handles c in
    notify hs (drop_handles hs (record s { conn_handles = update c [] s.conn_handles }))

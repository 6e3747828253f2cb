-- ===== src/Lib.antt =====
-- tailbus: a message bus between agents. Each machine runs a daemon (cmd/tailbusd, internal/daemon)
-- that serves local agents and exchanges envelopes and room events with the other daemons; a
-- coordination server (internal/coord) tells the daemons about each other.
--
-- The parts, and the files that model them:
-- - Base: Booleans, lists, and Go's maps as association lists, whose order stands for the order of
--   a `range`; numbers are natural numbers, and a uint64 wraps where the code adds to one.
-- - Envelope (proto/tailbus/v1/messages.proto): the message that daemons exchange.
-- - Session (internal/session/session.go): a session; Session/Store: the store of sessions, its
--   eviction, and the persistence callbacks that internal/daemon/msgstore.go gives it.
-- - Trace (internal/daemon/tracestore.go): the ring of trace spans with its index.
-- - Resolver (internal/handle/resolver.go): the maps that the daemon gets from the coordination
--   server; Discovery is the search for handles by what they offer.
-- - Rooms (internal/daemon/roommanager.go): Log is the store of rooms and the log of events
--   (internal/daemon/msgstore.go), Manager the state of the manager, Publish the publication of an
--   event, Commands the commands of a room, Cache the copy of a room at other nodes,
--   Remote the commands and results that nodes send each other.
-- - Acks (internal/daemon/acktracker.go): the messages that wait for an ACK, with the bucket that
--   keeps them over a restart (internal/daemon/msgstore.go).
-- - Agents (internal/daemon/agentserver.go): the handles of this node, the connections that own
--   them, and the channels of their subscribers; Deliver is the delivery to these channels. The
--   events of a server are Agents.Ownership.Op.
-- - Node (internal/daemon/router.go, internal/daemon/agentserver.go): one daemon, that is the agent
--   server with the sessions, the tracker, the resolver and the traces; Route delivers an envelope
--   or sends it, Mentions finds the handles that a text names, Sends has the calls of an agent, and
--   History the steps of the daemon, the eviction among them: a send or a resolve is two, since the
--   code reads a session and writes it back without a lock over both. Resolved makes histories of them.
-- - Coord (internal/coord): Teams has the teams, members and invites of store.go with the calls of
--   server.go; its tables are dictionaries by their primary keys; Tokens has the table of
--   admission tokens and the check of a registration (admission.go), in which the hash and the
--   validation of a JWT are parameters. Registry has the tables of nodes and handles with
--   registry.go, Directory those of rooms, PeerMap the peer maps with their watchers (peermap.go),
--   and Server the calls of server.go that go through all of these, with the personal team that a
--   registration may create. Client is what a daemon makes
--   of a peer map (internal/daemon/coordclient.go).
-- - Relay (internal/relay/server.go): the table of streams and the forwarding of a message; its
--   events are Relay.Forwarding.Op.
-- - Peers (internal/transport/peerverifier.go, internal/identity/tofu.go): which keys and
--   certificates a daemon trusts.
-- - Transport (internal/transport/grpc.go): a send to a peer with its fall-back to the relays; the
--   network is a parameter, and calls of Send run one after another.
-- - Activity (internal/daemon/activitybus.go): the events for dashboards and the counters.
--
-- The parts meet where the daemon has them meet: a room asks the resolver for the node of a
-- member, and writes to the store; the tracker writes to its bucket; a registration at the server
-- reaches the resolvers, and the keys that daemons trust, through the peer map; a message to a
-- peer that cannot be reached goes through the relay, by the peer's key.
--
-- State is passed explicitly, and a locked section is one step. What goes out (to a transport, a
-- subscriber, a callback) is appended to a list of the state. Clocks and random identifiers are
-- arguments, and so are the failures of the database (Rooms.Manager.Faults). Every loop is a
-- recursion on the list it walks, so that no fuel is needed.
--
-- Not modelled: the network and TLS, the encoding of messages, SQL, HTTP handlers, terminal
-- programs and web front ends, which are input and output; metrics and logs.
pub mod Base
pub mod Envelope
pub mod Session
pub mod Trace
pub mod Resolver
pub mod Rooms
pub mod Acks
pub mod Agents
pub mod Node
pub mod Coord
pub mod Relay
pub mod Peers
pub mod Transport
pub mod Activity

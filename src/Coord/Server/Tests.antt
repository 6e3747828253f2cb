-- ===== src/Coord/Server/Tests.antt =====
-- Runs of the server (internal/coord/server.go). The hashes stand for themselves.
use tailbus.Base.{
  arith, ◌≡◌, ◌≢◌, refl, String, Bool, true, false, none, some, ok, err, [], ◌∷◌, lookup, insert,
}
use tailbus.Coord.Tokens.{Token, TokenError, validate_registration, validate_and_consume_token}
use tailbus.Coord.Registry.{upsert_node, insert_handles, delete_handles}
use tailbus.Coord.Registry.Calls
use tailbus.Coord.Registry.Calls.{check_conflicts}
use tailbus.Coord.PeerMap.Watch.{new_peer_map}
use tailbus.Coord.Teams.{create_team, name_taken}
use tailbus.Coord.Server.{
  Server, RegisterNodeRequest, Draws, register_node, not_admitted, ensure_personal_team, has_team,
  before_at,
}
use tailbus.Coord.Server.Members.{Joined, register_node-Joined}
use tailbus.Coord.Server.Retries.{registrations, spent_by_first}

abbrev token : Token
token = record { name = "first"; single_use = true; used_by = none; expires_at = none }

abbrev server : Server
server = record {
  admission = record { hash = λ raw. raw; jwt = none; tokens = ("key", token) ∷ []; bound = [] };
  teams = record { teams = []; members = []; invites = []; node_teams = []; broadcasts = 0 };
  tables = record {
    nodes = record { nodes = []; handles = [] };
    rooms = record { rooms = []; members = [] };
  };
  peer_map = new_peer_map;
}

abbrev request : RegisterNodeRequest
request = record {
  auth_token = "key";
  node_id = "n1";
  public_key = "k1";
  advertise_addr = "a1";
  handles = [];
  handle_manifests = [];
  handle_descriptions = [];
  is_relay = false;
  team_id = "";
}

abbrev drawn : Draws
drawn = record { first_id = "id1"; second_id = "id2"; suffix = "x1" }

steady : String → Bool
steady t = false

register_node-Joined_example :
    Joined request server (register_node (λ s. s) steady drawn request 5 server)
register_node-Joined_example = register_node-Joined (λ s. s) steady drawn request 5 server

accepted :
    (register_node (λ s. s) steady drawn request 5 server).0
    ≡ ok (record { team_id = ""; user_email = ""; team_name = "" })
unfolding register_node validate_registration validate_and_consume_token lookup Calls.register_node
    check_conflicts upsert_node insert_handles delete_handles
accepted = refl

not_refused :
    (e : TokenError)
    → (register_node (λ s. s) steady drawn request 5 server).0 ≢ err (not_admitted e)
not_refused e p = ground (arith, p, accepted)

spent_by_first_example :
    (e : TokenError) × ((register_node
        (λ s. s)
        steady
        drawn
        request
        9
        (registrations
          (λ s. s)
          steady
          ((drawn, request, 7) ∷ [])
          (register_node (λ s. s) steady drawn request 5 server).1)).0
      ≡ err (not_admitted e))
unfolding lookup
spent_by_first_example =
    spent_by_first (λ s. s) steady drawn drawn request request 5 9 ((drawn, request, 7) ∷ []) server
      token refl refl refl not_refused refl

-- A server with an issuer, whose only token is that of "ann@x".
abbrev with_issuer : Server
with_issuer = record server {
  admission = record server.admission {
    jwt = some (λ raw. some (record { email = "ann@x"; team_id = ""; token_type = "access" }));
  };
}

-- The first registration of a user brings her a team of her own.
personal_team :
    (register_node
      (λ s. s)
      steady
      drawn
      (record request { auth_token = "eyJ" })
      5
      with_issuer).1.teams
    ≡ record server.teams {
      teams = ("id1", record { name = "ann"; created_by = "ann@x" }) ∷ [];
      members = ("id1", ("ann@x", "owner") ∷ []) ∷ [];
    }
unfolding register_node validate_registration lookup insert Calls.register_node check_conflicts
    upsert_node insert_handles delete_handles ensure_personal_team has_team create_team name_taken
    before_at
personal_team = refl

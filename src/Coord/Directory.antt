-- ===== src/Coord/Directory.antt =====
-- The tables of rooms and their members (internal/coord/store.go), by which rooms are found. A room is
-- a row by its identifier, with its members in a table of their own.
pub mod Written
mod Tests
use Prim.Native.String.{compare}
use text.Mathlib.Text.{is_lt}
use tailbus.Base.{
  ℕ, String, Bool, true, false, ◌==◌, ◌&&◌, ◌||◌, not, Option, none, some, List, [], ◌∷◌, ◌++◌, map,
  Result, ok, err, ltb, if◌then◌else◌, Dict, lookup, insert, contains, keep,
}
use tailbus.Rooms.{RoomInfo}

pub record RoomRow : Type 0 where
  pub title : String
  pub created_by : String
  pub home_node_id : String
  pub status : String
  pub next_seq : ℕ
  pub created_at : ℕ
  pub updated_at : ℕ
  pub team_id : String

pub record RoomTables : Type 0 where
  pub rooms : Dict RoomRow
  pub members : Dict (List String)

pub data DirectoryError : Type 0 where
  member_twice room_is_required : DirectoryError

-- The primary key of a member is the room with the handle.
unfoldable pub has_twice : List String → Bool
has_twice [] = false
has_twice (h ∷ hs) = contains hs h || has_twice hs

-- On a conflict the time of the creation is kept.
abbrev pub created_first : Option RoomRow → ℕ → ℕ
created_first none t = t
created_first (some r) t = r.created_at

abbrev pub room_row : RoomInfo → String → RoomTables → RoomRow
room_row room team st = record {
  title = room.title;
  created_by = room.created_by;
  home_node_id = room.home_node_id;
  status = room.status;
  next_seq = room.next_seq;
  created_at = created_first (lookup room.room_id st.rooms) room.created_at_unix;
  updated_at = room.updated_at_unix;
  team_id = team;
}

unfoldable pub upsert_room :
    RoomInfo → String → RoomTables → Result DirectoryError (Unit {0}) × RoomTables
upsert_room room team st = if has_twice room.members then (err member_twice, st) else (
  ok tt,
  record {
    rooms = insert room.room_id (room_row room team st) st.rooms;
    members = insert room.room_id room.members st.members;
  },
)

-- ORDER BY handle
unfoldable pub insert_handle : String → List String → List String
insert_handle h [] = h ∷ []
insert_handle h (k ∷ ks) =
    let rest = insert_handle h ks in if is_lt (compare k h) then k ∷ rest else h ∷ k ∷ ks

unfoldable pub sort_handles : List String → List String
sort_handles [] = []
sort_handles (h ∷ hs) = insert_handle h (sort_handles hs)

abbrev pub members_of : Option (List String) → List String
members_of none = []
members_of (some hs) = hs

abbrev pub room_of : String → RoomRow → List String → RoomInfo
room_of id r hs = record {
  room_id = id;
  title = r.title;
  created_by = r.created_by;
  home_node_id = r.home_node_id;
  members = hs;
  status = r.status;
  next_seq = r.next_seq;
  created_at_unix = r.created_at;
  updated_at_unix = r.updated_at;
}

-- With no team, the rooms of all teams are looked at.
abbrev pub in_scope : String → String → Bool
in_scope team row_team = team == "" || row_team == team

abbrev pub scoped_row : String → String → Option RoomRow → RoomTables → Option RoomInfo
scoped_row id team none st = none
scoped_row id team (some r) st =
    if in_scope team r.team_id
    then some (room_of id r (sort_handles (members_of (lookup id st.members))))
    else none

unfoldable pub lookup_room : String → String → RoomTables → Option RoomInfo
lookup_room id team st = scoped_row id team (lookup id st.rooms) st

-- The join with the members, if a handle is given.
abbrev pub selected : String → String → RoomTables → (String × RoomRow) → Bool
selected handle team st e =
    (handle == "" || contains (members_of (lookup e.0 st.members)) handle)
    && in_scope team e.1.team_id

-- ORDER BY updated_at DESC
unfoldable pub insert_newest :
    (String × RoomRow) → List (String × RoomRow) → List (String × RoomRow)
insert_newest e [] = e ∷ []
insert_newest e (f ∷ fs) =
    let rest = insert_newest e fs in
    if ltb e.1.updated_at f.1.updated_at then f ∷ rest else e ∷ f ∷ fs

unfoldable pub newest_first : List (String × RoomRow) → List (String × RoomRow)
newest_first [] = []
newest_first (e ∷ es) = insert_newest e (newest_first es)

abbrev cons_room : Option RoomInfo → List RoomInfo → List RoomInfo
cons_room none rooms = rooms
cons_room (some room) rooms = room ∷ rooms

unfoldable pub load_rooms : List (String × RoomRow) → String → RoomTables → List RoomInfo
load_rooms [] team st = []
load_rooms (e ∷ es) team st = cons_room (lookup_room e.0 team st) (load_rooms es team st)

unfoldable pub list_rooms_for_handle : String → String → RoomTables → List RoomInfo
list_rooms_for_handle handle team st =
    load_rooms (newest_first (keep (selected handle team st) st.rooms)) team st

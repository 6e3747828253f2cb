-- ===== src/Coord/Directory/Tests.antt =====
-- Runs of the directory of rooms (internal/coord/store.go).
use tailbus.Base.{◌≡◌, refl, [], ◌∷◌, err, lookup, insert, contains}
use tailbus.Rooms.{RoomInfo}
use tailbus.Coord.Directory.{
  RoomTables, upsert_room, lookup_room, has_twice, member_twice, list_rooms_for_handle,
  sort_handles, insert_handle, newest_first, insert_newest, load_rooms,
}

abbrev room : RoomInfo
room = record {
  room_id = "r1";
  title = "plans";
  created_by = "ann";
  home_node_id = "n1";
  members = "bob" ∷ "ann" ∷ [];
  status = "open";
  next_seq = 4;
  created_at_unix = 7;
  updated_at_unix = 9;
}

abbrev no_rooms : RoomTables
no_rooms = record { rooms = []; members = [] }

in_order : sort_handles ("bob" ∷ "ann" ∷ "cyd" ∷ []) ≡ "ann" ∷ "bob" ∷ "cyd" ∷ []
unfolding sort_handles insert_handle
in_order = refl

twice_refused :
    upsert_room (record room { members = "ann" ∷ "ann" ∷ [] }) "" no_rooms
    ≡ (err member_twice, no_rooms)
unfolding upsert_room has_twice contains
twice_refused = refl

abbrev two_rooms : RoomTables
two_rooms =
    (upsert_room (record room { room_id = "r2"; updated_at_unix = 20 }) "t1"
      (upsert_room room "t1" no_rooms).1).1

newest :
    list_rooms_for_handle "ann" "t1" two_rooms
    ≡ record room { room_id = "r2"; members = "ann" ∷ "bob" ∷ []; updated_at_unix = 20 }
      ∷ record room { members = "ann" ∷ "bob" ∷ [] }
      ∷ []
unfolding list_rooms_for_handle upsert_room has_twice contains insert lookup newest_first
    insert_newest load_rooms lookup_room sort_handles insert_handle
newest = refl

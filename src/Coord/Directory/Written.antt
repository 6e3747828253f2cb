-- ===== src/Coord/Directory/Written.antt =====
-- What a room that has been written reads as (internal/coord/store.go).
use tailbus.Base.{
  ◌≡◌, refl, String, false, ◌==◌, none, some, List, [], ◌∷◌, ok, if◌then◌else◌, lookup, arith,
  eq_iff, inl, inr, Bool-cases, Option-cases, lookup-insert, Distinct,
}
use tailbus.Rooms.{RoomInfo}
use tailbus.Coord.Directory.{
  RoomTables, has_twice, created_first, room_row, upsert_room, sort_handles, in_scope, lookup_room,
}

Distinct-has_twice : (hs : List String) → Distinct hs → has_twice hs ≡ false
unfolding has_twice
Distinct-has_twice [] d = refl
Distinct-has_twice (h ∷ hs) d = ground (arith, d.0, Distinct-has_twice hs d.1)

-- A room with distinct members is written, and reads back in its team, and without a team, as it was
-- given, but with its members in order and the time at which it was first written; in another team it
-- is not found; and every other room reads as before.
pub lookup-upsert_room :
    (room : RoomInfo) (team id scope : String) (st : RoomTables)
    → Distinct room.members
    → let (result, st') = upsert_room room team st in
      (result ≡ ok tt)
      × (lookup_room id scope st' ≡ (
          if room.room_id == id
          then (if in_scope scope team
              then some (record room {
                members = sort_handles room.members;
                created_at_unix = created_first (lookup room.room_id st.rooms) room.created_at_unix;
              })
              else none)
          else lookup_room id scope st))
unfolding upsert_room lookup_room
lookup-upsert_room room team id scope st d = rw (Distinct-has_twice room.members d) (
  refl,
  elim (Bool-cases (room.room_id == id)) [
    | inl same ↦
        let row = lookup-insert room.room_id id (room_row room team st) st.rooms in
        let mem = lookup-insert room.room_id id room.members st.members in
        rw (row, same) (rw (mem, same, (eq_iff room.room_id id).0 same) refl)
    | inr other ↦
        let row = lookup-insert room.room_id id (room_row room team st) st.rooms in
        let mem = lookup-insert room.room_id id room.members st.members in
        rw (row, other)
          (elim (Option-cases (lookup id st.rooms)) [
            | inl gone ↦ rw gone refl
            | inr (r, e) ↦ rw (e, mem, other) refl
          ])
  ],
)

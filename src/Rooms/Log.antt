-- ===== src/Rooms/Log.antt =====
-- internal/daemon/msgstore.go, rooms: a bbolt bucket is a list of keys and values in the order of
-- the keys. `roomSeqKey` pads to the 20 digits of the largest uint64, so that its order is that of
-- the numbers.
pub mod Replay
use tailbus.Base.{
  ℕ, ◌+◌, ◌≤◌, ◌<◌, ◌≡◌, refl, String, Bool, true, false, ◌&&◌, Option, none, some, List, [], ◌∷◌,
  ◌++◌, arith, ltb, leb, eqb, inc_u64, length, length-append, if◌then◌else◌, Dict, lookup, insert,
}
use tailbus.Rooms.{RoomInfo, RoomEvent}

abbrev pub Bucket : Type 0
Bucket = List (ℕ × RoomEvent)

pub record RoomStore : Type 0 where
  pub rooms : Dict RoomInfo
  pub room_logs : Dict Bucket

unfoldable pub store_room : RoomInfo → RoomStore → RoomStore
store_room room st = record st { rooms = insert room.room_id room st.rooms }

unfoldable pub load_room : String → RoomStore → Option RoomInfo
load_room room_id st = lookup room_id st.rooms

-- bucket.Put(roomSeqKey(seq), raw)
unfoldable pub put_event : ℕ → RoomEvent → Bucket → Bucket
put_event seq e [] = (seq, e) ∷ []
put_event seq e ((k, f) ∷ r) =
    if ltb seq k
    then (seq, e) ∷ (k, f) ∷ r
    else if eqb seq k
    then (seq, e) ∷ r
    else (k, f) ∷ put_event seq e r

-- for maxEvents > 0 && countKeys(roomBucket) > maxEvents { delete the first key }
unfoldable pub trim : ℕ → Bucket → Bucket
trim max_events [] = []
trim max_events (x ∷ r) =
    if ltb 0 max_events && ltb max_events (length (x ∷ r)) then trim max_events r else x ∷ r

-- CreateBucketIfNotExists
abbrev pub or_empty : Option Bucket → Bucket
or_empty none = []
or_empty (some b) = b

unfoldable pub room_log : String → RoomStore → Bucket
room_log room_id st = or_empty (lookup room_id st.room_logs)

unfoldable pub store_room_event : RoomEvent → ℕ → RoomStore → RoomStore
store_room_event e max_events st = record st {
  room_logs =
      insert e.room_id (trim max_events (put_event e.room_seq e (room_log e.room_id st)))
        st.room_logs;
}

-- Cursor.Seek(key), then to the end.
unfoldable pub seek : ℕ → Bucket → Bucket
seek key [] = []
seek key ((k, e) ∷ r) = if leb key k then (k, e) ∷ r else seek key r

unfoldable pub events_of : Bucket → List RoomEvent
events_of [] = []
events_of ((k, e) ∷ r) = e ∷ events_of r

unfoldable pub replay_room_events : String → ℕ → RoomStore → List RoomEvent
replay_room_events room_id since_seq st = events_of (seek (inc_u64 since_seq) (room_log room_id st))

-- Keys from `lo` on, rising, below `hi`, each the number of its event.
abbrev pub Rising : ℕ → Bucket → ℕ → Type 0
Rising lo [] hi = lo ≤ hi
Rising lo ((k, e) ∷ r) hi = (lo ≤ k) × (e.room_seq ≡ k) × Rising (k + 1) r hi

pub Rising-le : (lo : ℕ) (b : Bucket) (hi : ℕ) → Rising lo b hi → lo ≤ hi
Rising-le lo [] hi h = h
Rising-le lo ((k, e) ∷ r) hi h = omega (arith, h.0, Rising-le (k + 1) r hi h.2)

pub Rising-from : (l lo : ℕ) (b : Bucket) (hi : ℕ) → l ≤ lo → Rising lo b hi → Rising l b hi
Rising-from l lo [] hi a h = omega arith
Rising-from l lo ((k, e) ∷ r) hi a h = (omega (arith, h.0), h.1, h.2)

-- A key above all others goes to the end.
pub put_event-last :
    (lo : ℕ) (b : Bucket) (hi : ℕ) (e : RoomEvent)
    → Rising lo b hi
    → put_event hi e b ≡ b ++ (hi, e) ∷ []
unfolding put_event
put_event-last lo [] hi e h = refl
put_event-last lo ((k, f) ∷ r) hi e h =
    ground (arith, h.2, Rising-le (k + 1) r hi h.2, put_event-last (k + 1) r hi e h.2)

pub Rising-snoc :
    (lo : ℕ) (b : Bucket) (hi : ℕ) (e : RoomEvent)
    → e.room_seq ≡ hi
    → Rising lo b hi
    → Rising lo (b ++ (hi, e) ∷ []) (hi + 1)
Rising-snoc lo [] hi e q h = (h, q, omega arith)
Rising-snoc lo ((k, f) ∷ r) hi e q h = (h.0, h.1, Rising-snoc (k + 1) r hi e q h.2)

pub trim-Rising : (max lo : ℕ) (b : Bucket) (hi : ℕ) → Rising lo b hi → Rising lo (trim max b) hi
unfolding trim
trim-Rising max lo [] hi h = h
trim-Rising max lo ((k, e) ∷ r) hi h =
    ground (arith, trim-Rising max lo r hi (Rising-from lo (k + 1) r hi (omega (arith, h.0)) h.2))

-- No log is longer than the retention.
pub length-trim : (max : ℕ) (b : Bucket) → 0 < max → length (trim max b) ≤ max
unfolding trim
length-trim max [] h = omega arith
length-trim max (x ∷ r) h = ground (arith, length-trim max r h)

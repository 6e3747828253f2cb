-- ===== src/Rooms/Log/Replay.antt =====
-- What a replay returns (internal/daemon/msgstore.go).
use tailbus.Base.{
  ℕ, suc, ◌+◌, ◌-◌, ◌^◌, ◌<◌, ◌≡◌, refl, ap, ◌∙◌, String, List, [], ◌∷◌, arith, ltb, inl, inr,
  Bool-cases, ltb→lt, lt→ltb, length, drop, if◌then◌else◌,
}
use tailbus.Rooms.{RoomEvent}
use tailbus.Rooms.Log.{
  Bucket, RoomStore, Rising, seek, events_of, trim, room_log, replay_room_events,
}

-- The events numbered above `since`.
abbrev pub newer : ℕ → Bucket → List RoomEvent
newer since [] = []
newer since ((k, e) ∷ r) = if ltb since e.room_seq then e ∷ newer since r else newer since r

newer-all :
    (since lo : ℕ) (b : Bucket) (hi : ℕ) → Rising lo b hi → since < lo → events_of b ≡ newer since b
unfolding events_of
newer-all since lo [] hi h l = refl
newer-all since lo ((k, e) ∷ r) hi h l = ground (arith, h.0, h.1, newer-all since (k + 1) r hi h.2)

seek-newer :
    (since lo : ℕ) (b : Bucket) (hi : ℕ)
    → Rising lo b hi
    → events_of (seek (since + 1) b) ≡ newer since b
unfolding seek events_of
seek-newer since lo [] hi h = refl
seek-newer since lo ((k, e) ∷ r) hi h =
    ground (arith, h.1, newer-all since (k + 1) r hi h.2, seek-newer since (k + 1) r hi h.2)

-- A replay returns the retained events of the room numbered above `since`, in order, provided
-- that `since` is not the largest uint64.
pub replay-newer :
    (room_id : String) (since lo hi : ℕ) (st : RoomStore)
    → Rising lo (room_log room_id st) hi
    → since + 1 < 2 ^ 64
    → replay_room_events room_id since st ≡ newer since (room_log room_id st)
unfolding replay_room_events
replay-newer room_id since lo hi st h b =
    ap (λ k. events_of (seek k (room_log room_id st))) (omega arith)
    ∙ seek-newer since lo (room_log room_id st) hi h

seek-zero : (b : Bucket) → seek 0 b ≡ b
unfolding seek
seek-zero [] = refl
seek-zero ((k, e) ∷ r) = ground arith

-- At the largest uint64 the bound wraps to zero, and the replay returns the whole log.
pub replay_wraps :
    (room_id : String) (st : RoomStore)
    → replay_room_events room_id (2 ^ 64 - 1) st ≡ events_of (room_log room_id st)
unfolding replay_room_events
replay_wraps room_id st = ap events_of (seek-zero (room_log room_id st))

-- Trimming drops the oldest events, and only as many as it must.
pub trim-last : (max : ℕ) (b : Bucket) → 0 < max → trim max b ≡ drop (length b - max) b
unfolding trim
trim-last max [] h = let e : 0 - max ≡ 0 = omega arith in rw e
trim-last max (x ∷ r) h = elim (Bool-cases (ltb max (suc (length r)))) [
  | inl over ↦
      let e : suc (length r) - max ≡ suc (length r - max) =
        omega (arith, ltb→lt max (suc (length r)) over) in
      rw (e, lt→ltb 0 max h, over) (trim-last max r h)
  | inr fits ↦ let e : suc (length r) - max ≡ 0 = ground arith in rw (e, lt→ltb 0 max h, fits)
]

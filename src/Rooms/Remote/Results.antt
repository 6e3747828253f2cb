-- ===== src/Rooms/Remote/Results.antt =====
-- What the results of remote commands do to the calls that wait, and to the stored rooms
-- (internal/daemon/roommanager.go).
use tailbus.Base.{
  ◌≡◌, refl, sym, ap, ◌∙◌, String, true, false, ◌==◌, eq_iff, Option, none, some, List, [], ◌∷◌,
  Result, if◌then◌else◌, lookup, arith, inl, inr, Bool-cases, lookup-insert,
}
use tailbus.Rooms.{RoomCommandResult, RoomError}
use tailbus.Rooms.Manager.{Faults}
use tailbus.Rooms.Remote.{
  Control, answer_of, end_control, selected, cache_result, offered, handle_remote_command_result,
}

-- A channel with one place, after an offer to it.
abbrev fill :
    RoomCommandResult → Option (Option RoomCommandResult) → Option (Option RoomCommandResult)
fill result (some none) = some (some result)
fill result (some (some first)) = some (some first)
fill result none = none

lookup-offered :
    (id : String) (result : RoomCommandResult) (c : Option (Option RoomCommandResult)) (s : Control)
    → lookup result.request_id s.pending_resp ≡ c
    → lookup id (offered result c s).pending_resp ≡ (
        if result.request_id == id
        then fill result (lookup id s.pending_resp)
        else lookup id s.pending_resp)
lookup-offered id result c s e = elim (Bool-cases (result.request_id == id)) [
  | inl own ↦
      let here : lookup id s.pending_resp ≡ c =
        ap (λ i. lookup i s.pending_resp) (sym ((eq_iff result.request_id id).0 own)) ∙ e in
      rw (own, here) (filled c own here)
  | inr other ↦ rw other (spared c other)
]
  where
    filled :
        (c : Option (Option RoomCommandResult))
        → (result.request_id == id) ≡ true
        → lookup id s.pending_resp ≡ c
        → lookup id (offered result c s).pending_resp ≡ fill result c
    filled none own here = here
    filled (some none) own here =
        lookup-insert result.request_id id (some result) s.pending_resp ∙ rw own refl
    filled (some (some first)) own here = here

    spared :
        (c : Option (Option RoomCommandResult))
        → (result.request_id == id) ≡ false
        → lookup id (offered result c s).pending_resp ≡ lookup id s.pending_resp
    spared none other = refl
    spared (some none) other =
        lookup-insert result.request_id id (some result) s.pending_resp ∙ rw other refl
    spared (some (some first)) other = refl

lookup-handle_result :
    (faults : Faults) (id : String) (result : RoomCommandResult) (s : Control)
    → lookup id (handle_remote_command_result faults result s).pending_resp ≡ (
        if result.request_id == id
        then fill result (lookup id s.pending_resp)
        else lookup id s.pending_resp)
unfolding handle_remote_command_result
lookup-handle_result faults id result s =
    lookup-offered id result (lookup result.request_id s.pending_resp)
      (record s { rooms = cache_result faults result.room s.rooms }) refl

abbrev pub handle_results : List (Faults × RoomCommandResult) → Control → Control
handle_results [] s = s
handle_results ((faults, result) ∷ rs) s =
    handle_results rs (handle_remote_command_result faults result s)

-- The first result of a request.
abbrev pub first_for : String → List (Faults × RoomCommandResult) → Option RoomCommandResult
first_for id [] = none
first_for id ((faults, result) ∷ rs) =
    if result.request_id == id then some result else first_for id rs

abbrev pub answered_by : Option RoomCommandResult → Option (Result RoomError RoomCommandResult)
answered_by none = none
answered_by (some result) = some (answer_of result result.error)

results-full :
    (id : String) (first : RoomCommandResult) (rs : List (Faults × RoomCommandResult)) (s : Control)
    → lookup id s.pending_resp ≡ some (some first)
    → lookup id (handle_results rs s).pending_resp ≡ some (some first)
results-full id first [] s e = e
results-full id first ((faults, result) ∷ rs) s e =
    results-full id first rs (handle_remote_command_result faults result s) (
      lookup-handle_result faults id result s
      ∙ ap (λ c. if result.request_id == id then fill result c else c) e
      ∙ ground arith)

results-waiting :
    (id : String) (rs : List (Faults × RoomCommandResult)) (s : Control)
    → lookup id s.pending_resp ≡ some none
    → lookup id (handle_results rs s).pending_resp ≡ some (first_for id rs)
results-waiting id [] s e = e
results-waiting id ((faults, result) ∷ rs) s e = elim (Bool-cases (result.request_id == id)) [
  | inl own ↦ rw own (
      results-full id result rs (handle_remote_command_result faults result s)
        (lookup-handle_result faults id result s ∙ rw (own, e) refl))
  | inr other ↦ rw other (
      results-waiting id rs (handle_remote_command_result faults result s)
        (lookup-handle_result faults id result s ∙ rw (other, e) refl))
]

-- A call that waits returns, before its deadline, the first of the results that have come for it,
-- however many there are and whatever comes for other calls; without one it goes on waiting.
pub first_result_answers :
    (id : String) (rs : List (Faults × RoomCommandResult)) (s : Control)
    → lookup id s.pending_resp ≡ some none
    → (end_control false id (handle_results rs s)).0 ≡ answered_by (first_for id rs)
unfolding end_control
first_result_answers id rs s waits =
    ap (λ c. (selected false id c (handle_results rs s)).0) (results-waiting id rs s waits)
    ∙ by_first (first_for id rs)
  where
    by_first :
        (o : Option RoomCommandResult)
        → (selected false id (some o) (handle_results rs s)).0 ≡ answered_by o
    by_first none = refl
    by_first (some result) = refl

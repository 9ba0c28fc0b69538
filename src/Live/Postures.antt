-- ===== src/Live/Postures.antt =====
-- packages/live/src/lifecycle.ts: the postures of the device, the handoff to another device, and the
-- waiting room of a supervised call.
use olive_branch.Prelude.{
  ℕ, String, Bool, true, false, not, ◌&&◌, List, [], ◌∷◌, ◌++◌, ltb, leb, if◌then◌else◌, any,
  filterb, str_eq,
}

pub data Posture : Type 0 where
  fold_cover fold_main fold_tabletop phone tablet_small tablet_medium tablet_large desktop dex :
      Posture

pub data Relayout : Type 0 where
  stacked side_by_side tabletop : Relayout

-- The `relayout` of `onPostureChange`.
abbrev pub relayout : Posture → Relayout
relayout fold_tabletop = tabletop
relayout fold_main = side_by_side
relayout tablet_large = side_by_side
relayout desktop = side_by_side
relayout dex = side_by_side
relayout _ = stacked

unfoldable pub detect_posture : ℕ → ℕ → Posture
detect_posture w h =
    if leb 1280 w && ltb h w
    then dex
    else if leb 1024 w
    then desktop
    else if leb 600 w && ltb h w && leb h 480
    then fold_tabletop
    else if leb 800 w
    then tablet_large
    else if leb 660 w && ltb h 900
    then fold_main
    else if leb 600 w
    then tablet_small
    else if leb w 400 && leb 800 h
    then fold_cover
    else phone

abbrev pub expands_on_unfold : Posture → Posture → Bool
expands_on_unfold fold_cover fold_main = true
expands_on_unfold fold_cover fold_tabletop = true
expands_on_unfold _ _ = false

pub record Handoff : Type 0 where
  pub from_device : String
  pub to_device : String
  pub max_gap_seconds : ℕ

abbrev pub handoff_max_gap_seconds : ℕ
handoff_max_gap_seconds = 6

pub data HandoffError : Type 0 where
  same_device not_her_device : HandoffError

pub data HandoffResult : Type 0 where
  handed : Handoff → HandoffResult
  stays : HandoffError → HandoffResult

unfoldable pub hand_off : String → String → List String → HandoffResult
hand_off from_device to_device her_devices =
    if str_eq from_device to_device
    then stays same_device
    else if not (any (λ d. str_eq d to_device) her_devices)
    then stays not_her_device
    else handed (record {
      from_device = from_device;
      to_device = to_device;
      max_gap_seconds = handoff_max_gap_seconds;
    })

pub record Waiter : Type 0 where
  pub user_id : String
  pub since : String

pub record WaitingRoom : Type 0 where
  pub room_id : String
  pub waiting : List Waiter
  pub supervisor_id : String

abbrev pub waiting_room : String → String → WaitingRoom
waiting_room room_id supervisor_id = record {
  room_id = room_id;
  waiting = [];
  supervisor_id = supervisor_id;
}

unfoldable pub join_waiting : WaitingRoom → String → String → WaitingRoom
join_waiting r user_id at = record {
  room_id = r.room_id;
  waiting = r.waiting ++ record { user_id = user_id; since = at } ∷ [];
  supervisor_id = r.supervisor_id;
}

unfoldable pub admit : WaitingRoom → String → WaitingRoom
admit r user_id = record {
  room_id = r.room_id;
  waiting = filterb (λ (w : Waiter). not (str_eq w.user_id user_id)) r.waiting;
  supervisor_id = r.supervisor_id;
}

-- ===== src/Budget/Tests.antt =====
-- The theorem on the budget at a call with a game on a small tablet.
use olive_branch.Prelude.{◌≡◌, refl, String, List, [], ◌∷◌}
use olive_branch.Budget.Resolve.{
  low, capacity_of, resolve, resolve_for, substitute_all, shed_until, candidates, cost_of,
  total_from,
}
use olive_branch.Budget.Shedding.{IsSettled, resolve-IsSettled}

abbrev evening : List String
evening =
    "call_audio" ∷ "call_video_720" ∷ "pane_video" ∷ "game_board" ∷ "ambient_motion"
    ∷ "driven_motion" ∷ []

-- The sockets are the limit: the game goes, and before it the ambient motion.
what_stays :
    (resolve evening low).admitted
    ≡ "call_audio" ∷ "call_video_180" ∷ "pane_still" ∷ "driven_motion" ∷ []
unfolding resolve_for substitute_all shed_until candidates cost_of total_from
what_stays = refl

resolve-IsSettled_example : IsSettled (capacity_of low) evening (resolve evening low)
resolve-IsSettled_example = resolve-IsSettled evening low

-- ===== src/Budget/Resolve.antt =====
-- packages/budget/src/budget.ts: what a tier of devices can hold, what the features cost, and what is
-- admitted. The notes on the costs and the trace, which are texts for display, are left out.
use olive_branch.Prelude.{
  ℕ, zero, suc, ◌+◌, String, Bool, true, false, not, ◌&&◌, Option, none, some, List, [], ◌∷◌, ◌++◌,
  length, ltb, leb, if◌then◌else◌, filterb, find, any, first_sorted, non_empty, str_eq,
}

pub data Tier : Type 0 where
  low mid high : Tier

pub record Capacity : Type 0 where
  pub memory_mb : ℕ
  pub decode : ℕ
  pub surfaces : ℕ
  pub cameras : ℕ
  pub sockets : ℕ

abbrev pub capacity : ℕ → ℕ → ℕ → ℕ → ℕ → Capacity
capacity memory_mb decode surfaces cameras sockets = record {
  memory_mb = memory_mb;
  decode = decode;
  surfaces = surfaces;
  cameras = cameras;
  sockets = sockets;
}

abbrev pub capacity_of : Tier → Capacity
capacity_of low = capacity 180 120 3 1 1
capacity_of mid = capacity 420 300 5 1 2
capacity_of high = capacity 900 700 8 2 3

pub record Cost : Type 0 where
  pub feature : String
  pub needs : Capacity
  pub priority : ℕ

abbrev pub cost : String → Capacity → ℕ → Cost
cost feature needs priority = record { feature = feature; needs = needs; priority = priority }

abbrev pub costs : List Cost
costs =
    cost "call_audio" (capacity 24 10 0 0 1) 100
    ∷ cost "call_video_720" (capacity 110 100 1 1 0) 70
    ∷ cost "call_video_360" (capacity 60 45 1 1 0) 70
    ∷ cost "call_video_180" (capacity 34 20 1 1 0) 70
    ∷ cost "pane_video" (capacity 42 30 1 0 0) 50
    ∷ cost "pane_still" (capacity 6 0 1 0 0) 50
    ∷ cost "shared_canvas" (capacity 48 25 1 0 1) 40
    ∷ cost "game_board" (capacity 30 8 1 0 1) 40
    ∷ cost "colouring" (capacity 36 6 1 0 0) 40
    ∷ cost "find_the_thing" (capacity 52 14 1 0 0) 40
    ∷ cost "gallery" (capacity 46 12 1 0 0) 30
    ∷ cost "storyteller" (capacity 12 2 1 0 0) 30
    ∷ cost "homework_camera" (capacity 70 40 1 1 0) 60
    ∷ cost "ambient_motion" (capacity 4 6 0 0 0) 10
    ∷ cost "driven_motion" (capacity 2 3 0 0 0) 90
    ∷ []

unfoldable pub cost_of : String → Option Cost
cost_of f = find (λ (c : Cost). str_eq c.feature f) costs

abbrev pub add_cost : Option Cost → Capacity → Capacity
add_cost none t = t
add_cost (some c) t =
    capacity (t.memory_mb + c.needs.memory_mb) (t.decode + c.needs.decode)
      (t.surfaces + c.needs.surfaces) (t.cameras + c.needs.cameras) (t.sockets + c.needs.sockets)

-- The loop of `total` with what is summed so far.
unfoldable pub total_from : Capacity → List String → Capacity
total_from t [] = t
total_from t (f ∷ fs) = total_from (add_cost (cost_of f) t) fs

abbrev pub total : List String → Capacity
total features = total_from (capacity 0 0 0 0 0) features

abbrev pub fits : Capacity → Capacity → Bool
fits t cap =
    leb t.memory_mb cap.memory_mb
    && (leb t.decode cap.decode
        && (leb t.surfaces cap.surfaces
            && (leb t.cameras cap.cameras && leb t.sockets cap.sockets)))

pub record Substitution : Type 0 where
  pub from_feature : String
  pub to_feature : String

abbrev pub substitutions : List Substitution
substitutions =
    record { from_feature = "call_video_720"; to_feature = "call_video_360" }
    ∷ record { from_feature = "call_video_360"; to_feature = "call_video_180" }
    ∷ record { from_feature = "pane_video"; to_feature = "pane_still" }
    ∷ []

-- The features that are live, those that were dropped and the substitutions made.
pub record Plan : Type 0 where
  pub live : List String
  pub dropped : List String
  pub substituted : List Substitution

pub record Resolution : Type 0 where
  pub admitted : List String
  pub dropped : List String
  pub substituted : List Substitution
  pub it_fits : Bool

abbrev pub never_shed : String → Bool
never_shed f = str_eq "call_audio" f

abbrev pub includes : String → List String → Bool
includes f fs = any (λ g. str_eq g f) fs

-- `live[live.indexOf(from)] = to`
abbrev pub replace_first : String → String → List String → List String
replace_first from to [] = []
replace_first from to (f ∷ fs) =
    let rest = replace_first from to fs in if str_eq f from then to ∷ fs else f ∷ rest

abbrev pub substitute : Substitution → Plan → Plan
substitute s p =
    if includes s.from_feature p.live
    then record {
      live = replace_first s.from_feature s.to_feature p.live;
      dropped = p.dropped;
      substituted = p.substituted ++ s ∷ [];
    }
    else p

unfoldable pub substitute_all : Capacity → List Substitution → Plan → Plan
substitute_all cap [] p = p
substitute_all cap (s ∷ ss) p =
    let rest = substitute_all cap ss (substitute s p) in if fits (total p.live) cap then p else rest

abbrev pub known : Option Cost → List Cost → List Cost
known none cs = cs
known (some c) cs = c ∷ cs

-- The costs of the live features that may be shed and have a cost.
unfoldable pub candidates : List String → List Cost
candidates [] = []
candidates (f ∷ fs) = if never_shed f then candidates fs else known (cost_of f) (candidates fs)

abbrev pub sheds_first : Cost → Cost → Bool
sheds_first a b = ltb a.priority b.priority

abbrev pub without : String → List String → List String
without shed live = filterb (λ f. not (str_eq f shed)) live

abbrev pub shed : Cost → Plan → Plan
shed c p = record {
  live = without c.feature p.live;
  dropped = p.dropped ++ c.feature ∷ [];
  substituted = p.substituted;
}

-- The rounds of the last loop, at most as many as the first number.
unfoldable pub shed_until : ℕ → Capacity → Plan → Plan
unfolding candidates
shed_until zero cap p = p
shed_until (suc rounds) cap p = elim (fits (total p.live) cap) [
  | true ↦ p
  | false ↦ elim (first_sorted sheds_first (candidates p.live)) [
    | none ↦ p
    | some c ↦ shed_until rounds cap (shed c p)
  ]
]

abbrev pub resolution : Capacity → Plan → Resolution
resolution cap p = record {
  admitted = p.live;
  dropped = p.dropped;
  substituted = p.substituted;
  it_fits = fits (total p.live) cap;
}

abbrev pub requested_plan : List String → Plan
requested_plan requested = record { live = requested; dropped = []; substituted = [] }

-- `resolve`, with as many rounds of the last loop as there are features left.
unfoldable pub resolve_for : Capacity → List String → Resolution
unfolding substitute_all shed_until
resolve_for cap requested =
    let p = substitute_all cap substitutions (requested_plan requested) in
    if fits (total requested) cap
    then resolution cap (requested_plan requested)
    else resolution cap (shed_until (length p.live) cap p)

abbrev pub resolve : List String → Tier → Resolution
resolve requested tier = resolve_for (capacity_of tier) requested

pub data Admission : Type 0 where
  started : List Substitution → Bool → Admission
  no_capacity : List String → List Substitution → Admission

abbrev pub verdict : String → Resolution → Admission
verdict feature r =
    if includes feature r.admitted && not (non_empty r.dropped)
    then started r.substituted (not (non_empty r.substituted))
    else no_capacity r.dropped r.substituted

unfoldable pub admit : String → List String → Tier → Admission
unfolding resolve_for
admit feature running tier = verdict feature (resolve (running ++ feature ∷ []) tier)

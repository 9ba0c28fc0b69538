-- ===== src/Budget/Shedding.antt =====
-- What budget.ts admits.
use olive_branch.Prelude.{
  ℕ, zero, suc, ◌≤◌, ◌<◌, String, ◌≡◌, ◌≢◌, refl, sym, ◌∙◌, ap, subst, ◌⊎◌, inl, inr, Bool, true,
  false, not, Option, none, some, List, [], ◌∷◌, length, if◌then◌else◌, filterb, filterb-neg,
  find-holds, find-none, first_sorted, first_sorted-Earliest, IsOrder, Mem, Mem-filterb, All,
  Bool-cases, str_eq, eq_iff, arith,
}
use olive_branch.Budget.Resolve.{
  Tier, Capacity, Cost, costs, cost_of, total, fits, Substitution, substitutions, Plan, Resolution,
  never_shed, includes, replace_first, substitute, substitute_all, known, candidates, sheds_first,
  without, shed, shed_until, resolution, requested_plan, resolve_for, resolve, capacity_of,
}

abbrev pub audio : String
audio = "call_audio"

cost_of-feature : (f : String) (c : Cost) → cost_of f ≡ some c → c.feature ≡ f
unfolding cost_of
cost_of-feature f c e = (eq_iff _ _).0 (find-holds (λ (x : Cost). str_eq x.feature f) costs c e)

-- A candidate is live, and is not the voice.
abbrev IsSheddable : List String → Cost → Type 0
IsSheddable live c = Mem c.feature live × (never_shed c.feature ≡ false)

candidate-behind :
    (f : String) (fs : List String) (c : Cost) → IsSheddable fs c → IsSheddable (f ∷ fs) c
candidate-behind f fs c (m, n) = (inr m, n)

known-Sheddable :
    (f : String) (fs : List String) (o : Option Cost) (c : Cost)
    → cost_of f ≡ o
    → never_shed f ≡ false
    → Mem c (known o (candidates fs))
    → (Mem c (candidates fs) → IsSheddable fs c)
    → IsSheddable (f ∷ fs) c
known-Sheddable f fs none c e n m rest = candidate-behind f fs c (rest m)
known-Sheddable f fs (some d) c e n (inl same) rest =
    let feature : c.feature ≡ f = ap (λ (x : Cost). x.feature) same ∙ cost_of-feature f d e in
    (inl feature, subst (λ x. never_shed x ≡ false) (sym feature) n)
known-Sheddable f fs (some d) c e n (inr m) rest = candidate-behind f fs c (rest m)

candidates-Sheddable :
    (live : List String) (c : Cost) → Mem c (candidates live) → IsSheddable live c
unfolding candidates
candidates-Sheddable [] c m = absurd m
candidates-Sheddable (f ∷ fs) c m = elim (Bool-cases (never_shed f)) [
  | inl voice ↦ candidate-behind f fs c (candidates-Sheddable fs c (rw voice at m))
  | inr other ↦
      known-Sheddable f fs (cost_of f) c refl other (rw other at m) (candidates-Sheddable fs c)
]

length-filterb : {A : Type 0} (p : A → Bool) (xs : List A) → length (filterb p xs) ≤ length xs
length-filterb p [] = omega arith
length-filterb p (x ∷ xs) = ground (arith, length-filterb p xs)

without-shorter :
    (f : String) (live : List String) → Mem f live → length (without f live) < length live
without-shorter f [] m = absurd m
without-shorter f (x ∷ xs) (inl e) =
    let same : str_eq x f ≡ true = (eq_iff x f).1 (sym e) in
    rw (filterb-neg (λ g. not (str_eq g f)) x xs (ap not same))
      (omega (arith, length-filterb (λ g. not (str_eq g f)) xs))
without-shorter f (x ∷ xs) (inr m) = ground (arith, without-shorter f xs m)

sheds_first-IsOrder : IsOrder sheds_first
sheds_first-IsOrder = record {
  asymmetric = λ a b h. ground arith;
  cotransitive = λ a b c h k. ground arith;
}

-- Nothing more can be shed: every live feature is the voice, or no entry of the table of costs is its.
abbrev pub IsExhausted : List String → Type 0
IsExhausted live =
    (f : String) → Mem f live → (f ≡ audio) ⊎ ((c : Cost) → Mem c costs → c.feature ≢ f)

cost_of-none : (f : String) → cost_of f ≡ none → (c : Cost) → Mem c costs → c.feature ≢ f
unfolding cost_of
cost_of-none f e c m same =
    let differs = find-none (λ (x : Cost). str_eq x.feature f) costs e c m in
    absurd (let equal = (eq_iff c.feature f).1 same in cc)

known-empty : (o : Option Cost) (cs : List Cost) → known o cs ≡ [] → (o ≡ none) × (cs ≡ [])
known-empty none cs e = (refl, e)
known-empty (some c) cs e = absurd (cc)

-- Without candidates nothing more can be shed.
candidates-IsExhausted : (live : List String) → candidates live ≡ [] → IsExhausted live
unfolding candidates
candidates-IsExhausted [] e f m = absurd m
candidates-IsExhausted (g ∷ gs) e f m = elim (Bool-cases (never_shed g)) [
  | inl voice ↦ elim m [
    | inl here ↦ inl (here ∙ sym ((eq_iff audio g).0 voice))
    | inr later ↦ candidates-IsExhausted gs (rw voice at e) f later
  ]
  | inr other ↦
      let (free, rest) = known-empty (cost_of g) (candidates gs) (rw other at e) in
      elim m [
        | inl here ↦
            inr (
              subst (λ x. (c : Cost) → Mem c costs → c.feature ≢ x) (sym here)
                (cost_of-none g free))
        | inr later ↦ candidates-IsExhausted gs rest f later
      ]
]

chosen :
    (live : List String) (cs : List Cost)
    → candidates live ≡ cs
    → ((first_sorted sheds_first cs ≡ none) × IsExhausted live)
      ⊎ ((c : Cost) × (first_sorted sheds_first cs ≡ some c) × IsSheddable live c)
chosen live [] e = inl (refl, candidates-IsExhausted live e)
chosen live (x ∷ xs) e =
    let (c, head, first) = first_sorted-Earliest sheds_first sheds_first-IsOrder (x ∷ xs) refl in
    inr (c, head, candidates-Sheddable live c (subst (Mem c) (sym e) first.member))

-- The loop ended by itself, and did not shed the voice.
abbrev Sheds : Capacity → Plan → Plan → Type 0
Sheds room p q =
    ((fits (total q.live) room ≡ true) ⊎ IsExhausted q.live) × (Mem audio p.live → Mem audio q.live)

shed_until-fits :
    (rounds : ℕ) (room : Capacity) (p : Plan)
    → fits (total p.live) room ≡ true
    → shed_until (suc rounds) room p ≡ p
unfolding shed_until
shed_until-fits rounds room p e = rw (e, shed_until) refl

shed_until-none :
    (rounds : ℕ) (room : Capacity) (p : Plan)
    → fits (total p.live) room ≡ false
    → first_sorted sheds_first (candidates p.live) ≡ none
    → shed_until (suc rounds) room p ≡ p
unfolding shed_until
shed_until-none rounds room p e h = rw (e, h, shed_until) refl

shed_until-next :
    (rounds : ℕ) (room : Capacity) (p : Plan) (c : Cost)
    → fits (total p.live) room ≡ false
    → first_sorted sheds_first (candidates p.live) ≡ some c
    → shed_until (suc rounds) room p ≡ shed_until rounds room (shed c p)
unfolding shed_until
shed_until-next rounds room p c e h = rw (e, h, shed_until) refl

empty_live : (live : List String) → length live ≤ 0 → live ≡ []
empty_live [] h = refl
empty_live (f ∷ fs) h = absurd (omega arith)

shed_until-Sheds :
    (rounds : ℕ) (room : Capacity) (p : Plan)
    → length p.live ≤ rounds
    → Sheds room p (shed_until rounds room p)
shed_until-Sheds zero room p h =
    unfold shed_until in (inr (λ f m. absurd (subst (Mem f) (empty_live p.live h) m)), λ m. m)
shed_until-Sheds (suc rounds) room p h = elim (Bool-cases (fits (total p.live) room)) [
  | inl ok ↦ subst (Sheds room p) (sym (shed_until-fits rounds room p ok)) (inl ok, λ m. m)
  | inr over ↦ elim (chosen p.live (candidates p.live) refl) [
    | inl (e, done) ↦
        subst (Sheds room p) (sym (shed_until-none rounds room p over e)) (inr done, λ m. m)
    | inr (c, e, sheddable) ↦
        let (live, spared) = sheddable in
        let (settled, kept) =
          shed_until-Sheds rounds room (shed c p)
            (omega (arith, without-shorter c.feature p.live live)) in
        subst (Sheds room p) (sym (shed_until-next rounds room p c over e)) (
          settled,
          λ m.
              kept
                ((Mem-filterb (λ f. not (str_eq f c.feature)) audio p.live).1 (m, ap not spared)),
        )
  ]
]

replace_first-length :
    (from to : String) (fs : List String) → length (replace_first from to fs) ≡ length fs
replace_first-length from to [] = refl
replace_first-length from to (f ∷ fs) = ground (arith, replace_first-length from to fs)

replace_first-audio :
    (from to : String) (fs : List String)
    → str_eq audio from ≡ false
    → Mem audio fs
    → Mem audio (replace_first from to fs)
replace_first-audio from to [] n m = absurd m
replace_first-audio from to (f ∷ fs) n (inl e) =
    let other : str_eq f from ≡ false = subst (λ x. str_eq x from ≡ false) e n in
    rw (other, replace_first) (inl e)
replace_first-audio from to (f ∷ fs) n (inr m) = elim (Bool-cases (str_eq f from)) [
  | inl here ↦ rw (here, replace_first) (inr m)
  | inr later ↦ rw (later, replace_first) (inr (replace_first-audio from to fs n m))
]

substitute-audio :
    (s : Substitution) (p : Plan)
    → str_eq audio s.from_feature ≡ false
    → Mem audio p.live
    → Mem audio (substitute s p).live
substitute-audio s p n m = elim (Bool-cases (includes s.from_feature p.live)) [
  | inl there ↦ rw (there, substitute) (replace_first-audio s.from_feature s.to_feature p.live n m)
  | inr absent ↦ rw (absent, substitute) m
]

substitute_all-audio :
    (room : Capacity) (ss : List Substitution) (p : Plan)
    → All (λ (s : Substitution). str_eq audio s.from_feature ≡ false) ss
    → Mem audio p.live
    → Mem audio (substitute_all room ss p).live
unfolding substitute_all
substitute_all-audio room [] p h m = m
substitute_all-audio room (s ∷ ss) p (n, h) m = elim (Bool-cases (fits (total p.live) room)) [
  | inl ok ↦ rw (ok, substitute_all) m
  | inr over ↦
      rw (over, substitute_all)
        (substitute_all-audio room ss (substitute s p) h (substitute-audio s p n m))
]

substituted_plan : Capacity → List String → Plan
substituted_plan room requested = substitute_all room substitutions (requested_plan requested)

-- The resolution says that it fits, or nothing more can be shed; what is admitted fits when it says so;
-- the voice is admitted if it was requested; and a request that fits is admitted whole.
abbrev pub IsSettled : Capacity → List String → Resolution → Type 0
IsSettled room requested r =
    ((r.it_fits ≡ true) ⊎ IsExhausted r.admitted)
    × (r.it_fits ≡ fits (total r.admitted) room)
    × (Mem audio requested → Mem audio r.admitted)
    × (fits (total requested) room ≡ true → (r.admitted ≡ requested) × (r.dropped ≡ []))

either :
    (P : Resolution → Type 0) (ok : Bool) (a b : Resolution)
    → (ok ≡ true → P a)
    → (ok ≡ false → P b)
    → P (if ok then a else b)
either P true a b f g = f refl
either P false a b f g = g refl

resolve_for-IsSettled :
    (room : Capacity) (requested : List String)
    → IsSettled room requested (resolve_for room requested)
unfolding resolve_for substituted_plan
resolve_for-IsSettled room requested =
    let p = substituted_plan room requested in
    let (settled, kept) = shed_until-Sheds (length p.live) room p (omega arith) in
    either (IsSettled room requested) (fits (total requested) room)
      (resolution room (requested_plan requested))
      (resolution room (shed_until (length p.live) room p))
      (λ ok. (inl ok, refl, λ m. m, λ h. (refl, refl)))
      (λ over. (
        settled,
        refl,
        λ m. kept (
            substitute_all-audio room substitutions (requested_plan requested)
              (refl, (refl, (refl, tt))) m),
        λ h. absurd (cc),
      ))

-- On every tier and for every list of features, the resolution ends, either with features whose total
-- fits the tier, or with nothing but the voice and features that are in no row of the table of costs; it
-- says that it fits exactly when the total does; a requested voice is always admitted; and a request that
-- fits as it stands is admitted as it stands, with nothing dropped.
pub resolve-IsSettled :
    (requested : List String) (tier : Tier)
    → IsSettled (capacity_of tier) requested (resolve requested tier)
resolve-IsSettled requested tier = resolve_for-IsSettled (capacity_of tier) requested

-- ===== src/Guardian/Tests.antt =====
-- The theorems on the group call at two sisters.
use olive_branch.Prelude.{
  ℕ, suc, ◌≡◌, ◌≤◌, refl, String, Bool, none, some, List, [], ◌∷◌, length, get_elem?, count, Sorted,
  str_eq, eq_iff, subst, Bool-cases, inl, inr, arith,
}
use olive_branch.Guardian.Group.{GroupCall, Child, begun, younger, start_group_call, solo_order}
use olive_branch.Guardian.Turns.{turn_after, solo_turns-IsFair}

abbrev call : GroupCall
call = record {
  parent_id = "dad";
  child_ids = "ann" ∷ "eve" ∷ [];
  solo_turn = none;
  solo_seconds_each = 240;
  started_at = "t";
}

abbrev sisters : List Child
sisters = record { id = "ann"; age = some 12 } ∷ record { id = "eve"; age = some 5 } ∷ []

begins : start_group_call "dad" ("ann" ∷ "eve" ∷ []) "t" ≡ begun call
unfolding start_group_call
begins = refl

youngest_first : solo_order sisters ≡ "eve" ∷ "ann" ∷ []
unfolding solo_order
youngest_first = refl

different_ids : (id : String) → count (λ (c : Child). str_eq c.id id) sisters ≤ 1
different_ids id = elim (Bool-cases (str_eq "ann" id)) [
  | inl ann ↦
      subst (λ x. count (λ (c : Child). str_eq c.id x) sisters ≤ 1) ((eq_iff "ann" id).0 ann)
        (omega arith)
  | inr other ↦ rw other (ground arith)
]

solo_turns-IsFair_example :
    (ordered : List Child) × Sorted younger ordered
    × ((p : Child → Bool) → count p ordered ≡ count p sisters)
    × ((k : ℕ) (c : Child)
        → get_elem? ordered k ≡ some c
        → (turn_after (suc k) call (solo_order sisters)).solo_turn ≡ some c.id)
    × ((turn_after (suc (length ordered)) call (solo_order sisters)).solo_turn ≡ none)
solo_turns-IsFair_example = solo_turns-IsFair call sisters refl different_ids

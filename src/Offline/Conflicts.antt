-- ===== src/Offline/Conflicts.antt =====
-- offline.ts: two edits of one list that were both made offline. The value's type is a parameter.
use olive_branch.Prelude.{
  ◌≡◌, ◌⊎◌, Bool, true, false, not, String, if◌then◌else◌, str_lt, str_lt-asymmetric, arith,
}

pub data Actor : Type 0 where
  child guardian : Actor

abbrev pub is_child : Actor → Bool
is_child child = true
is_child guardian = false

abbrev pub same_actor : Actor → Actor → Bool
same_actor child child = true
same_actor guardian guardian = true
same_actor _ _ = false

pub record Edit (T : Type 0) : Type 0 where
  pub actor : Actor
  pub at : String
  pub value : T
  pub by : String

pub record Resolution (T : Type 0) : Type 0 where
  pub winner : Edit T
  pub loser : Edit T
  pub reason : String

module _ {T : Type 0} where
  unfoldable pub resolve : Edit T → Edit T → Resolution T
  resolve a b =
      if not (same_actor a.actor b.actor)
      then record {
        winner = if is_child a.actor then a else b;
        loser = if is_child a.actor then b else a;
        reason = "it is her list — a guardian edit never silently overwrites hers";
      }
      else record {
        winner = if not (str_lt a.at b.at) then a else b;
        loser = if not (str_lt a.at b.at) then b else a;
        reason = "later edit wins; the earlier one is kept";
      }

  unfoldable pub conflict_notice : Edit T → String
  conflict_notice loser =
      if is_child loser.actor
      then "This was changed in two places. Both are kept."
      else "She changed this while you were both offline, so hers is showing. Yours is kept."

  -- Nothing is lost and the child is never overruled: one of the edits wins and the other is kept as
  -- the loser; a child's edit loses only to a child's; and between two guardians, or two edits of the
  -- child, the winner is not the earlier one.
  pub resolve-IsJust :
      (a b : Edit T)
      → ((((resolve a b).winner ≡ a) × ((resolve a b).loser ≡ b))
          ⊎ (((resolve a b).winner ≡ b) × ((resolve a b).loser ≡ a)))
        × ((resolve a b).loser.actor ≡ child → (resolve a b).winner.actor ≡ child)
        × ((resolve a b).loser.actor ≡ (resolve a b).winner.actor
            → str_lt (resolve a b).winner.at (resolve a b).loser.at ≡ false)
  unfolding resolve
  resolve-IsJust a b = ground (arith, str_lt-asymmetric a.at b.at)

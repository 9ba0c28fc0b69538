-- ===== src/Prelude/Text.antt =====
-- Texts as lists of code points: order, search and lower case. For ASCII texts, such as ids and
-- room names, this is what JavaScript does on UTF-16 units; its lower case of other letters is not
-- modelled.
use Prim.Native.Nat.{ℕ, ◌+◌}
use Prim.Native.Char.{code}
use Prim.Native.String.{String}
use mathlib.Core.Bool.{Bool, true, false, not, ◌&&◌, ◌||◌}
use mathlib.Core.Path.{◌≡◌, refl}
use native.Mathlib.Omega.{arith}
use mathlib.Core.List.{List, [], ◌∷◌, map}
use olive_branch.Prelude.Tests.{ltb, leb, ◌==◌, if◌then◌else◌}
use olive_branch.Prelude.Lists.{length, filterb, any}

abbrev pub codes : String → List ℕ
codes String.[] = []
codes (String.◌∷◌ c s) = code c ∷ codes s

-- `x < y`
abbrev pub list_lt : List ℕ → List ℕ → Bool
list_lt [] [] = false
list_lt [] (y ∷ ys) = true
list_lt (x ∷ xs) [] = false
list_lt (x ∷ xs) (y ∷ ys) = ltb x y || ((x == y) && list_lt xs ys)

unfoldable pub str_lt : String → String → Bool
str_lt x y = list_lt (codes x) (codes y)

abbrev pub is_prefix : List ℕ → List ℕ → Bool
is_prefix [] ys = true
is_prefix (x ∷ xs) [] = false
is_prefix (x ∷ xs) (y ∷ ys) = (x == y) && is_prefix xs ys

-- `hay.includes(needle)`, the needle first.
abbrev pub occurs : List ℕ → List ℕ → Bool
occurs needle [] = is_prefix needle []
occurs needle (y ∷ ys) = is_prefix needle (y ∷ ys) || occurs needle ys

abbrev pub to_lower : ℕ → ℕ
to_lower c = if leb b'A' c && leb c b'Z' then c + 32 else c

abbrev pub lower_case : String → List ℕ
lower_case s = map to_lower (codes s)

-- `roomNameLeaks` of rooms.ts and `tableIdLeaks` of table.ts, which are the same function.
unfoldable pub leaks : String → List String → Bool
leaks name = any λ s.
    let low = lower_case s in
    let n = filterb (λ c. not (c == b'-')) low in
    leb 6 (length n) && (occurs low (lower_case name) || occurs n (lower_case name))

list_lt-asymmetric : (a b : List ℕ) → list_lt a b ≡ true → list_lt b a ≡ false
list_lt-asymmetric [] [] h = refl
list_lt-asymmetric [] (y ∷ ys) h = refl
list_lt-asymmetric (x ∷ xs) [] h = cc
list_lt-asymmetric (x ∷ xs) (y ∷ ys) h = ground (arith, list_lt-asymmetric xs ys)

pub str_lt-asymmetric : (a b : String) → str_lt a b ≡ true → str_lt b a ≡ false
unfolding str_lt
str_lt-asymmetric a b h = list_lt-asymmetric (codes a) (codes b) h

-- ===== src/Common/NameSet.antt =====
-- Sets of texts as lists without repetition (`HashSet<String>` in the program, whose iteration
-- order is left open there and is the order of the list here).
use Prim.Native.Nat.{suc, ◌≤◌, ◌<◌}
use Prim.Native.String.{String}
use mathlib.Core.Path.{◌≡◌, refl}
use mathlib.Core.Bool.{Bool, true, false, ◌||◌, not, ◌&&◌}
use mathlib.Core.List.{List, [], ◌∷◌}
use native.Mathlib.Omega.{arith}
use text.Mathlib.TextEquality.{eq_iff}
use ponswarp_signaling_rs.Common.Tests.{if◌then◌else◌, length}
use ponswarp_signaling_rs.Common.Interface.{◌==◌, string_eq}

unfoldable pub contains : String → List String → Bool
contains a [] = false
contains a (x ∷ xs) = x == a || contains a xs

unfoldable pub insert : String → List String → List String
unfolding contains
insert a xs = if contains a xs then xs else a ∷ xs

unfoldable pub remove : String → List String → List String
remove a [] = []
remove a (x ∷ xs) = if x == a then remove a xs else x ∷ remove a xs

abbrev pub Distinct : List String → Type 0
Distinct [] = Unit
Distinct (x ∷ xs) = (contains x xs ≡ false) × Distinct xs

pub contains-insert :
    (a b : String) (xs : List String) → contains b (insert a xs) ≡ (a == b || contains b xs)
unfolding insert
contains-insert a b xs = ground (arith, eq_iff a b)

pub contains-remove :
    (a b : String) (xs : List String) → contains b (remove a xs) ≡ (not (a == b) && contains b xs)
unfolding contains remove
contains-remove a b [] = ground arith
contains-remove a b (x ∷ xs) =
    ground (arith, eq_iff a b, eq_iff x a, eq_iff x b, contains-remove a b xs)

pub insert-Distinct : (a : String) (xs : List String) → Distinct xs → Distinct (insert a xs)
unfolding insert
insert-Distinct a xs d = ground arith

pub remove-Distinct : (a : String) (xs : List String) → Distinct xs → Distinct (remove a xs)
unfolding remove
remove-Distinct a [] d = tt
remove-Distinct a (x ∷ xs) (new, d) = ground (arith, remove-Distinct a xs d, contains-remove a x xs)

pub length-insert :
    (a : String) (xs : List String)
    → length (insert a xs) ≡ (if contains a xs then length xs else suc (length xs))
unfolding insert
length-insert a xs = ground arith

pub length-remove-le : (a : String) (xs : List String) → length (remove a xs) ≤ length xs
unfolding remove
length-remove-le a [] = omega arith
length-remove-le a (x ∷ xs) = ground (arith, length-remove-le a xs)

-- The set is empty exactly when it has no member.
pub empty_of_not_contains :
    (xs : List String) → ((a : String) → contains a xs ≡ false) → length xs ≡ 0
unfolding contains
empty_of_not_contains [] h = refl
empty_of_not_contains (x ∷ xs) h = ground (arith, h x, eq_iff x x)

pub nonempty_of_contains : (a : String) (xs : List String) → contains a xs ≡ true → 0 < length xs
unfolding contains
nonempty_of_contains a [] h = ground arith
nonempty_of_contains a (x ∷ xs) h = omega arith

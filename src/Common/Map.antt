-- ===== src/Common/Map.antt =====
-- Maps as association lists (`DashMap` in the program), over keys with an equality.
use mathlib.Core.Path.{◌≡◌, refl}
use mathlib.Core.Logic.{inl, inr}
use mathlib.Core.Bool.{Bool, true}
use mathlib.Core.Option.{Option, none, some}
use mathlib.Core.List.{List, [], ◌∷◌}
use native.Mathlib.Omega.{arith}
use ponswarp_signaling_rs.Common.Tests.{if◌then◌else◌, Bool-cases, is_some}
use ponswarp_signaling_rs.Common.Interface.{KeyEq}

abbrev pub Map {ℓ κ} : Type ℓ → Type κ → Type (ℓ ⊔ κ)
Map K V = List (K × V)

module _ {ℓ κ} {K : Type ℓ} {V : Type κ} ⦃e : KeyEq K⦄ where
  unfoldable pub lookup : K → Map K V → Option V
  lookup k [] = none
  lookup k ((j, v) ∷ m) = if e.same j k then some v else lookup k m

  unfoldable pub contains_key : K → Map K V → Bool
  unfolding lookup
  contains_key k m = is_some (lookup k m)

  -- A new value takes the place of the old one.
  unfoldable pub insert : K → V → Map K V → Map K V
  insert k v [] = (k, v) ∷ []
  insert k v ((j, w) ∷ m) = if e.same j k then (k, v) ∷ m else (j, w) ∷ insert k v m

  unfoldable pub remove : K → Map K V → Map K V
  remove k [] = []
  remove k ((j, w) ∷ m) = if e.same j k then remove k m else (j, w) ∷ remove k m

  unfoldable pub retain : (K → V → Bool) → Map K V → Map K V
  retain keep [] = []
  retain keep ((j, w) ∷ m) = if keep j w then (j, w) ∷ retain keep m else retain keep m

  -- No key stands twice.
  abbrev pub Distinct : Map K V → Type κ
  Distinct [] = Unit
  Distinct ((k, v) ∷ m) = (lookup k m ≡ none) × Distinct m

  pub lookup-insert :
      (k j : K) (v : V) (m : Map K V)
      → lookup j (insert k v m) ≡ (if e.same k j then some v else lookup j m)
  unfolding lookup insert
  lookup-insert k j v [] = refl
  lookup-insert k j v ((i, w) ∷ m) =
      ground (arith, e.same_iff k j, e.same_iff i k, e.same_iff i j, lookup-insert k j v m)

  pub contains_key-insert :
      (k j : K) (v : V) (m : Map K V)
      → contains_key j m ≡ true
      → contains_key j (insert k v m) ≡ true
  unfolding contains_key
  contains_key-insert k j v m h = ground (arith, lookup-insert k j v m)

  pub lookup-remove :
      (k j : K) (m : Map K V) → lookup j (remove k m) ≡ (if e.same k j then none else lookup j m)
  unfolding lookup remove
  lookup-remove k j [] = ground arith
  lookup-remove k j ((i, w) ∷ m) =
      ground (arith, e.same_iff k j, e.same_iff i k, e.same_iff i j, lookup-remove k j m)

  pub lookup-insert_self : (k : K) (v : V) (m : Map K V) → lookup k (insert k v m) ≡ some v
  lookup-insert_self k v m = ground (arith, lookup-insert k k v m, e.same_iff k k)

  pub lookup-remove_self : (k : K) (m : Map K V) → lookup k (remove k m) ≡ none
  lookup-remove_self k m = ground (arith, lookup-remove k k m, e.same_iff k k)

  lookup-retain-none :
      (keep : K → V → Bool) (k : K) (m : Map K V)
      → lookup k m ≡ none
      → lookup k (retain keep m) ≡ none
  unfolding lookup retain
  lookup-retain-none keep k [] h = refl
  lookup-retain-none keep k ((i, w) ∷ m) h = ground (arith, lookup-retain-none keep k m)

  abbrev pub kept : (K → V → Bool) → K → Option V → Option V
  kept keep k none = none
  kept keep k (some v) = if keep k v then some v else none

  pub lookup-retain :
      (keep : K → V → Bool) (k : K) (m : Map K V)
      → Distinct m
      → lookup k (retain keep m) ≡ kept keep k (lookup k m)
  unfolding lookup retain
  lookup-retain keep k [] d = refl
  lookup-retain keep k ((i, w) ∷ m) (new, d) =
      ground (arith, lookup-retain keep k m d, lookup-retain-none keep i m new, e.same_iff i k)

  pub insert-Distinct : (k : K) (v : V) (m : Map K V) → Distinct m → Distinct (insert k v m)
  unfolding insert lookup
  insert-Distinct k v [] d = (refl, tt)
  insert-Distinct k v ((i, w) ∷ m) (new, d) =
      ground (arith, insert-Distinct k v m d, lookup-insert k i v m, e.same_iff i k, e.same_iff k i)

  pub remove-Distinct : (k : K) (m : Map K V) → Distinct m → Distinct (remove k m)
  unfolding remove
  remove-Distinct k [] d = tt
  remove-Distinct k ((i, w) ∷ m) (new, d) =
      ground (arith, remove-Distinct k m d, lookup-remove k i m)

  pub retain-Distinct : (keep : K → V → Bool) (m : Map K V) → Distinct m → Distinct (retain keep m)
  unfolding retain
  retain-Distinct keep [] d = tt
  retain-Distinct keep ((i, w) ∷ m) (new, d) =
      ground (arith, retain-Distinct keep m d, lookup-retain-none keep i m new)

-- A property of every entry.
module _ {ℓ κ μ} {K : Type ℓ} {V : Type κ} ⦃e : KeyEq K⦄ (P : K → V → Type μ) where
  abbrev pub Each : Map K V → Type (ℓ ⊔ κ ⊔ μ)
  Each m = (k : K) (v : V) → lookup k m ≡ some v → P k v

  pub Each-insert : (k : K) (v : V) (m : Map K V) → Each m → P k v → Each (insert k v m)
  Each-insert k v m h p j w found = elim (Bool-cases (e.same k j)) [
    | inl same ↦ ground (arith, p, lookup-insert k j v m, e.same_iff k j)
    | inr other ↦ h j w (ground (arith, lookup-insert k j v m))
  ]

  pub Each-remove : (k : K) (m : Map K V) → Each m → Each (remove k m)
  Each-remove k m h j w found = h j w (ground (arith, lookup-remove k j m))

  pub Each-retain : (keep : K → V → Bool) (m : Map K V) → Distinct m → Each m → Each (retain keep m)
  Each-retain keep m d h j w found = h j w (ground (arith, lookup-retain keep j m d))

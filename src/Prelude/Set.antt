-- ===== src/Prelude/Set.antt =====
-- `std::unordered_set`: a list without repetitions. The order of the list stands for the unspecified
-- order of iteration.
use mathlib.Core.Path.{◌≡◌}
use mathlib.Core.Logic.{inl, inr}
use mathlib.Core.Bool.{Bool, true, false}
use mathlib.Core.List.{List, [], ◌∷◌}
use native.Mathlib.Omega.{arith}
use distributed_algorithms_p.Prelude.Tests.{Eq, ◌==◌, if◌then◌else◌, ==_iff, Bool-cases}
use distributed_algorithms_p.Prelude.Lists.{In}

module _ {ℓ} {A : Type ℓ} ⦃e : Eq A⦄ where
  unfoldable pub member : A → List A → Bool
  member a [] = false
  member a (x ∷ xs) = if x == a then true else member a xs

  unfoldable pub insert : A → List A → List A
  insert a xs = if member a xs then xs else a ∷ xs

  unfoldable pub erase : A → List A → List A
  erase a [] = []
  erase a (x ∷ xs) = let rest = erase a xs in if x == a then rest else x ∷ rest

  -- No element stands twice.
  abbrev pub Distinct : List A → Type 0
  Distinct [] = Unit
  Distinct (x ∷ xs) = (member x xs ≡ false) × Distinct xs

  pub not-member-nil : (a : A) → ¬ (member a [] ≡ true)
  unfolding member
  not-member-nil a h = cc

  pub member-insert :
      (a b : A) (xs : List A) → member b (insert a xs) ≡ (if a == b then true else member b xs)
  unfolding insert member
  member-insert a b xs = elim (Bool-cases (member a xs)) [
    | inl old ↦ elim (Bool-cases (a == b)) [
      | inl same ↦ rw (old, same, ← (==_iff a b).0 same) old
      | inr other ↦ rw (old, other)
    ]
    | inr new ↦ rw new
  ]

  pub member-erase :
      (a b : A) (xs : List A) → member b (erase a xs) ≡ (if a == b then false else member b xs)
  unfolding erase member
  member-erase a b [] = ground arith
  member-erase a b (x ∷ xs) =
      ground (arith, member-erase a b xs, ==_iff x a, ==_iff x b, ==_iff a b)

  pub insert-Distinct : (a : A) (xs : List A) → Distinct xs → Distinct (insert a xs)
  unfolding insert
  insert-Distinct a xs d = elim (Bool-cases (member a xs)) [
    | inl old ↦ rw old d
    | inr new ↦ rw new (new, d)
  ]

  pub erase-Distinct : (a : A) (xs : List A) → Distinct xs → Distinct (erase a xs)
  unfolding erase
  erase-Distinct a [] d = tt
  erase-Distinct a (x ∷ xs) d =
      ground (arith, member-erase a x xs, ==_iff a x, ==_iff x a, erase-Distinct a xs d.1)

module _ {A : Type 0} ⦃e : Eq A⦄ where
  pub member-In : (a : A) (xs : List A) → member a xs ≡ true → In a xs
  unfolding member
  member-In a [] h = cc
  member-In a (x ∷ xs) h = ground (arith, ==_iff x a, member-In a xs)

  pub In-member : (a : A) (xs : List A) → In a xs → member a xs ≡ true
  unfolding member
  In-member a [] h = absurd h
  In-member a (x ∷ xs) h = ground (arith, ==_iff x a, In-member a xs)

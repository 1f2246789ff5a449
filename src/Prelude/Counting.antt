-- ===== src/Prelude/Counting.antt =====
-- How many: sets as lists with no element twice, and majorities.
use Prim.Native.Nat.{ℕ, zero, suc, ◌*◌, ◌≤◌, ◌<◌}
use mathlib.Core.Path.{◌≡◌, refl}
use mathlib.Core.Logic.{◌⊎◌, inl, inr}
use mathlib.Core.Bool.{true, false}
use mathlib.Core.List.{List, [], ◌∷◌, ◌++◌}
use native.Mathlib.Omega.{arith}
use distributed_algorithms_p.Prelude.Tests.{
  nat_eq, ==_iff, ==_refl, Bool-cases, nat_beq_iff, if◌then◌else◌,
}
use distributed_algorithms_p.Prelude.Lists.{length, length-append}
use distributed_algorithms_p.Prelude.Set.{member, erase, Distinct, member-erase}

length-erase_le : (a : ℕ) (xs : List ℕ) → length (erase a xs) ≤ length xs
unfolding erase
length-erase_le a [] = omega arith
length-erase_le a (x ∷ xs) = ground (arith, length-erase_le a xs)

pub length-erase :
    (a : ℕ) (xs : List ℕ) → member a xs ≡ true → suc (length (erase a xs)) ≤ length xs
unfolding member erase
length-erase a [] m = cc
length-erase a (x ∷ xs) m = ground (arith, length-erase a xs, length-erase_le a xs)

-- A set within another is not larger.
pub length-Distinct :
    (xs ys : List ℕ)
    → Distinct xs
    → ((a : ℕ) → member a xs ≡ true → member a ys ≡ true)
    → length xs ≤ length ys
unfolding member
length-Distinct [] ys d h = omega arith
length-Distinct (x ∷ xs) ys d h =
    let less = length-erase x ys (h x (ground (arith, ==_refl x))) in
    let rest =
      length-Distinct xs (erase x ys) d.1
        λ a m. ground (arith, member-erase x a ys, ==_iff x a, h a, d.0) in
    omega (arith, less, rest)

member-append :
    (a : ℕ) (xs ys : List ℕ) → member a (xs ++ ys) ≡ (if member a xs then true else member a ys)
unfolding member
member-append a [] ys = refl
member-append a (x ∷ xs) ys = ground (arith, member-append a xs ys)

append-Distinct :
    (xs ys : List ℕ)
    → Distinct xs
    → Distinct ys
    → ((a : ℕ) → member a xs ≡ true → member a ys ≡ false)
    → Distinct (xs ++ ys)
unfolding member
append-Distinct [] ys d e apart = e
append-Distinct (x ∷ xs) ys d e apart = (
  ground (arith, d.0, member-append x xs ys, apart x, ==_refl x),
  append-Distinct xs ys d.1 e λ a m. ground (arith, apart a),
)

-- The numbers from 1 to `n`.
abbrev up_to : ℕ → List ℕ
up_to zero = []
up_to (suc n) = suc n ∷ up_to n

member-up_to : (a n : ℕ) → 1 ≤ a → a ≤ n → member a (up_to n) ≡ true
unfolding member
member-up_to a zero lo hi = absurd (omega arith)
member-up_to a (suc n) lo hi = ground (arith, member-up_to a n lo)

length-up_to : (n : ℕ) → length (up_to n) ≡ n
length-up_to zero = refl
length-up_to (suc n) = omega (arith, length-up_to n)

-- An element of both, or none.
common :
    (xs ys : List ℕ)
    → ((a : ℕ) × (member a xs ≡ true) × (member a ys ≡ true))
      ⊎ ((a : ℕ) → member a xs ≡ true → member a ys ≡ false)
unfolding member
common [] ys = inr (λ a m. cc)
common (x ∷ xs) ys = elim (Bool-cases (member x ys)) [
  | inl shared ↦ inl (x, ground (arith, ==_refl x), shared)
  | inr other ↦ elim (common xs ys) [
    | inl (a, p, q) ↦ inl (a, ground arith, q)
    | inr apart ↦ inr (λ a m. ground (arith, other, nat_beq_iff x a, apart a))
  ]
]

-- Two majorities of the numbers from 1 to `n` share one.
pub majorities-meet :
    (n : ℕ) (xs ys : List ℕ)
    → Distinct xs
    → Distinct ys
    → ((a : ℕ) → member a xs ≡ true → (1 ≤ a) × (a ≤ n))
    → ((a : ℕ) → member a ys ≡ true → (1 ≤ a) × (a ≤ n))
    → n < 2 * length xs
    → n < 2 * length ys
    → (a : ℕ) × (member a xs ≡ true) × (member a ys ≡ true)
majorities-meet n xs ys d e in_xs in_ys many most = elim (common xs ys) [
  | inl shared ↦ shared
  | inr apart ↦
      let few : length (xs ++ ys) ≤ length (up_to n) =
        length-Distinct (xs ++ ys) (up_to n) (append-Distinct xs ys d e apart) λ a m.
          elim (Bool-cases (member a xs)) [
            | inl x ↦ let (lo, hi) = in_xs a x in member-up_to a n lo hi
            | inr other ↦
                let (lo, hi) = in_ys a (ground (arith, member-append a xs ys)) in
                member-up_to a n lo hi
          ] in
      absurd (omega (arith, length-up_to n, length-append xs ys))
]

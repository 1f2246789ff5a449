-- ===== src/Prelude/SortedSet.antt =====
-- `std::set<unsigned>`: a list that ascends, iterated from the least element.
use Prim.Native.Nat.{ℕ, suc, ◌≤◌, ◌<◌}
use mathlib.Core.Path.{◌≡◌, refl}
use mathlib.Core.Bool.{Bool, true, false}
use mathlib.Core.List.{List, [], ◌∷◌}
use native.Mathlib.Omega.{arith}
use distributed_algorithms_p.Prelude.Tests.{◌==◌, nat_eq, ltb, if◌then◌else◌}

unfoldable pub contains : ℕ → List ℕ → Bool
contains n [] = false
contains n (x ∷ xs) = if x == n then true else contains n xs

unfoldable pub insert : ℕ → List ℕ → List ℕ
insert n [] = n ∷ []
insert n (x ∷ xs) =
    let rest = insert n xs in if ltb n x then n ∷ x ∷ xs else if n == x then x ∷ xs else x ∷ rest

unfoldable pub erase : ℕ → List ℕ → List ℕ
erase n [] = []
erase n (x ∷ xs) = let rest = erase n xs in if x == n then rest else x ∷ rest

-- Strictly ascending, from `low` on.
abbrev pub Ascends : ℕ → List ℕ → Type 0
Ascends low [] = Unit
Ascends low (x ∷ xs) = (low ≤ x) × Ascends (suc x) xs

-- Every element is below `high`.
abbrev pub Below : ℕ → List ℕ → Type 0
Below high [] = Unit
Below high (x ∷ xs) = (x < high) × Below high xs

pub contains-insert :
    (n m : ℕ) (xs : List ℕ) → contains m (insert n xs) ≡ (if n == m then true else contains m xs)
unfolding contains insert
contains-insert n m [] = refl
contains-insert n m (x ∷ xs) = ground (arith, contains-insert n m xs)

pub contains-erase :
    (n m : ℕ) (xs : List ℕ) → contains m (erase n xs) ≡ (if n == m then false else contains m xs)
unfolding contains erase
contains-erase n m [] = ground arith
contains-erase n m (x ∷ xs) = ground (arith, contains-erase n m xs)

pub insert-Ascends :
    (n low : ℕ) (xs : List ℕ) → low ≤ n → Ascends low xs → Ascends low (insert n xs)
unfolding insert
insert-Ascends n low [] h a = (h, tt)
insert-Ascends n low (x ∷ xs) h a = ground (arith, insert-Ascends n (suc x) xs)

pub insert-Below : (n high : ℕ) (xs : List ℕ) → n < high → Below high xs → Below high (insert n xs)
unfolding insert
insert-Below n high [] h b = (h, tt)
insert-Below n high (x ∷ xs) h b = ground (arith, insert-Below n high xs)

pub Ascends-lower : (low n : ℕ) (xs : List ℕ) → low ≤ n → Ascends n xs → Ascends low xs
Ascends-lower low n [] h a = tt
Ascends-lower low n (x ∷ xs) h a = (omega arith, a.1)

-- An element that all others exceed is not among them.
pub contains-Ascends : (n low : ℕ) (xs : List ℕ) → n < low → Ascends low xs → contains n xs ≡ false
unfolding contains
contains-Ascends n low [] h a = refl
contains-Ascends n low (x ∷ xs) h a = ground (arith, contains-Ascends n (suc x) xs)

pub erase-Ascends_self : (n low : ℕ) (xs : List ℕ) → n < low → Ascends low xs → erase n xs ≡ xs
unfolding erase
erase-Ascends_self n low [] h a = refl
erase-Ascends_self n low (x ∷ xs) h a = ground (arith, erase-Ascends_self n (suc x) xs)

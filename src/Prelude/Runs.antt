-- ===== src/Prelude/Runs.antt =====
-- Runs of consecutive numbers at the head of an ascending list.
use Prim.Native.Nat.{ℕ, zero, suc, ◌+◌, ◌≤◌, ◌<◌}
use mathlib.Core.Path.{◌≡◌, refl}
use mathlib.Core.Bool.{true, false}
use mathlib.Core.List.{List, [], ◌∷◌}
use native.Mathlib.Omega.{arith}
use distributed_algorithms_p.Prelude.Tests.{ltb, ◌==◌, nat_eq, if◌then◌else◌}
use distributed_algorithms_p.Prelude.SortedSet.{
  erase, contains, contains-Ascends, Ascends, Below, erase-Ascends_self,
}

-- `for (const auto seq : to_remove) state.pending.erase(seq)`
unfoldable pub erase_all : List ℕ → List ℕ → List ℕ
erase_all [] pending = pending
erase_all (seq ∷ seqs) pending = erase_all seqs (erase seq pending)

-- n, n + 1, ..., n + k - 1
abbrev pub count_from : ℕ → ℕ → List ℕ
count_from n zero = []
count_from n (suc k) = n ∷ count_from (suc n) k

-- How many consecutive numbers from `n` on stand at the head.
unfoldable pub run_length : ℕ → List ℕ → ℕ
run_length n [] = 0
run_length n (x ∷ xs) = let more = run_length (suc n) xs in if x == n then suc more else 0

-- What stands behind them.
unfoldable pub drop_run : ℕ → List ℕ → List ℕ
drop_run n [] = []
drop_run n (x ∷ xs) = let rest = drop_run (suc n) xs in if x == n then rest else x ∷ xs

pub run_length-Below :
    (n high : ℕ) (xs : List ℕ) → n ≤ high → Below high xs → n + run_length n xs ≤ high
unfolding run_length
run_length-Below n high [] h b = omega arith
run_length-Below n high (x ∷ xs) h b = ground (arith, run_length-Below (suc n) high xs)

pub drop_run-Ascends :
    (n m : ℕ) (xs : List ℕ)
    → m ≡ n + run_length n xs
    → Ascends n xs
    → Ascends (suc m) (drop_run n xs)
unfolding run_length drop_run
drop_run-Ascends n m [] e a = tt
drop_run-Ascends n m (x ∷ xs) e a = ground (arith, drop_run-Ascends (suc n) m xs)

pub drop_run-Below : (n high : ℕ) (xs : List ℕ) → Below high xs → Below high (drop_run n xs)
unfolding drop_run
drop_run-Below n high [] b = tt
drop_run-Below n high (x ∷ xs) b = ground (arith, drop_run-Below (suc n) high xs)

pub contains-drop_run :
    (n m : ℕ) (xs : List ℕ)
    → Ascends n xs
    → contains m (drop_run n xs) ≡ (if ltb m (n + run_length n xs) then false else contains m xs)
unfolding run_length drop_run contains
contains-drop_run n m [] a = ground arith
contains-drop_run n m (x ∷ xs) a =
    ground (arith, contains-Ascends m (suc x) xs, contains-drop_run (suc n) m xs)

pub erase_all-drop_run :
    (n : ℕ) (xs : List ℕ)
    → Ascends n xs
    → erase_all (count_from n (run_length n xs)) xs ≡ drop_run n xs
unfolding run_length drop_run erase_all erase
erase_all-drop_run n [] a = refl
erase_all-drop_run n (x ∷ xs) a =
    ground (arith, erase-Ascends_self n (suc n) xs, erase_all-drop_run (suc n) xs)

pub contains-run_length :
    (n m : ℕ) (xs : List ℕ) → n ≤ m → m < n + run_length n xs → contains m xs ≡ true
unfolding run_length contains
contains-run_length n m [] h k = absurd (omega arith)
contains-run_length n m (x ∷ xs) h k = ground (arith, contains-run_length (suc n) m xs)

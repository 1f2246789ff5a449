-- ===== src/Prelude/Map.antt =====
-- `std::unordered_map`: an association list. The order of the list stands for the unspecified order
-- of iteration.
use mathlib.Core.Path.{◌≡◌, refl}
use mathlib.Core.Logic.{◌⊎◌}
use mathlib.Core.List.{List, [], ◌∷◌}
use mathlib.Core.Option.{Option, none, some}
use native.Mathlib.Omega.{arith}
use distributed_algorithms_p.Prelude.Tests.{Eq, ◌==◌, if◌then◌else◌, ==_iff, or_else}
use distributed_algorithms_p.Prelude.Lists.{In}

module _ {ℓ κ} {K : Type ℓ} {V : Type κ} ⦃e : Eq K⦄ where
  unfoldable pub find : K → List (K × V) → Option V
  find k [] = none
  find k ((j, v) ∷ m) = if j == k then some v else find k m

  -- `m[k] = v`
  unfoldable pub assign : K → V → List (K × V) → List (K × V)
  assign k v [] = (k, v) ∷ []
  assign k v ((j, w) ∷ m) = let rest = assign k v m in if j == k then (k, v) ∷ m else (j, w) ∷ rest

  -- `m.insert({k, v})`, which keeps an entry that is there.
  unfoldable pub emplace : K → V → List (K × V) → List (K × V)
  unfolding find
  emplace k v m = elim (find k m) [ none ↦ (k, v) ∷ m | some w ↦ m ]

  unfoldable pub remove : K → List (K × V) → List (K × V)
  remove k [] = []
  remove k ((j, w) ∷ m) = let rest = remove k m in if j == k then rest else (j, w) ∷ rest

  -- `m[k]`, where a missing entry is made from the default.
  unfoldable pub get_or : K → V → List (K × V) → V
  get_or k d m = or_else (find k m) d

  pub find-assign :
      (k j : K) (v : V) (m : List (K × V))
      → find j (assign k v m) ≡ (if k == j then some v else find j m)
  unfolding find assign
  find-assign k j v [] = refl
  find-assign k j v ((i, w) ∷ m) =
      ground (arith, ==_iff k j, ==_iff i k, ==_iff i j, find-assign k j v m)

  pub find-remove :
      (k j : K) (m : List (K × V)) → find j (remove k m) ≡ (if k == j then none else find j m)
  unfolding find remove
  find-remove k j [] = ground arith
  find-remove k j ((i, w) ∷ m) =
      ground (arith, ==_iff k j, ==_iff i k, ==_iff i j, find-remove k j m)

  pub find-emplace :
      (k j : K) (v : V) (m : List (K × V))
      → find k m ≡ none
      → find j (emplace k v m) ≡ (if k == j then some v else find j m)
  unfolding emplace find
  find-emplace k j v m h = rw (h, emplace)

  pub get_or-assign :
      (k j : K) (d v : V) (m : List (K × V))
      → get_or j d (assign k v m) ≡ (if k == j then v else get_or j d m)
  unfolding get_or
  get_or-assign k j d v m = rw (find-assign k j v m) (ground arith)

  pub get_or-remove :
      (k j : K) (d : V) (m : List (K × V))
      → get_or j d (remove k m) ≡ (if k == j then d else get_or j d m)
  unfolding get_or
  get_or-remove k j d m = rw (find-remove k j m) (ground arith)

module _ {K V : Type 0} ⦃e : Eq K⦄ where
  pub find-In : (k : K) (v : V) (m : List (K × V)) → find k m ≡ some v → In (k, v) m
  unfolding find
  find-In k v [] h = cc
  find-In k v ((j, w) ∷ m) h = ground (arith, ==_iff j k, find-In k v m)

  pub In-remove : (k : K) (x : K × V) (m : List (K × V)) → In x (remove k m) → In x m
  unfolding remove
  In-remove k x [] h = absurd h
  In-remove k x ((j, w) ∷ m) h = ground (arith, In-remove k x m)

  pub In-emplace :
      (k : K) (v : V) (x : K × V) (m : List (K × V)) → In x (emplace k v m) → (x ≡ (k, v)) ⊎ In x m
  unfolding emplace
  In-emplace k v x m h = ground arith

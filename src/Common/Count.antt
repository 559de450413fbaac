-- ===== src/Common/Count.antt =====
-- How often a key stands in a list.
use Prim.Native.Nat.{ℕ, zero, suc, ◌+◌, ◌-◌}
use mathlib.Core.List.{List, [], ◌∷◌, ◌++◌}
use mathlib.Core.Option.{Option, none, some}
use mathlib.Core.Path.{◌≡◌, refl}
use native.Mathlib.Omega.{arith}
use timesync_analyzer.Common.Tests.{Eq, ◌==◌, if◌then◌else◌}
use timesync_analyzer.Common.Assoc.{lookup, delete, lookup-delete}

abbrev pub present {ℓ} : {A : Type ℓ} → Option A → ℕ
present none = 0
present (some a) = 1

module _ {ℓ} {K : Type ℓ} ⦃e : Eq K⦄ where
  abbrev pub count : K → List K → ℕ
  count k [] = 0
  count k (x ∷ xs) = (if x == k then 1 else 0) + count k xs

  pub count-append : (k : K) (xs ys : List K) → count k (xs ++ ys) ≡ count k xs + count k ys
  count-append k [] ys = omega arith
  count-append k (x ∷ xs) ys = omega (arith, count-append k xs ys)

  -- Removes the first occurrence.
  unfoldable pub remove_first : K → List K → List K
  remove_first k [] = []
  remove_first k (x ∷ xs) = if x == k then xs else x ∷ remove_first k xs

  pub count-remove_first :
      (k j : K) (xs : List K)
      → count j (remove_first k xs) ≡ (if k == j then count j xs - 1 else count j xs)
  unfolding remove_first
  count-remove_first k j [] = ground arith
  count-remove_first k j (x ∷ xs) =
      ground (arith, e.beq_iff x k, e.beq_iff x j, e.beq_iff k j, count-remove_first k j xs)

  unfoldable pub delete_all {κ} : {V : Type κ} → List K → List (K × V) → List (K × V)
  delete_all [] m = m
  delete_all (k ∷ ks) m = delete_all ks (delete k m)

  pub lookup-delete_all {κ} :
      {V : Type κ} (j : K) (ks : List K) (m : List (K × V))
      → lookup j (delete_all ks m) ≡ (elim (count j ks) [ zero ↦ lookup j m | suc n ↦ none ])
  unfolding delete_all
  lookup-delete_all j [] m = refl
  lookup-delete_all j (k ∷ ks) m =
      ground (arith, lookup-delete_all j ks (delete k m), lookup-delete k j m)

-- ===== src/Common/Lists.antt =====
-- Lists over the native numbers, and maps from texts as association lists.
use Prim.Native.Nat.{ℕ, suc, ◌+◌}
use Prim.Native.String.{String}
use mathlib.Core.Path.{◌≡◌, refl}
use mathlib.Core.Option.{Option, none, some}
use mathlib.Core.List.{List, [], ◌∷◌, ◌++◌}
use native.Mathlib.Omega.{arith}
use text.Mathlib.Text.{◌==◌}
use text.Mathlib.TextEquality.{eq_iff}
use quorum_based_manifests_g.Common.Tests.{if◌then◌else◌}

module _ {ℓ} {A : Type ℓ} where
  abbrev pub length : List A → ℕ
  length [] = 0
  length (x ∷ xs) = suc (length xs)

  pub length-append : (xs ys : List A) → length (xs ++ ys) ≡ length xs + length ys
  length-append [] ys = omega arith
  length-append (x ∷ xs) ys = omega (arith, length-append xs ys)

  -- The last element, `l[len(l)-1]` under a test that `l` is not empty.
  abbrev pub last : List A → Option A
  last [] = none
  last (x ∷ []) = some x
  last (x ∷ y ∷ xs) = last (y ∷ xs)

  pub last-append : (xs : List A) (a : A) → last (xs ++ a ∷ []) ≡ some a
  last-append [] a = refl
  last-append (x ∷ []) a = refl
  last-append (x ∷ y ∷ xs) a = last-append (y ∷ xs) a

-- Go's `map[string]V`: `v, ok := m[key]`, `delete(m, key)` and `m[key] = v`. A list holds the
-- entries, in no order that the code could see.
module _ {ℓ} {V : Type ℓ} where
  unfoldable pub lookup : String → List (String × V) → Option V
  lookup key [] = none
  lookup key ((k, v) ∷ entries) = if k == key then some v else lookup key entries

  unfoldable pub erase : String → List (String × V) → List (String × V)
  erase key [] = []
  erase key ((k, v) ∷ entries) =
      let others = erase key entries in if k == key then others else (k, v) ∷ others

  unfoldable pub insert : String → V → List (String × V) → List (String × V)
  unfolding erase
  insert key v entries = (key, v) ∷ erase key entries

  pub lookup-erase :
      (key other : String) (entries : List (String × V))
      → lookup other (erase key entries) ≡ (if key == other then none else lookup other entries)
  unfolding lookup erase
  lookup-erase key other [] = ground arith
  lookup-erase key other ((k, v) ∷ entries) =
      ground (arith, eq_iff k key, eq_iff k other, eq_iff key other, lookup-erase key other entries)

  pub lookup-insert :
      (key other : String) (v : V) (entries : List (String × V))
      → lookup other (insert key v entries)
        ≡ (if key == other then some v else lookup other entries)
  unfolding lookup insert
  lookup-insert key other v entries = ground (arith, lookup-erase key other entries)

-- ===== src/Base/Assoc.antt =====
-- Go maps with number keys, as association lists.
use Prim.Native.Nat.{ℕ, suc}
use mathlib.Core.Path.{◌≡◌, refl, ap, subst}
use mathlib.Core.Option.{Option, none, some}
use mathlib.Core.List.{List, [], ◌∷◌}
use native.Mathlib.Omega.{arith}
use native.Mathlib.Decide.{ℕ_discrete}
use lemo.Base.Tests.{◌==◌, if◌then◌else◌}
use lemo.Base.Lists.{length}

module _ {V : Type 0} where
  -- `x, ok := es[key]`
  unfoldable pub lookup : ℕ → List (ℕ × V) → Option V
  lookup key [] = none
  lookup key ((j, x) ∷ es) = if j == key then some x else lookup key es

  -- `es[key] = x`
  unfoldable pub insert : ℕ → V → List (ℕ × V) → List (ℕ × V)
  insert key x [] = (key, x) ∷ []
  insert key x ((j, y) ∷ es) = if j == key then (key, x) ∷ es else (j, y) ∷ insert key x es

  -- `delete(es, key)`
  unfoldable pub delete : ℕ → List (ℕ × V) → List (ℕ × V)
  delete key [] = []
  delete key ((j, y) ∷ es) = if j == key then delete key es else (j, y) ∷ delete key es

  pub lookup-insert :
      (key j : ℕ) (x : V) (es : List (ℕ × V))
      → lookup j (insert key x es) ≡ (if key == j then some x else lookup j es)
  unfolding lookup insert
  lookup-insert key j x [] = refl
  lookup-insert key j x ((i, y) ∷ es) = ground (arith, lookup-insert key j x es)

  pub lookup-delete :
      (key j : ℕ) (es : List (ℕ × V))
      → lookup j (delete key es) ≡ (if key == j then none else lookup j es)
  unfolding lookup delete
  lookup-delete key j [] = ground arith
  lookup-delete key j ((i, y) ∷ es) = ground (arith, lookup-delete key j es)

  pub length-insert :
      (key : ℕ) (x : V) (es : List (ℕ × V))
      → lookup key es ≡ none
      → length (insert key x es) ≡ suc (length es)
  unfolding lookup insert
  length-insert key x [] e = refl
  length-insert key x ((j, y) ∷ es) e = ground (arith, length-insert key x es)

  -- No key stands twice.
  abbrev pub IsUnique : List (ℕ × V) → Type 0
  IsUnique [] = Unit {0}
  IsUnique ((key, x) ∷ es) = (lookup key es ≡ none) × IsUnique es

  pub insert-IsUnique :
      (key : ℕ) (x : V) (es : List (ℕ × V)) → IsUnique es → IsUnique (insert key x es)
  unfolding insert lookup
  insert-IsUnique key x [] u = (refl, tt)
  insert-IsUnique key x ((j, y) ∷ es) u =
      ground (arith, insert-IsUnique key x es u.1, lookup-insert key j x es)

  pub delete-IsUnique : (key : ℕ) (es : List (ℕ × V)) → IsUnique es → IsUnique (delete key es)
  unfolding delete
  delete-IsUnique key [] u = tt
  delete-IsUnique key ((j, y) ∷ es) u =
      ground (arith, delete-IsUnique key es u.1, lookup-delete key j es)

  pub delete_absent : (key : ℕ) (es : List (ℕ × V)) → lookup key es ≡ none → delete key es ≡ es
  unfolding delete lookup
  delete_absent key [] e = refl
  delete_absent key ((j, y) ∷ es) e = ground (arith, delete_absent key es)

  pub length-delete :
      (key : ℕ) (es : List (ℕ × V)) (x : V)
      → IsUnique es
      → lookup key es ≡ some x
      → suc (length (delete key es)) ≡ length es
  unfolding delete lookup
  length-delete key [] x u e = cc
  length-delete key ((j, y) ∷ es) x u e = elim (ℕ_discrete j key) [
    | yes same ↦
        ground (arith, ap length (delete_absent key es (subst (λ i. lookup i es ≡ none) same u.0)))
    | no other ↦ ground (arith, length-delete key es x u.1)
  ]

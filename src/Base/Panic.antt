-- ===== src/Base/Panic.antt =====
-- What a Go function that may panic comes to, and a slice expression, which may.
use Prim.Native.Nat.{ℕ, ◌-◌, ◌≤◌, ◌<◌}
use mathlib.Core.Path.{◌≡◌}
use mathlib.Core.List.{List}
use lemo.Base.Tests.{leb, le→leb, lt→leb, if◌then◌else◌}
use lemo.Base.Lists.{length, take, drop}

pub data Outcome {ℓ} (A : Type ℓ) : Type ℓ where
  ok : A → Outcome A
  panic : Outcome A

infixl 5 ◌>>=◌
abbrev pub ◌>>=◌ {ℓ κ} : {A : Type ℓ} {B : Type κ} → Outcome A → (A → Outcome B) → Outcome B
ok a >>= f = f a
panic >>= f = panic

-- `xs[lo:hi]`, where `hi` is at most `len(xs)` or the expression panics.
module _ {ℓ} {A : Type ℓ} where
  unfoldable pub slice : ℕ → ℕ → List A → Outcome (List A)
  slice lo hi xs =
      if leb lo hi
      then (if leb hi (length xs) then ok (take (hi - lo) (drop lo xs)) else panic)
      else panic

  pub slice-eq-ok :
      (lo hi : ℕ) (xs : List A)
      → lo ≤ hi
      → hi ≤ length xs
      → slice lo hi xs ≡ ok (take (hi - lo) (drop lo xs))
  unfolding slice
  slice-eq-ok lo hi xs h k = rw (le→leb lo hi h, le→leb hi (length xs) k)

  pub slice-eq-panic : (lo hi : ℕ) (xs : List A) → hi < lo → slice lo hi xs ≡ panic
  unfolding slice
  slice-eq-panic lo hi xs h = rw (lt→leb lo hi h)

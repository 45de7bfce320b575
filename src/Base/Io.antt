-- ===== src/Base/Io.antt =====
-- Effects: a computation over a state that may panic. The state holds whatever the program, its
-- callbacks and its environment can change.
use mathlib.Core.Path.{◌≡◌, refl}
use mathlib.Core.Option.{Option, none, some}
use lemo.Base.Panic.{Outcome, ok, panic}

abbrev pub Io : Type 0 → Type 0 → Type 0
Io S A = S → Outcome (A × S)

module _ {S : Type 0} where
  abbrev pub pure : {A : Type 0} → A → Io S A
  pure a s = ok (a, s)

  abbrev pub then_with : {A B : Type 0} → Outcome (A × S) → (A → Io S B) → Outcome (B × S)
  then_with (ok (a, s)) k = k a s
  then_with panic k = panic

  infixl 5 ◌>>=◌ ◌>>◌
  abbrev pub ◌>>=◌ : {A B : Type 0} → Io S A → (A → Io S B) → Io S B
  ◌>>=◌ m k s = then_with (m s) k

  abbrev pub ◌>>◌ : {B : Type 0} → Io S (Unit {0}) → Io S B → Io S B
  m >> k = m >>= λ _. k

  -- A callback that may be nil, called under a test for that.
  abbrev pub call_if_set : {A : Type 0} → Option (A → Io S (Unit {0})) → A → Io S (Unit {0})
  call_if_set none a = pure tt
  call_if_set (some f) a = f a

  pub then_with_assoc :
      {A B C : Type 0} (r : Outcome (A × S)) (k : A → Io S B) (l : B → Io S C)
      → then_with (then_with r k) l ≡ then_with r (λ a s. then_with (k a s) l)
  then_with_assoc (ok (a, s)) k l = refl
  then_with_assoc panic k l = refl

  pub then_with-cong :
      {A B : Type 0} (r : Outcome (A × S)) (k l : A → Io S B)
      → ((a : A) (s : S) → k a s ≡ l a s)
      → then_with r k ≡ then_with r l
  then_with-cong (ok (a, s)) k l h = h a s
  then_with-cong panic k l h = refl

  pub then_with-pure : {A : Type 0} (r : Outcome (A × S)) → then_with r (λ a s. ok (a, s)) ≡ r
  then_with-pure (ok (a, s)) = refl
  then_with-pure panic = refl

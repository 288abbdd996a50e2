-- ===== src/Prelude/Holds.antt =====
-- Taking apart a check that succeeded.
use mathlib.Core.Path.{◌≡◌, refl}
use mathlib.Core.Bool.{Bool, true, false}
use mathlib.Core.Logic.{◌⊎◌, inl, inr}
use skull.Prelude.Tests.{if◌then◌else◌}
use skull.Prelude.Checked.{Checked, ok, assert_failed, out_of_fuel, ◌>>=◌, sk_assert}

module _ {ℓ κ} {A : Type ℓ} {B : Type κ} where
  -- Both parts of a chain succeed where it does.
  pub bind-ok :
      (m : Checked A) (f : A → Checked B) (b : B)
      → (m >>= f) ≡ ok b
      → (a : A) × (m ≡ ok a) × (f a ≡ ok b)
  bind-ok (ok a) f b e = (a, refl, e)
  bind-ok assert_failed f b e = cc
  bind-ok out_of_fuel f b e = cc

module _ {ℓ} {A : Type ℓ} where
  pub assert-ok :
      (b : Bool) (k : Checked A) (a : A) → (sk_assert b >>= λ _. k) ≡ ok a → (b ≡ true) × (k ≡ ok a)
  assert-ok true k a e = (refl, e)
  assert-ok false k a e = cc

  pub if-cases :
      (b : Bool) (x y z : A)
      → (if b then x else y) ≡ z
      → (b ≡ true) × (x ≡ z) ⊎ (b ≡ false) × (y ≡ z)
  if-cases true x y z e = inl (refl, e)
  if-cases false x y z e = inr (refl, e)

  pub ok-inj : (a b : A) → ok a ≡ ok b → a ≡ b
  ok-inj a b e = cc

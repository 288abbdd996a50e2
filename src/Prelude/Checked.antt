-- ===== src/Prelude/Checked.antt =====
-- The outcome of code that checks itself: `SK_ASSERT` ends the process when its test fails.
use mathlib.Core.Bool.{Bool, true, false}

pub data Checked {ℓ} (A : Type ℓ) : Type ℓ where
  ok : A → Checked A
  assert_failed : Checked A
  out_of_fuel : Checked A

infixl 5 ◌>>=◌ ◌>>◌
abbrev pub ◌>>=◌ {ℓ κ} : {A : Type ℓ} {B : Type κ} → Checked A → (A → Checked B) → Checked B
ok a >>= f = f a
assert_failed >>= f = assert_failed
out_of_fuel >>= f = out_of_fuel

abbrev pub ◌>>◌ {κ} : {B : Type κ} → Checked (Unit {0}) → Checked B → Checked B
m >> k = m >>= λ _. k

-- `SK_ASSERT(b)`
abbrev pub sk_assert : Bool → Checked (Unit {0})
sk_assert true = ok tt
sk_assert false = assert_failed

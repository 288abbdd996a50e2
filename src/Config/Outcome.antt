-- ===== src/Config/Outcome.antt =====
-- Taking apart the loading that succeeded.
use skull.Prelude.{◌≡◌, refl, subst, Bool, true, false, if◌then◌else◌}
use skull.Config.{Loaded, ok, assert_failed, exited, undefined, ◌>>=◌, sk_assert}

module _ {ℓ κ} {A : Type ℓ} {B : Type κ} where
  pub bind-ok :
      (m : Loaded A) (f : A → Loaded B) (b : B)
      → (m >>= f) ≡ ok b
      → (a : A) × (m ≡ ok a) × (f a ≡ ok b)
  bind-ok (ok a) f b e = (a, refl, e)
  bind-ok assert_failed f b e = cc
  bind-ok exited f b e = cc
  bind-ok undefined f b e = cc

module _ {ℓ κ μ} {A : Type ℓ} {B : Type κ} {C : Type μ} where
  pub bind_assoc :
      (m : Loaded A) (f : A → Loaded B) (g : B → Loaded C)
      → (m >>= f >>= g) ≡ (m >>= λ a. f a >>= g)
  bind_assoc (ok a) f g = refl
  bind_assoc assert_failed f g = refl
  bind_assoc exited f g = refl
  bind_assoc undefined f g = refl

module _ {ℓ} {A : Type ℓ} where
  pub assert-ok :
      (b : Bool) (k : Loaded A) (a : A) → (sk_assert b >>= λ _. k) ≡ ok a → (b ≡ true) × (k ≡ ok a)
  assert-ok true k a e = (refl, e)
  assert-ok false k a e = cc

  pub ok-inj : (a b : A) → ok a ≡ ok b → a ≡ b
  ok-inj a b e = cc

-- Whatever comes out meets the predicate.
abbrev pub Gives : {A : Type 0} → (A → Type 0) → Loaded A → Type 0
Gives {A} P m = (a : A) → m ≡ ok a → P a

pub Gives-if :
    {A : Type 0} (P : A → Type 0) (b : Bool) (x y : Loaded A)
    → Gives P x
    → Gives P y
    → Gives P (if b then x else y)
Gives-if P true x y h k = h
Gives-if P false x y h k = k

pub Gives-bind :
    {A B : Type 0} (P : B → Type 0) (m : Loaded A) (f : A → Loaded B)
    → ((a : A) → m ≡ ok a → Gives P (f a))
    → Gives P (m >>= f)
Gives-bind P m f h b e = let (a, first, second) = bind-ok m f b e in h a first b second

pub Gives-ok : {A : Type 0} (P : A → Type 0) (a : A) → P a → Gives P (ok a)
Gives-ok P a h b e = subst P (ok-inj a b e) h

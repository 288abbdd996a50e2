-- ===== src/Prelude/Lists.antt =====
-- Lists measured by native numbers, and the longest prefix that a test admits.
use Prim.Native.Nat.{ℕ, zero, suc, ◌+◌, ◌≤◌}
use mathlib.Core.Path.{◌≡◌, refl}
use mathlib.Core.Logic.{◌⊎◌, inl, inr}
use mathlib.Core.Bool.{Bool, true}
use mathlib.Core.List.{List, [], ◌∷◌, ◌++◌}
use native.Mathlib.Omega.{arith}
use skull.Prelude.Tests.{if◌then◌else◌}

module _ {ℓ} {A : Type ℓ} where
  abbrev pub length : List A → ℕ
  length [] = 0
  length (x ∷ xs) = suc (length xs)

  pub length-append : (xs ys : List A) → length (xs ++ ys) ≡ length xs + length ys
  length-append [] ys = omega arith
  length-append (x ∷ xs) ys = omega (arith, length-append xs ys)

  abbrev pub All {κ} : (A → Type κ) → List A → Type κ
  All P [] = Unit
  All P (x ∷ xs) = P x × All P xs

  pub All-append {κ} : (P : A → Type κ) (xs ys : List A) → All P xs → All P ys → All P (xs ++ ys)
  All-append P [] ys a b = b
  All-append P (x ∷ xs) ys a b = (a.0, All-append P xs ys a.1 b)

  pub All-append_left {κ} : (P : A → Type κ) (xs ys : List A) → All P (xs ++ ys) → All P xs
  All-append_left P [] ys a = tt
  All-append_left P (x ∷ xs) ys a = (a.0, All-append_left P xs ys a.1)

  pub All-append_right {κ} : (P : A → Type κ) (xs ys : List A) → All P (xs ++ ys) → All P ys
  All-append_right P [] ys a = a
  All-append_right P (x ∷ xs) ys a = All-append_right P xs ys a.1

  -- Without the entry between two lists.
  pub All-remove {κ} :
      (P : A → Type κ) (xs : List A) (x : A) (ys : List A) → All P (xs ++ x ∷ ys) → All P (xs ++ ys)
  All-remove P [] x ys a = a.1
  All-remove P (z ∷ xs) x ys a = (a.0, All-remove P xs x ys a.1)

  -- Of the first `n` entries, those before the first that fails the test.
  unfoldable pub span_upto : (A → Bool) → ℕ → List A → List A × List A
  span_upto p zero xs = ([], xs)
  span_upto p (suc n) [] = ([], [])
  span_upto p (suc n) (x ∷ xs) =
      let rest = span_upto p n xs in if p x then (x ∷ rest.0, rest.1) else ([], x ∷ xs)

  pub span_upto-append :
      (p : A → Bool) (n : ℕ) (xs : List A) → (span_upto p n xs).0 ++ (span_upto p n xs).1 ≡ xs
  unfolding span_upto
  span_upto-append p zero xs = refl
  span_upto-append p (suc n) [] = refl
  span_upto-append p (suc n) (x ∷ xs) = ground (arith, span_upto-append p n xs)

  pub span_upto-All :
      (p : A → Bool) (n : ℕ) (xs : List A) → All (λ x. p x ≡ true) (span_upto p n xs).0
  unfolding span_upto
  span_upto-All p zero xs = tt
  span_upto-All p (suc n) [] = tt
  span_upto-All p (suc n) (x ∷ xs) = ground (arith, span_upto-All p n xs)

  pub length-span_upto : (p : A → Bool) (n : ℕ) (xs : List A) → length (span_upto p n xs).0 ≤ n
  unfolding span_upto
  length-span_upto p zero xs = omega arith
  length-span_upto p (suc n) [] = omega arith
  length-span_upto p (suc n) (x ∷ xs) = ground (arith, length-span_upto p n xs)

module _ {A : Type 0} where
  abbrev pub Mem : A → List A → Type 0
  Mem x [] = ⊥
  Mem x (y ∷ ys) = (x ≡ y) ⊎ Mem x ys

  pub Mem-append_left : (x : A) (xs ys : List A) → Mem x xs → Mem x (xs ++ ys)
  Mem-append_left x [] ys h = absurd h
  Mem-append_left x (y ∷ xs) ys (inl e) = inl e
  Mem-append_left x (y ∷ xs) ys (inr h) = inr (Mem-append_left x xs ys h)

  pub Mem-snoc : (x : A) (xs : List A) → Mem x (xs ++ x ∷ [])
  Mem-snoc x [] = inl refl
  Mem-snoc x (y ∷ xs) = inr (Mem-snoc x xs)

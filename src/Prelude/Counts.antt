-- ===== src/Prelude/Counts.antt =====
-- How often a number is in a list, and taking one out.
use skull.Prelude.{
  Bool-cases, ◌⊎◌, inl, inr, ℕ, suc, ◌+◌, ◌≤◌, ◌≡◌, ◌≢◌, refl, Bool, true, false, ◌||◌, List, [],
  ◌∷◌, ◌++◌, length, ◌==◌, if◌then◌else◌, arith,
}

abbrev pub member : ℕ → List ℕ → Bool
member p [] = false
member p (q ∷ qs) = (q == p) || member p qs

abbrev pub delete : ℕ → List ℕ → List ℕ
delete p [] = []
delete p (q ∷ qs) = let rest = delete p qs in if q == p then qs else q ∷ rest

unfoldable pub count : ℕ → List ℕ → ℕ
count x [] = 0
count x (y ∷ ys) = let rest = count x ys in if y == x then suc rest else rest

pub count-append : (x : ℕ) (xs ys : List ℕ) → count x (xs ++ ys) ≡ count x xs + count x ys
unfolding count
count-append x [] ys = omega arith
count-append x (z ∷ xs) ys = ground (arith, count-append x xs ys)

pub count_self : (x : ℕ) (xs : List ℕ) → count x (x ∷ xs) ≡ suc (count x xs)
unfolding count
count_self x xs = ground arith

pub count_other : (x y : ℕ) (xs : List ℕ) → y ≢ x → count x (y ∷ xs) ≡ count x xs
unfolding count
count_other x y xs ne = grind (arith, ne)

pub count-delete_ne : (p x : ℕ) (xs : List ℕ) → p ≢ x → count x (delete p xs) ≡ count x xs
unfolding count
count-delete_ne p x [] ne = refl
count-delete_ne p x (y ∷ ys) ne = grind (arith, ne, count-delete_ne p x ys ne)

pub count-delete_self :
    (p : ℕ) (xs : List ℕ)
    → suc (count p (delete p xs)) ≡ count p xs + (if member p xs then 0 else 1)
unfolding count
count-delete_self p [] = refl
count-delete_self p (y ∷ ys) = ground (arith, count-delete_self p ys)

pub length-delete : (p : ℕ) (xs : List ℕ) → 1 ≤ count p xs → suc (length (delete p xs)) ≡ length xs
unfolding count
length-delete p [] h = absurd (omega (arith, h))
length-delete p (y ∷ ys) h = grind (arith, h, length-delete p ys)

pub count-member : (p : ℕ) (xs : List ℕ) → 1 ≤ count p xs → member p xs ≡ true
unfolding count
count-member p [] h = absurd (omega (arith, h))
count-member p (y ∷ ys) h = grind (arith, h, count-member p ys)

-- To split on whether two numbers are the same.
pub eq-cases : (p q : ℕ) → (p ≡ q) ⊎ (p ≢ q)
eq-cases p q = elim (Bool-cases (p == q)) [
  | inl e ↦ inl (ground (arith, e))
  | inr e ↦ inr (λ same. ground (arith, e, same))
]

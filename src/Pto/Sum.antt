-- ===== src/Pto/Sum.antt =====
-- The checksum of src/pto/sk_pto.c as a sum, and what a changed byte does to it.
use skull.Prelude.{
  ℕ, ◌+◌, ◌-◌, ◌*◌, ◌%◌, ◌^◌, ◌≤◌, ◌<◌, ◌≡◌, ◌≢◌, ap, sym, ◌∙◌, ◌⊎◌, inl, inr, Bool-cases, ltb,
  ◌==◌, List, [], ◌∷◌, ◌++◌, arith,
}
use native.Mathlib.Nat.{add-mul, mul_comm, mul-le-mul, mul-lt-mul_of_pos_right}
use skull.Pto.{char_value, checksum_loop, checksum}

-- The sum that the loop adds up, without its overflows.
unfoldable pub total : List ℕ → ℕ → ℕ
total [] salt = 0
total (c ∷ cs) salt = char_value c * salt + total cs salt

checksum_loop_lem :
    (cs : List ℕ) (salt sum : ℕ)
    → checksum_loop cs salt sum % 2 ^ 16 ≡ (sum + total cs salt) % 2 ^ 16
unfolding checksum_loop total
checksum_loop_lem [] salt sum = ap (λ n. n % 2 ^ 16) (omega arith)
checksum_loop_lem (c ∷ cs) salt sum =
    let p = char_value c * salt in
    checksum_loop_lem cs salt ((sum + p % 2 ^ 32) % 2 ^ 32) ∙ omega arith

pub checksum-total : (cs : List ℕ) (salt : ℕ) → checksum cs salt ≡ total cs salt % 2 ^ 16
unfolding checksum
checksum-total cs salt = checksum_loop_lem cs salt 0 ∙ ap (λ n. n % 2 ^ 16) (omega arith)

pub total-append :
    (xs ys : List ℕ) (salt : ℕ) → total (xs ++ ys) salt ≡ total xs salt + total ys salt
unfolding total
total-append [] ys salt = omega arith
total-append (x ∷ xs) ys salt = omega (arith, total-append xs ys salt)

-- The value of a byte, moved to the numbers below 256.
centered :
    (b : ℕ)
    → b < 256
    → (y : ℕ) × (y < 256)
      × ((128 ≤ y) × (char_value b + 128 ≡ y) ⊎ (y < 128) × (char_value b + 128 ≡ y + 2 ^ 32))
unfolding char_value
centered b h = elim (Bool-cases (b == 0)) [
  | inl z ↦ (129, omega arith, inl (omega arith, ground (arith, z)))
  | inr nz ↦ elim (Bool-cases (ltb b 128)) [
    | inl low ↦ (b + 128, ground (arith, low), inl (omega arith, ground (arith, nz, low)))
    | inr high ↦
        (b - 128, ground (arith, high), inr (ground (arith, high), ground (arith, nz, high)))
  ]
]

apart :
    (t u v y z salt : ℕ)
    → u * salt + 128 * salt ≡ y * salt ⊎ (u * salt + 128 * salt ≡ y * salt + 2 ^ 32 * salt)
    → v * salt + 128 * salt ≡ z * salt ⊎ (v * salt + 128 * salt ≡ z * salt + 2 ^ 32 * salt)
    → y * salt < 2 ^ 16
    → z * salt < 2 ^ 16
    → (t + u * salt) % 2 ^ 16 ≡ (t + v * salt) % 2 ^ 16
    → y * salt ≡ z * salt
apart t u v y z salt hu hv sy sz e = omega (arith, hu, hv, e)

times : (u y k salt : ℕ) → u + 128 ≡ y + k → u * salt + 128 * salt ≡ y * salt + k * salt
times u y k salt e = sym (add-mul u 128 salt) ∙ ap (λ n. n * salt) e ∙ add-mul y k salt

-- One of two different bytes, of which one is not 0 where the other is 1, in the same place.
pub checksum-byte :
    (xs ys : List ℕ) (b c salt : ℕ)
    → b < 256
    → c < 256
    → char_value b ≢ char_value c
    → 0 < salt
    → salt ≤ 21
    → checksum (xs ++ b ∷ ys) salt ≢ checksum (xs ++ c ∷ ys) salt
unfolding total
checksum-byte xs ys b c salt hb hc ne pos small e =
    let (y, hy, cy) = centered b hb in
    let (z, hz, cz) = centered c hc in
    let same : y * salt ≡ z * salt =
      apart (total xs salt + total ys salt) (char_value b) (char_value c) y z salt (either b y cy)
        (either c z cz) (bound y hy) (bound z hz) sums in
    clash y z cy cz (omega (arith, below y z same, below z y (sym same)))
  where
    either :
        (b y : ℕ)
        → (128 ≤ y) × (char_value b + 128 ≡ y) ⊎ (y < 128) × (char_value b + 128 ≡ y + 2 ^ 32)
        → char_value b * salt + 128 * salt ≡ y * salt
          ⊎ (char_value b * salt + 128 * salt ≡ y * salt + 2 ^ 32 * salt)
    either b y (inl (_, q)) =
        inl (times (char_value b) y 0 salt (omega (arith, q)) ∙ omega (arith, mul_comm 0 salt))
    either b y (inr (_, q)) = inr (times (char_value b) y (2 ^ 32) salt q)

    bound : (y : ℕ) → y < 256 → y * salt < 2 ^ 16
    bound y h =
        omega (arith, mul-le-mul {n₁ = y} {m₁ = salt} {n₂ = 255} {m₂ = 21} (omega (arith, h)) small)

    below : (y z : ℕ) → y * salt ≡ z * salt → ¬ (y < z)
    below y z q lt = absurd (omega (arith, q, mul-lt-mul_of_pos_right lt pos))

    sums :
        (total xs salt + total ys salt + char_value b * salt) % 2 ^ 16
        ≡ (total xs salt + total ys salt + char_value c * salt) % 2 ^ 16
    sums = omega (
      arith,
      e,
      checksum-total (xs ++ b ∷ ys) salt,
      checksum-total (xs ++ c ∷ ys) salt,
      total-append xs (b ∷ ys) salt,
      total-append xs (c ∷ ys) salt,
    )

    clash :
        (y z : ℕ)
        → (128 ≤ y) × (char_value b + 128 ≡ y) ⊎ (y < 128) × (char_value b + 128 ≡ y + 2 ^ 32)
        → (128 ≤ z) × (char_value c + 128 ≡ z) ⊎ (z < 128) × (char_value c + 128 ≡ z + 2 ^ 32)
        → y ≡ z
        → ⊥
    clash y z (inl (p, q)) (inl (r, s)) e = ne (omega (arith, q, s, e))
    clash y z (inl (p, q)) (inr (r, s)) e = absurd (omega (arith, p, r, e))
    clash y z (inr (p, q)) (inl (r, s)) e = absurd (omega (arith, p, r, e))
    clash y z (inr (p, q)) (inr (r, s)) e = ne (omega (arith, q, s, e))

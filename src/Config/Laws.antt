-- ===== src/Config/Laws.antt =====
-- What single values mean: numbers in decimal notation, and modules as `name:type`.
use native.Mathlib.Nat.{pow-suc, zero-mul}
use skull.Prelude.{
  ℕ, zero, suc, ◌+◌, ◌-◌, ◌*◌, ◌^◌, ◌<◌, ◌≡◌, refl, ap, ◌∙◌, true, false, none, some, List, [], ◌∷◌,
  ◌++◌, map, length, All, arith,
}
use skull.Prelude.Int.{pos}
use skull.Prelude.Index.{take}
use skull.Config.{Bytes, ok, value}
use skull.Config.Values.{
  strsep, has_char, skip_spaces, read_sign, read_digits, is_digit, sk_config_getint,
}
use skull.Config.Workflows.{load_module}

-- The number that digits stand for by their places, the first one the highest.
abbrev pub decimal : List ℕ → ℕ
decimal [] = 0
decimal (d ∷ ds) = d * 10 ^ length ds + decimal ds

abbrev pub digit : ℕ → ℕ
digit d = b'0' + d

places : (n d p m : ℕ) → (n * 10 + d) * p + m ≡ n * (p * 10) + (d * p + m)
places n d p m = grind arith

read_digits-decimal :
    (n : ℕ) (ds : List ℕ)
    → All (λ d. d < 10) ds
    → read_digits n (map digit ds) ≡ n * 10 ^ length ds + decimal ds
unfolding read_digits
read_digits-decimal n [] h = omega arith
read_digits-decimal n (d ∷ ds) h =
    let digit_d : is_digit (digit d) ≡ true = unfold is_digit in ground (arith, h.0) in
    let ih = read_digits-decimal (n * 10 + d) ds h.1 in
    let minus : digit d - b'0' ≡ d = omega arith in
    rw digit_d
      (rw minus (rw (pow-suc 10 (length ds)) (ih ∙ places n d (10 ^ length ds) (decimal ds))))

read_sign-digits :
    (ds : List ℕ)
    → All (λ d. d < 10) ds
    → read_sign (skip_spaces (map digit ds)) ≡ (false, map digit ds)
unfolding read_sign skip_spaces
read_sign-digits [] h = refl
read_sign-digits (d ∷ ds) h = ground arith

-- A number below 2 ^ 31 in decimal notation is read as it is.
pub sk_config_getint-decimal :
    (ds : List ℕ)
    → All (λ d. d < 10) ds
    → decimal ds < 2 ^ 31
    → sk_config_getint (value (map digit ds)) ≡ ok (pos (decimal ds))
unfolding sk_config_getint
sk_config_getint-decimal ds h small =
    rw (read_sign-digits ds h)
      (rw (read_digits-decimal 0 ds h) (rw (zero-mul (10 ^ length ds)) (ground arith)))

pub strsep-append :
    (c : ℕ) (s t : Bytes) → has_char c s ≡ false → strsep c (s ++ c ∷ t) ≡ (s, some t)
unfolding strsep has_char
strsep-append c [] t h = ground arith
strsep-append c (d ∷ s) t h = ground (arith, strsep-append c s t)

pub strsep-none : (c : ℕ) (s : Bytes) → has_char c s ≡ false → strsep c s ≡ (s, none)
unfolding strsep has_char
strsep-none c [] h = refl
strsep-none c (d ∷ s) h = ground (arith, strsep-none c s)

take_all : (n : ℕ) (s : Bytes) → length s < n → take n s ≡ s
take_all zero s h = absurd (omega (arith, h))
take_all (suc n) [] h = refl
take_all (suc n) (c ∷ s) h = ap (λ t. c ∷ t) (take_all n s (omega (arith, h)))

-- What is written as `name:type`, in less than 256 bytes, is read as it was.
pub load_module-append :
    (name type : Bytes)
    → has_char b':' name ≡ false
    → has_char b':' type ≡ false
    → length (name ++ b':' ∷ type) < 256
    → load_module (name ++ b':' ∷ type) ≡ ok (record { name = name; type = type })
unfolding load_module
load_module-append name type h k short = ground (
  arith,
  take_all 256 (name ++ b':' ∷ type) short,
  strsep-append b':' name type h,
  strsep-none b':' type k,
)

-- ===== src/Pto/Laws.antt =====
-- What is packed by src/pto/sk_pto.c is read back, and what changes on the way is found.
use skull.Prelude.{
  ℕ, zero, suc, ◌+◌, ◌*◌, ◌%◌, ◌<◌, ◌≡◌, ◌≢◌, refl, ap, sym, ◌∙◌, Bool, true, false, some, List, [],
  ◌∷◌, ◌++◌, length, length-append, All, Bool-cases, inl, inr, ltb, ◌==◌, lt→ltb, arith,
}
use skull.Prelude.Checked.{Checked, ok, ◌>>=◌}
use skull.Prelude.Index.{get_elem?, take, drop, take-length, take-append, drop-append}
use skull.Pto.{
  Proto, Hdr, sk_pto_tbl, arg_bytes, checksum, char_value, sk_pto_pack, sk_pto_arg, sk_pto_check,
}
use skull.Pto.Table.{IsEntry, entry}
use skull.Pto.Sum.{checksum-byte}

-- Eight bytes.
abbrev pub IsArg : List ℕ → Type 0
IsArg a = length a ≡ 8

length-arg_bytes :
    (args : List (List ℕ)) → All IsArg args → length (arg_bytes args) ≡ 8 * length args
length-arg_bytes [] h = refl
length-arg_bytes (a ∷ args) (h, hs) =
    omega (arith, length-append a (arg_bytes args), h, length-arg_bytes args hs)

arg_bytes-at :
    (args : List (List ℕ)) (i : ℕ) (a : List ℕ)
    → All IsArg args
    → get_elem? args i ≡ some a
    → take 8 (drop (8 * i) (arg_bytes args)) ≡ a
arg_bytes-at [] i a h e = cc
arg_bytes-at (b ∷ args) zero a (h, hs) e =
    let same : b ≡ a = cc in take-append b (arg_bytes args) 8 h ∙ same
arg_bytes-at (b ∷ args) (suc i) a (h, hs) e =
    ap (λ n. take 8 (drop n (b ++ arg_bytes args))) shift
    ∙ ap (take 8) (drop-append b (arg_bytes args) 8 (8 * i) h)
    ∙ arg_bytes-at args i a hs e
  where
    shift : 8 * suc i ≡ 8 + 8 * i
    shift = omega arith

get-lt : {A : Type 0} (xs : List A) (i : ℕ) (a : A) → get_elem? xs i ≡ some a → i < length xs
get-lt [] i a e = cc
get-lt (x ∷ xs) zero a e = omega arith
get-lt (x ∷ xs) (suc i) a e = omega (arith, get-lt xs i a e)

whole :
    (p : Proto) (args : List (List ℕ))
    → length args ≡ p.argc
    → All IsArg args
    → take (8 * p.argc) (arg_bytes args) ≡ arg_bytes args
whole p args n h =
    ap (λ k. take k (arg_bytes args)) (omega (arith, n, length-arg_bytes args h))
    ∙ take-length (arg_bytes args)

-- The message that `sk_pto_pack` makes.
abbrev pub packed : ℕ → Proto → List (List ℕ) → Hdr
packed id p args = record {
  id = id;
  argc = p.argc;
  chk = checksum (arg_bytes args) p.salt;
  body = arg_bytes args;
}

pub sk_pto_pack_lem :
    (id : ℕ) (p : Proto) (args : List (List ℕ))
    → get_elem? sk_pto_tbl id ≡ some p
    → length args ≡ p.argc
    → All IsArg args
    → sk_pto_pack id args ≡ ok (packed id p args)
unfolding sk_pto_pack
sk_pto_pack_lem id p args e n h =
    let t = entry id p e in
    let all : take p.argc args ≡ args = ap (λ k. take k args) (sym n) ∙ take-length args in
    let body : take (8 * p.argc) (arg_bytes args) ≡ arg_bytes args = whole p args n h in
    let right : (id == p.id) ≡ true = grind (arith, t.here) in
    let small : id % 256 ≡ id = omega (arith, t.small) in grind (arith, e, all, body, right, small)

-- The check of a message with the header and the length that its protocol has.
pub sk_pto_check_lem :
    (id : ℕ) (p : Proto) (chk : ℕ) (body : List ℕ)
    → get_elem? sk_pto_tbl id ≡ some p
    → 0 < p.argc
    → length body ≡ 8 * p.argc
    → sk_pto_check id (record { id = id; argc = p.argc; chk = chk; body = body })
      ≡ ok (chk == checksum body p.salt)
unfolding sk_pto_check
sk_pto_check_lem id p chk body e pos len =
    let bound : ltb id 12 ≡ true = lt→ltb id 12 ((entry id p e).small) in
    let all : take (8 * p.argc) body ≡ body = ap (λ k. take k body) (sym len) ∙ take-length body in
    let some_args : (p.argc == 0) ≡ false = grind (arith, pos) in
    let same : (id == id) ≡ true = ground arith in grind (arith, e, bound, all, some_args, same)

sk_pto_check-no_args : (id : ℕ) (hdr : Hdr) → (hdr.argc == 0) ≡ true → sk_pto_check id hdr ≡ ok true
unfolding sk_pto_check
sk_pto_check-no_args id hdr z = ground (arith, z)

-- What is packed passes the check, whatever the arguments are.
pub sk_pto_check-sk_pto_pack :
    (id : ℕ) (p : Proto) (args : List (List ℕ))
    → get_elem? sk_pto_tbl id ≡ some p
    → length args ≡ p.argc
    → All IsArg args
    → (sk_pto_pack id args >>= sk_pto_check id) ≡ ok true
sk_pto_check-sk_pto_pack id p args e n h =
    ap (λ m. m >>= sk_pto_check id) (sk_pto_pack_lem id p args e n h)
    ∙ elim (Bool-cases (p.argc == 0)) [
      | inl z ↦ sk_pto_check-no_args id (packed id p args) z
      | inr some_args ↦
          sk_pto_check_lem id p (checksum (arg_bytes args) p.salt) (arg_bytes args) e
            (ground (arith, some_args)) (length-arg_bytes args h ∙ ap (λ k. 8 * k) n)
          ∙ ap ok (ground arith)
    ]

-- The argument at an index is read back.
pub sk_pto_arg-sk_pto_pack :
    (id : ℕ) (p : Proto) (args : List (List ℕ)) (i : ℕ) (a : List ℕ)
    → get_elem? sk_pto_tbl id ≡ some p
    → length args ≡ p.argc
    → All IsArg args
    → get_elem? args i ≡ some a
    → (sk_pto_pack id args >>= λ hdr. sk_pto_arg id hdr i) ≡ ok (some a)
unfolding sk_pto_arg
sk_pto_arg-sk_pto_pack id p args i a e n h ei =
    let inside : i < p.argc = omega (arith, n, get-lt args i a ei) in
    let bound : ltb id 12 ≡ true = lt→ltb id 12 ((entry id p e).small) in
    let idx : ltb i p.argc ≡ true = lt→ltb i p.argc inside in
    let some_args : (p.argc == 0) ≡ false = grind (arith, inside) in
    let same : (id == id) ≡ true = ground arith in
    let got : take 8 (drop (8 * i) (arg_bytes args)) ≡ a = arg_bytes-at args i a h ei in
    ap (λ m. m >>= λ hdr. sk_pto_arg id hdr i) (sk_pto_pack_lem id p args e n h)
    ∙ grind (arith, e, bound, idx, some_args, same, got)

-- One byte of the arguments of a packed message that changes on the way, with the header as it was,
-- is found, unless it turns from 0 to 1 or from 1 to 0.
pub sk_pto_check-byte :
    (id : ℕ) (p : Proto) (args : List (List ℕ)) (xs ys : List ℕ) (b c : ℕ)
    → get_elem? sk_pto_tbl id ≡ some p
    → length args ≡ p.argc
    → All IsArg args
    → arg_bytes args ≡ xs ++ b ∷ ys
    → b < 256
    → c < 256
    → char_value b ≢ char_value c
    → (sk_pto_pack id args >>= λ hdr.
        sk_pto_check id
          (record { id = hdr.id; argc = hdr.argc; chk = hdr.chk; body = xs ++ c ∷ ys }))
      ≡ ok false
sk_pto_check-byte id p args xs ys b c e n h split hb hc ne =
    ap (λ m. m >>= altered) (sk_pto_pack_lem id p args e n h)
    ∙ sk_pto_check_lem id p (checksum (arg_bytes args) p.salt) (xs ++ c ∷ ys) e some_args
        (same_length ∙ len)
    ∙ ap ok differ
  where
    t : IsEntry id p
    t = entry id p e

    altered : Hdr → Checked Bool
    altered hdr =
        sk_pto_check id
          (record { id = hdr.id; argc = hdr.argc; chk = hdr.chk; body = xs ++ c ∷ ys })

    same_length : length (xs ++ c ∷ ys) ≡ length (xs ++ b ∷ ys)
    same_length = length-append xs (c ∷ ys) ∙ sym (length-append xs (b ∷ ys))

    len : length (xs ++ b ∷ ys) ≡ 8 * p.argc
    len = ap length (sym split) ∙ length-arg_bytes args h ∙ ap (λ k. 8 * k) n

    some_args : 0 < p.argc
    some_args = omega (arith, sym len ∙ length-append xs (b ∷ ys))

    changed : checksum (arg_bytes args) p.salt ≢ checksum (xs ++ c ∷ ys) p.salt
    changed q =
        checksum-byte xs ys b c p.salt hb hc ne t.salted t.salt_le
          (ap (λ bs. checksum bs p.salt) (sym split) ∙ q)

    differ : (checksum (arg_bytes args) p.salt == checksum (xs ++ c ∷ ys) p.salt) ≡ false
    differ = grind (arith, changed)

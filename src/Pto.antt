-- ===== src/Pto.antt =====
-- The messages between schedulers, src/pto/sk_pto.c: a header and arguments of eight bytes each,
-- with a checksum. A byte is a number below 256, and memory is a list of bytes.
pub mod Sum
pub mod Table
pub mod Laws
mod Tests
use skull.Prelude.{
  ℕ, zero, suc, ◌+◌, ◌-◌, ◌*◌, ◌%◌, ◌^◌, Bool, true, false, Option, none, some, List, [], ◌∷◌, ◌++◌,
  length, ltb, ◌==◌, if◌then◌else◌,
}
use skull.Prelude.Checked.{Checked, ok, assert_failed, ◌>>=◌, ◌>>◌, sk_assert}
use skull.Prelude.Index.{get_elem?, take, drop}

-- `sk_proto_t`, without its functions.
pub record Proto : Type 0 where
  pub id : ℕ
  pub pri : ℕ
  pub argc : ℕ
  pub salt : ℕ

abbrev pub sk_pto_max : ℕ
sk_pto_max = 12

-- `sk_pto_tbl`, up to its last entry, which has no function.
abbrev pub sk_pto_tbl : List Proto
sk_pto_tbl =
    record { id = 0; pri = 7; argc = 1; salt = 10 }
    ∷ record { id = 1; pri = 5; argc = 0; salt = 11 }
    ∷ record { id = 2; pri = 9; argc = 0; salt = 12 }
    ∷ record { id = 3; pri = 6; argc = 5; salt = 13 }
    ∷ record { id = 4; pri = 4; argc = 5; salt = 14 }
    ∷ record { id = 5; pri = 6; argc = 3; salt = 15 }
    ∷ record { id = 6; pri = 8; argc = 3; salt = 16 }
    ∷ record { id = 7; pri = 8; argc = 7; salt = 17 }
    ∷ record { id = 8; pri = 7; argc = 0; salt = 18 }
    ∷ record { id = 9; pri = 8; argc = 6; salt = 19 }
    ∷ record { id = 10; pri = 8; argc = 3; salt = 20 }
    ∷ record { id = 11; pri = 6; argc = 5; salt = 21 }
    ∷ []

-- `sk_pto_hdr_t` and the bytes behind it.
pub record Hdr : Type 0 where
  pub id : ℕ
  pub argc : ℕ
  pub chk : ℕ
  pub body : List ℕ

-- `(uint32_t)(*c)` of a signed `char`, and 1 for 0.
unfoldable pub char_value : ℕ → ℕ
char_value c = if c == 0 then 1 else if ltb c 128 then c else c + 2 ^ 32 - 256

-- The loop of `_checksum`.
unfoldable pub checksum_loop : List ℕ → ℕ → ℕ → ℕ
checksum_loop [] salt sum = sum
checksum_loop (c ∷ cs) salt sum =
    checksum_loop cs salt ((sum + char_value c * salt % 2 ^ 32) % 2 ^ 32)

-- `checksum`, the macro: `_checksum(...) & SK_PTO_CHKBITS`
unfoldable pub checksum : List ℕ → ℕ → ℕ
unfolding checksum_loop
checksum cs salt = checksum_loop cs salt 0 % 2 ^ 16

-- The arguments behind each other.
abbrev pub arg_bytes : List (List ℕ) → List ℕ
arg_bytes [] = []
arg_bytes (a ∷ args) = a ++ arg_bytes args

-- `sk_pto_pack`, with as many arguments as the protocol has, and more that are not read.
unfoldable pub sk_pto_pack : ℕ → List (List ℕ) → Checked Hdr
sk_pto_pack id args = elim (get_elem? sk_pto_tbl id) [
  | none ↦ assert_failed
  | some pto ↦ do
    sk_assert (id == pto.id)
    let body = arg_bytes (take pto.argc args)
    ok (record {
      id = id % 256;
      argc = pto.argc;
      chk = checksum (take (8 * pto.argc) body) pto.salt;
      body = body;
    })
]

-- `sk_pto_arg`: none where there is no argument, which is a null pointer, or the eight bytes there.
unfoldable pub sk_pto_arg : ℕ → Hdr → ℕ → Checked (Option (List ℕ))
sk_pto_arg id hdr idx = if hdr.argc == 0 then ok none else (do
  sk_assert (ltb id sk_pto_max)
  sk_assert (id == hdr.id)
  elim (get_elem? sk_pto_tbl hdr.id) [
    | none ↦ assert_failed
    | some pto ↦ do sk_assert (ltb idx pto.argc); ok (some (take 8 (drop (8 * idx) hdr.body)))
  ])

-- `sk_pto_check`
unfoldable pub sk_pto_check : ℕ → Hdr → Checked Bool
sk_pto_check id hdr = if hdr.argc == 0 then ok true else (do
  sk_assert (ltb id sk_pto_max)
  sk_assert (id == hdr.id)
  elim (get_elem? sk_pto_tbl hdr.id) [
    | none ↦ assert_failed
    | some pto ↦ ok (hdr.chk == checksum (take (8 * hdr.argc) hdr.body) pto.salt)
  ])

-- ===== src/Config/Values.antt =====
-- Reading values: the functions on single nodes of src/common/sk_config_loader.c, and what they use
-- of C's strings.
use Prim.Native.String.{String}
use skull.Prelude.{
  ℕ, ◌+◌, ◌-◌, ◌*◌, ◌%◌, ◌^◌, ◌<◌, Bool, true, false, ◌&&◌, ◌||◌, Option, none, some, [], ◌∷◌, map,
  ◌==◌, ltb, leb, if◌then◌else◌,
}
use skull.Prelude.Int.{ℤ, pos, negsuc}
use skull.Config.{
  Bytes, codes, Loaded, ok, assert_failed, undefined, CfgNode, value, array, mapping,
}

unfoldable pub bytes_eq : Bytes → Bytes → Bool
bytes_eq [] [] = true
bytes_eq [] (d ∷ ds) = false
bytes_eq (c ∷ cs) [] = false
bytes_eq (c ∷ cs) (d ∷ ds) = c == d && bytes_eq cs ds

unfoldable pub to_lower : ℕ → ℕ
to_lower c = if leb b'A' c && leb c b'Z' then c + 32 else c

-- `strcmp(s, text) == 0` and `strcasecmp(s, text) == 0`
unfoldable pub strcmp : Bytes → String → Bool
unfolding bytes_eq
strcmp s text = bytes_eq s (codes text)

unfoldable pub strcasecmp : Bytes → String → Bool
unfolding bytes_eq to_lower
strcasecmp s text = bytes_eq (map to_lower s) (map to_lower (codes text))

-- `strchr(s, c) != NULL`
unfoldable pub has_char : ℕ → Bytes → Bool
has_char c [] = false
has_char c (d ∷ ds) = c == d || has_char c ds

-- `strsep`: the token before the separator, and what is left behind it if there is one.
unfoldable pub strsep : ℕ → Bytes → Bytes × Option Bytes
strsep c [] = ([], none)
strsep c (d ∷ ds) = let rest = strsep c ds in if c == d then ([], some ds) else (d ∷ rest.0, rest.1)

abbrev is_space : ℕ → Bool
is_space c = c == b' ' || leb 9 c && leb c 13

unfoldable pub skip_spaces : Bytes → Bytes
skip_spaces [] = []
skip_spaces (c ∷ cs) = let rest = skip_spaces cs in if is_space c then rest else c ∷ cs

unfoldable pub is_digit : ℕ → Bool
is_digit c = leb b'0' c && leb c b'9'

-- The number that the leading digits write.
unfoldable pub read_digits : ℕ → Bytes → ℕ
unfolding is_digit
read_digits n [] = n
read_digits n (c ∷ cs) =
    let rest = read_digits (n * 10 + (c - b'0')) cs in if is_digit c then rest else n

-- A sign, and whether it is `-`.
unfoldable pub read_sign : Bytes → Bool × Bytes
read_sign [] = (false, [])
read_sign (c ∷ cs) =
    if c == b'-' then (true, cs) else if c == b'+' then (false, cs) else (false, c ∷ cs)

-- `(int)` of a `long`: its low 32 bits, read as two's complement.
unfoldable pub int_of_long : (negative : Bool) → ℕ → ℤ
int_of_long negative n =
    let low = n % 2 ^ 32 in
    let word = if negative then (2 ^ 32 - low) % 2 ^ 32 else low in
    if ltb word (2 ^ 31) then pos word else negsuc (2 ^ 32 - 1 - word)

-- `strtol` sets ERANGE outside the 64 bits of a `long`.
unfoldable pub in_long : (negative : Bool) → ℕ → Bool
in_long negative n = if negative then leb n (2 ^ 63) else ltb n (2 ^ 63)

unfoldable pub sk_config_getint : CfgNode → Loaded ℤ
unfolding skip_spaces read_sign read_digits in_long int_of_long
sk_config_getint (value v) =
    let (negative, ds) = read_sign (skip_spaces v) in
    let n = read_digits 0 ds in
    if in_long negative n then ok (int_of_long negative n) else assert_failed
sk_config_getint (array ns) = undefined
sk_config_getint (mapping es) = undefined

unfoldable pub sk_config_getbool : CfgNode → Loaded Bool
unfolding strcasecmp
sk_config_getbool (value v) = ok (strcasecmp v "true")
sk_config_getbool (array ns) = undefined
sk_config_getbool (mapping es) = undefined

unfoldable pub sk_config_getstring : CfgNode → Loaded Bytes
sk_config_getstring (value v) = ok v
sk_config_getstring (array ns) = undefined
sk_config_getstring (mapping es) = undefined

-- `(uint32_t) n & 0x1`
unfoldable pub low_bit : ℤ → Bool
low_bit (pos n) = n % 2 == 1
low_bit (negsuc n) = n % 2 == 0

abbrev pub is_pos : ℤ → Bool
is_pos (pos n) = ltb 0 n
is_pos (negsuc n) = false

abbrev pub is_nonneg : ℤ → Bool
is_nonneg (pos n) = true
is_nonneg (negsuc n) = false

-- `port > 0 && port <= 65535`
abbrev pub is_port : ℤ → Bool
is_port (pos n) = ltb 0 n && leb n 65535
is_port (negsuc n) = false

-- The range of a C `int`.
abbrev pub IsInt : ℤ → Type 0
IsInt (pos n) = n < 2 ^ 31
IsInt (negsuc n) = n < 2 ^ 31

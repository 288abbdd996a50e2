-- ===== src/Core/Paths.antt =====
-- `_sk_snprintf_logpath` and `_sk_init_sys` of src/components/sk_core.c.
use skull.Prelude.{
  ℕ, zero, suc, ◌+◌, ◌-◌, ◌≤◌, ◌<◌, ◌≡◌, refl, sym, ap, ◌∙◌, Bool, true, false, [], ◌∷◌, ◌++◌,
  length, length-append, ltb, ltb→lt, ◌==◌, if◌then◌else◌, Bool-cases, inl, inr, arith,
}
use skull.Prelude.Index.{take}
use skull.Prelude.Int.{ℤ, pos, negsuc}
use skull.Config.{Bytes, codes, Loaded, ok, ◌>>◌, sk_assert}
use skull.Config.Outcome.{assert-ok, ok-inj}

-- SK_LOG_MAX_PATH_LEN
abbrev pub max_path_len : ℕ
max_path_len = 1024

-- `snprintf(path, 1024, ...)`: what the path holds, without its terminator.
unfoldable pub snprintf_path : Bytes → Bytes
snprintf_path s = take (max_path_len - 1) s

-- `logname[0] == '/'`
abbrev pub is_absolute : Bytes → Bool
is_absolute [] = false
is_absolute (c ∷ cs) = c == b'/'

-- `_sk_snprintf_logpath`, the path that it writes.
unfoldable pub snprintf_logpath : (workdir logname : Bytes) → (std_fwd : Bool) → Loaded Bytes
unfolding snprintf_path
snprintf_logpath workdir logname true = ok (snprintf_path (codes "/proc/self/fd/1"))
snprintf_logpath workdir logname false =
    if is_absolute logname then ok (snprintf_path logname) else (do
      sk_assert (ltb (length workdir + length logname + 5 + 1) max_path_len)
      ok (snprintf_path (workdir ++ (codes "/log/" ++ logname))))

take_all : (n : ℕ) (s : Bytes) → length s ≤ n → take n s ≡ s
take_all zero [] h = refl
take_all zero (c ∷ s) h = absurd (omega (arith, h))
take_all (suc n) [] h = refl
take_all (suc n) (c ∷ s) h = ap (λ t. c ∷ t) (take_all n s (omega (arith, h)))

fits_path :
    (workdir logname : Bytes)
    → ltb (length workdir + length logname + 5 + 1) max_path_len ≡ true
    → length (workdir ++ (codes "/log/" ++ logname)) ≤ 1023
fits_path workdir logname fits =
    let whole : length (workdir ++ (codes "/log/" ++ logname))
        ≡ length workdir + length (codes "/log/" ++ logname) =
      length-append workdir (codes "/log/" ++ logname) in
    let within = ltb→lt (length workdir + length logname + 5 + 1) max_path_len fits in
    rw whole (omega (arith, within))

-- The file that a name of the configuration stands for.
abbrev pub log_file : (workdir logname : Bytes) → (std_fwd : Bool) → Bytes
log_file workdir logname true = codes "/proc/self/fd/1"
log_file workdir logname false =
    if is_absolute logname then logname else workdir ++ (codes "/log/" ++ logname)

-- The path of a log with a name of less than 64 bytes is the whole path of its file and not cut
-- off, unless the assertion fails.
pub snprintf_logpath-log_file :
    (workdir logname : Bytes) (std_fwd : Bool) (path : Bytes)
    → length logname < 64
    → snprintf_logpath workdir logname std_fwd ≡ ok path
    → path ≡ log_file workdir logname std_fwd
unfolding snprintf_logpath
snprintf_logpath-log_file workdir logname true path short e = sym (ok-inj _ path e)
snprintf_logpath-log_file workdir logname false path short e =
    elim (Bool-cases (is_absolute logname)) [
      | inl h ↦
          sym (ok-inj (take 1023 logname) path (rw (h, snprintf_logpath) at e))
          ∙ take_all 1023 logname (omega (arith, short))
          ∙ rw h refl
      | inr h ↦
          let full = workdir ++ (codes "/log/" ++ logname) in
          let (fits, done) =
            assert-ok _ (ok (take 1023 full)) path (rw (h, snprintf_logpath) at e) in
          sym (ok-inj (take 1023 full) path done)
          ∙ take_all 1023 full (fits_path workdir logname fits)
          ∙ rw h refl
    ]

-- `SK_MIN` of two `int`.
unfoldable pub min_int : ℤ → ℤ → ℤ
min_int (pos a) (pos b) = if ltb a b then pos a else pos b
min_int (pos a) (negsuc b) = negsuc b
min_int (negsuc a) (pos b) = negsuc a
min_int (negsuc a) (negsuc b) = if ltb b a then negsuc a else negsuc b

-- `_sk_init_sys`, the `max_fds` of the core, where `soft_limit` is what `getrlimit` gives and
-- `set_ok` tells which limits `setrlimit` takes.
unfoldable pub init_sys : (soft_limit conf_max_fds : ℤ) → (set_ok : ℤ → Bool) → ℤ
unfolding min_int
init_sys soft_limit conf_max_fds set_ok =
    let max_fds = min_int conf_max_fds soft_limit in if set_ok max_fds then max_fds else soft_limit

-- ===== src/Admin/Run.antt =====
-- What a command does, for whatever line a client sends.
use skull.Prelude.{
  ℕ, zero, suc, ◌+◌, ◌-◌, ◌≤◌, ◌≡◌, refl, Bool, true, false, Bool-cases, inl, inr, ◌⊎◌, ◌||◌,
  Option, none, some, List, [], ◌∷◌, ◌++◌, length, length-append, span_upto, not, ltb, ◌==◌,
  if◌then◌else◌, arith,
}
use skull.Prelude.Index.{get_elem?}
use skull.Fmbuf.{Fmbuf}
use skull.Config.{Bytes, codes, Loaded, ok, assert_failed, exited, undefined}
use skull.Config.Values.{strsep, has_char, strcasecmp}
use skull.Admin.{
  AdminData, read_tokens, admin_unpack, unpack_line, tailer_offset, sk_admin_data_create, Call,
  process_memory_tracing, is_trace, process_subcommand, process_memory, run_command, process_help,
  process_metrics, process_status, admin_run, byte_at_end,
}

abbrev returns : {A : Type 0} → Loaded A → Bool
returns (ok a) = true
returns _ = false

calls_of : (r : Loaded (List Call)) → returns r ≡ true → (calls : List Call) × (r ≡ ok calls)
calls_of (ok calls) h = (calls, refl)
calls_of assert_failed h = cc
calls_of exited h = cc
calls_of undefined h = cc

-- As many tokens as `argc` says, and not fewer than before.
read_tokens-argc :
    {B : Type 0} (n : ℕ) (cmds : Option Bytes) (d : AdminData B)
    → d.argc ≡ length d.command
    → ((read_tokens n cmds d).argc ≡ length (read_tokens n cmds d).command)
      × (d.argc ≤ (read_tokens n cmds d).argc)
unfolding read_tokens
read_tokens-argc zero cmds d h = (h, omega arith)
read_tokens-argc (suc n) none d h = (h, omega arith)
read_tokens-argc (suc n) (some s) d h =
    let next = record d { argc = d.argc + 1; command = d.command ++ (strsep b' ' s).0 ∷ [] } in
    let (same, more) =
      read_tokens-argc n (strsep b' ' s).1 next
        (omega (arith, h, length-append {0} d.command ((strsep b' ' s).0 ∷ []))) in
    (same, omega (arith, more))

read_tokens-some :
    {B : Type 0} (n : ℕ) (s : Bytes) (d : AdminData B)
    → d.argc ≡ length d.command
    → ((read_tokens (suc n) (some s) d).argc ≡ length (read_tokens (suc n) (some s) d).command)
      × (1 ≤ (read_tokens (suc n) (some s) d).argc)
unfolding read_tokens
read_tokens-some n s d h =
    let (token, cmds) = strsep b' ' s in
    let next = record d { argc = d.argc + 1; command = d.command ++ token ∷ [] } in
    let (same, more) =
      read_tokens-argc n cmds next (omega (arith, h, length-append {0} d.command (token ∷ []))) in
    (same, omega (arith, more))

get_elem?-some :
    {A : Type 0} (xs : List A) (i : ℕ) → suc i ≤ length xs → (x : A) × (get_elem? xs i ≡ some x)
get_elem?-some [] i h = absurd (omega (arith, h))
get_elem?-some (x ∷ xs) zero h = (x, refl)
get_elem?-some (x ∷ xs) (suc i) h = get_elem?-some xs i (omega (arith, h))

strsep-finds :
    (c : ℕ) (s : Bytes) → has_char c s ≡ true → (rest : Bytes) × ((strsep c s).1 ≡ some rest)
unfolding strsep has_char
strsep-finds c [] h = cc
strsep-finds c (d ∷ ds) h = elim (Bool-cases (c == d)) [
  | inl e ↦ (ds, rw e refl)
  | inr e ↦ let (rest, r) = strsep-finds c ds (ground (arith, h, e)) in (rest, rw e r)
]

-- What begins with `trace=` has a sign.
is_trace-has_char : (s : Bytes) → is_trace s ≡ true → has_char b'=' s ≡ true
unfolding is_trace has_char
is_trace-has_char [] h = cc
is_trace-has_char (a ∷ []) h = ground (arith, h)
is_trace-has_char (a ∷ b ∷ []) h = ground (arith, h)
is_trace-has_char (a ∷ b ∷ c ∷ []) h = ground (arith, h)
is_trace-has_char (a ∷ b ∷ c ∷ d ∷ []) h = ground (arith, h)
is_trace-has_char (a ∷ b ∷ c ∷ d ∷ e ∷ []) h = ground (arith, h)
is_trace-has_char (a ∷ b ∷ c ∷ d ∷ e ∷ f ∷ s) h = ground (arith, h)

process_memory_tracing-returns :
    (s : Bytes) → is_trace s ≡ true → returns (process_memory_tracing s) ≡ true
unfolding process_memory_tracing
process_memory_tracing-returns s h =
    let (rest, r) = strsep-finds b'=' s (is_trace-has_char s h) in ground (arith, r)

process_subcommand-returns : (s : Bytes) → returns (process_subcommand s) ≡ true
unfolding process_subcommand
process_subcommand-returns s = ground (arith, process_memory_tracing-returns s)

process_memory-returns :
    {B : Type 0} (d : AdminData B)
    → d.argc ≡ length d.command
    → 1 ≤ d.argc
    → returns (process_memory d) ≡ true
unfolding process_memory
process_memory-returns d same some_token = elim (Bool-cases (d.argc == 1)) [
  | inl e ↦ rw e (process_subcommand-returns (codes "info"))
  | inr e ↦
      let (s, r) = get_elem?-some d.command 1 (ground (arith, e, same, some_token)) in
      rw e (rw r (process_subcommand-returns s))
]

commands-returns :
    (help metrics last status mem : Bool) (memory : Loaded (List Call))
    → returns memory ≡ true
    → returns (
        if help
        then ok (process_help ∷ [])
        else if metrics
        then ok (process_metrics 0 ∷ [])
        else if last
        then ok (process_metrics 1 ∷ [])
        else if status
        then ok (process_status ∷ [])
        else if mem
        then memory
        else ok (process_help ∷ []))
      ≡ true
commands-returns help metrics last status mem memory h = ground arith

run_command-returns :
    {B : Type 0} (d : AdminData B) (c : Bytes)
    → returns (process_memory d) ≡ true
    → returns (run_command d c) ≡ true
unfolding run_command
run_command-returns d c memory =
    commands-returns (strcasecmp c "help") (strcasecmp c "metrics" || strcasecmp c "counter")
      (strcasecmp c "last") (strcasecmp c "status" || strcasecmp c "info") (strcasecmp c "memory")
      (process_memory d) memory

admin_run-returns :
    {B : Type 0} (d : AdminData B)
    → d.argc ≡ length d.command
    → (d.ignore ≡ true) ⊎ (1 ≤ d.argc)
    → returns (admin_run d) ≡ true
unfolding admin_run
admin_run-returns d same (inl e) = rw e refl
admin_run-returns d same (inr some_token) =
    let (c, r) = get_elem?-some d.command 0 (omega (arith, same, some_token)) in
    let memory = process_memory-returns d same some_token in
    elim (Bool-cases d.ignore) [
      | inl e ↦ rw e refl
      | inr e ↦ rw e (rw r (run_command-returns d c memory))
    ]

module _ {B : Type 0} (fm : Fmbuf B Bytes) where
  data_or_ignored-returns :
      (ignored : Bool) (raw : Bytes)
      → returns (
          admin_run (
            if ignored
            then record (sk_admin_data_create fm) { ignore = true }
            else read_tokens 10 (some raw) (sk_admin_data_create fm)))
        ≡ true
  unfolding sk_admin_data_create
  data_or_ignored-returns true raw =
      admin_run-returns (record (sk_admin_data_create fm) { ignore = true }) (omega arith)
        (inl refl)
  data_or_ignored-returns false raw =
      let (same, more) = read_tokens-some 9 raw (sk_admin_data_create fm) (omega arith) in
      admin_run-returns (read_tokens 10 (some raw) (sk_admin_data_create fm)) same (inr more)

  unpack_line-returns : (line : Bytes) → returns (admin_run (unpack_line fm line)) ≡ true
  unfolding unpack_line
  unpack_line-returns line =
      let text_len = length line - tailer_offset line in
      data_or_ignored-returns (text_len == 0)
        (span_upto (λ c. not (c == 0)) (if ltb text_len 255 then text_len else 255) line).0

  -- A line of a byte or more is either left, since its last byte is no line feed, and nothing is
  -- taken of it; or it is taken whole, and running the command that it holds reaches its calls, with
  -- no token missing that is read, whatever the bytes are.
  pub admin_run-admin_unpack :
      (b : ℕ) (bs : Bytes)
      → ((byte_at_end 1 (b ∷ bs) 10 ≡ false) × (admin_unpack fm (b ∷ bs) ≡ ok (0, none)))
        ⊎ ((byte_at_end 1 (b ∷ bs) 10 ≡ true)
            × ((d : AdminData B) × (calls : List Call) × (admin_unpack fm (b ∷ bs)
                  ≡ ok (length (b ∷ bs), some d))
                × (admin_run d ≡ ok calls)))
  unfolding admin_unpack
  admin_run-admin_unpack b bs =
      let (calls, r) =
        calls_of (admin_run (unpack_line fm (b ∷ bs))) (unpack_line-returns (b ∷ bs)) in
      elim (Bool-cases (byte_at_end 1 (b ∷ bs) 10)) [
        | inr e ↦ inl (e, rw e refl)
        | inl e ↦ inr (e, (unpack_line fm (b ∷ bs), calls, rw e refl, r))
      ]

-- ===== src/Admin.antt =====
-- The commands of the administrator, src/components/sk_admin.c: reading a line, choosing what to
-- do. C strings as in Config.
pub mod Answer
pub mod Unpack
pub mod Run
pub mod Response
pub mod Entities
mod Tests
use skull.Prelude.{
  ℕ, zero, suc, ◌+◌, ◌-◌, Bool, true, false, not, ◌&&◌, ◌||◌, Option, none, some, List, [], ◌∷◌,
  ◌++◌, map, length, span_upto, ltb, leb, ◌==◌, if◌then◌else◌,
}
use skull.Prelude.Int.{ℤ, pos, negsuc, ◌+ℤ◌}
use skull.Prelude.Index.{get_elem?, take}
use skull.Fmbuf.{Fmbuf}
use skull.EntityMgr.{Stat}
use skull.Config.{Bytes, codes, Loaded, ok, undefined, ◌>>=◌}
use skull.Config.Values.{
  is_nonneg, strcasecmp, bytes_eq, to_lower, strsep, skip_spaces, read_sign, read_digits, in_long,
  int_of_long,
}

-- `sk_admin_data_t`. Of `command` the entries behind the last one are NULL.
pub record AdminData (B : Type 0) : Type 0 where
  pub ignore : Bool
  pub argc : ℕ
  pub command : List Bytes
  pub response : B

-- The loop over the tokens, with the places left in `command`.
unfoldable pub read_tokens : {B : Type 0} → ℕ → Option Bytes → AdminData B → AdminData B
unfolding strsep
read_tokens zero cmds d = d
read_tokens (suc n) none d = d
read_tokens (suc n) (some s) d =
    let (token, cmds) = strsep b' ' s in
    read_tokens n cmds (record d { argc = d.argc + 1; command = d.command ++ token ∷ [] })

abbrev pub is_byte : ℕ → Option ℕ → Bool
is_byte c none = false
is_byte c (some d) = d == c

-- Whether the byte that is `back` bytes before the end is `c`.
abbrev pub byte_at_end : ℕ → Bytes → ℕ → Bool
byte_at_end back bytes c = is_byte c (get_elem? bytes (length bytes - back))

-- `tailer_offset`: the bytes of the line's end
unfoldable pub tailer_offset : Bytes → ℕ
tailer_offset bytes = if leb 2 (length bytes) && byte_at_end 2 bytes 13 then 2 else 1

module _ {B : Type 0} (fm : Fmbuf B Bytes) where
  unfoldable pub sk_admin_data_create : AdminData B
  sk_admin_data_create = record {
    ignore = false;
    argc = 0;
    command = [];
    response = fm.create 8192;
  }

  -- From a line with its end, the transaction's data. `strncpy` stops at a zero.
  unfoldable pub unpack_line : Bytes → AdminData B
  unfolding read_tokens tailer_offset span_upto sk_admin_data_create
  unpack_line line =
      let text_len = length line - tailer_offset line in
      let max_len = if ltb text_len 255 then text_len else 255 in
      let raw = (span_upto (λ c. not (c == 0)) max_len line).0 in
      if text_len == 0
      then record sk_admin_data_create { ignore = true }
      else read_tokens 10 (some raw) sk_admin_data_create

  -- The number of bytes taken, and the transaction's data where it is set.
  unfoldable pub admin_unpack : Bytes → Loaded (ℕ × Option (AdminData B))
  unfolding unpack_line
  admin_unpack [] = undefined
  admin_unpack (b ∷ bs) =
      if byte_at_end 1 (b ∷ bs) 10
      then ok (length (b ∷ bs), some (unpack_line (b ∷ bs)))
      else ok (0, none)

-- What `_admin_run` calls.
pub data Call : Type 0 where
  process_help : Call
  process_metrics : (loc : ℕ) → Call
  process_status : Call
  process_memory_info : (detail : Bool) → Call
  process_memory_allocator : Call
  sk_mem_trace : ℤ → Call
  append_response : Bytes → Call

-- `NULL` where there is no second token.
unfoldable pub parse_tracing_level : Bytes → Loaded ℤ
unfolding strsep skip_spaces read_sign read_digits in_long int_of_long
parse_tracing_level subcmd = elim (strsep b'=' subcmd).1 [
  | none ↦ undefined
  | some behind ↦
      let (negative, ds) = read_sign (skip_spaces (strsep b'=' behind).0) in
      let n = read_digits 0 ds in
      ok (if in_long negative n then int_of_long negative n else negsuc 0)
]

unfoldable pub process_memory_tracing : Bytes → Loaded (List Call)
unfolding parse_tracing_level
process_memory_tracing subcmd = do
  lv ← parse_tracing_level subcmd
  ok (
      (if is_nonneg lv
        then sk_mem_trace lv
        else append_response (codes "Error: Invalid tracing level\n\n"))
      ∷ [])

-- `strncasecmp("trace=", s, 6) == 0`
unfoldable pub is_trace : Bytes → Bool
unfolding bytes_eq to_lower
is_trace s = bytes_eq (map to_lower (take 6 s)) (codes "trace=")

-- `_process_memory` for a subcommand
unfoldable pub process_subcommand : Bytes → Loaded (List Call)
unfolding strcasecmp is_trace process_memory_tracing
process_subcommand s =
    if strcasecmp s "info"
    then ok (process_memory_info false ∷ [])
    else if strcasecmp s "detail"
    then ok (process_memory_info true ∷ [])
    else if is_trace s
    then (do calls ← process_memory_tracing s; ok (calls ++ process_memory_info false ∷ []))
    else if strcasecmp s "full"
    then ok (process_memory_info true ∷ process_memory_allocator ∷ [])
    else ok (process_help ∷ [])

unfoldable pub process_memory : {B : Type 0} → AdminData B → Loaded (List Call)
unfolding process_subcommand
process_memory d =
    if d.argc == 1
    then process_subcommand (codes "info")
    else elim (get_elem? d.command 1) [ none ↦ undefined | some s ↦ process_subcommand s ]

unfoldable pub run_command : {B : Type 0} → AdminData B → Bytes → Loaded (List Call)
unfolding strcasecmp process_memory
run_command d c =
    if strcasecmp c "help"
    then ok (process_help ∷ [])
    else if strcasecmp c "metrics" || strcasecmp c "counter"
    then ok (process_metrics 0 ∷ [])
    else if strcasecmp c "last"
    then ok (process_metrics 1 ∷ [])
    else if strcasecmp c "status" || strcasecmp c "info"
    then ok (process_status ∷ [])
    else if strcasecmp c "memory"
    then process_memory d
    else ok (process_help ∷ [])

unfoldable pub admin_run : {B : Type 0} → AdminData B → Loaded (List Call)
unfolding run_command
admin_run d =
    if d.ignore
    then ok []
    else elim (get_elem? d.command 0) [ none ↦ undefined | some c ↦ run_command d c ]

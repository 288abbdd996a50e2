-- ===== src/Txn/Mbuf.antt =====
-- src/common/sk_mbuf.c, a buffer that grows, over `fmbuf` of flibs, and its use in src/common/sk_txn.c:
-- the output and the log of a transaction.
use skull.Prelude.{
  ℕ, zero, suc, ◌+◌, ◌-◌, ◌*◌, ◌%◌, ◌^◌, Bool, true, false, none, some, List, [], ◌∷◌, length, ltb,
  leb, ◌==◌, if◌then◌else◌,
}
use skull.Prelude.Checked.{Checked, ok, assert_failed, out_of_fuel, ◌>>=◌, ◌>>◌, sk_assert}
use skull.Prelude.Index.{take}
use skull.Fmbuf.{Fmbuf}

abbrev pub Bytes : Type 0
Bytes = List ℕ

-- `sk_mbuf_t`
pub record SkMbuf (B : Type 0) : Type 0 where
  pub buf : B
  pub max_sz : ℕ

-- The loop of `sk_mbuf_push`, with `loop_again` set: the size to reallocate.
unfoldable pub mbuf_new_size : ℕ → (used size max_size free_size new_size : ℕ) → Checked ℕ
mbuf_new_size zero used size max_size free_size new_size = out_of_fuel
mbuf_new_size (suc fuel) used size max_size free_size new_size =
    let doubled = new_size * 2 in
    let rest = mbuf_new_size fuel used size max_size ((doubled + 2 ^ 64 - used) % 2 ^ 64) doubled in
    if ltb free_size size
    then (if leb new_size (2 ^ 63 - 1) then rest else ok max_size)
    else ok new_size

module _ {B : Type 0} (fm : Fmbuf B Bytes) where
  unfoldable pub sk_mbuf_create : (init_size max_size : ℕ) → SkMbuf B
  sk_mbuf_create init_size max_size = record { buf = fm.create init_size; max_sz = max_size }

  -- `true` is the return value 0. The loop has 66 rounds of fuel.
  unfoldable pub sk_mbuf_push : SkMbuf B → Bytes → ℕ → Checked (SkMbuf B × Bool)
  unfolding mbuf_new_size
  sk_mbuf_push m bytes size = elim (fm.push m.buf bytes size) [
    | some b ↦ ok (record m { buf = b }, true)
    | none ↦ do
      let curr_used = fm.used m.buf
      let curr_size = fm.size m.buf
      let max_size = if m.max_sz == 0 then 2 ^ 64 - 1 else m.max_sz
      new_size ←
          mbuf_new_size 66 curr_used size max_size (curr_size - curr_used)
            (if curr_size == 0 then 1 else curr_size)
      let b = fm.realloc m.buf new_size
      elim (fm.push b bytes size) [
        | some b' ↦ ok (record m { buf = b' }, true)
        | none ↦ ok (record m { buf = b }, false)
      ]
  ]

  unfoldable pub sk_mbuf_size : SkMbuf B → ℕ
  sk_mbuf_size m = fm.used m.buf

  -- `sk_txn_log_add`, of the text that the format gives; 2047 bytes of it fit.
  unfoldable pub sk_txn_log_add : SkMbuf B → Bytes → Checked (SkMbuf B)
  unfolding sk_mbuf_push
  sk_txn_log_add transaction text = do
    sk_assert (ltb 0 (length text))
    r ← sk_mbuf_push transaction (take 2047 text) (length (take 2047 text))
    sk_assert r.1
    ok r.0

  unfoldable pub sk_txn_log_end : SkMbuf B → Checked (SkMbuf B)
  unfolding sk_mbuf_push
  sk_txn_log_end transaction = do r ← sk_mbuf_push transaction (0 ∷ []) 1; sk_assert r.1; ok r.0

  -- `sk_txn_output_append`, with `new_sz` a `size_t`, on `txn->output`
  unfoldable pub sk_txn_output_append : B → Bytes → Checked B
  sk_txn_output_append output bytes =
      let sz = length bytes in
      let larger = fm.realloc output ((fm.used output + sz) % 2 ^ 64) in
      if sz == 0
      then ok output
      else elim (fm.push (if ltb (fm.size output - fm.used output) sz then larger else output) bytes
          sz) [ some output' ↦ ok output' | none ↦ assert_failed ]

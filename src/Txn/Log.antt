-- ===== src/Txn/Log.antt =====
-- What the log of a transaction holds, src/common/sk_txn.c.
use skull.Prelude.{
  ℕ, ◌+◌, ◌-◌, ◌*◌, ◌^◌, ◌≤◌, ◌<◌, ◌≡◌, refl, ap, ◌∙◌, ◌⊎◌, inl, inr, true, false, none, some, List,
  [], ◌∷◌, ◌++◌, append_assoc, map, length, All, ltb, leb, ◌==◌, Bool-cases, if◌then◌else◌, lt→ltb,
  leb→le, arith,
}
use skull.Prelude.Checked.{Checked, ok, ◌>>=◌}
use skull.Prelude.Index.{take}
use skull.Fmbuf.{Fmbuf}
use skull.Txn.Grow.{first_size, mbuf_new_size_full}
use skull.Txn.Mbuf.{Bytes, SkMbuf, mbuf_new_size, sk_mbuf_push, sk_txn_log_add, sk_txn_log_end}

not_leb : (m n : ℕ) → leb m n ≡ false → n < m
not_leb m n h = ground (arith, h)

module _ {B : Type 0} (fm : Fmbuf B Bytes) where
  -- What a buffer is after bytes were put into it.
  abbrev Put : (bytes : Bytes) (size : ℕ) → B → B → Type 0
  Put bytes size b b' =
      (fm.contents b' ≡ fm.contents b ++ bytes ∷ [])
      × (fm.used b' ≡ fm.used b + size)
      × ((fm.size b' ≡ fm.size b) ⊎ (fm.size b' ≤ 2 * (fm.used b + size)))

  pushed_now :
      (m : SkMbuf B) (bytes : Bytes) (size : ℕ) (b : B)
      → fm.push m.buf bytes size ≡ some b
      → sk_mbuf_push fm m bytes size ≡ ok (record m { buf = b }, true)
  unfolding sk_mbuf_push
  pushed_now m bytes size b e = rw (sk_mbuf_push, e) refl

  pushed_grown :
      (m : SkMbuf B) (bytes : Bytes) (size r : ℕ) (b : B)
      → fm.push m.buf bytes size ≡ none
      → mbuf_new_size 66
          (fm.used m.buf)
          size
          (if m.max_sz == 0 then 2 ^ 64 - 1 else m.max_sz)
          (fm.size m.buf - fm.used m.buf)
          (if fm.size m.buf == 0 then 1 else fm.size m.buf)
        ≡ ok r
      → fm.push (fm.realloc m.buf r) bytes size ≡ some b
      → sk_mbuf_push fm m bytes size ≡ ok (record m { buf = b }, true)
  unfolding sk_mbuf_push
  pushed_grown m bytes size r b n g e = rw (sk_mbuf_push, n, g, e) refl

  -- A push of less than half the address space is never refused, whatever `max_size` the buffer was
  -- created with: the bytes are behind what was there, and the buffer has its size, or at most twice
  -- what it holds.
  pub sk_mbuf_push_lem :
      (m : SkMbuf B) (bytes : Bytes) (size : ℕ)
      → fm.used m.buf + size < 2 ^ 63
      → (m' : SkMbuf B) × (sk_mbuf_push fm m bytes size ≡ ok (m', true))
        × Put bytes size m.buf m'.buf
  sk_mbuf_push_lem m bytes size small =
      elim (Bool-cases (leb (fm.used m.buf + size) (fm.size m.buf))) [
        | inl e ↦
            let (b, pushed, c, u, s) = fm.push-fits m.buf bytes size (leb→le _ _ e) in
            (record m { buf = b }, pushed_now m bytes size b pushed, (c, u, inl s))
        | inr e ↦
            let full : fm.size m.buf < fm.used m.buf + size =
              not_leb (fm.used m.buf + size) (fm.size m.buf) e in
            let max_size = if m.max_sz == 0 then 2 ^ 64 - 1 else m.max_sz in
            let (r, grown, room, bound) =
              mbuf_new_size_full (fm.used m.buf) (fm.size m.buf) size max_size
                (if fm.size m.buf == 0 then 1 else fm.size m.buf) (fm.used-le-size m.buf) full small
                (first_size (fm.size m.buf)) in
            let (c0, u0, s0) = fm.realloc_lem m.buf r (omega (arith, room)) in
            let larger = fm.realloc m.buf r in
            let (b, pushed, c, u, s) =
              fm.push-fits larger bytes size (omega (arith, u0, s0, room)) in
            (
              record m { buf = b },
              pushed_grown m bytes size r b (fm.push-full m.buf bytes size full) grown pushed,
              (
                c ∙ ap (λ es. es ++ bytes ∷ []) c0,
                u ∙ ap (λ n. n + size) u0,
                inr (omega (arith, s, s0, bound)),
              ),
            )
      ]

  -- The bytes of log lines, of which 2047 fit each.
  abbrev pub sum : List Bytes → ℕ
  sum [] = 0
  sum (t ∷ ts) = length (take 2047 t) + sum ts

  abbrev pub log_all : SkMbuf B → List Bytes → Checked (SkMbuf B)
  log_all m [] = sk_txn_log_end fm m
  log_all m (t ∷ ts) = sk_txn_log_add fm m t >>= λ m'. log_all m' ts

  -- Every line of a log, none of them empty, is in it, up to its 2047th byte, in order, with a zero at the
  -- end; no assertion fails, whatever `max_size` is, while all is less than half the address space.
  pub log_all-contents :
      (m : SkMbuf B) (ts : List Bytes)
      → All (λ (t : Bytes). 0 < length t) ts
      → fm.used m.buf + sum ts + 1 < 2 ^ 63
      → (m' : SkMbuf B) × (log_all m ts ≡ ok m')
        × (fm.contents m'.buf ≡ fm.contents m.buf ++ (map (take 2047) ts ++ (0 ∷ []) ∷ []))
  unfolding sk_txn_log_add sk_txn_log_end
  log_all-contents m [] h small =
      let (m', pushed, (c, u, s)) = sk_mbuf_push_lem m (0 ∷ []) 1 (omega (arith, small)) in
      (m', rw pushed refl, c)
  log_all-contents m (t ∷ ts) h small =
      let line = take 2047 t in
      let (m1, pushed, (c, u, s)) = sk_mbuf_push_lem m line (length line) (omega (arith, small)) in
      let (m', rest, c') = log_all-contents m1 ts h.1 (omega (arith, small, u)) in
      let some_text : ltb 0 (length t) ≡ true = lt→ltb 0 (length t) h.0 in
      (
        m',
        rw (some_text, pushed) rest,
        c'
            ∙ ap (λ es. es ++ (map (take 2047) ts ++ (0 ∷ []) ∷ [])) c
            ∙ append_assoc (fm.contents m.buf) (line ∷ []) _,
      )

-- ===== src/Queue/Refine/OldestFirst.antt =====
-- `_sk_queue_pull_rw_pw` of sk_queue.c, from an idle queue: the oldest elements.
use skull.Prelude.{
  ℕ, zero, suc, ◌-◌, ◌*◌, ◌≡◌, refl, false, none, some, List, [], ◌∷◌, span_upto, ◌==◌, arith,
}
use skull.Prelude.Checked.{ok}
use skull.Fmbuf.{Fmbuf}
use skull.Queue.{
  idle, Elem, ElemType, elem_read, elem_write, elem_exclusive, rw_pw_mq, SkQueue, buffer_pull,
  sizeof_elem_base,
}
use skull.Queue.Buffer.{IsLimit}
use skull.Queue.Pulling.{place, pulled, buffer_pull_lem}
use skull.Queue.View.{is_read_elem, pull_oldest, pull_view, ValidBuffers}
use skull.Queue.Ops.{pull_buffers}
use skull.Queue.Refine.Pull.{Pulls, written-place, span_upto-All_rest, pull_one}

module _ {B T : Type 0} (fm : Fmbuf B (Elem T)) (q : SkQueue B)
    (l : IsLimit q.elem_sz q.max_slots) where
  pull_rw_pw_idle_nil :
      (mq : B) (n : ℕ)
      → fm.contents mq ≡ []
      → ValidBuffers fm q.elem_sz q.max_slots (rw_pw_mq mq)
      → Pulls fm q l idle n (rw_pw_mq mq)
  unfolding Pulls pull_buffers pull_view pull_oldest span_upto place
  pull_rw_pw_idle_nil mq n c (h, a) =
      let (b', got, c', h') = pull_one fm q l mq none h in
      let empty : fm.contents b' ≡ [] = ground (arith, c, c') in
      (
        rw_pw_mq b',
        [],
        ground (arith, got, c),
        ground (arith, c),
        ground (arith, c, empty),
        (h', rw empty tt),
      )

  pull_rw_pw_idle_cons :
      (t : ElemType) (x : T) (es : List (Elem T)) (mq : B) (n : ℕ)
      → fm.contents mq ≡ record { type = t; body = x } ∷ es
      → ValidBuffers fm q.elem_sz q.max_slots (rw_pw_mq mq)
      → Pulls fm q l idle (suc n) (rw_pw_mq mq)
  unfolding Pulls pull_buffers pull_view pull_oldest span_upto place
  pull_rw_pw_idle_cons elem_read x es mq zero c (h, a) =
      let (b', got, c', h') = pull_one fm q l mq none h in
      let rest : fm.contents b' ≡ es = ground (arith, c, c') in
      (
        rw_pw_mq b',
        (0, record { type = elem_read; body = x }) ∷ [],
        ground (arith, got, c),
        ground (arith, c),
        ground (arith, c, rest),
        (h', rw rest (rw c at a).1),
      )
  pull_rw_pw_idle_cons elem_read x es mq (suc n) c (h, a) =
      let (b', got, c', h') = pull_one fm q l mq none h in
      let rest : fm.contents b' ≡ es = ground (arith, c, c') in
      let second : ℕ = sizeof_elem_base * (1 * q.elem_sz) in
      let (b'', got', c'', h'') =
        buffer_pull_lem fm (some elem_read) q.elem_sz q.max_slots second (suc n) 0 b' l.some_size
          h' in
      let first : buffer_pull fm mq none q.elem_sz 0 1 0
          ≡ ok (b', (0, record { type = elem_read; body = x }) ∷ []) =
        ground (arith, got, c) in
      let more : (suc (suc n) == 1) ≡ false = ground arith in
      let left : suc (suc n) - 1 ≡ suc n = omega arith in
      (
        rw_pw_mq b'',
        (0, record { type = elem_read; body = x })
            ∷ place q.elem_sz second 0 (pulled (some elem_read) (suc n) (fm.contents b')).0,
        rw (first, more, left, got') refl,
        rw
            (
              written-place q.elem_sz second 0 (pulled (some elem_read) (suc n) (fm.contents b')).0,
              rest,
              c,
            )
            refl,
        rw (c'', rest, c) refl,
        (h'', rw (c'', rest) (span_upto-All_rest _ is_read_elem (suc n) es (rw c at a).1)),
      )
  pull_rw_pw_idle_cons elem_write x es mq n c (h, a) =
      let (b', got, c', h') = pull_one fm q l mq none h in
      let rest : fm.contents b' ≡ es = ground (arith, c, c') in
      (
        rw_pw_mq b',
        (0, record { type = elem_write; body = x }) ∷ [],
        ground (arith, got, c),
        ground (arith, c),
        ground (arith, c, rest),
        (h', rw rest (rw c at a).1),
      )
  pull_rw_pw_idle_cons elem_exclusive x es mq n c (h, a) = cc ((rw c at a).0)

  pub pull_rw_pw_idle :
      (es : List (Elem T)) (mq : B) (n : ℕ)
      → fm.contents mq ≡ es
      → ValidBuffers fm q.elem_sz q.max_slots (rw_pw_mq mq)
      → Pulls fm q l idle (suc n) (rw_pw_mq mq)
  pull_rw_pw_idle [] mq n c v = pull_rw_pw_idle_nil mq (suc n) c v
  pull_rw_pw_idle (e ∷ es) mq n c v = pull_rw_pw_idle_cons e.type e.body es mq n c v

-- ===== src/Queue/Refine/ReadsFirst.antt =====
-- `_sk_queue_pull_rw_pr` of sk_queue.c, from an idle queue: reads, and only if there is none a
-- write.
use skull.Prelude.{ℕ, suc, ◌≡◌, refl, some, List, [], ◌∷◌, span_upto, arith}
use skull.Fmbuf.{Fmbuf}
use skull.Queue.{idle, Elem, elem_write, rw_pr_mqs, SkQueue}
use skull.Queue.Buffer.{IsLimit}
use skull.Queue.Pulling.{place}
use skull.Queue.View.{is_read_elem, pull_reads_first, pull_view, ValidBuffers}
use skull.Queue.Ops.{pull_buffers}
use skull.Queue.Refine.Pull.{Pulls, written-place, span_upto-All_rest, pull_reads, pull_one}

module _ {B T : Type 0} (fm : Fmbuf B (Elem T)) (q : SkQueue B)
    (l : IsLimit q.elem_sz q.max_slots) where
  pull_rw_pr_idle_nil :
      (rmq wmq : B) (n : ℕ)
      → fm.contents rmq ≡ []
      → fm.contents wmq ≡ []
      → ValidBuffers fm q.elem_sz q.max_slots (rw_pr_mqs rmq wmq)
      → Pulls fm q l idle (suc n) (rw_pr_mqs rmq wmq)
  unfolding Pulls pull_buffers pull_view pull_reads_first span_upto place
  pull_rw_pr_idle_nil rmq wmq n cr cw (hr, hw, ar, aw) =
      let (br, got_r, cr', hr') = pull_reads fm q l rmq (suc n) hr in
      let (bw, got_w, cw', hw') = pull_one fm q l wmq (some elem_write) hw in
      let empty_r : fm.contents br ≡ [] = ground (arith, cr, cr') in
      let empty_w : fm.contents bw ≡ [] = ground (arith, cw, cw') in
      (
        rw_pr_mqs br bw,
        [],
        ground (arith, got_r, got_w, cr, cw),
        ground (arith, cr, cw),
        ground (arith, cr, cw, empty_r, empty_w),
        (hr', hw', rw empty_r tt, rw empty_w tt),
      )

  pull_rw_pr_idle_write :
      (w : Elem T) (ws : List (Elem T)) (rmq wmq : B) (n : ℕ)
      → fm.contents rmq ≡ []
      → fm.contents wmq ≡ w ∷ ws
      → ValidBuffers fm q.elem_sz q.max_slots (rw_pr_mqs rmq wmq)
      → Pulls fm q l idle (suc n) (rw_pr_mqs rmq wmq)
  unfolding Pulls pull_buffers pull_view pull_reads_first span_upto place
  pull_rw_pr_idle_write w ws rmq wmq n cr cw (hr, hw, ar, aw) =
      let (br, got_r, cr', hr') = pull_reads fm q l rmq (suc n) hr in
      let (bw, got_w, cw', hw') = pull_one fm q l wmq (some elem_write) hw in
      let kinds = rw cw at aw in
      let empty_r : fm.contents br ≡ [] = ground (arith, cr, cr') in
      let rest_w : fm.contents bw ≡ ws = ground (arith, cw, cw', kinds.0) in
      (
        rw_pr_mqs br bw,
        (0, w) ∷ [],
        ground (arith, got_r, got_w, cr, cw, kinds.0),
        ground (arith, cr, cw),
        ground (arith, cr, cw, empty_r, rest_w),
        (hr', hw', rw empty_r tt, rw rest_w kinds.1),
      )

  pull_rw_pr_idle_read :
      (r : Elem T) (rs : List (Elem T)) (rmq wmq : B) (n : ℕ)
      → fm.contents rmq ≡ r ∷ rs
      → ValidBuffers fm q.elem_sz q.max_slots (rw_pr_mqs rmq wmq)
      → Pulls fm q l idle (suc n) (rw_pr_mqs rmq wmq)
  unfolding Pulls pull_buffers pull_view pull_reads_first span_upto place
  pull_rw_pr_idle_read r rs rmq wmq n c (hr, hw, ar, aw) =
      let (br, got, c', hr') = pull_reads fm q l rmq (suc n) hr in
      let kinds = rw c at ar in
      let rest = span_upto is_read_elem n rs in
      let left : fm.contents br ≡ rest.1 = ground (arith, c, c', kinds.0) in
      (
        rw_pr_mqs br wmq,
        (0, r) ∷ place q.elem_sz 0 1 rest.0,
        ground (arith, got, c, kinds.0),
        rw (c, kinds.0, written-place q.elem_sz 0 1 rest.0) refl,
        ground (arith, c, kinds.0, left),
        (hr', hw, rw left (span_upto-All_rest _ is_read_elem n rs kinds.1), aw),
      )

  pub pull_rw_pr_idle :
      (rs ws : List (Elem T)) (rmq wmq : B) (n : ℕ)
      → fm.contents rmq ≡ rs
      → fm.contents wmq ≡ ws
      → ValidBuffers fm q.elem_sz q.max_slots (rw_pr_mqs rmq wmq)
      → Pulls fm q l idle (suc n) (rw_pr_mqs rmq wmq)
  pull_rw_pr_idle [] [] rmq wmq n cr cw v = pull_rw_pr_idle_nil rmq wmq n cr cw v
  pull_rw_pr_idle [] (w ∷ ws) rmq wmq n cr cw v = pull_rw_pr_idle_write w ws rmq wmq n cr cw v
  pull_rw_pr_idle (r ∷ rs) ws rmq wmq n cr cw v = pull_rw_pr_idle_read r rs rmq wmq n cr v

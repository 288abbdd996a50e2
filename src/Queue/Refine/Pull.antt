-- ===== src/Queue/Refine/Pull.antt =====
-- What a pull does, and the pulls that take elements of one kind: from an exclusive queue, and of
-- reads alone.
use skull.Prelude.{
  ℕ, zero, suc, ◌+◌, ◌≡◌, refl, inl, inr, Bool, Option, some, List, [], ◌∷◌, All, span_upto,
  Bool-cases, arith,
}
use skull.Prelude.Checked.{ok}
use skull.Fmbuf.{Fmbuf}
use skull.Queue.{
  State, lock, read, Elem, ElemType, elem_read, Buffers, exclusive_mq, rw_pr_mqs, rw_pw_mq, SkQueue,
  Writes, accepts, buffer_pull,
}
use skull.Queue.Buffer.{IsLimit, Holds, Holds-pop, used-lt}
use skull.Queue.Pulling.{place, buffer_pull_lem}
use skull.Queue.View.{is_read_elem, pull_view, written, view_buffers, ValidBuffers}
use skull.Queue.Ops.{pull_buffers}

module _ {T : Type 0} where
  pub written-place : (sz at cnt : ℕ) (es : List (Elem T)) → written (place sz at cnt es) ≡ es
  unfolding place
  written-place sz at cnt [] = refl
  written-place sz at cnt (e ∷ es) = rw (written-place sz at (cnt + 1) es)

  pub span_upto-All_rest :
      (P : Elem T → Type 0) (p : Elem T → Bool) (n : ℕ) (xs : List (Elem T))
      → All P xs
      → All P (span_upto p n xs).1
  unfolding span_upto
  span_upto-All_rest P p zero xs a = a
  span_upto-All_rest P p (suc n) [] a = tt
  span_upto-All_rest P p (suc n) (x ∷ xs) a = elim (Bool-cases (p x)) [
    | inl h ↦ rw h (span_upto-All_rest P p n xs a.1)
    | inr h ↦ rw h a
  ]

module _ {B T : Type 0} (fm : Fmbuf B (Elem T)) (q : SkQueue B)
    (l : IsLimit q.elem_sz q.max_slots) where
  -- A pull of at most `n` elements from buffers that stand for `v`.
  unfoldable pub Pulls : State → ℕ → Buffers B → Type 0
  Pulls st n bs =
      (bs' : Buffers B) × (ws : Writes T) × (pull_buffers fm (record q { state = st; data_ = bs })
          bs n
        ≡ ok (record q { state = st; data_ = bs' }, ws))
      × (written ws ≡ (pull_view st n (view_buffers fm bs)).0)
      × (view_buffers fm bs' ≡ (pull_view st n (view_buffers fm bs)).1)
      × ValidBuffers fm q.elem_sz q.max_slots bs'

  pub pull_exclusive_from :
      (st : State) (mq : B) (es : List (Elem T)) (n : ℕ)
      → fm.contents mq ≡ es
      → ValidBuffers fm q.elem_sz q.max_slots (exclusive_mq mq)
      → Pulls st n (exclusive_mq mq)
  unfolding Pulls pull_buffers pull_view
  pull_exclusive_from lock mq es n c v = (exclusive_mq mq, [], refl, refl, refl, v)
  pull_exclusive_from st mq [] n c v = (
    exclusive_mq mq,
    [],
    ground (arith, fm.pop-nil mq q.elem_sz (used-lt fm q.elem_sz q.max_slots mq l.some_size v.0 c)),
    ground (arith, c),
    ground (arith, c),
    v,
  )
  pull_exclusive_from st mq (e ∷ es) n c v =
      let (b', popped, c', u, s) = fm.pop-cons mq q.elem_sz e es v.0.whole c in
      (
        exclusive_mq b',
        (0, e) ∷ [],
        ground (arith, popped),
        ground (arith, c),
        ground (arith, c, c'),
        (Holds-pop fm q.elem_sz q.max_slots mq b' e es v.0 c c' u s, rw c' (rw c at v.1).1),
      )

  -- The pull of reads alone, which both kinds of read-write queue make.
  pub pull_reads :
      (mq : B) (n : ℕ)
      → Holds fm q.elem_sz q.max_slots mq
      → (b' : B) × (buffer_pull fm mq (some elem_read) q.elem_sz 0 n 0
          ≡ ok (b', place q.elem_sz 0 0 (span_upto is_read_elem n (fm.contents mq)).0))
        × (fm.contents b' ≡ (span_upto is_read_elem n (fm.contents mq)).1)
        × Holds fm q.elem_sz q.max_slots b'
  pull_reads mq n h =
      buffer_pull_lem fm (some elem_read) q.elem_sz q.max_slots 0 n 0 mq l.some_size h

  pub pull_rw_pw_read :
      (mq : B) (n : ℕ)
      → ValidBuffers fm q.elem_sz q.max_slots (rw_pw_mq mq)
      → Pulls read n (rw_pw_mq mq)
  unfolding Pulls pull_buffers pull_view
  pull_rw_pw_read mq n (h, a) =
      let (b', got, c, h') = pull_reads mq n h in
      (
        rw_pw_mq b',
        place q.elem_sz 0 0 (span_upto is_read_elem n (fm.contents mq)).0,
        rw got refl,
        written-place q.elem_sz 0 0 _,
        rw c refl,
        (h', rw c (span_upto-All_rest _ is_read_elem n (fm.contents mq) a)),
      )

  pub pull_rw_pr_read :
      (rmq wmq : B) (n : ℕ)
      → ValidBuffers fm q.elem_sz q.max_slots (rw_pr_mqs rmq wmq)
      → Pulls read n (rw_pr_mqs rmq wmq)
  unfolding Pulls pull_buffers pull_view
  pull_rw_pr_read rmq wmq n (hr, hw, ar, aw) =
      let (b', got, c, h') = pull_reads rmq n hr in
      (
        rw_pr_mqs b' wmq,
        place q.elem_sz 0 0 (span_upto is_read_elem n (fm.contents rmq)).0,
        rw got refl,
        written-place q.elem_sz 0 0 _,
        rw c refl,
        (h', hw, rw c (span_upto-All_rest _ is_read_elem n (fm.contents rmq) ar), aw),
      )

  pub pull_one :
      (mq : B) (type : Option ElemType)
      → Holds fm q.elem_sz q.max_slots mq
      → (b' : B) × (buffer_pull fm mq type q.elem_sz 0 1 0
          ≡ ok
              (b', place q.elem_sz 0 0 (span_upto (λ e. accepts type e.type) 1 (fm.contents mq)).0))
        × (fm.contents b' ≡ (span_upto (λ e. accepts type e.type) 1 (fm.contents mq)).1)
        × Holds fm q.elem_sz q.max_slots b'
  pull_one mq type h = buffer_pull_lem fm type q.elem_sz q.max_slots 0 1 0 mq l.some_size h

-- ===== src/Queue/Refine/Push.antt =====
-- `sk_queue_push`, of sk_queue.c, in each of the three modes.
use native.Mathlib.Decide.{dec_le}
use skull.Prelude.{
  ℕ, ◌≡◌, refl, inl, inr, true, List, [], ◌∷◌, ◌++◌, length, All, Bool-cases, ◌==◌, arith,
}
use skull.Prelude.Checked.{ok}
use skull.Fmbuf.{Fmbuf}
use skull.Queue.{Elem, is_read, Buffers, exclusive_mq, rw_pr_mqs, rw_pw_mq, SkQueue, buffer_push}
use skull.Queue.Buffer.{IsLimit, Holds, length-le-max, buffer_push-room, buffer_push-limit}
use skull.Queue.View.{push_list, push_view, fits_mode, view_buffers, ValidBuffers}
use skull.Queue.Ops.{sk_queue_push}

module _ {T : Type 0} where
  pub All-push_list :
      (P : Elem T → Type 0) (max : ℕ) (es : List (Elem T)) (e : Elem T)
      → All P es
      → P e
      → All P (push_list max es e).0
  unfolding push_list
  All-push_list P max es e a p = elim (Bool-cases (length es == max)) [
    | inl full ↦ rw full a
    | inr room ↦ rw room (All-snoc es a)
  ]
    where
      All-snoc : (xs : List (Elem T)) → All P xs → All P (xs ++ e ∷ [])
      All-snoc [] _ = (p, tt)
      All-snoc (x ∷ xs) (px, pxs) = (px, All-snoc xs pxs)

module _ {B T : Type 0} (fm : Fmbuf B (Elem T)) (sz max : ℕ) (l : IsLimit sz max) where
  buffer_push_lem :
      (b : B) (e : Elem T)
      → Holds fm sz max b
      → (b' : B) × (buffer_push fm b max e sz ≡ ok (b', (push_list max (fm.contents b) e).1))
        × (fm.contents b' ≡ (push_list max (fm.contents b) e).0)
        × Holds fm sz max b'
  unfolding push_list
  buffer_push_lem b e h = elim (dec_le max (length (fm.contents b))) [
    | yes p ↦
        let full : length (fm.contents b) ≡ max = omega (arith, length-le-max fm sz max b l h) in
        (b, ground (arith, full, buffer_push-limit fm sz max b l h e full), ground (arith, full), h)
    | no p ↦
        let (b', pushed, c, h') = buffer_push-room fm sz max b l h e (omega arith) in
        (b', ground (arith, pushed, p), ground (arith, c, p), h')
  ]

module _ {B T : Type 0} (fm : Fmbuf B (Elem T)) (q : SkQueue B)
    (l : IsLimit q.elem_sz q.max_slots) where
  pub push_buffers_refines :
      (bs : Buffers B) (e : Elem T)
      → ValidBuffers fm q.elem_sz q.max_slots bs
      → fits_mode bs e ≡ true
      → (bs' : Buffers B) × (sk_queue_push fm (record q { data_ = bs }) e
          ≡ ok (record q { data_ = bs' }, (push_view q.max_slots (view_buffers fm bs) e).1))
        × (view_buffers fm bs' ≡ (push_view q.max_slots (view_buffers fm bs) e).0)
        × ValidBuffers fm q.elem_sz q.max_slots bs'
  unfolding sk_queue_push push_view
  push_buffers_refines (exclusive_mq mq) e (h, a) fits =
      let (b', pushed, c, h') = buffer_push_lem fm q.elem_sz q.max_slots l mq e h in
      (
        exclusive_mq b',
        rw (fits, pushed) refl,
        rw c refl,
        (h', rw c (All-push_list _ q.max_slots (fm.contents mq) e a fits)),
      )
  push_buffers_refines (rw_pr_mqs rmq wmq) e (hr, hw, ar, aw) fits =
      elim (Bool-cases (is_read e.type)) [
        | inl r ↦
            let (b', pushed, c, h) = buffer_push_lem fm q.elem_sz q.max_slots l rmq e hr in
            (
              rw_pr_mqs b' wmq,
              ground (arith, pushed, r),
              ground (arith, c, r),
              (h, hw, rw c (All-push_list _ q.max_slots (fm.contents rmq) e ar r), aw),
            )
        | inr w ↦
            let (b', pushed, c, h) = buffer_push_lem fm q.elem_sz q.max_slots l wmq e hw in
            (
              rw_pr_mqs rmq b',
              ground (arith, pushed, w, fits),
              ground (arith, c, w),
              (
                hr,
                h,
                ar,
                rw c (All-push_list _ q.max_slots (fm.contents wmq) e aw (ground (arith, w, fits))),
              ),
            )
      ]
  push_buffers_refines (rw_pw_mq mq) e (h, a) fits =
      let (b', pushed, c, h') = buffer_push_lem fm q.elem_sz q.max_slots l mq e h in
      (
        rw_pw_mq b',
        rw (fits, pushed) refl,
        rw c refl,
        (h', rw c (All-push_list _ q.max_slots (fm.contents mq) e a fits)),
      )

-- ===== src/Queue/Together.antt =====
-- What the elements that a pull of sk_queue.c gives have in common, and that a read-write queue
-- stays one.
use skull.Prelude.{
  ℕ, suc, ◌≡◌, ◌≢◌, refl, ap, sym, ◌∙◌, ◌⊎◌, inl, inr, Bool, true, false, ◌&&◌, ◌||◌, List, [], ◌∷◌,
  ◌++◌, All, span_upto, span_upto-append, span_upto-All, Bool-cases, append_assoc, arith,
}
use skull.Fmbuf.{Fmbuf}
use skull.Queue.{
  State, idle, read, Elem, is_read, is_write, Buffers, exclusive_mq, rw_pr_mqs, rw_pw_mq, SkQueue,
}
use skull.Queue.View.{
  View, exclusive_view, rw_pr_view, rw_pw_view, is_read_elem, pull_oldest, pull_reads_first,
  push_view, pull_view, IsPullable, fits_mode, view_buffers, view, ValidBuffers,
}

-- A queue of one of the two read-write modes.
abbrev pub IsReadWrite : {B : Type 0} → Buffers B → Type 0
IsReadWrite (exclusive_mq mq) = ⊥
IsReadWrite (rw_pr_mqs rmq wmq) = Unit
IsReadWrite (rw_pw_mq mq) = Unit

module _ {T : Type 0} where
  abbrev pub is_nil : List (Elem T) → Bool
  is_nil [] = true
  is_nil (e ∷ es) = false

  pub is_nil-append : (xs ys : List (Elem T)) → (is_nil xs && is_nil ys) ≡ is_nil (xs ++ ys)
  is_nil-append [] ys = refl
  is_nil-append (x ∷ xs) ys = refl

  -- Only reads, or one write that an idle queue gives alone.
  abbrev pub RunsTogether : State → List (Elem T) → Type 0
  RunsTogether st es =
      All (λ e. is_read e.type ≡ true) es
      ⊎ ((e : Elem T) × (es ≡ e ∷ []) × (is_write e.type ≡ true) × (st ≡ idle))

  -- The elements of a view, those to be pulled first in front.
  abbrev pub all_elems : View T → List (Elem T)
  all_elems (exclusive_view es) = es
  all_elems (rw_pr_view reads writes) = reads ++ writes
  all_elems (rw_pw_view es) = es

  pull_oldest-RunsTogether : (n : ℕ) (es : List (Elem T)) → RunsTogether idle (pull_oldest n es).0
  unfolding pull_oldest
  pull_oldest-RunsTogether n [] = inl tt
  pull_oldest-RunsTogether n (e ∷ es) = elim (Bool-cases (is_write e.type)) [
    | inl w ↦ rw w (inr (e, refl, w, refl))
    | inr r ↦ rw r (inl (span_upto-All is_read_elem n (e ∷ es)))
  ]

  pull_reads_first-RunsTogether :
      (n : ℕ) (rs ws : List (Elem T))
      → All (λ e. is_write e.type ≡ true) ws
      → RunsTogether idle (pull_reads_first n rs ws).0
  unfolding pull_reads_first
  pull_reads_first-RunsTogether n [] [] a = inl tt
  pull_reads_first-RunsTogether n [] (w ∷ ws) (k, a) = inr (w, refl, k, refl)
  pull_reads_first-RunsTogether n (r ∷ rs) ws a = inl (span_upto-All is_read_elem n (r ∷ rs))

  pull_reads_first-append :
      (n : ℕ) (rs ws : List (Elem T))
      → let p = pull_reads_first n rs ws in p.0 ++ p.1 ++ p.2 ≡ rs ++ ws
  unfolding pull_reads_first
  pull_reads_first-append n [] [] = refl
  pull_reads_first-append n [] (w ∷ ws) = refl
  pull_reads_first-append n (r ∷ rs) ws =
      ap (λ es. es ++ ws) (span_upto-append is_read_elem n (r ∷ rs))

  pull_oldest-append :
      (n : ℕ) (es : List (Elem T)) → (pull_oldest n es).0 ++ (pull_oldest n es).1 ≡ es
  unfolding pull_oldest
  pull_oldest-append n [] = refl
  pull_oldest-append n (e ∷ es) = elim (Bool-cases (is_write e.type)) [
    | inl w ↦ rw w refl
    | inr r ↦ rw r (span_upto-append is_read_elem n (e ∷ es))
  ]

  -- An idle queue that holds something gives something.
  pull_oldest-ne-nil :
      (n : ℕ) (es : List (Elem T))
      → All (λ e. (is_read e.type || is_write e.type) ≡ true) es
      → es ≢ []
      → (pull_oldest (suc n) es).0 ≢ []
  unfolding pull_oldest span_upto
  pull_oldest-ne-nil n [] a ne = absurd (ne refl)
  pull_oldest-ne-nil n (e ∷ es) (k, a) ne = ground (arith, k)

  pull_reads_first-ne-nil :
      (n : ℕ) (rs ws : List (Elem T))
      → All (λ e. is_read e.type ≡ true) rs
      → rs ++ ws ≢ []
      → (pull_reads_first (suc n) rs ws).0 ≢ []
  unfolding pull_reads_first span_upto
  pull_reads_first-ne-nil n [] [] a ne = absurd (ne refl)
  pull_reads_first-ne-nil n [] (w ∷ ws) a ne = cc
  pull_reads_first-ne-nil n (r ∷ rs) ws (k, a) ne = rw k cc

module _ {B T : Type 0} (fm : Fmbuf B (Elem T)) (sz max : ℕ) where
  pub pull_view-RunsTogether :
      (st : State) (n : ℕ) (bs : Buffers B)
      → IsReadWrite bs
      → ValidBuffers fm sz max bs
      → RunsTogether st (pull_view st n (view_buffers fm bs)).0
  unfolding pull_view
  pull_view-RunsTogether idle n (rw_pr_mqs rmq wmq) k v =
      pull_reads_first-RunsTogether n (fm.contents rmq) (fm.contents wmq) v.3
  pull_view-RunsTogether read n (rw_pr_mqs rmq wmq) k v =
      inl (span_upto-All is_read_elem n (fm.contents rmq))
  pull_view-RunsTogether st n (rw_pr_mqs rmq wmq) k v = inl tt
  pull_view-RunsTogether idle n (rw_pw_mq mq) k v = pull_oldest-RunsTogether n (fm.contents mq)
  pull_view-RunsTogether read n (rw_pw_mq mq) k v =
      inl (span_upto-All is_read_elem n (fm.contents mq))
  pull_view-RunsTogether st n (rw_pw_mq mq) k v = inl tt
  pull_view-RunsTogether st n (exclusive_mq mq) k v = absurd k

  pub pull_view-append :
      (st : State) (n : ℕ) (bs : Buffers B)
      → IsReadWrite bs
      → let p = pull_view st n (view_buffers fm bs) in
        p.0 ++ all_elems p.1 ≡ all_elems (view_buffers fm bs)
  unfolding pull_view
  pull_view-append idle n (rw_pr_mqs rmq wmq) k =
      let p = pull_reads_first n (fm.contents rmq) (fm.contents wmq) in
      sym (append_assoc p.0 p.1 p.2) ∙ pull_reads_first-append n (fm.contents rmq) (fm.contents wmq)
  pull_view-append read n (rw_pr_mqs rmq wmq) k =
      let p = span_upto is_read_elem n (fm.contents rmq) in
      sym (append_assoc p.0 p.1 (fm.contents wmq))
      ∙ ap (λ es. es ++ fm.contents wmq) (span_upto-append is_read_elem n (fm.contents rmq))
  pull_view-append st n (rw_pr_mqs rmq wmq) k = refl
  pull_view-append idle n (rw_pw_mq mq) k = pull_oldest-append n (fm.contents mq)
  pull_view-append read n (rw_pw_mq mq) k = span_upto-append is_read_elem n (fm.contents mq)
  pull_view-append st n (rw_pw_mq mq) k = refl
  pull_view-append st n (exclusive_mq mq) k = absurd k

  pub pull_view-ne-nil :
      (n : ℕ) (bs : Buffers B)
      → IsReadWrite bs
      → ValidBuffers fm sz max bs
      → all_elems (view_buffers fm bs) ≢ []
      → (pull_view idle (suc n) (view_buffers fm bs)).0 ≢ []
  unfolding pull_view
  pull_view-ne-nil n (rw_pr_mqs rmq wmq) k v ne =
      pull_reads_first-ne-nil n (fm.contents rmq) (fm.contents wmq) v.2 ne
  pull_view-ne-nil n (rw_pw_mq mq) k v ne = pull_oldest-ne-nil n (fm.contents mq) v.1 ne
  pull_view-ne-nil n (exclusive_mq mq) k v ne = absurd k

abbrev pub IsReadWriteView : {T : Type 0} → View T → Type 0
IsReadWriteView (exclusive_view es) = ⊥
IsReadWriteView (rw_pr_view rs ws) = Unit
IsReadWriteView (rw_pw_view es) = Unit

pull_view-IsReadWriteView :
    {T : Type 0} (st : State) (n : ℕ) (v : View T)
    → IsReadWriteView v
    → IsReadWriteView (pull_view st n v).1
unfolding pull_view
pull_view-IsReadWriteView st n (exclusive_view es) k = absurd k
pull_view-IsReadWriteView idle n (rw_pr_view rs ws) k = tt
pull_view-IsReadWriteView read n (rw_pr_view rs ws) k = tt
pull_view-IsReadWriteView st n (rw_pr_view rs ws) k = tt
pull_view-IsReadWriteView idle n (rw_pw_view es) k = tt
pull_view-IsReadWriteView read n (rw_pw_view es) k = tt
pull_view-IsReadWriteView st n (rw_pw_view es) k = tt

push_view-IsReadWriteView :
    {T : Type 0} (max : ℕ) (v : View T) (e : Elem T)
    → IsReadWriteView v
    → IsReadWriteView (push_view max v e).0
unfolding push_view
push_view-IsReadWriteView max (exclusive_view es) e k = absurd k
push_view-IsReadWriteView max (rw_pr_view rs ws) e k = elim (Bool-cases (is_read e.type)) [
  | inl r ↦ rw r tt
  | inr w ↦ rw w tt
]
push_view-IsReadWriteView max (rw_pw_view es) e k = tt

module _ {B T : Type 0} (fm : Fmbuf B (Elem T)) where
  pub to_view : (bs : Buffers B) → IsReadWrite bs → IsReadWriteView (view_buffers fm bs)
  to_view (exclusive_mq mq) k = k
  to_view (rw_pr_mqs rmq wmq) k = tt
  to_view (rw_pw_mq mq) k = tt

  of_view : (bs : Buffers B) → IsReadWriteView (view_buffers fm bs) → IsReadWrite bs
  of_view (exclusive_mq mq) k = k
  of_view (rw_pr_mqs rmq wmq) k = tt
  of_view (rw_pw_mq mq) k = tt

  pub idle-IsPullable : (bs : Buffers B) (st : State) → st ≡ idle → IsPullable bs st
  idle-IsPullable (exclusive_mq mq) st e = tt
  idle-IsPullable (rw_pr_mqs rmq wmq) st e = (λ h. cc, λ h. cc, λ h. cc)
  idle-IsPullable (rw_pw_mq mq) st e = (λ h. cc, λ h. cc, λ h. cc)

  pub fits_read_write :
      (bs : Buffers B) (e : Elem T)
      → IsReadWrite bs
      → (is_read e.type || is_write e.type) ≡ true
      → fits_mode bs e ≡ true
  fits_read_write (exclusive_mq mq) e k h = absurd k
  fits_read_write (rw_pr_mqs rmq wmq) e k h = h
  fits_read_write (rw_pw_mq mq) e k h = h

  -- A read-write queue stays one.
  pub push-IsReadWrite :
      (q q' : SkQueue B) (e : Elem T)
      → view fm q' ≡ (push_view q.max_slots (view fm q) e).0
      → IsReadWrite q.data_
      → IsReadWrite q'.data_
  push-IsReadWrite q q' e c k =
      of_view q'.data_
        (rw c (push_view-IsReadWriteView q.max_slots (view fm q) e (to_view q.data_ k)))

  pub pull-IsReadWrite :
      (q q' : SkQueue B) (st : State) (n : ℕ)
      → view fm q' ≡ (pull_view st n (view fm q)).1
      → IsReadWrite q.data_
      → IsReadWrite q'.data_
  pull-IsReadWrite q q' st n c k =
      of_view q'.data_ (rw c (pull_view-IsReadWriteView st n (view fm q) (to_view q.data_ k)))

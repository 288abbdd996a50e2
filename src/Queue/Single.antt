-- ===== src/Queue/Single.antt =====
-- A pull of one element, the only kind that a service makes.
use Prim.Native.Nat.{min}
use skull.Prelude.{
  ℕ, ◌≤◌, ◌≡◌, ◌≢◌, refl, ap, sym, subst, ◌∙◌, ◌⊎◌, inl, inr, Bool, true, List, [], ◌∷◌, ◌++◌,
  length, span_upto, span_upto-append, length-span_upto, Bool-cases, arith,
}
use skull.Prelude.Checked.{Checked, ok}
use skull.Fmbuf.{Fmbuf}
use skull.Queue.{State, idle, read, write, Elem, is_read, is_write, SkQueue, Writes}
use skull.Queue.View.{
  View, exclusive_view, rw_pr_view, rw_pw_view, is_read_elem, pull_oldest, pull_reads_first,
  pull_view, written, IsPullable, view, IsValid,
}
use skull.Queue.Ops.{sk_queue_pull}
use skull.Queue.Refine.{pull_refines}
use skull.Queue.Together.{
  IsReadWrite, IsReadWriteView, RunsTogether, all_elems, pull_view-RunsTogether, pull_view-append,
  pull_view-ne-nil, pull-IsReadWrite, to_view,
}

module _ {T : Type 0} where
  span_upto-nil :
      (p : Elem T → Bool) (n : ℕ) (xs : List (Elem T))
      → (span_upto p n xs).0 ≡ []
      → (span_upto p n xs).1 ≡ xs
  span_upto-nil p n xs e = subst (λ ys. ys ++ (span_upto p n xs).1 ≡ xs) e (span_upto-append p n xs)

  pull_oldest-nil :
      (n : ℕ) (es : List (Elem T)) → (pull_oldest n es).0 ≡ [] → (pull_oldest n es).1 ≡ es
  unfolding pull_oldest
  pull_oldest-nil n [] e = refl
  pull_oldest-nil n (x ∷ es) e = elim (Bool-cases (is_write x.type)) [
    | inl w ↦ cc (rw w at e)
    | inr r ↦ rw r (span_upto-nil is_read_elem n (x ∷ es) (rw r at e))
  ]

  pull_reads_first-nil :
      (n : ℕ) (rs ws : List (Elem T))
      → (pull_reads_first n rs ws).0 ≡ []
      → rw_pr_view (pull_reads_first n rs ws).1 (pull_reads_first n rs ws).2 ≡ rw_pr_view rs ws
  unfolding pull_reads_first
  pull_reads_first-nil n [] [] e = refl
  pull_reads_first-nil n [] (w ∷ ws) e = cc
  pull_reads_first-nil n (r ∷ rs) ws e =
      ap (λ es. rw_pr_view es ws) (span_upto-nil is_read_elem n (r ∷ rs) e)

  -- A pull that gives nothing changes nothing.
  pull_view-nil :
      (st : State) (n : ℕ) (v : View T)
      → IsReadWriteView v
      → (pull_view st n v).0 ≡ []
      → (pull_view st n v).1 ≡ v
  unfolding pull_view
  pull_view-nil st n (exclusive_view es) k e = absurd k
  pull_view-nil idle n (rw_pr_view rs ws) k e = pull_reads_first-nil n rs ws e
  pull_view-nil read n (rw_pr_view rs ws) k e =
      ap (λ es. rw_pr_view es ws) (span_upto-nil is_read_elem n rs e)
  pull_view-nil st n (rw_pr_view rs ws) k e = refl
  pull_view-nil idle n (rw_pw_view es) k e = ap rw_pw_view (pull_oldest-nil n es e)
  pull_view-nil read n (rw_pw_view es) k e = ap rw_pw_view (span_upto-nil is_read_elem n es e)
  pull_view-nil st n (rw_pw_view es) k e = refl

  length-pull_reads_first : (rs ws : List (Elem T)) → length (pull_reads_first 1 rs ws).0 ≤ 1
  unfolding pull_reads_first
  length-pull_reads_first [] [] = omega arith
  length-pull_reads_first [] (w ∷ ws) = omega arith
  length-pull_reads_first (r ∷ rs) ws = length-span_upto is_read_elem 1 (r ∷ rs)

  length-pull_oldest : (es : List (Elem T)) → length (pull_oldest 1 es).0 ≤ 1
  unfolding pull_oldest
  length-pull_oldest [] = omega arith
  length-pull_oldest (e ∷ es) = elim (Bool-cases (is_write e.type)) [
    | inl w ↦ rw w (omega arith)
    | inr r ↦ rw r (length-span_upto is_read_elem 1 (e ∷ es))
  ]

  length-pull_view : (st : State) (v : View T) → IsReadWriteView v → length (pull_view st 1 v).0 ≤ 1
  unfolding pull_view
  length-pull_view st (exclusive_view es) k = absurd k
  length-pull_view idle (rw_pr_view rs ws) k = length-pull_reads_first rs ws
  length-pull_view read (rw_pr_view rs ws) k = length-span_upto is_read_elem 1 rs
  length-pull_view st (rw_pr_view rs ws) k = omega arith
  length-pull_view idle (rw_pw_view es) k = length-pull_oldest es
  length-pull_view read (rw_pw_view es) k = length-span_upto is_read_elem 1 es
  length-pull_view st (rw_pw_view es) k = omega arith

module _ {B T : Type 0} (fm : Fmbuf B (Elem T)) where
  -- Nothing in the queue may start in the state that it is in.
  abbrev pub NothingReady : SkQueue B → Type 0
  NothingReady q = (pull_view q.state 1 (view fm q)).0 ≡ []

  -- What a pull of one element may come to.
  pub data Pulled (q q' : SkQueue B) (r : Checked (SkQueue B × Writes T)) : Type 0 where
    pulled_none : r ≡ ok (q', []) → view fm q' ≡ view fm q → NothingReady q → Pulled q q' r
    pulled_one :
        (at : ℕ) (e : Elem T)
        → r ≡ ok (q', (at, e) ∷ [])
        → all_elems (view fm q) ≡ e ∷ all_elems (view fm q')
        → (is_read e.type ≡ true) ⊎ ((is_write e.type ≡ true) × (q.state ≡ idle))
        → q.state ≢ write
        → Pulled q q' r

  pull_view-write :
      (st : State) (v : View T) → IsReadWriteView v → st ≡ write → (pull_view st 1 v).0 ≡ []
  unfolding pull_view
  pull_view-write st (exclusive_view es) k e = absurd k
  pull_view-write st (rw_pr_view rs ws) k e = rw e refl
  pull_view-write st (rw_pw_view es) k e = rw e refl

  Pulled-cases :
      (q q' : SkQueue B) (ws : Writes T) (es : List (Elem T))
      → sk_queue_pull fm q 1 ≡ ok (q', ws)
      → IsReadWrite q.data_
      → (pull_view q.state 1 (view fm q)).0 ≡ es
      → view fm q' ≡ (pull_view q.state 1 (view fm q)).1
      → written ws ≡ es
      → length es ≤ 1
      → RunsTogether q.state es
      → es ++ all_elems (view fm q') ≡ all_elems (view fm q)
      → Pulled q q' (sk_queue_pull fm q 1)
  Pulled-cases q q' [] es got k p c w len rt app =
      let nil = p ∙ sym w in
      pulled_none got (c ∙ pull_view-nil q.state 1 (view fm q) (to_view fm q.data_ k) nil) nil
  Pulled-cases q q' ((at, e) ∷ []) es got k p c w len rt app =
      pulled_one at e got
        (sym (subst (λ xs. xs ++ all_elems (view fm q') ≡ all_elems (view fm q)) (sym w) app))
        (kind (subst (RunsTogether q.state) (sym w) rt)) busy
    where
      busy : q.state ≢ write
      busy st = let none_given = pull_view-write q.state (view fm q) (to_view fm q.data_ k) st in cc

      kind :
          RunsTogether q.state (e ∷ [])
          → (is_read e.type ≡ true) ⊎ ((is_write e.type ≡ true) × (q.state ≡ idle))
      kind (inl a) = inl a.0
      kind (inr (e', same, wr, i)) =
          let eq : e' ≡ e = cc in inr (subst (λ (x : Elem T). is_write x.type ≡ true) eq wr, i)
  Pulled-cases q q' (x ∷ y ∷ ws) es got k p c w len rt app =
      absurd (omega (arith, len, ap length w))

  -- A pull of one element from a valid read-write queue gives none, and then none may start, or
  -- the one in front: a read, or a write from an idle queue.
  pub pull_single :
      (q : SkQueue B)
      → IsValid fm q
      → IsReadWrite q.data_
      → IsPullable q.data_ q.state
      → (q' : SkQueue B) × Pulled q q' (sk_queue_pull fm q 1)
        × IsValid fm q'
        × IsReadWrite q'.data_
        × (q'.state ≡ q.state)
  pull_single q v k p =
      let (q', ws, got, w, c, v', s) = pull_refines fm q 1 v p (omega arith) in
      let one : min 1 q.max_slots ≡ 1 = omega (arith, v.limit.some_slot) in
      let c1 = rw one at c in
      (
        q',
        Pulled-cases q q' ws (pull_view q.state 1 (view fm q)).0 got k refl c1 (rw one at w)
            (length-pull_view q.state (view fm q) (to_view fm q.data_ k))
            (pull_view-RunsTogether fm q.elem_sz q.max_slots q.state 1 q.data_ k v.buffers)
            (rw c1 (pull_view-append fm q.elem_sz q.max_slots q.state 1 q.data_ k)),
        v',
        pull-IsReadWrite fm q q' q.state 1 c1 k,
        s,
      )

  -- In an idle queue nothing is ready only if there is nothing.
  pub NothingReady-idle :
      (q : SkQueue B)
      → IsValid fm q
      → IsReadWrite q.data_
      → q.state ≡ idle
      → NothingReady q
      → all_elems (view fm q) ≡ []
  NothingReady-idle q v k i none_ready = by_list (all_elems (view fm q)) refl
    where
      by_list : (es : List (Elem T)) → all_elems (view fm q) ≡ es → all_elems (view fm q) ≡ []
      by_list [] e = e
      by_list (x ∷ es) e = absurd (
          pull_view-ne-nil fm q.elem_sz q.max_slots 0 q.data_ k v.buffers (λ n. cc)
            (rw i at none_ready))

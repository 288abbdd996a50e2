-- ===== src/Queue/Laws.antt =====
-- What a pull of sk_queue.c guarantees to a service: who may run together, that an idle queue
-- makes progress, in which order, and where the caller finds the elements.
use Prim.Native.Nat.{min}
use skull.Prelude.{
  ℕ, suc, ◌+◌, ◌-◌, ◌*◌, ◌≤◌, ◌<◌, ◌≡◌, ◌≢◌, refl, ap, ltb, ◌∙◌, true, false, some, List, [], ◌∷◌,
  ◌++◌, length, span_upto, ◌==◌, arith,
}
use skull.Prelude.Checked.{ok}
use skull.Fmbuf.{Fmbuf}
use skull.Queue.{
  idle, read, Elem, elem_read, is_read, Buffers, exclusive_mq, rw_pr_mqs, rw_pw_mq, SkQueue, Writes,
}
use skull.Queue.Buffer.{IsLimit, Holds}
use skull.Queue.Pulling.{place, buffer_pull_lem}
use skull.Queue.View.{pull_view, written, IsPullable, view_buffers, view, ValidBuffers, IsValid}
use skull.Queue.Ops.{sk_queue_pull, pull_buffers, sk_queue_empty}
use skull.Queue.Refine.{pull_refines}
use skull.Queue.Together.{
  IsReadWrite, is_nil, is_nil-append, RunsTogether, all_elems, pull_view-RunsTogether,
  pull_view-append, pull_view-ne-nil, idle-IsPullable,
}

-- A queue that prefers writes, while reads run.
abbrev pub reading : {B : Type 0} → B → ℕ → ℕ → SkQueue B
reading mq sz max = record { state = read; elem_sz = sz; max_slots = max; data_ = rw_pw_mq mq }

module _ {B T : Type 0} (fm : Fmbuf B (Elem T)) where
  -- A pull from a read-write queue gives only reads, or a single write, and that only from an idle
  -- queue; and what it gives followed by what it leaves is what the queue held.
  pub pull_exclusion :
      (q : SkQueue B) (n : ℕ)
      → IsValid fm q
      → IsReadWrite q.data_
      → IsPullable q.data_ q.state
      → 0 < n
      → (q' : SkQueue B) × (ws : Writes T) × (sk_queue_pull fm q n ≡ ok (q', ws))
        × RunsTogether q.state (written ws)
        × (written ws ++ all_elems (view fm q') ≡ all_elems (view fm q))
  pull_exclusion q n v k p pos =
      let (q', ws, got, w, c, v', s) = pull_refines fm q n v p pos in
      (
        q',
        ws,
        got,
        rw w (
            pull_view-RunsTogether fm q.elem_sz q.max_slots q.state (min n q.max_slots) q.data_ k
              v.buffers),
        rw (w, c) (pull_view-append fm q.elem_sz q.max_slots q.state (min n q.max_slots) q.data_ k),
      )

  -- A pull from an idle read-write queue that is not empty gives something.
  pub pull_progress :
      (q : SkQueue B) (n : ℕ)
      → IsValid fm q
      → IsReadWrite q.data_
      → q.state ≡ idle
      → 0 < n
      → all_elems (view fm q) ≢ []
      → (q' : SkQueue B) × (ws : Writes T) × (sk_queue_pull fm q n ≡ ok (q', ws))
        × (written ws ≢ [])
  pull_progress q n v k i pos ne =
      let (q', ws, got, w, c, v', s) =
        pull_refines fm q n v (idle-IsPullable fm q.data_ q.state i) pos in
      (q', ws, got, rw w given)
    where
      given : (pull_view q.state (min n q.max_slots) (view fm q)).0 ≢ []
      given =
          let least : min n q.max_slots ≡ suc (min n q.max_slots - 1) =
            omega (arith, v.limit.some_slot) in
          rw (i, least)
            (pull_view-ne-nil fm q.elem_sz q.max_slots (min n q.max_slots - 1) q.data_ k v.buffers
              ne)

  used-is_nil :
      (sz max : ℕ) (b : B) (es : List (Elem T))
      → 0 < sz
      → Holds fm sz max b
      → fm.contents b ≡ es
      → (fm.used b == 0) ≡ is_nil es
  used-is_nil sz max b es pos h c =
      by_list es (h.whole ∙ ap (λ (xs : List (Elem T)). sz * length xs) c)
    where
      by_list : (xs : List (Elem T)) → fm.used b ≡ sz * length xs → (fm.used b == 0) ≡ is_nil xs
      by_list [] u = ground (arith, u)
      by_list (x ∷ xs) u = let ne : 0 < fm.used b = omega (arith, u, pos) in ground (arith, ne)

  empty-is_nil :
      (q : SkQueue B) (bs : Buffers B)
      → IsLimit q.elem_sz q.max_slots
      → ValidBuffers fm q.elem_sz q.max_slots bs
      → sk_queue_empty fm (record q { data_ = bs }) ≡ is_nil (all_elems (view_buffers fm bs))
  unfolding sk_queue_empty
  empty-is_nil q (exclusive_mq mq) l (h, a) =
      used-is_nil q.elem_sz q.max_slots mq (fm.contents mq) l.some_size h refl
  empty-is_nil q (rw_pw_mq mq) l (h, a) =
      used-is_nil q.elem_sz q.max_slots mq (fm.contents mq) l.some_size h refl
  empty-is_nil q (rw_pr_mqs rmq wmq) l (hr, hw, ar, aw) =
      rw
        (
          used-is_nil q.elem_sz q.max_slots rmq (fm.contents rmq) l.some_size hr refl,
          used-is_nil q.elem_sz q.max_slots wmq (fm.contents wmq) l.some_size hw refl,
        )
        (is_nil-append (fm.contents rmq) (fm.contents wmq))

  -- `sk_queue_empty` tells of a valid queue in any of the three modes whether it holds no element.
  pub sk_queue_empty_lem :
      (q : SkQueue B) → IsValid fm q → sk_queue_empty fm q ≡ is_nil (all_elems (view fm q))
  sk_queue_empty_lem q v = empty-is_nil q q.data_ v.limit v.buffers

  -- The elements that a pull writes after the first do not follow it in the caller's array: of two
  -- reads in front, which a pull of two gives in the state for reads, the second is written four
  -- element sizes behind the first, so it ends past the two elements that the caller has room for.
  pub pull_overruns :
      (mq : B) (sz max : ℕ) (r1 r2 : Elem T) (es : List (Elem T))
      → IsValid fm (reading mq sz max)
      → fm.contents mq ≡ r1 ∷ r2 ∷ es
      → is_read r1.type ≡ true
      → is_read r2.type ≡ true
      → 2 ≤ max
      → (mq' : B) × (sk_queue_pull fm (reading mq sz max) 2
          ≡ ok (reading mq' sz max, (0, r1) ∷ (4 * sz, r2) ∷ []))
        × (2 * sz < 4 * sz + sz)
  unfolding sk_queue_pull pull_buffers place span_upto
  pull_overruns mq sz max r1 r2 es v c k1 k2 two =
      let (b', got, rest, h') =
        buffer_pull_lem fm (some elem_read) sz max 0 2 0 mq v.limit.some_size v.buffers.0 in
      let cap : ltb max 2 ≡ false = ground (arith, two) in
      (b', rw (cap, got, c, k1, k2) (ground arith), omega (arith, v.limit.some_size))

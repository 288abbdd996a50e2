-- ===== src/Queue/Ops.antt =====
-- The functions of src/common/sk_queue.c over whole queues. A pull returns the queue and what it
-- wrote; the count that the code returns is the number of writes.
use skull.Prelude.{
  ℕ, ◌-◌, ◌*◌, ◌/◌, ◌%◌, Bool, true, false, not, ◌&&◌, ◌||◌, Option, none, some, [], ◌∷◌, ◌++◌, ltb,
  ◌==◌, if◌then◌else◌,
}
use skull.Prelude.Checked.{Checked, ok, assert_failed, ◌>>=◌, ◌>>◌, sk_assert}
use skull.Fmbuf.{Fmbuf}
use skull.Queue.{
  Mode, State, idle, lock, read, write, elem_read, elem_write, Elem, is_read, is_write,
  is_exclusive, Buffers, exclusive_mq, rw_pr_mqs, rw_pw_mq, SkQueue, default_write_slots,
  sizeof_elem_base, size_t_mod, Writes, buffer_push, buffer_pull,
}

module _ {B T : Type 0} (fm : Fmbuf B (Elem T)) where
  unfoldable pub create_buffers : Mode → ℕ → ℕ → Buffers B
  create_buffers Mode.exclusive elem_sz init_slots = exclusive_mq (fm.create (elem_sz * init_slots))
  create_buffers Mode.rw_pr elem_sz init_slots =
      rw_pr_mqs (fm.create (elem_sz * init_slots)) (fm.create (elem_sz * default_write_slots))
  create_buffers Mode.rw_pw elem_sz init_slots = rw_pw_mq (fm.create (elem_sz * init_slots))

  -- `none` is the `NULL` for limits that cannot be met.
  unfoldable pub sk_queue_create : Mode → ℕ → ℕ → ℕ → Checked (Option (SkQueue B))
  unfolding create_buffers
  sk_queue_create mode elem_sz init_slots max_slots =
      if max_slots == 0 || ltb max_slots init_slots then ok none else (do
        sk_assert (elem_sz * max_slots % size_t_mod / max_slots == elem_sz)
        ok (
            some (record {
              state = idle;
              elem_sz = elem_sz;
              max_slots = max_slots;
              data_ = create_buffers mode elem_sz init_slots;
            })))

  push_exclusive : SkQueue B → B → Elem T → Checked (SkQueue B × Bool)
  push_exclusive q mq elem = do
    sk_assert (is_exclusive elem.type)
    (mq', full) ← buffer_push fm mq q.max_slots elem q.elem_sz
    ok (record q { data_ = exclusive_mq mq' }, full)

  push_rw_pw : SkQueue B → B → Elem T → Checked (SkQueue B × Bool)
  push_rw_pw q mq elem = do
    sk_assert (is_read elem.type || is_write elem.type)
    (mq', full) ← buffer_push fm mq q.max_slots elem q.elem_sz
    ok (record q { data_ = rw_pw_mq mq' }, full)

  push_rw_pr : SkQueue B → (rmq wmq : B) → Elem T → Checked (SkQueue B × Bool)
  push_rw_pr q rmq wmq elem = do
    sk_assert (is_read elem.type || is_write elem.type)
    elim (is_read elem.type) [
      | true ↦ do
        (mq', full) ← buffer_push fm rmq q.max_slots elem q.elem_sz
        ok (record q { data_ = rw_pr_mqs mq' wmq }, full)
      | false ↦ do
        (mq', full) ← buffer_push fm wmq q.max_slots elem q.elem_sz
        ok (record q { data_ = rw_pr_mqs rmq mq' }, full)
    ]

  push_buffers : SkQueue B → Buffers B → Elem T → Checked (SkQueue B × Bool)
  unfolding push_exclusive push_rw_pw push_rw_pr
  push_buffers q (exclusive_mq mq) elem = push_exclusive q mq elem
  push_buffers q (rw_pr_mqs rmq wmq) elem = push_rw_pr q rmq wmq elem
  push_buffers q (rw_pw_mq mq) elem = push_rw_pw q mq elem

  -- The flag is the return value: `true` is 1, the queue is full.
  unfoldable pub sk_queue_push : SkQueue B → Elem T → Checked (SkQueue B × Bool)
  unfolding push_buffers
  sk_queue_push q elem = push_buffers q q.data_ elem

  pull_exclusive : SkQueue B → State → B → Checked (SkQueue B × Writes T)
  pull_exclusive q lock mq = ok (q, [])
  pull_exclusive q _ mq = elim (fm.pop mq q.elem_sz) [
    | none ↦ ok (q, [])
    | some (popped, mq') ↦ ok (record q { data_ = exclusive_mq mq' }, (0, popped) ∷ [])
  ]

  -- The second pull of an idle queue, after `pulled`.
  pull_more_reads : SkQueue B → (max_slots : ℕ) → B → Writes T → Checked (SkQueue B × Writes T)
  pull_more_reads q max_slots mq [] = ok (record q { data_ = rw_pw_mq mq }, [])
  pull_more_reads q max_slots mq ((at, first) ∷ more) =
      if max_slots == 1 || is_write first.type
      then ok (record q { data_ = rw_pw_mq mq }, (at, first) ∷ more)
      else (do
        sk_assert (is_read first.type)
        (mq', writes) ←
            buffer_pull fm mq (some first.type) q.elem_sz (sizeof_elem_base * (1 * q.elem_sz))
              (max_slots - 1) 0
        ok (record q { data_ = rw_pw_mq mq' }, ((at, first) ∷ more) ++ writes))

  pull_rw_pw : SkQueue B → State → ℕ → B → Checked (SkQueue B × Writes T)
  unfolding pull_more_reads
  pull_rw_pw q idle max_slots mq = do
    (mq', pulled) ← buffer_pull fm mq none q.elem_sz 0 1 0
    pull_more_reads q max_slots mq' pulled
  pull_rw_pw q read max_slots mq = do
    (mq', writes) ← buffer_pull fm mq (some elem_read) q.elem_sz 0 max_slots 0
    ok (record q { data_ = rw_pw_mq mq' }, writes)
  pull_rw_pw q write max_slots mq = ok (q, [])
  pull_rw_pw q _ max_slots mq = assert_failed

  -- Only if there was no read to pull is a write pulled.
  pull_one_write : SkQueue B → (rmq wmq : B) → Writes T → Checked (SkQueue B × Writes T)
  pull_one_write q rmq wmq [] = do
    (wmq', writes) ← buffer_pull fm wmq (some elem_write) q.elem_sz 0 1 0
    ok (record q { data_ = rw_pr_mqs rmq wmq' }, writes)
  pull_one_write q rmq wmq pulled = ok (record q { data_ = rw_pr_mqs rmq wmq }, pulled)

  pull_rw_pr : SkQueue B → State → ℕ → (rmq wmq : B) → Checked (SkQueue B × Writes T)
  unfolding pull_one_write
  pull_rw_pr q idle max_slots rmq wmq = do
    (rmq', pulled) ← buffer_pull fm rmq (some elem_read) q.elem_sz 0 max_slots 0
    pull_one_write q rmq' wmq pulled
  pull_rw_pr q read max_slots rmq wmq = do
    (rmq', writes) ← buffer_pull fm rmq (some elem_read) q.elem_sz 0 max_slots 0
    ok (record q { data_ = rw_pr_mqs rmq' wmq }, writes)
  pull_rw_pr q write max_slots rmq wmq = ok (q, [])
  pull_rw_pr q _ max_slots rmq wmq = assert_failed

  unfoldable pub pull_buffers : SkQueue B → Buffers B → ℕ → Checked (SkQueue B × Writes T)
  unfolding pull_exclusive pull_rw_pw pull_rw_pr
  pull_buffers q (exclusive_mq mq) max_slots = pull_exclusive q q.state mq
  pull_buffers q (rw_pr_mqs rmq wmq) max_slots = pull_rw_pr q q.state max_slots rmq wmq
  pull_buffers q (rw_pw_mq mq) max_slots = pull_rw_pw q q.state max_slots mq

  unfoldable pub sk_queue_pull : SkQueue B → ℕ → Checked (SkQueue B × Writes T)
  unfolding pull_buffers
  sk_queue_pull q max_slots = do
    sk_assert (ltb 0 max_slots)
    pull_buffers q q.data_ (if ltb q.max_slots max_slots then q.max_slots else max_slots)

  buffers_empty : Buffers B → Bool
  buffers_empty (exclusive_mq mq) = fm.used mq == 0
  buffers_empty (rw_pr_mqs rmq wmq) = (fm.used rmq == 0) && (fm.used wmq == 0)
  buffers_empty (rw_pw_mq mq) = fm.used mq == 0

  unfoldable pub sk_queue_empty : SkQueue B → Bool
  unfolding buffers_empty
  sk_queue_empty q = buffers_empty q.data_

abbrev is_lock : State → Bool
is_lock lock = true
is_lock _ = false

abbrev is_idle : State → Bool
is_idle idle = true
is_idle _ = false

-- Which states a queue of the mode may be put in.
settable : {B : Type 0} → Buffers B → State → Bool
settable (exclusive_mq mq) state = is_idle state || is_lock state
settable (rw_pr_mqs rmq wmq) state = not (is_lock state)
settable (rw_pw_mq mq) state = not (is_lock state)

unfoldable pub sk_queue_setstate : {B : Type 0} → SkQueue B → State → Checked (SkQueue B)
unfolding settable
sk_queue_setstate q state = do sk_assert (settable q.data_ state); ok (record q { state = state })

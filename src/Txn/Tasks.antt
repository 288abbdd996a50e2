-- ===== src/Txn/Tasks.antt =====
-- The counters of a transaction tell of its tasks.
use skull.Prelude.{
  ℕ, zero, suc, ◌+◌, ◌%◌, ◌^◌, ◌<◌, ◌≡◌, refl, ap, ◌↔◌, Bool, true, false, ◌&&◌, some, ==_iff, ltb,
  lt→ltb, arith,
}
use skull.Prelude.Checked.{ok}
use skull.Prelude.Int.{pos, inc, dec, is_zero}
use skull.Fhash.{Fhash}
use skull.Service.{TxnTaskStatus, task_running}
use skull.Txn.{TxnTask, Txn}
use skull.Txn.Ops.{
  sk_txn_task_add, sk_txn_task_setcomplete, sk_txn_alltask_complete, sk_txn_module_complete,
  count_cb, uncount_cb,
}
use skull.Txn.Count.{count, counts, bit, count-set, count-set_above, count_zero, count-eq_zero}

abbrev pub is_running_status : TxnTaskStatus → Bool
is_running_status task_running = true
is_running_status _ = false

-- A call that has not returned.
abbrev pub is_running : TxnTask → Bool
is_running t = is_running_status t.status

-- One whose callback the module waits for.
abbrev pub is_waiting : TxnTask → Bool
is_waiting t = is_running t && t.cb

count_cb-bit : (cb : Bool) (n : ℕ) → count_cb cb (pos n) ≡ pos (bit cb + n)
unfolding count_cb inc
count_cb-bit true n = ap pos (omega arith)
count_cb-bit false n = ap pos (omega arith)

uncount_cb-bit : (cb : Bool) (n m : ℕ) → m + bit cb ≡ n → uncount_cb cb (pos n) ≡ pos m
unfolding uncount_cb dec
uncount_cb-bit true zero m h = absurd (omega (arith, h))
uncount_cb-bit true (suc n) m h = ap pos (omega (arith, h))
uncount_cb-bit false n m h = ap pos (omega (arith, h))

module _ {H : Type 0} (fh : Fhash H TxnTask) where
  -- The counters against the table.
  pub record Counted (txn : Txn H) : Type 0 where
    pub total : txn.total_tasks ≡ txn.latest_taskid
    pub running :
        txn.complete_tasks + count fh is_running txn.task_tbl txn.latest_taskid ≡ txn.total_tasks
    pub waiting : txn.pending_tasks ≡ pos (count fh is_waiting txn.task_tbl txn.latest_taskid)

  -- A call that is added is one more that runs, and one to wait for if it has a callback.
  pub sk_txn_task_add_lem :
      (txn : Txn H) (cb : Bool) (now : ℕ)
      → Counted txn
      → suc txn.latest_taskid < 2 ^ 64
      → (txn' : Txn H) × (sk_txn_task_add fh txn cb now ≡ ok (txn', txn.latest_taskid))
        × Counted txn'
        × (fh.get txn'.task_tbl txn.latest_taskid
            ≡ some (record { start = now; finish = 0; cb = cb; status = task_running }))
        × (txn'.latest_taskid ≡ suc txn.latest_taskid)
        × (txn'.state ≡ txn.state)
        × (txn'.workflow_idx ≡ txn.workflow_idx)
  unfolding sk_txn_task_add count counts count_cb inc
  sk_txn_task_add_lem txn cb now c small =
      let task : TxnTask = record { start = now; finish = 0; cb = cb; status = task_running } in
      let tbl = fh.set txn.task_tbl txn.latest_taskid task in
      let next : suc txn.latest_taskid % 2 ^ 64 ≡ suc txn.latest_taskid = omega (arith, small) in
      let room : ltb txn.complete_tasks (suc txn.total_tasks) ≡ true =
        lt→ltb txn.complete_tasks (suc txn.total_tasks) (omega (arith, c.running)) in
      let there : fh.get tbl txn.latest_taskid ≡ some task =
        fh.get-set txn.task_tbl txn.latest_taskid task in
      (
        record txn {
          task_tbl = tbl;
          latest_taskid = suc txn.latest_taskid;
          total_tasks = suc txn.total_tasks;
          pending_tasks = count_cb cb txn.pending_tasks;
        },
        rw (room, next) refl,
        record {
          total = ap suc c.total;
          running =
              rw
                (
                  there,
                  count-set_above fh is_running txn.task_tbl txn.latest_taskid task
                      txn.latest_taskid (omega arith),
                )
                (omega (arith, c.running));
          waiting =
              rw
                (
                  there,
                  count-set_above fh is_waiting txn.task_tbl txn.latest_taskid task
                      txn.latest_taskid (omega arith),
                  c.waiting,
                )
                (count_cb-bit cb (count fh is_waiting txn.task_tbl txn.latest_taskid));
        },
        there,
        refl,
        refl,
        refl,
      )

  -- A call that runs and returns is counted off, whether it was done or refused as busy.
  pub sk_txn_task_setcomplete_lem :
      (txn : Txn H) (k : ℕ) (t : TxnTask) (status : TxnTaskStatus) (now : ℕ)
      → Counted txn
      → k < txn.latest_taskid
      → fh.get txn.task_tbl k ≡ some t
      → is_running t ≡ true
      → is_running_status status ≡ false
      → (txn' : Txn H) × (sk_txn_task_setcomplete fh txn k status now ≡ ok txn')
        × Counted txn'
        × (fh.get txn'.task_tbl k ≡ some (record t { finish = now; status = status }))
        × (txn'.state ≡ txn.state)
        × (txn'.workflow_idx ≡ txn.workflow_idx)
  unfolding sk_txn_task_setcomplete uncount_cb dec
  sk_txn_task_setcomplete_lem txn k t status now c h e r d =
      let t' : TxnTask = record t { finish = now; status = status } in
      let runs = count-set fh is_running txn.task_tbl k t t' txn.latest_taskid h e in
      let waits = count-set fh is_waiting txn.task_tbl k t t' txn.latest_taskid h e in
      let fewer : count fh is_running (fh.set txn.task_tbl k t') txn.latest_taskid + 1
          ≡ count fh is_running txn.task_tbl txn.latest_taskid =
        ground (arith, rw (r, d) at runs) in
      (
        record txn {
          task_tbl = fh.set txn.task_tbl k t';
          complete_tasks = suc txn.complete_tasks;
          pending_tasks = uncount_cb t.cb txn.pending_tasks;
        },
        rw (lt→ltb txn.complete_tasks txn.total_tasks (omega (arith, c.running, fewer)), e) refl,
        record {
          total = c.total;
          running = omega (arith, c.running, fewer);
          waiting = rw c.waiting (
              uncount_cb-bit t.cb (count fh is_waiting txn.task_tbl txn.latest_taskid)
                (count fh is_waiting (fh.set txn.task_tbl k t') txn.latest_taskid)
                (omega (arith, rw (r, d) at waits)));
        },
        fh.get-set txn.task_tbl k t',
        refl,
        refl,
      )

  -- `sk_txn_alltask_complete` tells whether every call has returned.
  pub sk_txn_alltask_complete_lem :
      (txn : Txn H)
      → Counted txn
      → (sk_txn_alltask_complete txn ≡ true) ↔ (
          (k : ℕ) (t : TxnTask)
          → k < txn.latest_taskid
          → fh.get txn.task_tbl k ≡ some t
          → is_running t ≡ false)
  unfolding sk_txn_alltask_complete
  sk_txn_alltask_complete_lem txn c = (
    λ all k t h e.
        count_zero fh is_running txn.task_tbl txn.latest_taskid k t
          (omega (arith, c.running, (==_iff txn.complete_tasks txn.total_tasks).0 all)) h e,
    λ none_runs. (==_iff txn.complete_tasks txn.total_tasks).1 (
        omega
          (arith, c.running, count-eq_zero fh is_running txn.task_tbl txn.latest_taskid none_runs)),
  )

  is_zero_pos : (n : ℕ) → (is_zero (pos n) ≡ true) ↔ (n ≡ 0)
  is_zero_pos zero = (λ h. refl, λ h. refl)
  is_zero_pos (suc n) = (λ h. cc, λ h. absurd (omega (arith, h)))

  -- `sk_txn_module_complete` tells whether every call with a callback has returned.
  pub sk_txn_module_complete_lem :
      (txn : Txn H)
      → Counted txn
      → (sk_txn_module_complete txn ≡ true) ↔ (
          (k : ℕ) (t : TxnTask)
          → k < txn.latest_taskid
          → fh.get txn.task_tbl k ≡ some t
          → is_waiting t ≡ false)
  unfolding sk_txn_module_complete
  sk_txn_module_complete_lem txn c = (
    λ all k t h e.
        count_zero fh is_waiting txn.task_tbl txn.latest_taskid k t
          ((is_zero_pos (count fh is_waiting txn.task_tbl txn.latest_taskid)).0
            (rw c.waiting at all))
          h e,
    λ none_waits. rw c.waiting (
        (is_zero_pos (count fh is_waiting txn.task_tbl txn.latest_taskid)).1
          (count-eq_zero fh is_waiting txn.task_tbl txn.latest_taskid none_waits)),
  )

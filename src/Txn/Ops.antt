-- ===== src/Txn/Ops.antt =====
-- The functions of src/common/sk_txn.c. `now` is what `sk_time_us` gives.
use skull.Prelude.{
  ℕ, suc, ◌-◌, ◌/◌, ◌%◌, ◌^◌, Bool, true, false, not, ◌||◌, Option, none, some, List, [], ◌∷◌, ltb,
  ◌==◌, if◌then◌else◌,
}
use skull.Prelude.Checked.{Checked, ok, assert_failed, ◌>>◌, sk_assert}
use skull.Prelude.Int.{ℤ, pos, negsuc, inc, dec, is_zero}
use skull.Fhash.{Fhash}
use skull.Service.{TxnTaskStatus, task_running}
use skull.Txn.{TxnState, txn_init, txn_error, txn_destroyed, TxnTask, Txn}

abbrev pub is_destroyed : TxnState → Bool
is_destroyed txn_destroyed = true
is_destroyed _ = false

abbrev pub is_error : TxnState → Bool
is_error txn_error = true
is_error _ = false

unfoldable pub count_cb : Bool → ℤ → ℤ
count_cb true n = inc n
count_cb false n = n

unfoldable pub uncount_cb : Bool → ℤ → ℤ
uncount_cb true n = dec n
uncount_cb false n = n

module _ {H : Type 0} where
  unfoldable pub sk_txn_setstate : Txn H → TxnState → Checked (Txn H)
  sk_txn_setstate txn state = do
    sk_assert (not (is_destroyed txn.state) || is_destroyed state)
    ok (record txn { state = state; error = txn.error || is_error state })

  unfoldable pub sk_txn_module_complete : Txn H → Bool
  sk_txn_module_complete txn = is_zero txn.pending_tasks

  unfoldable pub sk_txn_alltask_complete : Txn H → Bool
  sk_txn_alltask_complete txn = txn.complete_tasks == txn.total_tasks

  unfoldable pub sk_txn_next_module : Txn H → Option ℕ × Txn H
  sk_txn_next_module txn = elim txn.workflow_idx [
    | [] ↦ (none, record txn { current = none })
    | m ∷ ms ↦ (some m, record txn { workflow_idx = ms; current = some m })
  ]

  -- `sk_txn_timeout`, for the `timeout` of the workflow's configuration, in milliseconds.
  unfoldable pub sk_txn_timeout : Txn H → ℤ → ℕ → Bool
  sk_txn_timeout txn (pos timeout) now =
      if timeout == 0
      then false
      else if is_error txn.state
      then false
      else ltb timeout ((now - txn.start_time) / 1000)
  sk_txn_timeout txn (negsuc n) now = false

-- `_sk_txn_task_create`; the id is the key in the table.
abbrev pub sk_txn_task_create : (cb : Bool) → (now : ℕ) → TxnTask
sk_txn_task_create cb now = record { start = now; finish = 0; cb = cb; status = task_running }

module _ {H : Type 0} (fh : Fhash H TxnTask) where
  -- `sk_txn_create`, for the modules of the workflow.
  unfoldable pub sk_txn_create : List ℕ → ℕ → Txn H
  sk_txn_create modules now = record {
    state = txn_init;
    error = false;
    task_tbl = fh.create;
    latest_taskid = 0;
    total_tasks = 0;
    complete_tasks = 0;
    pending_tasks = pos 0;
    start_time = now;
    workflow_idx = modules;
    current = none;
  }

  unfoldable pub sk_txn_task_add : Txn H → (cb : Bool) → (now : ℕ) → Checked (Txn H × ℕ)
  sk_txn_task_add txn cb now = do
    let task = sk_txn_task_create cb now
    let total = suc txn.total_tasks
    sk_assert (ltb txn.complete_tasks total)
    ok (
      record txn {
        task_tbl = fh.set txn.task_tbl txn.latest_taskid task;
        latest_taskid = suc txn.latest_taskid % 2 ^ 64;
        total_tasks = total;
        pending_tasks = count_cb cb txn.pending_tasks;
      },
      txn.latest_taskid,
    )

  unfoldable pub sk_txn_task_setcomplete : Txn H → ℕ → TxnTaskStatus → (now : ℕ) → Checked (Txn H)
  sk_txn_task_setcomplete txn task_id status now = do
    sk_assert (ltb txn.complete_tasks txn.total_tasks)
    elim (fh.get txn.task_tbl task_id) [
      | none ↦ assert_failed
      | some task ↦ ok (record txn {
        task_tbl = fh.set txn.task_tbl task_id (record task { finish = now; status = status });
        complete_tasks = suc txn.complete_tasks;
        pending_tasks = uncount_cb task.cb txn.pending_tasks;
      })
    ]

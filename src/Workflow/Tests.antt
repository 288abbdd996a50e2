-- ===== src/Workflow/Tests.antt =====
-- Runs of src/common/sk_txn.c and src/pto/sk_pto_workflow_run.c, and their theorems at a workflow
-- of two modules.
use skull.Prelude.{
  ℕ, ◌^◌, ◌≤◌, ◌<◌, ◌≡◌, ◌⊎◌, refl, true, false, none, some, [], ◌∷◌, ◌++◌, length, ◌==◌,
  if◌then◌else◌, arith,
}
use skull.Prelude.Checked.{ok, assert_failed}
use skull.Prelude.Int.{pos, inc, dec}
use skull.Fhash.{Fhash}
use skull.Fhash.Model.{Table, function_fhash}
use skull.Service.{task_running, task_done}
use skull.Txn.{
  TxnState, txn_running, txn_pending, txn_packed, txn_error, txn_destroyed, TxnTask, Txn,
}
use skull.Txn.Ops.{
  count_cb, uncount_cb, sk_txn_create, sk_txn_task_create, sk_txn_task_setcomplete,
  sk_txn_alltask_complete, sk_txn_timeout,
}
use skull.Txn.Count.{count, counts}
use skull.Txn.Tasks.{Counted, sk_txn_task_setcomplete_lem}
use skull.Entity.{Entity, entity_active, sk_entity_idle}
use skull.Workflow.{Workflow, Event, module_run, module_pack, responded, next_run, World}
use skull.Workflow.Run.{
  last_module, run, run_once, run_state, set_state, run_module, pack_module, after_module,
  add_calls, txn_log_and_destroy, destroy_txn, returned,
}
use skull.Workflow.Inv.{ran, packed, Good, Gone}
use skull.Workflow.Total.{run_lem, run_twice-assert_failed}
use skull.Workflow.Callback.{task_cb_run, task_returned}
use skull.Workflow.Life.{Life, begun, resumed, called_back, packed_once}
use skull.Workflow.Waiting.{deliveries, deliver-not_idle}

abbrev fh : Fhash (Table TxnTask) TxnTask
fh = function_fhash

abbrev th : Fhash (Table ℕ) ℕ
th = function_fhash

-- Neither module makes a call; the second packs five bytes. A transaction may take ten
-- milliseconds.
abbrev calm : Workflow (Table TxnTask)
calm = record {
  modules = 1 ∷ 2 ∷ [];
  timeout = pos 10;
  run = λ m txn. (false, []);
  has_pack = λ m. true;
  pack = λ m txn. (false, 5);
}

-- The first module makes a call with a callback and one without.
abbrev busy : Workflow (Table TxnTask)
busy = record calm { run = λ m txn. (false, if m == 1 then true ∷ false ∷ [] else []) }

-- The microseconds count the readings.
abbrev clock : ℕ → ℕ
clock n = n

abbrev client : Entity (Table ℕ)
client = record {
  concurrent = false;
  txns = th.set th.create 3 3;
  status = entity_active;
  destroy_notxn = false;
  task_cnt = pos 1;
  iqueue = 7 ∷ [];
}

abbrev made : Txn (Table TxnTask)
made = record {
  state = TxnState.txn_init;
  error = false;
  task_tbl = fh.create;
  latest_taskid = 0;
  total_tasks = 0;
  complete_tasks = 0;
  pending_tasks = pos 0;
  start_time = 0;
  workflow_idx = 1 ∷ 2 ∷ [];
  current = none;
}

made_lem : sk_txn_create fh (1 ∷ 2 ∷ []) 0 ≡ made
unfolding sk_txn_create
made_lem = refl

abbrev first : World (Table TxnTask) (Table ℕ)
first = record { id = 3; txn = made; entity = client; events = []; tick = 0 }

abbrev second : World (Table TxnTask) (Table ℕ)
second = record first {
  txn = record made { state = txn_running; workflow_idx = 2 ∷ []; current = some 1 };
  events = module_run 1 ∷ next_run ∷ [];
  tick = 2;
}

abbrev third : World (Table TxnTask) (Table ℕ)
third = record first {
  txn = record made { state = txn_destroyed; workflow_idx = []; current = some 2 };
  entity = record client { txns = (th.del client.txns 3).1; task_cnt = pos 0 };
  events =
      module_run 1
      ∷ next_run
      ∷ module_run 2
      ∷ module_pack 2
      ∷ responded 5
      ∷ Event.txn_destroyed
      ∷ [];
  tick = 5;
}

first_run : run fh th calm clock 5 first ≡ ok second
unfolding run run_once run_state set_state run_module add_calls after_module last_module
first_run = refl

second_run : run fh th calm clock 5 second ≡ ok third
unfolding run run_once run_state set_state run_module add_calls after_module last_module pack_module
    txn_log_and_destroy destroy_txn sk_entity_idle
second_run = refl

made-Counted : Counted fh made
unfolding count
made-Counted = record { total = refl; running = refl; waiting = refl }

first-Good : (wf : Workflow (Table TxnTask)) → wf.modules ≡ 1 ∷ 2 ∷ [] → Good fh th wf first
unfolding ran packed
first-Good wf e = record {
  base = record { counted = made-Counted; held = refl; cnt = (0, refl); in_order = rw e refl };
  packs = refl;
}

calm_few : (m : ℕ) (txn : Txn (Table TxnTask)) → length (calm.run m txn).1 < 2 ^ 63
calm_few m txn = omega arith

calm_last : last_module calm.modules ≡ some 2
unfolding last_module
calm_last = refl

busy_few : (m : ℕ) (txn : Txn (Table TxnTask)) → length (busy.run m txn).1 < 2 ^ 63
busy_few m txn = ground arith

run_lem_example :
    (w' : World (Table TxnTask) (Table ℕ)) × (run fh th busy clock 5 first ≡ ok w')
    × (Good fh th busy w' ⊎ Gone fh th busy w')
run_lem_example =
    run_lem fh th busy clock 2 calm_last busy_few first (first-Good busy refl) (λ e. cc)
      (λ h. omega arith)

-- The calls of `busy` are under way.
abbrev waiting : World (Table TxnTask) (Table ℕ)
waiting = record first {
  txn = record made {
    state = txn_pending;
    task_tbl =
        fh.set (fh.set fh.create 0 (sk_txn_task_create true 2)) 1 (sk_txn_task_create false 3);
    latest_taskid = 2;
    total_tasks = 2;
    pending_tasks = pos 1;
    workflow_idx = 2 ∷ [];
    current = some 1;
  };
  events = module_run 1 ∷ [];
  tick = 4;
}

waiting_run : run fh th busy clock 5 first ≡ ok waiting
unfolding run run_once run_state set_state run_module add_calls after_module last_module count_cb
    inc
waiting_run = refl

-- The callback of the first has failed.
abbrev failed : World (Table TxnTask) (Table ℕ)
failed = record waiting {
  txn = record waiting.txn {
    state = txn_error;
    error = true;
    task_tbl =
        fh.set waiting.txn.task_tbl 0
          (record { start = 2; finish = 4; cb = true; status = task_done });
    complete_tasks = 1;
    pending_tasks = pos 0;
  };
  tick = 5;
}

callback_failed :
    task_cb_run fh th busy clock waiting 0 task_done (record { calls = []; failed = true })
    ≡ ok failed
unfolding task_cb_run task_returned set_state add_calls sk_txn_task_setcomplete uncount_cb dec
callback_failed = refl

abbrev packed_with_error : World (Table TxnTask) (Table ℕ)
packed_with_error = record failed {
  txn = record failed.txn { state = txn_destroyed };
  events = module_run 1 ∷ module_pack 2 ∷ responded 5 ∷ [];
  tick = 7;
}

error_run : run fh th busy clock 5 failed ≡ ok packed_with_error
unfolding run run_once run_state set_state pack_module last_module txn_log_and_destroy
error_run = refl

packed_with_error-Life : Life fh th busy clock first packed_with_error
packed_with_error-Life =
    resumed
      (called_back 0 (sk_txn_task_create true 2) task_done (record { calls = []; failed = true })
        (resumed begun refl (λ h. omega arith) waiting_run) refl (omega arith) refl refl
        (omega arith) callback_failed)
      refl (λ h. omega (arith, h)) error_run

packed_once_example :
    (packed packed_with_error.events ≤ 1)
    × (ran packed_with_error.events ++ packed_with_error.txn.workflow_idx ≡ 1 ∷ 2 ∷ [])
packed_once_example =
    packed_once fh th busy clock 2 calm_last busy_few first packed_with_error (first-Good busy refl)
      (λ q. cc) packed_with_error-Life

-- Packed, with one call of two under way.
abbrev half_done : Txn (Table TxnTask)
half_done = record made {
  state = txn_packed;
  latest_taskid = 2;
  total_tasks = 2;
  complete_tasks = 1;
}

run_twice-assert_failed_example :
    (w' : World (Table TxnTask) (Table ℕ)) × (run fh th busy clock 5
        (record first { txn = half_done })
      ≡ ok w')
    × (w'.txn.state ≡ txn_destroyed)
    × (w'.entity ≡ client)
    × (run fh th busy clock 5 (record w' {
      txn = record half_done { state = txn_destroyed; complete_tasks = 2 };
      tick = 20000;
    })
        ≡ assert_failed)
unfolding sk_txn_timeout
run_twice-assert_failed_example =
    run_twice-assert_failed fh th busy clock (record first { txn = half_done })
      (record half_done { state = txn_destroyed; complete_tasks = 2 }) 20000 refl refl refl late
  where
    late :
        sk_txn_timeout
          (record half_done { state = txn_destroyed; complete_tasks = 2 })
          (pos 10)
          20000
        ≡ true
    late = refl

deliver-not_idle_example :
    (w' : World (Table TxnTask) (Table ℕ)) × (txn_log_and_destroy fh th calm clock first
      ≡ ok (w', returned))
    × (w'.entity.iqueue ≡ 7 ∷ [])
    × (deliveries w'.events ≡ [])
    × (sk_entity_idle w'.entity ≡ true)
unfolding sk_txn_alltask_complete deliveries
deliver-not_idle_example = deliver-not_idle fh th calm clock first refl refl refl none_runs
  where
    none_runs : sk_txn_alltask_complete made ≡ true
    none_runs = refl

abbrev call_made : TxnTask
call_made = record { start = 4; finish = 0; cb = true; status = task_running }

abbrev calling : Txn (Table TxnTask)
calling = record made {
  task_tbl = fh.set fh.create 0 call_made;
  latest_taskid = 1;
  total_tasks = 1;
  pending_tasks = pos 1;
}

calling-Counted : Counted fh calling
unfolding count counts
calling-Counted = record { total = refl; running = refl; waiting = refl }

sk_txn_task_setcomplete_lem_example :
    (txn' : Txn (Table TxnTask)) × (sk_txn_task_setcomplete fh calling 0 task_done 9 ≡ ok txn')
    × Counted fh txn'
    × (fh.get txn'.task_tbl 0 ≡ some (record call_made { finish = 9; status = task_done }))
    × (txn'.state ≡ TxnState.txn_init)
    × (txn'.workflow_idx ≡ 1 ∷ 2 ∷ [])
sk_txn_task_setcomplete_lem_example =
    sk_txn_task_setcomplete_lem fh calling 0 call_made task_done 9 calling-Counted (omega arith)
      refl refl refl

-- ===== src/Workflow/Run.antt =====
-- The functions of src/pto/sk_pto_workflow_run.c. Logs and metrics are left out.
use skull.Prelude.{
  ℕ, zero, suc, Bool, true, false, not, ◌&&◌, ◌||◌, Option, none, some, List, [], ◌∷◌, ◌++◌, map,
  ltb, ◌==◌, if◌then◌else◌,
}
use skull.Prelude.Checked.{Checked, ok, assert_failed, out_of_fuel, ◌>>=◌}
use skull.Prelude.Int.{pos, is_zero}
use skull.Fhash.{Fhash}
use skull.Txn.{
  TxnState, txn_init, txn_unpacked, txn_running, txn_pending, txn_completed, txn_packed, txn_error,
  txn_timeout, txn_destroyed, TxnTask,
}
use skull.Txn.Ops.{
  sk_txn_setstate, sk_txn_module_complete, sk_txn_alltask_complete, sk_txn_next_module,
  sk_txn_timeout, sk_txn_task_add,
}
use skull.Entity.{
  entity_inactive, is_active, sk_entity_mark, sk_entity_txndel, sk_driver_util_deliver,
}
use skull.Workflow.{
  Workflow, Event, module_run, module_pack, responded, next_run, delivered, txn_destroyed,
  entity_destroyed, World,
}

-- `flist_tail`
unfoldable pub last_module : List ℕ → Option ℕ
last_module [] = none
last_module (m ∷ []) = some m
last_module (m ∷ n ∷ ms) = last_module (n ∷ ms)

abbrev pub same_module : Option ℕ → Option ℕ → Bool
same_module none none = true
same_module (some m) (some n) = m == n
same_module _ _ = false

-- What follows a `_run`: the tail call of `_run`, or the return.
pub data Next : Type 0 where
  again returned : Next

module _ {H TH : Type 0} (fh : Fhash H TxnTask) (th : Fhash TH ℕ) (wf : Workflow H)
    (clock : ℕ → ℕ) where
  abbrev emit : World H TH → List Event → World H TH
  emit w es = record w { events = w.events ++ es }

  unfoldable pub set_state : World H TH → TxnState → Checked (World H TH)
  unfolding sk_txn_setstate
  set_state w st = do txn ← sk_txn_setstate w.txn st; ok (record w { txn = txn })

  -- The service calls of a module, one after the other.
  unfoldable pub add_calls : List Bool → World H TH → Checked (World H TH)
  unfolding sk_txn_task_add
  add_calls [] w = ok w
  add_calls (cb ∷ cbs) w = do
    (txn, task_id) ← sk_txn_task_add fh w.txn cb (clock w.tick)
    add_calls cbs (record w { txn = txn; tick = suc w.tick })

  -- `_module_run` after the module's function.
  unfoldable pub after_module : Bool → World H TH → Checked (World H TH × Next)
  unfolding set_state sk_txn_module_complete
  after_module failed w = do
    w1 ← if failed then set_state w txn_error else ok w
    if not (sk_txn_module_complete w1.txn)
        then (if failed
            then ok (w1, returned)
            else (do w2 ← set_state w1 txn_pending; ok (w2, returned)))
        else if failed
        then ok (w1, again)
        else if not (same_module w1.txn.current (last_module wf.modules))
        then ok (emit w1 (next_run ∷ []), returned)
        else (do w2 ← set_state w1 txn_completed; ok (w2, again))

  -- `_module_run`
  unfoldable pub run_module : World H TH → Checked (World H TH × Next)
  unfolding sk_txn_next_module
  run_module w =
      let (found, txn) = sk_txn_next_module w.txn in
      elim found [
        | none ↦ do w' ← set_state (record w { txn = txn }) txn_completed; ok (w', again)
        | some m ↦
            let (failed, calls) = wf.run m txn in
            add_calls calls (emit (record w { txn = txn }) (module_run m ∷ [])) >>= λ w'.
            after_module failed w'
      ]

  -- `_module_pack`, for the last module; where there is none, the code follows a null pointer.
  unfoldable pub pack_module : World H TH → Checked (World H TH × Next)
  unfolding sk_entity_mark
  pack_module w = elim (last_module wf.modules) [
    | none ↦ assert_failed
    | some m ↦ if not (wf.has_pack m) then (do w' ← set_state w txn_packed; ok (w', again)) else (do
      let (failed, bytes) = wf.pack m w.txn
      let entity = if failed then sk_entity_mark w.entity entity_inactive else w.entity
      let out = if bytes == 0 then [] else responded bytes ∷ []
      w' ← set_state (emit (record w { entity = entity }) (module_pack m ∷ out)) txn_packed
      ok (w', again))
  ]

  -- `sk_txn_safe_destroy` and what follows it, once every call has returned.
  unfoldable pub destroy_txn : World H TH → Checked (World H TH × Next)
  unfolding sk_entity_txndel
  destroy_txn w = do
    entity ← sk_entity_txndel th w.entity w.id
    let gone = emit (record w { entity = entity }) (txn_destroyed ∷ [])
    if (not (is_active entity.status) || entity.destroy_notxn) && is_zero entity.task_cnt
        then ok (emit gone (entity_destroyed ∷ []), returned)
        else ok (gone, returned)

  -- `_txn_log_and_destroy`
  unfoldable pub txn_log_and_destroy : World H TH → Checked (World H TH × Next)
  unfolding sk_driver_util_deliver sk_txn_alltask_complete
  txn_log_and_destroy w = do
    w1 ←
        (if sk_txn_alltask_complete w.txn
          then (do
            (entity, sent) ← sk_driver_util_deliver th w.entity (pos 1)
            ok (emit (record w { entity = entity }) (map delivered sent)))
          else ok w)
    if ltb w1.txn.complete_tasks w1.txn.total_tasks then ok (w1, returned) else destroy_txn w1

  -- The switch of `_run`.
  unfoldable pub run_state : TxnState → World H TH → Checked (World H TH × Next)
  run_state txn_init w = do w' ← set_state w txn_running; ok (w', again)
  run_state txn_unpacked w = do w' ← set_state w txn_running; ok (w', again)
  run_state txn_running w = run_module w
  run_state txn_pending w = do w' ← set_state w txn_running; ok (w', again)
  run_state txn_completed w = pack_module w
  run_state txn_packed w = do w' ← set_state w txn_destroyed; txn_log_and_destroy w'
  run_state txn_error w = pack_module w
  run_state txn_timeout w = pack_module w
  run_state txn_destroyed w = txn_log_and_destroy w

  -- `_run` up to its tail call. The state that the switch looks at is the one before the test.
  unfoldable pub run_once : World H TH → Checked (World H TH × Next)
  unfolding sk_txn_timeout
  run_once w = do
    w' ←
        (if sk_txn_timeout w.txn wf.timeout (clock w.tick)
          then set_state (record w { tick = suc w.tick }) txn_timeout
          else ok (record w { tick = suc w.tick }))
    run_state w.txn.state w'

  -- `_run`
  unfoldable pub run : ℕ → World H TH → Checked (World H TH)
  run zero w = out_of_fuel
  run (suc fuel) w = run_once w >>= λ r. elim r.1 [ again ↦ run fuel r.0 | returned ↦ ok r.0 ]

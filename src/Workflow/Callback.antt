-- ===== src/Workflow/Callback.antt =====
-- src/pto/sk_pto_service_task_cb.c, as far as the transaction goes: a call has returned to its
-- caller.
use skull.Prelude.{
  ℕ, suc, ◌+◌, ◌^◌, ◌≤◌, ◌<◌, ◌≡◌, ◌≢◌, refl, ap, sym, subst, ◌∙◌, Bool, true, false, some, List,
  length, ltb, if◌then◌else◌, arith,
}
use skull.Prelude.Checked.{Checked, ok, assert_failed, ◌>>=◌}
use skull.Prelude.Holds.{assert-ok, ok-inj}
use skull.Fhash.{Fhash}
use skull.Service.{TxnTaskStatus, task_running, task_done, task_pending, task_busy}
use skull.Txn.{TxnState, txn_packed, txn_destroyed, txn_error, TxnTask, Txn}
use skull.Txn.Ops.{sk_txn_setstate, sk_txn_task_setcomplete, is_destroyed}
use skull.Txn.Tasks.{is_running, is_running_status, sk_txn_task_setcomplete_lem}
use skull.Workflow.{Workflow, World}
use skull.Workflow.Run.{set_state, add_calls}
use skull.Workflow.Inv.{packed, rank, Packs, Base, Good}
use skull.Workflow.Steps.{into, set_state_lem, Base-into, add_calls_lem}

-- What `sk_service_run_iocall_cb` did: the calls that the module's callback made, and whether it
-- returned an error.
pub record CallbackRet : Type 0 where
  pub calls : List Bool
  pub failed : Bool

module _ {H TH : Type 0} (fh : Fhash H TxnTask) (th : Fhash TH ℕ) (wf : Workflow H)
    (clock : ℕ → ℕ) where
  -- Once the status is `SK_TXN_TASK_DONE` or `SK_TXN_TASK_BUSY`
  unfoldable pub task_returned :
      World H TH → (task_id : ℕ) → TxnTaskStatus → CallbackRet → Checked (World H TH)
  unfolding set_state
  task_returned w task_id task_status ret = do
    txn ← sk_txn_task_setcomplete fh w.txn task_id task_status (clock w.tick)
    w1 ← add_calls fh th wf clock ret.calls (record w { txn = txn; tick = suc w.tick })
    if ret.failed then set_state fh th wf clock w1 txn_error else ok w1

  -- `_run`
  unfoldable pub task_cb_run :
      World H TH → (task_id : ℕ) → TxnTaskStatus → CallbackRet → Checked (World H TH)
  unfolding task_returned
  task_cb_run w task_id task_done ret = task_returned w task_id task_done ret
  task_cb_run w task_id task_busy ret = task_returned w task_id task_busy ret
  task_cb_run w task_id task_running ret = ok w
  task_cb_run w task_id task_pending ret = ok w

  task_ids-kept :
      (txn txn' : Txn H) (k : ℕ) (t : TxnTask) (status : TxnTaskStatus) (now : ℕ)
      → fh.get txn.task_tbl k ≡ some t
      → sk_txn_task_setcomplete fh txn k status now ≡ ok txn'
      → txn'.latest_taskid ≡ txn.latest_taskid
  unfolding sk_txn_task_setcomplete
  task_ids-kept txn txn' k t status now there e =
      let (_, done) = assert-ok (ltb txn.complete_tasks txn.total_tasks) _ txn' e in
      ap (λ (x : Txn H). x.latest_taskid) (sym (ok-inj _ txn' (rw there at done)))

  -- Before the packing nothing has been packed, and the state may change.
  early : (s : TxnState) (n : ℕ) → 2 ≤ rank s → Packs s n → (n ≡ 0) × (is_destroyed s ≡ false)
  early txn_packed n h p = absurd (omega (arith, h))
  early txn_destroyed n h p = absurd (omega (arith, h))
  early TxnState.txn_init n h p = (p, refl)
  early TxnState.txn_unpacked n h p = (p, refl)
  early TxnState.txn_running n h p = (p, refl)
  early TxnState.txn_pending n h p = (p, refl)
  early TxnState.txn_completed n h p = (p, refl)
  early TxnState.txn_error n h p = (p, refl)
  early TxnState.txn_timeout n h p = (p, refl)

  rank_of : (s : TxnState) → s ≢ txn_packed → s ≢ txn_destroyed → 2 ≤ rank s
  rank_of txn_packed u d = absurd (u refl)
  rank_of txn_destroyed u d = absurd (d refl)
  rank_of TxnState.txn_init u d = omega arith
  rank_of TxnState.txn_unpacked u d = omega arith
  rank_of TxnState.txn_running u d = omega arith
  rank_of TxnState.txn_pending u d = omega arith
  rank_of TxnState.txn_completed u d = omega arith
  rank_of TxnState.txn_error u d = omega arith
  rank_of TxnState.txn_timeout u d = omega arith

  module _ (w : World H TH) (k : ℕ) (t : TxnTask) (ret : CallbackRet) (g : Good fh th wf w)
      (there : fh.get w.txn.task_tbl k ≡ some t) (r : is_running t ≡ true)
      (made : k < w.txn.latest_taskid)
      (small : w.txn.latest_taskid + length ret.calls < 2 ^ 64) where
    -- What comes before the callback's error: the task is complete, and its calls are made.
    Called : TxnTaskStatus → Type 0
    Called status =
        (w1 : World H TH) × (task_returned w k status ret
          ≡ (if ret.failed then set_state fh th wf clock w1 txn_error else ok w1))
        × Base fh th wf w1
        × (w1.txn.state ≡ w.txn.state)
        × (w1.events ≡ w.events)

    called : (status : TxnTaskStatus) → is_running_status status ≡ false → Called status
    unfolding task_returned Called
    called status d =
        let (txn, got, c, there', st, idx) =
          sk_txn_task_setcomplete_lem fh w.txn k t status (clock w.tick) g.base.counted made there r
            d in
        let w0 : World H TH = record w { txn = txn; tick = suc w.tick } in
        let b0 : Base fh th wf w0 = record {
          counted = c;
          held = g.base.held;
          cnt = g.base.cnt;
          in_order = rw idx g.base.in_order;
        } in
        let (w1, calls, b1, st1, ev1) =
          add_calls_lem fh th wf clock ret.calls w0 b0
            (omega (arith, small, task_ids-kept w.txn txn k t status (clock w.tick) there got)) in
        (w1, rw (got, calls) refl, b1, st1 ∙ st, ev1)

    finish :
        (w1 : World H TH) (failed : Bool)
        → Base fh th wf w1
        → w1.txn.state ≡ w.txn.state
        → w1.events ≡ w.events
        → (failed ≡ true → 2 ≤ rank w.txn.state)
        → w.txn.state ≢ txn_packed
        → (w' : World H TH) × ((if failed then set_state fh th wf clock w1 txn_error else ok w1)
            ≡ ok w')
          × Good fh th wf w'
          × (w'.txn.state ≢ txn_packed)
    finish w1 true b1 st1 ev1 before u =
        let (none_packed, alive) = early w.txn.state (packed w.events) (before refl) g.packs in
        (
          into fh th wf clock w1 txn_error,
          set_state_lem fh th wf clock w1 txn_error (ap is_destroyed st1 ∙ alive),
          record {
            base = Base-into fh th wf clock w1 txn_error b1;
            packs = ap packed ev1 ∙ none_packed;
          },
          λ q. cc,
        )
    finish w1 false b1 st1 ev1 before u =
        (w1, refl, record { base = b1; packs = rw (st1, ev1) g.packs }, λ q. u (sym st1 ∙ q))

    task_returned_lem :
        (status : TxnTaskStatus)
        → is_running_status status ≡ false
        → (ret.failed ≡ true → 2 ≤ rank w.txn.state)
        → w.txn.state ≢ txn_packed
        → (w' : World H TH) × (task_returned w k status ret ≡ ok w')
          × Good fh th wf w'
          × (w'.txn.state ≢ txn_packed)
    unfolding Called
    task_returned_lem status d before u =
        let (w1, returns, b1, st1, ev1) = called status d in
        let (w', got, good, left) = finish w1 ret.failed b1 st1 ev1 before u in
        (w', returns ∙ got, good, left)

    failing :
        (w1 : World H TH) (failed : Bool)
        → failed ≡ true
        → w1.txn.state ≡ txn_destroyed
        → (if failed then set_state fh th wf clock w1 txn_error else ok w1) ≡ assert_failed
    unfolding set_state sk_txn_setstate
    failing w1 true f gone = rw gone refl
    failing w1 false f gone = cc

    task_returned-destroyed :
        (status : TxnTaskStatus)
        → is_running_status status ≡ false
        → ret.failed ≡ true
        → w.txn.state ≡ txn_destroyed
        → task_returned w k status ret ≡ assert_failed
    unfolding Called
    task_returned-destroyed status d f gone =
        let (w1, returns, b1, st1, ev1) = called status d in
        returns ∙ failing w1 ret.failed f (st1 ∙ gone)

    returned-Good :
        (status : TxnTaskStatus) (w' : World H TH)
        → is_running_status status ≡ false
        → w.txn.state ≢ txn_packed
        → task_returned w k status ret ≡ ok w'
        → Good fh th wf w' × (w'.txn.state ≢ txn_packed)
    returned-Good status w' d u e =
        let (w1, got, good, left) = task_returned_lem status d before u in
        subst (λ x. Good fh th wf x × (x.txn.state ≢ txn_packed)) (ok-inj w1 w' (sym got ∙ e))
          (good, left)
      where
        before : ret.failed ≡ true → 2 ≤ rank w.txn.state
        before f =
            rank_of w.txn.state u (λ gone. absurd (cc (task_returned-destroyed status d f gone, e)))

    -- A call that returns leaves the transaction good, and not in `SK_TXN_PACKED`.
    pub task_cb_run-Good :
        (status : TxnTaskStatus) (w' : World H TH)
        → w.txn.state ≢ txn_packed
        → task_cb_run w k status ret ≡ ok w'
        → Good fh th wf w' × (w'.txn.state ≢ txn_packed)
    unfolding task_cb_run
    task_cb_run-Good task_done w' u e = returned-Good task_done w' refl u e
    task_cb_run-Good task_busy w' u e = returned-Good task_busy w' refl u e
    task_cb_run-Good task_running w' u e =
        subst (λ x. Good fh th wf x × (x.txn.state ≢ txn_packed)) (ok-inj w w' e) (g, u)
    task_cb_run-Good task_pending w' u e =
        subst (λ x. Good fh th wf x × (x.txn.state ≢ txn_packed)) (ok-inj w w' e) (g, u)

-- ===== src/Workflow/Life.antt =====
-- The life of a transaction: runs of src/pto/sk_pto_workflow_run.c and calls that return, in any
-- order.
use skull.Prelude.{
  ℕ, ◌+◌, ◌^◌, ◌≤◌, ◌<◌, ◌≡◌, ◌≢◌, ◌⊎◌, subst, inl, inr, true, false, Bool-cases, some, ◌++◌,
  length, arith,
}
use skull.Prelude.Checked.{ok}
use skull.Fhash.{Fhash}
use skull.Service.{TxnTaskStatus}
use skull.Txn.{TxnState, txn_packed, txn_destroyed, TxnTask, Txn}
use skull.Txn.Ops.{sk_txn_timeout}
use skull.Txn.Tasks.{is_running}
use skull.Workflow.{Workflow, World}
use skull.Workflow.Run.{last_module, run}
use skull.Workflow.Inv.{ran, packed, rank, Packs, Good, Gone}
use skull.Workflow.Total.{run-unpacked, run-assert_failed}
use skull.Workflow.Callback.{CallbackRet, task_cb_run, task_cb_run-Good}

module _ {H TH : Type 0} (fh : Fhash H TxnTask) (th : Fhash TH ℕ) (wf : Workflow H)
    (clock : ℕ → ℕ) where
  -- The entity has the transaction.
  abbrev pub IsHeld : World H TH → Type 0
  IsHeld w = th.get w.entity.txns w.id ≡ some w.id

  pub data Life (w : World H TH) : World H TH → Type 0 where
    begun : Life w w
    -- `SK_PTO_WORKFLOW_RUN`
    resumed :
        {v v' : World H TH}
        → Life w v
        → IsHeld v
        → (3 ≤ rank v.txn.state → v.txn.latest_taskid < 2 ^ 63)
        → run fh th wf clock 5 v ≡ ok v'
        → Life w v'
    -- `SK_PTO_SVC_TASK_CB` of a call under way, whose callback may make calls, and fail.
    called_back :
        {v v' : World H TH} (k : ℕ) (t : TxnTask) (status : TxnTaskStatus) (ret : CallbackRet)
        → Life w v
        → IsHeld v
        → k < v.txn.latest_taskid
        → fh.get v.txn.task_tbl k ≡ some t
        → is_running t ≡ true
        → v.txn.latest_taskid + length ret.calls < 2 ^ 64
        → task_cb_run fh th wf clock v k status ret ≡ ok v'
        → Life w v'

  module _ (m : ℕ) (last : last_module wf.modules ≡ some m)
      (few : (m : ℕ) (txn : Txn H) → length (wf.run m txn).1 < 2 ^ 63) where
    -- Between two runs, and not packed, or destroyed.
    abbrev Left : World H TH → Type 0
    Left v = Good fh th wf v × (v.txn.state ≢ txn_packed) ⊎ Gone fh th wf v

    resumed-Good :
        (v v' : World H TH)
        → Good fh th wf v
        → (3 ≤ rank v.txn.state → v.txn.latest_taskid < 2 ^ 63)
        → run fh th wf clock 5 v ≡ ok v'
        → Left v'
    resumed-Good v v' g small e =
        let (w, got, final) = run-unpacked fh th wf clock m last few v g on_time small in
        let same : w ≡ v' = cc (got, e) in subst Left same final
      where
        on_time :
            v.txn.state ≡ txn_destroyed → sk_txn_timeout v.txn wf.timeout (clock v.tick) ≡ false
        on_time st = elim (Bool-cases (sk_txn_timeout v.txn wf.timeout (clock v.tick))) [
          | inl late ↦ absurd (cc (e, run-assert_failed fh th wf clock v 4 st late))
          | inr early ↦ early
        ]

    still_there :
        (v : World H TH) → IsHeld v → Left v → Good fh th wf v × (v.txn.state ≢ txn_packed)
    still_there v held (inl g) = g
    still_there v held (inr gone) = absurd (cc (held, gone.forgotten))

    Life-Good : (w v : World H TH) → Good fh th wf w → w.txn.state ≢ txn_packed → Life w v → Left v
    Life-Good w v g u begun = inl (g, u)
    Life-Good w v g u (resumed {v = x} life held small e) =
        resumed-Good x v ((still_there x held (Life-Good w x g u life)).0) small e
    Life-Good w v g u (called_back {v = x} k t status ret life held made there r small e) =
        let (kept, unpacked) = still_there x held (Life-Good w x g u life) in
        inl (task_cb_run-Good fh th wf clock x k t ret kept there r made small status v unpacked e)

    packs-le_one : (v : World H TH) → Left v → packed v.events ≤ 1
    packs-le_one v (inl (g, u)) = of_state v.txn.state g.packs
      where
        of_state : (s : TxnState) → Packs s (packed v.events) → packed v.events ≤ 1
        of_state txn_packed p = p
        of_state txn_destroyed p = p
        of_state TxnState.txn_init p = omega (arith, p)
        of_state TxnState.txn_unpacked p = omega (arith, p)
        of_state TxnState.txn_running p = omega (arith, p)
        of_state TxnState.txn_pending p = omega (arith, p)
        of_state TxnState.txn_completed p = omega (arith, p)
        of_state TxnState.txn_error p = omega (arith, p)
        of_state TxnState.txn_timeout p = omega (arith, p)
    packs-le_one v (inr gone) = gone.packs

    ran_order : (v : World H TH) → Left v → ran v.events ++ v.txn.workflow_idx ≡ wf.modules
    ran_order v (inl (g, u)) = g.base.in_order
    ran_order v (inr gone) = gone.in_order

    -- Through the life of a transaction that is not packed at first, however its runs and the returns
    -- of its calls, with what their callbacks do, follow each other: it is packed once at most, and
    -- the modules that have run, followed by those to come, are the modules of the workflow in their
    -- order. The workflow has a module, and the task ids do not wrap.
    pub packed_once :
        (w v : World H TH)
        → Good fh th wf w
        → w.txn.state ≢ txn_packed
        → Life w v
        → (packed v.events ≤ 1) × (ran v.events ++ v.txn.workflow_idx ≡ wf.modules)
    packed_once w v g u life =
        let kept = Life-Good w v g u life in (packs-le_one v kept, ran_order v kept)

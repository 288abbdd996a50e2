-- ===== src/Workflow/Total.antt =====
-- `_run` of src/pto/sk_pto_workflow_run.c returns, and keeps what holds between two runs.
use skull.Prelude.{
  ℕ, zero, suc, ◌^◌, ◌≤◌, ◌<◌, ◌≡◌, ◌≢◌, ◌⊎◌, refl, subst, ap, sym, inl, inr, Bool, true, false,
  ◌||◌, some, length, Bool-cases, ltb, arith,
}
use skull.Prelude.Checked.{ok, assert_failed}
use skull.Fhash.{Fhash}
use skull.Txn.{TxnState, txn_packed, txn_timeout, txn_destroyed, TxnTask, Txn}
use skull.Txn.Ops.{is_error, is_destroyed, sk_txn_timeout, sk_txn_alltask_complete}
use skull.Workflow.{Workflow, World}
use skull.Workflow.Run.{
  returned, last_module, set_state, run_state, run_once, run, txn_log_and_destroy,
}
use skull.Workflow.Inv.{rank, Base, Good, Gone, Result, goes_on, stays, goes, Base-state}
use skull.Workflow.Steps.{into, set_state_lem, run_state_lem}

destroyed_ne : (s : TxnState) → s ≢ txn_destroyed → is_destroyed s ≡ false
destroyed_ne txn_destroyed ne = absurd (ne refl)
destroyed_ne s ne = refl

rank_lt : (s : TxnState) → rank s < 5
rank_lt s = grind arith

module _ {H TH : Type 0} (fh : Fhash H TxnTask) (th : Fhash TH ℕ) (wf : Workflow H)
    (clock : ℕ → ℕ) where
  pub run-assert_failed :
      (w : World H TH) (fuel : ℕ)
      → w.txn.state ≡ txn_destroyed
      → sk_txn_timeout w.txn wf.timeout (clock w.tick) ≡ true
      → run fh th wf clock (suc fuel) w ≡ assert_failed
  unfolding run run_once set_state
  run-assert_failed w fuel st late = ground (arith, late, st)

  run-returned :
      (w w' : World H TH) (fuel : ℕ)
      → run_once fh th wf clock w ≡ ok (w', returned)
      → run fh th wf clock (suc fuel) w ≡ ok w'
  unfolding run
  run-returned w w' fuel e = rw e refl

  -- What a run makes of a packed transaction with a call that has not returned.
  abbrev left_destroyed : World H TH → World H TH
  left_destroyed w = record w {
    txn = record w.txn { state = txn_destroyed; error = (w.txn.error || false) || false };
    tick = suc w.tick;
  }

  or_false : (b : Bool) → (b || false) ≡ b
  or_false true = refl
  or_false false = refl

  run_once-left_destroyed :
      (w : World H TH)
      → w.txn.state ≡ txn_packed
      → ltb w.txn.complete_tasks w.txn.total_tasks ≡ true
      → run_once fh th wf clock w ≡ ok (left_destroyed w, returned)
  unfolding run_once txn_log_and_destroy run_state set_state sk_txn_alltask_complete
  run_once-left_destroyed w st left =
      elim (Bool-cases (sk_txn_timeout w.txn wf.timeout (clock w.tick))) [
        | inl late ↦ ground (arith, late, st, left, or_false w.txn.error)
        | inr early ↦ ground (arith, early, st, left, or_false w.txn.error)
      ]

  -- A packed transaction with a call that has not returned, which can only be one without a
  -- callback: a run leaves it destroyed, and in its entity. If it has timed out by the next run,
  -- which follows when the last call returns, that run fails the assertion of `sk_txn_setstate`.
  pub run_twice-assert_failed :
      (w : World H TH) (later : Txn H) (tick : ℕ)
      → w.txn.state ≡ txn_packed
      → ltb w.txn.complete_tasks w.txn.total_tasks ≡ true
      → later.state ≡ txn_destroyed
      → sk_txn_timeout later wf.timeout (clock tick) ≡ true
      → (w' : World H TH) × (run fh th wf clock 5 w ≡ ok w')
        × (w'.txn.state ≡ txn_destroyed)
        × (w'.entity ≡ w.entity)
        × (run fh th wf clock 5 (record w' { txn = later; tick = tick }) ≡ assert_failed)
  run_twice-assert_failed w later tick st left dead late = (
    left_destroyed w,
    run-returned w (left_destroyed w) 4 (run_once-left_destroyed w st left),
    refl,
    refl,
    run-assert_failed (record w { txn = later; tick = tick }) 4 dead late,
  )

module _ {H TH : Type 0} (fh : Fhash H TxnTask) (th : Fhash TH ℕ) (wf : Workflow H) (clock : ℕ → ℕ)
    (m : ℕ) (last : last_module wf.modules ≡ some m)
    (few : (m : ℕ) (txn : Txn H) → length (wf.run m txn).1 < 2 ^ 63) where
  run_once_lem :
      (w : World H TH)
      → Good fh th wf w
      → (w.txn.state ≡ txn_destroyed → sk_txn_timeout w.txn wf.timeout (clock w.tick) ≡ false)
      → (3 ≤ rank w.txn.state → w.txn.latest_taskid < 2 ^ 63)
      → Result fh th wf (rank w.txn.state) (run_once fh th wf clock w)
  unfolding run_once
  run_once_lem w g on_time small =
      let w1 : World H TH = record w { tick = suc w.tick } in
      let b1 : Base fh th wf w1 =
        Base-state fh th wf w w.txn.state w.txn.error (suc w.tick) g.base in
      elim (Bool-cases (sk_txn_timeout w.txn wf.timeout (clock w.tick))) [
        | inr early ↦ subst (Result fh th wf (rank w.txn.state)) (sym (rw early refl)) (
            run_state_lem fh th wf clock w.txn.state w1 m b1 g.packs (destroyed_ne w.txn.state)
              (λ e. e) (λ ne. ne) small last few)
        | inl late ↦
            let ne : w.txn.state ≢ txn_destroyed = λ e. cc (late, on_time e) in
            let alive : is_destroyed w.txn.state ≡ false = destroyed_ne w.txn.state ne in
            subst (Result fh th wf (rank w.txn.state))
              (sym (rw (late, set_state_lem fh th wf clock w1 txn_timeout alive) refl))
              (run_state_lem fh th wf clock w.txn.state (into fh th wf clock w1 txn_timeout) m
                (Base-state fh th wf w txn_timeout (w.txn.error || is_error txn_timeout)
                  (suc w.tick) g.base)
                g.packs (λ h. refl) (λ e. absurd (ne e)) (λ h q. cc) small last few)
      ]

  run_from :
      (fuel : ℕ) (w : World H TH)
      → rank w.txn.state < fuel
      → Good fh th wf w
      → (w.txn.state ≡ txn_destroyed → sk_txn_timeout w.txn wf.timeout (clock w.tick) ≡ false)
      → (3 ≤ rank w.txn.state → w.txn.latest_taskid < 2 ^ 63)
      → (w' : World H TH) × (run fh th wf clock fuel w ≡ ok w')
        × (Good fh th wf w' × (w'.txn.state ≢ txn_packed) ⊎ Gone fh th wf w')
  unfolding run
  run_from zero w h g on_time small = absurd (omega (arith, h))
  run_from (suc fuel) w h g on_time small = elim (run_once_lem w g on_time small) [
    | stays w1 e g1 u ↦ (w1, rw e refl, inl (g1, u))
    | goes w1 e g1 ↦ (w1, rw e refl, inr g1)
    | goes_on w1 e g1 some_rank less small1 ↦
        let not_last : w1.txn.state ≢ txn_destroyed =
          λ q. absurd (omega (arith, some_rank, ap rank q)) in
        let (w2, got, final) =
          run_from fuel w1 (omega (arith, h, less)) g1 (λ q. absurd (not_last q)) small1 in
        (w2, rw (e, got) refl, final)
  ]

  -- No run ends in `SK_TXN_PACKED`.
  pub run-unpacked :
      (w : World H TH)
      → Good fh th wf w
      → (w.txn.state ≡ txn_destroyed → sk_txn_timeout w.txn wf.timeout (clock w.tick) ≡ false)
      → (3 ≤ rank w.txn.state → w.txn.latest_taskid < 2 ^ 63)
      → (w' : World H TH) × (run fh th wf clock 5 w ≡ ok w')
        × (Good fh th wf w' × (w'.txn.state ≢ txn_packed) ⊎ Gone fh th wf w')
  run-unpacked w g on_time small = run_from 5 w (rank_lt w.txn.state) g on_time small

  -- A run of a transaction between two runs returns within five tail calls and fails no assertion,
  -- unless the transaction is destroyed but not freed and has timed out. It leaves the transaction
  -- between two runs, or frees it. The workflow has a module, and the task ids do not wrap: a module
  -- makes fewer than 2^63 calls, and as many are left before a module is to run.
  pub run_lem :
      (w : World H TH)
      → Good fh th wf w
      → (w.txn.state ≡ txn_destroyed → sk_txn_timeout w.txn wf.timeout (clock w.tick) ≡ false)
      → (3 ≤ rank w.txn.state → w.txn.latest_taskid < 2 ^ 63)
      → (w' : World H TH) × (run fh th wf clock 5 w ≡ ok w') × (Good fh th wf w' ⊎ Gone fh th wf w')
  run_lem w g on_time small =
      let (w', got, kept) = run-unpacked w g on_time small in
      (w', got, elim kept [ inl h ↦ inl h.0 | inr gone ↦ inr gone ])

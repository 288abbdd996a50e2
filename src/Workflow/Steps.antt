-- ===== src/Workflow/Steps.antt =====
-- `_module_run`, `_module_pack` and the switch of `_run`, of src/pto/sk_pto_workflow_run.c.
use skull.Prelude.{
  ℕ, suc, ◌+◌, ◌^◌, ◌≤◌, ◌<◌, ◌≡◌, ◌≢◌, refl, subst, sym, ◌∙◌, inl, inr, Bool, true, false, ◌||◌,
  none, some, List, [], ◌∷◌, ◌++◌, length, append-nil, append_assoc, Bool-cases, if◌then◌else◌,
  ◌==◌, arith,
}
use skull.Prelude.Checked.{ok, ◌>>=◌}
use skull.Fhash.{Fhash}
use skull.Txn.{
  TxnState, txn_init, txn_unpacked, txn_running, txn_pending, txn_completed, txn_packed, txn_error,
  txn_timeout, txn_destroyed, TxnTask, Txn,
}
use skull.Txn.Ops.{is_error, is_destroyed, sk_txn_module_complete}
use skull.Txn.Tasks.{sk_txn_task_add_lem}
use skull.Entity.{entity_inactive, sk_entity_mark}
use skull.Workflow.{Workflow, Event, module_run, module_pack, responded, next_run, World}
use skull.Workflow.Run.{
  again, last_module, same_module, set_state, add_calls, after_module, run_module, pack_module,
  run_state,
}
use skull.Workflow.Inv.{
  ran, packed, ran-append, packed-append, Packs, rank, Base, Result, goes_on, stays, Base-state,
  Base-events,
}
use skull.Workflow.Destroy.{Has, txn_log_and_destroy_lem}

Packs-zero : (s : TxnState) (n : ℕ) → n ≡ 0 → Packs s n
Packs-zero txn_packed n z = omega (arith, z)
Packs-zero txn_destroyed n z = omega (arith, z)
Packs-zero txn_init n z = z
Packs-zero txn_unpacked n z = z
Packs-zero txn_running n z = z
Packs-zero txn_pending n z = z
Packs-zero txn_completed n z = z
Packs-zero txn_error n z = z
Packs-zero txn_timeout n z = z

module _ {H TH : Type 0} (fh : Fhash H TxnTask) (th : Fhash TH ℕ) (wf : Workflow H)
    (clock : ℕ → ℕ) where
  -- A transaction that is not destroyed, in another state.
  abbrev pub into : World H TH → TxnState → World H TH
  into w st = record w { txn = record w.txn { state = st; error = w.txn.error || is_error st } }

  pub set_state_lem :
      (w : World H TH) (st : TxnState)
      → is_destroyed w.txn.state ≡ false
      → set_state fh th wf clock w st ≡ ok (into w st)
  unfolding set_state
  set_state_lem w st alive = rw alive refl

  pub Base-into : (w : World H TH) (st : TxnState) → Base fh th wf w → Base fh th wf (into w st)
  Base-into w st b = Base-state fh th wf w st (w.txn.error || is_error st) w.tick b

  pub add_calls_lem :
      (cbs : List Bool) (w : World H TH)
      → Base fh th wf w
      → w.txn.latest_taskid + length cbs < 2 ^ 64
      → (w' : World H TH) × (add_calls fh th wf clock cbs w ≡ ok w')
        × Base fh th wf w'
        × (w'.txn.state ≡ w.txn.state)
        × (w'.events ≡ w.events)
  unfolding add_calls
  add_calls_lem [] w b small = (w, refl, b, refl, refl)
  add_calls_lem (cb ∷ cbs) w b small =
      let (txn, added, c, there, next, st, idx) =
        sk_txn_task_add_lem fh w.txn cb (clock w.tick) b.counted (omega (arith, small)) in
      let w1 : World H TH = record w { txn = txn; tick = suc w.tick } in
      let b1 : Base fh th wf w1 = record {
        counted = c;
        held = b.held;
        cnt = b.cnt;
        in_order = rw idx b.in_order;
      } in
      let (w', got, b', st', ev) = add_calls_lem cbs w1 b1 (omega (arith, small, next)) in
      (w', rw added got, b', st' ∙ st, ev)

  module _ (w : World H TH) (b : Base fh th wf w) (fresh : packed w.events ≡ 0)
      (alive : is_destroyed w.txn.state ≡ false) (unpacked : w.txn.state ≢ txn_packed) where
    after_module_lem : (failed : Bool) → Result fh th wf 3 (after_module fh th wf clock failed w)
    unfolding after_module ran packed
    after_module_lem true = elim (Bool-cases (sk_txn_module_complete (into w txn_error).txn)) [
      | inl c ↦
          goes_on (into w txn_error) (rw (set_state_lem w txn_error alive, c) refl)
            (record { base = Base-into w txn_error b; packs = fresh }) (omega arith) (omega arith)
            (λ h. absurd (omega (arith, h)))
      | inr c ↦
          stays (into w txn_error) (rw (set_state_lem w txn_error alive, c) refl)
            (record { base = Base-into w txn_error b; packs = fresh }) (λ q. cc)
    ]
    after_module_lem false = elim (Bool-cases (sk_txn_module_complete w.txn)) [
      | inr c ↦
          stays (into w txn_pending) (rw (c, set_state_lem w txn_pending alive) refl)
            (record { base = Base-into w txn_pending b; packs = fresh }) (λ q. cc)
      | inl c ↦ elim (Bool-cases (same_module w.txn.current (last_module wf.modules))) [
        | inl last ↦
            goes_on (into w txn_completed) (rw (c, last, set_state_lem w txn_completed alive) refl)
              (record { base = Base-into w txn_completed b; packs = fresh }) (omega arith)
              (omega arith) (λ h. absurd (omega (arith, h)))
        | inr middle ↦
            stays (record w { events = w.events ++ next_run ∷ [] }) (rw (c, middle) refl)
              (record {
                base = Base-events fh th wf w (next_run ∷ []) refl b;
                packs =
                    Packs-zero w.txn.state _
                      (rw (packed-append w.events (next_run ∷ []), fresh) refl);
              })
              unpacked
      ]
    ]

  -- What `_run` does first of a transaction that is to run.
  resume :
      (w : World H TH)
      → Base fh th wf w
      → packed w.events ≡ 0
      → is_destroyed w.txn.state ≡ false
      → w.txn.latest_taskid < 2 ^ 63
      → Result fh th wf 4 (set_state fh th wf clock w txn_running >>= λ w'. ok (w', again))
  resume w b fresh alive small =
      goes_on (into w txn_running) (rw (set_state_lem w txn_running alive) refl)
        (record { base = Base-into w txn_running b; packs = fresh }) (omega arith) (omega arith)
        (λ h. small)

  run_module_lem :
      (w : World H TH)
      → Base fh th wf w
      → packed w.events ≡ 0
      → is_destroyed w.txn.state ≡ false
      → w.txn.state ≢ txn_packed
      → w.txn.latest_taskid < 2 ^ 63
      → ((m : ℕ) (txn : Txn H) → length (wf.run m txn).1 < 2 ^ 63)
      → Result fh th wf 3 (run_module fh th wf clock w)
  unfolding run_module ran packed
  run_module_lem w b fresh alive unpacked small few = by_rest w.txn.workflow_idx refl
    where
      by_rest :
          (ms : List ℕ) → w.txn.workflow_idx ≡ ms → Result fh th wf 3 (run_module fh th wf clock w)
      by_rest [] none_left =
          let w1 : World H TH = record w {
            txn = record w.txn { workflow_idx = []; current = none };
          } in
          let b1 : Base fh th wf w1 = record {
            counted = record {
              total = b.counted.total;
              running = b.counted.running;
              waiting = b.counted.waiting;
            };
            held = b.held;
            cnt = b.cnt;
            in_order = rw none_left at b.in_order;
          } in
          goes_on (into w1 txn_completed)
            (rw (none_left, set_state_lem w1 txn_completed alive) refl)
            (record { base = Base-into w1 txn_completed b1; packs = fresh }) (omega arith)
            (omega arith) (λ h. absurd (omega (arith, h)))
      by_rest (m ∷ ms) left =
          let txn : Txn H = record w.txn { workflow_idx = ms; current = some m } in
          let w1 : World H TH = record w { txn = txn; events = w.events ++ module_run m ∷ [] } in
          let b1 : Base fh th wf w1 = record {
            counted = record {
              total = b.counted.total;
              running = b.counted.running;
              waiting = b.counted.waiting;
            };
            held = b.held;
            cnt = b.cnt;
            in_order =
                rw
                  (ran-append w.events (module_run m ∷ []), append_assoc (ran w.events) (m ∷ []) ms)
                  (rw left at b.in_order);
          } in
          let (w2, got, b2, st, ev) =
            add_calls_lem (wf.run m txn).1 w1 b1 (omega (arith, small, few m txn)) in
          let fresh2 : packed w2.events ≡ 0 =
            rw (ev, packed-append w.events (module_run m ∷ []), fresh) refl in
          subst (Result fh th wf 3) (sym (rw (left, got) refl)) (
            after_module_lem w2 b2 fresh2 (rw st alive) (λ q. unpacked (sym st ∙ q))
              (wf.run m txn).0)

  pack_module_lem :
      (w : World H TH) (m : ℕ)
      → Base fh th wf w
      → packed w.events ≡ 0
      → is_destroyed w.txn.state ≡ false
      → last_module wf.modules ≡ some m
      → Result fh th wf 2 (pack_module fh th wf clock w)
  unfolding pack_module ran packed sk_entity_mark
  pack_module_lem w m b fresh alive last = elim (Bool-cases (wf.has_pack m)) [
    | inr none_given ↦
        goes_on (into w txn_packed)
          (ground (arith, last, none_given, set_state_lem w txn_packed alive))
          (record { base = Base-into w txn_packed b; packs = omega (arith, fresh) }) (omega arith)
          (omega arith) (λ h. absurd (omega (arith, h)))
    | inl given ↦
        let result : Bool × ℕ = wf.pack m w.txn in
        let out : List Event = if result.1 == 0 then [] else responded result.1 ∷ [] in
        let w1 : World H TH = record w {
          entity = if result.0 then sk_entity_mark w.entity entity_inactive else w.entity;
          events = w.events ++ module_pack m ∷ out;
        } in
        let has : Has th w.id w1.entity = marked result.0 in
        let b1 : Base fh th wf w1 = record {
          counted = b.counted;
          held = has.held;
          cnt = has.cnt;
          in_order =
              rw
                (
                  ran-append w.events (module_pack m ∷ out),
                  ran-out (result.1 == 0) result.1,
                  append-nil (ran w.events),
                )
                b.in_order;
        } in
        let once : packed w1.events ≤ 1 =
          rw (packed-append w.events (module_pack m ∷ out), packed-out (result.1 == 0) result.1)
            (omega (arith, fresh)) in
        goes_on (into w1 txn_packed)
          (ground (arith, last, given, set_state_lem w1 txn_packed alive))
          (record { base = Base-into w1 txn_packed b1; packs = once }) (omega arith) (omega arith)
          (λ h. absurd (omega (arith, h)))
  ]
    where
      marked :
          (f : Bool) → Has th w.id (if f then sk_entity_mark w.entity entity_inactive else w.entity)
      marked true = record { held = b.held; cnt = b.cnt }
      marked false = record { held = b.held; cnt = b.cnt }

      ran-out : (c : Bool) (n : ℕ) → ran (if c then [] else responded n ∷ []) ≡ []
      ran-out true n = refl
      ran-out false n = refl

      packed-out : (c : Bool) (n : ℕ) → packed (if c then [] else responded n ∷ []) ≡ 0
      packed-out true n = refl
      packed-out false n = refl

  -- What the switch of `_run` does of a transaction in the state `s`, which the test for the timeout
  -- may have changed meanwhile unless it was the last one.
  pub run_state_lem :
      (s : TxnState) (w : World H TH) (m : ℕ)
      → Base fh th wf w
      → Packs s (packed w.events)
      → (s ≢ txn_destroyed → is_destroyed w.txn.state ≡ false)
      → (s ≡ txn_destroyed → w.txn.state ≡ txn_destroyed)
      → (s ≢ txn_packed → w.txn.state ≢ txn_packed)
      → (3 ≤ rank s → w.txn.latest_taskid < 2 ^ 63)
      → last_module wf.modules ≡ some m
      → ((m : ℕ) (txn : Txn H) → length (wf.run m txn).1 < 2 ^ 63)
      → Result fh th wf (rank s) (run_state fh th wf clock s w)
  unfolding run_state
  run_state_lem txn_init w m b p alive dead unpacked small last few =
      resume w b p (alive (λ e. cc)) (small (omega arith))
  run_state_lem txn_unpacked w m b p alive dead unpacked small last few =
      resume w b p (alive (λ e. cc)) (small (omega arith))
  run_state_lem txn_pending w m b p alive dead unpacked small last few =
      resume w b p (alive (λ e. cc)) (small (omega arith))
  run_state_lem txn_running w m b p alive dead unpacked small last few =
      run_module_lem w b p (alive (λ e. cc)) (unpacked (λ e. cc)) (small (omega arith)) few
  run_state_lem txn_completed w m b p alive dead unpacked small last few =
      pack_module_lem w m b p (alive (λ e. cc)) last
  run_state_lem txn_error w m b p alive dead unpacked small last few =
      pack_module_lem w m b p (alive (λ e. cc)) last
  run_state_lem txn_timeout w m b p alive dead unpacked small last few =
      pack_module_lem w m b p (alive (λ e. cc)) last
  run_state_lem txn_packed w m b p alive dead unpacked small last few =
      subst (Result fh th wf 1) (sym (rw (set_state_lem w txn_destroyed (alive (λ e. cc))) refl)) (
        txn_log_and_destroy_lem fh th wf clock (into w txn_destroyed) 1
          (Base-into w txn_destroyed b) p refl)
  run_state_lem txn_destroyed w m b p alive dead unpacked small last few =
      txn_log_and_destroy_lem fh th wf clock w 0 b p (dead refl)

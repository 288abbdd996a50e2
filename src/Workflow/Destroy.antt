-- ===== src/Workflow/Destroy.antt =====
-- `_txn_log_and_destroy` of src/pto/sk_pto_workflow_run.c, with `sk_driver_util_deliver`.
use skull.Prelude.{
  ℕ, suc, ◌+◌, ◌≤◌, ◌≡◌, refl, subst, ap, sym, ◌∙◌, inl, inr, Bool, true, false, not, ◌&&◌, ◌||◌,
  some, List, [], ◌∷◌, ◌++◌, map, append-nil, append_assoc, Bool-cases, ltb, if◌then◌else◌, ◌==◌,
  ==_iff, arith,
}
use skull.Prelude.Checked.{ok}
use skull.Prelude.Int.{ℤ, pos, inc, dec, is_zero}
use skull.Fhash.{Fhash}
use skull.Txn.{TxnState, txn_destroyed, TxnTask}
use skull.Txn.Ops.{sk_txn_alltask_complete}
use skull.Entity.{Entity, is_active, sk_entity_idle, deliver_loop, sk_driver_util_deliver}
use skull.Workflow.{Workflow, Event, delivered, txn_destroyed, entity_destroyed, World}
use skull.Workflow.Run.{destroy_txn, txn_log_and_destroy}
use skull.Workflow.Inv.{
  ran, packed, ran-append, packed-append, ran-delivered, packed-delivered, Packs, Base, Gone,
  Result, stays, goes,
}

some_left : (c n r : ℕ) → c + r ≡ n → (c == n) ≡ false → ltb c n ≡ false → ⊥
some_left c n r e other less = ground arith

module _ {TH : Type 0} (th : Fhash TH ℕ) where
  -- An entity that has the transaction `id`.
  pub record Has (id : ℕ) (e : Entity TH) : Type 0 where
    pub held : th.get e.txns id ≡ some id
    pub cnt : (n : ℕ) × (e.task_cnt ≡ pos (suc n))

  add_held : (h : TH) (t id : ℕ) → th.get h id ≡ some id → th.get (th.set h t t) id ≡ some id
  add_held h t id e = elim (Bool-cases (id == t)) [
    | inl same ↦
        let here : id ≡ t = (==_iff id t).0 same in
        ap (λ j. th.get (th.set h t t) j) here ∙ th.get-set h t t ∙ ap (λ j. some j) (sym here)
    | inr other ↦ th.get-set_ne h t id t (λ q. cc (other, (==_iff id t).1 q)) ∙ e
  ]

  deliver_one :
      (id : ℕ) (e : Entity TH) (waiting : List ℕ)
      → e.iqueue ≡ waiting
      → Has id e
      → (e' : Entity TH) × (sent : List ℕ) × (deliver_loop th 1 e ≡ ok (e', sent)) × Has id e'
  unfolding deliver_loop inc
  deliver_one id e [] q h = elim (Bool-cases (sk_entity_idle e)) [
    | inl i ↦ (e, [], ground (arith, i, q), h)
    | inr i ↦ (e, [], ground (arith, i), h)
  ]
  deliver_one id e (t ∷ ts) q h = elim (Bool-cases (sk_entity_idle e)) [
    | inl i ↦ (
      record e { iqueue = ts; txns = th.set e.txns t t; task_cnt = inc e.task_cnt },
      t ∷ [],
      ground (arith, i, q, h.cnt.1),
      record { held = add_held e.txns t id h.held; cnt = (suc h.cnt.0, rw h.cnt.1 refl) },
    )
    | inr i ↦ (e, [], ground (arith, i), h)
  ]

  pub deliver_lem :
      (id : ℕ) (e : Entity TH)
      → Has id e
      → (e' : Entity TH) × (sent : List ℕ) × (sk_driver_util_deliver th e (pos 1) ≡ ok (e', sent))
        × Has id e'
  unfolding sk_driver_util_deliver
  deliver_lem id e h =
      let (e', sent, got, h') = deliver_one id e e.iqueue refl h in
      (e', sent, ap (λ n. deliver_loop th n e) (either e.concurrent) ∙ got, h')
    where
      either : (c : Bool) → ◌≡◌ {A = ℕ} (if c then 1 else 1) 1
      either true = refl
      either false = refl

module _ {H TH : Type 0} (fh : Fhash H TxnTask) (th : Fhash TH ℕ) (wf : Workflow H)
    (clock : ℕ → ℕ) where
  after :
      (w : World H TH) (cnt : ℤ) (es : List Event)
      → ran es ≡ []
      → packed es ≡ 0
      → Base fh th wf w
      → packed w.events ≤ 1
      → sk_txn_alltask_complete w.txn ≡ true
      → Gone fh th wf (record w {
        entity = record w.entity { txns = (th.del w.entity.txns w.id).1; task_cnt = cnt };
        events = w.events ++ es;
      })
  after w cnt es none_ran none_packed b p all = record {
    in_order = rw (ran-append w.events es, none_ran, append-nil (ran w.events)) b.in_order;
    packs = rw (packed-append w.events es, none_packed) (omega (arith, p));
    forgotten = th.get-del w.entity.txns w.id;
    complete = all;
  }

  destroy_txn_lem :
      (w : World H TH) (k : ℕ)
      → Base fh th wf w
      → packed w.events ≤ 1
      → sk_txn_alltask_complete w.txn ≡ true
      → Result fh th wf k (destroy_txn fh th wf clock w)
  unfolding destroy_txn dec ran packed
  destroy_txn_lem w k b p all =
      let gone : World H TH = record w {
        entity = record w.entity { txns = (th.del w.entity.txns w.id).1; task_cnt = pos b.cnt.0 };
        events = w.events ++ txn_destroyed ∷ [];
      } in
      let deleted : (th.del w.entity.txns w.id).0 ≡ some w.id =
        th.del-get w.entity.txns w.id ∙ b.held in
      let same_id : (w.id == w.id) ≡ true = (==_iff w.id w.id).1 refl in
      let gone_ok : Gone fh th wf gone =
        after w (pos b.cnt.0) (txn_destroyed ∷ []) refl refl b p all in
      elim (Bool-cases
        ((not (is_active w.entity.status) || w.entity.destroy_notxn) && is_zero (pos b.cnt.0))) [
          | inl c ↦
              goes
                (record gone { events = (w.events ++ txn_destroyed ∷ []) ++ entity_destroyed ∷ [] })
                (rw (deleted, same_id, b.cnt.1, c) refl)
                (rw (append_assoc w.events (txn_destroyed ∷ []) (entity_destroyed ∷ []))
                  (after w (pos b.cnt.0) (txn_destroyed ∷ entity_destroyed ∷ []) refl refl b p all))
          | inr c ↦ goes gone (rw (deleted, same_id, b.cnt.1, c) refl) gone_ok
        ]

  pub txn_log_and_destroy_lem :
      (w : World H TH) (k : ℕ)
      → Base fh th wf w
      → packed w.events ≤ 1
      → w.txn.state ≡ txn_destroyed
      → Result fh th wf k (txn_log_and_destroy fh th wf clock w)
  unfolding txn_log_and_destroy sk_txn_alltask_complete
  txn_log_and_destroy_lem w k b p st = elim (Bool-cases (sk_txn_alltask_complete w.txn)) [
    | inl all ↦
        let (e, sent, got, h) =
          deliver_lem th w.id w.entity (record { held = b.held; cnt = b.cnt }) in
        let w1 : World H TH = record w { entity = e; events = w.events ++ map delivered sent } in
        let b1 : Base fh th wf w1 = record {
          counted = b.counted;
          held = h.held;
          cnt = h.cnt;
          in_order =
              rw
                (
                  ran-append w.events (map delivered sent),
                  ran-delivered sent,
                  append-nil (ran w.events),
                )
                b.in_order;
        } in
        let p1 : packed w1.events ≤ 1 =
          rw (packed-append w.events (map delivered sent), packed-delivered sent)
            (omega (arith, p)) in
        elim (Bool-cases (ltb w.txn.complete_tasks w.txn.total_tasks)) [
          | inl some_run ↦
              stays w1 (rw (all, got, some_run) refl) (record { base = b1; packs = stay w1 p1 st })
                (λ q. cc (st, q))
          | inr none_runs ↦
              subst (Result fh th wf k) (sym (rw (all, got, none_runs) refl))
                (destroy_txn_lem w1 k b1 p1 all)
        ]
    | inr some_run ↦ elim (Bool-cases (ltb w.txn.complete_tasks w.txn.total_tasks)) [
      | inl more ↦
          stays w (rw (some_run, more) refl) (record { base = b; packs = stay w p st })
            (λ q. cc (st, q))
      | inr less ↦ absurd (stuck some_run less)
    ]
  ]
    where
      stay :
          (v : World H TH)
          → packed v.events ≤ 1
          → v.txn.state ≡ TxnState.txn_destroyed
          → Packs v.txn.state (packed v.events)
      stay v q s = rw s q

      stuck :
          sk_txn_alltask_complete w.txn ≡ false
          → ltb w.txn.complete_tasks w.txn.total_tasks ≡ false
          → ⊥
      stuck some_run less =
          some_left w.txn.complete_tasks w.txn.total_tasks _ b.counted.running some_run less

-- ===== src/Workflow/Inv.antt =====
-- What holds of a transaction between two runs of src/pto/sk_pto_workflow_run.c.
use skull.Prelude.{
  ℕ, suc, ◌+◌, ◌^◌, ◌≤◌, ◌<◌, ◌≡◌, ◌≢◌, refl, ap, Bool, true, none, some, List, [], ◌∷◌, ◌++◌, map,
  append-nil, arith,
}
use skull.Prelude.Checked.{Checked, ok}
use skull.Prelude.Int.{pos}
use skull.Fhash.{Fhash}
use skull.Txn.{
  TxnState, txn_init, txn_unpacked, txn_running, txn_pending, txn_completed, txn_packed, txn_error,
  txn_timeout, txn_destroyed, TxnTask,
}
use skull.Txn.Ops.{sk_txn_alltask_complete}
use skull.Txn.Tasks.{Counted}
use skull.Workflow.{Workflow, Event, module_run, module_pack, delivered, World}
use skull.Workflow.Run.{Next, again, returned}

-- The modules that have run, in order.
unfoldable pub ran : List Event → List ℕ
ran [] = []
ran (module_run m ∷ es) = m ∷ ran es
ran (e ∷ es) = ran es

-- How often the transaction was packed.
unfoldable pub packed : List Event → ℕ
packed [] = 0
packed (module_pack m ∷ es) = suc (packed es)
packed (e ∷ es) = packed es

pub ran-append : (xs ys : List Event) → ran (xs ++ ys) ≡ ran xs ++ ran ys
unfolding ran
ran-append [] ys = refl
ran-append (module_run m ∷ xs) ys = ap (λ ms. m ∷ ms) (ran-append xs ys)
ran-append (module_pack m ∷ xs) ys = ran-append xs ys
ran-append (Event.responded n ∷ xs) ys = ran-append xs ys
ran-append (Event.next_run ∷ xs) ys = ran-append xs ys
ran-append (delivered t ∷ xs) ys = ran-append xs ys
ran-append (Event.txn_destroyed ∷ xs) ys = ran-append xs ys
ran-append (Event.entity_destroyed ∷ xs) ys = ran-append xs ys

pub packed-append : (xs ys : List Event) → packed (xs ++ ys) ≡ packed xs + packed ys
unfolding packed
packed-append [] ys = omega arith
packed-append (module_run m ∷ xs) ys = packed-append xs ys
packed-append (module_pack m ∷ xs) ys = omega (arith, packed-append xs ys)
packed-append (Event.responded n ∷ xs) ys = packed-append xs ys
packed-append (Event.next_run ∷ xs) ys = packed-append xs ys
packed-append (delivered t ∷ xs) ys = packed-append xs ys
packed-append (Event.txn_destroyed ∷ xs) ys = packed-append xs ys
packed-append (Event.entity_destroyed ∷ xs) ys = packed-append xs ys

pub ran-delivered : (ts : List ℕ) → ran (map delivered ts) ≡ []
unfolding ran
ran-delivered [] = refl
ran-delivered (t ∷ ts) = ran-delivered ts

pub packed-delivered : (ts : List ℕ) → packed (map delivered ts) ≡ 0
unfolding packed
packed-delivered [] = refl
packed-delivered (t ∷ ts) = packed-delivered ts

-- A transaction is packed once, before it is in one of the last two states.
abbrev pub Packs : TxnState → ℕ → Type 0
Packs txn_packed n = n ≤ 1
Packs txn_destroyed n = n ≤ 1
Packs _ n = n ≡ 0

-- How many tail calls of `_run` are still to come, at most.
abbrev pub rank : TxnState → ℕ
rank txn_init = 4
rank txn_unpacked = 4
rank txn_pending = 4
rank txn_running = 3
rank txn_completed = 2
rank txn_error = 2
rank txn_timeout = 2
rank txn_packed = 1
rank txn_destroyed = 0

module _ {H TH : Type 0} (fh : Fhash H TxnTask) (th : Fhash TH ℕ) (wf : Workflow H) where
  -- What does not depend on the state of the transaction.
  pub record Base (w : World H TH) : Type 0 where
    pub counted : Counted fh w.txn
    pub held : th.get w.entity.txns w.id ≡ some w.id
    pub cnt : (n : ℕ) × (w.entity.task_cnt ≡ pos (suc n))
    pub in_order : ran w.events ++ w.txn.workflow_idx ≡ wf.modules

  -- Between two runs.
  pub record Good (w : World H TH) : Type 0 where
    pub base : Base w
    pub packs : Packs w.txn.state (packed w.events)

  -- After the transaction was destroyed.
  pub record Gone (w : World H TH) : Type 0 where
    pub in_order : ran w.events ++ w.txn.workflow_idx ≡ wf.modules
    pub packs : packed w.events ≤ 1
    pub forgotten : th.get w.entity.txns w.id ≡ none
    pub complete : sk_txn_alltask_complete w.txn ≡ true

  -- How `_run` goes on: with a tail call, from a state of lower rank, or with a return, after which
  -- the transaction is there or is gone.
  pub data Result (k : ℕ) (r : Checked (World H TH × Next)) : Type 0 where
    goes_on :
        (w : World H TH)
        → r ≡ ok (w, again)
        → Good w
        → 0 < rank w.txn.state
        → rank w.txn.state < k
        → (3 ≤ rank w.txn.state → w.txn.latest_taskid < 2 ^ 63)
        → Result k r
    stays : (w : World H TH) → r ≡ ok (w, returned) → Good w → w.txn.state ≢ txn_packed → Result k r
    goes : (w : World H TH) → r ≡ ok (w, returned) → Gone w → Result k r

  pub Base-state :
      (w : World H TH) (s : TxnState) (b : Bool) (tick : ℕ)
      → Base w
      → Base (record w { txn = record w.txn { state = s; error = b }; tick = tick })
  Base-state w s b tick h = record {
    counted = record {
      total = h.counted.total;
      running = h.counted.running;
      waiting = h.counted.waiting;
    };
    held = h.held;
    cnt = h.cnt;
    in_order = h.in_order;
  }

  -- Events that neither run nor pack a module.
  pub Base-events :
      (w : World H TH) (es : List Event)
      → ran es ≡ []
      → Base w
      → Base (record w { events = w.events ++ es })
  Base-events w es none_ran h = record {
    counted = h.counted;
    held = h.held;
    cnt = h.cnt;
    in_order = rw (ran-append w.events es, none_ran, append-nil (ran w.events)) h.in_order;
  }

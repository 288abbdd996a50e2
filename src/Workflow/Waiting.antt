-- ===== src/Workflow/Waiting.antt =====
-- Transactions that wait in the input queue of an entity whose workflow is not concurrent, when
-- src/pto/sk_pto_workflow_run.c ends the one that ran.
use skull.Prelude.{
  ℕ, ◌≡◌, refl, ap, ◌∙◌, Bool, true, false, not, ◌||◌, some, List, [], ◌∷◌, ◌++◌, append-nil,
  append_assoc, ltb, ◌==◌, ==_iff, arith,
}
use skull.Prelude.Checked.{ok}
use skull.Prelude.Int.{pos, dec}
use skull.Fhash.{Fhash}
use skull.Txn.{TxnTask, Txn}
use skull.Txn.Ops.{sk_txn_alltask_complete}
use skull.Entity.{Entity, is_active, sk_entity_idle, deliver_loop, sk_driver_util_deliver}
use skull.Workflow.{Workflow, Event, delivered, txn_destroyed, entity_destroyed, World}
use skull.Workflow.Run.{returned, destroy_txn, txn_log_and_destroy}

-- The transactions that were delivered.
unfoldable pub deliveries : List Event → List ℕ
deliveries [] = []
deliveries (delivered t ∷ es) = t ∷ deliveries es
deliveries (e ∷ es) = deliveries es

deliveries-append :
    (xs ys : List Event) → deliveries ys ≡ [] → deliveries (xs ++ ys) ≡ deliveries xs
unfolding deliveries
deliveries-append [] ys e = e
deliveries-append (Event.module_run m ∷ xs) ys e = deliveries-append xs ys e
deliveries-append (Event.module_pack m ∷ xs) ys e = deliveries-append xs ys e
deliveries-append (Event.responded n ∷ xs) ys e = deliveries-append xs ys e
deliveries-append (Event.next_run ∷ xs) ys e = deliveries-append xs ys e
deliveries-append (delivered t ∷ xs) ys e = ap (λ ts. t ∷ ts) (deliveries-append xs ys e)
deliveries-append (txn_destroyed ∷ xs) ys e = deliveries-append xs ys e
deliveries-append (entity_destroyed ∷ xs) ys e = deliveries-append xs ys e

complete_lem : (c n : ℕ) → c ≡ n → ltb c n ≡ false
complete_lem c n e = ground arith

all_equal :
    {H : Type 0} (txn : Txn H)
    → sk_txn_alltask_complete txn ≡ true
    → txn.complete_tasks ≡ txn.total_tasks
unfolding sk_txn_alltask_complete
all_equal txn all = (==_iff txn.complete_tasks txn.total_tasks).0 all

module _ {TH : Type 0} (th : Fhash TH ℕ) where
  deliver_none :
      (e : Entity TH)
      → e.concurrent ≡ false
      → e.task_cnt ≡ pos 1
      → sk_driver_util_deliver th e (pos 1) ≡ ok (e, [])
  unfolding sk_driver_util_deliver deliver_loop sk_entity_idle
  deliver_none e c cnt = ground (arith, c, cnt)

module _ {H TH : Type 0} (fh : Fhash H TxnTask) (th : Fhash TH ℕ) (wf : Workflow H)
    (clock : ℕ → ℕ) where
  emptied : World H TH → List Event → World H TH
  emptied w es = record w {
    entity = record w.entity { txns = (th.del w.entity.txns w.id).1; task_cnt = pos 0 };
    events = w.events ++ es;
  }

  -- The events of the end of the transaction and, if the entity goes too, of the entity.
  last_events : Bool → List Event
  last_events true = txn_destroyed ∷ entity_destroyed ∷ []
  last_events false = txn_destroyed ∷ []

  destroy-last :
      (w : World H TH) (g : Bool)
      → w.entity.task_cnt ≡ pos 1
      → th.get w.entity.txns w.id ≡ some w.id
      → (not (is_active w.entity.status) || w.entity.destroy_notxn) ≡ g
      → destroy_txn fh th wf clock w ≡ ok (emptied w (last_events g), returned)
  unfolding destroy_txn dec emptied last_events
  destroy-last w g cnt held e =
      let deleted : (th.del w.entity.txns w.id).0 ≡ some w.id =
        th.del-get w.entity.txns w.id ∙ held in
      let same_id : (w.id == w.id) ≡ true = (==_iff w.id w.id).1 refl in by_fate g e deleted same_id
    where
      by_fate :
          (g : Bool)
          → (not (is_active w.entity.status) || w.entity.destroy_notxn) ≡ g
          → (th.del w.entity.txns w.id).0 ≡ some w.id
          → (w.id == w.id) ≡ true
          → destroy_txn fh th wf clock w ≡ ok (emptied w (last_events g), returned)
      by_fate true e deleted same_id =
          rw
            (
              deleted,
              same_id,
              cnt,
              e,
              append_assoc w.events (txn_destroyed ∷ []) (entity_destroyed ∷ []),
            )
            refl
      by_fate false e deleted same_id = rw (deleted, same_id, cnt, e) refl

  log-destroy :
      (w : World H TH)
      → w.entity.concurrent ≡ false
      → w.entity.task_cnt ≡ pos 1
      → sk_txn_alltask_complete w.txn ≡ true
      → txn_log_and_destroy fh th wf clock w ≡ destroy_txn fh th wf clock w
  unfolding txn_log_and_destroy
  log-destroy w c cnt all =
      rw (all, deliver_none th w.entity c cnt, append-nil w.events, none_left) refl
    where
      none_left : ltb w.txn.complete_tasks w.txn.total_tasks ≡ false
      none_left = complete_lem w.txn.complete_tasks w.txn.total_tasks (all_equal w.txn all)

  -- When the only transaction of an entity ends, and the workflow is not concurrent, what waits in
  -- the input queue is not delivered, though the entity is idle afterwards: it is asked for its
  -- next transaction while it still has the one that ends.
  pub deliver-not_idle :
      (w : World H TH)
      → w.entity.concurrent ≡ false
      → w.entity.task_cnt ≡ pos 1
      → th.get w.entity.txns w.id ≡ some w.id
      → sk_txn_alltask_complete w.txn ≡ true
      → (w' : World H TH) × (txn_log_and_destroy fh th wf clock w ≡ ok (w', returned))
        × (w'.entity.iqueue ≡ w.entity.iqueue)
        × (deliveries w'.events ≡ deliveries w.events)
        × (sk_entity_idle w'.entity ≡ true)
  unfolding emptied last_events sk_entity_idle deliveries
  deliver-not_idle w c cnt held all =
      let g = not (is_active w.entity.status) || w.entity.destroy_notxn in
      (
        emptied w (last_events g),
        log-destroy w c cnt all ∙ destroy-last w g cnt held refl,
        refl,
        deliveries-append w.events (last_events g) (quiet g),
        rw c refl,
      )
    where
      quiet : (g : Bool) → deliveries (last_events g) ≡ []
      quiet true = refl
      quiet false = refl

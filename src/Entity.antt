-- ===== src/Entity.antt =====
-- The part of an entity, src/entities/sk_entity.c, that transactions use: which ones it has, and
-- those that wait in its input queue; and `sk_driver_util_deliver` of src/drivers/sk_driver_utils.c.
-- Transactions are named by numbers.
use skull.Prelude.{
  ℕ, zero, suc, ◌-◌, ◌^◌, Bool, true, false, Option, none, some, List, [], ◌∷◌, ◌++◌, ◌==◌,
  if◌then◌else◌,
}
use skull.Prelude.Checked.{Checked, ok, ◌>>=◌, ◌>>◌, sk_assert}
use skull.Prelude.Int.{ℤ, pos, negsuc, inc, dec}
use skull.Fhash.{Fhash}

-- `sk_entity_status_t`
pub data EntityStatus : Type 0 where
  entity_active entity_inactive entity_dead : EntityStatus

-- `sk_entity_t`. `concurrent` is `workflow->cfg->concurrent`, `destroy_notxn` the flag
-- `SK_ENTITY_F_DESTROY_NOTXN`.
pub record Entity (TH : Type 0) : Type 0 where
  pub concurrent : Bool
  pub txns : TH
  pub status : EntityStatus
  pub destroy_notxn : Bool
  pub task_cnt : ℤ
  pub iqueue : List ℕ

abbrev pub is_active : EntityStatus → Bool
is_active entity_active = true
is_active _ = false

-- `0 < n`
abbrev pub is_positive : ℤ → Bool
is_positive (pos zero) = false
is_positive (pos (suc n)) = true
is_positive (negsuc n) = false

-- `n >= 0`
abbrev pub is_natural : ℤ → Bool
is_natural (pos n) = true
is_natural (negsuc n) = false

module _ {TH : Type 0} where
  unfoldable pub sk_entity_idle : Entity TH → Bool
  sk_entity_idle e = if e.concurrent then true else if is_positive e.task_cnt then false else true

  unfoldable pub sk_entity_iqueue_push : Entity TH → ℕ → Entity TH
  sk_entity_iqueue_push e txn = record e { iqueue = e.iqueue ++ txn ∷ [] }

  unfoldable pub sk_entity_iqueue_pop : Entity TH → Option ℕ × Entity TH
  sk_entity_iqueue_pop e = elim e.iqueue [
    | [] ↦ (none, e)
    | txn ∷ txns ↦ (some txn, record e { iqueue = txns })
  ]

  unfoldable pub sk_entity_mark : Entity TH → EntityStatus → Entity TH
  sk_entity_mark e status = record e { status = status }

abbrev pub same : Option ℕ → ℕ → Bool
same none txn = false
same (some deleted) txn = deleted == txn

module _ {TH : Type 0} (th : Fhash TH ℕ) where
  unfoldable pub sk_entity_txnadd : Entity TH → ℕ → Checked (Entity TH)
  unfolding inc
  sk_entity_txnadd e txn = do
    let cnt = inc e.task_cnt
    sk_assert (is_positive cnt)
    ok (record e { txns = th.set e.txns txn txn; task_cnt = cnt })

  unfoldable pub sk_entity_txndel : Entity TH → ℕ → Checked (Entity TH)
  unfolding dec
  sk_entity_txndel e txn = do
    let deleted = th.del e.txns txn
    sk_assert (same deleted.0 txn)
    let cnt = dec e.task_cnt
    sk_assert (is_natural cnt)
    ok (record e { txns = deleted.1; task_cnt = cnt })

  -- The loop of `sk_driver_util_deliver`, and the transactions to which `SK_PTO_WORKFLOW_RUN` is
  -- sent.
  unfoldable pub deliver_loop : ℕ → Entity TH → Checked (Entity TH × List ℕ)
  unfolding sk_entity_iqueue_pop sk_entity_txnadd
  deliver_loop zero e = ok (e, [])
  deliver_loop (suc n) e = elim (sk_entity_idle e) [
    | false ↦ ok (e, [])
    | true ↦
        let popped = sk_entity_iqueue_pop e in
        elim popped.0 [
          | none ↦ ok (popped.1, [])
          | some txn ↦ do
            e' ← sk_entity_txnadd popped.1 txn
            (e'', sent) ← deliver_loop n e'
            ok (e'', txn ∷ sent)
        ]
  ]

  -- `max` is at most `INT32_MAX`, which stands for no limit.
  unfoldable pub sk_driver_util_deliver : Entity TH → ℤ → Checked (Entity TH × List ℕ)
  unfolding deliver_loop
  sk_driver_util_deliver e max =
      let limit : ℕ = elim max [
        | pos zero ↦ 2 ^ 31 - 1
        | pos (suc n) ↦ suc n
        | negsuc n ↦ 2 ^ 31 - 1
      ] in
      deliver_loop (if e.concurrent then limit else 1) e

-- ===== src/EntityMgr.antt =====
-- The manager of entities, src/components/sk_entity_mgr.c. Entities are named by numbers.
pub mod Clean
pub mod Delete
pub mod Table
pub mod Valid
pub mod Marked
pub mod Frees
pub mod Cleaned
pub mod Reach
pub mod Destroy
mod Tests
use skull.Prelude.{
  ℕ, zero, suc, ◌-◌, Bool, true, false, not, ◌&&◌, ◌||◌, Option, none, some, List, [], ◌∷◌, ◌++◌,
  ◌==◌, ltb, if◌then◌else◌,
}
use skull.Prelude.Checked.{Checked, ok, assert_failed, ◌>>=◌, ◌>>◌, sk_assert}
use skull.Prelude.Int.{ℤ, pos, negsuc, inc, dec}
use skull.Fhash.{Fhash}
use skull.Entity.{EntityStatus, entity_active, entity_inactive, entity_dead}

-- Of an entity what its manager uses. `task_cnt` is never negative; `txns` are its transactions in
-- the order of their table; `data_` tells whether `opt.destroy` has not been called.
pub record Managed : Type 0 where
  pub type : ℕ
  pub status : EntityStatus
  pub task_cnt : ℕ
  pub txns : List ℕ
  pub iqueue : List ℕ
  pub owned : Bool
  pub data_ : Bool

-- `sk_entity_mgr_stat_t`, the counters of the types as a function of the type.
pub record Stat : Type 0 where
  pub total : ℤ
  pub inactive : ℤ
  pub of_type : ℕ → ℤ

pub record EntityMgr (EH : Type 0) : Type 0 where
  pub entity_mgr : EH
  pub inactive_entities : List ℕ
  pub tmp_entities : List ℕ
  pub owner_sched : Option ℕ
  pub stat : Stat

abbrev pub has_tasks : ℕ → Bool
has_tasks zero = false
has_tasks (suc n) = true

abbrev pub is_dead : EntityStatus → Bool
is_dead entity_dead = true
is_dead _ = false

abbrev pub is_inactive : EntityStatus → Bool
is_inactive entity_inactive = true
is_inactive _ = false

-- `++` where `up`, and `--` where not
unfoldable pub step : Bool → ℤ → ℤ
unfolding inc dec
step true n = inc n
step false n = dec n

abbrev pub step_at : Bool → ℕ → (ℕ → ℤ) → ℕ → ℤ
step_at up type counters other = if other == type then step up (counters other) else counters other

-- `_update_stat`, with the value 1 where `up` and -1 where not. There are 13 types.
unfoldable pub update_stat : Stat → ℕ → (inactive up : Bool) → Checked Stat
update_stat s type inactive up =
    let s' : Stat = if inactive then record s { inactive = step up s.inactive } else s in
    if inactive && up then ok s' else (do
      sk_assert (ltb type 13)
      ok (record s' { total = step up s'.total; of_type = step_at up type s'.of_type }))

abbrev pub is_empty : List ℕ → Bool
is_empty [] = true
is_empty (id ∷ ids) = false

-- The loop over the transactions in `sk_entity_destroy`: each takes itself off the count, in
-- `sk_entity_txndel`.
unfoldable pub destroy_txns : List ℕ → ℕ → Checked ℕ
destroy_txns [] task_cnt = ok task_cnt
destroy_txns (txn ∷ txns) task_cnt = do
  sk_assert (has_tasks task_cnt)
  destroy_txns txns (task_cnt - 1)

-- `sk_entity_destroy`: an inactive entity loses what it holds; a dead one is freed, with its
-- transactions. Those of the input queue would take themselves out of the table of transactions,
-- which is freed by then, and in which they are not. The data of its timers, of which nothing is
-- asserted, is left out.
unfoldable pub sk_entity_destroy : Managed → Checked Managed
unfolding destroy_txns
sk_entity_destroy e = do
  sk_assert (is_inactive e.status || is_dead e.status)
  if is_inactive e.status then ok (record e { data_ = false }) else (do
    task_cnt ← destroy_txns e.txns e.task_cnt
    sk_assert (is_empty e.iqueue)
    ok (record e { txns = []; task_cnt = task_cnt }))

module _ {EH : Type 0} (eh : Fhash EH Managed) where
  unfoldable pub sk_entity_mgr_add : EntityMgr EH → ℕ → Managed → Checked (EntityMgr EH)
  unfolding update_stat
  sk_entity_mgr_add mgr id e = do
    sk_assert (not e.owned)
    stat ← update_stat mgr.stat e.type false true
    ok (record mgr {
      entity_mgr = eh.set mgr.entity_mgr id (record e { owned = true });
      stat = stat;
    })

  -- `sk_entity_mgr_del`, of an entity that the manager has.
  unfoldable pub sk_entity_mgr_del : EntityMgr EH → ℕ → Checked (EntityMgr EH)
  unfolding update_stat sk_entity_destroy
  sk_entity_mgr_del mgr id = elim (eh.get mgr.entity_mgr id) [
    | none ↦ assert_failed
    | some e ↦ if is_dead e.status then ok mgr else (do
      e' ← sk_entity_destroy (record e { status = entity_inactive })
      stat ← update_stat mgr.stat e.type true true
      ok (record mgr {
        entity_mgr = eh.set mgr.entity_mgr id (record e' { status = entity_dead });
        inactive_entities = mgr.inactive_entities ++ id ∷ [];
        stat = stat;
      }))
  ]

  -- One entity that is destroyed for good.
  unfoldable pub remove : EntityMgr EH → ℕ → Managed → Checked (EntityMgr EH)
  unfolding update_stat sk_entity_destroy
  remove mgr id e = do
    stat ← update_stat mgr.stat e.type true false
    e' ← sk_entity_destroy e
    ok (record mgr { entity_mgr = (eh.del mgr.entity_mgr id).1; stat = stat })

  -- The loop of `_cleanup_dead_entities`. An entity that the table does not have would have been
  -- freed before.
  unfoldable pub cleanup_loop : Bool → List ℕ → EntityMgr EH → Checked (EntityMgr EH)
  unfolding remove
  cleanup_loop force [] mgr = ok mgr
  cleanup_loop force (id ∷ ids) mgr = elim (eh.get mgr.entity_mgr id) [
    | none ↦ assert_failed
    | some e ↦ elim (has_tasks e.task_cnt && not force) [
      | true ↦ cleanup_loop force ids (record mgr { tmp_entities = mgr.tmp_entities ++ id ∷ [] })
      | false ↦ remove mgr id e >>= λ mgr'. cleanup_loop force ids mgr'
    ]
  ]

  -- `_cleanup_dead_entities`, which ends with the two lists swapped.
  unfoldable pub cleanup_dead_entities : Bool → EntityMgr EH → Checked (EntityMgr EH)
  unfolding cleanup_loop
  cleanup_dead_entities force mgr = do
    mgr' ← cleanup_loop force mgr.inactive_entities (record mgr { inactive_entities = [] })
    sk_assert (is_empty mgr'.inactive_entities)
    ok (record mgr' { inactive_entities = mgr'.tmp_entities; tmp_entities = [] })

  unfoldable pub sk_entity_mgr_create : EntityMgr EH
  sk_entity_mgr_create = record {
    entity_mgr = eh.create;
    inactive_entities = [];
    tmp_entities = [];
    owner_sched = none;
    stat = record { total = pos 0; inactive = pos 0; of_type = λ type. pos 0 };
  }

  unfoldable pub sk_entity_mgr_setsched : EntityMgr EH → ℕ → Checked (EntityMgr EH)
  sk_entity_mgr_setsched mgr owner_sched = elim mgr.owner_sched [
    | none ↦ ok (record mgr { owner_sched = some owner_sched })
    | some other ↦ assert_failed
  ]

  -- `_mark_dead`, and whether to stop: it never does.
  unfoldable pub mark_dead : EntityMgr EH → ℕ → Checked (EntityMgr EH × Bool)
  unfolding sk_entity_mgr_del
  mark_dead mgr id = do mgr' ← sk_entity_mgr_del mgr id; ok (mgr', false)

  -- For the entities in the order in which the table gives them.
  unfoldable pub sk_entity_mgr_foreach :
      (EntityMgr EH → ℕ → Checked (EntityMgr EH × Bool))
      → List ℕ
      → EntityMgr EH
      → Checked (EntityMgr EH)
  sk_entity_mgr_foreach each_cb [] mgr = ok mgr
  sk_entity_mgr_foreach each_cb (id ∷ ids) mgr = each_cb mgr id >>= λ r. elim r.1 [
    | true ↦ ok r.0
    | false ↦ sk_entity_mgr_foreach each_cb ids r.0
  ]

  -- `sk_entity_mgr_destroy` up to freeing the manager, whose table gives the entities `ids`.
  unfoldable pub sk_entity_mgr_destroy : List ℕ → EntityMgr EH → Checked (EntityMgr EH)
  unfolding sk_entity_mgr_foreach mark_dead cleanup_dead_entities
  sk_entity_mgr_destroy ids mgr = do
    mgr' ← sk_entity_mgr_foreach mark_dead ids mgr
    cleanup_dead_entities true mgr'

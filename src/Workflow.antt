-- ===== src/Workflow.antt =====
-- `SK_PTO_WORKFLOW_RUN`, src/pto/sk_pto_workflow_run.c: a worker takes a transaction through the
-- modules of its workflow. The functions of the modules are parameters, and so is the clock.
pub mod Run
pub mod Inv
pub mod Destroy
pub mod Steps
pub mod Total
pub mod Callback
pub mod Life
pub mod Waiting
mod Tests
use skull.Prelude.{ℕ, Bool, List}
use skull.Prelude.Int.{ℤ}
use skull.Txn.{Txn}
use skull.Entity.{Entity}

-- What the user's code is, and `sk_workflow_cfg_t`.
pub record Workflow (H : Type 0) : Type 0 where
  pub modules : List ℕ
  pub timeout : ℤ
  -- `module->run`: whether it returns an error, and for each service call that it makes whether
  -- it gives a callback.
  pub run : ℕ → Txn H → Bool × List Bool
  -- `module->pack`, if there is one: whether it returns an error, and how many bytes the output of
  -- the transaction then has.
  pub has_pack : ℕ → Bool
  pub pack : ℕ → Txn H → Bool × ℕ

-- What `_run` does to the outside.
pub data Event : Type 0 where
  module_run module_pack : ℕ → Event
  -- `sk_entity_write`, so many bytes
  responded : ℕ → Event
  -- `SK_PTO_WORKFLOW_RUN` is sent to the scheduler itself for the same transaction, and for one
  -- that was delivered.
  next_run : Event
  delivered : ℕ → Event
  txn_destroyed : Event
  -- `sk_entity_safe_destroy`
  entity_destroyed : Event

-- The transaction that runs, by the name `id`, its entity, what has been done, and how often the
-- clock was read.
pub record World (H TH : Type 0) : Type 0 where
  pub id : ℕ
  pub txn : Txn H
  pub entity : Entity TH
  pub events : List Event
  pub tick : ℕ

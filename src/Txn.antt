-- ===== src/Txn.antt =====
-- The types of src/common/sk_txn.c: a transaction and its tasks, which are the service calls that
-- its modules make.
pub mod Ops
pub mod Count
pub mod Tasks
pub mod Mbuf
pub mod Grow
pub mod Log
pub mod Output
mod Tests
use skull.Prelude.{ℕ, Option, Bool, List}
use skull.Prelude.Int.{ℤ}
use skull.Service.{TxnTaskStatus}

-- `sk_txn_state_t`
pub data TxnState : Type 0 where
  txn_init txn_unpacked txn_running txn_pending txn_completed txn_packed txn_error txn_timeout
        txn_destroyed :
      TxnState

-- `sk_txn_task_t`; of `task_data` whether it has a callback.
pub record TxnTask : Type 0 where
  pub start : ℕ
  -- `end`
  pub finish : ℕ
  pub cb : Bool
  pub status : TxnTaskStatus

-- `sk_txn_t`, with a table `H` of tasks. `workflow_idx` is the list of modules to come.
pub record Txn (H : Type 0) : Type 0 where
  pub state : TxnState
  pub error : Bool
  pub task_tbl : H
  pub latest_taskid : ℕ
  pub total_tasks : ℕ
  pub complete_tasks : ℕ
  pub pending_tasks : ℤ
  pub start_time : ℕ
  pub workflow_idx : List ℕ
  pub current : Option ℕ

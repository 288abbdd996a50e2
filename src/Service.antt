-- ===== src/Service.antt =====
-- src/components/sk_service.c and the protocols that move a service call: the state of a service,
-- its tasks, and the messages that it sends.
pub mod Ops
pub mod Inv
pub mod Schedule
pub mod Tasks
pub mod System
pub mod Running
pub mod Handlers
pub mod Exclusion
pub mod Data
pub mod Create
mod Tests
use skull.Prelude.{ℕ, Bool}
use skull.Prelude.Int.{ℤ}
use skull.Queue.{Elem, SkQueue}

-- The scheduler of an engine: `bio n` is that of the n-th background engine, counted from 1.
pub data Sched : Type 0 where
  master : Sched
  worker : ℕ → Sched
  bio : ℕ → Sched

pub data IoStatus : Type 0 where
  io_ok io_busy : IoStatus

-- `task.data.api`; pointers and names are numbers.
pub record ApiCall : Type 0 where
  pub txn : ℕ
  pub name : ℕ
  pub txn_task : ℕ
  pub task_id : ℕ

-- `task.data.timer`
pub record TimerCall : Type 0 where
  pub entity : ℕ
  pub job : ℕ
  pub ud : ℕ
  pub valid : ℕ
  pub interval : ℕ

-- The union, with `task.type` as its tag.
pub data TaskData : Type 0 where
  api : ApiCall → TaskData
  timer : TimerCall → TaskData

-- `sk_srv_task_t` behind its `base`.
pub record Task : Type 0 where
  pub io_status : IoStatus
  pub bidx : ℤ
  pub src : Sched
  pub data_ : TaskData

pub data SrvStatus : Type 0 where
  st_ok st_busy st_task_failed st_pending st_idle st_not_pushed : SrvStatus

pub data JobRet : Type 0 where
  job_ok job_error_bio job_error_busy : JobRet

pub data TxnTaskStatus : Type 0 where
  task_running task_done task_pending task_busy : TxnTaskStatus

-- What a service sends, and where to. A message carries the task from which `sk_sched_send` takes
-- its arguments.
pub data Msg : Type 0 where
  svc_task_run : Sched → Elem Task → Msg
  svc_task_cb : Sched → Elem Task → TxnTaskStatus → (svc_task_done : Bool) → Msg
  svc_timer_run : Sched → Elem Task → JobRet → Msg
  -- To go on with the workflow of the task's transaction.
  workflow_run : Elem Task → Msg
  -- To destroy the entity of the task's timer.
  entity_destroy : Elem Task → Msg

-- `sk_service_t`: the fields that change while it runs.
pub record Service (B : Type 0) : Type 0 where
  pub running_task_cnt : ℤ
  pub pending_tasks : SkQueue B

-- ===== src/Service/Ops.antt =====
-- The functions of sk_service.c that queue, schedule and complete tasks. Each returns the service
-- after it and the messages that it sent, in order.
use skull.Prelude.{
  ℕ, zero, suc, ◌+◌, Bool, true, false, Option, none, some, List, [], ◌∷◌, leb, if◌then◌else◌,
}
use skull.Prelude.Checked.{Checked, ok, assert_failed, out_of_fuel, ◌>>=◌, ◌>>◌, sk_assert}
use skull.Prelude.Int.{ℤ, pos, negsuc, inc, dec, is_zero}
use skull.Fmbuf.{Fmbuf}
use skull.Queue.{
  State, idle, read, write, ElemType, elem_exclusive, elem_read, elem_write, Elem, Buffers,
  exclusive_mq, rw_pr_mqs, rw_pw_mq,
}
use skull.Queue.Ops.{sk_queue_push, sk_queue_pull, sk_queue_empty, sk_queue_setstate}
use skull.Service.{
  Sched, bio, IoStatus, io_ok, io_busy, TaskData, api, timer, Task, SrvStatus, st_ok, st_busy,
  st_pending, st_idle, st_not_pushed, job_ok, job_error_busy, task_busy, Msg, svc_task_run,
  svc_task_cb, svc_timer_run, Service,
}

abbrev pub is_io_ok : IoStatus → Bool
is_io_ok io_ok = true
is_io_ok io_busy = false

-- The state that a queue takes when a task of the type is scheduled, after the assertions on the
-- state that it is in.
unfoldable pub next_state : ElemType → State → Checked State
next_state elem_read idle = ok read
next_state elem_read read = ok read
next_state elem_read _ = assert_failed
next_state elem_write idle = ok write
next_state elem_write _ = assert_failed
next_state elem_exclusive _ = assert_failed

module _ {B : Type 0} (fm : Fmbuf B (Elem Task)) where
  -- `_sk_service_pop_task`: the status, and the task if it is `SK_SRV_STATUS_OK`.
  unfoldable pub pop_task : Service B → Checked (Service B × SrvStatus × Option (Elem Task))
  pop_task s = if sk_queue_empty fm s.pending_tasks then ok (s, st_idle, none) else (do
    (q, writes) ← sk_queue_pull fm s.pending_tasks 1
    elim writes [
      | [] ↦ ok (record s { pending_tasks = q }, st_pending, none)
      | (at, task) ∷ more ↦ ok (record s { pending_tasks = q }, st_ok, some task)
    ])

  unfoldable pub queue_bytes : Buffers B → ℕ
  queue_bytes (exclusive_mq mq) = fm.used mq
  queue_bytes (rw_pr_mqs rmq wmq) = fm.used rmq + fm.used wmq
  queue_bytes (rw_pw_mq mq) = fm.used mq

  unfoldable pub sk_service_push_task : Service B → Elem Task → Checked (Service B × SrvStatus)
  sk_service_push_task s task =
      if is_io_ok task.body.io_status
      then (do
        (q, full) ← sk_queue_push fm s.pending_tasks task
        ok (record s { pending_tasks = q }, if full then st_busy else st_ok))
      else ok (s, st_not_pushed)

-- `bio_cnt` is the number of background engines of the configuration.
module _ (bio_cnt : ℕ) where
  -- `_find_target_sched`. Below 0 it takes the first background engine; where there is none, the
  -- code follows a null pointer.
  unfoldable pub find_target_sched : Sched → ℤ → Checked Sched
  find_target_sched src (pos zero) = ok src
  find_target_sched src (pos (suc n)) = do sk_assert (leb (suc n) bio_cnt); ok (bio (suc n))
  find_target_sched src (negsuc n) = do sk_assert (leb 1 bio_cnt); ok (bio 1)

  -- `_validate_bidx`
  unfoldable pub validate_bidx : ℤ → Bool
  validate_bidx (pos zero) = true
  validate_bidx (pos (suc n)) = leb (suc n) bio_cnt
  validate_bidx (negsuc n) = leb 1 bio_cnt

  schedule_api_task : Elem Task → Checked Msg
  unfolding find_target_sched
  schedule_api_task task = do
    target ← find_target_sched task.body.src task.body.bidx
    ok (svc_task_run target task)

  schedule_api_errortask : Elem Task → Checked Msg
  schedule_api_errortask task = ok (svc_task_cb task.body.src task task_busy false)

  schedule_timer_task : Elem Task → IoStatus → Checked Msg
  unfolding find_target_sched
  schedule_timer_task task io_ok = do
    target ← find_target_sched task.body.src task.body.bidx
    ok (svc_timer_run target task job_ok)
  schedule_timer_task task io_busy = ok (svc_timer_run task.body.src task job_error_busy)

  send_normaltask : TaskData → Elem Task → Checked Msg
  unfolding schedule_api_task schedule_timer_task
  send_normaltask (api c) task = schedule_api_task task
  send_normaltask (timer c) task = schedule_timer_task task task.body.io_status

  send_errortask : TaskData → Elem Task → Checked Msg
  unfolding schedule_api_errortask schedule_timer_task
  send_errortask (api c) task = schedule_api_errortask task
  send_errortask (timer c) task = schedule_timer_task task task.body.io_status

  module _ {B : Type 0} where
    schedule_normaltask : Service B → Elem Task → Checked (Service B × Msg)
    unfolding send_normaltask inc
    schedule_normaltask s task = do
      msg ← send_normaltask task.body.data_ task
      ok (record s { running_task_cnt = inc s.running_task_cnt }, msg)

    schedule_errortask : Service B → Elem Task → Checked (Service B × Msg)
    unfolding send_errortask
    schedule_errortask s task = do msg ← send_errortask task.body.data_ task; ok (s, msg)

    unfoldable pub sk_service_schedule_task : Service B → Elem Task → Checked (Service B × Msg)
    unfolding schedule_normaltask schedule_errortask
    sk_service_schedule_task s task =
        if is_io_ok task.body.io_status
        then schedule_normaltask s task
        else schedule_errortask s task

  module _ {B : Type 0} (fm : Fmbuf B (Elem Task)) where
    -- One round of the loop of `sk_service_schedule_tasks`; `none` is its `break`.
    unfoldable pub schedule_round : Service B → Checked (Service B × Option Msg)
    unfolding pop_task next_state
    schedule_round s = do
      (s1, status, popped) ← pop_task fm s
      elim popped [
        | none ↦ ok (s1, none)
        | some task ↦ do
          state ← next_state task.type s1.pending_tasks.state
          q ← sk_queue_setstate s1.pending_tasks state
          sk_assert (is_io_ok task.body.io_status)
          (s2, msg) ← sk_service_schedule_task (record s1 { pending_tasks = q }) task
          ok (s2, some msg)
      ]

    unfoldable pub schedule_loop : ℕ → Service B → Checked (Service B × List Msg)
    schedule_loop zero s = out_of_fuel
    schedule_loop (suc fuel) s = schedule_round s >>= λ r. elim r.1 [
      | none ↦ ok (r.0, [])
      | some msg ↦ schedule_loop fuel r.0 >>= λ rest. ok (rest.0, msg ∷ rest.1)
    ]

    -- The loop pops an element of at least one byte in each round but the last. The number that
    -- the code returns is the number of messages.
    unfoldable pub sk_service_schedule_tasks : Service B → Checked (Service B × List Msg)
    unfolding queue_bytes
    sk_service_schedule_tasks s = schedule_loop (suc (queue_bytes fm s.pending_tasks.data_)) s

unfoldable pub sk_service_task_setcomplete : {B : Type 0} → Service B → Checked (Service B)
unfolding dec
sk_service_task_setcomplete s =
    let cnt = dec s.running_task_cnt in
    if is_zero cnt
    then (do
      q ← sk_queue_setstate s.pending_tasks idle
      ok (record { running_task_cnt = cnt; pending_tasks = q }))
    else ok (record s { running_task_cnt = cnt })

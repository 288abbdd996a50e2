-- ===== src/Service/System.antt =====
-- The protocols that a service call goes through, src/pto/sk_pto_service_iocall.c,
-- sk_pto_timer_emit.c, sk_pto_service_task_run.c, sk_pto_service_task_cb.c,
-- sk_pto_service_task_done.c, sk_pto_service_timer_run.c and sk_pto_service_timer_done.c, and a
-- service among the messages that are under way, which the schedulers deliver in any order.
use skull.Prelude.{ℕ, ◌≡◌, Bool, true, false, ◌||◌, List, [], ◌∷◌, ◌++◌, map, ◌==◌, if◌then◌else◌}
use skull.Prelude.Checked.{Checked, ok, assert_failed, ◌>>=◌, ◌>>◌, sk_assert}
use skull.Fmbuf.{Fmbuf}
use skull.Queue.{Elem, is_read, is_write}
use skull.Service.{
  io_busy, TaskData, api, timer, Task, SrvStatus, st_ok, st_busy, st_task_failed, JobRet, job_ok,
  job_error_bio, job_error_busy, task_done, task_pending, Msg, svc_task_run, svc_task_cb,
  svc_timer_run, workflow_run, entity_destroy, Service,
}
use skull.Service.Ops.{
  sk_service_schedule_task, sk_service_schedule_tasks, sk_service_push_task,
  sk_service_task_setcomplete,
}
use skull.Service.Inv.{CanRun}

-- A message under way.
pub data Flight : Type 0 where
  -- `SK_PTO_SVC_IOCALL` or `SK_PTO_TIMER_EMIT`, with the task that its handler makes of it.
  call : Elem Task → Flight
  sent : Msg → Flight
  -- `SK_PTO_SVC_TASK_DONE`
  svc_task_done : Elem Task → (resume_wf svc_done : Bool) → Flight
  -- `SK_PTO_SVC_TIMER_DONE`
  svc_timer_done : Elem Task → JobRet → Flight

-- What the code outside the service decides: whether the service's function returned an error,
-- whether it left calls pending, whether the assertions on the transaction or the entity hold, and
-- whether the workflow is to go on.
pub record Choice : Type 0 where
  pub failed : Bool
  pub done : Bool
  pub txn_valid : Bool
  pub resume_wf : Bool

-- `sk_service_run_iocall`, for whether the service's function returned an error
abbrev pub sk_service_run_iocall : Bool → SrvStatus
sk_service_run_iocall failed = if failed then st_task_failed else st_ok

abbrev is_busy : SrvStatus → Bool
is_busy st_busy = true
is_busy _ = false

abbrev is_ok : SrvStatus → Bool
is_ok st_ok = true
is_ok _ = false

abbrev set_busy : Elem Task → Elem Task
set_busy t = record t { body = record t.body { io_status = io_busy } }

-- `!interval`
abbrev pub interval_zero : TaskData → Bool
interval_zero (api c) = false
interval_zero (timer c) = c.interval == 0

module _ (bio_cnt : ℕ) {B : Type 0} (fm : Fmbuf B (Elem Task)) where
  abbrev back : Service B × Msg → Checked (Service B × List Flight)
  back r = ok (r.0, sent r.1 ∷ [])

  unfoldable pub schedule_rest : Service B → Checked (Service B × List Flight)
  schedule_rest s = sk_service_schedule_tasks bio_cnt fm s >>= λ r. ok (r.0, map sent r.1)

  -- The `_run` of sk_pto_service_iocall.c: a call that is refused goes back as busy.
  unfoldable pub svc_iocall_run : Service B → Elem Task → Checked (Service B × List Flight)
  unfolding schedule_rest
  svc_iocall_run s t = do
    (s', status) ← sk_service_push_task fm s t
    if is_busy status
        then sk_service_schedule_task bio_cnt s' (set_busy t) >>= back
        else schedule_rest s'

  -- The `_run` of sk_pto_timer_emit.c
  unfoldable pub timer_emit_run : Service B → Elem Task → Checked (Service B × List Flight)
  unfolding schedule_rest
  timer_emit_run s t = do
    (s', status) ← sk_service_push_task fm s t
    if is_ok status then schedule_rest s' else (do
      sk_assert (is_busy status)
      sk_service_schedule_task bio_cnt s' (set_busy t) >>= back)

  -- The `_run` of sk_pto_service_task_done.c
  unfoldable pub svc_task_done_run :
      Service B → Elem Task → (resume_wf svc_done : Bool) → Checked (Service B × List Flight)
  unfolding schedule_rest
  svc_task_done_run s t resume_wf svc_done = do
    s' ← if svc_done then sk_service_task_setcomplete s else ok s
    (s'', out) ← schedule_rest s'
    ok (s'', (if resume_wf then sent (workflow_run t) ∷ [] else []) ++ out)

  finish_timer : Service B → JobRet → Checked (Service B)
  finish_timer s job_ok = sk_service_task_setcomplete s
  finish_timer s job_error_busy = ok s
  finish_timer s job_error_bio = assert_failed

  -- The `_run` of sk_pto_service_timer_done.c; the assertion on the status is made before the
  -- entity is destroyed, which no other step can tell.
  unfoldable pub svc_timer_done_run :
      Service B → Elem Task → JobRet → Checked (Service B × List Flight)
  unfolding schedule_rest finish_timer
  svc_timer_done_run s t status = do
    s' ← finish_timer s status
    (s'', out) ← schedule_rest s'
    ok (s'', (if interval_zero t.body.data_ then sent (entity_destroy t) ∷ [] else []) ++ out)

  -- The `_run` of sk_pto_service_task_run.c, as far as the service goes: the service's function has
  -- run, and its callback is due at the caller's.
  unfoldable pub svc_task_run_run : Choice → Elem Task → Checked (List Flight)
  svc_task_run_run c t = do
    sk_assert (is_ok (sk_service_run_iocall c.failed))
    ok (sent (svc_task_cb t.body.src t (if c.done then task_done else task_pending) true) ∷ [])

  -- The `_run` of sk_pto_service_task_cb.c, as far as the service goes: the callback has run, and
  -- the master is told. The calls that the callback makes are steps of their own.
  unfoldable pub svc_task_cb_run : Choice → Elem Task → (svc_done : Bool) → Checked (List Flight)
  svc_task_cb_run c t svc_done = do
    sk_assert c.txn_valid
    ok (svc_task_done t c.resume_wf svc_done ∷ [])

  -- The `_run` of sk_pto_service_timer_run.c: the job has run, and the master is told.
  abbrev pub svc_timer_run_run : Elem Task → JobRet → List Flight
  svc_timer_run_run t status = svc_timer_done t status ∷ []

  -- The last two messages leave the service alone.
  unfoldable pub msg_run : Choice → Msg → Checked (List Flight)
  unfolding svc_task_run_run svc_task_cb_run
  msg_run c (svc_task_run target t) = svc_task_run_run c t
  msg_run c (svc_task_cb target t status svc_done) = svc_task_cb_run c t svc_done
  msg_run c (svc_timer_run target t status) = ok (svc_timer_run_run t status)
  msg_run c (workflow_run t) = do sk_assert c.txn_valid; ok []
  msg_run c (entity_destroy t) = do sk_assert c.txn_valid; ok []

  unfoldable pub call_run : Service B → TaskData → Elem Task → Checked (Service B × List Flight)
  unfolding svc_iocall_run timer_emit_run
  call_run s (api c) t = svc_iocall_run s t
  call_run s (timer c) t = timer_emit_run s t

  unfoldable pub handle : Choice → Service B → Flight → Checked (Service B × List Flight)
  unfolding call_run svc_task_done_run svc_timer_done_run msg_run
  handle c s (call t) = call_run s t.body.data_ t
  handle c s (sent m) = do out ← msg_run c m; ok (s, out)
  handle c s (svc_task_done t resume_wf svc_done) = svc_task_done_run s t resume_wf svc_done
  handle c s (svc_timer_done t status) = svc_timer_done_run s t status

pub record System (B : Type 0) : Type 0 where
  pub svc : Service B
  pub flight : List Flight

-- What `sk_service_iocall` and `sk_service_job_create` have checked, and what the handlers make of
-- the kind of an API or a job.
pub record CanCall (bio_cnt : ℕ) (t : Elem Task) : Type 0 where
  pub can : CanRun bio_cnt t
  pub kind : (is_read t.type || is_write t.type) ≡ true

module _ (bio_cnt : ℕ) {B : Type 0} (fm : Fmbuf B (Elem Task)) where
  pub data Step (y : System B) : System B → Type 0 where
    -- A module makes a call, or a timer of a job runs out.
    invoke :
        (t : Elem Task) → CanCall bio_cnt t → Step y (record y { flight = y.flight ++ call t ∷ [] })
    -- `sk_service_api_complete`: the last pending call of a task that was left pending returns.
    api_complete :
        (t : Elem Task)
        → Step y
            (record y { flight = y.flight ++ sent (svc_task_cb t.body.src t task_done false) ∷ [] })
    -- One of the messages under way is handled.
    deliver :
        (c : Choice) (xs : List Flight) (f : Flight) (ys : List Flight) (s : Service B)
        (out : List Flight)
        → y.flight ≡ xs ++ f ∷ ys
        → handle bio_cnt fm c y.svc f ≡ ok (s, out)
        → Step y (record { svc = s; flight = (xs ++ ys) ++ out })

  pub data Reach (y : System B) : System B → Type 0 where
    here : Reach y y
    later : {z w : System B} → Reach y z → Step z w → Reach y w

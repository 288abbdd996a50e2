-- ===== src/Service/Tests.antt =====
-- A service with one background engine from its start, message by message.
use skull.Prelude.{
  ℕ, ◌≡◌, refl, ◌⊎◌, ◌↔◌, true, false, ◌||◌, some, List, [], ◌∷◌, ◌++◌, map, length, All, arith,
}
use skull.Prelude.Checked.{Checked, ok, assert_failed, out_of_fuel, ◌>>=◌}
use skull.Prelude.Int.{pos, negsuc}
use skull.Fmbuf.{Fmbuf}
use skull.Fmbuf.Model.{Buf, list_fmbuf}
use skull.Queue.{
  Mode, idle, read, ElemType, elem_read, elem_write, Elem, is_read, is_write, rw_pw_mq, SkQueue,
  buffer_push, buffer_pull, get_new_size, double_size,
}
use skull.Queue.Buffer.{IsLimit}
use skull.Queue.View.{view}
use skull.Queue.Ops.{
  sk_queue_create, sk_queue_push, sk_queue_pull, sk_queue_empty, sk_queue_setstate,
}
use skull.Queue.Together.{all_elems}
use skull.Service.{worker, bio, io_ok, api, Task, svc_task_run, svc_task_cb, task_done, Service}
use skull.Service.Ops.{
  validate_bidx, sk_service_schedule_task, sk_service_schedule_tasks, schedule_loop, schedule_round,
  sk_service_push_task, sk_service_task_setcomplete,
}
use skull.Service.Inv.{Inv, start_of}
use skull.Service.Tasks.{sk_service_schedule_tasks_lem}
use skull.Queue.Single.{NothingReady}
use skull.Service.System.{
  Flight, call, sent, svc_task_done, Choice, System, CanCall, invoke, deliver, Reach, here, later,
  handle,
}
use skull.Service.Running.{running}
use skull.Service.Data.{
  SrvData, sk_srv_data_create, sk_service_data, sk_service_data_set, sk_service_data_exclusive,
}
use skull.Service.Exclusion.{start, readers_writer_exclusion, no_lost_task, running_task_cnt-length}

abbrev fm : Fmbuf (Buf (Elem Task)) (Elem Task)
fm = list_fmbuf

abbrev q : SkQueue (Buf (Elem Task))
q = record { state = idle; elem_sz = 64; max_slots = 4; data_ = rw_pw_mq (fm.create 0) }

abbrev limit : IsLimit 64 4
limit = record { some_size = omega arith; some_slot = omega arith; no_wrap = omega arith }

q_made : sk_queue_create fm Mode.rw_pw 64 0 4 ≡ ok (some q)
unfolding sk_queue_create
q_made = refl

-- A call by worker 1 that a background engine is to run.
abbrev task : ElemType → ℕ → Elem Task
task kind id = record {
  type = kind;
  body = record {
    io_status = io_ok;
    bidx = negsuc 0;
    src = worker 1;
    data_ = api (record { txn = 7; name = 1; txn_task = 8; task_id = id });
  };
}

CanCall-task :
    (kind : ElemType) (id : ℕ) → (is_read kind || is_write kind) ≡ true → CanCall 1 (task kind id)
unfolding validate_bidx
CanCall-task kind id k = record { can = record { unfailed = refl; has_engine = refl }; kind = k }

abbrev choice : Choice
choice = record { failed = false; done = true; txn_valid = true; resume_wf = true }

abbrev after :
    System (Buf (Elem Task))
    → Checked (Service (Buf (Elem Task)) × List Flight)
    → List Flight
    → System (Buf (Elem Task))
after y (ok (s, out)) ys = record { svc = s; flight = ys ++ out }
after y assert_failed ys = y
after y out_of_fuel ys = y

-- The system after its first message is handled.
abbrev next_of : System (Buf (Elem Task)) → List Flight → System (Buf (Elem Task))
next_of y [] = y
next_of y (f ∷ ys) = after y (handle 1 fm choice y.svc f) ys

abbrev next : System (Buf (Elem Task)) → System (Buf (Elem Task))
next y = next_of y y.flight

-- A read, a write and a read are called for, and the three calls are handled.
abbrev called : System (Buf (Elem Task))
called = record (start 1 fm q) {
  flight = call (task elem_read 1) ∷ call (task elem_write 2) ∷ call (task elem_read 3) ∷ [];
}

abbrev queued : System (Buf (Elem Task))
queued = next (next (next called))

-- What a run of the handlers computes with.
opened : ℕ
unfolding handle sk_service_push_task sk_service_schedule_task sk_service_schedule_tasks
    schedule_loop schedule_round sk_service_task_setcomplete sk_queue_push buffer_push get_new_size
    double_size sk_queue_pull buffer_pull sk_queue_empty sk_queue_setstate
opened = 0

-- A message in front that is handled.
front :
    {y : System (Buf (Elem Task))} (z : System (Buf (Elem Task))) (f : Flight) (ys : List Flight)
    (s : Service (Buf (Elem Task))) (out : List Flight)
    → Reach 1 fm z y
    → y.flight ≡ f ∷ ys
    → handle 1 fm choice y.svc f ≡ ok (s, out)
    → Reach 1 fm z (record { svc = s; flight = ys ++ out })
front z f ys s out r e h = later r (deliver choice [] f ys s out e h)

three_calls : Reach 1 fm (start 1 fm q) called
three_calls =
    later
      (later (later here (invoke (task elem_read 1) (CanCall-task elem_read 1 refl)))
        (invoke (task elem_write 2) (CanCall-task elem_write 2 refl)))
      (invoke (task elem_read 3) (CanCall-task elem_read 3 refl))

-- Handling the three calls starts the first read; the write and the read behind it wait.
all_queued : Reach 1 fm (start 1 fm q) queued
unfolding opened
all_queued =
    let y1 = next called in
    let y2 = next y1 in
    front _ (call (task elem_read 3)) _ _ _
      (front _ (call (task elem_write 2)) _ _ _
        (front _ (call (task elem_read 1)) _ _ _ three_calls refl refl) refl refl)
      refl refl

-- The messages of the first read, until the write has been started in its turn.
abbrev write_started : System (Buf (Elem Task))
write_started = next (next (next queued))

write_running : Reach 1 fm (start 1 fm q) write_started
unfolding opened
write_running =
    front _ (svc_task_done (task elem_read 1) true true) _ _ _
      (front _ (sent (svc_task_cb (worker 1) (task elem_read 1) task_done true)) _ _ _
        (front _ (sent (svc_task_run (bio 1) (task elem_read 1))) _ _ _ all_queued refl refl) refl
        refl)
      refl refl

write_alone : running write_started.flight ≡ task elem_write 2 ∷ []
unfolding running opened
write_alone = refl

-- One read from the call to its end.
abbrev finished : System (Buf (Elem Task))
finished =
    next (next (next (next (record (start 1 fm q) { flight = call (task elem_read 1) ∷ [] }))))

read_finished : Reach 1 fm (start 1 fm q) finished
unfolding opened
read_finished =
    front _ (svc_task_done (task elem_read 1) true true) _ _ _
      (front _ (sent (svc_task_cb (worker 1) (task elem_read 1) task_done true)) _ _ _
        (front _ (sent (svc_task_run (bio 1) (task elem_read 1))) _ _ _
          (front _ (call (task elem_read 1)) _ _ _
            (later here (invoke (task elem_read 1) (CanCall-task elem_read 1 refl))) refl refl)
          refl refl)
        refl refl)
      refl refl

none_runs : running finished.flight ≡ []
unfolding running opened
none_runs = refl

readers_writer_exclusion_example :
    All (λ (t : Elem Task). is_read t.type ≡ true) (running write_started.flight)
    ⊎ ((w : Elem Task) × (running write_started.flight ≡ w ∷ []) × (is_write w.type ≡ true))
readers_writer_exclusion_example =
    readers_writer_exclusion 1 fm Mode.rw_pw 64 4 q write_started limit (λ e. cc) q_made
      write_running

abbrev srv_data : SrvData
srv_data = sk_srv_data_create 0

sk_service_data_exclusive_example :
    ((sk_service_data_set write_started.svc srv_data (some 5) >>= sk_service_data write_started.svc)
      ≡ ok (some 5))
    ↔ ((w : Elem Task) × (running write_started.flight ≡ w ∷ []) × (is_write w.type ≡ true))
sk_service_data_exclusive_example =
    sk_service_data_exclusive 1 fm Mode.rw_pw 64 4 q write_started limit (λ e. cc) q_made
      write_running srv_data (some 5)

no_lost_task_example : all_elems (view fm finished.svc.pending_tasks) ≡ []
no_lost_task_example =
    no_lost_task 1 fm Mode.rw_pw 64 4 q finished limit (λ e. cc) q_made read_finished none_runs

running_task_cnt-length_example :
    write_started.svc.running_task_cnt ≡ pos (length (running write_started.flight))
running_task_cnt-length_example =
    running_task_cnt-length 1 fm Mode.rw_pw 64 4 q write_started limit (λ e. cc) q_made
      write_running

-- A read runs, and a write and a read wait.
abbrev service : Service (Buf (Elem Task))
service = record {
  running_task_cnt = pos 1;
  pending_tasks = record q {
    state = read;
    data_ =
        rw_pw_mq
          (record { fill = 128; left = 0; elems = task elem_write 2 ∷ task elem_read 3 ∷ [] });
  };
}

service-Inv : Inv 1 fm service (task elem_read 1 ∷ [])
service-Inv = record {
  queue_ok = record {
    limit = limit;
    buffers = (record { whole = refl; within = omega arith }, (refl, (refl, tt)));
  };
  read_write = tt;
  waiting = ((CanCall-task elem_write 2 refl).can, ((CanCall-task elem_read 3 refl).can, tt));
  counted = refl;
  runs = ((refl, tt), λ e. cc);
}

sk_service_schedule_tasks_lem_example :
    (s' : Service (Buf (Elem Task))) × (started : List (Elem Task)) × (sk_service_schedule_tasks 1
        fm service
      ≡ ok (s', map start_of started))
    × Inv 1 fm s' ((task elem_read 1 ∷ []) ++ started)
    × (all_elems (view fm service.pending_tasks) ≡ started ++ all_elems (view fm s'.pending_tasks))
    × NothingReady fm s'.pending_tasks
sk_service_schedule_tasks_lem_example =
    sk_service_schedule_tasks_lem 1 fm service (task elem_read 1 ∷ []) service-Inv

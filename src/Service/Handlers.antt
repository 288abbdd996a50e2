-- ===== src/Service/Handlers.antt =====
-- Each handler of the protocols keeps the state of the service in step with what runs.
use skull.Prelude.{
  ℕ, ◌≡◌, ◌≢◌, refl, ap, sym, subst, ◌∙◌, ◌⊎◌, inl, inr, Bool, true, false, List, [], ◌∷◌, ◌++◌,
  map, All, All-append, All-append_right, All-remove, append-nil, Bool-cases, if◌then◌else◌,
}
use skull.Prelude.Checked.{Checked, ok, ◌>>=◌}
use skull.Prelude.Holds.{bind-ok, assert-ok}
use skull.Prelude.Int.{pos}
use skull.Fmbuf.{Fmbuf}
use skull.Queue.{Elem}
use skull.Queue.View.{view, push_view}
use skull.Queue.Single.{NothingReady}
use skull.Service.{
  io_busy, TaskData, api, timer, Task, st_ok, st_busy, JobRet, job_ok, job_error_bio,
  job_error_busy, Msg, svc_task_run, svc_task_cb, svc_timer_run, workflow_run, entity_destroy,
  Service,
}
use skull.Service.Ops.{sk_service_schedule_task, sk_service_push_task}
use skull.Service.Inv.{start_of, Inv}
use skull.Service.Tasks.{
  sk_service_schedule_tasks_lem, sk_service_push_task_lem, sk_service_task_setcomplete_lem,
  push_view-full,
}
use skull.Service.System.{
  Flight, call, sent, svc_task_done, svc_timer_done, Choice, System, CanCall, handle, schedule_rest,
  call_run, svc_task_done_run, svc_timer_done_run, msg_run, interval_zero,
}
use skull.Service.Running.{
  running_msg, running_flight, running, GoodFlight, running-append, running-started, started-good,
  length-move, Runs-move,
}

-- The assertions that the handler of a message makes on what is outside the service hold.
abbrev pub Passes : Choice → Flight → Type 0
Passes c (sent (svc_task_run target t)) = c.failed ≡ false
Passes c (sent (svc_task_cb target t status svc_done)) = c.txn_valid ≡ true
Passes c (sent (workflow_run t)) = c.txn_valid ≡ true
Passes c (sent (entity_destroy t)) = c.txn_valid ≡ true
Passes c (sent (svc_timer_run target t status)) = Unit
Passes c (call t) = Unit
Passes c (svc_task_done t resume_wf svc_done) = Unit
Passes c (svc_timer_done t status) = Unit

module _ (bio_cnt : ℕ) {B : Type 0} (fm : Fmbuf B (Elem Task)) where
  -- What holds of a service among its messages.
  pub record Good (y : System B) : Type 0 where
    pub inv : Inv bio_cnt fm y.svc (running y.flight)
    pub ready : NothingReady fm y.svc.pending_tasks
    pub good : All (GoodFlight bio_cnt) y.flight

  -- A handler's outcome after which `ts` and the tasks of the new messages run.
  Handled : List (Elem Task) → Checked (Service B × List Flight) → Type 0
  Handled ts r =
      (s : Service B) × (out : List Flight) × (r ≡ ok (s, out))
      × Inv bio_cnt fm s (ts ++ running out)
      × NothingReady fm s.pending_tasks
      × All (GoodFlight bio_cnt) out

  schedule_rest-Handled :
      (s : Service B) (ts : List (Elem Task))
      → Inv bio_cnt fm s ts
      → Handled ts (schedule_rest bio_cnt fm s)
  unfolding schedule_rest Handled
  schedule_rest-Handled s ts inv =
      let (s', started, got, inv', c, n) = sk_service_schedule_tasks_lem bio_cnt fm s ts inv in
      (
        s',
        map sent (map start_of started),
        rw got refl,
        rw (running-started started) inv',
        n,
        started-good bio_cnt started,
      )

  busy-Handled :
      (s : Service B) (ts : List (Elem Task)) (t : Elem Task) (d : TaskData)
      → Inv bio_cnt fm s ts
      → NothingReady fm s.pending_tasks
      → Handled ts (
          sk_service_schedule_task bio_cnt s
            (record t { body = record t.body { io_status = io_busy; data_ = d } })
          >>= λ r. ok (r.0, sent r.1 ∷ []))
  unfolding Handled sk_service_schedule_task running
  busy-Handled s ts t (api c) inv n = (s, _, refl, rw append-nil inv, n, (tt, tt))
  busy-Handled s ts t (timer c) inv n = (s, _, refl, rw append-nil inv, n, (λ e. cc, tt))

  -- After the push the service either is as before, with a busy call to send back, or has one more
  -- task to consider.
  pushed-cases :
      (s : Service B) (ts : List (Elem Task)) (t : Elem Task)
      → Inv bio_cnt fm s ts
      → NothingReady fm s.pending_tasks
      → CanCall bio_cnt t
      → ((s' : Service B) × (sk_service_push_task fm s t ≡ ok (s', st_busy))
          × Inv bio_cnt fm s' ts
          × NothingReady fm s'.pending_tasks)
        ⊎ ((s' : Service B) × (sk_service_push_task fm s t ≡ ok (s', st_ok)) × Inv bio_cnt fm s' ts)
  pushed-cases s ts t inv n can =
      let (s', got, inv', c, st) =
        sk_service_push_task_lem bio_cnt fm s ts t inv can.can can.kind in
      let v = view fm s.pending_tasks in
      elim (Bool-cases (push_view s.pending_tasks.max_slots v t).1) [
        | inl full ↦
            let same = c ∙ push_view-full bio_cnt fm s.pending_tasks.max_slots v t full in
            inl (s', rw full at got, inv', rw (same, st) n)
        | inr room ↦ inr (s', rw room at got, inv')
      ]

  call-Handled :
      (s : Service B) (ts : List (Elem Task)) (t : Elem Task) (d : TaskData)
      → Inv bio_cnt fm s ts
      → NothingReady fm s.pending_tasks
      → CanCall bio_cnt (record t { body = record t.body { data_ = d } })
      → Handled ts (call_run bio_cnt fm s d (record t { body = record t.body { data_ = d } }))
  unfolding call_run
  call-Handled s ts t (api c) inv n can = elim (pushed-cases s ts _ inv n can) [
    | inl (s', got, inv', n') ↦ rw got (busy-Handled s' ts t (api c) inv' n')
    | inr (s', got, inv') ↦ rw got (schedule_rest-Handled s' ts inv')
  ]
  call-Handled s ts t (timer c) inv n can = elim (pushed-cases s ts _ inv n can) [
    | inl (s', got, inv', n') ↦ rw got (busy-Handled s' ts t (timer c) inv' n')
    | inr (s', got, inv') ↦ rw got (schedule_rest-Handled s' ts inv')
  ]

  -- The messages in front of those of the scheduling stand for no task that runs.
  also-Handled :
      (f : Bool) (m : Flight) (ts : List (Elem Task)) (r : Checked (Service B × List Flight))
      → running_flight m ≡ []
      → GoodFlight bio_cnt m
      → Handled ts r
      → Handled ts (r >>= λ p. ok (p.0, (if f then m ∷ [] else []) ++ p.1))
  unfolding Handled running
  also-Handled true m ts r e g (s, out, got, inv, n, a) =
      (s, m ∷ out, rw got refl, rw e inv, n, (g, a))
  also-Handled false m ts r e g (s, out, got, inv, n, a) = (s, out, rw got refl, inv, n, a)

  task_done-Handled :
      (s : Service B) (xs ys : List (Elem Task)) (t : Elem Task) (resume_wf svc_done : Bool)
      → Inv bio_cnt fm s (xs ++ (running_flight (svc_task_done t resume_wf svc_done) ++ ys))
      → NothingReady fm s.pending_tasks
      → Handled (xs ++ ys) (svc_task_done_run bio_cnt fm s t resume_wf svc_done)
  unfolding svc_task_done_run running_flight
  task_done-Handled s xs ys t resume_wf true inv n =
      let (s', got, inv', c) = sk_service_task_setcomplete_lem bio_cnt fm s xs ys t inv in
      rw got (
        also-Handled resume_wf (sent (workflow_run t)) (xs ++ ys) _ refl tt
          (schedule_rest-Handled s' (xs ++ ys) inv'))
  task_done-Handled s xs ys t resume_wf false inv n =
      also-Handled resume_wf (sent (workflow_run t)) (xs ++ ys) _ refl tt
        (schedule_rest-Handled s (xs ++ ys) inv)

  timer_done-Handled :
      (s : Service B) (xs ys : List (Elem Task)) (t : Elem Task) (status : JobRet)
      → Inv bio_cnt fm s (xs ++ (running_flight (svc_timer_done t status) ++ ys))
      → status ≢ job_error_bio
      → Handled (xs ++ ys) (svc_timer_done_run bio_cnt fm s t status)
  unfolding svc_timer_done_run running_flight
  timer_done-Handled s xs ys t job_ok inv g =
      let (s', got, inv', c) = sk_service_task_setcomplete_lem bio_cnt fm s xs ys t inv in
      rw got (
        also-Handled (interval_zero t.body.data_) (sent (entity_destroy t)) (xs ++ ys) _ refl tt
          (schedule_rest-Handled s' (xs ++ ys) inv'))
  timer_done-Handled s xs ys t job_error_busy inv g =
      also-Handled (interval_zero t.body.data_) (sent (entity_destroy t)) (xs ++ ys) _ refl tt
        (schedule_rest-Handled s (xs ++ ys) inv)
  timer_done-Handled s xs ys t job_error_bio inv g = absurd (g refl)

  -- A message moved on by a worker still stands for the same task, now behind the others.
  msg-Handled :
      (c : Choice) (s : Service B) (xs ys : List (Elem Task)) (m : Msg)
      → Inv bio_cnt fm s ((xs ++ ys) ++ running_msg m)
      → NothingReady fm s.pending_tasks
      → GoodFlight bio_cnt (sent m)
      → Passes c (sent m)
      → Handled (xs ++ ys) (msg_run bio_cnt fm c m >>= λ out. ok (s, out))
  unfolding Handled running msg_run
  msg-Handled c s xs ys (svc_task_run target t) inv n g p = rw p (s, _, refl, inv, n, (tt, tt))
  msg-Handled c s xs ys (svc_task_cb target t status true) inv n g p =
      rw p (s, _, refl, inv, n, (tt, tt))
  msg-Handled c s xs ys (svc_task_cb target t status false) inv n g p =
      rw p (s, _, refl, inv, n, (tt, tt))
  msg-Handled c s xs ys (svc_timer_run target t job_ok) inv n g p = (s, _, refl, inv, n, (g, tt))
  msg-Handled c s xs ys (svc_timer_run target t job_error_busy) inv n g p =
      (s, _, refl, inv, n, (g, tt))
  msg-Handled c s xs ys (svc_timer_run target t job_error_bio) inv n g p = absurd (g refl)
  msg-Handled c s xs ys (workflow_run t) inv n g p = rw p (s, _, refl, inv, n, tt)
  msg-Handled c s xs ys (entity_destroy t) inv n g p = rw p (s, _, refl, inv, n, tt)

  -- A message that was handled passed its assertions.
  msg-Passes :
      (c : Choice) (m : Msg) (out : List Flight)
      → msg_run bio_cnt fm c m ≡ ok out
      → Passes c (sent m)
  unfolding msg_run
  msg-Passes c (svc_task_run target t) out e = (elim (Bool-cases c.failed) [
    | inl f ↦ absurd (cc (rw f at e))
    | inr f ↦ f
  ])
  msg-Passes c (svc_task_cb target t status svc_done) out e = (assert-ok c.txn_valid _ out e).0
  msg-Passes c (svc_timer_run target t status) out e = tt
  msg-Passes c (workflow_run t) out e = (assert-ok c.txn_valid _ out e).0
  msg-Passes c (entity_destroy t) out e = (assert-ok c.txn_valid _ out e).0

  pub handle-Passes :
      (c : Choice) (s : Service B) (f : Flight) (r : Service B × List Flight)
      → handle bio_cnt fm c s f ≡ ok r
      → Passes c f
  unfolding handle
  handle-Passes c s (call t) r e = tt
  handle-Passes c s (sent m) r e =
      let (out, got, _) = bind-ok (msg_run bio_cnt fm c m) _ r e in msg-Passes c m out got
  handle-Passes c s (svc_task_done t resume_wf svc_done) r e = tt
  handle-Passes c s (svc_timer_done t status) r e = tt

  Inv-move :
      (s : Service B) (xs ts ys : List (Elem Task))
      → Inv bio_cnt fm s (xs ++ (ts ++ ys))
      → Inv bio_cnt fm s ((xs ++ ys) ++ ts)
  Inv-move s xs ts ys inv = record {
    queue_ok = inv.queue_ok;
    read_write = inv.read_write;
    waiting = inv.waiting;
    counted = inv.counted ∙ ap pos (sym (length-move xs ts ys));
    runs = Runs-move s.pending_tasks.state xs ts ys inv.runs;
  }

  handle-Handled :
      (c : Choice) (s : Service B) (xs ys : List (Elem Task)) (f : Flight)
      → Inv bio_cnt fm s (xs ++ (running_flight f ++ ys))
      → NothingReady fm s.pending_tasks
      → GoodFlight bio_cnt f
      → Passes c f
      → Handled (xs ++ ys) (handle bio_cnt fm c s f)
  unfolding handle running_flight
  handle-Handled c s xs ys (call t) inv n g p = call-Handled s (xs ++ ys) t t.body.data_ inv n g
  handle-Handled c s xs ys (sent m) inv n g p =
      msg-Handled c s xs ys m (Inv-move s xs (running_msg m) ys inv) n g p
  handle-Handled c s xs ys (svc_task_done t resume_wf svc_done) inv n g p =
      task_done-Handled s xs ys t resume_wf svc_done inv n
  handle-Handled c s xs ys (svc_timer_done t status) inv n g p =
      timer_done-Handled s xs ys t status inv g

  running-middle :
      (xs : List Flight) (f : Flight) (ys : List Flight)
      → running (xs ++ f ∷ ys) ≡ running xs ++ (running_flight f ++ running ys)
  unfolding running
  running-middle xs f ys = running-append xs (f ∷ ys)

  -- In a good state each message under way whose assertions on what is outside the service hold is
  -- handled with no failed assertion, and the state after it is good.
  pub deliver-Good :
      (y : System B) (c : Choice) (xs : List Flight) (f : Flight) (ys : List Flight)
      → Good y
      → y.flight ≡ xs ++ f ∷ ys
      → Passes c f
      → (s : Service B) × (out : List Flight) × (handle bio_cnt fm c y.svc f ≡ ok (s, out))
        × Good (record { svc = s; flight = (xs ++ ys) ++ out })
  unfolding Handled
  deliver-Good y c xs f ys g e p =
      let inv = subst (Inv bio_cnt fm y.svc) (ap running e ∙ running-middle xs f ys) g.inv in
      let goods = subst (All (GoodFlight bio_cnt)) e g.good in
      let (s, out, got, inv', n, a) =
        handle-Handled c y.svc (running xs) (running ys) f inv g.ready
          (All-append_right (GoodFlight bio_cnt) xs (f ∷ ys) goods).0 p in
      (
        s,
        out,
        got,
        record {
          inv = rw (running-append (xs ++ ys) out, running-append xs ys) inv';
          ready = n;
          good =
              All-append (GoodFlight bio_cnt) (xs ++ ys) out
                (All-remove (GoodFlight bio_cnt) xs f ys goods) a;
        },
      )

-- ===== src/Service/Tasks.antt =====
-- `sk_service_schedule_tasks`, `sk_service_push_task` and `sk_service_task_setcomplete` on a
-- service whose state tells what runs.
use skull.Prelude.{
  ℕ, suc, ◌≤◌, ◌<◌, ◌≡◌, ◌≢◌, refl, ap, sym, ◌∙◌, inl, inr, true, ◌||◌, List, [], ◌∷◌, ◌++◌, map,
  length, length-append, All, All-append, All-append_left, All-append_right, All-remove, Bool-cases,
  if◌then◌else◌, arith,
}
use skull.Prelude.Checked.{ok}
use skull.Prelude.Int.{pos}
use skull.Fmbuf.{Fmbuf}
use skull.Queue.{
  State, idle, read, write, lock, Elem, is_read, is_write, Buffers, exclusive_mq, rw_pr_mqs,
  rw_pw_mq,
}
use skull.Queue.Buffer.{Holds}
use skull.Queue.View.{
  View, exclusive_view, rw_pr_view, rw_pw_view, view, view_buffers, ValidBuffers, push_view,
  push_list,
}
use skull.Queue.Refine.{push_refines, All-push_list}
use skull.Queue.Together.{all_elems, fits_read_write, push-IsReadWrite}
use skull.Queue.Create.{setstate_read_write}
use skull.Queue.Single.{NothingReady}
use skull.Service.{Task, st_ok, st_busy, Service}
use skull.Service.Ops.{
  is_io_ok, queue_bytes, sk_service_schedule_tasks, sk_service_push_task,
  sk_service_task_setcomplete,
}
use skull.Service.Inv.{Runs, start_of, CanRun, Inv}
use skull.Service.Schedule.{schedule_loop_lem}

module _ {B : Type 0} (fm : Fmbuf B (Elem Task)) where
  -- There are no more elements than bytes.
  length-le-used :
      (sz max : ℕ) (b : B) → 0 < sz → Holds fm sz max b → length (fm.contents b) ≤ fm.used b
  length-le-used sz max b pos_sz h = grind (arith, h.whole, pos_sz)

  length-le-bytes :
      (sz max : ℕ) (bs : Buffers B)
      → 0 < sz
      → ValidBuffers fm sz max bs
      → length (all_elems (view_buffers fm bs)) ≤ queue_bytes fm bs
  unfolding queue_bytes
  length-le-bytes sz max (exclusive_mq mq) p (h, a) = length-le-used sz max mq p h
  length-le-bytes sz max (rw_pw_mq mq) p (h, a) = length-le-used sz max mq p h
  length-le-bytes sz max (rw_pr_mqs rmq wmq) p (hr, hw, ar, aw) =
      rw length-append
        (omega (arith, length-le-used sz max rmq p hr, length-le-used sz max wmq p hw))

module _ (bio_cnt : ℕ) {B : Type 0} (fm : Fmbuf B (Elem Task)) where
  -- Scheduling ends and fails no assertion. It starts tasks from the front of the queue, each with
  -- its message, until nothing that waits may start, and the state and the counter of the service
  -- then tell what runs.
  pub sk_service_schedule_tasks_lem :
      (s : Service B) (ts : List (Elem Task))
      → Inv bio_cnt fm s ts
      → (s' : Service B) × (started : List (Elem Task)) × (sk_service_schedule_tasks bio_cnt fm s
          ≡ ok (s', map start_of started))
        × Inv bio_cnt fm s' (ts ++ started)
        × (all_elems (view fm s.pending_tasks) ≡ started ++ all_elems (view fm s'.pending_tasks))
        × NothingReady fm s'.pending_tasks
  unfolding sk_service_schedule_tasks
  sk_service_schedule_tasks_lem s ts inv =
      schedule_loop_lem bio_cnt fm (suc (queue_bytes fm s.pending_tasks.data_)) s ts inv (
        omega (
          arith,
          length-le-bytes fm s.pending_tasks.elem_sz s.pending_tasks.max_slots s.pending_tasks.data_
              inv.queue_ok.limit.some_size inv.queue_ok.buffers,
        ))

  All-push_view :
      (P : Elem Task → Type 0) (max : ℕ) (v : View Task) (e : Elem Task)
      → All P (all_elems v)
      → P e
      → All P (all_elems (push_view max v e).0)
  unfolding push_view
  All-push_view P max (exclusive_view es) e a p = All-push_list P max es e a p
  All-push_view P max (rw_pw_view es) e a p = All-push_list P max es e a p
  All-push_view P max (rw_pr_view rs ws) e a p = elim (Bool-cases (is_read e.type)) [
    | inl r ↦ rw r (
        All-append P (push_list max rs e).0 ws
          (All-push_list P max rs e (All-append_left P rs ws a) p) (All-append_right P rs ws a))
    | inr w ↦ rw w (
        All-append P rs (push_list max ws e).0 (All-append_left P rs ws a)
          (All-push_list P max ws e (All-append_right P rs ws a) p))
  ]

  -- A queue that refuses an element keeps its elements.
  pub push_view-full :
      (max : ℕ) (v : View Task) (e : Elem Task)
      → (push_view max v e).1 ≡ true
      → (push_view max v e).0 ≡ v
  unfolding push_view push_list
  push_view-full max (exclusive_view es) e h = ground arith
  push_view-full max (rw_pw_view es) e h = ground arith
  push_view-full max (rw_pr_view rs ws) e h = ground arith

  -- A task is queued, or refused as busy and then nothing changes; what runs stays the same.
  pub sk_service_push_task_lem :
      (s : Service B) (ts : List (Elem Task)) (t : Elem Task)
      → Inv bio_cnt fm s ts
      → CanRun bio_cnt t
      → (is_read t.type || is_write t.type) ≡ true
      → (s' : Service B) × (sk_service_push_task fm s t
          ≡ ok (
            s',
            if (push_view s.pending_tasks.max_slots (view fm s.pending_tasks) t).1
                then st_busy
                else st_ok,
          ))
        × Inv bio_cnt fm s' ts
        × (view fm s'.pending_tasks
            ≡ (push_view s.pending_tasks.max_slots (view fm s.pending_tasks) t).0)
        × (s'.pending_tasks.state ≡ s.pending_tasks.state)
  unfolding sk_service_push_task
  sk_service_push_task_lem s ts t inv can k =
      let (q, got, c, v, st) =
        push_refines fm s.pending_tasks t inv.queue_ok
          (fits_read_write fm s.pending_tasks.data_ t inv.read_write k) in
      let unfailed : is_io_ok t.body.io_status ≡ true = ap is_io_ok can.unfailed in
      (
        record s { pending_tasks = q },
        rw (unfailed, got) refl,
        record {
          queue_ok = v;
          read_write = push-IsReadWrite fm s.pending_tasks q t c inv.read_write;
          waiting = rw c (
              All-push_view (CanRun bio_cnt) s.pending_tasks.max_slots (view fm s.pending_tasks) t
                inv.waiting can);
          counted = inv.counted;
          runs = rw st inv.runs;
        },
        c,
        st,
      )

  Runs-remove :
      (st : State) (xs ys : List (Elem Task)) (t : Elem Task)
      → Runs st (xs ++ t ∷ ys)
      → xs ++ ys ≢ []
      → Runs st (xs ++ ys)
  Runs-remove idle xs ys t r ne = absurd (omega (arith, ap length r, length-append xs (t ∷ ys)))
  Runs-remove read xs ys t r ne = (All-remove _ xs t ys r.0, ne)
  Runs-remove write xs ys t (w, e, k) ne = absurd (
      ne (
        none_left (xs ++ ys)
          (omega (arith, ap length e, length-append xs (t ∷ ys), length-append xs ys))))
    where
      none_left : (zs : List (Elem Task)) → length zs ≡ 0 → zs ≡ []
      none_left [] h = refl
      none_left (z ∷ zs) h = absurd (omega arith)
  Runs-remove lock xs ys t r ne = absurd r
  Runs-remove State.init xs ys t r ne = absurd r
  Runs-remove State.destroy xs ys t r ne = absurd r

  complete_with :
      (s : Service B) (xs ys rest : List (Elem Task)) (t : Elem Task)
      → Inv bio_cnt fm s (xs ++ t ∷ ys)
      → xs ++ ys ≡ rest
      → s.running_task_cnt ≡ pos (suc (length rest))
      → (s' : Service B) × (sk_service_task_setcomplete s ≡ ok s')
        × Inv bio_cnt fm s' (xs ++ ys)
        × (view fm s'.pending_tasks ≡ view fm s.pending_tasks)
  unfolding sk_service_task_setcomplete
  complete_with s xs ys [] t inv e cnt = (
    record { running_task_cnt = pos 0; pending_tasks = record s.pending_tasks { state = idle } },
    rw (cnt, setstate_read_write s.pending_tasks idle inv.read_write (λ x. cc)) refl,
    record {
      queue_ok = record { limit = inv.queue_ok.limit; buffers = inv.queue_ok.buffers };
      read_write = inv.read_write;
      waiting = inv.waiting;
      counted = ap (λ (zs : List (Elem Task)). pos (length zs)) (sym e);
      runs = e;
    },
    refl,
  )
  complete_with s xs ys (r ∷ rest) t inv e cnt = (
    record s { running_task_cnt = pos (length (r ∷ rest)) },
    rw cnt refl,
    record {
      queue_ok = inv.queue_ok;
      read_write = inv.read_write;
      waiting = inv.waiting;
      counted = ap (λ (zs : List (Elem Task)). pos (length zs)) (sym e);
      runs = Runs-remove s.pending_tasks.state xs ys t inv.runs (λ n. cc);
    },
    refl,
  )

  -- Completing one of the tasks that run counts it off, and makes the queue idle if it was the
  -- last.
  pub sk_service_task_setcomplete_lem :
      (s : Service B) (xs ys : List (Elem Task)) (t : Elem Task)
      → Inv bio_cnt fm s (xs ++ t ∷ ys)
      → (s' : Service B) × (sk_service_task_setcomplete s ≡ ok s')
        × Inv bio_cnt fm s' (xs ++ ys)
        × (view fm s'.pending_tasks ≡ view fm s.pending_tasks)
  sk_service_task_setcomplete_lem s xs ys t inv =
      complete_with s xs ys (xs ++ ys) t inv refl
        (inv.counted ∙ ap pos (omega (arith, length-append xs (t ∷ ys), length-append xs ys)))

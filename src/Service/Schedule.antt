-- ===== src/Service/Schedule.antt =====
-- `sk_service_schedule_tasks`: what one round of its loop does, and what the whole loop does.
use skull.Prelude.{
  ℕ, zero, suc, ◌<◌, ◌≡◌, ◌≢◌, refl, ap, sym, subst, ◌∙◌, ◌⊎◌, inl, inr, true, false, Option, none,
  some, List, [], ◌∷◌, ◌++◌, map, length, length-append, All, append_assoc, append-nil, Bool-cases,
  arith,
}
use skull.Prelude.Checked.{Checked, ok}
use skull.Prelude.Int.{pos, inc}
use skull.Fmbuf.{Fmbuf}
use skull.Queue.{
  State, idle, read, write, lock, ElemType, elem_exclusive, elem_read, elem_write, Elem, is_read,
  is_write, SkQueue,
}
use skull.Queue.View.{view, IsValid, pull_view}
use skull.Queue.Ops.{sk_queue_pull, sk_queue_empty}
use skull.Queue.Laws.{sk_queue_empty_lem}
use skull.Queue.Together.{IsReadWrite, all_elems, is_nil, pull_view-append}
use skull.Queue.Create.{setstate_read_write}
use skull.Queue.Single.{NothingReady, Pulled, pulled_none, pulled_one, pull_single}
use skull.Service.{
  io_ok, TaskData, api, timer, Task, SrvStatus, st_ok, st_pending, st_idle, Msg, Service,
}
use skull.Service.Ops.{
  is_io_ok, validate_bidx, pop_task, next_state, schedule_round, schedule_loop,
  sk_service_schedule_task,
}
use skull.Service.Inv.{
  Runs, Runs-IsPullable, start_of, start_msg, CanRun, find_target_sched_lem, Inv,
}

-- A task that may start puts the queue in the state for its kind.
next_state-Runs :
    (ty : ElemType) (b : Task) (st : State) (ts : List (Elem Task))
    → Runs st ts
    → st ≢ write
    → (is_read ty ≡ true) ⊎ ((is_write ty ≡ true) × (st ≡ idle))
    → (st' : State) × (next_state ty st ≡ ok st')
      × Runs st' (ts ++ record { type = ty; body = b } ∷ [])
      × (st' ≢ lock)
unfolding next_state
next_state-Runs elem_read b idle ts r ne k = (read, refl, rw r ((refl, tt), λ e. cc), λ e. cc)
next_state-Runs elem_read b read ts r ne k =
    (read, refl, (All-snoc ts r.0, λ e. snoc-ne ts e), λ e. cc)
  where
    t : Elem Task
    t = record { type = elem_read; body = b }

    All-snoc :
        (xs : List (Elem Task))
        → All (λ (x : Elem Task). is_read x.type ≡ true) xs
        → All (λ (x : Elem Task). is_read x.type ≡ true) (xs ++ t ∷ [])
    All-snoc [] a = (refl, tt)
    All-snoc (x ∷ xs) (p, a) = (p, All-snoc xs a)

    snoc-ne : (xs : List (Elem Task)) → xs ++ t ∷ [] ≡ [] → ⊥
    snoc-ne [] e = cc
    snoc-ne (x ∷ xs) e = cc
next_state-Runs elem_write b idle ts r ne k = (write, refl, rw r (_, refl, refl), λ e. cc)
next_state-Runs elem_write b read ts r ne (inl h) = cc
next_state-Runs elem_write b read ts r ne (inr h) = cc (h.1)
next_state-Runs ty b write ts r ne k = absurd (ne refl)
next_state-Runs ty b lock ts r ne k = absurd r
next_state-Runs ty b State.init ts r ne k = absurd r
next_state-Runs ty b State.destroy ts r ne k = absurd r
next_state-Runs elem_exclusive b st ts r ne (inl h) = cc
next_state-Runs elem_exclusive b st ts r ne (inr h) = cc (h.0)

module _ (bio_cnt : ℕ) {B : Type 0} (fm : Fmbuf B (Elem Task)) where
  -- What a pop may come to.
  data Popped (s : Service B) (r : Checked (Service B × SrvStatus × Option (Elem Task)))
      : Type 0 where
    popped_none :
        (q : SkQueue B) (st : SrvStatus)
        → r ≡ ok (record s { pending_tasks = q }, st, none)
        → view fm q ≡ view fm s.pending_tasks
        → IsValid fm q
        → IsReadWrite q.data_
        → q.state ≡ s.pending_tasks.state
        → NothingReady fm q
        → Popped s r
    popped_one :
        (q : SkQueue B) (t : Elem Task)
        → r ≡ ok (record s { pending_tasks = q }, st_ok, some t)
        → all_elems (view fm s.pending_tasks) ≡ t ∷ all_elems (view fm q)
        → (is_read t.type ≡ true) ⊎ ((is_write t.type ≡ true) × (s.pending_tasks.state ≡ idle))
        → s.pending_tasks.state ≢ write
        → IsValid fm q
        → IsReadWrite q.data_
        → q.state ≡ s.pending_tasks.state
        → Popped s r

  pub nothing-NothingReady :
      (q : SkQueue B) → IsReadWrite q.data_ → all_elems (view fm q) ≡ [] → NothingReady fm q
  nothing-NothingReady q k e =
      prefix (pull_view q.state 1 (view fm q)).0 (all_elems (pull_view q.state 1 (view fm q)).1)
        (pull_view-append fm q.elem_sz q.max_slots q.state 1 q.data_ k ∙ e)
    where
      prefix : (xs ys : List (Elem Task)) → xs ++ ys ≡ [] → xs ≡ []
      prefix [] ys h = refl
      prefix (x ∷ xs) ys h = cc

  Pulled-Popped :
      (s : Service B) (q : SkQueue B)
      → sk_queue_empty fm s.pending_tasks ≡ false
      → Pulled fm s.pending_tasks q (sk_queue_pull fm s.pending_tasks 1)
      → IsValid fm q
      → IsReadWrite q.data_
      → q.state ≡ s.pending_tasks.state
      → Popped s (pop_task fm s)
  unfolding pop_task
  Pulled-Popped s q e (pulled_none got c n) v k st =
      popped_none q st_pending (rw (e, got) refl) c v k st
        (subst (λ x. (pull_view x 1 (view fm q)).0 ≡ []) (sym st) (rw c n))
  Pulled-Popped s q e (pulled_one at t got c kind ne) v k st =
      popped_one q t (rw (e, got) refl) c kind ne v k st

  pop_task_lem :
      (s : Service B) (ts : List (Elem Task)) → Inv bio_cnt fm s ts → Popped s (pop_task fm s)
  unfolding pop_task
  pop_task_lem s ts inv = elim (Bool-cases (sk_queue_empty fm s.pending_tasks)) [
    | inl e ↦
        popped_none s.pending_tasks st_idle (rw e refl) refl inv.queue_ok inv.read_write refl (
          nothing-NothingReady s.pending_tasks inv.read_write (
            nil (all_elems (view fm s.pending_tasks))
              (sym (sk_queue_empty_lem fm s.pending_tasks inv.queue_ok) ∙ e)))
    | inr e ↦
        let (q, p, v, k, st) =
          pull_single fm s.pending_tasks inv.queue_ok inv.read_write
            (Runs-IsPullable s.pending_tasks.data_ s.pending_tasks.state ts inv.runs) in
        Pulled-Popped s q e p v k st
  ]
    where
      nil : (es : List (Elem Task)) → is_nil es ≡ true → es ≡ []
      nil [] h = refl
      nil (x ∷ es) h = cc

  start-lem :
      (s : Service B) (ty : ElemType) (b : Task) (d : TaskData)
      → b.io_status ≡ io_ok
      → validate_bidx bio_cnt b.bidx ≡ true
      → sk_service_schedule_task bio_cnt s (record { type = ty; body = record b { data_ = d } })
        ≡ ok (
          record s { running_task_cnt = inc s.running_task_cnt },
          start_of (record { type = ty; body = record b { data_ = d } }),
        )
  unfolding sk_service_schedule_task start_msg
  start-lem s ty b (api c) i e = rw (i, find_target_sched_lem bio_cnt b.src b.bidx e) refl
  start-lem s ty b (timer c) i e = rw (i, find_target_sched_lem bio_cnt b.src b.bidx e) refl

  -- What one round may come to.
  data Round (s : Service B) (ts : List (Elem Task)) (r : Checked (Service B × Option Msg))
      : Type 0 where
    stops :
        (s' : Service B)
        → r ≡ ok (s', none)
        → Inv bio_cnt fm s' ts
        → view fm s'.pending_tasks ≡ view fm s.pending_tasks
        → NothingReady fm s'.pending_tasks
        → Round s ts r
    starts :
        (s' : Service B) (t : Elem Task)
        → r ≡ ok (s', some (start_of t))
        → Inv bio_cnt fm s' (ts ++ t ∷ [])
        → all_elems (view fm s.pending_tasks) ≡ t ∷ all_elems (view fm s'.pending_tasks)
        → Round s ts r

  schedule_round_lem :
      (s : Service B) (ts : List (Elem Task))
      → Inv bio_cnt fm s ts
      → Round s ts (schedule_round bio_cnt fm s)
  unfolding schedule_round inc
  schedule_round_lem s ts inv = by_pop (pop_task_lem s ts inv)
    where
      by_pop : Popped s (pop_task fm s) → Round s ts (schedule_round bio_cnt fm s)
      by_pop (popped_none q st got c v k same n) =
          stops (record s { pending_tasks = q }) (rw got refl)
            (record {
              queue_ok = v;
              read_write = k;
              waiting = rw c inv.waiting;
              counted = inv.counted;
              runs = rw same inv.runs;
            })
            c n
      by_pop (popped_one q t got c kind ne v k same) =
          let (st', next, runs, unlocked) =
            next_state-Runs t.type t.body s.pending_tasks.state ts inv.runs ne kind in
          let now : next_state t.type q.state ≡ ok st' = rw same next in
          let can = subst (All (CanRun bio_cnt)) c inv.waiting in
          let unfailed : is_io_ok t.body.io_status ≡ true = ap is_io_ok can.0.unfailed in
          let set = setstate_read_write q st' k unlocked in
          let sent =
            start-lem (record s { pending_tasks = record q { state = st' } }) t.type t.body
              t.body.data_ can.0.unfailed can.0.has_engine in
          starts
            (record {
              running_task_cnt = inc s.running_task_cnt;
              pending_tasks = record q { state = st' };
            })
            t (rw (got, now, set, unfailed, sent) refl)
            (record {
              queue_ok = record { limit = v.limit; buffers = v.buffers };
              read_write = k;
              waiting = can.1;
              counted = rw (inv.counted, length-append) (ap pos (omega arith));
              runs = runs;
            })
            c

  -- The whole loop, with fuel for each task that waits and one round more.
  pub schedule_loop_lem :
      (fuel : ℕ) (s : Service B) (ts : List (Elem Task))
      → Inv bio_cnt fm s ts
      → length (all_elems (view fm s.pending_tasks)) < fuel
      → (s' : Service B) × (started : List (Elem Task)) × (schedule_loop bio_cnt fm fuel s
          ≡ ok (s', map start_of started))
        × Inv bio_cnt fm s' (ts ++ started)
        × (all_elems (view fm s.pending_tasks) ≡ started ++ all_elems (view fm s'.pending_tasks))
        × NothingReady fm s'.pending_tasks
  unfolding schedule_loop
  schedule_loop_lem zero s ts inv h = absurd (omega arith)
  schedule_loop_lem (suc fuel) s ts inv h = elim (schedule_round_lem s ts inv) [
    | stops s' got inv' same n ↦
        (s', [], rw got refl, rw append-nil inv', ap all_elems (sym same), n)
    | starts s' t got inv' c ↦
        let (s'', started, got', inv'', c', n) =
          schedule_loop_lem fuel s' (ts ++ t ∷ []) inv' (omega (arith, h, ap length c)) in
        (
          s'',
          t ∷ started,
          rw (got, got') refl,
          subst (Inv bio_cnt fm s'') (append_assoc ts (t ∷ []) started) inv'',
          c ∙ ap (λ (xs : List (Elem Task)). t ∷ xs) c',
          n,
        )
  ]

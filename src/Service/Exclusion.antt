-- ===== src/Service/Exclusion.antt =====
-- In every reachable state of a service and its messages: which tasks run together, that nothing
-- waits in vain, and that no handler fails an assertion.
use skull.Prelude.{
  ℕ, ◌≡◌, ◌≢◌, refl, sym, subst, ◌∙◌, ◌⊎◌, inl, inr, some, List, [], ◌∷◌, ◌++◌, All, All-append,
  append-nil, length, true, arith,
}
use skull.Prelude.Checked.{Checked, ok, assert_failed, out_of_fuel}
use skull.Prelude.Int.{pos}
use skull.Fmbuf.{Fmbuf}
use skull.Queue.{
  Mode, State, idle, read, write, lock, Elem, is_read, is_write, Buffers, exclusive_mq, rw_pr_mqs,
  rw_pw_mq, SkQueue,
}
use skull.Queue.Buffer.{IsLimit}
use skull.Queue.View.{view, IsValid}
use skull.Queue.Ops.{sk_queue_create}
use skull.Queue.Together.{all_elems, IsReadWrite}
use skull.Queue.Create.{sk_queue_create_lem, mode_of}
use skull.Queue.Single.{NothingReady-idle}
use skull.Service.{Task, Service}
use skull.Service.Inv.{Runs}
use skull.Service.Schedule.{nothing-NothingReady}
use skull.Service.System.{Flight, System, Step, invoke, api_complete, deliver, Reach, here, later}
use skull.Service.Running.{running, running-append, GoodFlight}
use skull.Service.Handlers.{Good, handle-Passes, deliver-Good}

module _ (bio_cnt : ℕ) {B : Type 0} (fm : Fmbuf B (Elem Task)) where
  abbrev GoodAfter : List Flight → Checked (Service B × List Flight) → Type 0
  GoodAfter fs (ok (s, out)) = Good bio_cnt fm (record { svc = s; flight = fs ++ out })
  GoodAfter fs assert_failed = ⊥
  GoodAfter fs out_of_fuel = ⊥

  -- A message that stands for no running task may be added.
  Good-add :
      (y : System B) (f : Flight)
      → Good bio_cnt fm y
      → GoodFlight bio_cnt f
      → running (f ∷ []) ≡ []
      → Good bio_cnt fm (record y { flight = y.flight ++ f ∷ [] })
  Good-add y f g gf e = record {
    inv = rw (running-append, e, append-nil) g.inv;
    ready = g.ready;
    good = All-append (GoodFlight bio_cnt) y.flight (f ∷ []) g.good (gf, tt);
  }

  Step-Good : {y z : System B} → Good bio_cnt fm y → Step bio_cnt fm y z → Good bio_cnt fm z
  unfolding running
  Step-Good g (invoke t c) = Good-add _ _ g c refl
  Step-Good g (api_complete t) = Good-add _ _ g tt refl
  Step-Good {y} g (deliver c xs f ys s out e h) =
      let (s', out', got, g') =
        deliver-Good bio_cnt fm y c xs f ys g e (handle-Passes bio_cnt fm c y.svc f (s, out) h) in
      subst (GoodAfter (xs ++ ys)) (sym got ∙ h) g'

  Reach-Good : {y z : System B} → Good bio_cnt fm y → Reach bio_cnt fm y z → Good bio_cnt fm z
  Reach-Good g here = g
  Reach-Good g (later r st) = Step-Good (Reach-Good g r) st

  -- A service at its start, over the queue that was made for it.
  abbrev pub start : SkQueue B → System B
  start q = record { svc = record { running_task_cnt = pos 0; pending_tasks = q }; flight = [] }

  mode-IsReadWrite : (bs : Buffers B) → mode_of bs ≢ Mode.exclusive → IsReadWrite bs
  unfolding mode_of
  mode-IsReadWrite (exclusive_mq mq) ne = absurd (ne refl)
  mode-IsReadWrite (rw_pr_mqs rmq wmq) ne = tt
  mode-IsReadWrite (rw_pw_mq mq) ne = tt

  start-Good :
      (q : SkQueue B)
      → IsValid fm q
      → IsReadWrite q.data_
      → q.state ≡ idle
      → all_elems (view fm q) ≡ []
      → Good bio_cnt fm (start q)
  unfolding running
  start-Good q v k i e = record {
    inv = record {
      queue_ok = v;
      read_write = k;
      waiting = rw e tt;
      counted = refl;
      runs = rw i refl;
    };
    ready = nothing-NothingReady bio_cnt fm q k e;
    good = tt;
  }

  module _ (mode : Mode) (sz max : ℕ) (q : SkQueue B) (y : System B) (l : IsLimit sz max)
      (ne : mode ≢ Mode.exclusive) (made : sk_queue_create fm mode sz 0 max ≡ ok (some q))
      (r : Reach bio_cnt fm (start q) y) where
    pub reach : Good bio_cnt fm y
    reach =
        let (q', made', v, i, e, m, s) = sk_queue_create_lem fm mode sz 0 max l (omega arith) in
        let same : q' ≡ q = cc in
        Reach-Good
          (subst (λ x. Good bio_cnt fm (start x)) same
            (start-Good q' v (mode-IsReadWrite q'.data_ (rw m ne)) i e))
          r

    -- From the start of a service over a read-write queue, in whatever order its calls are made
    -- and the messages are handled: the tasks that have been started and not completed are all
    -- reads, or are one write.
    pub readers_writer_exclusion :
        All (λ (t : Elem Task). is_read t.type ≡ true) (running y.flight)
        ⊎ ((w : Elem Task) × (running y.flight ≡ w ∷ []) × (is_write w.type ≡ true))
    readers_writer_exclusion = by_state y.svc.pending_tasks.state reach.inv.runs
      where
        by_state :
            (st : State)
            → Runs st (running y.flight)
            → All (λ (t : Elem Task). is_read t.type ≡ true) (running y.flight)
              ⊎ ((w : Elem Task) × (running y.flight ≡ w ∷ []) × (is_write w.type ≡ true))
        by_state idle h = inl (rw h tt)
        by_state read h = inl h.0
        by_state write h = inr h
        by_state lock h = absurd h
        by_state State.init h = absurd h
        by_state State.destroy h = absurd h

    -- No task waits in vain: where no task runs, none waits in the queue.
    pub no_lost_task : running y.flight ≡ [] → all_elems (view fm y.svc.pending_tasks) ≡ []
    no_lost_task none_runs = by_state y.svc.pending_tasks.state refl reach.inv.runs
      where
        by_state :
            (st : State)
            → y.svc.pending_tasks.state ≡ st
            → Runs st (running y.flight)
            → all_elems (view fm y.svc.pending_tasks) ≡ []
        by_state idle e h =
            NothingReady-idle fm y.svc.pending_tasks reach.inv.queue_ok reach.inv.read_write e
              reach.ready
        by_state read e h = absurd (h.1 none_runs)
        by_state write e h = cc (h.1)
        by_state lock e h = absurd h
        by_state State.init e h = absurd h
        by_state State.destroy e h = absurd h

    -- The counter `running_task_cnt` is the number of tasks that run.
    pub running_task_cnt-length : y.svc.running_task_cnt ≡ pos (length (running y.flight))
    running_task_cnt-length = reach.inv.counted

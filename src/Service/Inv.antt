-- ===== src/Service/Inv.antt =====
-- Which tasks of a service run, and how the state of its queue and its counter tell of them.
use skull.Prelude.{ℕ, zero, suc, ◌≡◌, ◌≢◌, refl, true, List, [], ◌∷◌, length, All}
use skull.Prelude.Checked.{ok}
use skull.Prelude.Int.{ℤ, pos, negsuc}
use skull.Fmbuf.{Fmbuf}
use skull.Queue.{
  State, idle, read, write, lock, Elem, is_read, is_write, Buffers, exclusive_mq, rw_pr_mqs,
  rw_pw_mq,
}
use skull.Queue.View.{view, IsPullable, IsValid}
use skull.Queue.Together.{IsReadWrite, all_elems}
use skull.Service.{
  Sched, bio, io_ok, TaskData, api, timer, Task, job_ok, Msg, svc_task_run, svc_timer_run, Service,
}
use skull.Service.Ops.{validate_bidx, find_target_sched}

-- The tasks that have been started and not completed, against the state of the queue.
abbrev pub Runs : State → List (Elem Task) → Type 0
Runs idle ts = ts ≡ []
Runs read ts = All (λ (t : Elem Task). is_read t.type ≡ true) ts × (ts ≢ [])
Runs write ts = (w : Elem Task) × (ts ≡ w ∷ []) × (is_write w.type ≡ true)
Runs _ ts = ⊥

-- Where a task runs, and the message that starts it.
unfoldable pub target_of : Sched → ℤ → Sched
target_of src (pos zero) = src
target_of src (pos (suc n)) = bio (suc n)
target_of src (negsuc n) = bio 1

unfoldable pub start_msg : TaskData → Elem Task → Msg
start_msg (api c) t = svc_task_run (target_of t.body.src t.body.bidx) t
start_msg (timer c) t = svc_timer_run (target_of t.body.src t.body.bidx) t job_ok

abbrev pub start_of : Elem Task → Msg
start_of t = start_msg t.body.data_ t

not_sealed :
    (st : State) (ts : List (Elem Task))
    → Runs st ts
    → (st ≢ lock) × (st ≢ State.init) × (st ≢ State.destroy)
not_sealed idle ts r = (λ e. cc, λ e. cc, λ e. cc)
not_sealed read ts r = (λ e. cc, λ e. cc, λ e. cc)
not_sealed write ts r = (λ e. cc, λ e. cc, λ e. cc)
not_sealed lock ts r = absurd r
not_sealed State.init ts r = absurd r
not_sealed State.destroy ts r = absurd r

module _ (bio_cnt : ℕ) where
  -- A task that has not failed, and whose background engine exists.
  pub record CanRun (t : Elem Task) : Type 0 where
    pub unfailed : t.body.io_status ≡ io_ok
    pub has_engine : validate_bidx bio_cnt t.body.bidx ≡ true

  pub find_target_sched_lem :
      (src : Sched) (idx : ℤ)
      → validate_bidx bio_cnt idx ≡ true
      → find_target_sched bio_cnt src idx ≡ ok (target_of src idx)
  unfolding validate_bidx find_target_sched target_of
  find_target_sched_lem src (pos zero) h = refl
  find_target_sched_lem src (pos (suc n)) h = rw h refl
  find_target_sched_lem src (negsuc n) h = rw h refl

  module _ {B : Type 0} (fm : Fmbuf B (Elem Task)) where
    pub record Inv (s : Service B) (running : List (Elem Task)) : Type 0 where
      pub queue_ok : IsValid fm s.pending_tasks
      pub read_write : IsReadWrite s.pending_tasks.data_
      pub waiting : All CanRun (all_elems (view fm s.pending_tasks))
      pub counted : s.running_task_cnt ≡ pos (length running)
      pub runs : Runs s.pending_tasks.state running

-- In such a state a pull fails no assertion.
pub Runs-IsPullable :
    {B : Type 0} (bs : Buffers B) (st : State) (ts : List (Elem Task))
    → Runs st ts
    → IsPullable bs st
Runs-IsPullable (exclusive_mq mq) st ts r = tt
Runs-IsPullable (rw_pr_mqs rmq wmq) st ts r = not_sealed st ts r
Runs-IsPullable (rw_pw_mq mq) st ts r = not_sealed st ts r

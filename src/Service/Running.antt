-- ===== src/Service/Running.antt =====
-- The tasks for which the messages under way stand, in whatever order the messages are.
use skull.Prelude.{
  ℕ, ◌≡◌, ◌≢◌, refl, ap, ap₂, sym, ◌∙◌, true, false, List, [], ◌∷◌, ◌++◌, map, length,
  length-append, All, All-append, All-append_left, All-append_right, append_assoc, arith,
}
use skull.Queue.{State, idle, read, write, lock, Elem, is_write}
use skull.Service.{
  TaskData, api, timer, Task, job_ok, job_error_bio, job_error_busy, Msg, svc_task_run, svc_task_cb,
  svc_timer_run, workflow_run, entity_destroy,
}
use skull.Service.Inv.{Runs, start_of, start_msg}
use skull.Service.System.{Flight, call, sent, svc_task_done, svc_timer_done, CanCall}

-- The task that a message under way stands for, if that task runs.
unfoldable pub running_msg : Msg → List (Elem Task)
running_msg (svc_task_run target t) = t ∷ []
running_msg (svc_task_cb target t status true) = t ∷ []
running_msg (svc_task_cb target t status false) = []
running_msg (svc_timer_run target t job_ok) = t ∷ []
running_msg (svc_timer_run target t job_error_busy) = []
running_msg (svc_timer_run target t job_error_bio) = []
running_msg (workflow_run t) = []
running_msg (entity_destroy t) = []

unfoldable pub running_flight : Flight → List (Elem Task)
unfolding running_msg
running_flight (call t) = []
running_flight (sent m) = running_msg m
running_flight (svc_task_done t resume_wf true) = t ∷ []
running_flight (svc_task_done t resume_wf false) = []
running_flight (svc_timer_done t job_ok) = t ∷ []
running_flight (svc_timer_done t job_error_busy) = []
running_flight (svc_timer_done t job_error_bio) = []

-- The tasks that have been started and of which the master has not been told the end.
unfoldable pub running : List Flight → List (Elem Task)
unfolding running_flight
running [] = []
running (f ∷ fs) = running_flight f ++ running fs

-- A message that its handler takes.
abbrev pub GoodFlight : ℕ → Flight → Type 0
GoodFlight bio_cnt (call t) = CanCall bio_cnt t
GoodFlight bio_cnt (sent (svc_timer_run target t status)) = status ≢ job_error_bio
GoodFlight bio_cnt (sent m) = Unit
GoodFlight bio_cnt (svc_task_done t resume_wf svc_done) = Unit
GoodFlight bio_cnt (svc_timer_done t status) = status ≢ job_error_bio

pub running-append : (xs ys : List Flight) → running (xs ++ ys) ≡ running xs ++ running ys
unfolding running
running-append [] ys = refl
running-append (x ∷ xs) ys =
    ap (λ (zs : List (Elem Task)). running_flight x ++ zs) (running-append xs ys)
    ∙ sym (append_assoc (running_flight x) (running xs) (running ys))

pub start-running : (d : TaskData) (t : Elem Task) → running_flight (sent (start_msg d t)) ≡ t ∷ []
unfolding running_flight start_msg
start-running (api c) t = refl
start-running (timer c) t = refl

pub start-good :
    (bio_cnt : ℕ) (d : TaskData) (t : Elem Task) → GoodFlight bio_cnt (sent (start_msg d t))
unfolding start_msg
start-good bio_cnt (api c) t = tt
start-good bio_cnt (timer c) t = λ e. cc

pub running-started : (ts : List (Elem Task)) → running (map sent (map start_of ts)) ≡ ts
unfolding running
running-started [] = refl
running-started (t ∷ ts) = ap₂ ◌++◌ (start-running t.body.data_ t) (running-started ts)

pub started-good :
    (bio_cnt : ℕ) (ts : List (Elem Task)) → All (GoodFlight bio_cnt) (map sent (map start_of ts))
started-good bio_cnt [] = tt
started-good bio_cnt (t ∷ ts) = (start-good bio_cnt t.body.data_ t, started-good bio_cnt ts)

-- Which order the tasks that run are listed in makes no difference.
All-move :
    (P : Elem Task → Type 0) (xs ts ys : List (Elem Task))
    → All P (xs ++ (ts ++ ys))
    → All P ((xs ++ ys) ++ ts)
All-move P xs ts ys a =
    let rest = All-append_right P xs (ts ++ ys) a in
    All-append P (xs ++ ys) ts
      (All-append P xs ys (All-append_left P xs (ts ++ ys) a) (All-append_right P ts ys rest))
      (All-append_left P ts ys rest)

pub length-move :
    (xs ts ys : List (Elem Task)) → length ((xs ++ ys) ++ ts) ≡ length (xs ++ (ts ++ ys))
length-move xs ts ys = omega (
  arith,
  length-append (xs ++ ys) ts,
  length-append xs ys,
  length-append xs (ts ++ ys),
  length-append ts ys,
)

eq_nil_of_length : (xs : List (Elem Task)) → length xs ≡ 0 → xs ≡ []
eq_nil_of_length [] e = refl
eq_nil_of_length (x ∷ xs) e = absurd (omega arith)

single_write :
    (xs : List (Elem Task))
    → All (λ (t : Elem Task). is_write t.type ≡ true) xs
    → length xs ≡ 1
    → (w : Elem Task) × (xs ≡ w ∷ []) × (is_write w.type ≡ true)
single_write [] a e = absurd (omega arith)
single_write (x ∷ []) a e = (x, refl, a.0)
single_write (x ∷ y ∷ xs) a e = absurd (omega arith)

pub Runs-move :
    (st : State) (xs ts ys : List (Elem Task))
    → Runs st (xs ++ (ts ++ ys))
    → Runs st ((xs ++ ys) ++ ts)
Runs-move idle xs ts ys r = eq_nil_of_length ((xs ++ ys) ++ ts) (length-move xs ts ys ∙ ap length r)
Runs-move read xs ts ys r = (
  All-move _ xs ts ys r.0,
  λ e. r.1 (eq_nil_of_length (xs ++ (ts ++ ys)) (sym (length-move xs ts ys) ∙ ap length e)),
)
Runs-move write xs ts ys (w, e, k) =
    single_write ((xs ++ ys) ++ ts)
      (All-move (λ (t : Elem Task). is_write t.type ≡ true) xs ts ys (rw e (k, tt)))
      (length-move xs ts ys ∙ ap length e)
Runs-move lock xs ts ys r = absurd r
Runs-move State.init xs ts ys r = absurd r
Runs-move State.destroy xs ts ys r = absurd r

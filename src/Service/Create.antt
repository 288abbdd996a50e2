-- ===== src/Service/Create.antt =====
-- `_sk_service_data_create` of src/components/sk_service.c: the task queue of a service from its
-- configuration.
use skull.Prelude.{
  ℕ, zero, suc, ◌-◌, ◌*◌, ◌/◌, ◌^◌, ◌≤◌, ◌<◌, ◌≡◌, refl, sym, subst, ◌∙◌, Option, some, [], ltb,
  if◌then◌else◌, arith,
}
use native.Mathlib.Nat.{le_trans, mul-le-mul, le-div_iff_mul-le}
use skull.Prelude.Checked.{Checked, ok}
use skull.Prelude.Int.{ℤ, pos, negsuc}
use skull.Fmbuf.{Fmbuf}
use skull.Config.{SrvDataMode, ServiceCfg}
use skull.Config.Values.{IsInt}
use skull.Queue.{Mode, idle, Elem, SkQueue}
use skull.Queue.Buffer.{IsLimit}
use skull.Queue.View.{view, IsValid}
use skull.Queue.Together.{all_elems}
use skull.Queue.Ops.{sk_queue_create}
use skull.Queue.Create.{sk_queue_create_lem, mode_of}
use skull.Service.{Task}

-- The switch over the mode of the data.
unfoldable pub queue_mode : SrvDataMode → Mode
queue_mode SrvDataMode.rw_pr = Mode.rw_pr
queue_mode SrvDataMode.rw_pw = Mode.rw_pw

-- SK_SRV_MAX_TASK
abbrev pub max_task : ℕ
max_task = 1024

-- `max_queue_size`, where a task has `task_sz` bytes.
unfoldable pub max_queue_size : (task_sz : ℕ) → ℤ → ℕ
max_queue_size task_sz (pos n) =
    let limitation = (2 ^ 64 - 1) / task_sz in
    if ltb 0 n then (if ltb limitation n then limitation else n) else max_task
max_queue_size task_sz (negsuc n) = max_task

module _ {B : Type 0} (fm : Fmbuf B (Elem Task)) where
  unfoldable pub service_data_create : (task_sz : ℕ) → ServiceCfg → Checked (Option (SkQueue B))
  unfolding queue_mode max_queue_size
  service_data_create task_sz cfg =
      sk_queue_create fm (queue_mode cfg.data_mode) task_sz 0 (max_queue_size task_sz cfg.max_qsize)

-- An `int` of tasks has less bytes than a `size_t` counts.
product : (n sz : ℕ) → n ≤ 2 ^ 31 → sz ≤ 2 ^ 31 → n * sz ≤ 2 ^ 62
product n sz h k = le_trans (mul-le-mul h k) (omega arith)

max_queue_size-int :
    (task_sz n : ℕ)
    → 0 < task_sz
    → task_sz ≤ 2 ^ 31
    → suc n < 2 ^ 31
    → max_queue_size task_sz (pos (suc n)) ≡ suc n
unfolding max_queue_size
max_queue_size-int task_sz n h k i =
    let bytes = product (suc n) task_sz (omega (arith, i)) k in
    let below : suc n ≤ (2 ^ 64 - 1) / task_sz = (le-div_iff_mul-le h).1 (omega (arith, bytes)) in
    ground (arith, below)

max_queue_size-IsLimit :
    (task_sz : ℕ) (n : ℤ)
    → 0 < task_sz
    → task_sz ≤ 2 ^ 31
    → IsInt n
    → IsLimit task_sz (max_queue_size task_sz n)
max_queue_size-IsLimit task_sz (pos (suc n)) h k i =
    let same = max_queue_size-int task_sz n h k i in
    subst (IsLimit task_sz) (sym same) (record {
      some_size = h;
      some_slot = omega arith;
      no_wrap = omega (arith, product (suc n) task_sz (omega (arith, i)) k, k);
    })
max_queue_size-IsLimit task_sz (negsuc n) h k i =
    unfold max_queue_size in
    record { some_size = h; some_slot = omega arith; no_wrap = omega (arith, k) }
max_queue_size-IsLimit task_sz (pos zero) h k i =
    unfold max_queue_size in
    record { some_size = h; some_slot = omega arith; no_wrap = omega (arith, k) }

-- How many tasks may wait.
abbrev pub slots : ℤ → ℕ
slots (pos zero) = max_task
slots (pos (suc n)) = suc n
slots (negsuc n) = max_task

max_queue_size-slots :
    (task_sz : ℕ) (n : ℤ)
    → 0 < task_sz
    → task_sz ≤ 2 ^ 31
    → IsInt n
    → max_queue_size task_sz n ≡ slots n
max_queue_size-slots task_sz (pos (suc n)) h k i = max_queue_size-int task_sz n h k i
max_queue_size-slots task_sz (pos zero) h k i = unfold max_queue_size in refl
max_queue_size-slots task_sz (negsuc n) h k i = unfold max_queue_size in refl

module _ {B : Type 0} (fm : Fmbuf B (Elem Task)) where
  -- Whatever a configuration says, its service gets a queue of the mode of its data: valid, idle
  -- and empty, for `max_qsize` tasks, or for 1024 where it is not positive.
  pub service_data_create_lem :
      (task_sz : ℕ) (cfg : ServiceCfg)
      → 0 < task_sz
      → task_sz ≤ 2 ^ 31
      → IsInt cfg.max_qsize
      → (q : SkQueue B) × (service_data_create fm task_sz cfg ≡ ok (some q))
        × IsValid fm q
        × (q.state ≡ idle)
        × (all_elems (view fm q) ≡ [])
        × (mode_of q.data_ ≡ queue_mode cfg.data_mode)
        × (q.max_slots ≡ slots cfg.max_qsize)
  unfolding service_data_create
  service_data_create_lem task_sz cfg h k i =
      let (q, made, v, idle_q, empty, mode, max) =
        sk_queue_create_lem fm (queue_mode cfg.data_mode) task_sz 0
          (max_queue_size task_sz cfg.max_qsize)
          (max_queue_size-IsLimit task_sz cfg.max_qsize h k i) (omega arith) in
      (q, made, v, idle_q, empty, mode, max ∙ max_queue_size-slots task_sz cfg.max_qsize h k i)

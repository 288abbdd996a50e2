-- ===== src/Queue.antt =====
-- src/common/sk_queue.c and src/api/sk_queue.h: the task queues of a service. The buffers are
-- `fmbuf`s. `mode`, the table of functions `opt` and the union `data` are set together when a
-- queue is created, so one data type with a constructor for each mode stands for the three.
pub mod Buffer
pub mod Pulling
pub mod View
pub mod Refine
pub mod Together
pub mod Laws
pub mod Create
pub mod Single
mod Tests
pub mod Ops
use skull.Prelude.{
  ℕ, zero, suc, ◌+◌, ◌-◌, ◌*◌, ◌/◌, ◌%◌, ◌^◌, ◌≡◌, Bool, true, false, ◌&&◌, ◌||◌, Option, none,
  some, List, [], ◌∷◌, ◌++◌, length, ltb, leb, ◌==◌, if◌then◌else◌,
}
use skull.Prelude.Checked.{Checked, ok, assert_failed, out_of_fuel, ◌>>=◌, ◌>>◌, sk_assert}
use skull.Fmbuf.{Fmbuf}

pub data Mode : Type 0 where
  exclusive rw_pr rw_pw : Mode

pub data State : Type 0 where
  init destroy idle lock read write : State

pub data ElemType : Type 0 where
  elem_exclusive elem_read elem_write : ElemType

-- An element begins with its type; what follows is the client's.
pub record Elem (T : Type 0) : Type 0 where
  pub type : ElemType
  pub body : T

abbrev pub is_read : ElemType → Bool
is_read elem_read = true
is_read _ = false

abbrev pub is_write : ElemType → Bool
is_write elem_write = true
is_write _ = false

abbrev pub is_exclusive : ElemType → Bool
is_exclusive elem_exclusive = true
is_exclusive _ = false

-- `SK_QUEUE_ELEM_ANY != type && (int)elem->type != type`, negated; `none` is `SK_QUEUE_ELEM_ANY`.
abbrev pub accepts : Option ElemType → ElemType → Bool
accepts none t = true
accepts (some elem_exclusive) t = is_exclusive t
accepts (some elem_read) t = is_read t
accepts (some elem_write) t = is_write t

pub data Buffers (B : Type 0) : Type 0 where
  exclusive_mq : B → Buffers B
  rw_pr_mqs : (rmq wmq : B) → Buffers B
  rw_pw_mq : B → Buffers B

pub record SkQueue (B : Type 0) : Type 0 where
  pub state : State
  pub elem_sz : ℕ
  pub max_slots : ℕ
  pub data_ : Buffers B

abbrev pub size_t_mod : ℕ
size_t_mod = 2 ^ 64

abbrev pub default_write_slots : ℕ
default_write_slots = 1

-- `sizeof(sk_queue_elem_base_t)`, a struct of one enum.
abbrev pub sizeof_elem_base : ℕ
sizeof_elem_base = 4

-- What a pull wrote into the caller's array: each element with its offset in bytes.
abbrev pub Writes : Type 0 → Type 0
Writes T = List (ℕ × Elem T)

-- The loop of `_get_new_size`. `new_sz - used_sz` is a `size_t`.
unfoldable pub double_size : ℕ → ℕ → ℕ → ℕ → Checked ℕ
double_size zero new_sz used_sz wanted = out_of_fuel
double_size (suc fuel) new_sz used_sz wanted =
    let doubled = new_sz * 2 % size_t_mod in
    let rest = double_size fuel doubled used_sz wanted in
    if new_sz == 0
    then ok new_sz
    else if leb wanted ((doubled + size_t_mod - used_sz) % size_t_mod)
    then ok doubled
    else rest

-- After 64 doublings a `size_t` is 0, and the loop has ended.
abbrev pub double_fuel : ℕ
double_fuel = 66

module _ {B T : Type 0} (fm : Fmbuf B (Elem T)) where
  unfoldable pub get_new_size : B → ℕ → ℕ → ℕ → Checked ℕ
  get_new_size mq new_slots max_slots elem_sz = do
    let curr_sz = fm.size mq
    new_sz ←
        double_size double_fuel (if curr_sz == 0 then 1 else curr_sz) (fm.used mq)
          (new_slots * elem_sz)
    let max_buf_sz = max_slots * elem_sz
    let capped = if ltb max_buf_sz new_sz then max_buf_sz else new_sz
    sk_assert (ltb 0 capped)
    ok capped

  -- `_sk_queue_push`: the buffer afterwards, and the return value (`false` is 0, `true` is 1).
  unfoldable pub buffer_push : B → ℕ → Elem T → ℕ → Checked (B × Bool)
  buffer_push mq max_slots elem elem_sz = elim (fm.push mq elem elem_sz) [
    | some mq' ↦ ok (mq', false)
    | none ↦ do
      new_sz ← get_new_size mq 1 max_slots elem_sz
      if fm.size mq == new_sz
          then ok (mq, true)
          else elim (fm.push (fm.realloc mq new_sz) elem elem_sz) [
            | some mq' ↦ ok (mq', false)
            | none ↦ assert_failed
          ]
  ]

  -- `_sk_queue_pull` with `left` slots to go after `pulled_cnt` elements. `elems` points to
  -- `sk_queue_elem_base_t`, so `elems + n` is `sizeof_elem_base * n` bytes further on.
  unfoldable pub buffer_pull :
      B → Option ElemType → ℕ → ℕ → (left pulled_cnt : ℕ) → Checked (B × Writes T)
  buffer_pull mq type elem_sz elems zero pulled_cnt = ok (mq, [])
  buffer_pull mq type elem_sz elems (suc left) pulled_cnt = elim (fm.rawget mq elem_sz) [
    | none ↦ ok (mq, [])
    | some elem ↦ elim (accepts type elem.type) [
      | false ↦ ok (mq, [])
      | true ↦ elim (fm.pop mq elem_sz) [
        | none ↦ assert_failed
        | some (popped, mq') ↦ do
          (mq'', writes) ← buffer_pull mq' type elem_sz elems left (pulled_cnt + 1)
          ok (mq'', (elems + sizeof_elem_base * (pulled_cnt * elem_sz), popped) ∷ writes)
      ]
    ]
  ]

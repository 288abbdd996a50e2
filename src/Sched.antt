-- ===== src/Sched.antt =====
-- The schedulers of the engines and the messages between them, src/components/sk_sched.c and
-- src/common/sk_io.c. A scheduler, an entity and a transaction are named by numbers.
pub mod Route
pub mod Ops
pub mod Buffers
pub mod RoundRobin
pub mod Laws
pub mod Copy
mod Tests
use skull.Prelude.{ℕ, Bool, Option, List}
use skull.Pto.{Hdr}

-- `sk_event_t`: `dst` and `txn` are none for a null pointer, and `data_` where there is no message.
pub record Event : Type 0 where
  pub src : ℕ
  pub dst : Option ℕ
  pub pto_id : ℕ
  pub hop : ℕ
  pub flags : ℕ
  pub entity : ℕ
  pub txn : Option ℕ
  pub data_ : Option Hdr

-- `sk_io_t`
pub record Io (B : Type 0) : Type 0 where
  pub input : B
  pub output : B

-- `sk_io_bridge_t`, where `routable` tells that `dst->flags` has no SK_SCHED_NON_RR_ROUTABLE.
pub record Bridge (B : Type 0) : Type 0 where
  pub dst : ℕ
  pub routable : Bool
  pub mq : B

-- `sk_sched_t`, with its buffers by priority.
pub record Sched (B : Type 0) : Type 0 where
  pub id : ℕ
  pub io_tbl : ℕ → Io B
  pub bridge_tbl : List (Bridge B)
  pub last_delivery_idx : ℕ

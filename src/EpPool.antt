-- ===== src/EpPool.antt =====
-- The pool of endpoints, src/components/sk_ep_pool.c: connections that services send requests on.
-- An endpoint, a transaction, an entity and a timer are named by numbers, as its pointers name them.
pub mod Txns
pub mod Mgr
pub mod Send
pub mod Count
pub mod Good
pub mod GoodSteps
pub mod Keep
pub mod KeepSend
pub mod System
pub mod Answer
pub mod Quiet
pub mod Time
pub mod Inv
pub mod Remove
pub mod Error
pub mod Find
pub mod Steps
mod Tests
use skull.Prelude.{ℕ, Bool, Option, List}
use skull.Prelude.Int.{ℤ}

pub data EpSt : Type 0 where
  sk_ep_st_init : EpSt
  sk_ep_st_connecting : EpSt
  sk_ep_st_connected : EpSt

pub data EpNst : Type 0 where
  sk_ep_nst_init : EpNst
  sk_ep_nst_pending : EpNst
  sk_ep_nst_sent : EpNst

pub data EpStatus : Type 0 where
  sk_ep_ok : EpStatus
  sk_ep_error : EpStatus
  sk_ep_timed_out : EpStatus

-- `sk_ep_handler_t`: `type` is 0 for TCP and 1 for UDP, `ip` is none for a null pointer.
-- `unpack` is the user's function.
pub record Handler : Type 0 where
  pub type : ℕ
  pub port : ℕ
  pub ip : Option ℕ
  pub timeout : ℕ
  pub flags : ℕ
  pub unpack : Option (List ℕ → ℤ)
  pub release : Bool

-- `sk_ep_data_t` in its list, where `node` is its place.
pub record EpData : Type 0 where
  pub node : ℕ
  pub handler : Handler
  pub cb : Bool
  pub ud : ℕ
  pub start : ℕ
  pub recv_timer : Option ℕ
  pub status : EpNst
  pub data_ : List ℕ

-- `sk_ep_t`, where `entity` tells whether it has one, and `fd` is none for -1.
pub record Ep : Type 0 where
  pub ekey : ℕ
  pub ipkey : ℕ
  pub type : ℕ
  pub status : EpSt
  pub entity : Bool
  pub txns : List EpData
  pub ntxn : ℤ
  pub flags : ℕ
  pub conn_timer : Option ℕ
  pub shutdown_timer : Option ℕ
  pub fd : Option ℕ

pub data TimerCb : Type 0 where
  recv_timeout : TimerCb
  shutdown_ep : TimerCb
  conn_timeout : TimerCb

-- What the pool does to the user, the timers and the network, in order.
pub data Out : Type 0 where
  ep_cb : EpStatus → ℕ → List ℕ → Out
  ep_release : ℕ → Out
  timer_create : ℕ → TimerCb → ℕ → Out
  timer_resetn : ℕ → ℕ → Out
  timer_cancel : ℕ → Out
  net_write : Option ℕ → List ℕ → Out
  net_pop : ℕ → Out
  net_close : ℕ → Out

-- An endpoint while a handler runs on it, with the next number to give.
pub record Run : Type 0 where
  pub ep : Ep
  pub next : ℕ
  pub out : List Out

-- `sk_ep_mgr_t` and the memory: `ee` leads from an entity and an address to endpoints, `eps` is the
-- entity manager, with the endpoints whose entities it owns.
pub record EpMgr : Type 0 where
  pub heap : ℕ → Option Ep
  pub ee : ℕ → ℕ → List ℕ
  pub eps : List ℕ
  pub max : ℕ
  pub nep : ℤ
  pub next : ℕ
  pub out : List Out

-- What the clock, the timers, the network and the lists of flibs answer. `fdlist_push` and
-- `flist_push` put an entry somewhere into the order in which the list is read and popped.
pub record Outside : Type 0 where
  pub now : ℕ
  pub write_ok : Option ℕ → List ℕ → Bool
  pub resetn_ok : ℕ → ℕ → Bool
  pub conn_async : ℕ → ℕ → ℤ × Option ℕ
  pub reg_event : ℕ → ℤ
  pub udp_socket : ℕ → ℕ → Option ℕ
  pub udp_connect : ℕ → Bool
  pub evbuff_new : ℕ → Bool
  pub ipkey : ℕ → ℕ → ℕ
  pub fdlist_push : List EpData → EpData → List EpData
  pub flist_push : List ℕ → ℕ → List ℕ

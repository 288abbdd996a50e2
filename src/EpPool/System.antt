-- ===== src/EpPool/System.antt =====
-- The states that a manager of endpoints reaches, src/components/sk_ep_pool.c: requests, news from
-- connections and timers, in any order and with any answers of the network.
use skull.Prelude.{ℕ, ◌≡◌, refl, Bool, Option, List, arith}
use skull.Prelude.Counts.{count}
use skull.Prelude.Checked.{ok}
use skull.EpPool.{EpStatus, EpMgr, Outside}
use skull.EpPool.Mgr.{
  handle_error, on_recv_timeout, on_shutdown_ep, on_conn_timeout, mgr_read, mgr_connect,
}
use skull.EpPool.Send.{Request, mgr_send, sk_ep_mgr_create}
use skull.EpPool.Count.{IsPush}
use skull.EpPool.Inv.{IsValid}
use skull.EpPool.Keep.{
  handle_error-IsValid, mgr_read-IsValid, mgr_connect-IsValid, on_recv_timeout-IsValid,
  on_shutdown_ep-IsValid, on_conn_timeout-IsValid,
}
use skull.EpPool.KeepSend.{mgr_send-IsValid}

-- One event, whose handler returns.
pub data Event (o : Outside) (m m' : EpMgr) : Type 0 where
  on_send :
      (q : Request) (ip : ℕ) (status : EpStatus)
      → mgr_send o q ip m ≡ ok (status, m')
      → Event o m m'
  on_read : (bytes : Option (List ℕ)) (p : ℕ) → mgr_read o bytes p m ≡ ok m' → Event o m m'
  on_error : (p : ℕ) → handle_error o p m ≡ ok m' → Event o m m'
  on_connected :
      (sockfd : ℕ) (mask_error : Bool) (err : Option ℕ) (p : ℕ)
      → mgr_connect o sockfd mask_error err p m ≡ ok m'
      → Event o m m'
  on_recv_timer :
      (valid : Bool) (p node : ℕ) → on_recv_timeout valid p node m ≡ ok m' → Event o m m'
  on_shutdown_timer : (valid : Bool) (p : ℕ) → on_shutdown_ep o valid p m ≡ ok m' → Event o m m'
  on_conn_timer : (valid : Bool) (p : ℕ) → on_conn_timeout o valid p m ≡ ok m' → Event o m m'

pub data Reachable (max : ℕ) : EpMgr → Type 0 where
  created : Reachable max (sk_ep_mgr_create max)
  after :
      {m m' : EpMgr} (o : Outside)
      → IsPush o.flist_push
      → IsPush o.fdlist_push
      → Reachable max m
      → Event o m m'
      → Reachable max m'

sk_ep_mgr_create-IsValid : (max : ℕ) → IsValid (sk_ep_mgr_create max)
unfolding sk_ep_mgr_create count
sk_ep_mgr_create-IsValid max = record {
  filed = λ p. (refl, λ k a. refl);
  fresh = λ p h. refl;
  counted = refl;
  bounded = omega arith;
}

Event-IsValid :
    (o : Outside) (m m' : EpMgr)
    → IsPush o.flist_push
    → IsPush o.fdlist_push
    → IsValid m
    → Event o m m'
    → IsValid m'
Event-IsValid o m m' law txn_law v (on_send q ip status e) =
    mgr_send-IsValid o law txn_law q ip m status m' v e
Event-IsValid o m m' law txn_law v (on_read bytes p e) = mgr_read-IsValid o law bytes p m m' v e
Event-IsValid o m m' law txn_law v (on_error p e) = handle_error-IsValid o law p m m' v e
Event-IsValid o m m' law txn_law v (on_connected sockfd mask_error err p e) =
    mgr_connect-IsValid o law sockfd mask_error err p m m' v e
Event-IsValid o m m' law txn_law v (on_recv_timer valid p node e) =
    on_recv_timeout-IsValid o law valid p node m m' v e
Event-IsValid o m m' law txn_law v (on_shutdown_timer valid p e) =
    on_shutdown_ep-IsValid o law valid p m m' v e
Event-IsValid o m m' law txn_law v (on_conn_timer valid p e) =
    on_conn_timeout-IsValid o law valid p m m' v e

-- In every state that events lead to, an endpoint in memory is owned by the entity manager once,
-- stands in the list of its keys once and in no other, and its transactions are as many as `ntxn`
-- says. What was freed is nowhere, `nep` counts the endpoints, and they are at most `max`.
pub Reachable-IsValid : (max : ℕ) (m : EpMgr) → Reachable max m → IsValid m
Reachable-IsValid max m created = sk_ep_mgr_create-IsValid max
Reachable-IsValid max m (after {m = m₀} o law txn_law r event) =
    Event-IsValid o m₀ m law txn_law (Reachable-IsValid max m₀ r) event

-- ===== src/EpPool/Time.antt =====
-- The time that src/components/sk_ep_pool.c leaves a transaction.
use skull.Prelude.{ℕ, ◌+◌, ◌^◌, ◌≤◌, ◌<◌, ◌≡◌, ◌⊎◌, inl, inr, Bool-cases, true, false, leb, arith}
use skull.EpPool.{EpData}
use skull.EpPool.Txns.{sk_ep_timeout, sk_ep_txn_time_left, timer_time}

-- A timer that is set for a transaction with a timeout of 32 bits runs for at least a millisecond,
-- never longer than the timeout, and ends when the timeout is over, or after a millisecond where it
-- is over already. It is over exactly where `sk_ep_timeout` says so.
pub timer_time-bounds :
    (now : ℕ) (t : EpData)
    → 0 < t.handler.timeout
    → t.handler.timeout < 2 ^ 32
    → t.start ≤ now
    → (1 ≤ timer_time (sk_ep_txn_time_left now t))
      × (timer_time (sk_ep_txn_time_left now t) ≤ t.handler.timeout)
      × ((sk_ep_timeout now t ≡ true) × (timer_time (sk_ep_txn_time_left now t) ≡ 1)
          ⊎ (sk_ep_timeout now t ≡ false)
            × (now + timer_time (sk_ep_txn_time_left now t) ≡ t.start + t.handler.timeout))
unfolding sk_ep_timeout sk_ep_txn_time_left timer_time
timer_time-bounds now t pos small begun =
    elim (Bool-cases (leb (t.start + t.handler.timeout) now)) [
      | inl over ↦ (
        ground (arith, over, pos),
        ground (arith, over, pos),
        inl (ground (arith, over, pos), ground (arith, over, pos)),
      )
      | inr left ↦ (
        ground (arith, left, pos, small, begun),
        ground (arith, left, pos, small, begun),
        inr (ground (arith, left, pos), ground (arith, left, pos, small, begun)),
      )
    ]

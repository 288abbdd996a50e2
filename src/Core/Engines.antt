-- ===== src/Core/Engines.antt =====
-- `_sk_setup_engines` of src/components/sk_core.c: the bridges between the engines. An engine is a
-- number: 0 is the master, the workers follow, and behind them the background engines.
use skull.Prelude.{ℕ, zero, suc, ◌+◌, ◌*◌, Bool, Option, none, some, ltb, leb, ◌==◌, if◌then◌else◌}
use skull.Prelude.Int.{ℤ, pos, negsuc}
use skull.Fmbuf.{Fmbuf}
use skull.Config.{Loaded, ok, assert_failed, ◌>>=◌}
use skull.Sched.{Event, Sched}
use skull.Sched.Ops.{sk_event_sz, sk_sched_setup_bridge}

abbrev pub master : ℕ
master = 0

-- The schedulers of the engines.
abbrev pub Scheds : Type 0 → Type 0
Scheds B = ℕ → Sched B

abbrev pub update : {B : Type 0} → Scheds B → ℕ → Sched B → Scheds B
update b src s e = if e == src then s else b e

-- A background engine has the flag SK_SCHED_NON_RR_ROUTABLE.
abbrev pub routable : (threads : ℕ) → ℕ → Bool
routable threads e = leb e threads

module _ {B : Type 0} (fm : Fmbuf B Event) (threads : ℕ) where
  -- `sk_engine_link`, which asserts that there is room for a bridge of SK_SCHED_IO_BRIDGE_SZ events.
  unfoldable pub sk_engine_link : ℕ → ℕ → Scheds B → Loaded (Scheds B)
  unfolding sk_sched_setup_bridge
  sk_engine_link src dst b =
      elim (sk_sched_setup_bridge fm (b src) dst (routable threads dst)
        (fm.create (sk_event_sz * 65535))) [ none ↦ assert_failed | some s ↦ ok (update b src s) ]

  -- A round of the loop over the workers, and one of the loop over the background engines.
  unfoldable pub setup_worker : ℕ → Scheds B → Loaded (Scheds B)
  unfolding sk_engine_link
  setup_worker e b = sk_engine_link master e b >>= sk_engine_link e master

  unfoldable pub setup_bio : ℕ → Scheds B → Loaded (Scheds B)
  unfolding sk_engine_link
  setup_bio e b = sk_engine_link e master b >>= sk_engine_link master e

  -- The two loops, with the rounds left and the number of the next engine.
  unfoldable pub setup_workers : ℕ → ℕ → Scheds B → Loaded (Scheds B)
  unfolding setup_worker
  setup_workers zero e b = ok b
  setup_workers (suc n) e b = setup_worker e b >>= λ b'. setup_workers n (suc e) b'

  unfoldable pub setup_bios : ℕ → ℕ → Scheds B → Loaded (Scheds B)
  unfolding setup_bio
  setup_bios zero e b = ok b
  setup_bios (suc n) e b = setup_bio e b >>= λ b'. setup_bios n (suc e) b'

  -- `_sk_setup_engines`, of the schedulers as `sk_sched_create` gives them.
  unfoldable pub setup_engines : (bio_cnt : ℕ) → Scheds B → Loaded (Scheds B)
  unfolding setup_workers setup_bios
  setup_engines bio_cnt created =
      setup_workers threads 1 created >>= λ b. setup_bios bio_cnt (suc threads) b

-- `sk_core_bio`: the engine, or none where there is no such background engine.
unfoldable pub sk_core_bio : (threads bio_cnt : ℕ) → ℤ → Option ℕ
sk_core_bio threads bio_cnt (pos zero) = none
sk_core_bio threads bio_cnt (pos (suc i)) = if ltb i bio_cnt then some (suc (threads + i)) else none
sk_core_bio threads bio_cnt (negsuc i) = none

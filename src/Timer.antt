-- ===== src/Timer.antt =====
-- The timer service, src/common/sk_timer_service.c, and the protocol that runs a timer,
-- src/pto/sk_pto_timer_triggered.c. A timer is named by a number, as its pointer names it; a read of
-- a freed timer counts as a failed assertion. The table of timers is that of flibs.
pub mod Inv
pub mod Laws
mod Tests
use skull.Prelude.{
  ℕ, ◌+◌, ◌-◌, ◌%◌, ◌^◌, Bool, true, false, not, none, some, List, [], ◌∷◌, ◌==◌, length, All,
  if◌then◌else◌, ◌≡◌, ◌≤◌,
}
use skull.Prelude.Checked.{Checked, ok, assert_failed, ◌>>=◌, ◌>>◌, sk_assert}
use skull.Prelude.Counts.{count, delete}
use skull.Fhash.{Fhash}
use skull.Pto.{Hdr, sk_pto_pack, sk_pto_check}

-- `SK_PTO_TIMER_TRIGGERED`
abbrev pub pto_timer_triggered : ℕ
pto_timer_triggered = 6

-- `sk_timer_t`
pub record SkTimer : Type 0 where
  pub owner : ℕ
  pub entity : ℕ
  pub trigger : ℕ
  pub ud : ℕ
  pub valid : Bool
  pub triggered : Bool
  pub interval : ℕ

-- `sk_timersvc_t`, with the address `self`; `timer_alive` is a `uint32_t`.
pub record TimerSvc (H : Type 0) : Type 0 where
  pub self : ℕ
  pub timers : H
  pub timer_alive : ℕ

module _ {H : Type 0} (fh : Fhash H SkTimer) where
  abbrev pub read_timer : TimerSvc H → ℕ → Checked SkTimer
  read_timer svc timer = elim (fh.get svc.timers timer) [ none ↦ assert_failed | some t ↦ ok t ]

  abbrev pub write_timer : TimerSvc H → ℕ → SkTimer → TimerSvc H
  write_timer svc timer t = record svc { timers = fh.set svc.timers timer t }

  -- `sk_timersvc_timer_create`, with the memory that it got.
  unfoldable pub sk_timersvc_timer_create :
      TimerSvc H → (timer entity interval trigger ud : ℕ) → TimerSvc H
  sk_timersvc_timer_create svc timer entity interval trigger ud = record svc {
    timers = fh.set svc.timers timer (record {
      owner = svc.self;
      entity = entity;
      trigger = trigger;
      ud = ud;
      valid = true;
      triggered = false;
      interval = interval;
    });
    timer_alive = (svc.timer_alive + 1) % 2 ^ 32;
  }

  -- `_timer_triggered`, which sends SK_PTO_TIMER_TRIGGERED.
  unfoldable pub timer_triggered : TimerSvc H → ℕ → Checked (TimerSvc H)
  timer_triggered svc timer = do
    t ← read_timer svc timer
    ok (write_timer svc timer (record t { triggered = true }))

  -- `sk_timer_cancel`
  unfoldable pub sk_timer_cancel : TimerSvc H → ℕ → Checked (TimerSvc H)
  sk_timer_cancel svc timer = do
    t ← read_timer svc timer
    ok (write_timer svc timer (record t { valid = false }))

  -- `sk_timer_resetn` and `sk_timer_reset`, which return 1 where this returns `false`.
  unfoldable pub sk_timer_resetn : TimerSvc H → ℕ → Checked Bool
  sk_timer_resetn svc timer = do t ← read_timer svc timer; ok (not t.triggered)

  -- `sk_timersvc_timer_destroy`, and whether it deletes the timer of flibs.
  unfoldable pub sk_timersvc_timer_destroy : TimerSvc H → ℕ → Checked (Bool × TimerSvc H)
  sk_timersvc_timer_destroy svc timer = do
    t ← read_timer svc timer
    sk_assert (svc.self == t.owner)
    ok (
      not t.triggered,
      record svc {
        timers = (fh.del svc.timers timer).1;
        timer_alive = (svc.timer_alive + 2 ^ 32 - 1) % 2 ^ 32;
      },
    )

  -- What SK_PTO_TIMER_TRIGGERED calls back with, what it deletes of flibs, and the service behind it.
  pub record Ran : Type 0 where
    pub called_valid : Bool
    pub fev_deleted : Bool
    pub svc : TimerSvc H

  -- `_run` of SK_PTO_TIMER_TRIGGERED, for a message about the timer.
  unfoldable pub timer_triggered_run : TimerSvc H → Hdr → ℕ → Checked Ran
  unfolding sk_timersvc_timer_destroy
  timer_triggered_run svc msg timer = do
    checked ← sk_pto_check pto_timer_triggered msg
    sk_assert checked
    t ← read_timer svc timer
    if t.interval == 0
        then (do
          (deleted, svc') ← sk_timersvc_timer_destroy svc timer
          ok (record { called_valid = t.valid; fev_deleted = deleted; svc = svc' }))
        else ok (record { called_valid = t.valid; fev_deleted = false; svc = svc })

  -- The service with the timers that flibs will trigger, those for which a message is under way, and
  -- those that are in memory.
  pub record System : Type 0 where
    pub svc : TimerSvc H
    pub armed : List ℕ
    pub events : List ℕ
    pub alive : List ℕ

  abbrev pub unless : Bool → ℕ → List ℕ → List ℕ
  unless keep timer ts = if keep then ts else delete timer ts

  -- A message of the protocol that `_timer_triggered` packed.
  abbrev pub IsSent : Hdr → Type 0
  IsSent msg =
      (args : List (List ℕ)) × (length args ≡ 3)
      × All (λ (a : List ℕ). length a ≡ 8) args
      × (sk_pto_pack pto_timer_triggered args ≡ ok msg)

  -- Timers are created, cancelled, triggered by flibs and run in any order. One with an interval
  -- stays armed. What the callback of a timer does with the timers are steps of their own.
  pub data Step (m : System) : System → Type 0 where
    create :
        (timer entity interval trigger ud : ℕ)
        → fh.get m.svc.timers timer ≡ none
        → Step m (record m {
          svc = sk_timersvc_timer_create m.svc timer entity interval trigger ud;
          armed = timer ∷ m.armed;
          alive = timer ∷ m.alive;
        })
    cancel :
        (timer : ℕ) (s : TimerSvc H)
        → sk_timer_cancel m.svc timer ≡ ok s
        → Step m (record m { svc = s })
    fire :
        (timer : ℕ) (t : SkTimer) (s : TimerSvc H)
        → 1 ≤ count timer m.armed
        → fh.get m.svc.timers timer ≡ some t
        → timer_triggered m.svc timer ≡ ok s
        → Step m (record m {
          svc = s;
          armed = unless (not (t.interval == 0)) timer m.armed;
          events = timer ∷ m.events;
        })
    run :
        (timer : ℕ) (t : SkTimer) (msg : Hdr) (r : Ran)
        → 1 ≤ count timer m.events
        → IsSent msg
        → fh.get m.svc.timers timer ≡ some t
        → timer_triggered_run m.svc msg timer ≡ ok r
        → Step m (record m {
          svc = r.svc;
          events = delete timer m.events;
          alive = unless (not (t.interval == 0)) timer m.alive;
        })

  -- At the address `self`
  abbrev pub start : ℕ → System
  start self = record {
    svc = record { self = self; timers = fh.create; timer_alive = 0 };
    armed = [];
    events = [];
    alive = [];
  }

  pub data Reach : System → Type 0 where
    started : (self : ℕ) → Reach (start self)
    later : {m n : System} → Reach m → Step m n → Reach n

-- ===== src/Timer/Laws.antt =====
-- What running a timer does, and the states that the timers of src/common/sk_timer_service.c reach.
use skull.Prelude.{
  ℕ, ◌+◌, ◌-◌, ◌%◌, ◌^◌, ◌≤◌, ◌≡◌, ◌≢◌, refl, ap, sym, subst, ◌∙◌, ◌⊎◌, inl, inr, Bool, true, false,
  not, some, List, length, ◌==◌, if◌then◌else◌, arith,
}
use skull.Prelude.Checked.{ok, ◌>>=◌}
use skull.Prelude.Holds.{ok-inj}
use skull.Prelude.Counts.{
  count, delete, count-delete_ne, count-delete_self, count-member, length-delete,
}
use skull.Fhash.{Fhash}
use skull.Pto.{Hdr, sk_pto_check}
use skull.Pto.Laws.{sk_pto_check-sk_pto_pack}
use skull.Timer.{
  pto_timer_triggered, IsSent, SkTimer, TimerSvc, System, Step, create, cancel, fire, run, Reach,
  started, later, sk_timersvc_timer_destroy, timer_triggered_run, Ran, unless,
}
use skull.Timer.Inv.{
  IsPhase, IsTimer-same, IsValid, refile, filed-some, event-alive, create-IsValid, cancel-IsValid,
  fire-IsValid,
}

module _ {H : Type 0} (fh : Fhash H SkTimer) where
  -- The service without a timer, or as it was where the timer has an interval.
  abbrev pub after_run : TimerSvc H → ℕ → SkTimer → TimerSvc H
  after_run svc timer t = if not (t.interval == 0) then svc else record svc {
    timers = (fh.del svc.timers timer).1;
    timer_alive = (svc.timer_alive + 2 ^ 32 - 1) % 2 ^ 32;
  }

  IsSent-checked : (msg : Hdr) → IsSent fh msg → sk_pto_check pto_timer_triggered msg ≡ ok true
  IsSent-checked msg (args, n, h, packs) =
      sym (ap (λ m. m >>= sk_pto_check pto_timer_triggered) packs)
      ∙ sk_pto_check-sk_pto_pack pto_timer_triggered
          (record { id = pto_timer_triggered; pri = 8; argc = 3; salt = 16 }) args refl n h

  run_lem :
      (m : System fh) (timer : ℕ) (t : SkTimer) (msg : Hdr)
      → IsSent fh msg
      → fh.get m.svc.timers timer ≡ some t
      → t.owner ≡ m.svc.self
      → ((t.interval == 0) ≡ false) ⊎ ((t.interval == 0) ≡ true) × (t.triggered ≡ true)
      → timer_triggered_run fh m.svc msg timer
        ≡ ok (record { called_valid = t.valid; fev_deleted = false; svc = after_run m.svc timer t })
  unfolding timer_triggered_run sk_timersvc_timer_destroy
  run_lem m timer t msg sent here own (inl again) =
      let checked = IsSent-checked msg sent in grind (arith, checked, here, again)
  run_lem m timer t msg sent here own (inr (once, triggered)) =
      let checked = IsSent-checked msg sent in
      let mine : (m.svc.self == t.owner) ≡ true = ground (arith, own) in
      grind (arith, checked, here, once, triggered, mine)

  run-IsValid :
      (m : System fh) (timer : ℕ) (t : SkTimer)
      → IsValid fh m
      → 1 ≤ count timer m.events
      → fh.get m.svc.timers timer ≡ some t
      → IsValid fh (record {
        svc = after_run m.svc timer t;
        armed = m.armed;
        events = delete timer m.events;
        alive = unless fh (not (t.interval == 0)) timer m.alive;
      })
  run-IsValid m timer t v sent here =
      by_interval (t.interval == 0) refl ((filed-some fh m timer t v here).1)
    where
      after : Bool → System fh
      after once = record {
        svc = if not once then m.svc else record m.svc {
          timers = (fh.del m.svc.timers timer).1;
          timer_alive = (m.svc.timer_alive + 2 ^ 32 - 1) % 2 ^ 32;
        };
        armed = m.armed;
        events = delete timer m.events;
        alive = unless fh (not once) timer m.alive;
      }

      own : t.owner ≡ m.svc.self
      own = (filed-some fh m timer t v here).2

      l : count timer m.alive ≡ 1
      l = (filed-some fh m timer t v here).0

      other : (q : ℕ) → q ≢ timer → (ts : List ℕ) → count q (delete timer ts) ≡ count q ts
      other q ne ts = count-delete_ne timer q ts (λ eq. ne (sym eq))

      gone : (ts : List ℕ) → count timer ts ≡ 1 → count timer (delete timer ts) ≡ 0
      gone ts one = grind (arith, one, count-delete_self timer ts, count-member timer ts)

      by_interval :
          (once : Bool)
          → (t.interval == 0) ≡ once
          → IsPhase t (count timer m.armed) (count timer m.events)
          → IsValid fh (after once)
      by_interval false e (inl (again, a)) = record {
        filed =
            refile fh m _ _ _ _ timer v (λ q ne. refl) (λ q ne. refl) (λ q ne. other q ne m.events)
              (λ q ne. refl) (IsTimer-same m.svc.self here refl refl refl (l, inl (again, a), own));
        counted = v.counted;
      }
      by_interval false e (inr (once, _)) = cc
      by_interval true e (inl (again, _)) = cc
      by_interval true e (inr (_, inl (_, _, none_sent))) = absurd (omega (arith, none_sent, sent))
      by_interval true e (inr (_, inr (_, a, one))) = record {
        filed =
            refile fh m _ _ _ _ timer v (λ q ne. fh.get-del_ne m.svc.timers timer q ne)
              (λ q ne. refl) (λ q ne. other q ne m.events) (λ q ne. other q ne m.alive)
              (IsTimer-same m.svc.self (fh.get-del m.svc.timers timer) a (gone m.events one)
                (gone m.alive l) (refl, refl, refl));
        counted = omega (arith, v.counted, length-delete timer m.alive (omega (arith, l)));
      }

  Step-IsValid : (m n : System fh) → IsValid fh m → Step fh m n → IsValid fh n
  Step-IsValid m n v (create timer entity interval trigger ud free) =
      create-IsValid fh m timer entity interval trigger ud v free
  Step-IsValid m n v (cancel timer s e) = cancel-IsValid fh m timer s v e
  Step-IsValid m n v (fire timer t s armed here e) = fire-IsValid fh m timer t s v armed here e
  Step-IsValid m n v (run timer t msg r sent packed here e) =
      let (t', here', phase, own) = event-alive fh m timer v sent in
      let same : t' ≡ t = grind (arith, here, here') in
      let runs = run_lem m timer t' msg packed here' own phase in
      subst
        (λ s. IsValid fh (record {
          svc = s;
          armed = m.armed;
          events = delete timer m.events;
          alive = unless fh (not (t.interval == 0)) timer m.alive;
        }))
        (ap (λ t. after_run m.svc timer t) (sym same)
          ∙ ap (λ (r : Ran fh). r.svc) (ok-inj _ _ (sym runs ∙ e)))
        (run-IsValid m timer t v sent here)

  Reach-IsValid : (m : System fh) → Reach fh m → IsValid fh m
  unfolding count
  Reach-IsValid m (started self) = record {
    filed = λ p. IsTimer-same self (fh.get-create p) refl refl refl (refl, refl, refl);
    counted = refl;
  }
  Reach-IsValid n (later {m} r step) = Step-IsValid m n (Reach-IsValid m r) step

  -- In whatever order timers are created, cancelled, triggered and run: `timer_alive` counts the
  -- timers in memory modulo 2^32, and the message of a triggered timer finds it there. Its handler
  -- fails no assertion, calls back with whether the timer is not cancelled, and deletes no timer of
  -- flibs.
  pub timer_triggered_run-Reach :
      (m : System fh) (timer : ℕ) (msg : Hdr)
      → Reach fh m
      → 1 ≤ count timer m.events
      → IsSent fh msg
      → (m.svc.timer_alive ≡ length m.alive % 2 ^ 32)
        × ((t : SkTimer) × (fh.get m.svc.timers timer ≡ some t)
            × (timer_triggered_run fh m.svc msg timer
                ≡ ok (record {
                  called_valid = t.valid;
                  fev_deleted = false;
                  svc = after_run m.svc timer t;
                })))
  timer_triggered_run-Reach m timer msg r sent packed =
      let v = Reach-IsValid m r in
      let (t, here, phase, own) = event-alive fh m timer v sent in
      (v.counted, (t, here, run_lem m timer t msg packed here own phase))

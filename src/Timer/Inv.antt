-- ===== src/Timer/Inv.antt =====
-- What holds of the timers of src/common/sk_timer_service.c between their operations.
use skull.Prelude.{
  ℕ, suc, ◌%◌, ◌^◌, ◌≤◌, ◌≡◌, ◌≢◌, refl, ap, sym, subst, subst₂, ◌∙◌, ◌⊎◌, inl, inr, Bool-cases,
  true, false, not, Option, none, some, Option-cases, List, ◌∷◌, length, ◌==◌, arith,
}
use skull.Prelude.Checked.{ok}
use skull.Prelude.Holds.{bind-ok, ok-inj}
use skull.Prelude.Counts.{
  eq-cases, count, count_self, count_other, count-delete_ne, count-delete_self, count-member,
}
use skull.Fhash.{Fhash}
use skull.Timer.{
  SkTimer, TimerSvc, System, read_timer, write_timer, sk_timersvc_timer_create, timer_triggered,
  sk_timer_cancel, unless,
}

-- How often a timer is armed in flibs and how many messages are under way for it: one with an
-- interval stays armed, and another is armed until it is triggered, and has one message then.
abbrev pub IsPhase : SkTimer → (armed events : ℕ) → Type 0
IsPhase t armed events =
    ((t.interval == 0) ≡ false) × (armed ≡ 1)
    ⊎ ((t.interval == 0) ≡ true)
      × ((t.triggered ≡ false) × (armed ≡ 1) × (events ≡ 0)
          ⊎ (t.triggered ≡ true) × (armed ≡ 0) × (events ≡ 1))

-- What is freed is neither armed nor in a message; what is not belongs to the service at `self`.
abbrev pub IsTimer : (self : ℕ) → Option SkTimer → (armed events alive : ℕ) → Type 0
IsTimer self none armed events alive = (armed ≡ 0) × (events ≡ 0) × (alive ≡ 0)
IsTimer self (some t) armed events alive = (alive ≡ 1) × IsPhase t armed events × (t.owner ≡ self)

pub IsTimer-same :
    (self : ℕ) {t t' : Option SkTimer} {a a' e e' l l' : ℕ}
    → t' ≡ t
    → a' ≡ a
    → e' ≡ e
    → l' ≡ l
    → IsTimer self t a e l
    → IsTimer self t' a' e' l'
IsTimer-same self {t} {t'} {a} {a'} {e} {e'} {l} {l'} p q r s h =
    subst₂ (λ t a. IsTimer self t a e' l') (sym p) (sym q)
      (subst₂ (λ e l. IsTimer self t a e l) (sym r) (sym s) h)

module _ {H : Type 0} (fh : Fhash H SkTimer) where
  abbrev IsFiled : (self : ℕ) → H → (armed events alive : List ℕ) → ℕ → Type 0
  IsFiled self timers armed events alive p =
      IsTimer self (fh.get timers p) (count p armed) (count p events) (count p alive)

  pub record IsValid (m : System fh) : Type 0 where
    pub filed : (p : ℕ) → IsFiled m.svc.self m.svc.timers m.armed m.events m.alive p
    pub counted : m.svc.timer_alive ≡ length m.alive % 2 ^ 32

  pub filed-some :
      (m : System fh) (p : ℕ) (t : SkTimer)
      → IsValid m
      → fh.get m.svc.timers p ≡ some t
      → (count p m.alive ≡ 1)
        × IsPhase t (count p m.armed) (count p m.events)
        × (t.owner ≡ m.svc.self)
  filed-some m p t v e =
      subst (λ x. IsTimer m.svc.self x (count p m.armed) (count p m.events) (count p m.alive)) e
        (v.filed p)

  -- One timer changes, and the lists change for it alone.
  pub refile :
      (m : System fh) (timers : H) (armed events alive : List ℕ) (p : ℕ)
      → IsValid m
      → ((q : ℕ) → q ≢ p → fh.get timers q ≡ fh.get m.svc.timers q)
      → ((q : ℕ) → q ≢ p → count q armed ≡ count q m.armed)
      → ((q : ℕ) → q ≢ p → count q events ≡ count q m.events)
      → ((q : ℕ) → q ≢ p → count q alive ≡ count q m.alive)
      → IsFiled m.svc.self timers armed events alive p
      → (q : ℕ) → IsFiled m.svc.self timers armed events alive q
  refile m timers armed events alive p v same a e l here q = elim (eq-cases q p) [
    | inl eq ↦ subst (IsFiled m.svc.self timers armed events alive) (sym eq) here
    | inr ne ↦ IsTimer-same m.svc.self (same q ne) (a q ne) (e q ne) (l q ne) (v.filed q)
  ]

  pub create-IsValid :
      (m : System fh) (timer entity interval trigger ud : ℕ)
      → IsValid m
      → fh.get m.svc.timers timer ≡ none
      → IsValid (record m {
        svc = sk_timersvc_timer_create fh m.svc timer entity interval trigger ud;
        armed = timer ∷ m.armed;
        alive = timer ∷ m.alive;
      })
  unfolding sk_timersvc_timer_create
  create-IsValid m timer entity interval trigger ud v free =
      let (a, e, l) =
        subst
          (λ x.
            IsTimer m.svc.self x (count timer m.armed) (count timer m.events) (count timer m.alive))
          free (v.filed timer) in
      record {
        filed =
            refile m _ _ _ _ timer v (λ q ne. fh.get-set_ne m.svc.timers timer q _ ne)
              (λ q ne. count_other q timer m.armed (λ eq. ne (sym eq))) (λ q ne. refl)
              (λ q ne. count_other q timer m.alive (λ eq. ne (sym eq)))
              (IsTimer-same m.svc.self (fh.get-set m.svc.timers timer _)
                (count_self timer m.armed ∙ ap suc a) e (count_self timer m.alive ∙ ap suc l)
                (refl, phase (Bool-cases (interval == 0)), refl));
        counted = omega (arith, v.counted);
      }
    where
      new : SkTimer
      new = record {
        owner = m.svc.self;
        entity = entity;
        trigger = trigger;
        ud = ud;
        valid = true;
        triggered = false;
        interval = interval;
      }

      phase : ((interval == 0) ≡ true) ⊎ ((interval == 0) ≡ false) → IsPhase new 1 0
      phase (inl once) = inr (once, inl (refl, refl, refl))
      phase (inr again) = inl (again, refl)

  pub read_timer-ok :
      (svc : TimerSvc H) (timer : ℕ) (t : SkTimer)
      → read_timer fh svc timer ≡ ok t
      → fh.get svc.timers timer ≡ some t
  read_timer-ok svc timer t e = grind (arith, e)

  -- A timer is written, and its lists change.
  write_timer-IsValid :
      (m : System fh) (timer : ℕ) (t : SkTimer) (armed events : List ℕ)
      → IsValid m
      → ((q : ℕ) → q ≢ timer → count q armed ≡ count q m.armed)
      → ((q : ℕ) → q ≢ timer → count q events ≡ count q m.events)
      → count timer m.alive ≡ 1
      → IsPhase t (count timer armed) (count timer events)
      → t.owner ≡ m.svc.self
      → IsValid (record m { svc = write_timer fh m.svc timer t; armed = armed; events = events })
  write_timer-IsValid m timer t armed events v same_armed same_events l phase own = record {
    filed =
        refile m _ _ _ _ timer v (λ q ne. fh.get-set_ne m.svc.timers timer q t ne) same_armed
          same_events (λ q ne. refl)
          (IsTimer-same m.svc.self (fh.get-set m.svc.timers timer t) refl refl refl
            (l, phase, own));
    counted = v.counted;
  }

  pub cancel-IsValid :
      (m : System fh) (timer : ℕ) (s : TimerSvc H)
      → IsValid m
      → sk_timer_cancel fh m.svc timer ≡ ok s
      → IsValid (record m { svc = s })
  unfolding sk_timer_cancel
  cancel-IsValid m timer s v e =
      let (t, reads, done) = bind-ok (read_timer fh m.svc timer) _ _ e in
      let (l, phase, own) = filed-some m timer t v (read_timer-ok m.svc timer t reads) in
      subst (λ s. IsValid (record m { svc = s })) (ok-inj _ _ done)
        (write_timer-IsValid m timer (record t { valid = false }) m.armed m.events v (λ q ne. refl)
          (λ q ne. refl) l phase own)

  pub fire-IsValid :
      (m : System fh) (timer : ℕ) (t : SkTimer) (s : TimerSvc H)
      → IsValid m
      → 1 ≤ count timer m.armed
      → fh.get m.svc.timers timer ≡ some t
      → timer_triggered fh m.svc timer ≡ ok s
      → IsValid (record m {
        svc = s;
        armed = unless fh (not (t.interval == 0)) timer m.armed;
        events = timer ∷ m.events;
      })
  unfolding timer_triggered
  fire-IsValid m timer t s v armed here e =
      let (t', reads, done) = bind-ok (read_timer fh m.svc timer) _ _ e in
      let same : t' ≡ t = grind (arith, here, read_timer-ok m.svc timer t' reads) in
      let (l, phase, own) = filed-some m timer t v here in
      subst
        (λ s. IsValid (record m {
          svc = s;
          armed = unless fh (not (t.interval == 0)) timer m.armed;
          events = timer ∷ m.events;
        }))
        (ap (λ t. write_timer fh m.svc timer (record t { triggered = true })) (sym same)
          ∙ ok-inj _ _ done)
        (write_timer-IsValid m timer (record t { triggered = true }) _ _ v
          (λ q ne. other q ne (Bool-cases (t.interval == 0)))
          (λ q ne. count_other q timer m.events (λ eq. ne (sym eq))) l (next phase) own)
    where
      other :
          (q : ℕ)
          → q ≢ timer
          → ((t.interval == 0) ≡ true) ⊎ ((t.interval == 0) ≡ false)
          → count q (unless fh (not (t.interval == 0)) timer m.armed) ≡ count q m.armed
      other q ne (inl once) =
          grind (arith, once, count-delete_ne timer q m.armed (λ eq. ne (sym eq)))
      other q ne (inr again) = grind (arith, again)

      next :
          IsPhase t (count timer m.armed) (count timer m.events)
          → IsPhase
              (record t { triggered = true })
              (count timer (unless fh (not (t.interval == 0)) timer m.armed))
              (count timer (timer ∷ m.events))
      next (inl (again, a)) = inl (again, grind (arith, again, a))
      next (inr (once, inl (_, a, ev))) = inr (
        once,
        inr (
          refl,
          grind (arith, once, a, count-delete_self timer m.armed, count-member timer m.armed armed),
          count_self timer m.events ∙ ap suc ev,
        ),
      )
      next (inr (once, inr (_, a, ev))) = absurd (omega (arith, a, armed))

  -- Where a message is under way for a timer, the timer is in memory and one without an interval has
  -- been triggered.
  pub event-alive :
      (m : System fh) (timer : ℕ)
      → IsValid m
      → 1 ≤ count timer m.events
      → (t : SkTimer) × (fh.get m.svc.timers timer ≡ some t)
        × (((t.interval == 0) ≡ false) ⊎ ((t.interval == 0) ≡ true) × (t.triggered ≡ true))
        × (t.owner ≡ m.svc.self)
  event-alive m timer v sent = elim (Option-cases (fh.get m.svc.timers timer)) [
    | inl gone ↦
        let (_, e, _) =
          subst
            (λ x.
              IsTimer m.svc.self x (count timer m.armed) (count timer m.events)
                (count timer m.alive))
            gone (v.filed timer) in
        absurd (omega (arith, e, sent))
    | inr (t, here) ↦
        (t, here, phase t ((filed-some m timer t v here).1), (filed-some m timer t v here).2)
  ]
    where
      phase :
          (t : SkTimer)
          → IsPhase t (count timer m.armed) (count timer m.events)
          → ((t.interval == 0) ≡ false) ⊎ ((t.interval == 0) ≡ true) × (t.triggered ≡ true)
      phase t (inl (again, _)) = inl again
      phase t (inr (once, inl (_, _, e))) = absurd (omega (arith, e, sent))
      phase t (inr (once, inr (on_the_fly, _, _))) = inr (once, on_the_fly)

-- ===== src/Timer/Tests.antt =====
-- A timer that is created, cancelled, triggered and run, src/common/sk_timer_service.c.
use skull.Prelude.{ℕ, List, ◌%◌, ◌^◌, ◌≤◌, ◌≡◌, refl, true, false, some, [], ◌∷◌, length, arith}
use skull.Prelude.Checked.{ok}
use skull.Prelude.Counts.{count}
use skull.Fhash.{Fhash}
use skull.Fhash.Model.{Table, function_fhash}
use skull.Pto.{Hdr, sk_pto_pack}
use skull.Timer.{
  IsSent, SkTimer, TimerSvc, System, Reach, started, later, create, cancel, fire, start,
  sk_timersvc_timer_create, sk_timer_cancel, timer_triggered, timer_triggered_run,
}
use skull.Timer.Laws.{after_run, timer_triggered_run-Reach}

abbrev fh : Fhash (Table SkTimer) SkTimer
fh = function_fhash

abbrev timer : SkTimer
timer = record {
  owner = 9;
  entity = 3;
  trigger = 1;
  ud = 2;
  valid = true;
  triggered = false;
  interval = 0;
}

abbrev created : System fh
created = record {
  svc = sk_timersvc_timer_create fh (start fh 9).svc 7 3 0 1 2;
  armed = 7 ∷ [];
  events = [];
  alive = 7 ∷ [];
}

abbrev cancelled_svc : TimerSvc (Table SkTimer)
cancelled_svc = elim (sk_timer_cancel fh created.svc 7) [ ok s ↦ s | _ ↦ created.svc ]

cancelled : Reach fh (record created { svc = cancelled_svc })
unfolding sk_timer_cancel sk_timersvc_timer_create
cancelled = later (later (started 9) (create 7 3 0 1 2 refl)) (cancel 7 cancelled_svc refl)

abbrev fired_svc : TimerSvc (Table SkTimer)
fired_svc = elim (timer_triggered fh cancelled_svc 7) [ ok s ↦ s | _ ↦ created.svc ]

abbrev fired : System fh
fired = record { svc = fired_svc; armed = []; events = 7 ∷ []; alive = 7 ∷ [] }

fired_reached : Reach fh fired
unfolding sk_timer_cancel sk_timersvc_timer_create timer_triggered count
fired_reached =
    later cancelled (fire 7 (record timer { valid = false }) fired_svc (omega arith) refl refl)

one_event : 1 ≤ count 7 fired.events
unfolding count
one_event = omega arith

abbrev args : List (List ℕ)
args =
    (7 ∷ 0 ∷ 0 ∷ 0 ∷ 0 ∷ 0 ∷ 0 ∷ 0 ∷ [])
    ∷ (1 ∷ 0 ∷ 0 ∷ 0 ∷ 0 ∷ 0 ∷ 0 ∷ 0 ∷ [])
    ∷ (2 ∷ 0 ∷ 0 ∷ 0 ∷ 0 ∷ 0 ∷ 0 ∷ 0 ∷ [])
    ∷ []

abbrev message : Hdr
message = elim (sk_pto_pack 6 args) [
  | ok hdr ↦ hdr
  | _ ↦ record { id = 0; argc = 0; chk = 0; body = [] }
]

message-IsSent : IsSent fh message
unfolding sk_pto_pack
message-IsSent = (args, refl, (refl, (refl, (refl, tt))), refl)

timer_triggered_run-Reach_example :
    (fired.svc.timer_alive ≡ length fired.alive % 2 ^ 32)
    × ((t : SkTimer) × (fh.get fired.svc.timers 7 ≡ some t)
        × (timer_triggered_run fh fired.svc message 7
            ≡ ok (record {
              called_valid = t.valid;
              fev_deleted = false;
              svc = after_run fh fired.svc 7 t;
            })))
timer_triggered_run-Reach_example =
    timer_triggered_run-Reach fh fired 7 message fired_reached one_event message-IsSent

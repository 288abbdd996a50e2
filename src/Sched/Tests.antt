-- ===== src/Sched/Tests.antt =====
-- A scheduler with bridges to three others, src/components/sk_sched.c.
use skull.Prelude.{
  ℕ, ◌^◌, ◌<◌, ◌≡◌, refl, Bool, true, false, Option, none, some, List, [], ◌∷◌, ◌++◌, arith,
}
use skull.Prelude.Checked.{ok}
use skull.Fmbuf.{Fmbuf}
use skull.Fmbuf.Model.{Buf, list_fmbuf}
use skull.Sched.{Event, Bridge, Sched}
use skull.Sched.Route.{is_dst, io_mq, put_mq, set_io, find_bridge_roundrobin}
use skull.Sched.Ops.{sk_io_push, sk_sched_send, copy_event}
use skull.Sched.Buffers.{IsBuffer, IsPushed, sk_io_push_lem}
use skull.Sched.RoundRobin.{IsTurn, find_bridge_roundrobin_lem}
use skull.Sched.Laws.{check_data, sk_sched_send_lem}
use skull.Sched.Copy.{contents_of, those, belongs, IsRoomy, copy_event_lem}

abbrev fm : Fmbuf (Buf Event) Event
fm = list_fmbuf

abbrev buffer : ℕ → Buf Event
buffer n = record { fill = 0; left = n; elems = [] }

abbrev event : ℕ → Option ℕ → Event
event pto_id dst = record {
  src = 1;
  dst = dst;
  pto_id = pto_id;
  hop = 0;
  flags = 0;
  entity = 4;
  txn = none;
  data_ = none;
}

abbrev bridge : ℕ → Bool → Bridge (Buf Event)
bridge dst routable = record { dst = dst; routable = routable; mq = buffer 112 }

abbrev sched : Sched (Buf Event)
sched = record {
  id = 1;
  io_tbl = λ pri. record { input = buffer 0; output = buffer 56 };
  bridge_tbl = bridge 7 false ∷ bridge 8 true ∷ bridge 9 true ∷ [];
  last_delivery_idx = 2;
}

good : (n : ℕ) → n < 2 ^ 62 → IsBuffer fm (buffer n)
good n h = record { whole = refl; small = omega (arith, h) }

sk_io_push_lem_example :
    (mq' : Buf Event) × (sk_io_push fm (buffer 0) (event 1 none) ≡ ok mq')
    × IsPushed fm (event 1 none) (buffer 0) mq'
sk_io_push_lem_example =
    sk_io_push_lem fm (buffer 0) (event 1 none) (good 0 (omega arith)) (omega arith)

find_bridge_roundrobin_lem_example :
    (found : Option ℕ) × (last' : ℕ) × (find_bridge_roundrobin (sched.bridge_tbl) 2
      ≡ ok (found, last'))
    × IsTurn (sched.bridge_tbl) 2 found last'
find_bridge_roundrobin_lem_example = find_bridge_roundrobin_lem (sched.bridge_tbl) 2 (omega arith)

abbrev arg : List ℕ
arg = 1 ∷ 2 ∷ 3 ∷ 4 ∷ 5 ∷ 6 ∷ 7 ∷ 200 ∷ []

sk_sched_send_lem_example :
    (e : Event) × (mq : Buf Event) × (sk_sched_send fm sched
        (some 8)
        4
        none
        0
        5
        (arg ∷ arg ∷ arg ∷ [])
      ≡ ok (set_io 6 (put_mq (is_dst 1 (some 8)) mq (sched.io_tbl 6)) sched))
    × (fm.contents mq ≡ fm.contents (io_mq (is_dst 1 (some 8)) (sched.io_tbl 6)) ++ e ∷ [])
    × (e.dst ≡ some 8)
    × (e.src ≡ 1)
    × (e.pto_id ≡ 5)
    × (e.hop ≡ 0)
    × (check_data 5 e.data_ ≡ ok true)
sk_sched_send_lem_example =
    sk_sched_send_lem fm sched (some 8) 4 none 0 5 (record { id = 5; pri = 6; argc = 3; salt = 15 })
      (arg ∷ arg ∷ arg ∷ []) refl refl (refl, (refl, (refl, tt))) (good 56 (omega arith))
      (omega arith)

abbrev arrived : List Event
arrived = event 1 (some 1) ∷ event 2 (some 8) ∷ event 1 (some 1) ∷ []

roomy : IsRoomy fm sched 3
unfolding IsRoomy
roomy pri true = (good 0 (omega arith), omega arith)
roomy pri false = (good 56 (omega arith), omega arith)

copy_event_lem_example :
    (s' : Sched (Buf Event)) × (copy_event fm sched arrived ≡ ok s')
    × (contents_of fm s' 5 true ≡ contents_of fm sched 5 true ++ those (belongs 1 5 true) arrived)
copy_event_lem_example =
    copy_event_lem fm arrived sched 5 true (omega arith, (omega arith, (omega arith, tt))) roomy

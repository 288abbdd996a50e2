-- ===== src/EpPool/Tests.antt =====
-- Requests, connections and errors in a pool of endpoints, src/components/sk_ep_pool.c.
use skull.Prelude.{
  ℕ, zero, suc, ◌+◌, ◌≤◌, ◌≡◌, refl, ◌⊎◌, true, false, Option, none, some, List, [], ◌∷◌, ◌++◌, map,
  append-nil, sym, ◌*◌, arith,
}
use skull.Prelude.Checked.{Checked, ok}
use skull.Prelude.Int.{pos, dec}
use skull.EpPool.{
  sk_ep_st_connecting, sk_ep_st_connected, sk_ep_nst_pending, EpStatus, sk_ep_ok, Handler, EpData,
  Ep, Run, EpMgr, Outside,
}
use skull.EpPool.Txns.{sk_ep_timeout, sk_ep_txn_time_left, timer_time, ep_send}
use skull.EpPool.Steps.{on_connect, create_entity_tcp}
use skull.EpPool.Mgr.{usable, find_ep, handle_error, ep_create}
use skull.EpPool.Send.{
  Request, EpPool, mgr_send, sk_ep_mgr_create, ep_mgr_get_or_create, mgr_add_txn, add_ep,
}
use skull.EpPool.Time.{timer_time-bounds}
use skull.EpPool.Count.{IsPush}
use skull.EpPool.Inv.{IsValid}
use skull.EpPool.Error.{handle_error_lem, fail_outs, last_out}
use skull.EpPool.Answer.{IsWaiting, on_connect-IsWaiting}
use skull.EpPool.Quiet.{written}
use skull.EpPool.System.{Reachable, created, after, on_send, Reachable-IsValid}

abbrev push {ℓ} : {A : Type ℓ} → List A → A → List A
push xs x = xs ++ x ∷ []

push_law : {A : Type 0} → IsPush {A = A} push
push_law xs y = (xs, [], sym (append-nil xs), refl)

-- A network that takes a while to connect.
abbrev outside : Outside
outside = record {
  now = 1000;
  write_ok = λ fd data_. true;
  resetn_ok = λ timer ms. true;
  conn_async = λ ip port. (pos 1, some 7);
  reg_event = λ fd. pos 0;
  udp_socket = λ ip port. none;
  udp_connect = λ fd. false;
  evbuff_new = λ fd. true;
  ipkey = λ ip port. ip * 65536 + port;
  fdlist_push = push;
  flist_push = push;
}

abbrev handler : Handler
handler = record {
  type = 0;
  port = 80;
  ip = some 5;
  timeout = 300;
  flags = 0;
  unpack = some (λ data_. pos 1);
  release = true;
}

abbrev request : Request
request = record { entity = 3; handler = handler; data_ = 9 ∷ 8 ∷ []; cb = true; ud = 44 }

abbrev new : EpMgr
new = sk_ep_mgr_create 2

abbrev result : Checked (EpStatus × EpMgr) → EpMgr
result (ok (status, m)) = m
result _ = new

-- One endpoint, which is connecting, with one transaction that waits.
abbrev sent : EpMgr
sent = result (mgr_send outside request 5 new)

sent_ok : mgr_send outside request 5 new ≡ ok (sk_ep_ok, sent)
unfolding mgr_send ep_mgr_get_or_create find_ep sk_ep_mgr_create mgr_add_txn add_ep ep_create
    create_entity_tcp ep_send sk_ep_timeout sk_ep_txn_time_left timer_time
sent_ok = refl

sent_reached : Reachable 2 sent
sent_reached = after outside push_law push_law created (on_send request 5 sk_ep_ok sent_ok)

Reachable-IsValid_example : IsValid sent
Reachable-IsValid_example = Reachable-IsValid 2 sent sent_reached

abbrev txn : ℕ → List ℕ → EpData
txn node data_ = record {
  node = node;
  handler = handler;
  cb = true;
  ud = 44;
  start = 990;
  recv_timer = none;
  status = sk_ep_nst_pending;
  data_ = data_;
}

abbrev connecting : Ep
connecting = record {
  ekey = 0;
  ipkey = 0;
  type = 0;
  status = sk_ep_st_connecting;
  entity = true;
  txns = txn 1 (9 ∷ []) ∷ txn 2 (8 ∷ 7 ∷ []) ∷ [];
  ntxn = pos 2;
  flags = 0;
  conn_timer = some 3;
  shutdown_timer = none;
  fd = some 7;
}

abbrev idle : Ep
idle = record connecting { status = sk_ep_st_connected; txns = []; ntxn = pos 0; conn_timer = none }

abbrev running : Run
running = record { ep = connecting; next = 9; out = [] }

waiting : (node : ℕ) (data_ : List ℕ) → IsWaiting outside (some 7) (txn node data_)
waiting node data_ = record { waits = refl; can = refl; small = omega arith; begun = omega arith }

on_connect-IsWaiting_example :
    (r' : Run) × (on_connect outside 7 false (some 0) running ≡ ok (false, r'))
    × (r'.ep.status ≡ sk_ep_st_connected)
    × (written r'.out ≡ written [] ++ map (λ t. t.data_) connecting.txns)
on_connect-IsWaiting_example =
    on_connect-IsWaiting outside 7 running refl refl
      (waiting 1 (9 ∷ []), (waiting 2 (8 ∷ 7 ∷ []), tt))

abbrev heap : ℕ → Option Ep
heap zero = some connecting
heap (suc n) = some idle

find_ep_ok : find_ep heap handler (0 ∷ 1 ∷ []) ≡ ok (some 1)
unfolding find_ep usable
find_ep_ok = refl

timer_time-bounds_example :
    (1 ≤ timer_time (sk_ep_txn_time_left 1000 (txn 1 [])))
    × (timer_time (sk_ep_txn_time_left 1000 (txn 1 [])) ≤ 300)
    × ((sk_ep_timeout 1000 (txn 1 []) ≡ true)
          × (timer_time (sk_ep_txn_time_left 1000 (txn 1 [])) ≡ 1)
        ⊎ (sk_ep_timeout 1000 (txn 1 []) ≡ false)
          × (1000 + timer_time (sk_ep_txn_time_left 1000 (txn 1 [])) ≡ 990 + 300))
timer_time-bounds_example =
    timer_time-bounds 1000 (txn 1 []) (omega arith) (omega arith) (omega arith)

abbrev pool : EpPool
pool = record { tcp = new; udp = new }

abbrev first : Ep
first = elim (sent.heap 0) [ none ↦ idle | some ep ↦ ep ]

first_ok : sent.heap 0 ≡ some first
unfolding mgr_send ep_mgr_get_or_create find_ep sk_ep_mgr_create mgr_add_txn add_ep ep_create
    create_entity_tcp ep_send sk_ep_timeout sk_ep_txn_time_left timer_time
first_ok = refl

handle_error_lem_example :
    (m' : EpMgr) × (handle_error outside 0 sent ≡ ok m')
    × IsValid m'
    × (m'.heap 0 ≡ none)
    × (m'.nep ≡ dec sent.nep)
    × (m'.out ≡ last_out (sent.out ++ fail_outs first.txns) first)
handle_error_lem_example =
    handle_error_lem outside 0 sent first push_law (Reachable-IsValid 2 sent sent_reached) first_ok

-- ===== src/EpPool/Answer.antt =====
-- Requests that wait for a connection, and answers, in src/components/sk_ep_pool.c.
use skull.Prelude.{
  ℕ, suc, ◌*◌, ◌%◌, ◌^◌, ◌≤◌, ◌<◌, ◌≡◌, refl, ap, sym, ◌∙◌, true, false, Option, none, some, inl,
  inr, List, [], ◌∷◌, ◌++◌, append-nil, map, All, ◌==◌, arith, Bool-cases,
}
use skull.Prelude.Checked.{ok}
use skull.EpPool.{
  sk_ep_st_connected, sk_ep_st_connecting, sk_ep_nst_sent, sk_ep_ok, recv_timeout, EpData,
  net_write, timer_create, timer_cancel, Run, Outside,
}
use skull.EpPool.Txns.{
  emit, with_txns, set_node, cancel, sk_ep_txn_time_left, timer_time, is_pending, is_sent,
  set_timers, ep_send, is_connected, is_some,
}
use skull.EpPool.Steps.{send_each, set_connected, on_connect}
use skull.EpPool.Time.{timer_time-bounds}
use skull.EpPool.Quiet.{IsQuiet, chain, quiet, shutdown_timer-IsQuiet, written, written-append}

set_timers-IsQuiet :
    (o : Outside) (t : EpData) (r : Run)
    → t.handler.timeout < 2 ^ 31
    → t.start ≤ o.now
    → (r' : Run) × (set_timers o t r ≡ ok r') × IsQuiet [] r r'
unfolding set_timers written
set_timers-IsQuiet o t r small begun = elim (Bool-cases (t.handler.timeout == 0)) [
  | inl zero_ms ↦ elim (Bool-cases (is_some t.handler.unpack)) [
    | inl unpacks ↦ (
      r,
      grind (arith, zero_ms, unpacks),
      record { wrote = sym (append-nil (written r.out)); same_status = refl; same_fd = refl },
    )
    | inr other ↦
        let (r₁, runs, q) = shutdown_timer-IsQuiet o 1000 r (omega arith) in
        (r₁, grind (arith, zero_ms, other, runs), q)
  ]
  | inr some_ms ↦
      let pos : 0 < t.handler.timeout = ground (arith, some_ms) in
      let (r₁, runs, q) =
        shutdown_timer-IsQuiet o (t.handler.timeout * 2 % 2 ^ 32) r (omega (arith, pos, small)) in
      let ms = timer_time (sk_ep_txn_time_left o.now t) in
      elim (Bool-cases (is_some t.handler.unpack)) [
        | inl unpacks ↦
            let (least, _, _) = timer_time-bounds o.now t pos (omega (arith, small)) begun in
            let set : (ms == 0) ≡ false = grind (arith, least) in
            let r₂ : Run = record {
              ep = record r₁.ep {
                txns = set_node (record t { recv_timer = some r₁.next }) r₁.ep.txns;
              };
              next = suc r₁.next;
              out = r₁.out ++ timer_create r₁.next recv_timeout ms ∷ [];
            } in
            let q₂ : IsQuiet [] r₁ r₂ =
              quiet (timer_create r₁.next recv_timeout ms) r₁ r₂ refl refl refl refl in
            (r₂, grind (arith, some_ms, unpacks, runs, set), chain [] [] q q₂)
        | inr other ↦ (r₁, grind (arith, some_ms, other, runs), q)
      ]
]

-- A request that is written, with its timers.
ep_send-IsQuiet :
    (o : Outside) (t : EpData) (r : Run)
    → is_connected r.ep.status ≡ true
    → is_pending t.status ≡ true
    → o.write_ok r.ep.fd t.data_ ≡ true
    → t.handler.timeout < 2 ^ 31
    → t.start ≤ o.now
    → (r' : Run) × (ep_send o t r ≡ ok (sk_ep_ok, r')) × IsQuiet (t.data_ ∷ []) r r'
unfolding ep_send written
ep_send-IsQuiet o t r up waits can small begun =
    let sent : EpData = record t { status = sk_ep_nst_sent } in
    let r₁ : Run = emit (net_write r.ep.fd t.data_ ∷ []) (with_txns (set_node sent r.ep.txns) r) in
    let (r₂, runs, q) = set_timers-IsQuiet o sent r₁ small begun in
    let unsent : is_sent t.status ≡ false = grind (arith, waits) in
    let q₁ : IsQuiet (t.data_ ∷ []) r r₁ = record {
      wrote = written-append r.out (net_write r.ep.fd t.data_ ∷ []);
      same_status = refl;
      same_fd = refl;
    } in
    (r₂, grind (arith, up, unsent, can, runs), chain (t.data_ ∷ []) [] q₁ q)

-- A transaction that waits for its connection, and can be sent over it.
pub record IsWaiting (o : Outside) (fd : Option ℕ) (t : EpData) : Type 0 where
  pub waits : is_pending t.status ≡ true
  pub can : o.write_ok fd t.data_ ≡ true
  pub small : t.handler.timeout < 2 ^ 31
  pub begun : t.start ≤ o.now

send_each-IsQuiet :
    (o : Outside) (ts : List EpData) (r : Run) (fd : Option ℕ)
    → is_connected r.ep.status ≡ true
    → r.ep.fd ≡ fd
    → All (IsWaiting o fd) ts
    → (r' : Run) × (send_each o ts [] r ≡ ok ([], r')) × IsQuiet (map (λ t. t.data_) ts) r r'
unfolding send_each
send_each-IsQuiet o [] r fd up same h = (
  r,
  refl,
  record { wrote = sym (append-nil (written r.out)); same_status = refl; same_fd = refl },
)
send_each-IsQuiet o (t ∷ ts) r fd up same (h, hs) =
    let (r₁, sent, q) =
      ep_send-IsQuiet o t r up h.waits (ap (λ fd. o.write_ok fd t.data_) same ∙ h.can) h.small
        h.begun in
    let (r₂, more, q₂) =
      send_each-IsQuiet o ts r₁ fd (ap is_connected q.same_status ∙ up) (q.same_fd ∙ same) hs in
    (r₂, grind (arith, h.waits, sent, more), chain (t.data_ ∷ []) (map (λ t. t.data_) ts) q q₂)

-- When a connection is made, each transaction that waits for it is written, in order, and nothing
-- else is; the endpoint is connected then. The writes succeed, and no timeout is 2 ^ 31 or more.
pub on_connect-IsWaiting :
    (o : Outside) (sockfd : ℕ) (r : Run)
    → r.ep.status ≡ sk_ep_st_connecting
    → o.evbuff_new sockfd ≡ true
    → All (IsWaiting o r.ep.fd) r.ep.txns
    → (r' : Run) × (on_connect o sockfd false (some 0) r ≡ ok (false, r'))
      × (r'.ep.status ≡ sk_ep_st_connected)
      × (written r'.out ≡ written r.out ++ map (λ t. t.data_) r.ep.txns)
unfolding on_connect written
on_connect-IsWaiting o sockfd r connecting evb h =
    let (r₁, sent, q) = send_each-IsQuiet o r.ep.txns (set_connected r) r.ep.fd refl refl h in
    (
      r₁,
      grind (arith, connecting, evb, sent),
      q.same_status,
      q.wrote ∙ ap (λ ws. ws ++ map (λ t. t.data_) r.ep.txns) (quiet_cancel r.ep.conn_timer),
    )
  where
    quiet_cancel : (timer : Option ℕ) → written (r.out ++ cancel timer) ≡ written r.out
    quiet_cancel none = ap written (append-nil r.out)
    quiet_cancel (some timer) =
        written-append r.out (timer_cancel timer ∷ []) ∙ append-nil (written r.out)

-- ===== src/EpPool/Steps.antt =====
-- What one endpoint of src/components/sk_ep_pool.c does when its connection has news. Where `true` is
-- returned, the manager handles an error.
use skull.Prelude.{
  ℕ, zero, suc, Bool, true, false, not, Option, none, some, List, [], ◌∷◌, ◌++◌, ◌==◌,
  if◌then◌else◌,
}
use skull.Prelude.Checked.{Checked, ok, assert_failed, ◌>>=◌, ◌>>◌, sk_assert}
use skull.Prelude.Int.{ℤ, pos, negsuc}
use skull.Prelude.Index.{take}
use skull.EpPool.{
  sk_ep_st_connecting, sk_ep_st_connected, sk_ep_ok, sk_ep_error, sk_ep_timed_out, EpData,
  conn_timeout, timer_create, net_pop, Run, Outside,
}
use skull.EpPool.Txns.{
  is_connected, is_connecting, is_pending, sk_ep_timeout, sk_ep_txn_time_left, timer_time, cancel,
  emit, set_node, with_txns, ep_send, handle_timeout, handle_ok,
}

-- `_try_unpack`, where it does not return 0.
unfoldable pub try_unpack : List ℕ → EpData → Option ℤ
try_unpack data_ t = elim t.handler.unpack [
  | none ↦ none
  | some unpack ↦ elim (unpack data_) [
    | negsuc n ↦ some (negsuc n)
    | pos zero ↦ none
    | pos (suc n) ↦ some (pos (suc n))
  ]
]

-- The first transaction that unpacks, as `fdlist_foreach` finds it.
unfoldable pub unpack_each : List ℕ → List EpData → Option (EpData × ℤ)
unpack_each data_ [] = none
unpack_each data_ (t ∷ ts) =
    let rest = unpack_each data_ ts in
    elim (try_unpack data_ t) [ none ↦ rest | some consumed ↦ some (t, consumed) ]

-- `_try_unpack` where it has consumed: the timer of the transaction is cancelled.
abbrev pub cancel_recv_timer : EpData → Run → Run
cancel_recv_timer t r =
    emit (cancel t.recv_timer) (with_txns (set_node (record t { recv_timer = none }) r.ep.txns) r)

-- `_read_cb` after `fdlist_foreach`.
abbrev pub on_unpacked : Outside → List ℕ → Option (EpData × ℤ) → Run → Checked (Bool × Run)
on_unpacked o data_ none r = ok (false, r)
on_unpacked o data_ (some (t, negsuc n)) r = ok (true, r)
on_unpacked o data_ (some (t, pos n)) r = do
  let r₁ : Run = emit (net_pop n ∷ []) (cancel_recv_timer t r)
  r₂ ← handle_ok o (record t { recv_timer = none }) (take n data_) r₁
  ok (false, r₂)

-- `_read_cb`, with the bytes of the buffer, or none when nothing could be read.
unfoldable pub read_cb : Outside → Option (List ℕ) → Run → Checked (Bool × Run)
read_cb o bytes r = do
  sk_assert (is_connected r.ep.status)
  elim bytes [
    | none ↦ ok (false, r)
    | some data_ ↦ on_unpacked o data_ (unpack_each data_ r.ep.txns) r
  ]

-- `_send_each` on the transactions in order, with those that timed out.
unfoldable pub send_each : Outside → List EpData → List EpData → Run → Checked (List EpData × Run)
send_each o [] timeout_nodes r = ok (timeout_nodes, r)
send_each o (t ∷ ts) timeout_nodes r = do
  sk_assert (is_pending t.status)
  (ret, r₁) ← ep_send o t r
  elim ret [
    | sk_ep_ok ↦ send_each o ts timeout_nodes r₁
    | sk_ep_timed_out ↦ send_each o ts (t ∷ timeout_nodes) r₁
    | sk_ep_error ↦ ok (timeout_nodes, r₁)
  ]

abbrev pub handle_timeouts : List EpData → Run → Run
handle_timeouts [] r = r
handle_timeouts (t ∷ ts) r = handle_timeouts ts (handle_timeout t r)

abbrev pub set_connected : Run → Run
set_connected r = record r {
  ep = record r.ep { status = sk_ep_st_connected; conn_timer = none };
  out = r.out ++ cancel r.ep.conn_timer;
}

-- `_on_connect`, with `mask & FEV_ERROR` and the error of `getsockopt`, none where that fails.
unfoldable pub on_connect : Outside → ℕ → Bool → Option ℕ → Run → Checked (Bool × Run)
on_connect o sockfd mask_error err r = if mask_error then ok (true, r) else (do
  sk_assert (is_connecting r.ep.status)
  elim err [
    | none ↦ ok (true, r)
    | some zero ↦ do
      sk_assert (o.evbuff_new sockfd)
      (timeout_nodes, r₁) ← send_each o r.ep.txns [] (set_connected r)
      ok (false, handle_timeouts timeout_nodes r₁)
    | some (suc e) ↦ ok (true, r)
  ])

-- The timer of `_create_entity_tcp`.
abbrev create_conn_timer : ℕ → EpData → Run → Checked Run
create_conn_timer now t r = if t.handler.timeout == 0 then ok r else (do
  let ms = timer_time (sk_ep_txn_time_left now t)
  sk_assert (not (ms == 0))
  ok (record {
    ep = record r.ep { conn_timer = some r.next };
    next = suc r.next;
    out = r.out ++ timer_create r.next conn_timeout ms ∷ [];
  }))

-- What `_create_entity_tcp` makes of the answer of `fev_reg_event`, which fails with -4 only.
abbrev reg_failed : ℤ → Checked Bool
reg_failed (pos zero) = ok false
reg_failed (pos (suc n)) = assert_failed
reg_failed (negsuc n) = if n == 3 then ok true else assert_failed

-- `_create_entity_tcp` after `fnet_conn_async`.
abbrev pub async_connected : Outside → EpData → ℤ → Option ℕ → Run → Checked (Bool × Run)
async_connected o t (pos zero) none r = assert_failed
async_connected o t (pos zero) (some sockfd) r = do
  sk_assert (o.evbuff_new sockfd)
  ok (false, set_connected r)
async_connected o t (pos (suc s)) none r = assert_failed
async_connected o t (pos (suc s)) (some sockfd) r = do
  r₁ ← create_conn_timer o.now t r
  failed ← reg_failed (o.reg_event sockfd)
  ok (failed, r₁)
async_connected o t (negsuc s) fd r = ok (true, r)

-- `_create_entity_tcp`, which fails where it returns `true`.
unfoldable pub create_entity_tcp : Outside → ℕ → ℕ → EpData → Run → Checked (Bool × Run)
create_entity_tcp o ip port t r =
    if sk_ep_timeout o.now t
    then ok (true, r)
    else (let (s, fd) = o.conn_async ip port in
        async_connected o t s fd
          (record r { ep = record r.ep { status = sk_ep_st_connecting; fd = fd } }))

-- `_create_entity_udp`, which fails where it returns `true`.
unfoldable pub create_entity_udp : Outside → ℕ → ℕ → Run → Checked (Bool × Run)
create_entity_udp o ip port r = elim (o.udp_socket ip port) [
  | none ↦ ok (true, r)
  | some fd ↦
      let r₁ : Run = record r { ep = record r.ep { status = sk_ep_st_connecting; fd = some fd } } in
      if not (o.udp_connect fd) then ok (true, r₁) else (do
        sk_assert (o.evbuff_new fd)
        ok (false, record r₁ { ep = record r₁.ep { status = sk_ep_st_connected } }))
]

-- ===== src/EpPool/Txns.antt =====
-- The transactions of one endpoint, src/components/sk_ep_pool.c: sending, receiving, timing out.
use skull.Prelude.{
  ℕ, suc, ◌+◌, ◌-◌, ◌*◌, ◌%◌, ◌^◌, Bool, true, false, not, ◌&&◌, Option, none, some, List, [], ◌∷◌,
  ◌++◌, leb, ◌==◌, if◌then◌else◌,
}
use skull.Prelude.Checked.{Checked, ok, ◌>>=◌, ◌>>◌, sk_assert}
use skull.Prelude.Int.{dec}
use skull.EpPool.{
  EpSt, sk_ep_st_connecting, sk_ep_st_connected, EpNst, sk_ep_nst_init, sk_ep_nst_pending,
  sk_ep_nst_sent, EpStatus, sk_ep_ok, sk_ep_error, sk_ep_timed_out, EpData, recv_timeout,
  shutdown_ep, Out, ep_cb, ep_release, timer_create, timer_resetn, timer_cancel, net_write, Run,
  Outside,
}

abbrev pub is_connected : EpSt → Bool
is_connected sk_ep_st_connected = true
is_connected _ = false

abbrev pub is_connecting : EpSt → Bool
is_connecting sk_ep_st_connecting = true
is_connecting _ = false

abbrev pub is_init : EpNst → Bool
is_init sk_ep_nst_init = true
is_init _ = false

abbrev pub is_sent : EpNst → Bool
is_sent sk_ep_nst_sent = true
is_sent _ = false

abbrev pub is_pending : EpNst → Bool
is_pending sk_ep_nst_pending = true
is_pending _ = false

abbrev pub is_some {ℓ} : {A : Type ℓ} → Option A → Bool
is_some none = false
is_some (some a) = true

abbrev sk_ep_default_shutdown_ms : ℕ
sk_ep_default_shutdown_ms = 1000

-- `sk_ep_timeout`: the time consumed is at least the timeout.
unfoldable pub sk_ep_timeout : ℕ → EpData → Bool
sk_ep_timeout now t =
    if t.handler.timeout == 0 then false else leb (t.start + t.handler.timeout) now

-- `sk_ep_txn_time_left`
unfoldable pub sk_ep_txn_time_left : ℕ → EpData → ℕ
sk_ep_txn_time_left now t =
    if leb (t.start + t.handler.timeout) now then 0 else t.start + t.handler.timeout - now

-- At least one millisecond, in 32 bits.
unfoldable pub timer_time : ℕ → ℕ
timer_time time_left = (if time_left == 0 then 1 else time_left) % 2 ^ 32

abbrev pub cancel : Option ℕ → List Out
cancel none = []
cancel (some timer) = timer_cancel timer ∷ []

abbrev pub emit : List Out → Run → Run
emit out r = record r { out = r.out ++ out }

-- `_ep_create_shutdown_timer`, from where it creates one.
abbrev pub new_shutdown_timer : ℕ → Run → Checked Run
new_shutdown_timer expiration r = do
  sk_assert (not (expiration == 0))
  ok (record {
    ep = record r.ep { shutdown_timer = some r.next };
    next = suc r.next;
    out = r.out ++ timer_create r.next shutdown_ep expiration ∷ [];
  })

-- `_ep_create_shutdown_timer`
unfoldable pub ep_create_shutdown_timer : Outside → ℕ → Run → Checked Run
ep_create_shutdown_timer o expiration r = elim r.ep.shutdown_timer [
  | none ↦ new_shutdown_timer expiration r
  | some timer ↦
      if o.resetn_ok timer expiration
      then ok (emit (timer_resetn timer expiration ∷ []) r)
      else new_shutdown_timer expiration (emit (timer_cancel timer ∷ []) r)
]

-- `_ep_data_release`
unfoldable pub ep_data_release : EpData → Bool → List Out
ep_data_release t release_userdata =
    cancel t.recv_timer
    ++ (if release_userdata && t.handler.release then ep_release t.ud ∷ [] else [])

abbrev pub delete_node : ℕ → List EpData → List EpData
delete_node node [] = []
delete_node node (t ∷ ts) =
    let rest = delete_node node ts in if t.node == node then ts else t ∷ rest

abbrev pub set_node : EpData → List EpData → List EpData
set_node t [] = []
set_node t (u ∷ us) = let rest = set_node t us in if u.node == t.node then t ∷ us else u ∷ rest

abbrev pub with_txns : List EpData → Run → Run
with_txns ts r = record r { ep = record r.ep { txns = ts } }

-- `_ep_node_destroy`
unfoldable pub ep_node_destroy : EpData → Bool → Run → Run
ep_node_destroy t release_userdata r = record r {
  ep = record r.ep { txns = delete_node t.node r.ep.txns; ntxn = dec r.ep.ntxn };
  out = r.out ++ ep_data_release t release_userdata;
}

abbrev pub call_back : EpStatus → EpData → List ℕ → List Out
call_back status t response = if t.cb then ep_cb status t.ud response ∷ [] else []

-- The timers that `_ep_send` sets where it has written.
unfoldable pub set_timers : Outside → EpData → Run → Checked Run
set_timers o t r =
    if t.handler.timeout == 0
    then (if is_some t.handler.unpack
        then ok r
        else ep_create_shutdown_timer o sk_ep_default_shutdown_ms r)
    else (do
      r₁ ← ep_create_shutdown_timer o (t.handler.timeout * 2 % 2 ^ 32) r
      let ms = timer_time (sk_ep_txn_time_left o.now t)
      if not (is_some t.handler.unpack) then ok r₁ else (do
        sk_assert (not (ms == 0))
        ok (record {
          ep = record r₁.ep { txns = set_node (record t { recv_timer = some r₁.next }) r₁.ep.txns };
          next = suc r₁.next;
          out = r₁.out ++ timer_create r₁.next recv_timeout ms ∷ [];
        })))

-- `_ep_send`
unfoldable pub ep_send : Outside → EpData → Run → Checked (EpStatus × Run)
ep_send o t r =
    if not (is_connected r.ep.status)
    then (do
      sk_assert (is_connecting r.ep.status)
      sk_assert (is_init t.status)
      sk_assert (r.ep.type == 0)
      ok (sk_ep_ok, with_txns (set_node (record t { status = sk_ep_nst_pending }) r.ep.txns) r))
    else (do
      sk_assert (not (is_sent t.status))
      if not (o.write_ok r.ep.fd t.data_) then ok (sk_ep_error, r) else (do
        let sent = record t { status = sk_ep_nst_sent }
        let r₁ : Run = emit (net_write r.ep.fd t.data_ ∷ []) (with_txns (set_node sent r.ep.txns) r)
        r₂ ← set_timers o sent r₁
        ok (sk_ep_ok, r₂)))

-- `_handle_timeout`
unfoldable pub handle_timeout : EpData → Run → Run
handle_timeout t r = ep_node_destroy t true (emit (call_back sk_ep_timed_out t []) r)

-- `_handle_ok`
unfoldable pub handle_ok : Outside → EpData → List ℕ → Run → Checked Run
handle_ok o t data_ r = do
  let ms = if t.handler.timeout == 0 then sk_ep_default_shutdown_ms else t.handler.timeout
  r₁ ← ep_create_shutdown_timer o ms (emit (call_back sk_ep_ok t data_) r)
  ok (ep_node_destroy t true r₁)

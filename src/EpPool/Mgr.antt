-- ===== src/EpPool/Mgr.antt =====
-- The endpoints of a pool, src/components/sk_ep_pool.c: finding, creating and removing them, and the
-- ways from a timer or a connection to an endpoint. A read of freed memory counts as a failed
-- assertion.
use skull.Prelude.{
  ℕ, ◌/◌, ◌%◌, Bool, true, false, not, ◌&&◌, Option, none, some, List, [], ◌∷◌, ◌++◌, leb, ◌==◌,
  if◌then◌else◌,
}
use skull.Prelude.Counts.{member, delete}
use skull.Prelude.Checked.{Checked, ok, assert_failed, ◌>>=◌, ◌>>◌, sk_assert}
use skull.Prelude.Int.{ℤ, pos, negsuc, dec}
use skull.EpPool.{
  sk_ep_st_init, sk_ep_error, Handler, EpData, Ep, Out, net_close, Run, EpMgr, Outside,
}
use skull.EpPool.Txns.{
  is_connected, is_connecting, is_init, cancel, emit, call_back, ep_node_destroy, handle_timeout,
}
use skull.EpPool.Steps.{read_cb, on_connect}

-- `_remove_ep`: the list is emptied into `tmp`, which is emptied into the list.
abbrev pub move_others : (List ℕ → ℕ → List ℕ) → ℕ → List ℕ → List ℕ → List ℕ
move_others push ep [] tmp = tmp
move_others push ep (t ∷ ts) tmp =
    let skipped = move_others push ep ts tmp in
    let moved = move_others push ep ts (push tmp t) in if t == ep then skipped else moved

abbrev pub move_back : (List ℕ → ℕ → List ℕ) → List ℕ → List ℕ → List ℕ
move_back push [] ep_list = ep_list
move_back push (t ∷ ts) ep_list = move_back push ts (push ep_list t)

unfoldable pub remove_ep : (List ℕ → ℕ → List ℕ) → ℕ → List ℕ → List ℕ
remove_ep push ep ep_list = move_back push (move_others push ep ep_list []) []

abbrev pub empty : List EpData → Bool
empty [] = true
empty (t ∷ ts) = false

-- `flags & SK_EP_F_CONCURRENT`, and the test for `SK_EP_F_PRIVATE`
abbrev pub concurrent : ℕ → Bool
concurrent flags = flags % 2 == 1

abbrev pub private_ep : ℕ → Bool
private_ep flags = flags / 2 % 2 == 1

abbrev at_most_one : ℤ → Bool
at_most_one (pos n) = leb n 1
at_most_one (negsuc n) = true

-- Whether the loop of `_find_ep` returns this endpoint.
unfoldable pub usable : Handler → Ep → Checked Bool
usable handler ep =
    if not (handler.flags == ep.flags)
    then ok false
    else if concurrent ep.flags
    then ok true
    else if not (is_connected ep.status)
    then ok false
    else (do sk_assert (at_most_one ep.ntxn); ok (empty ep.txns))

abbrev pub load : (ℕ → Option Ep) → ℕ → Checked Ep
load heap p = elim (heap p) [ none ↦ assert_failed | some ep ↦ ok ep ]

-- `_find_ep`
unfoldable pub find_ep : (ℕ → Option Ep) → Handler → List ℕ → Checked (Option ℕ)
find_ep heap handler [] = ok none
find_ep heap handler (p ∷ ps) =
    let rest = find_ep heap handler ps in
    (do ep ← load heap p; found ← usable handler ep; if found then ok (some p) else rest)

abbrev pub on_ep : EpMgr → Ep → Run
on_ep m ep = record { ep = ep; next = m.next; out = m.out }

abbrev pub put : (ℕ → Option Ep) → ℕ → Option Ep → ℕ → Option Ep
put heap p ep q = if p == q then ep else heap q

abbrev pub store : ℕ → Run → EpMgr → EpMgr
store p r m = record m { heap = put m.heap p (some r.ep); next = r.next; out = r.out }

abbrev pub put_list : (ℕ → ℕ → List ℕ) → ℕ → ℕ → List ℕ → ℕ → ℕ → List ℕ
put_list ee ekey ipkey ps k a = if (ekey == k) && (ipkey == a) then ps else ee k a

abbrev pub destroy_each : List EpData → Run → Run
destroy_each [] r = r
destroy_each (t ∷ ts) r = destroy_each ts (ep_node_destroy t true r)

abbrev pub close : Ep → List Out
close ep =
    if not ep.entity && is_connecting ep.status
    then elim ep.fd [ none ↦ [] | some fd ↦ net_close fd ∷ [] ]
    else []

-- `_ep_destroy`, up to `free`.
unfoldable pub ep_destroy : Run → Run
ep_destroy r =
    let cancelled : Run = record r {
      ep = record r.ep { conn_timer = none; shutdown_timer = none };
      out = r.out ++ cancel r.ep.conn_timer ++ cancel r.ep.shutdown_timer;
    } in
    let released = destroy_each r.ep.txns cancelled in emit (close released.ep) released

-- The manager without an endpoint.
abbrev pub without_ep : Outside → ℕ → Ep → EpMgr → EpMgr
without_ep o p ep m =
    let r = ep_destroy (on_ep m (record ep { entity = false })) in
    record m {
      heap = put m.heap p none;
      ee = put_list m.ee ep.ekey ep.ipkey (remove_ep o.flist_push p (m.ee ep.ekey ep.ipkey));
      eps = delete p m.eps;
      nep = dec m.nep;
      next = r.next;
      out = r.out;
    }

-- `_ep_mgr_del`. The entity manager destroys the entity, which has no tasks.
unfoldable pub ep_mgr_del : Outside → ℕ → EpMgr → Checked EpMgr
ep_mgr_del o p m = do ep ← load m.heap p; sk_assert (member p m.eps); ok (without_ep o p ep m)

-- The loop of `_handle_error`.
abbrev pub fail_each : List EpData → Run → Run
fail_each [] r = r
fail_each (t ∷ ts) r = fail_each ts (
    if is_init t.status
    then ep_node_destroy t false r
    else ep_node_destroy t true (emit (call_back sk_ep_error t []) r))

-- `_handle_error`
unfoldable pub handle_error : Outside → ℕ → EpMgr → Checked EpMgr
handle_error o p m = do
  ep ← load m.heap p
  ep_mgr_del o p (store p (fail_each ep.txns (on_ep m ep)) m)

abbrev pub find_node : ℕ → List EpData → Checked EpData
find_node node [] = assert_failed
find_node node (t ∷ ts) = let rest = find_node node ts in if t.node == node then ok t else rest

-- `_recv_timeout`, with the endpoint that owns the transaction.
unfoldable pub on_recv_timeout : Bool → ℕ → ℕ → EpMgr → Checked EpMgr
on_recv_timeout valid p node m = if not valid then ok m else (do
  ep ← load m.heap p
  t ← find_node node ep.txns
  ok (store p (handle_timeout (record t { recv_timer = none }) (on_ep m ep)) m))

-- `_shutdown_ep`
unfoldable pub on_shutdown_ep : Outside → Bool → ℕ → EpMgr → Checked EpMgr
on_shutdown_ep o valid p m = if not valid then ok m else (do
  ep ← load m.heap p
  handle_error o p (store p (on_ep m (record ep { shutdown_timer = none })) m))

-- `_conn_timeout`
unfoldable pub on_conn_timeout : Outside → Bool → ℕ → EpMgr → Checked EpMgr
on_conn_timeout o valid p m = if not valid then ok m else (do
  ep ← load m.heap p
  sk_assert (is_connecting ep.status)
  handle_error o p (store p (on_ep m (record ep { conn_timer = none })) m))

abbrev pub or_error : Outside → ℕ → EpMgr → Checked (Bool × Run) → Checked EpMgr
or_error o p m step = do
  (failed, r) ← step
  if failed then handle_error o p (store p r m) else ok (store p r m)

-- `_read_cb` on an endpoint, and `_on_connect`; `_error` is `handle_error`.
unfoldable pub mgr_read : Outside → Option (List ℕ) → ℕ → EpMgr → Checked EpMgr
mgr_read o bytes p m = do ep ← load m.heap p; or_error o p m (read_cb o bytes (on_ep m ep))

unfoldable pub mgr_connect : Outside → ℕ → Bool → Option ℕ → ℕ → EpMgr → Checked EpMgr
mgr_connect o sockfd mask_error err p m = do
  ep ← load m.heap p
  or_error o p m (on_connect o sockfd mask_error err (on_ep m ep))

-- `_ep_create`
unfoldable pub ep_create : Handler → ℕ → ℕ → Ep
ep_create handler ekey ipkey = record {
  ekey = ekey;
  ipkey = ipkey;
  type = handler.type;
  status = sk_ep_st_init;
  entity = true;
  txns = [];
  ntxn = pos 0;
  flags = 0;
  conn_timer = none;
  shutdown_timer = none;
  fd = none;
}

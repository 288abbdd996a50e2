-- ===== src/EpPool/Send.antt =====
-- Sending through a pool, src/components/sk_ep_pool.c.
use skull.Prelude.{
  ℕ, zero, suc, Bool, false, not, ◌&&◌, Option, none, some, List, [], ◌∷◌, ◌==◌, if◌then◌else◌,
}
use skull.Prelude.Checked.{Checked, ok, ◌>>=◌}
use skull.Prelude.Int.{ℤ, pos, negsuc, inc}
use skull.EpPool.{
  sk_ep_st_init, sk_ep_nst_init, EpStatus, sk_ep_error, Handler, EpData, Run, EpMgr, Outside,
}
use skull.EpPool.Txns.{is_some, ep_node_destroy, ep_send}
use skull.EpPool.Steps.{create_entity_tcp, create_entity_udp}
use skull.EpPool.Mgr.{private_ep, load, find_ep, on_ep, put, store, put_list, ep_mgr_del, ep_create}

-- What `sk_ep_send` is called with. `data_` is empty for a null pointer or no bytes.
pub record Request : Type 0 where
  pub entity : ℕ
  pub handler : Handler
  pub data_ : List ℕ
  pub cb : Bool
  pub ud : ℕ

-- Where `_ep_mgr_get_or_create` makes an endpoint.
unfoldable pub add_ep : Outside → Handler → ℕ → ℕ → EpMgr → EpMgr
add_ep o handler ekey ipkey m = record m {
  heap = put m.heap m.next (some (ep_create handler ekey ipkey));
  ee = put_list m.ee ekey ipkey (o.flist_push (m.ee ekey ipkey) m.next);
  eps = m.next ∷ m.eps;
  nep = inc m.nep;
  next = suc m.next;
}

-- Where it makes a transaction, and its `_create_entity_tcp` or `_create_entity_udp`.
abbrev pub new_txn : Outside → Request → ℕ → EpData
new_txn o q node = record {
  node = node;
  handler = q.handler;
  cb = q.cb;
  ud = q.ud;
  start = o.now;
  recv_timer = none;
  status = sk_ep_nst_init;
  data_ = q.data_;
}

abbrev pub add_txn : Outside → EpData → Run → Run
add_txn o t r = record r {
  ep = record r.ep { txns = o.fdlist_push r.ep.txns t; ntxn = inc r.ep.ntxn };
  next = suc r.next;
}

abbrev pub connect : Outside → ℕ → EpData → Run → Checked (Bool × Run)
connect o ip t r = elim r.ep.status [
  | sk_ep_st_init ↦
      if t.handler.type == 0
      then create_entity_tcp o ip t.handler.port t r
      else create_entity_udp o ip t.handler.port r
  | _ ↦ ok (false, r)
]

-- `_ep_mgr_get_or_create` from the endpoint on: the transaction, or none.
unfoldable pub mgr_add_txn : Outside → Request → ℕ → ℕ → EpMgr → Checked (Option EpData × EpMgr)
mgr_add_txn o q ip p m = do
  ep ← load m.heap p
  let t = new_txn o q m.next
  (failed, r) ← connect o ip t (add_txn o t (on_ep m ep))
  if failed
      then (do m₁ ← ep_mgr_del o p (store p (ep_node_destroy t false r) m); ok (none, m₁))
      else ok (some t, store p r m)

-- `_ep_mgr_get_or_create`, with the endpoint.
unfoldable pub ep_mgr_get_or_create :
    Outside → Request → ℕ → EpMgr → Checked (ℕ × Option EpData × EpMgr)
ep_mgr_get_or_create o q ip m = do
  let ekey = if private_ep q.handler.flags then q.entity else 0
  let ipkey = o.ipkey ip q.handler.port
  found ← find_ep m.heap q.handler (m.ee ekey ipkey)
  let p : ℕ = elim found [ none ↦ m.next | some p ↦ p ]
  let m₁ : EpMgr = elim found [ none ↦ add_ep o q.handler ekey ipkey m | some p ↦ m ]
  (t, m₂) ← mgr_add_txn o q ip p m₁
  ok (p, t, m₂)

abbrev pub is_full : EpMgr → Bool
is_full m = elim m.nep [ pos n ↦ n == m.max | negsuc n ↦ false ]

-- `_sk_ep_send` from its third step, in the manager of the type.
unfoldable pub mgr_send : Outside → Request → ℕ → EpMgr → Checked (EpStatus × EpMgr)
mgr_send o q ip m = if is_full m then ok (sk_ep_error, m) else (do
  (p, node, m₁) ← ep_mgr_get_or_create o q ip m
  elim node [
    | none ↦ ok (sk_ep_error, m₁)
    | some t ↦ do
      ep ← load m₁.heap p
      (status, r) ← ep_send o t (on_ep m₁ ep)
      ok (status, store p r m₁)
  ])

-- `sk_ep_pool_t`
pub record EpPool : Type 0 where
  pub tcp : EpMgr
  pub udp : EpMgr

-- The checks of `_sk_ep_send`: the address, or none where the arguments are refused.
unfoldable pub checked_ip : Request → Option ℕ
checked_ip q = elim q.data_ [
  | [] ↦ none
  | _ ∷ _ ↦
      if q.handler.port == 0
      then none
      else if not (q.handler.timeout == 0) && not (is_some q.handler.unpack)
      then none
      else q.handler.ip
]

-- `_sk_ep_send`
unfoldable pub sk_ep_send : Outside → Request → EpPool → Checked (EpStatus × EpPool)
sk_ep_send o q pool = elim (checked_ip q) [
  | none ↦ ok (sk_ep_error, pool)
  | some ip ↦
      if q.handler.type == 0
      then (do (status, m) ← mgr_send o q ip pool.tcp; ok (status, record pool { tcp = m }))
      else if q.handler.type == 1
      then (do (status, m) ← mgr_send o q ip pool.udp; ok (status, record pool { udp = m }))
      else ok (sk_ep_error, pool)
]

-- `sk_ep_mgr_create`, where `max` is positive.
unfoldable pub sk_ep_mgr_create : ℕ → EpMgr
sk_ep_mgr_create max = record {
  heap = λ p. none;
  ee = λ k a. [];
  eps = [];
  max = max;
  nep = pos 0;
  next = 0;
  out = [];
}

-- `sk_ep_pool_create`
unfoldable pub sk_ep_pool_create : ℤ → EpPool
sk_ep_pool_create max_fds =
    let max : ℕ = elim max_fds [ pos zero ↦ 8192 | pos (suc n) ↦ suc n | negsuc n ↦ 8192 ] in
    record { tcp = sk_ep_mgr_create max; udp = sk_ep_mgr_create max }

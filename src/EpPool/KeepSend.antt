-- ===== src/EpPool/KeepSend.antt =====
-- Sending through a manager of endpoints, src/components/sk_ep_pool.c, keeps it valid.
use skull.Prelude.{
  ℕ, suc, ◌<◌, ◌≡◌, ap, sym, subst, ◌∙◌, Bool, true, false, Option, none, some, inl, inr, List, [],
  ◌∷◌, ◌++◌, length, length-append, ◌==◌, if◌then◌else◌, arith,
}
use skull.Prelude.Checked.{Checked, ok, ◌>>=◌}
use skull.Prelude.Holds.{bind-ok, if-cases, ok-inj}
use skull.Prelude.Int.{pos, inc}
use skull.EpPool.{
  EpSt, sk_ep_st_init, sk_ep_st_connecting, sk_ep_st_connected, EpStatus, sk_ep_error, EpData, Run,
  EpMgr, Outside,
}
use skull.EpPool.Txns.{ep_node_destroy, ep_send}
use skull.EpPool.Steps.{create_entity_tcp, create_entity_udp}
use skull.EpPool.Mgr.{store, on_ep, load, find_ep, private_ep, ep_mgr_del}
use skull.EpPool.Send.{
  Request, new_txn, add_txn, add_ep, connect, mgr_add_txn, ep_mgr_get_or_create, is_full, mgr_send,
}
use skull.EpPool.Good.{IsGood, has_node, ep_send-IsGood, ep_node_destroy-IsGood}
use skull.EpPool.GoodSteps.{create_entity_tcp-IsGood, create_entity_udp-IsGood}
use skull.EpPool.Count.{IsPush}
use skull.EpPool.Inv.{IsValid, on_ep-IsGood, store-IsValid, add_ep-IsValid, load-some}
use skull.EpPool.Remove.{ep_mgr_del-IsValid}

has_node-middle :
    (t : EpData) (before after : List EpData) → has_node t.node (before ++ t ∷ after) ≡ true
has_node-middle t [] after = ground arith
has_node-middle t (u ∷ before) after = ground (arith, has_node-middle t before after)

connect-IsGood :
    {k a n : ℕ} (o : Outside) (ip : ℕ) (t : EpData) (r : Run) (failed : Bool) (r' : Run)
    → connect o ip t r ≡ ok (failed, r')
    → IsGood k a n r
    → IsGood k a n r' × (r'.ep.txns ≡ r.ep.txns)
connect-IsGood {k} {a} {n} o ip t r failed r' e g = by_status r.ep.status e
  where
    stays :
        ◌≡◌ {A = Checked (Bool × Run)} (ok (false, r)) (ok (failed, r'))
        → IsGood k a n r' × (r'.ep.txns ≡ r.ep.txns)
    stays e =
        let same : r ≡ r' = ap (λ x. x.1) (ok-inj _ _ e) in
        (subst (IsGood k a n) same g, ap (λ r. r.ep.txns) (sym same))

    by_status :
        (status : EpSt)
        → ◌≡◌ {A = Checked (Bool × Run)}
            (elim status [
              | sk_ep_st_init ↦
                  if t.handler.type == 0
                  then create_entity_tcp o ip t.handler.port t r
                  else create_entity_udp o ip t.handler.port r
              | _ ↦ ok (false, r)
            ])
            (ok (failed, r'))
        → IsGood k a n r' × (r'.ep.txns ≡ r.ep.txns)
    by_status sk_ep_st_init e = elim (if-cases (t.handler.type == 0) _ _ _ e) [
      | inl (_, tcp) ↦ create_entity_tcp-IsGood o ip t.handler.port t r failed r' tcp g
      | inr (_, udp) ↦ create_entity_udp-IsGood o ip t.handler.port r failed r' udp g
    ]
    by_status sk_ep_st_connecting e = stays e
    by_status sk_ep_st_connected e = stays e

module _ (o : Outside) (law : IsPush o.flist_push) (txn_law : IsPush o.fdlist_push) where
  add_txn-IsGood :
      {k a n : ℕ} (t : EpData) (r : Run)
      → IsGood k a n r
      → IsGood k a n (add_txn o t r) × (has_node t.node (add_txn o t r).ep.txns ≡ true)
  unfolding inc
  add_txn-IsGood t r g =
      let (before, after, split, pushed) = txn_law r.ep.txns t in
      let size : suc (length r.ep.txns) ≡ length (o.fdlist_push r.ep.txns t) = omega (
        arith,
        ap length split ∙ length-append before after,
        ap length pushed ∙ length-append before (t ∷ after),
      ) in
      (
        record {
          key = g.key;
          address = g.address;
          later = omega (arith, g.later);
          counted = ap inc g.counted ∙ ap pos size;
        },
        ap (has_node t.node) pushed ∙ has_node-middle t before after,
      )

  mgr_add_txn-IsValid :
      (q : Request) (ip p : ℕ) (m : EpMgr) (t : Option EpData) (m' : EpMgr)
      → IsValid m
      → mgr_add_txn o q ip p m ≡ ok (t, m')
      → IsValid m'
  unfolding mgr_add_txn
  mgr_add_txn-IsValid q ip p m t m' v e =
      let (ep, loaded, e₁) = bind-ok (load m.heap p) _ _ e in
      let here = load-some m.heap p ep loaded in
      let u = new_txn o q m.next in
      let (g, has) = add_txn-IsGood u (on_ep m ep) (on_ep-IsGood m p ep v here) in
      let ((failed, r), made, e₂) = bind-ok (connect o ip u (add_txn o u (on_ep m ep))) _ _ e₁ in
      let (g₁, same) = connect-IsGood o ip u _ failed r made g in
      elim (if-cases failed _ _ _ e₂) [
        | inl (_, err) ↦
            let r₁ = ep_node_destroy u false r in
            let (m₁, deleted, e₃) = bind-ok (ep_mgr_del o p (store p r₁ m)) _ _ err in
            let v₁ =
              store-IsValid m p ep r₁ v here
                (ep_node_destroy-IsGood u false r (ap (has_node u.node) same ∙ has) g₁) in
            subst IsValid (ap (λ x. x.1) (ok-inj _ _ e₃))
              (ep_mgr_del-IsValid o p _ m₁ law v₁ deleted)
        | inr (_, done) ↦
            subst IsValid (ap (λ x. x.1) (ok-inj _ _ done)) (store-IsValid m p ep r v here g₁)
      ]

  get_or_create-IsValid :
      (q : Request) (ip : ℕ) (m : EpMgr) (p : ℕ) (t : Option EpData) (m' : EpMgr)
      → IsValid m
      → length m.eps < m.max
      → ep_mgr_get_or_create o q ip m ≡ ok (p, t, m')
      → IsValid m'
  unfolding ep_mgr_get_or_create
  get_or_create-IsValid q ip m p t m' v room e =
      let ekey = if private_ep q.handler.flags then q.entity else 0 in
      let ipkey = o.ipkey ip q.handler.port in
      let (found, _, e₁) = bind-ok (find_ep m.heap q.handler (m.ee ekey ipkey)) _ _ e in
      let ((u, m₂), added, e₂) = bind-ok (mgr_add_txn o q ip _ _) _ _ e₁ in
      subst IsValid (ap (λ x. x.2) (ok-inj _ _ e₂)) (by_found found u m₂ ekey ipkey added)
    where
      by_found :
          (found : Option ℕ) (u : Option EpData) (m₂ : EpMgr) (ekey ipkey : ℕ)
          → mgr_add_txn o q ip
              (elim found [ none ↦ m.next | some p ↦ p ])
              (elim found [ none ↦ add_ep o q.handler ekey ipkey m | some p ↦ m ])
            ≡ ok (u, m₂)
          → IsValid m₂
      by_found none u m₂ ekey ipkey e =
          mgr_add_txn-IsValid q ip m.next _ u m₂
            (add_ep-IsValid o q.handler ekey ipkey m law v room) e
      by_found (some p) u m₂ ekey ipkey e = mgr_add_txn-IsValid q ip p m u m₂ v e

  room : (m : EpMgr) → IsValid m → is_full m ≡ false → length m.eps < m.max
  room m v free = grind (arith, v.counted, v.bounded, free)

  pub mgr_send-IsValid :
      (q : Request) (ip : ℕ) (m : EpMgr) (status : EpStatus) (m' : EpMgr)
      → IsValid m
      → mgr_send o q ip m ≡ ok (status, m')
      → IsValid m'
  unfolding mgr_send
  mgr_send-IsValid q ip m status m' v e = elim (if-cases (is_full m) _ _ _ e) [
    | inl (_, full) ↦ subst IsValid (ap (λ x. x.1) (ok-inj _ _ full)) v
    | inr (free, e₁) ↦
        let ((p, t, m₁), made, e₂) = bind-ok (ep_mgr_get_or_create o q ip m) _ _ e₁ in
        by_txn p t m₁ (get_or_create-IsValid q ip m p t m₁ v (room m v free) made) e₂
  ]
    where
      by_txn :
          (p : ℕ) (t : Option EpData) (m₁ : EpMgr)
          → IsValid m₁
          → ◌≡◌ {A = Checked (EpStatus × EpMgr)}
              (elim t [
                | none ↦ ok (sk_ep_error, m₁)
                | some t ↦ load m₁.heap p >>= λ ep.
                    ep_send o t (on_ep m₁ ep) >>= λ x. ok (x.0, store p x.1 m₁)
              ])
              (ok (status, m'))
          → IsValid m'
      by_txn p none m₁ v₁ e = subst IsValid (ap (λ x. x.1) (ok-inj _ _ e)) v₁
      by_txn p (some t) m₁ v₁ e =
          let (ep, loaded, e₁) = bind-ok (load m₁.heap p) _ _ e in
          let here = load-some m₁.heap p ep loaded in
          let ((st, r), sent, e₂) = bind-ok (ep_send o t (on_ep m₁ ep)) _ _ e₁ in
          subst IsValid (ap (λ x. x.1) (ok-inj _ _ e₂)) (
            store-IsValid m₁ p ep r v₁ here
              (ep_send-IsGood o t (on_ep m₁ ep) st r sent (on_ep-IsGood m₁ p ep v₁ here)))

-- ===== src/EpPool/Keep.antt =====
-- Every operation on a manager of endpoints, src/components/sk_ep_pool.c, keeps it valid.
use skull.Prelude.{
  ℕ, ◌≡◌, refl, sym, subst, ◌∙◌, Bool, true, false, Option, none, some, inl, inr, List, [], ◌∷◌,
  arith,
}
use skull.Prelude.Checked.{Checked, ok}
use skull.Prelude.Holds.{bind-ok, assert-ok, if-cases, ok-inj}
use skull.EpPool.{EpData, Ep, Run, EpMgr, Outside}
use skull.EpPool.Txns.{is_connecting}
use skull.EpPool.Steps.{read_cb, on_connect}
use skull.EpPool.Mgr.{
  store, on_ep, load, find_node, handle_error, on_recv_timeout, on_shutdown_ep, on_conn_timeout,
  or_error, mgr_read, mgr_connect,
}
use skull.EpPool.Good.{IsGood, has_node, handle_timeout-IsGood}
use skull.EpPool.GoodSteps.{read_cb-IsGood, on_connect-IsGood}
use skull.EpPool.Count.{IsPush}
use skull.EpPool.Inv.{IsValid, on_ep-IsGood, store-IsValid, load-some}
use skull.EpPool.Error.{handle_error_lem}

module _ (o : Outside) (law : IsPush o.flist_push) where
  pub handle_error-IsValid :
      (p : ℕ) (m m' : EpMgr) → IsValid m → handle_error o p m ≡ ok m' → IsValid m'
  unfolding handle_error
  handle_error-IsValid p m m' v e =
      let (ep, loaded, _) = bind-ok (load m.heap p) _ _ e in
      let (m₁, runs, v₁, _, _, _) =
        handle_error_lem o p m ep law v (load-some m.heap p ep loaded) in
      subst IsValid (ok-inj _ _ (sym runs ∙ e)) v₁

  or_error-IsValid :
      (p : ℕ) (m m' : EpMgr) (ep : Ep) (step : Checked (Bool × Run))
      → IsValid m
      → m.heap p ≡ some ep
      → ((failed : Bool) (r : Run) → step ≡ ok (failed, r) → IsGood ep.ekey ep.ipkey m.next r)
      → or_error o p m step ≡ ok m'
      → IsValid m'
  or_error-IsValid p m m' ep step v here good e =
      let ((failed, r), stepped, e₁) = bind-ok step _ _ e in
      let v₁ = store-IsValid m p ep r v here (good failed r stepped) in
      elim (if-cases failed _ _ _ e₁) [
        | inl (_, err) ↦ handle_error-IsValid p (store p r m) m' v₁ err
        | inr (_, done) ↦ subst IsValid (ok-inj _ _ done) v₁
      ]

  pub mgr_read-IsValid :
      (bytes : Option (List ℕ)) (p : ℕ) (m m' : EpMgr)
      → IsValid m
      → mgr_read o bytes p m ≡ ok m'
      → IsValid m'
  unfolding mgr_read
  mgr_read-IsValid bytes p m m' v e =
      let (ep, loaded, e₁) = bind-ok (load m.heap p) _ _ e in
      let here = load-some m.heap p ep loaded in
      or_error-IsValid p m m' ep (read_cb o bytes (on_ep m ep)) v here
        (λ failed r stepped.
          read_cb-IsGood o bytes (on_ep m ep) failed r stepped (on_ep-IsGood m p ep v here))
        e₁

  pub mgr_connect-IsValid :
      (sockfd : ℕ) (mask_error : Bool) (err : Option ℕ) (p : ℕ) (m m' : EpMgr)
      → IsValid m
      → mgr_connect o sockfd mask_error err p m ≡ ok m'
      → IsValid m'
  unfolding mgr_connect
  mgr_connect-IsValid sockfd mask_error err p m m' v e =
      let (ep, loaded, e₁) = bind-ok (load m.heap p) _ _ e in
      let here = load-some m.heap p ep loaded in
      or_error-IsValid p m m' ep (on_connect o sockfd mask_error err (on_ep m ep)) v here
        (λ failed r stepped.
          on_connect-IsGood o sockfd mask_error err (on_ep m ep) failed r stepped
            (on_ep-IsGood m p ep v here))
        e₁

  find_node-has_node :
      (node : ℕ) (ts : List EpData) (t : EpData)
      → find_node node ts ≡ ok t
      → has_node t.node ts ≡ true
  find_node-has_node node [] t e = cc
  find_node-has_node node (u ∷ us) t e = grind (arith, e, find_node-has_node node us t)

  pub on_recv_timeout-IsValid :
      (valid : Bool) (p node : ℕ) (m m' : EpMgr)
      → IsValid m
      → on_recv_timeout valid p node m ≡ ok m'
      → IsValid m'
  unfolding on_recv_timeout
  on_recv_timeout-IsValid false p node m m' v e = subst IsValid (ok-inj _ _ e) v
  on_recv_timeout-IsValid true p node m m' v e =
      let (ep, loaded, e₁) = bind-ok (load m.heap p) _ _ e in
      let (t, found, e₂) = bind-ok (find_node node ep.txns) _ _ e₁ in
      let here = load-some m.heap p ep loaded in
      subst IsValid (ok-inj _ _ e₂) (
        store-IsValid m p ep _ v here (
          handle_timeout-IsGood (record t { recv_timer = none }) (on_ep m ep)
            (find_node-has_node node ep.txns t found) (on_ep-IsGood m p ep v here)))

  pub on_shutdown_ep-IsValid :
      (valid : Bool) (p : ℕ) (m m' : EpMgr)
      → IsValid m
      → on_shutdown_ep o valid p m ≡ ok m'
      → IsValid m'
  unfolding on_shutdown_ep
  on_shutdown_ep-IsValid false p m m' v e = subst IsValid (ok-inj _ _ e) v
  on_shutdown_ep-IsValid true p m m' v e =
      let (ep, loaded, e₁) = bind-ok (load m.heap p) _ _ e in
      let here = load-some m.heap p ep loaded in
      let g = on_ep-IsGood m p ep v here in
      handle_error-IsValid p _ m'
        (store-IsValid m p ep _ v here
          (record { key = refl; address = refl; later = g.later; counted = g.counted }))
        e₁

  pub on_conn_timeout-IsValid :
      (valid : Bool) (p : ℕ) (m m' : EpMgr)
      → IsValid m
      → on_conn_timeout o valid p m ≡ ok m'
      → IsValid m'
  unfolding on_conn_timeout
  on_conn_timeout-IsValid false p m m' v e = subst IsValid (ok-inj _ _ e) v
  on_conn_timeout-IsValid true p m m' v e =
      let (ep, loaded, e₁) = bind-ok (load m.heap p) _ _ e in
      let (_, e₂) = assert-ok (is_connecting ep.status) _ _ e₁ in
      let here = load-some m.heap p ep loaded in
      let g = on_ep-IsGood m p ep v here in
      handle_error-IsValid p _ m'
        (store-IsValid m p ep _ v here
          (record { key = refl; address = refl; later = g.later; counted = g.counted }))
        e₂

-- ===== src/EpPool/GoodSteps.antt =====
-- The transactions of an endpoint of src/components/sk_ep_pool.c are counted right after every event.
use skull.Prelude.{
  ℕ, zero, suc, ◌≡◌, ◌≢◌, refl, ap, sym, subst, ◌∙◌, Bool, true, false, Option, none, some, List,
  [], ◌∷◌, arith,
}
use skull.Prelude.Checked.{ok}
use skull.Prelude.Holds.{bind-ok, assert-ok, ok-inj}
use skull.Prelude.Int.{ℤ, pos, negsuc}
use skull.EpPool.{EpStatus, sk_ep_ok, sk_ep_error, sk_ep_timed_out, EpData, Run, Outside}
use skull.EpPool.Txns.{is_connected, is_connecting, is_pending, ep_send}
use skull.EpPool.Steps.{
  unpack_each, on_unpacked, read_cb, send_each, on_connect, handle_timeouts, set_connected,
  create_entity_tcp, create_entity_udp,
}
use skull.EpPool.Good.{
  IsGood, has_node, has_node-set_node, emit-IsGood, set_node-IsGood, ep_send-IsGood,
  handle_ok-IsGood,
}

unpack_each-has_node :
    (data_ : List ℕ) (ts : List EpData) (t : EpData) (consumed : ℤ)
    → unpack_each data_ ts ≡ some (t, consumed)
    → has_node t.node ts ≡ true
unfolding unpack_each
unpack_each-has_node data_ [] t consumed e = cc
unpack_each-has_node data_ (u ∷ us) t consumed e =
    grind (arith, e, unpack_each-has_node data_ us t consumed)

ep_send-status :
    (o : Outside) (t : EpData) (r : Run) (status : EpStatus) (r' : Run)
    → ep_send o t r ≡ ok (status, r')
    → status ≢ sk_ep_timed_out
unfolding ep_send
ep_send-status o t r status r' e late = grind (arith, e, late)

module _ {k a n : ℕ} where
  on_unpacked-IsGood :
      (o : Outside) (data_ : List ℕ) (u : Option (EpData × ℤ)) (r : Run) (failed : Bool) (r' : Run)
      → ((t : EpData) (consumed : ℤ) → u ≡ some (t, consumed) → has_node t.node r.ep.txns ≡ true)
      → on_unpacked o data_ u r ≡ ok (failed, r')
      → IsGood k a n r
      → IsGood k a n r'
  on_unpacked-IsGood o data_ none r failed r' h e g =
      subst (IsGood k a n) (ap (λ x. x.1) (ok-inj _ _ e)) g
  on_unpacked-IsGood o data_ (some (t, negsuc m)) r failed r' h e g =
      subst (IsGood k a n) (ap (λ x. x.1) (ok-inj _ _ e)) g
  on_unpacked-IsGood o data_ (some (t, pos m)) r failed r' h e g =
      let (r₂, handled, done) = bind-ok _ _ _ e in
      subst (IsGood k a n) (ap (λ x. x.1) (ok-inj _ _ done)) (
        handle_ok-IsGood o _ _ _ r₂ (has_node-set_node t.node _ r.ep.txns ∙ h t (pos m) refl)
          handled (emit-IsGood _ _ (emit-IsGood _ _ (set_node-IsGood _ r g))))

  pub read_cb-IsGood :
      (o : Outside) (bytes : Option (List ℕ)) (r : Run) (failed : Bool) (r' : Run)
      → read_cb o bytes r ≡ ok (failed, r')
      → IsGood k a n r
      → IsGood k a n r'
  unfolding read_cb
  read_cb-IsGood o none r failed r' e g =
      let (_, done) = assert-ok (is_connected r.ep.status) _ _ e in
      subst (IsGood k a n) (ap (λ x. x.1) (ok-inj _ _ done)) g
  read_cb-IsGood o (some data_) r failed r' e g =
      let (_, done) = assert-ok (is_connected r.ep.status) _ _ e in
      on_unpacked-IsGood o data_ _ r failed r' (unpack_each-has_node data_ r.ep.txns) done g

  pub send_each-IsGood :
      (o : Outside) (ts late : List EpData) (r : Run) (late' : List EpData) (r' : Run)
      → send_each o ts late r ≡ ok (late', r')
      → IsGood k a n r
      → (late' ≡ late) × IsGood k a n r'
  unfolding send_each
  send_each-IsGood o [] late r late' r' e g =
      (ap (λ x. x.0) (sym (ok-inj _ _ e)), subst (IsGood k a n) (ap (λ x. x.1) (ok-inj _ _ e)) g)
  send_each-IsGood o (t ∷ ts) late r late' r' e g =
      let (_, e₁) = assert-ok (is_pending t.status) _ _ e in
      let ((status, r₁), sent, e₂) = bind-ok (ep_send o t r) _ _ e₁ in
      next (λ r₂ e₃ g₂. send_each-IsGood o ts late r₂ late' r' e₃ g₂) status r₁ e₂
        (ep_send-status o t r status r₁ sent) (ep_send-IsGood o t r status r₁ sent g)
    where
      next :
          ((r₂ : Run)
            → send_each o ts late r₂ ≡ ok (late', r')
            → IsGood k a n r₂
            → (late' ≡ late) × IsGood k a n r')
          → (status : EpStatus) (r₁ : Run)
          → (elim status [
            | sk_ep_ok ↦ send_each o ts late r₁
            | sk_ep_timed_out ↦ send_each o ts (t ∷ late) r₁
            | sk_ep_error ↦ ok (late, r₁)
          ])
            ≡ ok (late', r')
          → status ≢ sk_ep_timed_out
          → IsGood k a n r₁
          → (late' ≡ late) × IsGood k a n r'
      next again sk_ep_ok r₁ e ne g = again r₁ e g
      next again sk_ep_timed_out r₁ e ne g = absurd (ne refl)
      next again sk_ep_error r₁ e ne g = (
        ap (λ x. x.0) (sym (ok-inj _ _ e)),
        subst (IsGood k a n) (ap (λ x. x.1) (ok-inj _ _ e)) g,
      )

  pub on_connect-IsGood :
      (o : Outside) (sockfd : ℕ) (mask_error : Bool) (err : Option ℕ) (r : Run) (failed : Bool)
      (r' : Run)
      → on_connect o sockfd mask_error err r ≡ ok (failed, r')
      → IsGood k a n r
      → IsGood k a n r'
  unfolding on_connect
  on_connect-IsGood o sockfd true err r failed r' e g =
      subst (IsGood k a n) (ap (λ x. x.1) (ok-inj _ _ e)) g
  on_connect-IsGood o sockfd false none r failed r' e g =
      let (_, done) = assert-ok (is_connecting r.ep.status) _ _ e in
      subst (IsGood k a n) (ap (λ x. x.1) (ok-inj _ _ done)) g
  on_connect-IsGood o sockfd false (some (suc m)) r failed r' e g =
      let (_, done) = assert-ok (is_connecting r.ep.status) _ _ e in
      subst (IsGood k a n) (ap (λ x. x.1) (ok-inj _ _ done)) g
  on_connect-IsGood o sockfd false (some zero) r failed r' e g =
      let (_, e₁) = assert-ok (is_connecting r.ep.status) _ _ e in
      let (_, e₂) = assert-ok (o.evbuff_new sockfd) _ _ e₁ in
      let ((late, r₁), sent, e₃) = bind-ok (send_each o r.ep.txns [] (set_connected r)) _ _ e₂ in
      let (none_late, g₁) = send_each-IsGood o _ [] _ late r₁ sent (set_connected-IsGood r g) in
      let same : handle_timeouts late r₁ ≡ r₁ = ap (λ ts. handle_timeouts ts r₁) none_late in
      subst (IsGood k a n) (sym same ∙ ap (λ x. x.1) (ok-inj _ _ e₃)) g₁
    where
      set_connected-IsGood : (r : Run) → IsGood k a n r → IsGood k a n (set_connected r)
      set_connected-IsGood r g = record {
        key = g.key;
        address = g.address;
        later = g.later;
        counted = g.counted;
      }

  pub create_entity_tcp-IsGood :
      (o : Outside) (ip port : ℕ) (t : EpData) (r : Run) (failed : Bool) (r' : Run)
      → create_entity_tcp o ip port t r ≡ ok (failed, r')
      → IsGood k a n r
      → IsGood k a n r' × (r'.ep.txns ≡ r.ep.txns)
  unfolding create_entity_tcp
  create_entity_tcp-IsGood o ip port t r failed r' e g = (
    record {
      key = grind (arith, e, g.key);
      address = grind (arith, e, g.address);
      later = grind (arith, e, g.later);
      counted = grind (arith, e, g.counted);
    },
    grind (arith, e),
  )

  pub create_entity_udp-IsGood :
      (o : Outside) (ip port : ℕ) (r : Run) (failed : Bool) (r' : Run)
      → create_entity_udp o ip port r ≡ ok (failed, r')
      → IsGood k a n r
      → IsGood k a n r' × (r'.ep.txns ≡ r.ep.txns)
  unfolding create_entity_udp
  create_entity_udp-IsGood o ip port r failed r' e g = (
    record {
      key = grind (arith, e, g.key);
      address = grind (arith, e, g.address);
      later = grind (arith, e, g.later);
      counted = grind (arith, e, g.counted);
    },
    grind (arith, e),
  )

-- ===== src/EpPool/Good.antt =====
-- The transactions of an endpoint of src/components/sk_ep_pool.c are counted right while it works.
use skull.Prelude.{
  ℕ, suc, ◌≤◌, ◌≡◌, refl, ap, sym, subst, ◌∙◌, Bool, true, false, List, [], ◌∷◌, length, ◌==◌,
  if◌then◌else◌, arith,
}
use skull.Prelude.Checked.{ok}
use skull.Prelude.Holds.{bind-ok, ok-inj}
use skull.Prelude.Int.{pos, dec}
use skull.EpPool.{EpStatus, EpData, Out, Run, Outside}
use skull.EpPool.Txns.{
  emit, with_txns, set_node, delete_node, ep_create_shutdown_timer, ep_node_destroy, set_timers,
  ep_send, handle_timeout, handle_ok,
}

-- An endpoint with the keys `k` and `a` whose transactions are counted right, and no number below
-- `n` to give.
pub record IsGood (k a n : ℕ) (r : Run) : Type 0 where
  pub key : r.ep.ekey ≡ k
  pub address : r.ep.ipkey ≡ a
  pub later : n ≤ r.next
  pub counted : r.ep.ntxn ≡ pos (length r.ep.txns)

-- Whether a node is in a list.
abbrev pub has_node : ℕ → List EpData → Bool
has_node node [] = false
has_node node (t ∷ ts) = let rest = has_node node ts in if t.node == node then true else rest

pub length-set_node : (t : EpData) (ts : List EpData) → length (set_node t ts) ≡ length ts
length-set_node t [] = refl
length-set_node t (u ∷ us) = ground (arith, length-set_node t us)

pub has_node-set_node :
    (node : ℕ) (t : EpData) (ts : List EpData) → has_node node (set_node t ts) ≡ has_node node ts
has_node-set_node node t [] = refl
has_node-set_node node t (u ∷ us) = grind (arith, has_node-set_node node t us)

pub length-delete_node :
    (node : ℕ) (ts : List EpData)
    → has_node node ts ≡ true
    → length ts ≡ suc (length (delete_node node ts))
length-delete_node node [] h = cc
length-delete_node node (t ∷ ts) h = grind (arith, h, length-delete_node node ts)

-- What a shutdown timer leaves as it was.
record IsTimed (r r' : Run) : Type 0 where
  pub key : r'.ep.ekey ≡ r.ep.ekey
  pub address : r'.ep.ipkey ≡ r.ep.ipkey
  pub later : r.next ≤ r'.next
  pub same_txns : r'.ep.txns ≡ r.ep.txns
  pub same_ntxn : r'.ep.ntxn ≡ r.ep.ntxn

shutdown_timer-IsTimed :
    (o : Outside) (ms : ℕ) (r r' : Run) → ep_create_shutdown_timer o ms r ≡ ok r' → IsTimed r r'
unfolding ep_create_shutdown_timer
shutdown_timer-IsTimed o ms r r' e = record {
  key = grind (arith, e);
  address = grind (arith, e);
  later = grind (arith, e);
  same_txns = grind (arith, e);
  same_ntxn = grind (arith, e);
}

ruleset timed = (arith, shutdown_timer-IsTimed, length-set_node)

module _ {k a n : ℕ} where
  pub emit-IsGood : (out : List Out) (r : Run) → IsGood k a n r → IsGood k a n (emit out r)
  emit-IsGood out r g = record {
    key = g.key;
    address = g.address;
    later = g.later;
    counted = g.counted;
  }

  pub set_node-IsGood :
      (t : EpData) (r : Run) → IsGood k a n r → IsGood k a n (with_txns (set_node t r.ep.txns) r)
  set_node-IsGood t r g = record {
    key = g.key;
    address = g.address;
    later = g.later;
    counted = g.counted ∙ ap pos (sym (length-set_node t r.ep.txns));
  }

  pub ep_node_destroy-IsGood :
      (t : EpData) (user : Bool) (r : Run)
      → has_node t.node r.ep.txns ≡ true
      → IsGood k a n r
      → IsGood k a n (ep_node_destroy t user r)
  unfolding ep_node_destroy dec
  ep_node_destroy-IsGood t user r h g = record {
    key = g.key;
    address = g.address;
    later = g.later;
    counted = ap dec (g.counted ∙ ap pos (length-delete_node t.node r.ep.txns h));
  }

  pub handle_timeout-IsGood :
      (t : EpData) (r : Run)
      → has_node t.node r.ep.txns ≡ true
      → IsGood k a n r
      → IsGood k a n (handle_timeout t r)
  unfolding handle_timeout
  handle_timeout-IsGood t r h g = ep_node_destroy-IsGood t true _ h (emit-IsGood _ r g)

  timed-IsGood : (r r' : Run) → IsTimed r r' → IsGood k a n r → IsGood k a n r'
  timed-IsGood r r' t g = record {
    key = t.key ∙ g.key;
    address = t.address ∙ g.address;
    later = omega (arith, t.later, g.later);
    counted = t.same_ntxn ∙ g.counted ∙ ap (λ ts. pos (length ts)) (sym t.same_txns);
  }

  pub ep_send-IsGood :
      (o : Outside) (t : EpData) (r : Run) (status : EpStatus) (r' : Run)
      → ep_send o t r ≡ ok (status, r')
      → IsGood k a n r
      → IsGood k a n r'
  unfolding ep_send set_timers
  ep_send-IsGood o t r status r' e g = record {
    key = grind (timed, e, g.key);
    address = grind (timed, e, g.address);
    later = grind (timed, e, g.later);
    counted = grind (timed, e, g.counted);
  }

  pub handle_ok-IsGood :
      (o : Outside) (t : EpData) (data_ : List ℕ) (r r' : Run)
      → has_node t.node r.ep.txns ≡ true
      → handle_ok o t data_ r ≡ ok r'
      → IsGood k a n r
      → IsGood k a n r'
  unfolding handle_ok
  handle_ok-IsGood o t data_ r r' h e g =
      let (r₁, timed, done) = bind-ok _ _ _ e in
      let t₁ = shutdown_timer-IsTimed o _ _ r₁ timed in
      subst (IsGood k a n) (ok-inj _ _ done) (
        ep_node_destroy-IsGood t true r₁ (ap (has_node t.node) t₁.same_txns ∙ h)
          (timed-IsGood _ r₁ t₁ (emit-IsGood _ r g)))

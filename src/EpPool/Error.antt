-- ===== src/EpPool/Error.antt =====
-- What an error on a connection does to the transactions and to the manager, src/components/sk_ep_pool.c.
use skull.Prelude.{
  ℕ, ◌≡◌, refl, ap, sym, subst, ◌∙◌, true, false, Option, none, some, inl, inr, List, [], ◌∷◌, ◌++◌,
  append_assoc, append-nil, if◌then◌else◌, arith, Bool-cases,
}
use skull.Prelude.Counts.{member, count-member}
use skull.Prelude.Checked.{Checked, ok, assert_failed, ◌>>=◌, sk_assert}
use skull.Prelude.Int.{dec}
use skull.EpPool.{sk_ep_error, EpData, Ep, Out, Run, EpMgr, Outside}
use skull.EpPool.Txns.{
  is_init, emit, call_back, cancel, ep_data_release, ep_node_destroy, delete_node,
}
use skull.EpPool.Mgr.{
  store, on_ep, load, fail_each, destroy_each, close, ep_destroy, without_ep, ep_mgr_del,
  handle_error,
}
use skull.EpPool.Good.{IsGood, has_node, emit-IsGood, ep_node_destroy-IsGood}
use skull.EpPool.Count.{IsPush}
use skull.EpPool.Inv.{IsValid, on_ep-IsGood, store-IsValid, put_self, IsFiled-at}
use skull.EpPool.Remove.{without_ep-IsValid}

-- What the user and the timers see of a transaction that fails: an answer, unless the first send is
-- still to return, and the release of what it holds.
abbrev pub fail_out : EpData → List Out
fail_out t =
    if is_init t.status
    then ep_data_release t false
    else call_back sk_ep_error t [] ++ ep_data_release t true

abbrev pub fail_outs : List EpData → List Out
fail_outs [] = []
fail_outs (t ∷ ts) = fail_out t ++ fail_outs ts

abbrev fail_one : EpData → Run → Run
fail_one t r =
    if is_init t.status
    then ep_node_destroy t false r
    else ep_node_destroy t true (emit (call_back sk_ep_error t []) r)

delete_head : (t : EpData) (ts : List EpData) → delete_node t.node (t ∷ ts) ≡ ts
delete_head t ts = ground arith

has_head : (t : EpData) (ts : List EpData) → has_node t.node (t ∷ ts) ≡ true
has_head t ts = ground arith

-- A run on an endpoint went on to the transactions `ts`, said `out` and left the timers.
record IsRest (ts : List EpData) (out : List Out) (r r' : Run) : Type 0 where
  pub rest : r'.ep.txns ≡ ts
  pub said : r'.out ≡ r.out ++ out
  pub same_conn : r'.ep.conn_timer ≡ r.ep.conn_timer
  pub same_shutdown : r'.ep.shutdown_timer ≡ r.ep.shutdown_timer
  pub same_status : r'.ep.status ≡ r.ep.status
  pub same_fd : r'.ep.fd ≡ r.ep.fd

fail_one-IsRest :
    (t : EpData) (ts : List EpData) (r : Run)
    → r.ep.txns ≡ t ∷ ts
    → IsRest ts (fail_out t) r (fail_one t r)
unfolding ep_node_destroy
fail_one-IsRest t ts r e = elim (Bool-cases (is_init t.status)) [
  | inl init ↦ record {
    rest = grind (arith, init, here);
    said = grind (arith, init);
    same_conn = grind (arith, init);
    same_shutdown = grind (arith, init);
    same_status = grind (arith, init);
    same_fd = grind (arith, init);
  }
  | inr other ↦ record {
    rest = grind (arith, other, here);
    said =
        grind
          (arith, other, append_assoc r.out (call_back sk_ep_error t []) (ep_data_release t true));
    same_conn = grind (arith, other);
    same_shutdown = grind (arith, other);
    same_status = grind (arith, other);
    same_fd = grind (arith, other);
  }
]
  where
    here : delete_node t.node r.ep.txns ≡ ts
    here = ap (delete_node t.node) e ∙ delete_head t ts

fail_each-IsRest :
    (ts : List EpData) (r : Run) → r.ep.txns ≡ ts → IsRest [] (fail_outs ts) r (fail_each ts r)
fail_each-IsRest [] r e = record {
  rest = e;
  said = sym (append-nil r.out);
  same_conn = refl;
  same_shutdown = refl;
  same_status = refl;
  same_fd = refl;
}
fail_each-IsRest (t ∷ ts) r e =
    let one = fail_one-IsRest t ts r e in
    let more = fail_each-IsRest ts (fail_one t r) one.rest in
    record {
      rest = more.rest;
      said =
          more.said
          ∙ ap (λ out. out ++ fail_outs ts) one.said
          ∙ append_assoc r.out (fail_out t) (fail_outs ts);
      same_conn = more.same_conn ∙ one.same_conn;
      same_shutdown = more.same_shutdown ∙ one.same_shutdown;
      same_status = more.same_status ∙ one.same_status;
      same_fd = more.same_fd ∙ one.same_fd;
    }

fail_each-IsGood :
    {k a n : ℕ} (ts : List EpData) (r : Run)
    → r.ep.txns ≡ ts
    → IsGood k a n r
    → IsGood k a n (fail_each ts r)
fail_each-IsGood [] r e g = g
fail_each-IsGood (t ∷ ts) r e g =
    fail_each-IsGood ts (fail_one t r) ((fail_one-IsRest t ts r e).rest)
      (elim (Bool-cases (is_init t.status)) [
        | inl init ↦
            subst (IsGood _ _ _) (sym (grind (arith, init)))
              (ep_node_destroy-IsGood t false r here g)
        | inr other ↦
            subst (IsGood _ _ _) (sym (grind (arith, other)))
              (ep_node_destroy-IsGood t true _ here (emit-IsGood (call_back sk_ep_error t []) r g))
      ])
  where
    here : has_node t.node r.ep.txns ≡ true
    here = ap (has_node t.node) e ∙ has_head t ts

ep_destroy-out :
    (r : Run)
    → r.ep.txns ≡ []
    → (ep_destroy r).out
      ≡ (r.out ++ cancel r.ep.conn_timer ++ cancel r.ep.shutdown_timer) ++ close r.ep
unfolding ep_destroy
ep_destroy-out r e = ap (λ x. (emit (close x.ep) x).out) (ap (λ ts. destroy_each ts cancelled) e)
  where
    cancelled : Run
    cancelled = record r {
      ep = record r.ep { conn_timer = none; shutdown_timer = none };
      out = r.out ++ cancel r.ep.conn_timer ++ cancel r.ep.shutdown_timer;
    }

pub load-bind {ℓ} :
    {B : Type ℓ} (heap : ℕ → Option Ep) (p : ℕ) (ep : Ep) (f : Ep → Checked B)
    → heap p ≡ some ep
    → (load heap p >>= f) ≡ f ep
load-bind heap p ep f e = ap (λ x. (elim x [ none ↦ assert_failed | some ep ↦ ok ep ]) >>= f) e

-- What is said of an endpoint without transactions when it goes: its timers, and a connection that
-- was not made.
abbrev pub last_out : List Out → Ep → List Out
last_out out ep =
    out ++ cancel ep.conn_timer ++ cancel ep.shutdown_timer ++ close (record ep { entity = false })

-- On an error of an endpoint the manager fails each of its transactions in order, cancels its
-- timers, closes a connection that was not made, frees it and stays valid.
pub handle_error_lem :
    (o : Outside) (p : ℕ) (m : EpMgr) (ep : Ep)
    → IsPush o.flist_push
    → IsValid m
    → m.heap p ≡ some ep
    → (m' : EpMgr) × (handle_error o p m ≡ ok m')
      × IsValid m'
      × (m'.heap p ≡ none)
      × (m'.nep ≡ dec m.nep)
      × (m'.out ≡ last_out (m.out ++ fail_outs ep.txns) ep)
unfolding handle_error ep_mgr_del
handle_error_lem o p m ep law v e = (
  without_ep o p failed.ep m₁,
  runs,
  without_ep-IsValid o p failed.ep m₁ law v₁ here,
  put_self m₁.heap p none,
  refl,
  said,
)
  where
    failed : Run
    failed = fail_each ep.txns (on_ep m ep)

    m₁ : EpMgr
    m₁ = store p failed m

    v₁ : IsValid m₁
    v₁ =
        store-IsValid m p ep failed v e
          (fail_each-IsGood ep.txns (on_ep m ep) refl (on_ep-IsGood m p ep v e))

    here : m₁.heap p ≡ some failed.ep
    here = put_self m.heap p (some failed.ep)

    owned : member p m.eps ≡ true
    owned = count-member p m.eps (omega (arith, (IsFiled-at m p ep v e).0))

    runs : handle_error o p m ≡ ok (without_ep o p failed.ep m₁)
    runs =
        load-bind m.heap p ep _ e
        ∙ load-bind m₁.heap p failed.ep _ here
        ∙ ap (λ b. sk_assert b >>= λ _. ok (without_ep o p failed.ep m₁)) owned

    rest : IsRest [] (fail_outs ep.txns) (on_ep m ep) failed
    rest = fail_each-IsRest ep.txns (on_ep m ep) refl

    same_last : last_out failed.out failed.ep ≡ last_out (m.out ++ fail_outs ep.txns) ep
    same_last =
        grind (arith, rest.said, rest.same_conn, rest.same_shutdown, rest.same_status, rest.same_fd)

    said : (without_ep o p failed.ep m₁).out ≡ last_out (m.out ++ fail_outs ep.txns) ep
    said = ep_destroy-out (on_ep m₁ (record failed.ep { entity = false })) rest.rest ∙ same_last

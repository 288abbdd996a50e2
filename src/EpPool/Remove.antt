-- ===== src/EpPool/Remove.antt =====
-- Removing an endpoint from a manager of src/components/sk_ep_pool.c keeps it valid.
use skull.Prelude.{
  ℕ, suc, ◌≡◌, refl, ap, sym, subst, ◌∙◌, true, false, none, some, List, [], ◌∷◌, length, arith,
}
use skull.Prelude.Counts.{
  member, delete, count-delete_ne, count-delete_self, length-delete, count-member,
}
use skull.Prelude.Checked.{ok}
use skull.Prelude.Holds.{bind-ok, assert-ok, ok-inj}
use skull.Prelude.Int.{pos, dec}
use skull.EpPool.{EpData, Ep, Run, EpMgr, Outside}
use skull.EpPool.Mgr.{on_ep, load, ep_destroy, ep_mgr_del, without_ep, destroy_each}
use skull.EpPool.Txns.{ep_node_destroy}
use skull.EpPool.Count.{IsPush, count-remove_ep}
use skull.EpPool.Inv.{IsFiled-at, IsValid, count-put_list, load-some, refile}

destroy_each-next : (ts : List EpData) (r : Run) → (destroy_each ts r).next ≡ r.next
unfolding ep_node_destroy
destroy_each-next [] r = refl
destroy_each-next (t ∷ ts) r = destroy_each-next ts (ep_node_destroy t true r)

pub ep_destroy-next : (r : Run) → (ep_destroy r).next ≡ r.next
unfolding ep_destroy
ep_destroy-next r = destroy_each-next r.ep.txns _

pub without_ep-IsValid :
    (o : Outside) (p : ℕ) (ep : Ep) (m : EpMgr)
    → IsPush o.flist_push
    → IsValid m
    → m.heap p ≡ some ep
    → IsValid (without_ep o p ep m)
unfolding dec
without_ep-IsValid o p ep m law v e =
    let (owned, _, listed) = IsFiled-at m p ep v e in
    let size : suc (length (delete p m.eps)) ≡ length m.eps =
      length-delete p m.eps (omega (arith, owned)) in
    let next = ep_destroy-next (on_ep m (record ep { entity = false })) in
    record {
      filed =
          refile m p none (delete p m.eps) _ v (λ q ne. count-delete_ne p q m.eps ne)
            (λ q ne k a.
              count-put_list q m.ee ep.ekey ep.ipkey _ k a
              ∙ grind (arith, ne, count-remove_ep o.flist_push law p q (m.ee ep.ekey ep.ipkey)))
            (
              grind (arith, owned, count-delete_self p m.eps, count-member p m.eps),
              λ k a.
                  count-put_list p m.ee ep.ekey ep.ipkey _ k a
                  ∙ grind (
                    arith,
                    count-remove_ep o.flist_push law p p (m.ee ep.ekey ep.ipkey),
                    listed k a,
                  ),
            );
      fresh = λ q h. grind (arith, v.fresh q (omega (arith, h, next)));
      counted = ap dec (v.counted ∙ ap pos (sym size));
      bounded = omega (arith, size, v.bounded);
    }

pub ep_mgr_del-IsValid :
    (o : Outside) (p : ℕ) (m m' : EpMgr)
    → IsPush o.flist_push
    → IsValid m
    → ep_mgr_del o p m ≡ ok m'
    → IsValid m'
unfolding ep_mgr_del
ep_mgr_del-IsValid o p m m' law v e =
    let (ep, loaded, e₁) = bind-ok (load m.heap p) _ _ e in
    let (_, e₂) = assert-ok (member p m.eps) _ _ e₁ in
    subst IsValid (ok-inj _ _ e₂) (without_ep-IsValid o p ep m law v (load-some m.heap p ep loaded))

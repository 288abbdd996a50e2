-- ===== src/EpPool/Inv.antt =====
-- What holds of a manager of endpoints in src/components/sk_ep_pool.c between its operations: the
-- mapping, the entity manager, the counters and the memory agree.
use skull.Prelude.{
  ℕ, suc, ◌≤◌, ◌<◌, ◌≡◌, ◌≢◌, refl, ap, ap₂, sym, subst, ◌∙◌, ◌&&◌, Option, none, some, inl, inr,
  List, ◌∷◌, length, ◌==◌, if◌then◌else◌, arith,
}
use skull.Prelude.Counts.{eq-cases, count, count_self, count_other}
use skull.Prelude.Checked.{ok}
use skull.Prelude.Int.{pos, inc}
use skull.EpPool.{Handler, Ep, Run, EpMgr, Outside}
use skull.EpPool.Mgr.{put, store, on_ep, put_list, load, ep_create}
use skull.EpPool.Send.{add_ep}
use skull.EpPool.Good.{IsGood}
use skull.EpPool.Count.{IsPush, count-push}

-- How often an endpoint stands in the list of two keys.
abbrev pub place : Ep → ℕ → ℕ → ℕ
place ep k a = if (ep.ekey == k) && (ep.ipkey == a) then 1 else 0

-- An endpoint is in the entity manager once, in the list of its keys once and in no other list, and
-- its transactions are counted. What is freed is nowhere.
abbrev pub IsFiled : Option Ep → ℕ → (ℕ → ℕ → ℕ) → Type 0
IsFiled none owned listed = (owned ≡ 0) × ((k a : ℕ) → listed k a ≡ 0)
IsFiled (some ep) owned listed =
    (owned ≡ 1) × (ep.ntxn ≡ pos (length ep.txns)) × ((k a : ℕ) → listed k a ≡ place ep k a)

pub record IsValid (m : EpMgr) : Type 0 where
  pub filed : (p : ℕ) → IsFiled (m.heap p) (count p m.eps) (λ k a. count p (m.ee k a))
  pub fresh : (p : ℕ) → m.next ≤ p → m.heap p ≡ none
  pub counted : m.nep ≡ pos (length m.eps)
  pub bounded : length m.eps ≤ m.max

pub IsFiled-at :
    (m : EpMgr) (p : ℕ) (ep : Ep)
    → IsValid m
    → m.heap p ≡ some ep
    → IsFiled (some ep) (count p m.eps) (λ k a. count p (m.ee k a))
IsFiled-at m p ep v e =
    subst (λ x. IsFiled x (count p m.eps) (λ k a. count p (m.ee k a))) e (v.filed p)

pub on_ep-IsGood :
    (m : EpMgr) (p : ℕ) (ep : Ep)
    → IsValid m
    → m.heap p ≡ some ep
    → IsGood ep.ekey ep.ipkey m.next (on_ep m ep)
on_ep-IsGood m p ep v e = record {
  key = refl;
  address = refl;
  later = omega arith;
  counted = (IsFiled-at m p ep v e).1;
}

below : (m : EpMgr) (p : ℕ) (ep : Ep) → IsValid m → m.heap p ≡ some ep → p < m.next
below m p ep v e = grind (arith, e, v.fresh p)

IsFiled-same :
    (e : Option Ep) (owned owned' : ℕ) (listed listed' : ℕ → ℕ → ℕ)
    → owned' ≡ owned
    → ((k a : ℕ) → listed' k a ≡ listed k a)
    → IsFiled e owned listed
    → IsFiled e owned' listed'
IsFiled-same none owned owned' listed listed' p q (f, g) = (p ∙ f, λ k a. q k a ∙ g k a)
IsFiled-same (some ep) owned owned' listed listed' p q (f, n, g) = (p ∙ f, n, λ k a. q k a ∙ g k a)

pub put_self : (heap : ℕ → Option Ep) (p : ℕ) (e : Option Ep) → put heap p e p ≡ e
put_self heap p e = ground arith

pub put_other : (heap : ℕ → Option Ep) (p q : ℕ) (e : Option Ep) → p ≢ q → put heap p e q ≡ heap q
put_other heap p q e ne = grind (arith, ne)

pub count-put_list :
    (q : ℕ) (ee : ℕ → ℕ → List ℕ) (ekey ipkey : ℕ) (ps : List ℕ) (k a : ℕ)
    → count q (put_list ee ekey ipkey ps k a)
      ≡ (if (ekey == k) && (ipkey == a) then count q ps else count q (ee k a))
count-put_list q ee ekey ipkey ps k a = ground arith

pub load-some : (heap : ℕ → Option Ep) (p : ℕ) (ep : Ep) → load heap p ≡ ok ep → heap p ≡ some ep
load-some heap p ep e = grind (arith, e)

-- The memory changes at `p` only, and the counts elsewhere stay.
pub refile :
    (m : EpMgr) (p : ℕ) (e : Option Ep) (eps : List ℕ) (ee : ℕ → ℕ → List ℕ)
    → IsValid m
    → ((q : ℕ) → p ≢ q → count q eps ≡ count q m.eps)
    → ((q : ℕ) → p ≢ q → (k a : ℕ) → count q (ee k a) ≡ count q (m.ee k a))
    → IsFiled e (count p eps) (λ k a. count p (ee k a))
    → (q : ℕ) → IsFiled (put m.heap p e q) (count q eps) (λ k a. count q (ee k a))
refile m p e eps ee v same_eps same_ee here q = elim (eq-cases p q) [
  | inl same ↦
      subst (λ q. IsFiled (put m.heap p e q) (count q eps) (λ k a. count q (ee k a))) same
        (subst (λ x. IsFiled x (count p eps) (λ k a. count p (ee k a))) (sym (put_self m.heap p e))
          here)
  | inr ne ↦
      subst (λ x. IsFiled x (count q eps) (λ k a. count q (ee k a)))
        (sym (put_other m.heap p q e ne))
        (IsFiled-same (m.heap q) _ _ _ _ (same_eps q ne) (same_ee q ne) (v.filed q))
]

-- Storing what a run on an endpoint leaves.
pub store-IsValid :
    (m : EpMgr) (p : ℕ) (ep : Ep) (r : Run)
    → IsValid m
    → m.heap p ≡ some ep
    → IsGood ep.ekey ep.ipkey m.next r
    → IsValid (store p r m)
store-IsValid m p ep r v e g = record {
  filed = refile m p (some r.ep) m.eps m.ee v (λ q ne. refl) (λ q ne k a. refl) here;
  fresh = λ q h.
      put_other m.heap p q _ (λ same. absurd (omega (arith, same, h, below m p ep v e, g.later)))
      ∙ v.fresh q (omega (arith, h, g.later));
  counted = v.counted;
  bounded = v.bounded;
}
  where
    here : IsFiled (some r.ep) (count p m.eps) (λ k a. count p (m.ee k a))
    here =
        let (owned, _, listed) = IsFiled-at m p ep v e in
        (
          owned,
          g.counted,
          λ k a.
              listed k a
              ∙ ap₂ (λ x y. if (x == k) && (y == a) then 1 else 0) (sym g.key) (sym g.address),
        )

-- Making an endpoint where there is room for it.
pub add_ep-IsValid :
    (o : Outside) (handler : Handler) (ekey ipkey : ℕ) (m : EpMgr)
    → IsPush o.flist_push
    → IsValid m
    → length m.eps < m.max
    → IsValid (add_ep o handler ekey ipkey m)
unfolding add_ep inc ep_create
add_ep-IsValid o handler ekey ipkey m law v room = record {
  filed =
      refile m m.next (some (ep_create handler ekey ipkey)) (m.next ∷ m.eps) _ v
        (λ q ne. count_other q m.next m.eps ne)
        (λ q ne k a.
          count-put_list q m.ee ekey ipkey _ k a
          ∙ grind (
            arith,
            count-push o.flist_push q (m.ee ekey ipkey) m.next law,
            count_other q m.next (m.ee ekey ipkey) ne,
          ))
        here;
  fresh = λ q h.
      put_other m.heap m.next q _ (λ same. absurd (omega (arith, same, h)))
      ∙ v.fresh q (omega (arith, h));
  counted = ap inc v.counted;
  bounded = omega (arith, room);
}
  where
    nowhere : IsFiled none (count m.next m.eps) (λ k a. count m.next (m.ee k a))
    nowhere =
        subst (λ x. IsFiled x (count m.next m.eps) (λ k a. count m.next (m.ee k a)))
          (v.fresh m.next (omega arith)) (v.filed m.next)

    here :
        IsFiled (some (ep_create handler ekey ipkey)) (count m.next (m.next ∷ m.eps)) (λ k a.
          count m.next (put_list m.ee ekey ipkey (o.flist_push (m.ee ekey ipkey) m.next) k a))
    here = (
      count_self m.next m.eps ∙ ap suc nowhere.0,
      refl,
      λ k a.
          count-put_list m.next m.ee ekey ipkey _ k a
          ∙ grind (
            arith,
            count-push o.flist_push m.next (m.ee ekey ipkey) m.next law,
            count_self m.next (m.ee ekey ipkey),
            nowhere.1 ekey ipkey,
            nowhere.1 k a,
          ),
    )

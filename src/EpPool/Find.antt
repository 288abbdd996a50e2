-- ===== src/EpPool/Find.antt =====
-- Which endpoint src/components/sk_ep_pool.c picks for a request, and which requests it refuses.
use skull.Prelude.{
  ℕ, ◌<◌, ◌≡◌, refl, ap, subst, ◌∙◌, ◌⊎◌, inl, inr, All, true, false, Option, none, some, List, [],
  ◌∷◌, ◌++◌, arith,
}
use skull.Prelude.Checked.{ok}
use skull.Prelude.Holds.{bind-ok, if-cases, ok-inj}
use skull.EpPool.{Handler, Ep, sk_ep_error, Outside}
use skull.EpPool.Txns.{is_some}
use skull.EpPool.Mgr.{load, usable, find_ep}
use skull.EpPool.Send.{Request, EpPool, checked_ip, sk_ep_send}
use skull.EpPool.Inv.{load-some}

-- An endpoint is in memory and the loop of `_find_ep` passes over it.
abbrev pub IsPassed : (ℕ → Option Ep) → Handler → ℕ → Type 0
IsPassed heap handler p = (ep : Ep) × (heap p ≡ some ep) × (usable handler ep ≡ ok false)

-- What `_find_ep` answers: the first endpoint of the list that is usable, or that there is none.
pub data IsFirst (heap : ℕ → Option Ep) (handler : Handler) (ep_list : List ℕ)
    : Option ℕ → Type 0 where
  found :
      (before : List ℕ) (p : ℕ) (after : List ℕ) (ep : Ep)
      → ep_list ≡ before ++ p ∷ after
      → All (IsPassed heap handler) before
      → heap p ≡ some ep
      → usable handler ep ≡ ok true
      → IsFirst heap handler ep_list (some p)
  nothing : All (IsPassed heap handler) ep_list → IsFirst heap handler ep_list none

module _ (heap : ℕ → Option Ep) (handler : Handler) where
  IsFirst-cons :
      (q : ℕ) (qs : List ℕ) (result : Option ℕ)
      → IsPassed heap handler q
      → IsFirst heap handler qs result
      → IsFirst heap handler (q ∷ qs) result
  IsFirst-cons q qs _ passed (found before p after ep split ps here use_it) =
      found (q ∷ before) p after ep (ap (λ xs. q ∷ xs) split) (passed, ps) here use_it
  IsFirst-cons q qs _ passed (nothing ps) = nothing (passed, ps)

  -- Where `_find_ep` returns, it returns the first endpoint of the list that is usable, or none where
  -- none is.
  pub find_ep-IsFirst :
      (ep_list : List ℕ) (result : Option ℕ)
      → find_ep heap handler ep_list ≡ ok result
      → IsFirst heap handler ep_list result
  unfolding find_ep
  find_ep-IsFirst [] result e = subst (IsFirst heap handler []) (ok-inj _ _ e) (nothing tt)
  find_ep-IsFirst (p ∷ ps) result e =
      let (ep, loaded, e₁) = bind-ok (load heap p) _ _ e in
      let (use_it, tested, e₂) = bind-ok (usable handler ep) _ _ e₁ in
      let here = load-some heap p ep loaded in
      elim (if-cases use_it _ _ _ e₂) [
        | inl (is, done) ↦
            subst (IsFirst heap handler (p ∷ ps)) (ok-inj _ _ done)
              (found [] p ps ep refl tt here (tested ∙ ap ok is))
        | inr (is, rest) ↦
            IsFirst-cons p ps result (ep, here, tested ∙ ap ok is) (find_ep-IsFirst ps result rest)
      ]

-- What `_sk_ep_send` refuses.
unfoldable pub IsRefused : Request → Type 0
IsRefused q =
    (q.data_ ≡ [])
    ⊎ (q.handler.port ≡ 0)
    ⊎ (q.handler.ip ≡ none)
    ⊎ (0 < q.handler.timeout) × (is_some q.handler.unpack ≡ false)
    ⊎ (1 < q.handler.type)

-- A request without data, port or address, with a timeout and no `unpack`, or of another type than
-- TCP and UDP is refused with an error, and the pool stays as it was.
pub sk_ep_send-IsRefused :
    (o : Outside) (q : Request) (pool : EpPool)
    → IsRefused q
    → sk_ep_send o q pool ≡ ok (sk_ep_error, pool)
unfolding sk_ep_send checked_ip IsRefused
sk_ep_send-IsRefused o q pool (inl h) = grind (arith, h)
sk_ep_send-IsRefused o q pool (inr (inl h)) = grind (arith, h)
sk_ep_send-IsRefused o q pool (inr (inr (inl h))) = grind (arith, h)
sk_ep_send-IsRefused o q pool (inr (inr (inr (inl (h, g))))) = grind (arith, h, g)
sk_ep_send-IsRefused o q pool (inr (inr (inr (inr h)))) = grind (arith, h)

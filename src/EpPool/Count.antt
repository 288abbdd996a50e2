-- ===== src/EpPool/Count.antt =====
-- How often a number is in a list, through the list operations of src/components/sk_ep_pool.c.
use skull.Prelude.{ℕ, ◌+◌, ◌≡◌, ap, ◌∙◌, List, [], ◌∷◌, ◌++◌, ◌==◌, if◌then◌else◌, arith}
use skull.Prelude.Counts.{count, count-append}
use skull.EpPool.Mgr.{move_others, move_back, remove_ep}

-- What a push of flibs does: the entry stands somewhere between the others.
abbrev pub IsPush {ℓ} : {A : Type ℓ} → (List A → A → List A) → Type ℓ
IsPush {A = A} push =
    (xs : List A) (y : A)
    → (before : List A) × (after : List A) × (xs ≡ before ++ after)
      × (push xs y ≡ before ++ y ∷ after)

pub count-push :
    (push : List ℕ → ℕ → List ℕ) (x : ℕ) (xs : List ℕ) (y : ℕ)
    → IsPush push
    → count x (push xs y) ≡ count x (y ∷ xs)
unfolding count
count-push push x xs y law =
    let (before, after, split, pushed) = law xs y in
    ap (count x) pushed
    ∙ count-append x before (y ∷ after)
    ∙ ground (arith, count-append x before after, ap (count x) split)

module _ (push : List ℕ → ℕ → List ℕ) (law : IsPush push) where
  count-move_back :
      (x : ℕ) (ts xs : List ℕ) → count x (move_back push ts xs) ≡ count x ts + count x xs
  unfolding count
  count-move_back x [] xs = omega arith
  count-move_back x (t ∷ ts) xs =
      ground (arith, count-move_back x ts (push xs t), count-push push x xs t law)

  count-move_others :
      (x ep : ℕ) (ts tmp : List ℕ)
      → count x (move_others push ep ts tmp) ≡ (if ep == x then 0 else count x ts) + count x tmp
  unfolding count
  count-move_others x ep [] tmp = ground arith
  count-move_others x ep (t ∷ ts) tmp = grind (
    arith,
    count-move_others x ep ts tmp,
    count-move_others x ep ts (push tmp t),
    count-push push x tmp t law,
  )

  -- `_remove_ep` takes the endpoint from its list, however often it is there, and every other
  -- endpoint stays as often as it was, wherever a push puts it.
  pub count-remove_ep :
      (ep x : ℕ) (ep_list : List ℕ)
      → count x (remove_ep push ep ep_list) ≡ (if ep == x then 0 else count x ep_list)
  unfolding remove_ep count
  count-remove_ep ep x ep_list = omega (
    arith,
    count-move_back x (move_others push ep ep_list []) [],
    count-move_others x ep ep_list [],
  )

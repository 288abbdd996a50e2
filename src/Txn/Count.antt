-- ===== src/Txn/Count.antt =====
-- Counting the tasks of a transaction in its table, where the keys are the numbers below
-- `latest_taskid`.
use skull.Prelude.{
  ℕ, zero, suc, ◌+◌, ◌≤◌, ◌<◌, ◌≡◌, ◌≢◌, refl, ap, sym, ◌∙◌, inl, inr, Bool, true, false, Option,
  none, some, Bool-cases, ◌==◌, ==_iff, arith,
}
use skull.Fhash.{Fhash}
use skull.Txn.{TxnTask}

abbrev pub bit : Bool → ℕ
bit true = 1
bit false = 0

unfoldable pub counts : (TxnTask → Bool) → Option TxnTask → ℕ
counts p none = 0
counts p (some t) = bit (p t)

differ : (k n : ℕ) → (k == n) ≡ false → k ≢ n
differ k n h e = cc (h, (==_iff k n).1 e)

module _ {H : Type 0} (fh : Fhash H TxnTask) (p : TxnTask → Bool) where
  -- How many of the first `n` tasks meet `p`.
  unfoldable pub count : H → ℕ → ℕ
  unfolding counts
  count tbl zero = 0
  count tbl (suc n) = counts p (fh.get tbl n) + count tbl n

  pub count-set_above :
      (tbl : H) (k : ℕ) (t : TxnTask) (n : ℕ) → n ≤ k → count (fh.set tbl k t) n ≡ count tbl n
  unfolding count
  count-set_above tbl k t zero h = refl
  count-set_above tbl k t (suc n) h =
      rw
        (
          fh.get-set_ne tbl k n t (λ e. absurd (omega (arith, e, h))),
          count-set_above tbl k t n (omega (arith, h)),
        )
        refl

  pub count-set :
      (tbl : H) (k : ℕ) (t t' : TxnTask) (n : ℕ)
      → k < n
      → fh.get tbl k ≡ some t
      → count (fh.set tbl k t') n + bit (p t) ≡ count tbl n + bit (p t')
  unfolding count counts
  count-set tbl k t t' zero h e = absurd (omega (arith, h))
  count-set tbl k t t' (suc n) h e = elim (Bool-cases (k == n)) [
    | inl same ↦
        let here : k ≡ n = (==_iff k n).0 same in
        let get_new : fh.get (fh.set tbl k t') n ≡ some t' =
          ap (λ j. fh.get (fh.set tbl k t') j) (sym here) ∙ fh.get-set tbl k t' in
        let get_old : fh.get tbl n ≡ some t = ap (λ j. fh.get tbl j) (sym here) ∙ e in
        rw (get_new, get_old, count-set_above tbl k t' n (omega (arith, here))) (omega arith)
    | inr other ↦
        let ne : k ≢ n = differ k n other in
        let below = count-set tbl k t t' n (omega (arith, h, ne)) e in
        rw (fh.get-set_ne tbl k n t' (λ q. ne (sym q))) (omega (arith, below))
  ]

  pub count-le : (tbl : H) (n : ℕ) → count tbl n ≤ n
  unfolding count counts
  count-le tbl zero = omega arith
  count-le tbl (suc n) = omega (arith, counts-le (fh.get tbl n), count-le tbl n)
    where
      counts-le : (o : Option TxnTask) → counts p o ≤ 1
      counts-le none = omega arith
      counts-le (some t) = elim (Bool-cases (p t)) [
        | inl h ↦ rw h (omega arith)
        | inr h ↦ rw h (omega arith)
      ]

  -- The count is 0 exactly if no task meets `p`.
  pub count_zero :
      (tbl : H) (n k : ℕ) (t : TxnTask)
      → count tbl n ≡ 0
      → k < n
      → fh.get tbl k ≡ some t
      → p t ≡ false
  unfolding count counts
  count_zero tbl zero k t z h e = absurd (omega (arith, h))
  count_zero tbl (suc n) k t z h e = elim (Bool-cases (k == n)) [
    | inl same ↦
        let here : k ≡ n = (==_iff k n).0 same in
        let get_old : fh.get tbl n ≡ some t = ap (λ j. fh.get tbl j) (sym here) ∙ e in
        elim (Bool-cases (p t)) [
          | inl met ↦ absurd (omega (arith, rw (get_old, met) at z))
          | inr unmet ↦ unmet
        ]
    | inr other ↦
        let ne : k ≢ n = differ k n other in
        count_zero tbl n k t (omega (arith, z)) (omega (arith, h, ne)) e
  ]

  pub count-eq_zero :
      (tbl : H) (n : ℕ)
      → ((k : ℕ) (t : TxnTask) → k < n → fh.get tbl k ≡ some t → p t ≡ false)
      → count tbl n ≡ 0
  unfolding count counts
  count-eq_zero tbl zero none_met = refl
  count-eq_zero tbl (suc n) none_met =
      rw
        (
          here (fh.get tbl n) refl,
          count-eq_zero tbl n (λ k t h e. none_met k t (omega (arith, h)) e),
        )
        refl
    where
      here : (o : Option TxnTask) → fh.get tbl n ≡ o → counts p o ≡ 0
      here none e = refl
      here (some t) e = rw (none_met n t (omega arith) e) refl

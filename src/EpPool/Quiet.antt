-- ===== src/EpPool/Quiet.antt =====
-- What sending over an endpoint of src/components/sk_ep_pool.c writes, and its shutdown timer.
use skull.Prelude.{
  ℕ, suc, ◌<◌, ◌≡◌, refl, ap, ◌∙◌, false, some, inl, inr, List, [], ◌∷◌, ◌++◌, append_assoc,
  Option-cases, ◌==◌, arith, Bool-cases,
}
use skull.Prelude.Checked.{ok}
use skull.EpPool.{
  shutdown_ep, Out, ep_cb, net_write, timer_create, timer_resetn, timer_cancel, ep_release, net_pop,
  net_close, Run, Outside,
}
use skull.EpPool.Txns.{emit, ep_create_shutdown_timer}

-- The data written to connections.
unfoldable pub written : List Out → List (List ℕ)
written [] = []
written (net_write fd data_ ∷ out) = data_ ∷ written out
written (ep_cb status ud response ∷ out) = written out
written (ep_release ud ∷ out) = written out
written (timer_create timer cb ms ∷ out) = written out
written (timer_resetn timer ms ∷ out) = written out
written (timer_cancel timer ∷ out) = written out
written (net_pop n ∷ out) = written out
written (net_close fd ∷ out) = written out

pub written-append : (xs ys : List Out) → written (xs ++ ys) ≡ written xs ++ written ys
unfolding written
written-append [] ys = refl
written-append (net_write fd data_ ∷ xs) ys = ap (λ out. data_ ∷ out) (written-append xs ys)
written-append (ep_cb status ud response ∷ xs) ys = written-append xs ys
written-append (ep_release ud ∷ xs) ys = written-append xs ys
written-append (timer_create timer cb ms ∷ xs) ys = written-append xs ys
written-append (timer_resetn timer ms ∷ xs) ys = written-append xs ys
written-append (timer_cancel timer ∷ xs) ys = written-append xs ys
written-append (net_pop n ∷ xs) ys = written-append xs ys
written-append (net_close fd ∷ xs) ys = written-append xs ys

-- A shutdown timer is set, nothing is written, and the connection stays as it was.
pub record IsQuiet (out : List (List ℕ)) (r r' : Run) : Type 0 where
  pub wrote : written r'.out ≡ written r.out ++ out
  pub same_status : r'.ep.status ≡ r.ep.status
  pub same_fd : r'.ep.fd ≡ r.ep.fd

pub quiet :
    (x : Out) (r r' : Run)
    → written (x ∷ []) ≡ []
    → r'.out ≡ r.out ++ x ∷ []
    → r'.ep.status ≡ r.ep.status
    → r'.ep.fd ≡ r.ep.fd
    → IsQuiet [] r r'
quiet x r r' none_written said status fd = record {
  wrote =
      ap written said ∙ written-append r.out (x ∷ []) ∙ ap (λ ws. written r.out ++ ws) none_written;
  same_status = status;
  same_fd = fd;
}

pub chain :
    {r r₁ r₂ : Run} (xs ys : List (List ℕ))
    → IsQuiet xs r r₁
    → IsQuiet ys r₁ r₂
    → IsQuiet (xs ++ ys) r r₂
chain {r} xs ys p q = record {
  wrote = q.wrote ∙ ap (λ ws. ws ++ ys) p.wrote ∙ append_assoc (written r.out) xs ys;
  same_status = q.same_status ∙ p.same_status;
  same_fd = q.same_fd ∙ p.same_fd;
}

pub shutdown_timer-IsQuiet :
    (o : Outside) (ms : ℕ) (r : Run)
    → 0 < ms
    → (r' : Run) × (ep_create_shutdown_timer o ms r ≡ ok r') × IsQuiet [] r r'
unfolding ep_create_shutdown_timer written
shutdown_timer-IsQuiet o ms r pos =
    let set : (ms == 0) ≡ false = grind (arith, pos) in
    elim (Option-cases r.ep.shutdown_timer) [
      | inl none_yet ↦ (
        new r,
        grind (arith, none_yet, set),
        quiet (timer_create r.next shutdown_ep ms) r (new r) refl refl refl refl,
      )
      | inr (timer, running) ↦ elim (Bool-cases (o.resetn_ok timer ms)) [
        | inl again ↦ (
          emit (timer_resetn timer ms ∷ []) r,
          grind (arith, running, again),
          quiet (timer_resetn timer ms) r _ refl refl refl refl,
        )
        | inr other ↦
            let r₁ : Run = emit (timer_cancel timer ∷ []) r in
            let q₁ : IsQuiet [] r r₁ = quiet (timer_cancel timer) r r₁ refl refl refl refl in
            let q₂ : IsQuiet [] r₁ (new r₁) =
              quiet (timer_create r₁.next shutdown_ep ms) r₁ (new r₁) refl refl refl refl in
            (new r₁, grind (arith, running, other, set), chain [] [] q₁ q₂)
      ]
    ]
  where
    new : Run → Run
    new r = record {
      ep = record r.ep { shutdown_timer = some r.next };
      next = suc r.next;
      out = r.out ++ timer_create r.next shutdown_ep ms ∷ [];
    }

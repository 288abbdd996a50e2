-- ===== src/Txn/Grow.antt =====
-- The size to which `sk_mbuf_push` of src/common/sk_mbuf.c reallocates.
use native.Mathlib.Nat.{pow-suc}
use skull.Prelude.{
  ℕ, zero, suc, ◌+◌, ◌-◌, ◌*◌, ◌%◌, ◌^◌, ◌≤◌, ◌<◌, ◌≡◌, refl, subst, ap, ◌∙◌, ◌⊎◌, inl, inr, true,
  false, ltb, leb, ◌==◌, Bool-cases, if◌then◌else◌, lt→ltb, ltb→lt, arith,
}
use skull.Prelude.Checked.{ok}
use skull.Txn.Mbuf.{mbuf_new_size}

times : (a p : ℕ) → a * (p * 2) ≡ a * 2 * p
times a p = grind arith

at_most : {a : ℕ} (b r : ℕ) → b ≤ a → (r ≡ b) ⊎ (r ≤ a) → r ≤ a
at_most b r h (inl e) = omega (arith, h, e)
at_most b r h (inr k) = k

module _ (used size max_size : ℕ) where
  mbuf_new_size_stop :
      (fuel free new : ℕ)
      → size ≤ free
      → mbuf_new_size (suc fuel) used size max_size free new ≡ ok new
  unfolding mbuf_new_size
  mbuf_new_size_stop fuel free new h =
      let done : ltb free size ≡ false = ground (arith, h) in rw done refl

  mbuf_new_size_step :
      (fuel free new : ℕ)
      → free < size
      → new < 2 ^ 63
      → used ≤ new
      → mbuf_new_size (suc fuel) used size max_size free new
        ≡ mbuf_new_size fuel used size max_size (new * 2 - used) (new * 2)
  unfolding mbuf_new_size
  mbuf_new_size_step fuel free new more small below =
      let go_on : ltb free size ≡ true = lt→ltb free size more in
      let again : leb new (2 ^ 63 - 1) ≡ true = ground (arith, small) in
      let no_wrap : (new * 2 + 2 ^ 64 - used) % 2 ^ 64 ≡ new * 2 - used =
        omega (arith, small, below) in
      rw (go_on, again, no_wrap) refl

  -- The loop ends with room for the bytes, at its first size or at most twice what is needed.
  mbuf_new_size_lem :
      (n free new : ℕ)
      → used ≤ new
      → (free < size → new ≤ used + size)
      → (size ≤ free → used + size ≤ new)
      → used + size < 2 ^ 63
      → used + size ≤ new * 2 ^ n
      → (r : ℕ) × (mbuf_new_size (suc (suc n)) used size max_size free new ≡ ok r)
        × (used + size ≤ r)
        × ((r ≡ new) ⊎ (r ≤ 2 * (used + size)))
  mbuf_new_size_lem zero free new below behind enough small fuel =
      elim (Bool-cases (ltb free size)) [
        | inr e ↦
            let h : size ≤ free = ground (arith, e) in
            (new, mbuf_new_size_stop 1 free new h, enough h, inl refl)
        | inl e ↦
            let h : free < size = ltb→lt free size e in
            let b = behind h in
            (
              new * 2,
              mbuf_new_size_step 1 free new h (omega (arith, b, small)) below
                  ∙ mbuf_new_size_stop 0 (new * 2 - used) (new * 2) (omega (arith, fuel, below)),
              omega (arith, fuel),
              inr (omega (arith, b)),
            )
      ]
  mbuf_new_size_lem (suc n) free new below behind enough small fuel =
      elim (Bool-cases (ltb free size)) [
        | inr e ↦
            let h : size ≤ free = ground (arith, e) in
            (new, mbuf_new_size_stop (suc (suc n)) free new h, enough h, inl refl)
        | inl e ↦
            let h : free < size = ltb→lt free size e in
            let b = behind h in
            let f : used + size ≤ new * 2 * 2 ^ n =
              subst (λ k. used + size ≤ k) (ap (λ k. new * k) (pow-suc 2 n) ∙ times new (2 ^ n))
                fuel in
            let (r, done, room, size_of) =
              mbuf_new_size_lem n (new * 2 - used) (new * 2) (omega (arith, below))
                (λ k. omega (arith, k, below)) (λ k. omega (arith, k, below)) small f in
            (
              r,
              mbuf_new_size_step (suc (suc n)) free new h (omega (arith, b, small)) below ∙ done,
              room,
              inr (at_most (new * 2) r (omega (arith, b)) size_of),
            )
      ]

-- From the size of a buffer that is full.
pub first_size :
    (cap : ℕ)
    → ((if cap == 0 then 1 else cap) ≡ cap) × (0 < cap)
      ⊎ ((if cap == 0 then 1 else cap) ≡ 1) × (cap ≡ 0)
first_size zero = inr (refl, refl)
first_size (suc n) = inl (ground arith, omega arith)

pub mbuf_new_size_full :
    (used cap size max_size new : ℕ)
    → used ≤ cap
    → cap < used + size
    → used + size < 2 ^ 63
    → (new ≡ cap) × (0 < cap) ⊎ (new ≡ 1) × (cap ≡ 0)
    → (r : ℕ) × (mbuf_new_size 66 used size max_size (cap - used) new ≡ ok r)
      × (used + size ≤ r)
      × (r ≤ 2 * (used + size))
mbuf_new_size_full used cap size max_size new below full small first =
    let starts : (0 < new) × (used ≤ new) × (new ≤ used + size) = start first in
    let (r, done, room, bound) =
      mbuf_new_size_lem used size max_size 64 (cap - used) new starts.1 (λ k. starts.2)
        (λ k. omega (arith, k, below, full)) small (omega (arith, small, starts.0)) in
    (r, done, room, at_most new r (omega (arith, starts.2)) bound)
  where
    start :
        (new ≡ cap) × (0 < cap) ⊎ (new ≡ 1) × (cap ≡ 0)
        → (0 < new) × (used ≤ new) × (new ≤ used + size)
    start (inl (e, p)) = omega (arith, e, p, below, full)
    start (inr (e, z)) = omega (arith, e, z, below, full)

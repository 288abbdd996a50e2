-- ===== src/Queue/Buffer.antt =====
-- `_get_new_size`, `_sk_queue_push` and `_sk_queue_pull` against the list of elements that a
-- buffer holds.
use skull.Prelude.{
  ℕ, zero, suc, ◌+◌, ◌*◌, ◌^◌, ◌≤◌, ◌<◌, ◌≡◌, refl, ap, ◌∙◌, ◌⊎◌, true, false, List, [], ◌∷◌, ◌++◌,
  length, length-append, ltb, ◌==◌, if◌then◌else◌, arith,
}
use skull.Prelude.Checked.{ok}
use native.Mathlib.Decide.{dec_le}
use native.Mathlib.Nat.{le_trans}
use skull.Fmbuf.{Fmbuf}
use skull.Queue.{Elem, double_size, double_fuel, get_new_size, buffer_push}

-- The size after `fuel + 1` doublings.
abbrev grown : ℕ → ℕ → ℕ
grown cur zero = cur * 2
grown cur (suc fuel) = grown (cur * 2) fuel

grown_mono : (a b fuel : ℕ) → a ≤ b → grown a fuel ≤ grown b fuel
grown_mono a b zero h = omega arith
grown_mono a b (suc fuel) h = grown_mono (a * 2) (b * 2) fuel (omega arith)

double_size_lem :
    (fuel cur used wanted : ℕ)
    → 0 < cur
    → used ≤ cur
    → cur < 2 ^ 63
    → used + wanted ≤ 2 ^ 63
    → used + wanted ≤ grown cur fuel
    → (n : ℕ) × (double_size (suc fuel) cur used wanted ≡ ok n) × (used + wanted ≤ n) × (0 < n)
unfolding double_size
double_size_lem zero cur used wanted pos le small fits enough =
    (cur * 2, ground arith, omega arith, omega arith)
double_size_lem (suc fuel) cur used wanted pos le small fits enough =
    elim (dec_le (used + wanted) (cur * 2)) [
      | yes h ↦ (cur * 2, ground arith, h, omega arith)
      | no h ↦
          let (n, e, big, p) =
            double_size_lem fuel (cur * 2) used wanted (omega arith) (omega arith) (omega arith)
              fits enough in
          (n, ground (arith, e), big, p)
    ]

grown_66 : 2 ^ 63 ≤ grown 1 65
grown_66 = omega arith

-- The fuel is enough from any size.
double_size_total :
    (cur used wanted : ℕ)
    → 0 < cur
    → used ≤ cur
    → cur < 2 ^ 63
    → used + wanted ≤ 2 ^ 63
    → (n : ℕ) × (double_size double_fuel cur used wanted ≡ ok n) × (used + wanted ≤ n) × (0 < n)
double_size_total cur used wanted pos le small fits =
    double_size_lem 65 cur used wanted pos le small fits
      (le_trans fits (le_trans grown_66 (grown_mono 1 cur 65 pos)))

slot_fits : (sz k max : ℕ) → k < max → sz * k + sz ≤ max * sz
slot_fits sz k max h = grind arith

-- Limits under which no `size_t` of the queue wraps: a queue of half the address space.
pub record IsLimit (elem_sz max_slots : ℕ) : Type 0 where
  pub some_size : 0 < elem_sz
  pub some_slot : 0 < max_slots
  pub no_wrap : max_slots * elem_sz + elem_sz ≤ 2 ^ 63

module _ {B T : Type 0} (fm : Fmbuf B (Elem T)) where
  -- A buffer of whole elements, not larger than the limit.
  pub record Holds (elem_sz max_slots : ℕ) (b : B) : Type 0 where
    pub whole : fm.used b ≡ elem_sz * length (fm.contents b)
    pub within : fm.size b ≤ max_slots * elem_sz

  get_new_size_lem :
      (elem_sz max_slots : ℕ) (b : B)
      → IsLimit elem_sz max_slots
      → Holds elem_sz max_slots b
      → (n : ℕ) × (get_new_size fm b 1 max_slots elem_sz ≡ ok n)
        × (n ≤ max_slots * elem_sz)
        × ((fm.used b + elem_sz ≤ n) ⊎ (n ≡ max_slots * elem_sz))
  unfolding get_new_size
  get_new_size_lem elem_sz max_slots b l h =
      (capped, ground (arith, total.1, big), ground arith, ground (arith, total.2))
    where
      start : ℕ
      start = if fm.size b == 0 then 1 else fm.size b

      used_le : fm.used b ≤ fm.size b
      used_le = fm.used-le-size b

      total :
          (n : ℕ) × (double_size double_fuel start (fm.used b) (1 * elem_sz) ≡ ok n)
          × (fm.used b + 1 * elem_sz ≤ n)
          × (0 < n)
      total =
          double_size_total start (fm.used b) (1 * elem_sz) (ground arith) (ground (arith, used_le))
            (ground (arith, l.no_wrap, l.some_size, h.within))
            (omega (arith, l.no_wrap, h.within, used_le))

      capped : ℕ
      capped = if ltb (max_slots * elem_sz) total.0 then max_slots * elem_sz else total.0

      big : 0 < max_slots * elem_sz
      big = grind (arith, l.some_size, l.some_slot)

  Holds-append :
      (elem_sz max_slots : ℕ) (b b' : B) (e : Elem T)
      → fm.used b ≡ elem_sz * length (fm.contents b)
      → fm.contents b' ≡ fm.contents b ++ e ∷ []
      → fm.used b' ≡ fm.used b + elem_sz
      → fm.size b' ≤ max_slots * elem_sz
      → Holds elem_sz max_slots b'
  Holds-append elem_sz max_slots b b' e w c u s = record {
    whole = rw (c, length-append) (omega (arith, w, u));
    within = s;
  }

  module _ (elem_sz max_slots : ℕ) (b : B) (l : IsLimit elem_sz max_slots)
      (h : Holds elem_sz max_slots b) where
    pub length-le-max : length (fm.contents b) ≤ max_slots
    length-le-max = elim (dec_le (length (fm.contents b)) max_slots) [
      | yes p ↦ p
      | no p ↦ absurd (
          omega (
            arith,
            slot_fits elem_sz max_slots (length (fm.contents b)) (omega arith),
            fm.used-le-size b,
            h.whole,
            h.within,
            l.some_size,
          ))
    ]

    -- Below the limit an element is appended, in a larger buffer if need be.
    pub buffer_push-room :
        (e : Elem T)
        → length (fm.contents b) < max_slots
        → (b' : B) × (buffer_push fm b max_slots e elem_sz ≡ ok (b', false))
          × (fm.contents b' ≡ fm.contents b ++ e ∷ [])
          × Holds elem_sz max_slots b'
    unfolding buffer_push
    buffer_push-room e room = elim (dec_le (fm.used b + elem_sz) (fm.size b)) [
      | yes p ↦
          let (b', pushed, c, u, s) = fm.push-fits b e elem_sz p in
          (
            b',
            rw (pushed, buffer_push) refl,
            c,
            Holds-append elem_sz max_slots b b' e h.whole c u (omega (arith, s, h.within)),
          )
      | no p ↦ enlarged (omega arith)
    ]
      where
        fits : fm.used b + elem_sz ≤ max_slots * elem_sz
        fits = omega (arith, slot_fits elem_sz (length (fm.contents b)) max_slots room, h.whole)

        enlarged :
            fm.size b < fm.used b + elem_sz
            → (b' : B) × (buffer_push fm b max_slots e elem_sz ≡ ok (b', false))
              × (fm.contents b' ≡ fm.contents b ++ e ∷ [])
              × Holds elem_sz max_slots b'
        enlarged p =
            let (n, got, le, enough) = get_new_size_lem elem_sz max_slots b l h in
            let more : fm.used b + elem_sz ≤ n = omega (arith, fits, enough) in
            let (c, u, s) = fm.realloc_lem b n (omega arith) in
            let (b', pushed, c', u', s') =
              fm.push-fits (fm.realloc b n) e elem_sz (omega (arith, u, s, more)) in
            (
              b',
              ground (arith, fm.push-full b e elem_sz p, got, pushed, more, p),
              c' ∙ ap (λ (es : List (Elem T)). es ++ e ∷ []) c,
              Holds-append elem_sz max_slots b b' e h.whole
                  (c' ∙ ap (λ (es : List (Elem T)). es ++ e ∷ []) c) (u' ∙ ap (λ k. k + elem_sz) u)
                  (omega (arith, s', s, le)),
            )

    -- At the limit it is refused, and the buffer stays as it was.
    pub buffer_push-limit :
        (e : Elem T)
        → length (fm.contents b) ≡ max_slots
        → buffer_push fm b max_slots e elem_sz ≡ ok (b, true)
    unfolding buffer_push
    buffer_push-limit e full =
        let (n, got, le, enough) = get_new_size_lem elem_sz max_slots b l h in
        ground (
          arith,
          fm.push-full b e elem_sz (omega (arith, used_full, l.some_size, h.within)),
          got,
          same n le enough,
        )
      where
        used_full : fm.used b ≡ max_slots * elem_sz
        used_full = omega (arith, h.whole, ap (λ (k : ℕ). elem_sz * k) full)

        same :
            (n : ℕ)
            → n ≤ max_slots * elem_sz
            → (fm.used b + elem_sz ≤ n) ⊎ (n ≡ max_slots * elem_sz)
            → fm.size b ≡ n
        same n le enough =
            omega (arith, used_full, enough, l.some_size, h.within, fm.used-le-size b)

module _ {B T : Type 0} (fm : Fmbuf B (Elem T)) (elem_sz max_slots : ℕ) where
  bytes : {xs ys : List (Elem T)} → xs ≡ ys → elem_sz * length xs ≡ elem_sz * length ys
  bytes = ap (λ (xs : List (Elem T)). elem_sz * length xs)

  pub Holds-pop :
      (b b' : B) (e : Elem T) (es : List (Elem T))
      → Holds fm elem_sz max_slots b
      → fm.contents b ≡ e ∷ es
      → fm.contents b' ≡ es
      → fm.used b' + elem_sz ≡ fm.used b
      → fm.size b' ≡ fm.size b
      → Holds fm elem_sz max_slots b'
  Holds-pop b b' e es h c c' u s = record {
    whole = omega (arith, h.whole, u, bytes c, bytes c');
    within = omega (arith, s, h.within);
  }

  -- Without an element there are fewer bytes than one takes.
  pub used-lt :
      (b : B)
      → 0 < elem_sz
      → Holds fm elem_sz max_slots b
      → fm.contents b ≡ []
      → fm.used b < elem_sz
  used-lt b pos h c = omega (arith, h.whole, bytes c)

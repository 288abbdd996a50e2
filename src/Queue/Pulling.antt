-- ===== src/Queue/Pulling.antt =====
-- Pulling elements from a buffer, `_sk_queue_pull` of src/common/sk_queue.c.
use skull.Prelude.{
  ℕ, zero, suc, ◌+◌, ◌*◌, ◌<◌, ◌≡◌, refl, inl, inr, Option, List, [], ◌∷◌, span_upto, Bool-cases,
  arith,
}
use skull.Prelude.Checked.{ok}
use skull.Fmbuf.{Fmbuf}
use skull.Queue.{ElemType, Elem, accepts, Writes, buffer_pull, sizeof_elem_base}
use skull.Queue.Buffer.{Holds, Holds-pop, used-lt}

-- Elements written one after the other, with the stride of the code's pointer arithmetic.
unfoldable pub place : {T : Type 0} → ℕ → ℕ → ℕ → List (Elem T) → Writes T
place elem_sz elems pulled_cnt [] = []
place elem_sz elems pulled_cnt (x ∷ xs) =
    (elems + sizeof_elem_base * (pulled_cnt * elem_sz), x) ∷ place elem_sz elems (pulled_cnt + 1) xs

-- The elements that a pull takes, and those that it leaves.
abbrev pub pulled :
    {T : Type 0} → Option ElemType → ℕ → List (Elem T) → List (Elem T) × List (Elem T)
pulled type = span_upto (λ e. accepts type e.type)

module _ {B T : Type 0} (fm : Fmbuf B (Elem T)) (type : Option ElemType)
    (elem_sz max_slots elems : ℕ) where
  buffer_pull_from :
      (left pulled_cnt : ℕ) (b : B) (es : List (Elem T))
      → 0 < elem_sz
      → Holds fm elem_sz max_slots b
      → fm.contents b ≡ es
      → (b' : B) × (buffer_pull fm b type elem_sz elems left pulled_cnt
          ≡ ok (b', place elem_sz elems pulled_cnt (pulled type left es).0))
        × (fm.contents b' ≡ (pulled type left es).1)
        × Holds fm elem_sz max_slots b'
  unfolding buffer_pull place span_upto
  buffer_pull_from zero pulled_cnt b es pos h c = (b, refl, c, h)
  buffer_pull_from (suc left) pulled_cnt b [] pos h c = (
    b,
    rw (fm.rawget-nil b elem_sz (used-lt fm elem_sz max_slots b pos h c), buffer_pull) refl,
    c,
    h,
  )
  buffer_pull_from (suc left) pulled_cnt b (e ∷ es) pos h c =
      elim (Bool-cases (accepts type e.type)) [
        | inl fits ↦
            let (b', popped, c', u, s) = fm.pop-cons b elem_sz e es h.whole c in
            let h' : Holds fm elem_sz max_slots b' =
              Holds-pop fm elem_sz max_slots b b' e es h c c' u s in
            let (b'', e'', c'', h'') = buffer_pull_from left (pulled_cnt + 1) b' es pos h' c' in
            (
              b'',
              ground (arith, fm.rawget-cons b elem_sz e es h.whole c, fits, popped, e''),
              rw fits c'',
              h'',
            )
        | inr other ↦
            (b, ground (arith, fm.rawget-cons b elem_sz e es h.whole c, other), rw other c, h)
      ]

  pub buffer_pull_lem :
      (left pulled_cnt : ℕ) (b : B)
      → 0 < elem_sz
      → Holds fm elem_sz max_slots b
      → (b' : B) × (buffer_pull fm b type elem_sz elems left pulled_cnt
          ≡ ok (b', place elem_sz elems pulled_cnt (pulled type left (fm.contents b)).0))
        × (fm.contents b' ≡ (pulled type left (fm.contents b)).1)
        × Holds fm elem_sz max_slots b'
  buffer_pull_lem left pulled_cnt b pos h =
      buffer_pull_from left pulled_cnt b (fm.contents b) pos h refl

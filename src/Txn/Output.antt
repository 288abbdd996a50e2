-- ===== src/Txn/Output.antt =====
-- What the output of a transaction holds, src/common/sk_txn.c.
use native.Mathlib.Nat.{mod-eq_of_lt}
use skull.Prelude.{
  ℕ, ◌+◌, ◌-◌, ◌%◌, ◌^◌, ◌≤◌, ◌<◌, ◌≡◌, refl, sym, ap, ◌∙◌, inl, inr, Bool, true, false, some, List,
  [], ◌∷◌, ◌++◌, append_assoc, append-nil, length, length-append, ltb, ◌==◌, Bool-cases,
  if◌then◌else◌, arith,
}
use skull.Prelude.Checked.{Checked, ok, ◌>>=◌}
use skull.Fmbuf.{Fmbuf}
use skull.Txn.Mbuf.{Bytes, sk_txn_output_append}

fits : (used cap size : ℕ) → used ≤ cap → ltb (cap - used) size ≡ false → used + size ≤ cap
fits used cap size h f = ground (arith, h, f)

module _ {B : Type 0} (fm : Fmbuf B Bytes) where
  abbrev pub flat : List Bytes → Bytes
  flat [] = []
  flat (t ∷ ts) = t ++ flat ts

  abbrev pub append_all : B → List Bytes → Checked B
  append_all output [] = ok output
  append_all output (t ∷ ts) = sk_txn_output_append fm output t >>= λ output'. append_all output' ts

  flat-append : (ts us : List Bytes) → flat (ts ++ us) ≡ flat ts ++ flat us
  flat-append [] us = refl
  flat-append (t ∷ ts) us =
      ap (λ s. t ++ s) (flat-append ts us) ∙ sym (append_assoc t (flat ts) (flat us))

  flat-snoc : (ts : List Bytes) (t : Bytes) → flat (ts ++ t ∷ []) ≡ flat ts ++ t
  flat-snoc ts t = flat-append ts (t ∷ []) ∙ ap (λ s. flat ts ++ s) (append-nil t)

  append_empty : (output : B) → sk_txn_output_append fm output [] ≡ ok output
  unfolding sk_txn_output_append
  append_empty output = refl

  append_pushed :
      (output b : B) (x : ℕ) (t : Bytes) (full : Bool)
      → fm.used output + length (x ∷ t) < 2 ^ 64
      → ltb (fm.size output - fm.used output) (length (x ∷ t)) ≡ full
      → fm.push
          (if full then fm.realloc output (fm.used output + length (x ∷ t)) else output)
          (x ∷ t)
          (length (x ∷ t))
        ≡ some b
      → sk_txn_output_append fm output (x ∷ t) ≡ ok b
  unfolding sk_txn_output_append
  append_pushed output b x t full small f e =
      let more : (length (x ∷ t) == 0) ≡ false = ground arith in
      let no_wrap : (fm.used output + length (x ∷ t)) % 2 ^ 64 ≡ fm.used output + length (x ∷ t) =
        mod-eq_of_lt small in
      rw (sk_txn_output_append, more, f, no_wrap, e) refl

  sk_txn_output_append_lem :
      (output : B) (t : Bytes)
      → fm.used output + length t < 2 ^ 64
      → (b : B) × (sk_txn_output_append fm output t ≡ ok b)
        × (flat (fm.contents b) ≡ flat (fm.contents output) ++ t)
        × (fm.used b ≡ fm.used output + length t)
  sk_txn_output_append_lem output [] small =
      (output, append_empty output, sym (append-nil (flat (fm.contents output))), ground arith)
  sk_txn_output_append_lem output (x ∷ t) small =
      let sz = length (x ∷ t) in
      elim (Bool-cases (ltb (fm.size output - fm.used output) sz)) [
        | inr f ↦
            let (b, pushed, c, u, s) =
              fm.push-fits output (x ∷ t) sz
                (fits (fm.used output) (fm.size output) sz (fm.used-le-size output) f) in
            (
              b,
              append_pushed output b x t false small f pushed,
              ap flat c ∙ flat-snoc (fm.contents output) (x ∷ t),
              u,
            )
        | inl f ↦
            let (c0, u0, s0) = fm.realloc_lem output (fm.used output + sz) (omega arith) in
            let (b, pushed, c, u, s) =
              fm.push-fits (fm.realloc output (fm.used output + sz)) (x ∷ t) sz
                (omega (arith, u0, s0)) in
            (
              b,
              append_pushed output b x t true small f pushed,
              ap flat c
                  ∙ flat-snoc (fm.contents (fm.realloc output (fm.used output + sz))) (x ∷ t)
                  ∙ ap (λ ts. flat ts ++ x ∷ t) c0,
              omega (arith, u, u0),
            )
      ]

  -- What is appended to the output of a transaction is in it, in order, with no assertion that fails,
  -- while all of it is shorter than the address space.
  pub append_all-contents :
      (output : B) (ts : List Bytes)
      → fm.used output + length (flat ts) < 2 ^ 64
      → (b : B) × (append_all output ts ≡ ok b)
        × (flat (fm.contents b) ≡ flat (fm.contents output) ++ flat ts)
  append_all-contents output [] small = (output, refl, sym (append-nil (flat (fm.contents output))))
  append_all-contents output (t ∷ ts) small =
      let both : length (t ++ flat ts) ≡ length t + length (flat ts) = length-append t (flat ts) in
      let (b1, first, c1, u1) = sk_txn_output_append_lem output t (omega (arith, both)) in
      let (b, rest, c) = append_all-contents b1 ts (omega (arith, both, u1)) in
      (
        b,
        rw first rest,
        c ∙ ap (λ s. s ++ flat ts) c1 ∙ append_assoc (flat (fm.contents output)) t (flat ts),
      )

-- ===== src/Fmbuf/Model.antt =====
-- A buffer that meets the interface: the elements, the bytes in use and the bytes left.
use skull.Prelude.{
  ℕ, ◌+◌, ◌-◌, ◌*◌, ◌≤◌, ◌<◌, ◌≡◌, refl, Option, none, some, List, [], ◌∷◌, ◌++◌, length, leb,
  if◌then◌else◌, arith,
}
use skull.Fmbuf.{Fmbuf}

pub record Buf (E : Type 0) : Type 0 where
  pub fill : ℕ
  pub left : ℕ
  pub elems : List E

module _ {E : Type 0} where
  abbrev create : ℕ → Buf E
  create n = record { fill = 0; left = n; elems = [] }

  abbrev push : Buf E → E → ℕ → Option (Buf E)
  push b e sz =
      if leb sz b.left
      then some (record { fill = b.fill + sz; left = b.left - sz; elems = b.elems ++ e ∷ [] })
      else none

  abbrev pop : Buf E → ℕ → Option (E × Buf E)
  pop b sz = elim b.elems [
    | [] ↦ none
    | e ∷ es ↦
        if leb sz b.fill
        then some (e, record { fill = b.fill - sz; left = b.left + sz; elems = es })
        else none
  ]

  abbrev rawget : Buf E → ℕ → Option E
  rawget b sz = elim b.elems [ [] ↦ none | e ∷ es ↦ if leb sz b.fill then some e else none ]

  abbrev realloc : Buf E → ℕ → Buf E
  realloc b n = record b { left = n - b.fill }

  pub push-fits :
      (b : Buf E) (e : E) (sz : ℕ)
      → b.fill + sz ≤ b.fill + b.left
      → (b' : Buf E) × (push b e sz ≡ some b')
        × (b'.elems ≡ b.elems ++ e ∷ [])
        × (b'.fill ≡ b.fill + sz)
        × (b'.fill + b'.left ≡ b.fill + b.left)
  push-fits b e sz h = (
    record { fill = b.fill + sz; left = b.left - sz; elems = b.elems ++ e ∷ [] },
    ground arith,
    refl,
    refl,
    omega arith,
  )

  pub push-full : (b : Buf E) (e : E) (sz : ℕ) → b.fill + b.left < b.fill + sz → push b e sz ≡ none
  push-full b e sz h = ground arith

  pub pop-cons :
      (b : Buf E) (sz : ℕ) (e : E) (es : List E)
      → b.fill ≡ sz * length b.elems
      → b.elems ≡ e ∷ es
      → (b' : Buf E) × (pop b sz ≡ some (e, b'))
        × (b'.elems ≡ es)
        × (b'.fill + sz ≡ b.fill)
        × (b'.fill + b'.left ≡ b.fill + b.left)
  pop-cons b sz e es w c =
      let fits : sz ≤ b.fill = rw (w, c) (grind arith) in
      (
        record { fill = b.fill - sz; left = b.left + sz; elems = es },
        ground (arith, c, fits),
        refl,
        omega (arith, fits),
        omega (arith, fits),
      )

  pub pop-nil : (b : Buf E) (sz : ℕ) → b.fill < sz → pop b sz ≡ none
  pop-nil b sz h = ground arith

  pub rawget-cons :
      (b : Buf E) (sz : ℕ) (e : E) (es : List E)
      → b.fill ≡ sz * length b.elems
      → b.elems ≡ e ∷ es
      → rawget b sz ≡ some e
  rawget-cons b sz e es w c =
      let fits : sz ≤ b.fill = rw (w, c) (grind arith) in ground (arith, c, fits)

  pub rawget-nil : (b : Buf E) (sz : ℕ) → b.fill < sz → rawget b sz ≡ none
  rawget-nil b sz h = ground arith

  abbrev pub list_fmbuf : Fmbuf (Buf E) E
  list_fmbuf = record {
    create = create;
    size = λ b. b.fill + b.left;
    used = λ b. b.fill;
    push = push;
    pop = pop;
    rawget = rawget;
    realloc = realloc;
    contents = λ b. b.elems;
    create_lem = λ n. (omega arith, refl, refl);
    used-le-size = λ b. omega arith;
    push-fits = push-fits;
    push-full = push-full;
    pop-cons = pop-cons;
    pop-nil = pop-nil;
    rawget-cons = rawget-cons;
    rawget-nil = rawget-nil;
    realloc_lem = λ b n h. (refl, refl, omega arith);
  }

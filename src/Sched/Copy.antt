-- ===== src/Sched/Copy.antt =====
-- What arrives over a bridge, `_copy_event` of src/components/sk_sched.c.
use skull.Prelude.{
  ℕ, suc, ◌+◌, ◌*◌, ◌^◌, ◌<◌, ◌≡◌, refl, ap, sym, subst, ◌∙◌, ◌⊎◌, inl, inr, Bool-cases, Bool, true,
  false, not, ◌&&◌, none, some, List, [], ◌∷◌, ◌++◌, append_assoc, append-nil, length,
  length-append, All, ◌==◌, if◌then◌else◌, arith,
}
use skull.Prelude.Checked.{ok, ◌>>=◌}
use skull.Prelude.Index.{get_elem?, get_elem?-some}
use skull.Fmbuf.{Fmbuf}
use skull.Pto.{Proto, sk_pto_tbl}
use skull.Sched.{Event, Io, Sched}
use skull.Sched.Route.{is_dst, io_mq, put_mq, set_io}
use skull.Sched.Ops.{copy_one, copy_event}
use skull.Sched.Buffers.{IsBuffer, IsPushed}
use skull.Sched.Laws.{push_io_lem, get_pto_lem}

abbrev pub same_side : Bool → Bool → Bool
same_side true side = side
same_side false side = not side

-- Whether an event belongs into the buffer of a side and a priority.
abbrev pub belongs : ℕ → ℕ → Bool → Event → Bool
belongs id pri side event = elim (get_elem? sk_pto_tbl event.pto_id) [
  | none ↦ false
  | some p ↦ (pri == p.pri) && same_side (is_dst id event.dst) side
]

abbrev pub those : (Event → Bool) → List Event → List Event
those p [] = []
those p (event ∷ events) = let rest = those p events in if p event then event ∷ rest else rest

-- An event of a protocol that there is.
abbrev pub IsKnown : Event → Type 0
IsKnown event = event.pto_id < 12

module _ {B : Type 0} (fm : Fmbuf B Event) where
  abbrev pub contents_of : Sched B → ℕ → Bool → List Event
  contents_of s pri side = fm.contents (io_mq side (s.io_tbl pri))

  -- Each buffer is good and takes `n` more events.
  unfoldable pub IsRoomy : Sched B → ℕ → Type 0
  IsRoomy s n =
      (pri : ℕ) (side : Bool)
      → IsBuffer fm (io_mq side (s.io_tbl pri))
        × (56 * (length (contents_of s pri side) + n) < 2 ^ 60)

  -- What an event changes in a scheduler.
  record IsCopied (s : Sched B) (event : Event) (n : ℕ) (s' : Sched B) : Type 0 where
    pub same_id : s'.id ≡ s.id
    pub roomy : IsRoomy s' n
    pub copied :
        (pri : ℕ) (side : Bool)
        → contents_of s' pri side
          ≡ contents_of s pri side ++ those (belongs s.id pri side) (event ∷ [])

  -- A buffer of the new scheduler is the one that was pushed to, or it is as it was.
  put_mq-cases :
      (side₀ side : Bool) (mq : B) (io : Io B)
      → (same_side side₀ side ≡ true)
          × (io_mq side io ≡ io_mq side₀ io)
          × (io_mq side (put_mq side₀ mq io) ≡ mq)
        ⊎ (same_side side₀ side ≡ false) × (io_mq side (put_mq side₀ mq io) ≡ io_mq side io)
  put_mq-cases true true mq io = inl (refl, refl, refl)
  put_mq-cases true false mq io = inr (refl, refl)
  put_mq-cases false true mq io = inr (refl, refl)
  put_mq-cases false false mq io = inl (refl, refl, refl)

  set_io-cases :
      (s : Sched B) (pri₀ pri : ℕ) (side₀ side : Bool) (mq : B)
      → (((pri == pri₀) && same_side side₀ side) ≡ true)
          × (io_mq side (s.io_tbl pri) ≡ io_mq side₀ (s.io_tbl pri₀))
          × (io_mq side ((set_io pri₀ (put_mq side₀ mq (s.io_tbl pri₀)) s).io_tbl pri) ≡ mq)
        ⊎ (((pri == pri₀) && same_side side₀ side) ≡ false)
          × (io_mq side ((set_io pri₀ (put_mq side₀ mq (s.io_tbl pri₀)) s).io_tbl pri)
              ≡ io_mq side (s.io_tbl pri))
  set_io-cases s pri₀ pri side₀ side mq = elim (Bool-cases (pri == pri₀)) [
    | inr other ↦ inr (grind (arith, other), grind (arith, other))
    | inl same ↦
        let eq : pri ≡ pri₀ = ground (arith, same) in
        let old : io_mq side (s.io_tbl pri) ≡ io_mq side (s.io_tbl pri₀) =
          ap (λ p. io_mq side (s.io_tbl p)) eq in
        let new : io_mq side ((set_io pri₀ (put_mq side₀ mq (s.io_tbl pri₀)) s).io_tbl pri)
            ≡ io_mq side (put_mq side₀ mq (s.io_tbl pri₀)) =
          ap (λ c. io_mq side (if c then put_mq side₀ mq (s.io_tbl pri₀) else s.io_tbl pri)) same in
        elim (put_mq-cases side₀ side mq (s.io_tbl pri₀)) [
          | inl (hit, was, is) ↦ inl (grind (arith, same, hit), old ∙ was, new ∙ is)
          | inr (miss, is) ↦ inr (grind (arith, same, miss), new ∙ is ∙ sym old)
        ]
  ]

  set_io-IsCopied :
      (s : Sched B) (event : Event) (n : ℕ) (p : Proto) (mq : B)
      → get_elem? sk_pto_tbl event.pto_id ≡ some p
      → IsPushed fm event (io_mq (is_dst s.id event.dst) (s.io_tbl p.pri)) mq
      → IsRoomy s (suc n)
      → IsCopied s event n (set_io p.pri (put_mq (is_dst s.id event.dst) mq (s.io_tbl p.pri)) s)
  unfolding IsRoomy
  set_io-IsCopied s event n p mq e pushed roomy = record {
    same_id = refl;
    roomy = λ pri side. elim (set_io-cases s p.pri pri side₀ side mq) [
      | inl (_, was, is) ↦ (
        subst (IsBuffer fm) (sym is) pushed.buffer,
        omega (
          arith,
          (roomy p.pri side₀).1,
          ap (λ b. length (fm.contents b)) is,
          ap length pushed.last,
          length-append (fm.contents (io_mq side₀ (s.io_tbl p.pri))) (event ∷ []),
        ),
      )
      | inr (_, is) ↦ (
        subst (IsBuffer fm) (sym is) ((roomy pri side).0),
        omega (arith, (roomy pri side).1, ap (λ b. length (fm.contents b)) is),
      )
    ];
    copied = λ pri side. elim (set_io-cases s p.pri pri side₀ side mq) [
      | inl (hit, was, is) ↦
          ap fm.contents is
          ∙ pushed.last
          ∙ ap (λ b. fm.contents b ++ event ∷ []) (sym was)
          ∙ ap (λ c. fm.contents (io_mq side (s.io_tbl pri)) ++ (if c then event ∷ [] else []))
              (sym (here pri side ∙ hit))
      | inr (miss, is) ↦
          ap fm.contents is
          ∙ sym (append-nil _)
          ∙ ap (λ c. fm.contents (io_mq side (s.io_tbl pri)) ++ (if c then event ∷ [] else []))
              (sym (here pri side ∙ miss))
    ];
  }
    where
      side₀ : Bool
      side₀ = is_dst s.id event.dst

      here :
          (pri : ℕ) (side : Bool)
          → belongs s.id pri side event ≡ ((pri == p.pri) && same_side side₀ side)
      here pri side =
          ap
            (λ o. elim o as (λ x. Bool) [
              | none ↦ false
              | some p ↦ (pri == p.pri) && same_side side₀ side
            ])
            e

  copy_one_lem :
      (s : Sched B) (event : Event) (n : ℕ)
      → IsKnown event
      → IsRoomy s (suc n)
      → (s' : Sched B) × (copy_one fm s event ≡ ok s') × IsCopied s event n s'
  unfolding copy_one IsRoomy
  copy_one_lem s event n known roomy =
      let (p, e) = get_elem?-some sk_pto_tbl event.pto_id known in
      let side₀ = is_dst s.id event.dst in
      let (g, bound) = roomy p.pri side₀ in
      let (mq, pushes, pushed) =
        push_io_lem fm side₀ (s.io_tbl p.pri) event g (omega (arith, bound)) in
      let found = get_pto_lem event.pto_id p e in
      (
        set_io p.pri (put_mq side₀ mq (s.io_tbl p.pri)) s,
        grind (arith, found, pushes),
        set_io-IsCopied s event n p mq e pushed roomy,
      )

  those-cons :
      (p : Event → Bool) (event : Event) (events : List Event)
      → those p (event ∷ []) ++ those p events ≡ those p (event ∷ events)
  those-cons p event events = elim (Bool-cases (p event)) [
    | inl yes_it ↦ grind (arith, yes_it)
    | inr no_it ↦ grind (arith, no_it)
  ]

  -- What arrives over a bridge is copied: each event into the buffer of the priority of its protocol,
  -- the input where it is for this scheduler and the output where it is for another, behind what is
  -- there, in the order in which it was delivered. Each buffer is good and has room for the events.
  pub copy_event_lem :
      (events : List Event) (s : Sched B) (pri : ℕ) (side : Bool)
      → All IsKnown events
      → IsRoomy s (length events)
      → (s' : Sched B) × (copy_event fm s events ≡ ok s')
        × (contents_of s' pri side ≡ contents_of s pri side ++ those (belongs s.id pri side) events)
  unfolding copy_event
  copy_event_lem [] s pri side known roomy = (s, refl, sym (append-nil _))
  copy_event_lem (event ∷ events) s pri side (known, all_known) roomy =
      let (s₁, copies, c) = copy_one_lem s event (length events) known roomy in
      let (s', more, last) = copy_event_lem events s₁ pri side all_known c.roomy in
      (
        s',
        ap (λ m. m >>= λ s₁. copy_event fm s₁ events) copies ∙ more,
        last
            ∙ ap (λ es. es ++ those (belongs s₁.id pri side) events) (c.copied pri side)
            ∙ ap
                (λ id.
                  contents_of s pri side
                  ++ those (belongs s.id pri side) (event ∷ [])
                  ++ those (belongs id pri side) events)
                c.same_id
            ∙ append_assoc (contents_of s pri side) _ _
            ∙ ap (λ es. contents_of s pri side ++ es)
                (those-cons (belongs s.id pri side) event events),
      )

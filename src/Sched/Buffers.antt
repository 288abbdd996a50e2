-- ===== src/Sched/Buffers.antt =====
-- The buffers of src/common/sk_io.c take every event.
use skull.Prelude.{
  ℕ, zero, suc, ◌+◌, ◌*◌, ◌/◌, ◌^◌, ◌≤◌, ◌<◌, ◌≡◌, ap, ◌∙◌, inl, inr, Bool-cases, false, not, [],
  ◌∷◌, ◌++◌, length, length-append, leb, ◌==◌, if◌then◌else◌, arith,
}
use skull.Prelude.Checked.{ok, ◌>>=◌, sk_assert}
use skull.Fmbuf.{Fmbuf}
use skull.Sched.{Event}
use skull.Sched.Ops.{grow, get_new_size, sk_io_push}

grow-once :
    (fuel sz used : ℕ)
    → 0 < sz
    → sz < 2 ^ 63
    → used + 56 ≤ sz * 2
    → grow (suc fuel) sz used 56 ≡ sz * 2
grow-once fuel zero used pos small room = absurd (omega (arith, pos))
grow-once fuel (suc n) used pos small room = ground (arith, small, room)

module _ {B : Type 0} (fm : Fmbuf B Event) where
  -- A buffer of whole events, whose size leaves room to double.
  pub record IsBuffer (mq : B) : Type 0 where
    pub whole : fm.used mq ≡ 56 * length (fm.contents mq)
    pub small : fm.size mq < 2 ^ 62

  -- What a buffer is after an event was pushed.
  pub record IsPushed (event : Event) (mq mq' : B) : Type 0 where
    pub last : fm.contents mq' ≡ fm.contents mq ++ event ∷ []
    pub buffer : IsBuffer mq'

  fits-IsPushed :
      (mq mq' : B) (event : Event)
      → IsBuffer mq
      → fm.contents mq' ≡ fm.contents mq ++ event ∷ []
      → fm.used mq' ≡ fm.used mq + 56
      → fm.size mq' < 2 ^ 62
      → IsPushed event mq mq'
  fits-IsPushed mq mq' event g last used small = record {
    last = last;
    buffer = record {
      whole =
          omega
            (arith, used, g.whole, ap length last ∙ length-append (fm.contents mq) (event ∷ []));
      small = small;
    };
  }

  get_new_size-grown :
      (mq : B) (n : ℕ)
      → grow 66
          ((if fm.size mq / 56 == 0 then 1 else fm.size mq / 56) * 56)
          (fm.used mq / 56 * 56)
          56
        ≡ n
      → 0 < n
      → get_new_size fm mq 1 ≡ ok n
  unfolding get_new_size
  get_new_size-grown mq n grown pos =
      let set : (n == 0) ≡ false = grind (arith, pos) in
      ap (λ n. sk_assert (not (n == 0)) >>= λ _. ok n) grown
      ∙ ap (λ b. sk_assert (not b) >>= λ _. ok n) set

  get_new_size-full :
      (mq : B)
      → IsBuffer mq
      → fm.used mq < 2 ^ 60
      → fm.size mq < fm.used mq + 56
      → (n : ℕ) × (get_new_size fm mq 1 ≡ ok n) × (fm.used mq + 56 ≤ n) × (n < 2 ^ 62)
  unfolding get_new_size
  get_new_size-full mq g bound full =
      let count = fm.size mq / 56 in
      let new_cnt = if count == 0 then 1 else count in
      let sz = new_cnt * 56 in
      let least = fm.used-le-size mq in
      let lower : fm.used mq + 56 ≤ sz * 2 = ground (arith, g.whole, least, full) in
      let upper : sz * 2 < 2 ^ 62 = ground (arith, g.whole, least, full, bound) in
      let whole : fm.used mq / 56 * 56 ≡ fm.used mq = omega (arith, g.whole) in
      let grown : grow 66 sz (fm.used mq / 56 * 56) 56 ≡ sz * 2 =
        ap (λ u. grow 66 sz u 56) whole
        ∙ grow-once 65 sz (fm.used mq) (omega (arith, lower)) (omega (arith, upper)) lower in
      (sz * 2, get_new_size-grown mq (sz * 2) grown (omega (arith, lower)), lower, upper)

  -- A push of an event to a buffer succeeds, with a larger buffer where there was no room, and the
  -- event stands behind the others. The events take less than 2 ^ 60 bytes.
  pub sk_io_push_lem :
      (mq : B) (event : Event)
      → IsBuffer mq
      → 56 * length (fm.contents mq) < 2 ^ 60
      → (mq' : B) × (sk_io_push fm mq event ≡ ok mq') × IsPushed event mq mq'
  unfolding sk_io_push
  sk_io_push_lem mq event g bound = elim (Bool-cases (leb (fm.used mq + 56) (fm.size mq))) [
    | inl room ↦
        let (mq', pushed, last, used, size) = fm.push-fits mq event 56 (ground (arith, room)) in
        (
          mq',
          grind (arith, pushed),
          fits-IsPushed mq mq' event g last used (omega (arith, size, g.small)),
        )
    | inr full ↦
        let tight : fm.size mq < fm.used mq + 56 = ground (arith, full) in
        let (n, sized, enough, small) =
          get_new_size-full mq g (omega (arith, g.whole, bound)) tight in
        let (kept, used, size) = fm.realloc_lem mq n (omega (arith, enough)) in
        let (mq', pushed, last, used', size') =
          fm.push-fits (fm.realloc mq n) event 56 (omega (arith, used, size, enough)) in
        let none_yet = fm.push-full mq event 56 tight in
        (
          mq',
          grind (arith, none_yet, sized, pushed),
          fits-IsPushed mq mq' event g (last ∙ ap (λ es. es ++ event ∷ []) kept)
              (omega (arith, used', used)) (omega (arith, size', size, small)),
        )
  ]

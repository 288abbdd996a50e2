-- ===== src/Core/Setup.antt =====
-- The bridges that `_sk_setup_engines` leaves, and how many engines it has room for.
use skull.Prelude.{ℕ, zero, suc, ◌+◌, ◌≤◌, ◌<◌, ◌≡◌, refl, ap, subst, ◌∙◌, [], arith}
use native.Mathlib.Decide.{ℕ_discrete, dec_le}
use skull.Fmbuf.{Fmbuf}
use skull.Config.{ok, assert_failed, ◌>>=◌}
use skull.Sched.{Event}
use skull.Core.Engines.{master, Scheds, setup_workers, setup_bios, setup_engines}
use skull.Sched.Ops.{max_io_bridge}
use skull.Core.Linked.{
  links, IsLinked, setup_worker-IsLinked, setup_bio-IsLinked, setup_worker-full, setup_bio-full,
}

module _ {B : Type 0} (fm : Fmbuf B Event) (threads : ℕ) where
  setup_workers-IsLinked :
      (k n : ℕ) (b : Scheds B)
      → n + k ≤ max_io_bridge
      → IsLinked threads n b
      → (b' : Scheds B) × (setup_workers fm threads k (suc n) b ≡ ok b')
        × IsLinked threads (n + k) b'
  unfolding setup_workers
  setup_workers-IsLinked zero n b small l =
      (b, refl, subst (λ i. IsLinked threads i b) (omega arith) l)
  setup_workers-IsLinked (suc k) n b small l =
      let (b₁, first, l₁) = setup_worker-IsLinked fm threads n b (omega (arith, small)) l in
      let (b₂, rest, l₂) = setup_workers-IsLinked k (suc n) b₁ (omega (arith, small)) l₁ in
      (
        b₂,
        ap (λ m. m >>= setup_workers fm threads k (suc (suc n))) first ∙ rest,
        subst (λ i. IsLinked threads i b₂) (omega arith) l₂,
      )

  setup_bios-IsLinked :
      (k n : ℕ) (b : Scheds B)
      → n + k ≤ max_io_bridge
      → IsLinked threads n b
      → (b' : Scheds B) × (setup_bios fm threads k (suc n) b ≡ ok b') × IsLinked threads (n + k) b'
  unfolding setup_bios
  setup_bios-IsLinked zero n b small l =
      (b, refl, subst (λ i. IsLinked threads i b) (omega arith) l)
  setup_bios-IsLinked (suc k) n b small l =
      let (b₁, first, l₁) = setup_bio-IsLinked fm threads n b (omega (arith, small)) l in
      let (b₂, rest, l₂) = setup_bios-IsLinked k (suc n) b₁ (omega (arith, small)) l₁ in
      (
        b₂,
        ap (λ m. m >>= setup_bios fm threads k (suc (suc n))) first ∙ rest,
        subst (λ i. IsLinked threads i b₂) (omega arith) l₂,
      )

  setup_workers-full :
      (k n : ℕ) (b : Scheds B)
      → n ≤ max_io_bridge
      → max_io_bridge < n + k
      → IsLinked threads n b
      → setup_workers fm threads k (suc n) b ≡ assert_failed
  unfolding setup_workers
  setup_workers-full zero n b le lt l = absurd (omega (arith, le, lt))
  setup_workers-full (suc k) n b le lt l = elim (ℕ_discrete n max_io_bridge) [
    | yes full ↦
        ap (λ m. m >>= setup_workers fm threads k (suc (suc n)))
          (setup_worker-full fm threads n b full l)
    | no room ↦
        let (b₁, first, l₁) = setup_worker-IsLinked fm threads n b (omega (arith, le, room)) l in
        ap (λ m. m >>= setup_workers fm threads k (suc (suc n))) first
        ∙ setup_workers-full k (suc n) b₁ (omega (arith, le, room)) (omega (arith, lt)) l₁
  ]

  setup_bios-full :
      (k n : ℕ) (b : Scheds B)
      → n ≤ max_io_bridge
      → max_io_bridge < n + k
      → IsLinked threads n b
      → setup_bios fm threads k (suc n) b ≡ assert_failed
  unfolding setup_bios
  setup_bios-full zero n b le lt l = absurd (omega (arith, le, lt))
  setup_bios-full (suc k) n b le lt l = elim (ℕ_discrete n max_io_bridge) [
    | yes full ↦
        ap (λ m. m >>= setup_bios fm threads k (suc (suc n))) (setup_bio-full fm threads n b full l)
    | no room ↦
        let (b₁, first, l₁) = setup_bio-IsLinked fm threads n b (omega (arith, le, room)) l in
        ap (λ m. m >>= setup_bios fm threads k (suc (suc n))) first
        ∙ setup_bios-full k (suc n) b₁ (omega (arith, le, room)) (omega (arith, lt)) l₁
  ]

  module _ (bio_cnt : ℕ) (created : Scheds B) (alone : (e : ℕ) → (created e).bridge_tbl ≡ []) where
    nothing_linked : IsLinked threads 0 created
    nothing_linked = record {
      from_master = ap links (alone master);
      to_master = λ e pos le. absurd (omega (arith, pos, le));
      unlinked = λ e lt. alone e;
    }

    -- With at most 48 engines behind the master, from schedulers without bridges, each of them is
    -- linked to the master, and the master to each of them in order, the workers first. The round
    -- robin may take the bridges to the master and to the workers.
    pub setup_engines-IsLinked :
        threads + bio_cnt ≤ max_io_bridge
        → (b : Scheds B) × (setup_engines fm threads bio_cnt created ≡ ok b)
          × IsLinked threads (threads + bio_cnt) b
    unfolding setup_engines
    setup_engines-IsLinked small =
        let (b₁, workers, l₁) =
          setup_workers-IsLinked threads 0 created (omega (arith, small)) nothing_linked in
        let at_workers = subst (λ i. IsLinked threads i b₁) (omega arith) l₁ in
        let (b₂, bios, l₂) = setup_bios-IsLinked bio_cnt threads b₁ small at_workers in
        (b₂, ap (λ m. m >>= setup_bios fm threads bio_cnt (suc threads)) workers ∙ bios, l₂)

    -- With more of them an assertion fails.
    pub setup_engines-assert_failed :
        max_io_bridge < threads + bio_cnt → setup_engines fm threads bio_cnt created ≡ assert_failed
    unfolding setup_engines
    setup_engines-assert_failed many = elim (dec_le threads max_io_bridge) [
      | no over ↦
          ap (λ m. m >>= setup_bios fm threads bio_cnt (suc threads))
            (setup_workers-full threads 0 created (omega arith) (omega (arith, over))
              nothing_linked)
      | yes fit ↦
          let (b₁, workers, l₁) =
            setup_workers-IsLinked threads 0 created (omega (arith, fit)) nothing_linked in
          let at_workers = subst (λ i. IsLinked threads i b₁) (omega arith) l₁ in
          ap (λ m. m >>= setup_bios fm threads bio_cnt (suc threads)) workers
          ∙ setup_bios-full bio_cnt threads b₁ fit many at_workers
    ]

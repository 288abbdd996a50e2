-- ===== src/Admin/Entities.antt =====
-- The counters of the entities that the status shows.
use skull.Prelude.{ℕ, ◌<◌, ◌≡◌, ◌≢◌, refl, ap, ◌∙◌, sym, List, [], ◌∷◌, ◌++◌, arith}
use skull.Prelude.Int.{ℤ, pos, ◌+ℤ◌, +ℤ_assoc, +ℤ-zero, zero-+ℤ}
use skull.EntityMgr.{Stat}
use skull.Admin.Answer.{
  EngineStat, is_merged, merge_one_stat, merge_stat, merge_engines, status_entity,
}

-- What all managers of the engines have of a counter.
abbrev pub managers : EngineStat → List Stat
managers e = e.entity_mgr ∷ e.ep_tcp ∷ e.ep_udp ∷ []

abbrev pub sum : (Stat → ℤ) → List Stat → ℤ
sum f [] = pos 0
sum f (s ∷ ss) = f s +ℤ sum f ss

abbrev pub sum_engines : (Stat → ℤ) → List EngineStat → ℤ
sum_engines f [] = pos 0
sum_engines f (e ∷ es) = sum f (managers e) +ℤ sum_engines f es

sum_engines-append :
    (f : Stat → ℤ) (es es' : List EngineStat)
    → sum_engines f es +ℤ sum_engines f es' ≡ sum_engines f (es ++ es')
sum_engines-append f [] es' = zero-+ℤ (sum_engines f es')
sum_engines-append f (e ∷ es) es' =
    +ℤ_assoc (sum f (managers e)) (sum_engines f es) (sum_engines f es')
    ∙ ap (λ n. sum f (managers e) +ℤ n) (sum_engines-append f es es')

sum_engines-zero : (es : List EngineStat) → sum_engines (λ s. pos 0) es ≡ pos 0
unfolding ◌+ℤ◌
sum_engines-zero [] = refl
sum_engines-zero (e ∷ es) = rw (sum_engines-zero es) refl

three : (t a b c : ℤ) → (t +ℤ a +ℤ b) +ℤ c ≡ t +ℤ (a +ℤ (b +ℤ (c +ℤ pos 0)))
three t a b c = simp (+ℤ_assoc, +ℤ-zero) refl

-- What a manager adds to a counter.
abbrev Adds : (f g : Stat → ℤ) → Type 0
Adds f g = (t s : Stat) → f (merge_one_stat t s) ≡ f t +ℤ g s

module _ (f g : Stat → ℤ) (adds : Adds f g) where
  merge_stat-sum : (t : Stat) (e : EngineStat) → f (merge_stat t e) ≡ f t +ℤ sum g (managers e)
  unfolding merge_stat
  merge_stat-sum t e =
      let one = merge_one_stat t e.entity_mgr in
      let two = merge_one_stat one e.ep_tcp in
      adds two e.ep_udp
      ∙ ap (λ n. n +ℤ g e.ep_udp)
          (adds one e.ep_tcp ∙ ap (λ n. n +ℤ g e.ep_tcp) (adds t e.entity_mgr))
      ∙ three (f t) (g e.entity_mgr) (g e.ep_tcp) (g e.ep_udp)

  merge_engines-sum :
      (t : Stat) (es : List EngineStat) → f (merge_engines t es) ≡ f t +ℤ sum_engines g es
  unfolding merge_engines
  merge_engines-sum t [] = sym (+ℤ-zero (f t))
  merge_engines-sum t (e ∷ es) =
      merge_engines-sum (merge_stat t e) es
      ∙ rw (merge_stat-sum t e) (+ℤ_assoc (f t) (sum g (managers e)) (sum_engines g es))

  status_entity-sum :
      (master : EngineStat) (workers bio : List EngineStat)
      → f (record { total = pos 0; inactive = pos 0; of_type = λ type. pos 0 }) ≡ pos 0
      → f (status_entity master workers bio) ≡ sum_engines g (master ∷ workers ++ bio)
  unfolding status_entity
  status_entity-sum master workers bio none_yet =
      let zeros : Stat = record { total = pos 0; inactive = pos 0; of_type = λ type. pos 0 } in
      let first : f (merge_stat zeros master) ≡ sum g (managers master) =
        merge_stat-sum zeros master
        ∙ ap (λ n. n +ℤ sum g (managers master)) none_yet
        ∙ zero-+ℤ (sum g (managers master)) in
      merge_engines-sum (merge_engines (merge_stat zeros master) workers) bio
      ∙ ap (λ n. n +ℤ sum_engines g bio)
          (merge_engines-sum (merge_stat zeros master) workers
            ∙ ap (λ n. n +ℤ sum_engines g workers) first)
      ∙ sum_engines-append g (master ∷ workers) bio

-- The counter of a type.
abbrev pub of_type : ℕ → Stat → ℤ
of_type type s = s.of_type type

stays-Adds :
    (type : ℕ)
    → ((t s : Stat) → (merge_one_stat t s).of_type type ≡ t.of_type type)
    → Adds (of_type type) (λ s. pos 0)
stays-Adds type stays t s = stays t s ∙ sym (+ℤ-zero (t.of_type type))

of_type-Adds : (type : ℕ) → type < 13 → type ≢ 1 → type ≢ 11 → Adds (of_type type) (of_type type)
unfolding merge_one_stat is_merged
of_type-Adds type small std timer t s = ground (arith, small, std, timer)

-- The status shows of all managers of all engines together how many entities there are, how many of
-- them are inactive, and how many are of each type, except 1, entity_std, and 11, entity_ep_timer,
-- of which it shows none.
pub status_entity_lem :
    (master : EngineStat) (workers bio : List EngineStat)
    → let shown = status_entity master workers bio in
      let engines = master ∷ workers ++ bio in
      (shown.total ≡ sum_engines (λ s. s.total) engines)
      × (shown.inactive ≡ sum_engines (λ s. s.inactive) engines)
      × ((type : ℕ)
          → type < 13
          → type ≢ 1
          → type ≢ 11
          → shown.of_type type ≡ sum_engines (of_type type) engines)
      × (shown.of_type 1 ≡ pos 0)
      × (shown.of_type 11 ≡ pos 0)
status_entity_lem master workers bio = (
  status_entity-sum (λ s. s.total) (λ s. s.total) (λ t s. unfold merge_one_stat in refl) master
      workers bio refl,
  status_entity-sum (λ s. s.inactive) (λ s. s.inactive) (λ t s. unfold merge_one_stat in refl)
      master workers bio refl,
  λ type small std timer.
      status_entity-sum (of_type type) (of_type type) (of_type-Adds type small std timer) master
        workers bio refl,
  status_entity-sum (of_type 1) (λ s. pos 0)
        (stays-Adds 1 (λ t s. unfold merge_one_stat is_merged in refl)) master workers bio refl
      ∙ sum_engines-zero (master ∷ workers ++ bio),
  status_entity-sum (of_type 11) (λ s. pos 0)
        (stays-Adds 11 (λ t s. unfold merge_one_stat is_merged in refl)) master workers bio refl
      ∙ sum_engines-zero (master ∷ workers ++ bio),
)

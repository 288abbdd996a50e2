-- ===== src/Sched/RoundRobin.antt =====
-- Which bridge the round robin of src/components/sk_sched.c picks.
use skull.Prelude.{
  ℕ, zero, suc, ◌+◌, ◌-◌, ◌%◌, ◌≤◌, ◌<◌, ◌≡◌, ap, sym, subst, ◌∙◌, ◌⊎◌, inl, inr, Bool-cases, Bool,
  true, false, Option, none, some, List, length, ltb, lt→ltb, ltb→lt, ◌==◌, if◌then◌else◌, arith,
}
use skull.Prelude.Checked.{Checked, ok}
use skull.Prelude.Index.{get_elem?, get_elem?-some}
use native.Mathlib.Nat.{mod_self, mod-eq_of_lt}
use skull.Sched.{Bridge}
use skull.Sched.Route.{roundrobin_loop, find_bridge_roundrobin}

-- The index that stands `j` places after `last`, round the end of `n`.
abbrev pub turn : ℕ → ℕ → ℕ → ℕ
turn n last j = if ltb (last + j) n then last + j else last + j - n

suc-turn : (n last d : ℕ) → last < n → d < n → suc (turn n last d) % n ≡ turn n last (suc d)
suc-turn n last d h k = elim (Bool-cases (ltb (suc (turn n last d)) n)) [
  | inl inside ↦ mod-eq_of_lt (ltb→lt _ _ inside) ∙ ground (arith, inside, h, k)
  | inr outside ↦
      let at_end : suc (turn n last d) ≡ n = ground (arith, outside, h, k) in
      ap (λ x. x % n) at_end ∙ mod_self n ∙ ground (arith, at_end, h, k)
]

turn-lt : (n last d : ℕ) → last < n → d ≤ n → turn n last d < n
turn-lt n last d h k = ground (arith, h, k)

turn-last : (n last d : ℕ) → last < n → d ≤ n → 0 < d → turn n last d ≡ last → d ≡ n
turn-last n last d h k pos e = ground (arith, h, k, pos, e)

module _ {B : Type 0} where
  -- Whether the round robin may take a bridge.
  abbrev pub routable_at : List (Bridge B) → ℕ → Bool
  routable_at bridges i = elim (get_elem? bridges i) [ none ↦ false | some b ↦ b.routable ]

  -- What the round robin answers from `last` on: the next bridge that it may take, and the place
  -- behind it, or none after a whole turn.
  pub data IsTurn (bridges : List (Bridge B)) (last : ℕ) : Option ℕ → ℕ → Type 0 where
    takes :
        (j : ℕ)
        → j < length bridges
        → routable_at bridges (turn (length bridges) last j) ≡ true
        → ((i : ℕ) → i < j → routable_at bridges (turn (length bridges) last i) ≡ false)
        → IsTurn bridges last
            (some (turn (length bridges) last j))
            (turn (length bridges) last (suc j))
    refuses :
        ((i : ℕ) → i < length bridges → routable_at bridges (turn (length bridges) last i) ≡ false)
        → IsTurn bridges last none last

  -- The answer of the loop.
  abbrev IsAnswer : List (Bridge B) → ℕ → Checked (Option ℕ × ℕ) → Type 0
  IsAnswer bridges last answer =
      ((j : ℕ) × (j < length bridges)
        × (routable_at bridges (turn (length bridges) last j) ≡ true)
        × ((i : ℕ) → i < j → routable_at bridges (turn (length bridges) last i) ≡ false)
        × (answer ≡ ok (some (turn (length bridges) last j), turn (length bridges) last j)))
      ⊎ ((i : ℕ) → i < length bridges → routable_at bridges (turn (length bridges) last i) ≡ false)
        × (answer ≡ ok (none, last))

  -- A round that passes over a bridge.
  roundrobin_loop-passes :
      (fuel : ℕ) (bridges : List (Bridge B)) (end idx next : ℕ) (b : Bridge B)
      → get_elem? bridges idx ≡ some b
      → b.routable ≡ false
      → suc idx % length bridges ≡ next
      → roundrobin_loop (suc fuel) bridges end idx
        ≡ (if next == end then ok (none, next) else roundrobin_loop fuel bridges end next)
  unfolding roundrobin_loop
  roundrobin_loop-passes fuel bridges end idx next b here passes step =
      subst
        (λ next.
          roundrobin_loop (suc fuel) bridges end idx
          ≡ (if next == end then ok (none, next) else roundrobin_loop fuel bridges end next))
        step (grind (arith, here, passes))

  -- From the place `d` on, with `fuel` places left.
  roundrobin_loop_lem :
      (fuel d : ℕ) (bridges : List (Bridge B)) (last : ℕ)
      → last < length bridges
      → fuel + d ≡ length bridges
      → 0 < fuel
      → ((i : ℕ) → i < d → routable_at bridges (turn (length bridges) last i) ≡ false)
      → IsAnswer bridges last (roundrobin_loop fuel bridges last (turn (length bridges) last d))
  unfolding roundrobin_loop
  roundrobin_loop_lem zero d bridges last h all pos before = absurd (omega (arith, pos))
  roundrobin_loop_lem (suc fuel) d bridges last h all pos before =
      let n = length bridges in
      let (b, here) =
        get_elem?-some bridges (turn n last d) (turn-lt n last d h (omega (arith, all))) in
      elim (Bool-cases b.routable) [
        | inl takes_it ↦ inl (
          d,
          omega (arith, all),
          grind (arith, here, takes_it),
          before,
          grind (arith, here, takes_it),
        )
        | inr passes ↦
            let skipped : (i : ℕ) → i < suc d → routable_at bridges (turn n last i) ≡ false =
              λ i less. extend bridges last d i before (grind (arith, here, passes)) less in
            let step : suc (turn n last d) % n ≡ turn n last (suc d) =
              suc-turn n last d h (omega (arith, all)) in
            let round_lem =
              roundrobin_loop-passes fuel bridges last (turn n last d) (turn n last (suc d)) b here
                passes step in
            elim (Bool-cases (turn n last (suc d) == last)) [
              | inl round ↦
                  let full : suc d ≡ n =
                    turn-last n last (suc d) h (omega (arith, all)) (omega arith)
                      (ground (arith, round)) in
                  inr (
                    λ i less. skipped i (omega (arith, less, full)),
                    round_lem ∙ at_end _ (turn n last (suc d)) last round,
                  )
              | inr on ↦
                  let left : 0 < fuel = more fuel d n last h all on in
                  subst (IsAnswer bridges last)
                    (sym (
                      round_lem
                      ∙ ap
                          (λ c.
                            if c
                            then ok (none, turn n last (suc d))
                            else roundrobin_loop fuel bridges last (turn n last (suc d)))
                          on))
                    (roundrobin_loop_lem fuel (suc d) bridges last h (omega (arith, all)) left
                      skipped)
            ]
      ]
    where
      extend :
          (bridges : List (Bridge B)) (last d i : ℕ)
          → ((i : ℕ) → i < d → routable_at bridges (turn (length bridges) last i) ≡ false)
          → routable_at bridges (turn (length bridges) last d) ≡ false
          → i < suc d
          → routable_at bridges (turn (length bridges) last i) ≡ false
      extend bridges last d i before at less = elim (Bool-cases (ltb i d)) [
        | inl lower ↦ before i (ltb→lt i d lower)
        | inr top ↦
            let same : d ≡ i = ground (arith, top, less) in
            subst (λ i. routable_at bridges (turn (length bridges) last i) ≡ false) same at
      ]

      more :
          (fuel d n last : ℕ)
          → last < n
          → suc fuel + d ≡ n
          → (turn n last (suc d) == last) ≡ false
          → 0 < fuel
      more fuel d n last h all on = ground (arith, h, all, on)

      at_end :
          (other : Checked (Option ℕ × ℕ)) (i last : ℕ)
          → (i == last) ≡ true
          → (if i == last then ok (none, i) else other) ≡ ok (none, last)
      at_end other i last e = ground (arith, e)

  find_bridge_roundrobin-takes :
      (bridges : List (Bridge B)) (last i next : ℕ)
      → roundrobin_loop (length bridges) bridges last last ≡ ok (some i, i)
      → i < length bridges
      → suc i % length bridges ≡ next
      → find_bridge_roundrobin bridges last ≡ ok (some i, next)
  unfolding find_bridge_roundrobin
  find_bridge_roundrobin-takes bridges last i next e inside step =
      let bound : ltb i (length bridges) ≡ true = lt→ltb i (length bridges) inside in
      subst (λ next. find_bridge_roundrobin bridges last ≡ ok (some i, next)) step
        (grind (arith, e, bound))

  -- The round robin of the bridges, from an index of them: it returns, takes the next bridge that it
  -- may take and goes on behind it the next time, and answers none only where it may take none.
  pub find_bridge_roundrobin_lem :
      (bridges : List (Bridge B)) (last : ℕ)
      → last < length bridges
      → (found : Option ℕ) × (last' : ℕ) × (find_bridge_roundrobin bridges last ≡ ok (found, last'))
        × IsTurn bridges last found last'
  unfolding find_bridge_roundrobin
  find_bridge_roundrobin_lem bridges last h =
      let n = length bridges in
      let start : turn n last 0 ≡ last = ground (arith, h) in
      elim (subst (λ i. IsAnswer bridges last (roundrobin_loop n bridges last i)) start
        (roundrobin_loop_lem n 0 bridges last h (omega arith) (omega (arith, h))
          (λ i less. absurd (omega (arith, less))))) [
            | inl (j, inside, takes_it, before, e) ↦ (
              some (turn n last j),
              turn n last (suc j),
              find_bridge_roundrobin-takes bridges last (turn n last j) _ e
                  (turn-lt n last j h (omega (arith, inside))) (suc-turn n last j h inside),
              takes j inside takes_it before,
            )
            | inr (passes, e) ↦ (none, last, grind (arith, e), refuses passes)
          ]

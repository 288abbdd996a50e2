-- ===== src/EntityMgr/Cleaned.antt =====
-- What `_cleanup_dead_entities` of src/components/sk_entity_mgr.c does.
use skull.Prelude.{
  ℕ, ◌<◌, ◌≡◌, ◌≢◌, refl, sym, ap, ◌∙◌, subst, inl, inr, Bool, true, some, List, [], ◌∷◌, ◌++◌, All,
  Mem, Bool-cases,
}
use skull.Prelude.Checked.{ok}
use skull.Prelude.Holds.{bind-ok, assert-ok, ok-inj}
use skull.Fhash.{Fhash}
use skull.EntityMgr.{Managed, EntityMgr, is_dead, is_empty, cleanup_loop, cleanup_dead_entities}
use skull.EntityMgr.Clean.{Dying, kept, without, stays, cleanup_loop_lem}
use skull.EntityMgr.Table.{CleanedKey, cleanup_loop-table}
use skull.EntityMgr.Valid.{IsValid}
use skull.EntityMgr.Frees.{Destroyable, cleanup_dead_entities-ok}

module _ {EH : Type 0} (eh : Fhash EH Managed) where
  kept-Mem :
      (force : Bool) (tbl : EH) (ids : List ℕ) (j : ℕ)
      → Mem j ids
      → stays eh force (eh.get tbl j) ≡ true
      → Mem j (kept eh force tbl ids)
  unfolding kept
  kept-Mem force tbl [] j h s = h
  kept-Mem force tbl (id ∷ ids) j (inl q) s =
      let s' : stays eh force (eh.get tbl id) ≡ true =
        subst (λ k. stays eh force (eh.get tbl k) ≡ true) q s in
      rw s' (inl q)
  kept-Mem force tbl (id ∷ ids) j (inr h) s =
      let rest = kept-Mem force tbl ids j h s in
      elim (Bool-cases (stays eh force (eh.get tbl id))) [
        | inl e ↦ rw e (inr rest)
        | inr e ↦ rw e rest
      ]

  All-kept :
      (force : Bool) (tbl : EH) (id : ℕ) (ids : List ℕ)
      → All (λ j. j ≢ id) ids
      → All (λ j. j ≢ id) (kept eh force tbl ids)
  unfolding kept
  All-kept force tbl id [] a = tt
  All-kept force tbl id (j ∷ ids) (ne, a) =
      let rest = All-kept force tbl id ids a in
      elim (Bool-cases (stays eh force (eh.get tbl j))) [
        | inl e ↦ rw e (ne, rest)
        | inr e ↦ rw e rest
      ]

  -- Those that stay have what they had.
  Dying-kept :
      (force : Bool) (tbl tbl' : EH) (ids : List ℕ)
      → ((j : ℕ) → stays eh force (eh.get tbl j) ≡ true → eh.get tbl' j ≡ eh.get tbl j)
      → Dying eh tbl ids
      → Dying eh tbl' (kept eh force tbl ids)
  unfolding Dying kept
  Dying-kept force tbl tbl' [] same d = tt
  Dying-kept force tbl tbl' (id ∷ ids) same ((e, g, dead, ty), fresh, d) =
      let rest = Dying-kept force tbl tbl' ids same d in
      elim (Bool-cases (stays eh force (eh.get tbl id))) [
        | inl s ↦ rw s ((e, same id s ∙ g, dead, ty), All-kept force tbl id ids fresh, rest)
        | inr s ↦ rw s rest
      ]

  cleaned_none :
      (tbl tbl' : EH) (force : Bool) (ids : List ℕ) (j : ℕ)
      → CleanedKey eh force tbl tbl' ids j
      → stays eh force (eh.get tbl j) ≡ true
      → eh.get tbl' j ≡ eh.get tbl j
  unfolding CleanedKey
  cleaned_none tbl tbl' force ids j (inl (gone, h, s)) t = cc (s, t)
  cleaned_none tbl tbl' force ids j (inr (same, k)) t = same

  cleaned_waits :
      (force : Bool) (m m1 : EntityMgr EH)
      → IsValid eh m
      → (j : ℕ) (e : Managed) → CleanedKey eh force m.entity_mgr m1.entity_mgr m.inactive_entities j
      → eh.get m1.entity_mgr j ≡ some e
      → (e.type < 13)
        × (is_dead e.status ≡ true → Mem j (kept eh force m.entity_mgr m.inactive_entities))
  unfolding CleanedKey
  cleaned_waits force m m1 v j e (inl (gone, h, s)) g = absurd (cc (gone, g))
  cleaned_waits force m m1 v j e (inr (same, k)) g =
      let (ty, waits) = v.waits j e (sym same ∙ g) in
      (ty, λ d. kept-Mem force m.entity_mgr m.inactive_entities j (waits d) (k (waits d)))

  -- What a cleaning that comes to its end leaves, but for the table.
  record Cleaned (force : Bool) (m m' : EntityMgr EH) : Type 0 where
    inactive : m'.inactive_entities ≡ kept eh force m.entity_mgr m.inactive_entities
    no_tmp : m'.tmp_entities ≡ []
    total : m'.stat.total ≡ without eh force m.entity_mgr m.inactive_entities m.stat.total
    keys : (j : ℕ) → CleanedKey eh force m.entity_mgr m'.entity_mgr m.inactive_entities j

  cleanup_dead_entities-Cleaned :
      (force : Bool) (m m' : EntityMgr EH)
      → m.tmp_entities ≡ []
      → Dying eh m.entity_mgr m.inactive_entities
      → cleanup_dead_entities eh force m ≡ ok m'
      → Cleaned force m m'
  unfolding cleanup_dead_entities
  cleanup_dead_entities-Cleaned force m m' empty d done =
      let start : EntityMgr EH = record m { inactive_entities = [] } in
      let (m1, got, checked) =
        bind-ok (cleanup_loop eh force m.inactive_entities start) _ m' done in
      let (_, end) = assert-ok (is_empty m1.inactive_entities) _ m' checked in
      let (tmp, ina, tot) = cleanup_loop_lem eh force m.inactive_entities start m1 d got in
      subst (Cleaned force m) (ok-inj _ m' end) (record {
        inactive = tmp ∙ ap (λ ids. ids ++ kept eh force m.entity_mgr m.inactive_entities) empty;
        no_tmp = refl;
        total = tot;
        keys = cleanup_loop-table eh force m.inactive_entities start m1 d got;
      })

  -- Cleaning keeps a state valid.
  pub cleanup_dead_entities-IsValid :
      (force : Bool) (m m' : EntityMgr EH)
      → IsValid eh m
      → cleanup_dead_entities eh force m ≡ ok m'
      → IsValid eh m'
        × ((j : ℕ) → CleanedKey eh force m.entity_mgr m'.entity_mgr m.inactive_entities j)
  cleanup_dead_entities-IsValid force m m' v done =
      let c = cleanup_dead_entities-Cleaned force m m' v.no_tmp v.dying done in
      (
        record {
          dying = subst (Dying eh m'.entity_mgr) (sym c.inactive) (
              Dying-kept force m.entity_mgr m'.entity_mgr m.inactive_entities
                (λ j s.
                  cleaned_none m.entity_mgr m'.entity_mgr force m.inactive_entities j (c.keys j) s)
                v.dying);
          no_tmp = c.no_tmp;
          waits = λ j e g.
              subst (λ ids. (e.type < 13) × (is_dead e.status ≡ true → Mem j ids)) (sym c.inactive)
                (cleaned_waits force m m' v j e (c.keys j) g);
        },
        c.keys,
      )

  -- Cleaning, where each entity that it destroys has no transaction but those it counts, and none
  -- in its input queue, fails no assertion. The dead entities that still have transactions stay in
  -- the list, in their order, unless they are forced; every other goes from the table, which is
  -- else as it was, and is counted off the total.
  pub cleanup_dead_entities_lem :
      (force : Bool) (m : EntityMgr EH)
      → m.tmp_entities ≡ []
      → Dying eh m.entity_mgr m.inactive_entities
      → Destroyable eh force m.entity_mgr m.inactive_entities
      → (m' : EntityMgr EH) × (cleanup_dead_entities eh force m ≡ ok m')
        × (m'.inactive_entities ≡ kept eh force m.entity_mgr m.inactive_entities)
        × (m'.tmp_entities ≡ [])
        × (m'.stat.total ≡ without eh force m.entity_mgr m.inactive_entities m.stat.total)
        × ((j : ℕ) → CleanedKey eh force m.entity_mgr m'.entity_mgr m.inactive_entities j)
  cleanup_dead_entities_lem force m empty d f =
      let (m', done) = cleanup_dead_entities-ok eh force m d f in
      let c = cleanup_dead_entities-Cleaned force m m' empty d done in
      (m', done, c.inactive, c.no_tmp, c.total, c.keys)

-- ===== src/EntityMgr/Clean.antt =====
-- `_cleanup_dead_entities` of src/components/sk_entity_mgr.c.
use skull.Prelude.{
  ℕ, ◌<◌, ◌≡◌, ◌≢◌, refl, subst, sym, ◌∙◌, inl, inr, Bool, true, false, not, ◌&&◌, Option, none,
  some, List, [], ◌∷◌, ◌++◌, All, append_assoc, append-nil, Bool-cases, lt→ltb, if◌then◌else◌,
  arith,
}
use skull.Prelude.Checked.{Checked, ok, assert_failed, out_of_fuel, ◌>>=◌}
use skull.Prelude.Holds.{bind-ok, ok-inj}
use skull.Prelude.Int.{ℤ, dec}
use skull.Fhash.{Fhash}
use skull.Entity.{entity_dead}
use skull.EntityMgr.{
  Managed, EntityMgr, has_tasks, update_stat, remove, cleanup_loop, step, step_at,
  sk_entity_destroy,
}

module _ {EH : Type 0} (eh : Fhash EH Managed) where
  -- Entities that wait to be destroyed: dead ones that the manager has, each once.
  unfoldable pub Dying : EH → List ℕ → Type 0
  Dying tbl [] = Unit
  Dying tbl (id ∷ ids) =
      ((e : Managed) × (eh.get tbl id ≡ some e) × (e.status ≡ entity_dead) × (e.type < 13))
      × All (λ j. j ≢ id) ids
      × Dying tbl ids

module _ {EH : Type 0} (eh : Fhash EH Managed) (force : Bool) where
  unfoldable pub stays : Option Managed → Bool
  stays none = false
  stays (some e) = has_tasks e.task_cnt && not force

  -- Those that still have transactions, where the manager does not force them.
  unfoldable pub kept : EH → List ℕ → List ℕ
  unfolding stays
  kept tbl [] = []
  kept tbl (id ∷ ids) = let rest = kept tbl ids in if stays (eh.get tbl id) then id ∷ rest else rest

  -- A counter after those that go.
  unfoldable pub without : EH → List ℕ → ℤ → ℤ
  unfolding stays
  without tbl [] n = n
  without tbl (id ∷ ids) n = without tbl ids (if stays (eh.get tbl id) then n else dec n)

  -- Another table that is the same at the entities of a list.
  unfoldable pub Agrees : EH → EH → List ℕ → Type 0
  Agrees tbl tbl' ids = All (λ j. eh.get tbl' j ≡ eh.get tbl j) ids

  pub agree-del :
      (tbl : EH) (id : ℕ) (ids : List ℕ) → All (λ j. j ≢ id) ids → Agrees tbl (eh.del tbl id).1 ids
  unfolding Agrees
  agree-del tbl id [] a = tt
  agree-del tbl id (j ∷ ids) (ne, a) = (eh.get-del_ne tbl id j ne, agree-del tbl id ids a)

  pub Dying-agree :
      (tbl tbl' : EH) (ids : List ℕ) → Agrees tbl tbl' ids → Dying eh tbl ids → Dying eh tbl' ids
  unfolding Dying Agrees
  Dying-agree tbl tbl' [] a d = tt
  Dying-agree tbl tbl' (id ∷ ids) (q, a) ((e, g, s, ty), fresh, d) =
      ((e, q ∙ g, s, ty), fresh, Dying-agree tbl tbl' ids a d)

  kept-agree : (tbl tbl' : EH) (ids : List ℕ) → Agrees tbl tbl' ids → kept tbl' ids ≡ kept tbl ids
  unfolding kept Agrees
  kept-agree tbl tbl' [] a = refl
  kept-agree tbl tbl' (id ∷ ids) (q, a) = rw (q, kept-agree tbl tbl' ids a) refl

  without-agree :
      (tbl tbl' : EH) (ids : List ℕ) (n : ℤ)
      → Agrees tbl tbl' ids
      → without tbl' ids n ≡ without tbl ids n
  unfolding without Agrees
  without-agree tbl tbl' [] n a = refl
  without-agree tbl tbl' (id ∷ ids) n (q, a) = rw q (without-agree tbl tbl' ids _ a)

  -- The manager without an entity.
  abbrev pub removed : EntityMgr EH → ℕ → Managed → EntityMgr EH
  removed m id e = record m {
    entity_mgr = (eh.del m.entity_mgr id).1;
    stat = record m.stat {
      total = step false m.stat.total;
      inactive = step false m.stat.inactive;
      of_type = step_at false e.type m.stat.of_type;
    };
  }

  remove_lem :
      (m : EntityMgr EH) (id : ℕ) (e : Managed)
      → e.type < 13
      → remove eh m id e ≡ (sk_entity_destroy e >>= λ e'. ok (removed m id e))
  unfolding remove update_stat step
  remove_lem m id e ty = rw (lt→ltb e.type 13 ty) refl

  pub loop-busy :
      (id : ℕ) (ids : List ℕ) (m : EntityMgr EH) (e : Managed)
      → eh.get m.entity_mgr id ≡ some e
      → (has_tasks e.task_cnt && not force) ≡ true
      → cleanup_loop eh force (id ∷ ids) m
        ≡ cleanup_loop eh force ids (record m { tmp_entities = m.tmp_entities ++ id ∷ [] })
  unfolding cleanup_loop
  loop-busy id ids m e g busy = ground (arith, g, busy)

  pub loop-free :
      (id : ℕ) (ids : List ℕ) (m : EntityMgr EH) (e : Managed)
      → eh.get m.entity_mgr id ≡ some e
      → e.type < 13
      → (has_tasks e.task_cnt && not force) ≡ false
      → cleanup_loop eh force (id ∷ ids) m
        ≡ (sk_entity_destroy e >>= λ e'. cleanup_loop eh force ids (removed m id e))
  unfolding cleanup_loop
  loop-free id ids m e g ty free =
      let step : cleanup_loop eh force (id ∷ ids) m
          ≡ (remove eh m id e >>= λ m'. cleanup_loop eh force ids m') =
        ground (arith, g, free) in
      step ∙ rw (remove_lem m id e ty) (freed (sk_entity_destroy e))
    where
      freed :
          (r : Checked Managed)
          → ((r >>= λ e'. ok (removed m id e)) >>= λ m'. cleanup_loop eh force ids m')
            ≡ (r >>= λ e'. cleanup_loop eh force ids (removed m id e))
      freed (ok e') = refl
      freed assert_failed = refl
      freed out_of_fuel = refl

  -- The rest of the loop that succeeded.
  pub after-free :
      (id : ℕ) (ids : List ℕ) (m m' : EntityMgr EH) (e : Managed)
      → eh.get m.entity_mgr id ≡ some e
      → e.type < 13
      → (has_tasks e.task_cnt && not force) ≡ false
      → cleanup_loop eh force (id ∷ ids) m ≡ ok m'
      → cleanup_loop eh force ids (removed m id e) ≡ ok m'
  after-free id ids m m' e g ty free done =
      (bind-ok (sk_entity_destroy e) _ m' (sym (loop-free id ids m e g ty free) ∙ done)).2

  pub cleanup_loop_lem :
      (ids : List ℕ) (m m' : EntityMgr EH)
      → Dying eh m.entity_mgr ids
      → cleanup_loop eh force ids m ≡ ok m'
      → (m'.tmp_entities ≡ m.tmp_entities ++ kept m.entity_mgr ids)
        × (m'.inactive_entities ≡ m.inactive_entities)
        × (m'.stat.total ≡ without m.entity_mgr ids m.stat.total)
  unfolding cleanup_loop kept without Dying stays step
  cleanup_loop_lem [] m m' d done =
      subst
        (λ (x : EntityMgr EH).
          (x.tmp_entities ≡ m.tmp_entities ++ [])
          × (x.inactive_entities ≡ m.inactive_entities)
          × (x.stat.total ≡ m.stat.total))
        (ok-inj m m' done) (sym (append-nil m.tmp_entities), refl, refl)
  cleanup_loop_lem (id ∷ ids) m m' ((e, g, dead, ty), fresh, d) done =
      elim (Bool-cases (has_tasks e.task_cnt && not force)) [
        | inl busy ↦
            let (tmp, ina, tot) =
              cleanup_loop_lem ids (record m { tmp_entities = m.tmp_entities ++ id ∷ [] }) m' d
                (sym (loop-busy id ids m e g busy) ∙ done) in
            (
              rw (g, busy) (tmp ∙ append_assoc m.tmp_entities (id ∷ []) (kept m.entity_mgr ids)),
              ina,
              rw (g, busy) tot,
            )
        | inr free ↦
            let m1 = removed m id e in
            let a : Agrees m.entity_mgr m1.entity_mgr ids = agree-del m.entity_mgr id ids fresh in
            let (tmp, ina, tot) =
              cleanup_loop_lem ids m1 m' (Dying-agree m.entity_mgr m1.entity_mgr ids a d)
                (after-free id ids m m' e g ty free done) in
            (
              rw (g, free) (tmp ∙ rw (kept-agree m.entity_mgr m1.entity_mgr ids a) refl),
              ina,
              rw (g, free) (tot ∙ without-agree m.entity_mgr m1.entity_mgr ids m1.stat.total a),
            )
      ]

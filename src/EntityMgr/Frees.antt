-- ===== src/EntityMgr/Frees.antt =====
-- When `_cleanup_dead_entities` of src/components/sk_entity_mgr.c comes to its end, and
-- `sk_entity_destroy` of src/entities/sk_entity.c to that of a dead entity.
use skull.Prelude.{
  ℕ, zero, suc, ◌-◌, ◌≤◌, ◌≡◌, refl, sym, ◌∙◌, inl, inr, Bool, false, not, ◌&&◌, some, List, [],
  ◌∷◌, ◌++◌, length, All, Bool-cases, arith,
}
use skull.Prelude.Checked.{ok}
use skull.Fhash.{Fhash}
use skull.Entity.{entity_dead}
use skull.EntityMgr.{
  Managed, EntityMgr, has_tasks, cleanup_loop, cleanup_dead_entities, destroy_txns,
  sk_entity_destroy,
}
use skull.EntityMgr.Clean.{
  Dying, removed, loop-busy, loop-free, Agrees, agree-del, Dying-agree, cleanup_loop_lem,
}

-- The count covers the transactions, and none waits in the input queue.
pub record CanFree (e : Managed) : Type 0 where
  pub counted : length e.txns ≤ e.task_cnt
  pub none_queued : e.iqueue ≡ []

destroy_txns_lem :
    (txns : List ℕ) (cnt : ℕ) → length txns ≤ cnt → (left : ℕ) × (destroy_txns txns cnt ≡ ok left)
unfolding destroy_txns
destroy_txns_lem [] cnt h = (cnt, refl)
destroy_txns_lem (t ∷ txns) zero h = absurd (omega (arith, h))
destroy_txns_lem (t ∷ txns) (suc cnt) h = destroy_txns_lem txns (suc cnt - 1) (omega (arith, h))

sk_entity_destroy-dead :
    (e : Managed)
    → e.status ≡ entity_dead
    → CanFree e
    → (e' : Managed) × (sk_entity_destroy e ≡ ok e')
unfolding sk_entity_destroy
sk_entity_destroy-dead e dead f =
    let (left, got) = destroy_txns_lem e.txns e.task_cnt f.counted in
    (record e { txns = []; task_cnt = left }, rw (dead, got, f.none_queued) refl)

module _ {EH : Type 0} (eh : Fhash EH Managed) where
  -- Those of a list that do not stay can be freed.
  unfoldable pub Destroyable : Bool → EH → List ℕ → Type 0
  Destroyable force tbl ids =
      All
        (λ id.
          (e : Managed)
          → eh.get tbl id ≡ some e
          → (has_tasks e.task_cnt && not force) ≡ false
          → CanFree e)
        ids

  module _ (force : Bool) where
    Destroyable-agree :
        (tbl tbl' : EH) (ids : List ℕ)
        → Agrees eh force tbl tbl' ids
        → Destroyable force tbl ids
        → Destroyable force tbl' ids
    unfolding Destroyable Agrees
    Destroyable-agree tbl tbl' [] a d = tt
    Destroyable-agree tbl tbl' (id ∷ ids) (q, a) (f, d) =
        (λ e g free. f e (sym q ∙ g) free, Destroyable-agree tbl tbl' ids a d)

    cleanup_loop-ok :
        (ids : List ℕ) (m : EntityMgr EH)
        → Dying eh m.entity_mgr ids
        → Destroyable force m.entity_mgr ids
        → (m' : EntityMgr EH) × (cleanup_loop eh force ids m ≡ ok m')
    unfolding cleanup_loop Dying Destroyable
    cleanup_loop-ok [] m d f = (m, refl)
    cleanup_loop-ok (id ∷ ids) m ((e, g, dead, ty), fresh, d) (free_e, f) =
        elim (Bool-cases (has_tasks e.task_cnt && not force)) [
          | inl busy ↦
              let (m', got) =
                cleanup_loop-ok ids (record m { tmp_entities = m.tmp_entities ++ id ∷ [] }) d f in
              (m', loop-busy eh force id ids m e g busy ∙ got)
          | inr free ↦
              let m1 = removed eh force m id e in
              let a : Agrees eh force m.entity_mgr m1.entity_mgr ids =
                agree-del eh force m.entity_mgr id ids fresh in
              let (e', freed) = sk_entity_destroy-dead e dead (free_e e g free) in
              let (m', got) =
                cleanup_loop-ok ids m1 (Dying-agree eh force m.entity_mgr m1.entity_mgr ids a d)
                  (Destroyable-agree m.entity_mgr m1.entity_mgr ids a f) in
              (m', loop-free eh force id ids m e g ty free ∙ rw freed got)
        ]

    pub cleanup_dead_entities-ok :
        (m : EntityMgr EH)
        → Dying eh m.entity_mgr m.inactive_entities
        → Destroyable force m.entity_mgr m.inactive_entities
        → (m' : EntityMgr EH) × (cleanup_dead_entities eh force m ≡ ok m')
    unfolding cleanup_dead_entities
    cleanup_dead_entities-ok m d f =
        let start : EntityMgr EH = record m { inactive_entities = [] } in
        let (m1, got) = cleanup_loop-ok m.inactive_entities start d f in
        let (tmp, ina, tot) = cleanup_loop_lem eh force m.inactive_entities start m1 d got in
        (record m1 { inactive_entities = m1.tmp_entities; tmp_entities = [] }, rw (got, ina) refl)

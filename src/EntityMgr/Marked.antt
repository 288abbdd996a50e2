-- ===== src/EntityMgr/Marked.antt =====
-- `sk_entity_mgr_del` of src/components/sk_entity_mgr.c in a valid manager.
use skull.Prelude.{
  ℕ, ◌≡◌, refl, ◌⊎◌, inl, inr, true, false, some, [], ◌∷◌, ◌++◌, Mem-append_left, Mem-snoc,
  Bool-cases, arith,
}
use skull.Prelude.Checked.{ok}
use skull.Fhash.{Fhash}
use skull.Entity.{entity_dead}
use skull.EntityMgr.{
  Managed, EntityMgr, is_dead, sk_entity_mgr_del, update_stat, sk_entity_destroy, step,
}
use skull.EntityMgr.Delete.{alive_fresh, Dying-snoc}
use skull.EntityMgr.Valid.{IsValid, set-Waits}

module _ {EH : Type 0} (eh : Fhash EH Managed) where
  -- Deleting leaves the table or marks the entity in it.
  unfoldable pub Marks : EntityMgr EH → EntityMgr EH → ℕ → Managed → Type 0
  Marks m m' id e =
      (m'.entity_mgr ≡ m.entity_mgr) × (is_dead e.status ≡ true)
      ⊎ (m'.entity_mgr ≡ eh.set m.entity_mgr id (record e { status = entity_dead; data_ = false }))

  sk_entity_mgr_del-alive :
      (m : EntityMgr EH) (id : ℕ) (e : Managed)
      → eh.get m.entity_mgr id ≡ some e
      → is_dead e.status ≡ false
      → IsValid eh m
      → (m' : EntityMgr EH) × (sk_entity_mgr_del eh m id ≡ ok m') × IsValid eh m' × Marks m m' id e
  unfolding sk_entity_mgr_del Marks update_stat sk_entity_destroy
  sk_entity_mgr_del-alive m id e g alive v =
      let gone : Managed = record e { status = entity_dead; data_ = false } in
      let (ty, waits) = v.waits id e g in
      let fresh = alive_fresh eh m.entity_mgr m.inactive_entities id e g alive v.dying in
      (
        record m {
          entity_mgr = eh.set m.entity_mgr id gone;
          inactive_entities = m.inactive_entities ++ id ∷ [];
          stat = record m.stat { inactive = step true m.stat.inactive };
        },
        ground (arith, g, alive),
        record {
          dying = Dying-snoc eh m.entity_mgr m.inactive_entities id gone fresh refl ty v.dying;
          no_tmp = v.no_tmp;
          waits =
              set-Waits eh m.entity_mgr m.inactive_entities (m.inactive_entities ++ id ∷ []) id gone
                v.waits ty (λ h. Mem-snoc id m.inactive_entities)
                (λ j h. Mem-append_left j m.inactive_entities (id ∷ []) h);
        },
        inr refl,
      )

  -- In a valid state an entity that the manager has can be deleted, once more too.
  pub sk_entity_mgr_del-IsValid :
      (m : EntityMgr EH) (id : ℕ) (e : Managed)
      → eh.get m.entity_mgr id ≡ some e
      → IsValid eh m
      → (m' : EntityMgr EH) × (sk_entity_mgr_del eh m id ≡ ok m') × IsValid eh m' × Marks m m' id e
  unfolding sk_entity_mgr_del Marks
  sk_entity_mgr_del-IsValid m id e g v = elim (Bool-cases (is_dead e.status)) [
    | inr alive ↦ sk_entity_mgr_del-alive m id e g alive v
    | inl dead ↦ (m, ground (arith, g, dead), v, inl (refl, dead))
  ]

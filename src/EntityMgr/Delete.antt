-- ===== src/EntityMgr/Delete.antt =====
-- `sk_entity_mgr_del` of src/components/sk_entity_mgr.c, the first half of the end of an entity.
use skull.Prelude.{
  ℕ, ◌<◌, ◌≡◌, ◌≢◌, refl, ap, sym, ◌∙◌, false, some, List, [], ◌∷◌, ◌++◌, All, arith,
}
use skull.Prelude.Checked.{ok}
use skull.Prelude.Int.{inc}
use skull.Fhash.{Fhash}
use skull.Entity.{entity_dead}
use skull.EntityMgr.{
  Managed, EntityMgr, is_dead, sk_entity_mgr_del, update_stat, sk_entity_destroy, step,
}
use skull.EntityMgr.Clean.{Dying}

module _ {EH : Type 0} (eh : Fhash EH Managed) where
  -- Who is not dead does not wait to be destroyed.
  pub alive_fresh :
      (tbl : EH) (ids : List ℕ) (id : ℕ) (e : Managed)
      → eh.get tbl id ≡ some e
      → is_dead e.status ≡ false
      → Dying eh tbl ids
      → All (λ j. j ≢ id) ids
  unfolding Dying
  alive_fresh tbl [] id e g alive d = tt
  alive_fresh tbl (j ∷ ids) id e g alive ((e', g', dead, ty), fresh, d) =
      (λ q. differ q, alive_fresh tbl ids id e g alive d)
    where
      differ : j ≡ id → ⊥
      differ q =
          let same_entity : some e' ≡ some e = sym g' ∙ ap (λ k. eh.get tbl k) q ∙ g in
          cc (same_entity, dead, alive)

  pub Dying-snoc :
      (tbl : EH) (ids : List ℕ) (id : ℕ) (e : Managed)
      → All (λ j. j ≢ id) ids
      → e.status ≡ entity_dead
      → e.type < 13
      → Dying eh tbl ids
      → Dying eh (eh.set tbl id e) (ids ++ id ∷ [])
  unfolding Dying
  Dying-snoc tbl [] id e a dead ty d = ((e, eh.get-set tbl id e, dead, ty), tt, tt)
  Dying-snoc tbl (j ∷ ids) id e (ne, a) dead ty ((e', g', dead', ty'), fresh, d) = (
    (e', eh.get-set_ne tbl id j e ne ∙ g', dead', ty'),
    All-snoc ids fresh (λ q. ne (sym q)),
    Dying-snoc tbl ids id e a dead ty d,
  )
    where
      All-snoc : (xs : List ℕ) → All (λ k. k ≢ j) xs → id ≢ j → All (λ k. k ≢ j) (xs ++ id ∷ [])
      All-snoc [] b n = (n, tt)
      All-snoc (x ∷ xs) (h, b) n = (h, All-snoc xs b n)

  -- Deleting an entity that is not dead fails no assertion. It is dead afterwards, its resources are
  -- released, and it waits as the last to be destroyed; it counts as inactive, and still in the
  -- total.
  pub sk_entity_mgr_del_lem :
      (m : EntityMgr EH) (id : ℕ) (e : Managed)
      → eh.get m.entity_mgr id ≡ some e
      → is_dead e.status ≡ false
      → e.type < 13
      → Dying eh m.entity_mgr m.inactive_entities
      → (m' : EntityMgr EH) × (sk_entity_mgr_del eh m id ≡ ok m')
        × (eh.get m'.entity_mgr id ≡ some (record e { status = entity_dead; data_ = false }))
        × (m'.inactive_entities ≡ m.inactive_entities ++ id ∷ [])
        × Dying eh m'.entity_mgr m'.inactive_entities
        × (m'.stat.inactive ≡ inc m.stat.inactive)
        × (m'.stat.total ≡ m.stat.total)
  unfolding sk_entity_mgr_del update_stat sk_entity_destroy step
  sk_entity_mgr_del_lem m id e g alive ty d =
      let gone : Managed = record e { status = entity_dead; data_ = false } in
      (
        record m {
          entity_mgr = eh.set m.entity_mgr id gone;
          inactive_entities = m.inactive_entities ++ id ∷ [];
          stat = record m.stat { inactive = inc m.stat.inactive };
        },
        ground (arith, g, alive),
        eh.get-set m.entity_mgr id gone,
        refl,
        Dying-snoc m.entity_mgr m.inactive_entities id gone
            (alive_fresh m.entity_mgr m.inactive_entities id e g alive d) refl ty d,
        refl,
        refl,
      )

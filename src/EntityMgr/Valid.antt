-- ===== src/EntityMgr/Valid.antt =====
-- What is valid in a manager of src/components/sk_entity_mgr.c, and its entities when they are
-- written.
use skull.Prelude.{
  ℕ, ◌<◌, ◌≡◌, ◌≢◌, refl, sym, ap, ◌∙◌, subst, ◌⊎◌, inl, inr, true, false, none, some, List, [],
  ◌∷◌, All, Mem, Bool-cases, lt→ltb, arith,
}
use skull.Prelude.Checked.{ok}
use skull.Prelude.Holds.{ok-inj}
use skull.Fhash.{Fhash}
use skull.Entity.{EntityStatus, entity_active, entity_inactive, entity_dead}
use skull.EntityMgr.{
  Managed, Stat, EntityMgr, is_dead, sk_entity_mgr_add, update_stat, step, step_at,
}
use skull.EntityMgr.Clean.{Dying, Agrees, Dying-agree}
use skull.EntityMgr.Delete.{alive_fresh}
use skull.EntityMgr.Table.{eq-or-ne}

dead_of : (s : EntityStatus) → is_dead s ≡ true → s ≡ entity_dead
dead_of entity_active h = cc
dead_of entity_inactive h = cc
dead_of entity_dead h = refl

module _ {EH : Type 0} (eh : Fhash EH Managed) where
  -- The dead entities are in the list of those to clean, each once, and nothing else is; and there
  -- are 13 types.
  pub record IsValid (m : EntityMgr EH) : Type 0 where
    pub dying : Dying eh m.entity_mgr m.inactive_entities
    pub no_tmp : m.tmp_entities ≡ []
    pub waits :
        (j : ℕ) (e : Managed)
        → eh.get m.entity_mgr j ≡ some e
        → (e.type < 13) × (is_dead e.status ≡ true → Mem j m.inactive_entities)

  pub agree-set :
      (tbl : EH) (id : ℕ) (e : Managed) (ids : List ℕ)
      → All (λ j. j ≢ id) ids
      → Agrees eh true tbl (eh.set tbl id e) ids
  unfolding Agrees
  agree-set tbl id e [] a = tt
  agree-set tbl id e (j ∷ ids) (ne, a) = (eh.get-set_ne tbl id j e ne, agree-set tbl id e ids a)

  pub absent_fresh :
      (tbl : EH) (ids : List ℕ) (id : ℕ)
      → eh.get tbl id ≡ none
      → Dying eh tbl ids
      → All (λ j. j ≢ id) ids
  unfolding Dying
  absent_fresh tbl [] id g d = tt
  absent_fresh tbl (j ∷ ids) id g ((e, g', dead, ty), fresh, d) =
      (λ q. differ e (sym g' ∙ ap (λ k. eh.get tbl k) q ∙ g), absent_fresh tbl ids id g d)
    where
      differ : (e : Managed) → some e ≡ none → ⊥
      differ e q = cc

  pub set_cases :
      (tbl : EH) (id j : ℕ) (e e' : Managed)
      → eh.get (eh.set tbl id e) j ≡ some e'
      → (j ≡ id) × (e ≡ e') ⊎ (eh.get tbl j ≡ some e')
  set_cases tbl id j e e' g = elim (eq-or-ne j id) [
    | inl q ↦
        inl (q, some-inj e e' (sym (ap (eh.get (eh.set tbl id e)) q ∙ eh.get-set tbl id e) ∙ g))
    | inr ne ↦ inr (sym (eh.get-set_ne tbl id j e ne) ∙ g)
  ]
    where
      some-inj : (e e' : Managed) → some e ≡ some e' → e ≡ e'
      some-inj e e' q = cc

  -- What the table says of an entity and the list of those that wait.
  abbrev pub Waits : EH → List ℕ → Type 0
  Waits tbl ids =
      (j : ℕ) (e : Managed)
      → eh.get tbl j ≡ some e
      → (e.type < 13) × (is_dead e.status ≡ true → Mem j ids)

  pub set-Waits :
      (tbl : EH) (ids ids' : List ℕ) (id : ℕ) (e : Managed)
      → Waits tbl ids
      → e.type < 13
      → (is_dead e.status ≡ true → Mem id ids')
      → ((j : ℕ) → Mem j ids → Mem j ids')
      → Waits (eh.set tbl id e) ids'
  set-Waits tbl ids ids' id e w ty dead more j e' g = elim (set_cases tbl id j e e' g) [
    | inl (q, same) ↦ (
      subst (λ (x : Managed). x.type < 13) same ty,
      λ h. subst (λ k. Mem k ids') (sym q) (dead (ap (λ (x : Managed). is_dead x.status) same ∙ h)),
    )
    | inr g' ↦ let (ty', h) = w j e' g' in (ty', λ k. more j (h k))
  ]

  -- An entity that is written and not dead.
  set-IsValid :
      (m : EntityMgr EH) (id : ℕ) (e : Managed)
      → IsValid m
      → All (λ j. j ≢ id) m.inactive_entities
      → is_dead e.status ≡ false
      → e.type < 13
      → IsValid (record m { entity_mgr = eh.set m.entity_mgr id e })
  set-IsValid m id e v fresh alive ty = record {
    dying =
        Dying-agree eh true m.entity_mgr (eh.set m.entity_mgr id e) m.inactive_entities
          (agree-set m.entity_mgr id e m.inactive_entities fresh) v.dying;
    no_tmp = v.no_tmp;
    waits =
        set-Waits m.entity_mgr m.inactive_entities m.inactive_entities id e v.waits ty
          (λ h. cc (alive, h)) (λ j h. h);
  }

  Dying-set :
      (tbl : EH) (ids : List ℕ) (id : ℕ) (e : Managed)
      → e.status ≡ entity_dead
      → e.type < 13
      → Dying eh tbl ids
      → Dying eh (eh.set tbl id e) ids
  unfolding Dying
  Dying-set tbl [] id e dead ty d = tt
  Dying-set tbl (j ∷ ids) id e dead ty (had, fresh, d) =
      (head (eq-or-ne j id), fresh, Dying-set tbl ids id e dead ty d)
    where
      head :
          (j ≡ id) ⊎ (j ≢ id)
          → (v : Managed) × (eh.get (eh.set tbl id e) j ≡ some v)
            × (v.status ≡ entity_dead)
            × (v.type < 13)
      head (inl q) = (e, ap (eh.get (eh.set tbl id e)) q ∙ eh.get-set tbl id e, dead, ty)
      head (inr ne) = (had.0, eh.get-set_ne tbl id j e ne ∙ had.1, had.2, had.3)

  pub worked-IsValid :
      (m : EntityMgr EH) (id : ℕ) (e e' : Managed)
      → IsValid m
      → eh.get m.entity_mgr id ≡ some e
      → e'.type ≡ e.type
      → is_dead e'.status ≡ is_dead e.status
      → IsValid (record m { entity_mgr = eh.set m.entity_mgr id e' })
  worked-IsValid m id e e' v g ty same =
      let small : e'.type < 13 = omega (arith, ty, (v.waits id e g).0) in
      elim (Bool-cases (is_dead e.status)) [
        | inr alive ↦
            set-IsValid m id e' v
              (alive_fresh eh m.entity_mgr m.inactive_entities id e g alive v.dying) (same ∙ alive)
              small
        | inl dead ↦ record {
          dying =
              Dying-set m.entity_mgr m.inactive_entities id e' (dead_of e'.status (same ∙ dead))
                small v.dying;
          no_tmp = v.no_tmp;
          waits =
              set-Waits m.entity_mgr m.inactive_entities m.inactive_entities id e' v.waits small
                (λ h. (v.waits id e g).1 dead) (λ j h. h);
        }
      ]

  pub add-ok :
      (m m' : EntityMgr EH) (id : ℕ) (e : Managed)
      → e.type < 13
      → sk_entity_mgr_add eh m id e ≡ ok m'
      → (st : Stat) × (record m {
        entity_mgr = eh.set m.entity_mgr id (record e { owned = true });
        stat = st;
      }
          ≡ m')
  unfolding sk_entity_mgr_add update_stat
  add-ok m m' id e ty done = elim (Bool-cases e.owned) [
    | inl owned ↦ cc (owned, done)
    | inr free ↦
        let st : Stat = record m.stat {
          total = step true m.stat.total;
          of_type = step_at true e.type m.stat.of_type;
        } in
        let next : EntityMgr EH = record m {
          entity_mgr = eh.set m.entity_mgr id (record e { owned = true });
          stat = st;
        } in
        let returns : sk_entity_mgr_add eh m id e ≡ ok next = rw (free, lt→ltb e.type 13 ty) refl in
        (st, ok-inj next m' (sym returns ∙ done))
  ]

  pub added-IsValid :
      (m m' : EntityMgr EH) (id : ℕ) (e : Managed)
      → IsValid m
      → eh.get m.entity_mgr id ≡ none
      → is_dead e.status ≡ false
      → e.type < 13
      → sk_entity_mgr_add eh m id e ≡ ok m'
      → IsValid m'
  added-IsValid m m' id e v g alive ty done =
      let (st, same) = add-ok m m' id e ty done in
      subst IsValid same (
        set-IsValid (record m { stat = st }) id (record e { owned = true })
          (record { dying = v.dying; no_tmp = v.no_tmp; waits = v.waits })
          (absent_fresh m.entity_mgr m.inactive_entities id g v.dying) alive ty)

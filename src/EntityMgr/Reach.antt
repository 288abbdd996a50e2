-- ===== src/EntityMgr/Reach.antt =====
-- The states that a manager of src/components/sk_entity_mgr.c comes to.
use skull.Prelude.{
  ℕ, ◌<◌, ◌≡◌, refl, sym, ◌∙◌, subst, inl, inr, Bool, false, none, some, Option-cases, arith,
}
use skull.Prelude.Checked.{ok, assert_failed}
use skull.Prelude.Holds.{ok-inj}
use skull.Fhash.{Fhash}
use skull.EntityMgr.{
  Managed, EntityMgr, is_dead, sk_entity_mgr_create, sk_entity_mgr_add, sk_entity_mgr_setsched,
  sk_entity_mgr_del, cleanup_dead_entities,
}
use skull.EntityMgr.Clean.{Dying}
use skull.EntityMgr.Valid.{IsValid, added-IsValid, worked-IsValid}
use skull.EntityMgr.Marked.{sk_entity_mgr_del-IsValid}
use skull.EntityMgr.Cleaned.{cleanup_dead_entities-IsValid}

module _ {EH : Type 0} (eh : Fhash EH Managed) where
  -- What happens to a manager; `worked` is what others do with an entity, who do not kill it.
  pub data Reachable : EntityMgr EH → Type 0 where
    created : Reachable (sk_entity_mgr_create eh)
    added :
        {m m' : EntityMgr EH} (id : ℕ) (e : Managed)
        → Reachable m
        → eh.get m.entity_mgr id ≡ none
        → is_dead e.status ≡ false
        → e.type < 13
        → sk_entity_mgr_add eh m id e ≡ ok m'
        → Reachable m'
    worked :
        {m : EntityMgr EH} (id : ℕ) (e e' : Managed)
        → Reachable m
        → eh.get m.entity_mgr id ≡ some e
        → e'.type ≡ e.type
        → is_dead e'.status ≡ is_dead e.status
        → Reachable (record m { entity_mgr = eh.set m.entity_mgr id e' })
    deleted :
        {m m' : EntityMgr EH} (id : ℕ)
        → Reachable m
        → sk_entity_mgr_del eh m id ≡ ok m'
        → Reachable m'
    scheduled :
        {m m' : EntityMgr EH} (owner_sched : ℕ)
        → Reachable m
        → sk_entity_mgr_setsched eh m owner_sched ≡ ok m'
        → Reachable m'
    cleaned :
        {m m' : EntityMgr EH} (force : Bool)
        → Reachable m
        → cleanup_dead_entities eh force m ≡ ok m'
        → Reachable m'

  create-IsValid : IsValid eh (sk_entity_mgr_create eh)
  unfolding sk_entity_mgr_create Dying
  create-IsValid = record {
    dying = tt;
    no_tmp = refl;
    waits = λ j e g. absurd (cc (g, eh.get-create j));
  }

  del_missing :
      (m : EntityMgr EH) (id : ℕ)
      → eh.get m.entity_mgr id ≡ none
      → sk_entity_mgr_del eh m id ≡ assert_failed
  unfolding sk_entity_mgr_del
  del_missing m id g = ground (arith, g)

  deleted-IsValid :
      (m m' : EntityMgr EH) (id : ℕ)
      → IsValid eh m
      → sk_entity_mgr_del eh m id ≡ ok m'
      → IsValid eh m'
  deleted-IsValid m m' id v done = elim (Option-cases (eh.get m.entity_mgr id)) [
    | inl g ↦ absurd (cc (del_missing m id g, done))
    | inr found ↦
        let (m1, returns, w, marks) = sk_entity_mgr_del-IsValid eh m id found.0 found.1 v in
        subst (IsValid eh) (ok-inj m1 m' (sym returns ∙ done)) w
  ]

  setsched-ok :
      (m m' : EntityMgr EH) (owner_sched : ℕ)
      → sk_entity_mgr_setsched eh m owner_sched ≡ ok m'
      → record m { owner_sched = some owner_sched } ≡ m'
  unfolding sk_entity_mgr_setsched
  setsched-ok m m' owner_sched done = ground (arith, done)

  -- In every state that a manager comes to, its dead entities are exactly those that wait to be
  -- cleaned, each once, and none is left behind in the other list.
  pub reached-IsValid : {m : EntityMgr EH} → Reachable m → IsValid eh m
  reached-IsValid created = create-IsValid
  reached-IsValid (added {m} {m'} id e r g alive ty done) =
      added-IsValid eh m m' id e (reached-IsValid r) g alive ty done
  reached-IsValid (worked {m} id e e' r g ty same) =
      worked-IsValid eh m id e e' (reached-IsValid r) g ty same
  reached-IsValid (deleted {m} {m'} id r done) = deleted-IsValid m m' id (reached-IsValid r) done
  reached-IsValid (scheduled {m} {m'} owner_sched r done) =
      let v = reached-IsValid r in
      subst (IsValid eh) (setsched-ok m m' owner_sched done)
        (record { dying = v.dying; no_tmp = v.no_tmp; waits = v.waits })
  reached-IsValid (cleaned {m} {m'} force r done) =
      (cleanup_dead_entities-IsValid eh force m m' (reached-IsValid r) done).0

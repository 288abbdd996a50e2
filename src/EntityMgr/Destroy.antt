-- ===== src/EntityMgr/Destroy.antt =====
-- `sk_entity_mgr_destroy` of src/components/sk_entity_mgr.c.
use skull.Prelude.{
  ℕ, ◌≡◌, refl, subst, sym, ap, ◌∙◌, ◌⊎◌, inl, inr, true, false, Option, none, some, List, [], ◌∷◌,
  All, Mem, Option-cases, arith,
}
use skull.Prelude.Checked.{ok}
use skull.Fhash.{Fhash}
use skull.Entity.{entity_dead}
use skull.EntityMgr.{
  Managed, EntityMgr, is_dead, mark_dead, sk_entity_mgr_foreach, sk_entity_mgr_destroy,
}
use skull.EntityMgr.Clean.{Dying, stays}
use skull.EntityMgr.Table.{eq-or-ne, CleanedKey}
use skull.EntityMgr.Valid.{set_cases, IsValid}
use skull.EntityMgr.Marked.{Marks, sk_entity_mgr_del-IsValid}
use skull.EntityMgr.Frees.{CanFree, Destroyable, cleanup_dead_entities-ok}
use skull.EntityMgr.Cleaned.{cleanup_dead_entities-IsValid}
use skull.EntityMgr.Reach.{Reachable, reached-IsValid}

module _ {EH : Type 0} (eh : Fhash EH Managed) where
  abbrev pub Has : EH → ℕ → Type 0
  Has tbl id = (e : Managed) × (eh.get tbl id ≡ some e)

  abbrev IsDead : EH → ℕ → Type 0
  IsDead tbl id = (e : Managed) → eh.get tbl id ≡ some e → is_dead e.status ≡ true

  -- Each entity can be freed.
  abbrev pub AllFree : EH → Type 0
  AllFree tbl = (j : ℕ) (e : Managed) → eh.get tbl j ≡ some e → CanFree e

  -- What marking keeps: keys, that an entity is dead, and that each can be freed.
  record Keeps (tbl tbl' : EH) : Type 0 where
    has : (j : ℕ) → Has tbl j → Has tbl' j
    missing : (j : ℕ) → eh.get tbl j ≡ none → eh.get tbl' j ≡ none
    dead : (j : ℕ) → IsDead tbl j → IsDead tbl' j
    free : AllFree tbl → AllFree tbl'

  Keeps-refl : (tbl : EH) → Keeps tbl tbl
  Keeps-refl tbl = record { has = λ j h. h; missing = λ j g. g; dead = λ j d. d; free = λ f. f }

  Keeps-trans : (a b c : EH) → Keeps a b → Keeps b c → Keeps a c
  Keeps-trans a b c k l = record {
    has = λ j h. l.has j (k.has j h);
    missing = λ j g. l.missing j (k.missing j g);
    dead = λ j d. l.dead j (k.dead j d);
    free = λ f. l.free (k.free f);
  }

  Keeps-set :
      (tbl : EH) (id : ℕ) (e v : Managed)
      → eh.get tbl id ≡ some e
      → is_dead v.status ≡ true
      → (CanFree e → CanFree v)
      → Keeps tbl (eh.set tbl id v)
  Keeps-set tbl id e v g dead_v free_v = record {
    has = λ j h. elim (eq-or-ne j id) [
      | inl q ↦ (v, ap (eh.get (eh.set tbl id v)) q ∙ eh.get-set tbl id v)
      | inr ne ↦ (h.0, eh.get-set_ne tbl id j v ne ∙ h.1)
    ];
    missing = λ j n. elim (eq-or-ne j id) [
      | inl q ↦ absurd (present e (sym g ∙ sym (ap (eh.get tbl) q) ∙ n))
      | inr ne ↦ eh.get-set_ne tbl id j v ne ∙ n
    ];
    dead = λ j d e' h. elim (set_cases eh tbl id j v e' h) [
      | inl (q, same) ↦ ap (λ (x : Managed). is_dead x.status) (sym same) ∙ dead_v
      | inr g' ↦ d e' g'
    ];
    free = λ f j e' h. elim (set_cases eh tbl id j v e' h) [
      | inl (q, same) ↦ subst CanFree same (free_v (f id e g))
      | inr g' ↦ f j e' g'
    ];
  }
    where
      present : (e : Managed) → some e ≡ none → ⊥
      present e q = cc

  marked_lem :
      (m m' : EntityMgr EH) (id : ℕ) (e : Managed)
      → eh.get m.entity_mgr id ≡ some e
      → Marks eh m m' id e
      → Keeps m.entity_mgr m'.entity_mgr × IsDead m'.entity_mgr id
  unfolding Marks
  marked_lem m m' id e g (inl (same, dead)) =
      subst (λ t. Keeps m.entity_mgr t × IsDead t id) (sym same)
        (Keeps-refl m.entity_mgr, λ e' g'. ap is_dead (same_status e e' (sym g ∙ g')) ∙ dead)
    where
      same_status : (e e' : Managed) → some e ≡ some e' → e'.status ≡ e.status
      same_status e e' q = cc
  marked_lem m m' id e g (inr set) =
      let gone : Managed = record e { status = entity_dead; data_ = false } in
      subst (λ t. Keeps m.entity_mgr t × IsDead t id) (sym set)
        (
          Keeps-set m.entity_mgr id e gone g refl
              (λ f. record { counted = f.counted; none_queued = f.none_queued }),
          λ e' g'. same_dead gone e' (sym (eh.get-set m.entity_mgr id gone) ∙ g') refl,
        )
    where
      same_dead :
          (v e' : Managed) → some v ≡ some e' → is_dead v.status ≡ true → is_dead e'.status ≡ true
      same_dead v e' q d = cc

  All-Has : (a b : EH) (ids : List ℕ) → Keeps a b → All (Has a) ids → All (Has b) ids
  All-Has a b [] k h = tt
  All-Has a b (id ∷ ids) k h = (k.has id h.0, All-Has a b ids k h.1)

  foreach-mark_dead :
      (ids : List ℕ) (m : EntityMgr EH)
      → IsValid eh m
      → All (Has m.entity_mgr) ids
      → (m' : EntityMgr EH) × (sk_entity_mgr_foreach eh (mark_dead eh) ids m ≡ ok m')
        × IsValid eh m'
        × Keeps m.entity_mgr m'.entity_mgr
        × All (IsDead m'.entity_mgr) ids
  unfolding sk_entity_mgr_foreach mark_dead
  foreach-mark_dead [] m v h = (m, refl, v, Keeps-refl m.entity_mgr, tt)
  foreach-mark_dead (id ∷ ids) m v h =
      let (e, g) = h.0 in
      let (m1, returns, v1, marks) = sk_entity_mgr_del-IsValid eh m id e g v in
      let (k1, dead1) = marked_lem m m1 id e g marks in
      let (m', rest, v', k, dead) =
        foreach-mark_dead ids m1 v1 (All-Has m.entity_mgr m1.entity_mgr ids k1 h.1) in
      (
        m',
        rw returns rest,
        v',
        Keeps-trans m.entity_mgr m1.entity_mgr m'.entity_mgr k1 k,
        (k.dead id dead1, dead),
      )

  stays-force : (o : Option Managed) → stays eh true o ≡ false
  unfolding stays
  stays-force none = refl
  stays-force (some e) = ground arith

  -- A key whose entity waits is cleaned by force.
  forced_gone :
      (tbl tbl' : EH) (ids : List ℕ) (j : ℕ)
      → CleanedKey eh true tbl tbl' ids j
      → (eh.get tbl j ≡ none) ⊎ Mem j ids
      → eh.get tbl' j ≡ none
  unfolding CleanedKey
  forced_gone tbl tbl' ids j (inl (gone, h, s)) w = gone
  forced_gone tbl tbl' ids j (inr (same, k)) (inl n) = same ∙ n
  forced_gone tbl tbl' ids j (inr (same, k)) (inr h) = absurd (cc (stays-force (eh.get tbl j), k h))

  All-Mem : (tbl : EH) (ids : List ℕ) (j : ℕ) → All (IsDead tbl) ids → Mem j ids → IsDead tbl j
  All-Mem tbl [] j a h = absurd h
  All-Mem tbl (id ∷ ids) j a (inl q) = subst (IsDead tbl) (sym q) a.0
  All-Mem tbl (id ∷ ids) j a (inr h) = All-Mem tbl ids j a.1 h

  none_waits :
      (tbl : EH) (ids : List ℕ) → ((j : ℕ) → eh.get tbl j ≡ none) → Dying eh tbl ids → ids ≡ []
  unfolding Dying
  none_waits tbl [] gone d = refl
  none_waits tbl (id ∷ ids) gone ((e, g, dead, ty), fresh, d) = absurd (cc (g, gone id))

  -- After the marking each key is missing or waits.
  missing_or_waits :
      (m m1 : EntityMgr EH) (ids : List ℕ)
      → IsValid eh m1
      → Keeps m.entity_mgr m1.entity_mgr
      → All (IsDead m1.entity_mgr) ids
      → ((j : ℕ) → Has m.entity_mgr j → Mem j ids)
      → (j : ℕ) → (eh.get m1.entity_mgr j ≡ none) ⊎ Mem j m1.inactive_entities
  missing_or_waits m m1 ids v k dead all_of j = elim (Option-cases (eh.get m.entity_mgr j)) [
    | inl n ↦ inl (k.missing j n)
    | inr had ↦
        let (e, g) = k.has j had in
        inr ((v.waits j e g).1 (All-Mem m1.entity_mgr ids j dead (all_of j had) e g))
  ]

  AllFree-Destroyable : (tbl : EH) (ids : List ℕ) → AllFree tbl → Destroyable eh true tbl ids
  unfolding Destroyable
  AllFree-Destroyable tbl [] f = tt
  AllFree-Destroyable tbl (id ∷ ids) f = (λ e g s. f id e g, AllFree-Destroyable tbl ids f)

  -- Every state that a manager comes to can be destroyed, where each of its entities has no
  -- transaction but those it counts, and none in its input queue, and where the table gives each of
  -- its entities, and nothing else: no assertion fails, and no entity is left in the table or in a
  -- list.
  pub sk_entity_mgr_destroy_lem :
      {m : EntityMgr EH} (ids : List ℕ)
      → Reachable eh m
      → AllFree m.entity_mgr
      → All (Has m.entity_mgr) ids
      → ((j : ℕ) → Has m.entity_mgr j → Mem j ids)
      → (m' : EntityMgr EH) × (sk_entity_mgr_destroy eh ids m ≡ ok m')
        × ((j : ℕ) → eh.get m'.entity_mgr j ≡ none)
        × (m'.inactive_entities ≡ [])
        × (m'.tmp_entities ≡ [])
  unfolding sk_entity_mgr_destroy
  sk_entity_mgr_destroy_lem {m} ids r free has all_of =
      let (m1, marked, v1, k, dead) = foreach-mark_dead ids m (reached-IsValid eh r) has in
      let (m', cleaned) =
        cleanup_dead_entities-ok eh true m1 v1.dying
          (AllFree-Destroyable m1.entity_mgr m1.inactive_entities (k.free free)) in
      let (v', keys) = cleanup_dead_entities-IsValid eh true m1 m' v1 cleaned in
      let gone : (j : ℕ) → eh.get m'.entity_mgr j ≡ none = λ j.
        forced_gone m1.entity_mgr m'.entity_mgr m1.inactive_entities j (keys j)
          (missing_or_waits m m1 ids v1 k dead all_of j) in
      (
        m',
        rw marked cleaned,
        gone,
        none_waits m'.entity_mgr m'.inactive_entities gone v'.dying,
        v'.no_tmp,
      )

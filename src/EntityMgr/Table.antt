-- ===== src/EntityMgr/Table.antt =====
-- What `_cleanup_dead_entities` of src/components/sk_entity_mgr.c leaves in the table.
use skull.Prelude.{
  ℕ, ◌≡◌, ◌≢◌, refl, sym, ap, ◌∙◌, ◌⊎◌, inl, inr, Bool, true, false, not, ◌&&◌, none, some, List,
  [], ◌∷◌, ◌++◌, Mem, Bool-cases, ◌==◌, arith,
}
use skull.Prelude.Checked.{ok}
use skull.Prelude.Holds.{ok-inj}
use skull.Fhash.{Fhash}
use skull.EntityMgr.{Managed, EntityMgr, has_tasks, cleanup_loop}
use skull.EntityMgr.Clean.{
  Dying, stays, removed, loop-busy, after-free, Agrees, agree-del, Dying-agree,
}

pub eq-or-ne : (j k : ℕ) → (j ≡ k) ⊎ (j ≢ k)
eq-or-ne j k = elim (Bool-cases (j == k)) [
  | inl e ↦ inl (ground (arith, e))
  | inr e ↦ inr (ground (arith, e))
]

module _ {EH : Type 0} (eh : Fhash EH Managed) (force : Bool) where
  -- Each key is gone, as one that was cleaned, or has what it had, as one that was not or stays.
  unfoldable pub CleanedKey : EH → EH → List ℕ → ℕ → Type 0
  CleanedKey tbl tbl' ids j =
      (eh.get tbl' j ≡ none) × Mem j ids × (stays eh force (eh.get tbl j) ≡ false)
      ⊎ (eh.get tbl' j ≡ eh.get tbl j) × (Mem j ids → stays eh force (eh.get tbl j) ≡ true)

  at_first :
      (id j : ℕ) (m : EntityMgr EH) (v : Managed) {b : Bool}
      → j ≡ id
      → eh.get m.entity_mgr id ≡ some v
      → (has_tasks v.task_cnt && not force) ≡ b
      → stays eh force (eh.get m.entity_mgr j) ≡ b
  unfolding stays
  at_first id j m v q g s = rw (q, g) s

  kept_first :
      (id : ℕ) (ids : List ℕ) (m m' : EntityMgr EH) (j : ℕ)
      → (j ≡ id → stays eh force (eh.get m.entity_mgr j) ≡ true)
      → CleanedKey m.entity_mgr m'.entity_mgr ids j
      → CleanedKey m.entity_mgr m'.entity_mgr (id ∷ ids) j
  unfolding CleanedKey
  kept_first id ids m m' j s (inl (gone, h, c)) = inl (gone, inr h, c)
  kept_first id ids m m' j s (inr (same, k)) =
      inr (same, λ h. elim h [ inl q ↦ s q | inr h' ↦ k h' ])

  other :
      (id : ℕ) (m m1 : EntityMgr EH) (j : ℕ)
      → m1.entity_mgr ≡ (eh.del m.entity_mgr id).1
      → j ≢ id
      → eh.get m1.entity_mgr j ≡ eh.get m.entity_mgr j
  other id m m1 j t ne = rw t (eh.get-del_ne m.entity_mgr id j ne)

  gone_first :
      (id : ℕ) (ids : List ℕ) (m m1 m' : EntityMgr EH) (j : ℕ)
      → (j ≡ id → stays eh force (eh.get m.entity_mgr j) ≡ false)
      → m1.entity_mgr ≡ (eh.del m.entity_mgr id).1
      → CleanedKey m1.entity_mgr m'.entity_mgr ids j
      → (j ≡ id) ⊎ (j ≢ id)
      → CleanedKey m.entity_mgr m'.entity_mgr (id ∷ ids) j
  unfolding CleanedKey
  gone_first id ids m m1 m' j s t (inl (gone, h, c)) (inl q) = inl (gone, inl q, s q)
  gone_first id ids m m1 m' j s t (inr (same, k)) (inl q) =
      inl (same ∙ rw (q, t) (eh.get-del m.entity_mgr id), inl q, s q)
  gone_first id ids m m1 m' j s t (inl (gone, h, c)) (inr ne) =
      inl (gone, inr h, ap (stays eh force) (sym (other id m m1 j t ne)) ∙ c)
  gone_first id ids m m1 m' j s t (inr (same, k)) (inr ne) = inr (
    same ∙ other id m m1 j t ne,
    λ h. elim h [
      | inl q ↦ absurd (ne q)
      | inr h' ↦ ap (stays eh force) (sym (other id m m1 j t ne)) ∙ k h'
    ],
  )

  pub cleanup_loop-table :
      (ids : List ℕ) (m m' : EntityMgr EH)
      → Dying eh m.entity_mgr ids
      → cleanup_loop eh force ids m ≡ ok m'
      → (j : ℕ) → CleanedKey m.entity_mgr m'.entity_mgr ids j
  unfolding cleanup_loop Dying stays CleanedKey
  cleanup_loop-table [] m m' d e j =
      inr (ap (λ n. eh.get n.entity_mgr j) (sym (ok-inj m m' e)), λ h. absurd h)
  cleanup_loop-table (id ∷ ids) m m' ((v, g, dead, ty), fresh, d) e j =
      elim (Bool-cases (has_tasks v.task_cnt && not force)) [
        | inl busy ↦
            let next : EntityMgr EH = record m { tmp_entities = m.tmp_entities ++ id ∷ [] } in
            let rest =
              cleanup_loop-table ids next m' d (sym (loop-busy eh force id ids m v g busy) ∙ e) j in
            kept_first id ids m m' j (λ q. at_first id j m v q g busy) rest
        | inr free ↦
            let m1 = removed eh force m id v in
            let a : Agrees eh force m.entity_mgr m1.entity_mgr ids =
              agree-del eh force m.entity_mgr id ids fresh in
            let rest =
              cleanup_loop-table ids m1 m' (Dying-agree eh force m.entity_mgr m1.entity_mgr ids a d)
                (after-free eh force id ids m m' v g ty free e) j in
            gone_first id ids m m1 m' j (λ q. at_first id j m v q g free) refl rest (eq-or-ne j id)
      ]

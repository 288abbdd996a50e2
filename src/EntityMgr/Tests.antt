-- ===== src/EntityMgr/Tests.antt =====
-- The theorems of src/components/sk_entity_mgr.c at a manager of three entities.
use skull.Prelude.{
  All, Mem, none, ℕ, ◌≡◌, refl, subst, inl, inr, true, false, List, [], ◌∷◌, length, arith,
}
use skull.Prelude.Checked.{ok}
use skull.Prelude.Int.{pos, dec}
use skull.Fhash.{Fhash}
use skull.Fhash.Model.{Table, function_fhash}
use skull.Entity.{entity_active, entity_dead}
use skull.EntityMgr.{
  Managed, EntityMgr, sk_entity_mgr_create, sk_entity_mgr_add, sk_entity_mgr_del,
  cleanup_dead_entities, sk_entity_mgr_destroy,
}
use skull.EntityMgr.Valid.{set_cases, IsValid}
use skull.EntityMgr.Reach.{Reachable, created, added, deleted, reached-IsValid}
use skull.EntityMgr.Destroy.{Has, AllFree, sk_entity_mgr_destroy_lem}
use skull.EntityMgr.Clean.{Dying, kept, without}
use skull.EntityMgr.Table.{CleanedKey}
use skull.EntityMgr.Frees.{CanFree, Destroyable}
use skull.EntityMgr.Cleaned.{cleanup_dead_entities_lem}

abbrev eh : Fhash (Table Managed) Managed
eh = function_fhash

abbrev dead : ℕ → Managed
dead cnt = record {
  type = 2;
  status = entity_dead;
  task_cnt = cnt;
  txns = [];
  iqueue = [];
  owned = true;
  data_ = false;
}

abbrev alive : Managed
alive = record {
  type = 3;
  status = entity_active;
  task_cnt = 1;
  txns = 5 ∷ [];
  iqueue = 6 ∷ [];
  owned = true;
  data_ = true;
}

-- Of the two dead entities the second still has a transaction.
abbrev three : EntityMgr (Table Managed)
three = record {
  entity_mgr = eh.set (eh.set (eh.set eh.create 1 (dead 0)) 2 (dead 1)) 3 alive;
  inactive_entities = 1 ∷ 2 ∷ [];
  tmp_entities = [];
  owner_sched = none;
  stat = record { total = pos 3; inactive = pos 2; of_type = λ t. pos 3 };
}

three-Dying : Dying eh three.entity_mgr three.inactive_entities
unfolding Dying
three-Dying = (
  (dead 0, refl, refl, omega arith),
  (omega arith, tt),
  ((dead 1, refl, refl, omega arith), tt, tt),
)

empty-CanFree : (e : Managed) → e.txns ≡ [] → e.iqueue ≡ [] → CanFree e
empty-CanFree e t q = record { counted = rw t (omega arith); none_queued = q }

three-Destroyable : Destroyable eh false three.entity_mgr three.inactive_entities
unfolding Destroyable
three-Destroyable = (
  λ e g f. empty-CanFree e (ground (arith, g)) (ground (arith, g)),
  (λ e g f. empty-CanFree e (ground (arith, g)) (ground (arith, g)), tt),
)

cleanup_dead_entities_lem_example :
    (m' : EntityMgr (Table Managed)) × (cleanup_dead_entities eh false three ≡ ok m')
    × (m'.inactive_entities ≡ 2 ∷ [])
    × (m'.tmp_entities ≡ [])
    × (m'.stat.total ≡ pos 2)
    × ((j : ℕ) → CleanedKey eh false three.entity_mgr m'.entity_mgr (1 ∷ 2 ∷ []) j)
unfolding kept without dec
cleanup_dead_entities_lem_example =
    cleanup_dead_entities_lem eh false three refl three-Dying three-Destroyable

abbrev young : List ℕ → Managed
young txns = record {
  type = 2;
  status = entity_active;
  task_cnt = length txns;
  txns = txns;
  iqueue = [];
  owned = false;
  data_ = true;
}

set-AllFree :
    (tbl : Table Managed) (id : ℕ) (v : Managed)
    → AllFree eh tbl
    → CanFree v
    → AllFree eh (eh.set tbl id v)
set-AllFree tbl id v f c j e g = elim (set_cases eh tbl id j v e g) [
  | inl (q, same) ↦ subst CanFree same c
  | inr g' ↦ f j e g'
]

-- Two entities, of which the second has a transaction and the first was deleted.
one_of_two :
    (m : EntityMgr (Table Managed)) × Reachable eh m
    × All (Has eh m.entity_mgr) (1 ∷ 2 ∷ [])
    × ((j : ℕ) → Has eh m.entity_mgr j → Mem j (1 ∷ 2 ∷ []))
    × AllFree eh m.entity_mgr
unfolding sk_entity_mgr_create sk_entity_mgr_add sk_entity_mgr_del
one_of_two = (
  _,
  deleted 1
      (added 2 (young (7 ∷ [])) (added 1 (young []) created refl refl (omega arith) refl) refl refl
        (omega arith) refl)
      refl,
  ((_, refl), ((_, refl), tt)),
  λ j h. ground (arith, h.1),
  λ j e g.
      set-AllFree _ 1 _
        (set-AllFree _ 2 _
          (set-AllFree eh.create 1 _ (λ i x h. absurd (cc (h, eh.get-create i)))
            (record { counted = omega arith; none_queued = refl }))
          (record { counted = omega arith; none_queued = refl }))
        (record { counted = omega arith; none_queued = refl }) j e g,
)

reached-IsValid_example : IsValid eh one_of_two.0
reached-IsValid_example = reached-IsValid eh one_of_two.1

sk_entity_mgr_destroy_lem_example :
    (m' : EntityMgr (Table Managed)) × (sk_entity_mgr_destroy eh (1 ∷ 2 ∷ []) one_of_two.0 ≡ ok m')
    × ((j : ℕ) → eh.get m'.entity_mgr j ≡ none)
    × (m'.inactive_entities ≡ [])
    × (m'.tmp_entities ≡ [])
sk_entity_mgr_destroy_lem_example =
    sk_entity_mgr_destroy_lem eh (1 ∷ 2 ∷ []) one_of_two.1 one_of_two.4 one_of_two.2 one_of_two.3

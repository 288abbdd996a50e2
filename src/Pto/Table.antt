-- ===== src/Pto/Table.antt =====
-- The entries of the table of protocols in src/pto/sk_pto.c.
use skull.Prelude.{
  ℕ, zero, suc, ◌+◌, ◌≤◌, ◌<◌, ◌≡◌, refl, subst, subst₂, Bool, true, false, ◌&&◌, some, List, [],
  ◌∷◌, ltb, leb, ◌==◌, arith,
}
use skull.Prelude.Index.{get_elem?}
use skull.Pto.{Proto, sk_pto_tbl}

-- An entry stands at the index that is its id, and its numbers are small.
pub record IsEntry (id : ℕ) (p : Proto) : Type 0 where
  pub here : p.id ≡ id
  pub small : id < 12
  pub few : p.argc < 256
  pub salted : 0 < p.salt
  pub salt_le : p.salt ≤ 21

abbrev test_entry : ℕ → Proto → Bool
test_entry id p = (p.id == id) && ltb id 12 && ltb p.argc 256 && ltb 0 p.salt && leb p.salt 21

abbrev test_entries : ℕ → List Proto → Bool
test_entries id [] = true
test_entries id (p ∷ ps) = let rest = test_entries (suc id) ps in test_entry id p && rest

test_entry-IsEntry : (id : ℕ) (p : Proto) → test_entry id p ≡ true → IsEntry id p
test_entry-IsEntry id p h = record {
  here = ground (arith, h);
  small = ground (arith, h);
  few = ground (arith, h);
  salted = ground (arith, h);
  salt_le = ground (arith, h);
}

first : (a b : Bool) → (a && b) ≡ true → a ≡ true
first true b h = refl
first false b h = cc

rest : (a b : Bool) → (a && b) ≡ true → b ≡ true
rest true b h = h
rest false b h = cc

IsEntry-at :
    (k : ℕ) (ps : List Proto) (i : ℕ) (p : Proto)
    → test_entries k ps ≡ true
    → get_elem? ps i ≡ some p
    → IsEntry (k + i) p
IsEntry-at k [] i p h e = cc
IsEntry-at k (q ∷ ps) zero p h e =
    let same : q ≡ p = cc in
    subst₂ IsEntry (omega arith) same (test_entry-IsEntry k q (first (test_entry k q) _ h))
IsEntry-at k (q ∷ ps) (suc i) p h e =
    subst (λ n. IsEntry n p) (omega arith) (IsEntry-at (suc k) ps i p (rest (test_entry k q) _ h) e)

pub entry : (id : ℕ) (p : Proto) → get_elem? sk_pto_tbl id ≡ some p → IsEntry id p
entry id p e = subst (λ n. IsEntry n p) (omega arith) (IsEntry-at 0 sk_pto_tbl id p refl e)

-- ===== src/Fhash.antt =====
-- `fhash` of the library flibs with keys of 64 bits, a hash table that is not part of this
-- repository.
pub mod Model
use skull.Prelude.{ℕ, ◌≡◌, ◌≢◌, Option, none, some}

pub record Fhash (H V : Type 0) : Type 0 where
  pub create : H
  pub get : H → ℕ → Option V
  pub set : H → ℕ → V → H
  -- What stood at the key, and the table without it.
  pub del : H → ℕ → Option V × H
  pub get-create : (k : ℕ) → get create k ≡ none
  pub get-set : (h : H) (k : ℕ) (v : V) → get (set h k v) k ≡ some v
  pub get-set_ne : (h : H) (k j : ℕ) (v : V) → j ≢ k → get (set h k v) j ≡ get h j
  pub del-get : (h : H) (k : ℕ) → (del h k).0 ≡ get h k
  pub get-del : (h : H) (k : ℕ) → get (del h k).1 k ≡ none
  pub get-del_ne : (h : H) (k j : ℕ) → j ≢ k → get (del h k).1 j ≡ get h j

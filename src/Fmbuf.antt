-- ===== src/Fmbuf.antt =====
-- `fmbuf` of the library flibs, a ring buffer of bytes that is not part of this repository. The
-- code moves whole elements through it, messages of one size or lines of text, so the interface
-- speaks of elements; those that are popped have one size.
pub mod Model
use skull.Prelude.{ℕ, ◌+◌, ◌*◌, ◌≤◌, ◌<◌, ◌≡◌, Option, none, some, List, [], ◌∷◌, ◌++◌, length}

-- `contents` are the elements pushed and not popped yet, oldest first.
pub record Fmbuf (B E : Type 0) : Type 0 where
  pub create : ℕ → B
  pub size : B → ℕ
  pub used : B → ℕ
  -- `none` is the return value 1: there is no room.
  pub push : B → E → ℕ → Option B
  -- `none` is the return value 1: fewer bytes than asked for.
  pub pop : B → ℕ → Option (E × B)
  pub rawget : B → ℕ → Option E
  pub realloc : B → ℕ → B
  pub contents : B → List E
  pub create_lem :
      (n : ℕ) → (size (create n) ≡ n) × (used (create n) ≡ 0) × (contents (create n) ≡ [])
  pub used-le-size : (b : B) → used b ≤ size b
  pub push-fits :
      (b : B) (e : E) (sz : ℕ)
      → used b + sz ≤ size b
      → (b' : B) × (push b e sz ≡ some b')
        × (contents b' ≡ contents b ++ e ∷ [])
        × (used b' ≡ used b + sz)
        × (size b' ≡ size b)
  pub push-full : (b : B) (e : E) (sz : ℕ) → size b < used b + sz → push b e sz ≡ none
  pub pop-cons :
      (b : B) (sz : ℕ) (e : E) (es : List E)
      → used b ≡ sz * length (contents b)
      → contents b ≡ e ∷ es
      → (b' : B) × (pop b sz ≡ some (e, b'))
        × (contents b' ≡ es)
        × (used b' + sz ≡ used b)
        × (size b' ≡ size b)
  pub pop-nil : (b : B) (sz : ℕ) → used b < sz → pop b sz ≡ none
  pub rawget-cons :
      (b : B) (sz : ℕ) (e : E) (es : List E)
      → used b ≡ sz * length (contents b)
      → contents b ≡ e ∷ es
      → rawget b sz ≡ some e
  pub rawget-nil : (b : B) (sz : ℕ) → used b < sz → rawget b sz ≡ none
  pub realloc_lem :
      (b : B) (n : ℕ)
      → used b ≤ n
      → (contents (realloc b n) ≡ contents b)
        × (used (realloc b n) ≡ used b)
        × (size (realloc b n) ≡ n)

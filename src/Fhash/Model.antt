-- ===== src/Fhash/Model.antt =====
-- A table that meets the interface: the function that looks a key up.
use skull.Prelude.{ℕ, ◌≡◌, ◌≢◌, refl, Option, none, some, ◌==◌, if◌then◌else◌, arith}
use skull.Fhash.{Fhash}

abbrev pub Table : Type 0 → Type 0
Table V = ℕ → Option V

module _ {V : Type 0} where
  abbrev pub put : Table V → ℕ → Option V → Table V
  put h k v j = if j == k then v else h j

  pub put_eq : (h : Table V) (k : ℕ) (v : Option V) → put h k v k ≡ v
  put_eq h k v = ground arith

  pub put_ne : (h : Table V) (k j : ℕ) (v : Option V) → j ≢ k → put h k v j ≡ h j
  put_ne h k j v ne = ground arith

  abbrev pub function_fhash : Fhash (Table V) V
  function_fhash = record {
    create = λ k. none;
    get = λ h k. h k;
    set = λ h k v. put h k (some v);
    del = λ h k. (h k, put h k none);
    get-create = λ k. refl;
    get-set = λ h k v. put_eq h k (some v);
    get-set_ne = λ h k j v ne. put_ne h k j (some v) ne;
    del-get = λ h k. refl;
    get-del = λ h k. put_eq h k none;
    get-del_ne = λ h k j ne. put_ne h k j none ne;
  }

-- ===== src/Config/Order.antt =====
-- The order in which the hash table gives the entries of the root does not matter.
use Prim.Native.String.{String}
use skull.Prelude.{◌≡◌, ◌≢◌, refl, sym, ap, ◌∙◌, inl, inr}
use skull.Config.{ok, ◌>>=◌, CfgNode, mapping, CfgMapping, end, entry, SkConfig, Flibs}
use skull.Config.Load.{unknown, key_of, load_entry, load_entries, load_config}
use skull.Config.Outcome.{bind-ok, ok-inj}
use skull.Config.Keys.{key_of-inj}
use skull.Config.Fields.{load_entry_comm, Key-discrete}

-- The same entries in another order, by exchanges of neighbours with different keys.
pub data Reordered : CfgMapping → CfgMapping → Type 0 where
  done : Reordered end end
  skip :
      {es fs : CfgMapping} (k : String) (n : CfgNode)
      → Reordered es fs
      → Reordered (entry k n es) (entry k n fs)
  exchange :
      (k : String) (n : CfgNode) (j : String) (p : CfgNode) (es : CfgMapping)
      → k ≢ j
      → Reordered (entry k n (entry j p es)) (entry j p (entry k n es))
  chain : {es fs gs : CfgMapping} → Reordered es fs → Reordered fs gs → Reordered es gs

module _ (o : Flibs) where
  -- Of entries with different texts, known or not.
  exchange_entries :
      (k j : String) (n p : CfgNode) (c d e : SkConfig)
      → k ≢ j
      → load_entry o (key_of k) n c ≡ ok d
      → load_entry o (key_of j) p d ≡ ok e
      → (d' : SkConfig) × (load_entry o (key_of j) p c ≡ ok d')
        × (load_entry o (key_of k) n d' ≡ ok e)
  exchange_entries k j n p c d e differ first second = elim (Key-discrete (key_of k) (key_of j)) [
    | no other ↦ load_entry_comm o (key_of k) (key_of j) n p c d e other first second
    | yes same ↦ elim (key_of-inj k j same) [
      | inr h ↦ absurd (differ h)
      | inl nothing ↦ unknown_entries nothing (sym same ∙ nothing)
    ]
  ]
    where
      passed_over :
          (i : String) (m : CfgNode) (a : SkConfig)
          → key_of i ≡ unknown
          → load_entry o (key_of i) m a ≡ ok a
      passed_over i m a h = ap (λ q. load_entry o q m a) h ∙ unfold load_entry in refl

      unknown_entries :
          key_of k ≡ unknown
          → key_of j ≡ unknown
          → (d' : SkConfig) × (load_entry o (key_of j) p c ≡ ok d')
            × (load_entry o (key_of k) n d' ≡ ok e)
      unknown_entries h h' =
          let at_d : c ≡ d = ok-inj _ _ (sym (passed_over k n c h) ∙ first) in
          let at_e : d ≡ e = ok-inj _ _ (sym (passed_over j p d h') ∙ second) in
          (c, passed_over j p c h', passed_over k n c h ∙ ap ok (at_d ∙ at_e))

  load_entries-Reordered :
      (es fs : CfgMapping) (c d : SkConfig)
      → Reordered es fs
      → load_entries o es c ≡ ok d
      → load_entries o fs c ≡ ok d
  unfolding load_entries
  load_entries-Reordered _ _ c d done e = e
  load_entries-Reordered _ _ c d (skip {es} {fs} k n r) e =
      let (c', first, rest) =
        bind-ok (load_entry o (key_of k) n c) (λ c'. load_entries o es c') d e in
      ap (λ m. m >>= λ c'. load_entries o fs c') first ∙ load_entries-Reordered es fs c' d r rest
  load_entries-Reordered _ _ c d (exchange k n j p es differ) e =
      let (c', first, rest) =
        bind-ok (load_entry o (key_of k) n c) (λ c'. load_entries o (entry j p es) c') d e in
      let (c'', second, last) =
        bind-ok (load_entry o (key_of j) p c') (λ c'. load_entries o es c') d rest in
      let (b, before, after) = exchange_entries k j n p c c' c'' differ first second in
      ap (λ m. m >>= λ c'. load_entries o (entry k n es) c') before
      ∙ ap (λ m. m >>= λ c'. load_entries o es c') after
      ∙ last
  load_entries-Reordered _ _ c d (chain {es} {fs} {gs} r r') e =
      load_entries-Reordered fs gs c d r' (load_entries-Reordered es fs c d r e)

  -- A configuration that loads with the entries of its root in one order loads with them in any
  -- other, and is the same.
  pub load_config-Reordered :
      (es fs : CfgMapping) (c d : SkConfig)
      → Reordered es fs
      → load_config o (mapping es) c ≡ ok d
      → load_config o (mapping fs) c ≡ ok d
  unfolding load_config
  load_config-Reordered es fs c d r e = load_entries-Reordered es fs c d r e

-- ===== src/Core/Unique.antt =====
-- Each module runs in one workflow: the first that names it.
use skull.Prelude.{
  ◌≡◌, ◌≢◌, refl, sym, ap, ◌∙◌, Bool, true, false, List, [], ◌∷◌, ◌++◌, append_assoc, append-nil,
  map, Bool-cases, inl, inr, if◌then◌else◌, arith,
}
use mathlib.Core.List.{map-append}
use skull.Config.{Bytes, ok, exited, ModuleCfg, WorkflowCfg}
use skull.Config.Outcome.{bind-ok, ok-inj}
use skull.Config.Values.{bytes_eq}
use skull.Core.Workflows.{
  SkWorkflow, DriverType, driver_type, is_unique_module, Flows, setup_modules, setup_workflows,
}

bytes_eq-eq : (a b : Bytes) → bytes_eq a b ≡ true → a ≡ b
unfolding bytes_eq
bytes_eq-eq [] [] h = refl
bytes_eq-eq [] (d ∷ ds) h = cc
bytes_eq-eq (c ∷ cs) [] h = cc
bytes_eq-eq (c ∷ cs) (d ∷ ds) h = ground (arith, bytes_eq-eq cs ds)

bytes_eq_refl : (a : Bytes) → bytes_eq a a ≡ true
unfolding bytes_eq
bytes_eq_refl [] = refl
bytes_eq_refl (c ∷ cs) = ground (arith, bytes_eq_refl cs)

-- The modules with names that are not among some, or are not one name.
abbrev unseen : List ModuleCfg → List ModuleCfg → List ModuleCfg
unseen us [] = []
unseen us (m ∷ ms) = if is_unique_module us m.name then unseen us ms else m ∷ unseen us ms

abbrev pub without : Bytes → List ModuleCfg → List ModuleCfg
without name [] = []
without name (m ∷ ms) = if bytes_eq name m.name then without name ms else m ∷ without name ms

-- The modules of a list without those that have the name of an earlier one.
abbrev pub firsts : List ModuleCfg → List ModuleCfg
firsts [] = []
firsts (m ∷ ms) = m ∷ without m.name (firsts ms)

-- The names that are seen do not come up again.
unseen-without_seen :
    (us : List ModuleCfg) (name : Bytes) (ms : List ModuleCfg)
    → is_unique_module us name ≡ true
    → unseen us (without name ms) ≡ unseen us ms
unseen-without_seen us name [] h = refl
unseen-without_seen us name (m ∷ ms) h = elim (Bool-cases (bytes_eq name m.name)) [
  | inl e ↦
      let seen : is_unique_module us m.name ≡ true =
        ap (is_unique_module us) (sym (bytes_eq-eq name m.name e)) ∙ h in
      rw e (rw seen (unseen-without_seen us name ms h))
  | inr n ↦ rw n (ground (arith, unseen-without_seen us name ms h))
]

unseen-without :
    (us : List ModuleCfg) (u : ModuleCfg) (ms : List ModuleCfg)
    → unseen us (without u.name ms) ≡ unseen (u ∷ us) ms
unfolding is_unique_module
unseen-without us u [] = refl
unseen-without us u (m ∷ ms) = ground (arith, unseen-without us u ms)

firsts-seen :
    (us : List ModuleCfg) (m : ModuleCfg) (ms : List ModuleCfg)
    → is_unique_module us m.name ≡ true
    → unseen us (firsts (m ∷ ms)) ≡ unseen us (firsts ms)
firsts-seen us m ms h = rw h (unseen-without_seen us m.name (firsts ms) h)

firsts-new :
    (us : List ModuleCfg) (m : ModuleCfg) (ms : List ModuleCfg)
    → is_unique_module us m.name ≡ false
    → unseen us (firsts (m ∷ ms)) ≡ m ∷ unseen (m ∷ us) (firsts ms)
firsts-new us m ms h = rw h (ap (λ l. m ∷ l) (unseen-without us m (firsts ms)))

-- The modules of all workflows, in order.
abbrev pub all_modules : List SkWorkflow → List ModuleCfg
all_modules [] = []
all_modules (w ∷ ws) = w.modules ++ all_modules ws

abbrev pub configured : List WorkflowCfg → List ModuleCfg
configured [] = []
configured (w ∷ ws) = w.modules ++ configured ws

-- The lists of flibs, where a push puts an entry at the end.
module _ (push : (A : Type 0) → List A → A → List A) (load : ModuleCfg → Bool)
    (push-append : (A : Type 0) (xs : List A) (x : A) → push A xs x ≡ xs ++ x ∷ []) where
  -- What a workflow is given, and what is left for those behind it.
  setup_modules-unseen :
      (ms added unique : List ModuleCfg) (r : List ModuleCfg × List ModuleCfg)
      → setup_modules push load ms (added, unique) ≡ ok r
      → (r.0 ≡ added ++ unseen unique (firsts ms))
        × ((ns : List ModuleCfg)
            → unseen unique (firsts (ms ++ ns))
              ≡ unseen unique (firsts ms) ++ unseen r.1 (firsts ns))
  unfolding setup_modules
  setup_modules-unseen [] added unique r e =
      let same = ok-inj (added, unique) r e in
      (
        sym (ap (λ q. q.0) same) ∙ sym (append-nil added),
        λ ns. ap (λ q. unseen q.1 (firsts ns)) same,
      )
  setup_modules-unseen (m ∷ ms) added unique r e =
      elim (Bool-cases (is_unique_module unique m.name)) [
        | inl seen ↦
            let (here, behind) =
              setup_modules-unseen ms added unique r (rw (seen, setup_modules) at e) in
            (
              here ∙ ap (λ l. added ++ l) (sym (firsts-seen unique m ms seen)),
              λ ns.
                  firsts-seen unique m (ms ++ ns) seen
                  ∙ behind ns
                  ∙ ap (λ l. l ++ unseen r.1 (firsts ns)) (sym (firsts-seen unique m ms seen)),
            )
        | inr new ↦ elim (Bool-cases (load m)) [
          | inl loaded ↦
              let (here, behind) =
                setup_modules-unseen ms (push ModuleCfg added m) (m ∷ unique) r
                  (rw loaded at (rw (new, setup_modules) at e)) in
              (
                here
                    ∙ ap (λ l. l ++ unseen (m ∷ unique) (firsts ms)) (push-append ModuleCfg added m)
                    ∙ append_assoc added (m ∷ []) (unseen (m ∷ unique) (firsts ms))
                    ∙ ap (λ l. added ++ l) (sym (firsts-new unique m ms new)),
                λ ns.
                    firsts-new unique m (ms ++ ns) new
                    ∙ ap (λ l. m ∷ l) (behind ns)
                    ∙ ap (λ l. l ++ unseen r.1 (firsts ns)) (sym (firsts-new unique m ms new)),
              )
          | inr failed ↦ absurd (exited-ne (rw failed at (rw (new, setup_modules) at e)))
        ]
      ]
    where
      exited-ne : exited ≢ ok r
      exited-ne h = cc

  all_modules-append :
      (vs : List SkWorkflow) (w : SkWorkflow)
      → all_modules (vs ++ w ∷ []) ≡ all_modules vs ++ w.modules
  all_modules-append [] w = append-nil w.modules
  all_modules-append (v ∷ vs) w =
      ap (λ l. v.modules ++ l) (all_modules-append vs w)
      ∙ sym (append_assoc v.modules (all_modules vs) w.modules)

  setup_workflows-unseen :
      (ws : List WorkflowCfg) (f g : Flows)
      → setup_workflows push load ws f ≡ ok g
      → all_modules g.workflows
        ≡ all_modules f.workflows ++ unseen f.unique_modules (firsts (configured ws))
  unfolding setup_workflows
  setup_workflows-unseen [] f g e =
      ap (λ h. all_modules h.workflows) (sym (ok-inj f g e))
      ∙ sym (append-nil (all_modules f.workflows))
  setup_workflows-unseen (w ∷ ws) f g e =
      let (r, first, rest) =
        bind-ok (setup_modules push load w.modules ([], f.unique_modules)) _ g e in
      let (here, behind) = setup_modules-unseen w.modules [] f.unique_modules r first in
      setup_workflows-unseen ws _ g rest
      ∙ ap (λ vs. all_modules vs ++ unseen r.1 (firsts (configured ws)))
          (push-append SkWorkflow f.workflows (record { cfg = w; modules = r.0 }))
      ∙ ap (λ l. l ++ unseen r.1 (firsts (configured ws)))
          (all_modules-append f.workflows (record { cfg = w; modules = r.0 }))
      ∙ append_assoc (all_modules f.workflows) r.0 (unseen r.1 (firsts (configured ws)))
      ∙ ap (λ l. all_modules f.workflows ++ (l ++ unseen r.1 (firsts (configured ws)))) here
      ∙ ap (λ l. all_modules f.workflows ++ l) (sym (behind (configured ws)))

  -- Each configuration has its workflow and its driver, in order.
  setup_workflows-map :
      (ws : List WorkflowCfg) (f g : Flows)
      → setup_workflows push load ws f ≡ ok g
      → (map SkWorkflow.cfg g.workflows ≡ map SkWorkflow.cfg f.workflows ++ ws)
        × (g.drivers ≡ f.drivers ++ map driver_type ws)
  unfolding setup_workflows
  setup_workflows-map [] f g e =
      let same = ok-inj f g e in
      (
        ap (λ h. map SkWorkflow.cfg h.workflows) (sym same) ∙ sym (append-nil _),
        ap (λ h. h.drivers) (sym same) ∙ sym (append-nil f.drivers),
      )
  setup_workflows-map (w ∷ ws) f g e =
      let (r, first, rest) =
        bind-ok (setup_modules push load w.modules ([], f.unique_modules)) _ g e in
      let (cfgs, drivers) = setup_workflows-map ws _ g rest in
      (
        cfgs
            ∙ ap (λ vs. map SkWorkflow.cfg vs ++ ws)
                (push-append SkWorkflow f.workflows (record { cfg = w; modules = r.0 }))
            ∙ ap (λ l. l ++ ws)
                (map-append SkWorkflow.cfg f.workflows (record { cfg = w; modules = r.0 } ∷ []))
            ∙ append_assoc (map SkWorkflow.cfg f.workflows) (w ∷ []) ws,
        drivers
            ∙ ap (λ l. l ++ map driver_type ws) (push-append DriverType f.drivers (driver_type w))
            ∙ append_assoc f.drivers (driver_type w ∷ []) (map driver_type ws),
      )

unseen-nil : (ms : List ModuleCfg) → unseen [] ms ≡ ms
unfolding is_unique_module
unseen-nil [] = refl
unseen-nil (m ∷ ms) = ap (λ l. m ∷ l) (unseen-nil ms)

-- Before the first workflow, with the drivers there are.
abbrev pub no_flows : List DriverType → Flows
no_flows drivers = record { workflows = []; drivers = drivers; unique_modules = [] }

-- Where setting up the workflows returns, and a push of flibs puts an entry at the end, there is a
-- workflow and a further driver for each configuration, in order, and the modules of all workflows
-- are those configured without those that have the name of an earlier one: a workflow has no module
-- whose name came before, in an earlier workflow or in its own.
pub setup_workflows-firsts :
    (push : (A : Type 0) → List A → A → List A) (load : ModuleCfg → Bool)
    → ((A : Type 0) (xs : List A) (x : A) → push A xs x ≡ xs ++ x ∷ [])
    → (ws : List WorkflowCfg) (drivers : List DriverType) (g : Flows)
    → setup_workflows push load ws (no_flows drivers) ≡ ok g
    → (map SkWorkflow.cfg g.workflows ≡ ws)
      × (g.drivers ≡ drivers ++ map driver_type ws)
      × (all_modules g.workflows ≡ firsts (configured ws))
setup_workflows-firsts push load push-append ws drivers g e =
    let (cfgs, added) = setup_workflows-map push load push-append ws (no_flows drivers) g e in
    (
      cfgs,
      added,
      setup_workflows-unseen push load push-append ws (no_flows drivers) g e
          ∙ unseen-nil (firsts (configured ws)),
    )

-- ===== src/Config/Ports.antt =====
-- What the loading of workflows leaves: valid ports, and one workflow at most that reads the standard
-- input.
use Prim.Native.String.{String}
use skull.Prelude.{
  ◌||◌, ℕ, ◌+◌, ◌≤◌, ◌≡◌, refl, sym, ap, subst, ◌∙◌, ◌⊎◌, inl, inr, Bool, true, false, not, List,
  [], ◌∷◌, ◌++◌, All, All-append, All-append_left, All-append_right, Bool-cases, arith,
}
use skull.Prelude.Int.{ℤ}
use skull.EpPool.Count.{IsPush}
use skull.Config.{
  ok, assert_failed, ◌>>=◌, sk_assert, CfgNode, value, array, mapping, CfgArray, nil, cons,
  CfgMapping, end, entry, WorkflowCfg, Flibs, no_port, create_workflow_cfg,
}
use skull.Config.Values.{sk_config_getint, sk_config_getstring, low_bit, is_pos, is_port}
use skull.Config.Workflows.{
  ◌is◌, load_modules, load_sock_type, load_port, load_workflow_entry, load_workflow_entries,
  load_workflow_items, load_workflow,
}
use skull.Config.Outcome.{assert-ok, ok-inj, Gives, Gives-if, Gives-bind, Gives-ok}

abbrev pub LawfulFlibs : Flibs → Type 0
LawfulFlibs o = IsPush o.push_module × IsPush o.push_workflow

-- A workflow listens at a port of TCP or UDP, or at none.
abbrev pub PortIsValid : WorkflowCfg → Type 0
PortIsValid w = (is_port w.port ≡ true) ⊎ (w.port ≡ no_port)

abbrev pub one_if : Bool → ℕ
one_if true = 1
one_if false = 0

-- How many workflows read the standard input.
abbrev pub stdins : List WorkflowCfg → ℕ
stdins [] = 0
stdins (w ∷ ws) = one_if w.enable_stdin + stdins ws

stdins-append : (vs ws : List WorkflowCfg) → stdins (vs ++ ws) ≡ stdins vs + stdins ws
stdins-append [] ws = omega arith
stdins-append (v ∷ vs) ws = omega (arith, stdins-append vs ws)

module _ (o : Flibs) (law : IsPush o.push_workflow) where
  stdins-push :
      (ws : List WorkflowCfg) (w : WorkflowCfg)
      → stdins (o.push_workflow ws w) ≡ one_if w.enable_stdin + stdins ws
  stdins-push ws w =
      let (before, behind, split, pushed) = law ws w in
      ap stdins pushed
      ∙ omega
          (arith, stdins-append before (w ∷ behind), stdins-append before behind, ap stdins split)

  All-push :
      (P : WorkflowCfg → Type 0) (ws : List WorkflowCfg) (w : WorkflowCfg)
      → All P ws
      → P w
      → All P (o.push_workflow ws w)
  All-push P ws w all h =
      let (before, behind, split, pushed) = law ws w in
      let parts = subst (All P) split all in
      subst (All P) (sym pushed) (
        All-append P before (w ∷ behind) (All-append_left P before behind parts)
          (h, All-append_right P before behind parts))

-- What an entry of a workflow leaves: a valid port, and standard input enabled exactly where it is
-- noted, unless it was noted before.
record EntryIsValid (before : Bool) (r : WorkflowCfg × Bool) : Type 0 where
  port_valid : PortIsValid r.0
  counted : one_if r.0.enable_stdin + one_if before ≡ one_if r.1

load_port-valid :
    (port : ℤ) (w w' : WorkflowCfg)
    → load_port port w ≡ ok w'
    → PortIsValid w
    → PortIsValid w' × (w.enable_stdin ≡ w'.enable_stdin)
unfolding load_port
load_port-valid port w w' e v = elim (Bool-cases (is_pos port)) [
  | inr h ↦
      let same = ok-inj w w' (sym (rw h refl) ∙ e) in
      (subst PortIsValid same v, ap (λ u. u.enable_stdin) same)
  | inl h ↦
      let (inside, same) =
        assert-ok (is_port port) (ok (record w { port = port })) w' (sym (rw h refl) ∙ e) in
      let set_port = ok-inj (record w { port = port }) w' same in
      (subst PortIsValid set_port (inl inside), ap (λ u. u.enable_stdin) set_port)
]

module _ (o : Flibs) where
  load_modules-same :
      (n : CfgNode) (w w' : WorkflowCfg)
      → load_modules o n w ≡ ok w'
      → (w.port ≡ w'.port) × (w.enable_stdin ≡ w'.enable_stdin)
  unfolding load_modules
  load_modules-same n w w' e = ground arith

module _ (o : Flibs) (before : Bool) (w : WorkflowCfg) (enabled : Bool)
    (v : EntryIsValid before (w, enabled)) where
  abbrev Kept : WorkflowCfg → Type 0
  Kept w' = EntryIsValid before (w', enabled)

  kept : (w' : WorkflowCfg) → w.port ≡ w'.port → w.enable_stdin ≡ w'.enable_stdin → Kept w'
  kept w' p s = record {
    port_valid = ground (arith, v.port_valid, p);
    counted = ground (arith, v.counted, s);
  }

  kept_port : (w' : WorkflowCfg) → PortIsValid w' → w.enable_stdin ≡ w'.enable_stdin → Kept w'
  kept_port w' p s = record { port_valid = p; counted = ground (arith, v.counted, s) }

  abbrev P : WorkflowCfg × Bool → Type 0
  P = EntryIsValid before

  stdin-IsValid :
      (b : Bool) → Gives P (sk_assert (not enabled) >>= λ _. ok (record w { enable_stdin = b }, b))
  stdin-IsValid b r e =
      let (off, same) = assert-ok (not enabled) (ok (record w { enable_stdin = b }, b)) r e in
      subst P (ok-inj (record w { enable_stdin = b }, b) r same)
        (record { port_valid = v.port_valid; counted = ground (arith, v.counted, off) })

  load_workflow_entry-IsValid :
      (key : String) (n : CfgNode)
      → Gives (EntryIsValid before) (load_workflow_entry o key n (w, enabled))
  unfolding load_workflow_entry
  load_workflow_entry-IsValid key n =
      Gives-if P (key is "modules") _ _
        (Gives-bind P (load_modules o n w) _
          (λ w' e. Gives-ok P _ (let (p, s) = load_modules-same o n w w' e in kept w' p s)))
        (Gives-if P (key is "idl") _ _
          (Gives-bind P (sk_config_getstring n) _ (λ s e. Gives-ok P _ (kept _ refl refl)))
          (Gives-if P (key is "concurrency" || key is "concurrent") _ _
            (Gives-bind P (sk_config_getint n) _ (λ i e. Gives-ok P _ (kept _ refl refl)))
            (Gives-if P (key is "port") _ _
              (Gives-bind P (sk_config_getint n) _ (λ port e.
                Gives-bind P (load_port port w) _ (λ w' e'.
                  Gives-ok P _
                    (let (p, s) = load_port-valid port w w' e' v.port_valid in kept_port w' p s))))
              (Gives-if P (key is "stdin") _ _
                (Gives-bind P (sk_config_getint n) _ (λ i e. stdin-IsValid (low_bit i)))
                (Gives-if P (key is "bind") _ _
                  (Gives-bind P (sk_config_getstring n) _ (λ s e. Gives-ok P _ (kept _ refl refl)))
                  (Gives-if P (key is "timeout") _ _
                    (Gives-bind P (sk_config_getint n) _ (λ i e. Gives-ok P _ (kept _ refl refl)))
                    (Gives-if P (key is "sock_type") _ _
                      (Gives-bind P (sk_config_getstring n) _ (λ s e.
                        Gives-bind P (load_sock_type s) _
                          (λ t e'. Gives-ok P _ (kept _ refl refl))))
                      (Gives-ok P _ v))))))))

module _ (o : Flibs) where
  load_workflow_entries-IsValid :
      (before : Bool) (es : CfgMapping) (r : WorkflowCfg × Bool)
      → EntryIsValid before r
      → Gives (EntryIsValid before) (load_workflow_entries o es r)
  unfolding load_workflow_entries
  load_workflow_entries-IsValid before end r v = Gives-ok (EntryIsValid before) r v
  load_workflow_entries-IsValid before (entry key n es) (w, enabled) v =
      Gives-bind (EntryIsValid before) (load_workflow_entry o key n (w, enabled)) _ (λ r e.
        load_workflow_entries-IsValid before es r
          (load_workflow_entry-IsValid o before w enabled v key n r e))

  module _ (law : IsPush o.push_workflow) where
    load_workflow_items-IsValid :
        (ns : CfgArray) (enabled : Bool) (ws : List WorkflowCfg)
        → All PortIsValid ws
        → stdins ws ≡ one_if enabled
        → Gives
            (λ ws'. All PortIsValid ws' × (stdins ws' ≤ 1))
            (load_workflow_items o ns enabled ws)
    unfolding load_workflow_items
    load_workflow_items-IsValid nil enabled ws ports count =
        Gives-ok (λ ws'. All PortIsValid ws' × (stdins ws' ≤ 1)) ws (ports, ground (arith, count))
    load_workflow_items-IsValid (cons (value v) ns) enabled ws ports count = λ ws' e. cc
    load_workflow_items-IsValid (cons (array es) ns) enabled ws ports count = λ ws' e. cc
    load_workflow_items-IsValid (cons (mapping es) ns) enabled ws ports count =
        Gives-bind _ (load_workflow_entries o es (create_workflow_cfg, enabled)) _ (λ r e.
          let v =
            load_workflow_entries-IsValid enabled es (create_workflow_cfg, enabled)
              (record { port_valid = inr refl; counted = omega arith }) r e in
          load_workflow_items-IsValid ns r.1 (o.push_workflow ws r.0)
            (All-push o law PortIsValid ws r.0 ports v.port_valid)
            (omega (arith, stdins-push o law ws r.0, count, v.counted)))

    -- From an empty list of workflows.
    pub load_workflow-IsValid :
        (n : CfgNode) → Gives (λ ws. All PortIsValid ws × (stdins ws ≤ 1)) (load_workflow o n [])
    unfolding load_workflow
    load_workflow-IsValid (array ns) = load_workflow_items-IsValid ns false [] tt refl
    load_workflow-IsValid (value v) =
        Gives-ok (λ ws. All PortIsValid ws × (stdins ws ≤ 1)) [] (tt, omega arith)
    load_workflow-IsValid (mapping es) =
        Gives-ok (λ ws. All PortIsValid ws × (stdins ws ≤ 1)) [] (tt, omega arith)

  -- Once a workflow reads the standard input, an entry `stdin` of a later one fails the assertion,
  -- also where it says 0.
  pub stdin-after_stdin :
      (n : CfgNode) (i : ℤ) (w : WorkflowCfg)
      → sk_config_getint n ≡ ok i
      → load_workflow_entry o "stdin" n (w, true) ≡ assert_failed
  unfolding load_workflow_entry
  stdin-after_stdin n i w e = rw e

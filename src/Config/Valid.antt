-- ===== src/Config/Valid.antt =====
-- What holds of every configuration that loads.
use Prim.Native.String.{String}
use skull.Prelude.{
  ◌≤◌, ◌≡◌, ◌≢◌, refl, sym, ap, subst, ◌∙◌, ◌⊎◌, inl, inr, Bool-cases, Bool, true, Option, none,
  some, List, [], All, arith,
}
use skull.Prelude.Int.{ℤ}
use skull.EpPool.Count.{IsPush}
use skull.Config.{
  Bytes, Loaded, ok, assert_failed, ◌>>=◌, sk_assert, CfgNode, value, array, mapping, CfgMapping,
  end, entry, WorkflowCfg, SkConfig, Flibs, create_config, c_string,
}
use skull.Config.Values.{sk_config_getint, is_pos, is_nonneg, is_port}
use skull.Config.Workflows.{load_workflow}
use skull.Config.Load.{
  Key, worker_threads, workflows, services, bg_iothreads, command_port, unknown, key_of, load_entry,
  load_entries, load_config, validate_logname, check_string, check_logname, post_load, load_root,
  read_location, sk_config_create,
}
use skull.Config.Outcome.{bind-ok, assert-ok, ok-inj}
use skull.Config.Keys.{key_of-inj, IsFresh, IsDistinct}
use skull.Config.Ports.{PortIsValid, stdins, load_workflow-IsValid}
use skull.Config.Services.{QsizesAreInt, Sets, load_services-IsInt}
use skull.Config.Fields.{Field, get, put, get-put, checked, read_field, load_entry-ok, Key-discrete}

abbrev pub WorkflowsAreValid : List WorkflowCfg → Type 0
WorkflowsAreValid ws = All PortIsValid ws × (stdins ws ≤ 1)

-- An array with a name that `_validate_logname` admits.
abbrev pub LogName : Bytes → Type 0
LogName name = (s : Bytes) × (c_string name ≡ some s) × (validate_logname s ≡ true)

pub record IsValid (c : SkConfig) : Type 0 where
  pub threads_pos : is_pos c.threads ≡ true
  pub bios : is_nonneg c.bio_cnt ≡ true
  pub command : is_port c.command_port ≡ true
  pub flows : WorkflowsAreValid c.workflows
  pub queues : QsizesAreInt c.services

checked-ok : (test : ℤ → Bool) (n : CfgNode) (i : ℤ) → checked test n ≡ ok i → test i ≡ true
checked-ok test n i e =
    let (j, read, rest) =
      bind-ok (sk_config_getint n) (λ j. sk_assert (test j) >>= λ _. ok j) i e in
    let (passed, same) = assert-ok (test j) (ok j) i rest in
    subst (λ k. test k ≡ true) (ok-inj j i same) passed

module _ (o : Flibs) (law : IsPush o.push_workflow) (set_law : Sets o.set_service) where
  put-IsValid :
      (k : Key) (n : CfgNode) (c : SkConfig) (v : Field k)
      → (k ≡ workflows → c.workflows ≡ [])
      → read_field o k n (get k c) ≡ ok v
      → IsValid c
      → IsValid (put k v c)
  put-IsValid worker_threads n c v empty e h = record {
    threads_pos = checked-ok is_pos n v e;
    bios = h.bios;
    command = h.command;
    flows = h.flows;
    queues = h.queues;
  }
  put-IsValid workflows n c v empty e h = record {
    threads_pos = h.threads_pos;
    bios = h.bios;
    command = h.command;
    flows = load_workflow-IsValid o law n v (ap (load_workflow o n) (sym (empty refl)) ∙ e);
    queues = h.queues;
  }
  put-IsValid bg_iothreads (value s) c v empty e h = record {
    threads_pos = h.threads_pos;
    bios = checked-ok is_nonneg (value s) v e;
    command = h.command;
    flows = h.flows;
    queues = h.queues;
  }
  put-IsValid bg_iothreads (array ns) c v empty e h = record {
    threads_pos = h.threads_pos;
    bios = subst (λ i. is_nonneg i ≡ true) (ok-inj _ _ e) h.bios;
    command = h.command;
    flows = h.flows;
    queues = h.queues;
  }
  put-IsValid bg_iothreads (mapping es) c v empty e h = record {
    threads_pos = h.threads_pos;
    bios = subst (λ i. is_nonneg i ≡ true) (ok-inj _ _ e) h.bios;
    command = h.command;
    flows = h.flows;
    queues = h.queues;
  }
  put-IsValid command_port n c v empty e h = record {
    threads_pos = h.threads_pos;
    bios = h.bios;
    command = checked-ok is_port n v e;
    flows = h.flows;
    queues = h.queues;
  }
  put-IsValid services n c v empty e h = record {
    threads_pos = h.threads_pos;
    bios = h.bios;
    command = h.command;
    flows = h.flows;
    queues = load_services-IsInt o set_law n c.services h.queues v e;
  }
  put-IsValid unknown n c v empty e h = h
  put-IsValid _ n c v empty e h = record {
    threads_pos = h.threads_pos;
    bios = h.bios;
    command = h.command;
    flows = h.flows;
    queues = h.queues;
  }

  named_workflows : (k : String) → key_of k ≡ workflows → k ≡ "workflows"
  unfolding key_of
  named_workflows k e = elim (key_of-inj k "workflows" e) [
    | inl h ↦ absurd (workflows-ne-unknown (sym e ∙ h))
    | inr h ↦ h
  ]
    where
      workflows-ne-unknown : workflows ≢ unknown
      workflows-ne-unknown h = cc

  -- Where the workflows are to be loaded once at most.
  abbrev Once : CfgMapping → SkConfig → Type 0
  Once es c = IsFresh "workflows" es ⊎ (c.workflows ≡ [])

  load_entries-IsValid :
      (es : CfgMapping) (c d : SkConfig)
      → IsDistinct es
      → Once es c
      → IsValid c
      → load_entries o es c ≡ ok d
      → IsValid d
  unfolding load_entries
  load_entries-IsValid end c d distinct once v e = subst IsValid (ok-inj c d e) v
  load_entries-IsValid (entry k n es) c d distinct once v e =
      let (c', first, rest) =
        bind-ok (load_entry o (key_of k) n c) (λ c'. load_entries o es c') d e in
      let (u, read, at) = load_entry-ok o (key_of k) n c c' first in
      let empty : key_of k ≡ workflows → c.workflows ≡ [] =
        λ h. elim once [ inl fresh ↦ absurd (fresh.0 (sym (named_workflows k h))) | inr w ↦ w ] in
      let v' = subst IsValid at (put-IsValid (key_of k) n c u empty read v) in
      let once' : Once es c' = elim (Key-discrete workflows (key_of k)) [
        | yes h ↦ inl (subst (λ s. IsFresh s es) (named_workflows k (sym h)) distinct.0)
        | no h ↦ elim once [
          | inl fresh ↦ inl fresh.1
          | inr w ↦ inr (sym (ap (get workflows) at) ∙ get-put workflows (key_of k) h u c ∙ w)
        ]
      ] in
      load_entries-IsValid es c' d distinct.1 once' v' rest

  load_config-IsValid :
      (n : CfgNode) (c d : SkConfig)
      → ((es : CfgMapping) → n ≡ mapping es → IsDistinct es)
      → (c.workflows ≡ [])
      → IsValid c
      → load_config o n c ≡ ok d
      → IsValid d
  unfolding load_config
  load_config-IsValid (mapping es) c d distinct empty v e =
      load_entries-IsValid es c d (distinct es refl) (inr empty) v e
  load_config-IsValid (value s) c d distinct empty v e = cc
  load_config-IsValid (array ns) c d distinct empty v e = cc

check_string-ok :
    (m : Option Bytes)
    → check_string m ≡ ok tt
    → (s : Bytes) × (m ≡ some s) × (validate_logname s ≡ true)
unfolding check_string
check_string-ok none e = cc
check_string-ok (some s) e = (
  s,
  refl,
  elim (Bool-cases (validate_logname s)) [
    | inl h ↦ h
    | inr h ↦ absurd (failed (sym (ap sk_assert h) ∙ e))
  ],
)
  where
    failed : ◌≢◌ {A = Loaded (Unit {0})} assert_failed (ok tt)
    failed h = cc

check_logname-ok : (name : Bytes) → check_logname name ≡ ok tt → LogName name
unfolding check_logname
check_logname-ok name e = check_string-ok (c_string name) e

post_load-ok : (c : SkConfig) → post_load c ≡ ok tt → LogName c.log_name × LogName c.diag_name
unfolding post_load
post_load-ok c e =
    let (u, first, second) =
      bind-ok (check_logname c.log_name) (λ _. check_logname c.diag_name) tt e in
    (check_logname-ok c.log_name first, check_logname-ok c.diag_name second)

create_config-IsValid : (location : Bytes) → IsValid (create_config location)
unfolding create_config
create_config-IsValid location = record {
  threads_pos = refl;
  bios = refl;
  command = refl;
  flows = (tt, omega arith);
  queues = tt;
}

create_config-workflows : (location : Bytes) → (create_config location).workflows ≡ []
unfolding create_config
create_config-workflows location = refl

load_root-IsValid :
    (o : Flibs) (root : Option CfgNode) (c d : SkConfig)
    → IsPush o.push_workflow
    → Sets o.set_service
    → ((es : CfgMapping) → root ≡ some (mapping es) → IsDistinct es)
    → (c.workflows ≡ [])
    → IsValid c
    → load_root o root c ≡ ok d
    → IsValid d
unfolding load_root
load_root-IsValid o none c d law set_law distinct empty v e = cc
load_root-IsValid o (some n) c d law set_law distinct empty v e =
    load_config-IsValid o law set_law n c d (λ es h. distinct es (ap some h)) empty v e

-- Where `sk_config_load` gives each key of the root once, `flist_push` puts an entry somewhere into
-- a list, and `fhash_str_set` keeps the entries of a table but the one it sets, a configuration that `sk_config_create` returns has a worker or more, no negative
-- number of background engines, a port of 1 to 65535 for commands and for each workflow, which may
-- have none, one workflow at most that reads the standard input, a `max_qsize` in the range of an
-- `int` for each service, and log names that end within their arrays and are admitted.
pub sk_config_create-IsValid :
    (o : Flibs) (load : Bytes → Loaded (Option CfgNode)) (filename : Bytes) (c : SkConfig)
    → IsPush o.push_workflow
    → Sets o.set_service
    → ((location : Bytes) (es : CfgMapping)
        → load location ≡ ok (some (mapping es))
        → IsDistinct es)
    → sk_config_create o load filename ≡ ok c
    → IsValid c × LogName c.log_name × LogName c.diag_name
unfolding sk_config_create
sk_config_create-IsValid o load filename c law set_law distinct e =
    let config = create_config filename in
    let (location, _, e₁) = bind-ok (read_location (c_string config.location)) _ c e in
    let (root, given, e₂) = bind-ok (load location) _ c e₁ in
    let (d, loaded, e₃) = bind-ok (load_root o root config) _ c e₂ in
    let (_, names, e₄) = bind-ok (post_load d) (λ _. ok d) c e₃ in
    let valid : IsValid d =
      load_root-IsValid o root config d law set_law (λ es h. distinct location es (given ∙ ap ok h))
        (create_config-workflows filename) (create_config-IsValid filename) loaded in
    subst (λ d. IsValid d × LogName d.log_name × LogName d.diag_name) (ok-inj d c e₄)
      (valid, (post_load-ok d names).0, (post_load-ok d names).1)

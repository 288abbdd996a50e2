-- ===== src/Core/Ready.antt =====
-- What holds of a core behind `sk_core_init`.
use Prim.Native.String.{String}
use skull.Prelude.{
  ℕ, ◌+◌, ◌^◌, ◌≤◌, ◌<◌, ◌≡◌, ◌≢◌, refl, sym, ap, subst, ◌∙◌, true, Bool-cases, inl, inr, Option,
  some, List, [], ◌∷◌, ◌++◌, map, if◌then◌else◌, arith,
}
use native.Mathlib.Decide.{dec_le}
use skull.Prelude.Int.{ℤ, pos, negsuc}
use skull.EpPool.Count.{IsPush}
use skull.Fmbuf.{Fmbuf}
use skull.Queue.{Elem, SkQueue, idle}
use skull.Queue.View.{view}
use skull.Queue.View as View
use skull.Queue.Together.{all_elems}
use skull.Queue.Create.{mode_of}
use skull.Service.{Task, Service}
use skull.Service.Create.{queue_mode, slots, service_data_create_lem}
use skull.Sched.{Event}
use skull.Sched.Ops.{max_io_bridge}
use skull.Config.{Bytes, Loaded, ok, assert_failed, exited, ◌>>=◌, CfgMapping, mapping, ServiceCfg}
use skull.Config.Values.{is_port}
use skull.Config.Outcome.{bind-ok, assert-ok, ok-inj}
use skull.Config.Keys.{IsDistinct}
use skull.Config.Services.{QsizesAreInt, QsizeIsInt, Sets}
use skull.Config.Load.{sk_config_create}
use skull.Config.Valid as Valid
use skull.Config.Valid.{sk_config_create-IsValid}
use skull.Core.Engines.{Scheds, setup_engines}
use skull.Core.Linked.{IsLinked}
use skull.Core.Setup.{setup_engines-IsLinked, setup_engines-assert_failed}
use skull.Core.Workflows.{DriverType, driver_tcp, driver_type, SkWorkflow, setup_workflows}
use skull.Core.Unique.{all_modules, configured, firsts, no_flows, setup_workflows-firsts}
use skull.Core.Init.{
  CmdArgs, Outside, Core, rounds, sk_admin_workflowcfg_create, of_checked, init_log, setup_service,
  setup_services, init_max_fds, sk_core_init,
}

-- A service at rest, with the queue that its configuration asks for.
abbrev pub Rests : {Q : Type 0} → Fmbuf Q (Elem Task) → ServiceCfg → Service Q → Type 0
Rests fq cfg s =
    (s.running_task_cnt ≡ pos 0)
    × View.IsValid fq s.pending_tasks
    × (s.pending_tasks.state ≡ idle)
    × (all_elems (view fq s.pending_tasks) ≡ [])
    × (mode_of s.pending_tasks.data_ ≡ queue_mode cfg.data_mode)
    × (s.pending_tasks.max_slots ≡ slots cfg.max_qsize)

-- The services of the configuration, in order.
abbrev pub AllRest :
    {Q : Type 0}
    → Fmbuf Q (Elem Task)
    → List (String × ServiceCfg)
    → List (String × Service Q)
    → Type 0
AllRest fq [] ss = ss ≡ []
AllRest fq (c ∷ cs) [] = ⊥
AllRest fq (c ∷ cs) (s ∷ ss) = (c.0 ≡ s.0) × Rests fq c.1 s.1 × AllRest fq cs ss

-- A core that has been set up, from the configuration on.
pub record IsReady {B Q : Type 0} (fq : Fmbuf Q (Elem Task)) (c : Core B Q) : Type 0 where
  pub config_valid : Valid.IsValid c.config
  pub engines : rounds c.config.threads + rounds c.config.bio_cnt ≤ max_io_bridge
  pub linked :
      IsLinked
        (rounds c.config.threads)
        (rounds c.config.threads + rounds c.config.bio_cnt)
        c.scheds
  pub at_rest : AllRest fq c.config.services c.services
  pub flows_of : map SkWorkflow.cfg c.flows.workflows ≡ c.config.workflows
  pub drivers_of : c.flows.drivers ≡ driver_tcp ∷ map driver_type c.config.workflows
  pub modules_once : all_modules c.flows.workflows ≡ firsts (configured c.config.workflows)

module _ {B Q : Type 0} (fm : Fmbuf B Event) (fq : Fmbuf Q (Elem Task)) (task_sz : ℕ)
    (o : Outside B) (some_sz : 0 < task_sz) (int_sz : task_sz ≤ 2 ^ 31) where
  setup_service-Rests :
      (name : String) (cfg : ServiceCfg) (s : Service Q)
      → QsizeIsInt cfg
      → setup_service fm fq task_sz o name cfg ≡ ok s
      → Rests fq cfg s
  unfolding setup_service
  setup_service-Rests name cfg s int e =
      let (q, made, v, at_rest, empty, mode, max) =
        service_data_create_lem fq task_sz cfg some_sz int_sz int in
      let e' = sym (ap (λ m. of_checked m >>= loaded) made) ∙ e in
      elim (Bool-cases (o.service_load_ok name cfg)) [
        | inl there ↦
            let same =
              ok-inj (record { running_task_cnt = pos 0; pending_tasks = q }) s
                (sym (rw there refl) ∙ e') in
            subst (Rests fq cfg) same (refl, v, at_rest, empty, mode, max)
        | inr gone ↦ absurd (exited-ne (sym (rw gone refl) ∙ e'))
      ]
    where
      loaded : SkQueue Q → Loaded (Service Q)
      loaded q =
          if o.service_load_ok name cfg
          then ok (record { running_task_cnt = pos 0; pending_tasks = q })
          else exited

      exited-ne : exited ≢ ok s
      exited-ne h = cc

  setup_services-AllRest :
      (cfgs : List (String × ServiceCfg)) (ss : List (String × Service Q))
      → QsizesAreInt cfgs
      → setup_services fm fq task_sz o cfgs ≡ ok ss
      → AllRest fq cfgs ss
  unfolding setup_services
  setup_services-AllRest [] ss ints e = sym (ok-inj [] ss e)
  setup_services-AllRest ((name, cfg) ∷ cfgs) ss ints e =
      let (s, first, e₁) = bind-ok (setup_service fm fq task_sz o name cfg) _ ss e in
      let (rest, others, e₂) = bind-ok (setup_services fm fq task_sz o cfgs) _ ss e₁ in
      subst (AllRest fq ((name, cfg) ∷ cfgs)) (ok-inj ((name, s) ∷ rest) ss e₂) (
        refl,
        setup_service-Rests name cfg s ints.0 first,
        setup_services-AllRest cfgs rest ints.1 others,
      )

  admin_driver :
      (bind : Option Bytes) (port : ℤ)
      → is_port port ≡ true
      → driver_type (sk_admin_workflowcfg_create bind port) ≡ driver_tcp
  unfolding driver_type sk_admin_workflowcfg_create
  admin_driver bind (pos n) h = ground (arith, h)
  admin_driver bind (negsuc n) h = cc

  bridges-engines :
      (threads bios : ℕ) (b : Scheds B)
      → ((e : ℕ) → (o.created e).bridge_tbl ≡ [])
      → setup_engines fm threads bios o.created ≡ ok b
      → (threads + bios ≤ max_io_bridge) × IsLinked threads (threads + bios) b
  bridges-engines threads bios b alone e = elim (dec_le (threads + bios) max_io_bridge) [
    | yes few ↦
        let (b', made, l) = setup_engines-IsLinked fm threads bios o.created alone few in
        (few, subst (IsLinked threads (threads + bios)) (ok-inj b' b (sym made ∙ e)) l)
    | no many ↦ absurd (
        failed-ne (
          sym (setup_engines-assert_failed fm threads bios o.created alone (omega (arith, many)))
          ∙ e))
  ]
    where
      failed-ne : assert_failed ≢ ok b
      failed-ne h = cc

  -- Where `sk_core_init` returns, with lists of flibs that put an entry at the end, tables that keep
  -- the other entries, a loader of files that gives each key once, and schedulers without bridges
  -- at first: the configuration is valid; there are at most 48 engines behind the master, each
  -- linked with it both ways; each service of the configuration is there, in order, with a valid,
  -- idle and empty queue of the mode and size that it asks for; each workflow is there, in order,
  -- with its driver behind the one of the administration, which listens to TCP; and the modules of
  -- all workflows are those configured without those that have the name of an earlier one.
  pub sk_core_init-IsReady :
      (args : CmdArgs) (c : Core B Q)
      → IsPush o.flibs.push_workflow
      → Sets o.flibs.set_service
      → ((A : Type 0) (xs : List A) (x : A) → o.push A xs x ≡ xs ++ x ∷ [])
      → ((location : Bytes) (es : CfgMapping)
          → o.load_config location ≡ ok (some (mapping es))
          → IsDistinct es)
      → ((e : ℕ) → (o.created e).bridge_tbl ≡ [])
      → sk_core_init fm fq task_sz o args ≡ ok c
      → IsReady fq c
  unfolding sk_core_init
  sk_core_init-IsReady args c law set_law push-append distinct alone e =
      let (config, created, e₁) =
        bind-ok (sk_config_create o.flibs o.load_config args.config_location) _ c e in
      let (there, e₂) = assert-ok (o.chdir_ok args.config_location) _ c e₁ in
      let (diag, _, e₃) = bind-ok (init_log o args config.diag_name) _ c e₂ in
      let (log, _, e₄) = bind-ok (init_log o args config.log_name) _ c e₃ in
      let (fds, _, e₅) = bind-ok (init_max_fds o o.soft_limit config.max_fds) _ c e₄ in
      let (scheds, bridged, e₆) =
        bind-ok (setup_engines fm (rounds config.threads) (rounds config.bio_cnt) o.created) _ c
          e₅ in
      let (services, served, e₇) =
        bind-ok (setup_services fm fq task_sz o config.services) _ c e₆ in
      let admin =
        driver_type (sk_admin_workflowcfg_create config.command_bind config.command_port) in
      let drivers = o.push DriverType [] admin in
      let (flows, flowing, e₈) =
        bind-ok (setup_workflows o.push o.module_load_ok config.workflows (no_flows drivers)) _ c
          e₇ in
      let (valid, _, _) =
        sk_config_create-IsValid o.flibs o.load_config args.config_location config law set_law
          distinct created in
      let (few, linked) =
        bridges-engines (rounds config.threads) (rounds config.bio_cnt) scheds alone bridged in
      let (cfgs, added, once) =
        setup_workflows-firsts o.push o.module_load_ok push-append config.workflows drivers flows
          flowing in
      let first : drivers ≡ driver_tcp ∷ [] =
        push-append DriverType [] admin
        ∙ ap (λ d. d ∷ []) (admin_driver config.command_bind config.command_port valid.command) in
      subst (IsReady fq) (ok-inj _ c e₈) (record {
        config_valid = valid;
        engines = few;
        linked = linked;
        at_rest = setup_services-AllRest config.services services valid.queues served;
        flows_of = cfgs;
        drivers_of = added ∙ ap (λ ds. ds ++ map driver_type config.workflows) first;
        modules_once = once;
      })

-- ===== src/Core/Init.antt =====
-- `sk_core_init` of src/components/sk_core.c: the parts that are set up, in their order, and
-- `sk_admin_workflowcfg_create` of src/components/sk_admin.c.
use Prim.Native.String.{String}
use skull.Prelude.{ℕ, Bool, false, Option, none, some, List, [], ◌∷◌, if◌then◌else◌}
use skull.Prelude.Checked.{Checked}
use skull.Prelude.Int.{ℤ, pos, negsuc}
use skull.Fmbuf.{Fmbuf}
use skull.Queue.{Elem}
use skull.Service.{Task, Service}
use skull.Service.Create.{service_data_create}
use skull.Sched.{Event}
use skull.Config.{
  Bytes, codes, Loaded, ok, assert_failed, exited, undefined, ◌>>=◌, ◌>>◌, sk_assert, CfgNode,
  ModuleCfg, sock_tcp, WorkflowCfg, ServiceCfg, SkConfig, Flibs, c_string,
}
use skull.Config.Load.{sk_config_create}
use skull.Core.Engines.{Scheds, setup_engines}
use skull.Core.Workflows.{DriverType, driver_type, Flows, setup_workflows}
use skull.Core.Unique.{no_flows}
use skull.Core.Paths.{snprintf_logpath, init_sys}

-- `sk_cmd_args_t`
pub record CmdArgs : Type 0 where
  pub config_location : Bytes
  pub log_stdout_fwd : Bool

-- What the lists of flibs, the files, the system and the loaders answer, and the schedulers as they
-- are created.
pub record Outside (B : Type 0) : Type 1 where
  pub flibs : Flibs
  pub push : (A : Type 0) → List A → A → List A
  pub load_config : Bytes → Loaded (Option CfgNode)
  pub chdir_ok : Bytes → Bool
  pub working_dir : Bytes
  pub logger_ok : Bytes → Bool
  -- `getrlimit`, none where it fails.
  pub soft_limit : Option ℤ
  pub setrlimit_ok : ℤ → Bool
  pub created : Scheds B
  pub service_load_ok : String → ServiceCfg → Bool
  pub module_load_ok : ModuleCfg → Bool

-- `sk_core_t`
pub record Core (B Q : Type 0) : Type 0 where
  pub config : SkConfig
  pub diag_path : Bytes
  pub log_path : Bytes
  pub max_fds : ℤ
  pub scheds : Scheds B
  pub services : List (String × Service Q)
  pub flows : Flows

-- The rounds of a loop from 0 below an `int`.
abbrev pub rounds : ℤ → ℕ
rounds (pos n) = n
rounds (negsuc n) = 0

abbrev pub bind_or : Option Bytes → Bytes
bind_or none = codes "127.0.0.1"
bind_or (some s) = s

-- `_sk_admin_module_cfg`
abbrev pub admin_module_cfg : ModuleCfg
admin_module_cfg = record { name = codes "admin"; type = codes "built-in" }

-- `sk_admin_workflowcfg_create`
unfoldable pub sk_admin_workflowcfg_create : Option Bytes → ℤ → WorkflowCfg
sk_admin_workflowcfg_create bind port = record {
  concurrent = false;
  enable_stdin = false;
  sock_type = sock_tcp;
  port = port;
  bind = bind_or bind;
  idl_name = none;
  modules = admin_module_cfg ∷ [];
  timeout = pos 0;
}

abbrev pub of_checked : {A : Type 0} → Checked (Option A) → Loaded A
of_checked (Checked.ok (some a)) = ok a
of_checked (Checked.ok none) = undefined
of_checked Checked.assert_failed = assert_failed
of_checked Checked.out_of_fuel = undefined

-- One log: the string of an array of the configuration, its path, and the logger.
unfoldable pub init_log : {B : Type 0} → Outside B → CmdArgs → Bytes → Loaded Bytes
unfolding snprintf_logpath
init_log o args name = elim (c_string name) [ none ↦ undefined | some s ↦ ok s ] >>= λ s.
    snprintf_logpath o.working_dir s args.log_stdout_fwd >>= λ path.
    sk_assert (o.logger_ok path) >>= λ _. ok path

-- `_sk_init_sys`
unfoldable pub init_max_fds : {B : Type 0} → Outside B → Option ℤ → ℤ → Loaded ℤ
unfolding init_sys
init_max_fds o none conf_max_fds = exited
init_max_fds o (some soft_limit) conf_max_fds = ok (init_sys soft_limit conf_max_fds o.setrlimit_ok)

module _ {B Q : Type 0} (fm : Fmbuf B Event) (fq : Fmbuf Q (Elem Task)) (task_sz : ℕ)
    (o : Outside B) where
  -- A round of the loop of `_sk_setup_services`, up to the table.
  unfoldable pub setup_service : String → ServiceCfg → Loaded (Service Q)
  unfolding service_data_create
  setup_service name cfg = do
    q ← of_checked (service_data_create fq task_sz cfg)
    if o.service_load_ok name cfg
        then ok (record { running_task_cnt = pos 0; pending_tasks = q })
        else exited

  -- `_sk_setup_services`, where each name stands once.
  unfoldable pub setup_services : List (String × ServiceCfg) → Loaded (List (String × Service Q))
  unfolding setup_service
  setup_services [] = ok []
  setup_services ((name, cfg) ∷ cfgs) =
      setup_service name cfg >>= λ s. setup_services cfgs >>= λ ss. ok ((name, s) ∷ ss)

  -- `sk_core_init`. `_sk_init_admin` makes the first driver.
  unfoldable pub sk_core_init : CmdArgs → Loaded (Core B Q)
  unfolding sk_config_create init_log init_max_fds setup_engines sk_admin_workflowcfg_create
      driver_type setup_services setup_workflows
  sk_core_init args = do
    config ← sk_config_create o.flibs o.load_config args.config_location
    sk_assert (o.chdir_ok args.config_location)
    diag_path ← init_log o args config.diag_name
    log_path ← init_log o args config.log_name
    max_fds ← init_max_fds o o.soft_limit config.max_fds
    scheds ← setup_engines fm (rounds config.threads) (rounds config.bio_cnt) o.created
    services ← setup_services config.services
    let admin = driver_type (sk_admin_workflowcfg_create config.command_bind config.command_port)
    flows ←
        setup_workflows o.push o.module_load_ok config.workflows
          (no_flows (o.push DriverType [] admin))
    ok (record {
      config = config;
      diag_path = diag_path;
      log_path = log_path;
      max_fds = max_fds;
      scheds = scheds;
      services = services;
      flows = flows;
    })

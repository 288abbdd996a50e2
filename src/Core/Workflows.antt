-- ===== src/Core/Workflows.antt =====
-- `_sk_setup_workflows` of src/components/sk_core.c over src/common/sk_workflow.c, and the types of
-- drivers of src/drivers/sk_driver.c.
use skull.Prelude.{Bool, true, false, ◌||◌, List, [], ◌∷◌, if◌then◌else◌}
use skull.Config.{
  Bytes, Loaded, ok, exited, ◌>>=◌, ModuleCfg, WorkflowCfg, sock_tcp, sock_udp, SockType,
}
use skull.Config.Values.{bytes_eq, is_pos}

-- `sk_workflow_t`, whose modules are named by their configuration.
pub record SkWorkflow : Type 0 where
  pub cfg : WorkflowCfg
  pub modules : List ModuleCfg

pub data DriverType : Type 0 where
  driver_app : DriverType
  driver_std : DriverType
  driver_tcp : DriverType
  driver_udp : DriverType

unfoldable pub socket_driver : SockType → DriverType
socket_driver sock_tcp = driver_tcp
socket_driver sock_udp = driver_udp

-- The type that `sk_driver_create` sets.
unfoldable pub driver_type : WorkflowCfg → DriverType
unfolding socket_driver
driver_type w =
    if w.enable_stdin
    then driver_std
    else if is_pos w.port
    then socket_driver w.sock_type
    else driver_app

-- `fhash_str_get` of `unique_modules`, which holds the modules by their names.
unfoldable pub is_unique_module : List ModuleCfg → Bytes → Bool
unfolding bytes_eq
is_unique_module [] name = false
is_unique_module (u ∷ us) name = bytes_eq u.name name || is_unique_module us name

-- `sk_core_t`, what the workflows are put into.
pub record Flows : Type 0 where
  pub workflows : List SkWorkflow
  pub drivers : List DriverType
  pub unique_modules : List ModuleCfg

-- `flist_push` of flibs is `push`. Whether `sk_module_load` finds a module is `load`.
module _ (push : (A : Type 0) → List A → A → List A) (load : ModuleCfg → Bool) where
  -- The loop over the modules of a workflow: those added to it, and `unique_modules`.
  unfoldable pub setup_modules :
      List ModuleCfg → List ModuleCfg × List ModuleCfg → Loaded (List ModuleCfg × List ModuleCfg)
  unfolding is_unique_module
  setup_modules [] r = ok r
  setup_modules (m ∷ ms) (added, unique) = elim (is_unique_module unique m.name) [
    | true ↦ setup_modules ms (added, unique)
    | false ↦ elim (load m) [
      | true ↦ setup_modules ms (push ModuleCfg added m, m ∷ unique)
      | false ↦ exited
    ]
  ]

  -- `_sk_setup_workflows`, with a driver for each workflow.
  unfoldable pub setup_workflows : List WorkflowCfg → Flows → Loaded Flows
  unfolding setup_modules driver_type
  setup_workflows [] f = ok f
  setup_workflows (w ∷ ws) f = setup_modules w.modules ([], f.unique_modules) >>= λ r.
      setup_workflows ws (record {
        workflows = push SkWorkflow f.workflows (record { cfg = w; modules = r.0 });
        drivers = push DriverType f.drivers (driver_type w);
        unique_modules = r.1;
      })

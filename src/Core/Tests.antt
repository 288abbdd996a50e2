-- ===== src/Core/Tests.antt =====
-- A core with a worker, a background engine, a service and two workflows.
use Prim.Native.String.{String}
use text.Mathlib.TextEquality.{eq_iff}
use skull.Prelude.{
  ◌≡◌, refl, sym, subst, append-nil, All-append, true, false, some, List, [], ◌∷◌, ◌++◌, map, arith,
}
use skull.Prelude.Int.{pos}
use skull.Fmbuf.{Fmbuf}
use skull.Fmbuf.Model.{Buf, list_fmbuf}
use skull.Queue.{Elem}
use skull.Queue.Ops.{sk_queue_create}
use skull.Service.{Task}
use skull.Sched.{Event}
use skull.Config.{
  Bytes, codes, ok, assert_failed, CfgNode, value, array, mapping, nil, cons, CfgMapping, end,
  entry, ModuleCfg, WorkflowCfg, create_workflow_cfg,
}
use skull.Config.Keys.{IsDistinct}
use skull.Core.Engines.{Scheds, setup_engines}
use skull.Core.Linked.{IsLinked}
use skull.Core.Setup.{setup_engines-IsLinked, setup_engines-assert_failed}
use skull.Core.Workflows.{driver_app, driver_tcp, driver_type, SkWorkflow, Flows, setup_workflows}
use skull.Core.Unique.{all_modules, configured, firsts, no_flows, setup_workflows-firsts}
use skull.Core.Paths.{snprintf_logpath}
use skull.Core.Init.{CmdArgs, Outside, Core, sk_core_init}
use skull.Core.Ready.{IsReady, sk_core_init-IsReady}

abbrev fm : Fmbuf (Buf Event) Event
fm = list_fmbuf

abbrev fq : Fmbuf (Buf (Elem Task)) (Elem Task)
fq = list_fmbuf

abbrev scalar : String → CfgNode
scalar s = value (codes s)

abbrev at_end : (A : Type 0) → List A → A → List A
at_end A xs x = xs ++ x ∷ []

abbrev created : Scheds (Buf Event)
created e = record {
  id = e;
  io_tbl = λ pri. record {
    input = record { fill = 0; left = 0; elems = [] };
    output = record { fill = 0; left = 0; elems = [] };
  };
  bridge_tbl = [];
  last_delivery_idx = 0;
}

-- Two workflows that name one module.
abbrev flow : String → CfgNode
flow port =
    mapping
      (entry "port" (scalar port) (entry "modules" (array (cons (scalar "test:cpp") nil)) end))

abbrev root : CfgMapping
root = entry "bg_iothreads" (scalar "1") (
    entry "workflows" (array (cons (flow "7758") (cons (flow "-1") nil))) (
      entry "services"
        (mapping (entry "log" (mapping (entry "data_mode" (scalar "rw-pw") end)) end)) end))

abbrev around : Outside (Buf Event)
around = record {
  flibs = record {
    push_module = at_end ModuleCfg;
    push_workflow = at_end WorkflowCfg;
    set_service = λ name s ss. ss ++ (name, s) ∷ [];
    set_lang = λ l ls. ls ++ l ∷ [];
  };
  push = at_end;
  load_config = λ location. ok (some (mapping root));
  chdir_ok = λ dir. true;
  working_dir = codes "/srv";
  logger_ok = λ path. true;
  soft_limit = some (pos 4096);
  setrlimit_ok = λ n. true;
  created = created;
  service_load_ok = λ name cfg. true;
  module_load_ok = λ m. true;
}

abbrev args : CmdArgs
args = record { config_location = codes "/srv/a.yaml"; log_stdout_fwd = false }

core_run : (c : Core (Buf Event) (Buf (Elem Task))) × (sk_core_init fm fq 88 around args ≡ ok c)
unfolding sk_core_init sk_queue_create
core_run = (_, refl)

root-IsDistinct :
    (location : Bytes) (es : CfgMapping)
    → around.load_config location ≡ ok (some (mapping es))
    → IsDistinct es
root-IsDistinct location es e =
    let same : root ≡ es = cc in
    subst IsDistinct same (
      (
        ground (arith, eq_iff "bg_iothreads" "workflows"),
        (ground (arith, eq_iff "bg_iothreads" "services"), tt),
      ),
      ((ground (arith, eq_iff "workflows" "services"), tt), (tt, tt)),
    )

sk_core_init-IsReady_example : IsReady fq core_run.0
sk_core_init-IsReady_example =
    sk_core_init-IsReady fm fq 88 around (omega arith) (omega arith) args core_run.0
      (λ ws w. (ws, [], sym (append-nil ws), refl))
      (λ P name s ss h hs. All-append P ss ((name, s) ∷ []) hs (h, tt)) (λ A xs x. refl)
      root-IsDistinct (λ e. refl) core_run.1

setup_engines-assert_failed_example : setup_engines fm 40 9 created ≡ assert_failed
setup_engines-assert_failed_example =
    setup_engines-assert_failed fm 40 9 created (λ e. refl) (omega arith)

setup_engines-IsLinked_example :
    (b : Scheds (Buf Event)) × (setup_engines fm 2 1 created ≡ ok b) × IsLinked 2 3 b
setup_engines-IsLinked_example = setup_engines-IsLinked fm 2 1 created (λ e. refl) (omega arith)

abbrev test_cpp : ModuleCfg
test_cpp = record { name = codes "test"; type = codes "cpp" }

abbrev flow_cfg : WorkflowCfg
flow_cfg = record create_workflow_cfg { modules = test_cpp ∷ [] }

-- The second workflow is left without its module.
abbrev flows : Flows
flows = record {
  workflows =
      record { cfg = flow_cfg; modules = test_cpp ∷ [] }
      ∷ record { cfg = flow_cfg; modules = [] }
      ∷ [];
  drivers = driver_tcp ∷ driver_app ∷ driver_app ∷ [];
  unique_modules = test_cpp ∷ [];
}

flows_set_up :
    setup_workflows at_end (λ m. true) (flow_cfg ∷ flow_cfg ∷ []) (no_flows (driver_tcp ∷ []))
    ≡ ok flows
unfolding setup_workflows
flows_set_up = refl

setup_workflows-firsts_example :
    (map SkWorkflow.cfg flows.workflows ≡ flow_cfg ∷ flow_cfg ∷ [])
    × (flows.drivers ≡ (driver_tcp ∷ []) ++ map driver_type (flow_cfg ∷ flow_cfg ∷ []))
    × (all_modules flows.workflows ≡ firsts (configured (flow_cfg ∷ flow_cfg ∷ [])))
setup_workflows-firsts_example =
    setup_workflows-firsts at_end (λ m. true) (λ A xs x. refl) (flow_cfg ∷ flow_cfg ∷ [])
      (driver_tcp ∷ []) flows flows_set_up

log_path : snprintf_logpath (codes "/srv") (codes "a.log") false ≡ ok (codes "/srv/log/a.log")
unfolding snprintf_logpath
log_path = refl

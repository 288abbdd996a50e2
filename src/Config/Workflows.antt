-- ===== src/Config/Workflows.antt =====
-- `_load_modules`, `_load_workflow` and `_load_service` of src/components/sk_config.c.
use Prim.Native.String.{String}
use text.Mathlib.Text as Text
use skull.Prelude.{Bool, true, false, not, ◌||◌, none, some, List, length, ltb, if◌then◌else◌}
use skull.Prelude.Int.{ℤ}
use skull.Prelude.Index.{take}
use skull.Config.{
  Bytes, Loaded, ok, assert_failed, exited, undefined, ◌>>=◌, ◌>>◌, sk_assert, CfgNode, value,
  array, mapping, CfgArray, nil, cons, CfgMapping, end, entry, ModuleCfg, SockType, sock_tcp,
  sock_udp, WorkflowCfg, SrvDataMode, rw_pr, rw_pw, ServiceCfg, Flibs, create_workflow_cfg,
  service_cfg_item_create,
}
use skull.Config.Values.{
  strcmp, strcasecmp, strsep, sk_config_getint, sk_config_getbool, sk_config_getstring, low_bit,
  is_pos, is_port,
}

-- `0 == strcmp(key, text)`
infix 50 ◌is◌
abbrev pub ◌is◌ : String → String → Bool
key is text = Text.◌==◌ key text

-- Reading on to the end of a copy that has one, and behind the array where it has none.
abbrev to_the_end : Bool → Loaded ModuleCfg → Loaded ModuleCfg
to_the_end true m = m
to_the_end false m = undefined

-- One module, `name:type`. The copy has SK_CONFIG_VALUE_MAXLEN bytes, and an end where the text is
-- shorter. The loop calls `strsep` once more than it uses.
unfoldable pub load_module : Bytes → Loaded ModuleCfg
unfolding strsep
load_module raw =
    let ended = ltb (length raw) 256 in
    let (name, behind) = strsep b':' (take 256 raw) in
    elim behind [
      | none ↦ to_the_end ended assert_failed
      | some more ↦
          let (type, last) = strsep b':' more in
          let m = ok (record { name = name; type = type }) in
          elim last [
            | none ↦ to_the_end ended m
            | some rest ↦ elim ((strsep b':' rest).1) [ none ↦ to_the_end ended m | some _ ↦ m ]
          ]
    ]

unfoldable pub load_sock_type : Bytes → Loaded SockType
unfolding strcasecmp
load_sock_type s =
    if strcasecmp s "tcp"
    then ok sock_tcp
    else if strcasecmp s "udp"
    then ok sock_udp
    else assert_failed

-- A port that is not positive is passed over.
unfoldable pub load_port : ℤ → WorkflowCfg → Loaded WorkflowCfg
load_port port w =
    if is_pos port then (do sk_assert (is_port port); ok (record w { port = port })) else ok w

module _ (o : Flibs) where
  -- The loop of `_load_modules`.
  unfoldable pub load_module_items : CfgArray → List ModuleCfg → Loaded (List ModuleCfg)
  unfolding load_module
  load_module_items nil ms = ok ms
  load_module_items (cons (value raw) ns) ms =
      load_module raw >>= λ m. load_module_items ns (o.push_module ms m)
  load_module_items (cons _ ns) ms = assert_failed

  -- `_load_modules`
  unfoldable pub load_modules : CfgNode → WorkflowCfg → Loaded WorkflowCfg
  unfolding load_module_items
  load_modules (array ns) w = do ms ← load_module_items ns w.modules; ok (record w { modules = ms })
  load_modules _ w = ok w

  -- An entry of a workflow, with `enabled_stdin` of the loop around it.
  unfoldable pub load_workflow_entry :
      String → CfgNode → WorkflowCfg × Bool → Loaded (WorkflowCfg × Bool)
  unfolding load_modules sk_config_getint sk_config_getstring low_bit load_sock_type load_port
  load_workflow_entry key child (w, enabled_stdin) =
      if key is "modules"
      then (do w' ← load_modules child w; ok (w', enabled_stdin))
      else if key is "idl"
      then (do s ← sk_config_getstring child; ok (record w { idl_name = some s }, enabled_stdin))
      else if key is "concurrency" || key is "concurrent"
      then (do n ← sk_config_getint child; ok (record w { concurrent = low_bit n }, enabled_stdin))
      else if key is "port"
      then (do port ← sk_config_getint child; w' ← load_port port w; ok (w', enabled_stdin))
      else if key is "stdin"
      then (do
        n ← sk_config_getint child
        sk_assert (not enabled_stdin)
        ok (record w { enable_stdin = low_bit n }, low_bit n))
      else if key is "bind"
      then (do s ← sk_config_getstring child; ok (record w { bind = s }, enabled_stdin))
      else if key is "timeout"
      then (do n ← sk_config_getint child; ok (record w { timeout = n }, enabled_stdin))
      else if key is "sock_type"
      then (do
        s ← sk_config_getstring child
        sock_type ← load_sock_type s
        ok (record w { sock_type = sock_type }, enabled_stdin))
      else ok (w, enabled_stdin)

  unfoldable pub load_workflow_entries :
      CfgMapping → WorkflowCfg × Bool → Loaded (WorkflowCfg × Bool)
  unfolding load_workflow_entry
  load_workflow_entries end w = ok w
  load_workflow_entries (entry key child es) w =
      load_workflow_entry key child w >>= λ w'. load_workflow_entries es w'

  -- The loop of `_load_workflow`.
  unfoldable pub load_workflow_items :
      CfgArray → Bool → List WorkflowCfg → Loaded (List WorkflowCfg)
  unfolding load_workflow_entries
  load_workflow_items nil enabled_stdin ws = ok ws
  load_workflow_items (cons (mapping es) ns) enabled_stdin ws =
      load_workflow_entries es (create_workflow_cfg, enabled_stdin) >>= λ r.
      load_workflow_items ns r.1 (o.push_workflow ws r.0)
  load_workflow_items (cons _ ns) enabled_stdin ws = assert_failed

  -- `_load_workflow`
  unfoldable pub load_workflow : CfgNode → List WorkflowCfg → Loaded (List WorkflowCfg)
  unfolding load_workflow_items
  load_workflow (array ns) ws = load_workflow_items ns false ws
  load_workflow _ ws = ok ws

-- `_load_service_data_mode`
unfoldable pub load_service_data_mode : CfgNode → Loaded SrvDataMode
unfolding strcmp
load_service_data_mode (value s) =
    if strcmp s "rw-pr" then ok rw_pr else if strcmp s "rw-pw" then ok rw_pw else exited
load_service_data_mode _ = assert_failed

-- An entry of a service, with `data_mode_exist`.
unfoldable pub load_service_entry :
    String → CfgNode → ServiceCfg × Bool → Loaded (ServiceCfg × Bool)
unfolding sk_config_getbool load_service_data_mode sk_config_getstring sk_config_getint
load_service_entry key child (s, exist) =
    if key is "enable"
    then (do b ← sk_config_getbool child; ok (record s { enable = b }, exist))
    else if key is "data_mode"
    then (do m ← load_service_data_mode child; ok (record s { data_mode = m }, true))
    else if key is "type"
    then (do t ← sk_config_getstring child; ok (record s { type = some t }, exist))
    else if key is "max_qsize"
    then (do n ← sk_config_getint child; ok (record s { max_qsize = n }, exist))
    else ok (s, exist)

unfoldable pub load_service_entries : CfgMapping → ServiceCfg × Bool → Loaded (ServiceCfg × Bool)
unfolding load_service_entry
load_service_entries end s = ok s
load_service_entries (entry key child es) s =
    load_service_entry key child s >>= λ s'. load_service_entries es s'

-- `_load_service`, up to the table
unfoldable pub load_service : CfgNode → Loaded ServiceCfg
unfolding load_service_entries
load_service (mapping es) = do
  r ← load_service_entries es (service_cfg_item_create, false)
  if r.1 then ok r.0 else exited
load_service _ = assert_failed

module _ (o : Flibs) where
  -- The loop of `_load_services`.
  unfoldable pub load_service_items :
      CfgMapping → List (String × ServiceCfg) → Loaded (List (String × ServiceCfg))
  unfolding load_service
  load_service_items end ss = ok ss
  load_service_items (entry name child es) ss =
      load_service child >>= λ s. load_service_items es (o.set_service name s ss)

  -- `_load_services`
  unfoldable pub load_services :
      CfgNode → List (String × ServiceCfg) → Loaded (List (String × ServiceCfg))
  unfolding load_service_items
  load_services (mapping es) ss = load_service_items es ss
  load_services _ ss = ok ss

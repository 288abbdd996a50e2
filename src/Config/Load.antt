-- ===== src/Config/Load.antt =====
-- Loading the whole configuration, src/components/sk_config.c: the keys of its root, and what is
-- checked afterwards.
use Prim.Native.String.{String}
use skull.Prelude.{
  Bool, true, false, ◌&&◌, Option, none, some, List, [], ◌∷◌, ◌==◌, length, ltb, if◌then◌else◌,
}
use skull.Config.{
  Bytes, Loaded, ok, assert_failed, exited, undefined, ◌>>=◌, ◌>>◌, sk_assert, CfgNode, value,
  array, mapping, CfgArray, nil, cons, CfgMapping, end, entry, LogLevel, level_trace, level_debug,
  level_info, level_warn, level_error, level_fatal, SkConfig, Flibs, strncpy, c_string,
  create_config,
}
use skull.Config.Values.{
  strcmp, has_char, sk_config_getint, sk_config_getbool, sk_config_getstring, is_pos, is_nonneg,
  is_port,
}
use skull.Config.Workflows.{◌is◌, load_workflow, load_services}

-- `_load_log_name` and `_load_diaglog_name`: the array that is filled.
unfoldable pub load_log_name : CfgNode → Loaded Bytes
unfolding strncpy
load_log_name (value []) = exited
load_log_name (value (c ∷ cs)) = ok (strncpy (c ∷ cs) 64)
load_log_name _ = assert_failed

-- `_load_log_level`
unfoldable pub load_log_level : CfgNode → Loaded LogLevel
unfolding strcmp
load_log_level (value s) =
    if strcmp s "trace"
    then ok level_trace
    else if strcmp s "debug"
    then ok level_debug
    else if strcmp s "info"
    then ok level_info
    else if strcmp s "warn"
    then ok level_warn
    else if strcmp s "error"
    then ok level_error
    else if strcmp s "fatal"
    then ok level_fatal
    else exited
load_log_level _ = assert_failed

module _ (o : Flibs) where
  -- The loop of `_load_langs`.
  unfoldable pub load_lang_items : CfgArray → List Bytes → Loaded (List Bytes)
  load_lang_items nil ls = ok ls
  load_lang_items (cons (value l) ns) ls = load_lang_items ns (o.set_lang l ls)
  load_lang_items (cons _ ns) ls = assert_failed

  -- `_load_langs`
  unfoldable pub load_langs : CfgNode → List Bytes → Loaded (List Bytes)
  unfolding load_lang_items
  load_langs (array ns) ls = load_lang_items ns ls
  load_langs _ ls = ok ls

-- `_load_bios`
unfoldable pub load_bios : CfgNode → SkConfig → Loaded SkConfig
unfolding sk_config_getint
load_bios (value v) c = do
  n ← sk_config_getint (value v)
  sk_assert (is_nonneg n)
  ok (record c { bio_cnt = n })
load_bios _ c = ok c

-- The keys of the root that `_load_config` knows.
pub data Key : Type 0 where
  worker_threads : Key
  workflows : Key
  log_name : Key
  diag_log : Key
  log_level : Key
  services : Key
  bg_iothreads : Key
  languages : Key
  command_port : Key
  command_bind : Key
  max_fds : Key
  txn_logging : Key
  slowlog_ms : Key
  unknown : Key

-- The comparisons of `_load_config`, in their order.
unfoldable pub key_of : String → Key
key_of s =
    if s is "worker_threads"
    then worker_threads
    else if s is "workflows"
    then workflows
    else if s is "log_name"
    then log_name
    else if s is "diag_log"
    then diag_log
    else if s is "log_level"
    then log_level
    else if s is "services"
    then services
    else if s is "bg_iothreads"
    then bg_iothreads
    else if s is "languages"
    then languages
    else if s is "command_port"
    then command_port
    else if s is "command_bind"
    then command_bind
    else if s is "max_fds"
    then max_fds
    else if s is "txn_logging"
    then txn_logging
    else if s is "slowlog_ms"
    then slowlog_ms
    else unknown

module _ (o : Flibs) where
  -- The branches of `_load_config`.
  unfoldable pub load_entry : Key → CfgNode → SkConfig → Loaded SkConfig
  unfolding load_workflow load_log_name load_log_level load_services load_bios load_langs
  load_entry worker_threads n c = do
    threads ← sk_config_getint n
    sk_assert (is_pos threads)
    ok (record c { threads = threads })
  load_entry workflows n c = do ws ← load_workflow o n c.workflows; ok (record c { workflows = ws })
  load_entry log_name n c = do name ← load_log_name n; ok (record c { log_name = name })
  load_entry diag_log n c = do name ← load_log_name n; ok (record c { diag_name = name })
  load_entry log_level n c = do level ← load_log_level n; ok (record c { log_level = level })
  load_entry services n c = do ss ← load_services o n c.services; ok (record c { services = ss })
  load_entry bg_iothreads n c = load_bios n c
  load_entry languages n c = do ls ← load_langs o n c.langs; ok (record c { langs = ls })
  load_entry command_port n c = do
    port ← sk_config_getint n
    sk_assert (is_port port)
    ok (record c { command_port = port })
  load_entry command_bind n c = do
    s ← sk_config_getstring n
    ok (record c { command_bind = some s })
  load_entry max_fds n c = do fds ← sk_config_getint n; ok (record c { max_fds = fds })
  load_entry txn_logging n c = do b ← sk_config_getbool n; ok (record c { txn_logging = b })
  load_entry slowlog_ms n c = do ms ← sk_config_getint n; ok (record c { slowlog_ms = ms })
  load_entry unknown n c = ok c

  unfoldable pub load_entries : CfgMapping → SkConfig → Loaded SkConfig
  unfolding load_entry key_of
  load_entries end c = ok c
  load_entries (entry key child es) c = load_entry (key_of key) child c >>= λ c'. load_entries es c'

  -- `_load_config`
  unfoldable pub load_config : CfgNode → SkConfig → Loaded SkConfig
  unfolding load_entries
  load_config (mapping es) c = load_entries es c
  load_config _ c = assert_failed

-- `_validate_logname`
unfoldable pub validate_logname : Bytes → Bool
unfolding has_char
validate_logname [] = false
validate_logname (c ∷ cs) =
    if has_char b'/' (c ∷ cs) then c == b'/' && ltb 1 (length (c ∷ cs)) else true

-- `_validate_logname` on an array. Where nothing ends the string, it is read behind the array.
unfoldable pub check_string : Option Bytes → Loaded (Unit {0})
unfolding validate_logname
check_string none = undefined
check_string (some s) = sk_assert (validate_logname s)

unfoldable pub check_logname : Bytes → Loaded (Unit {0})
unfolding c_string check_string
check_logname name = check_string (c_string name)

-- `_post_load`
unfoldable pub post_load : SkConfig → Loaded (Unit {0})
unfolding check_logname
post_load c = do check_logname c.log_name; check_logname c.diag_name

-- `_load_config` of what `sk_config_load` returned. An empty document has no root.
unfoldable pub load_root : Flibs → Option CfgNode → SkConfig → Loaded SkConfig
unfolding load_config
load_root o none c = undefined
load_root o (some n) c = load_config o n c

-- The string in `config->location`.
unfoldable pub read_location : Option Bytes → Loaded Bytes
read_location none = undefined
read_location (some s) = ok s

-- `sk_config_create`, where `load` is `sk_config_load` of a location.
unfoldable pub sk_config_create :
    Flibs → (load : Bytes → Loaded (Option CfgNode)) → Bytes → Loaded SkConfig
unfolding create_config load_root read_location post_load
sk_config_create o load filename = do
  location ← read_location (c_string (create_config filename).location)
  root ← load location
  config ← load_root o root (create_config filename)
  post_load config
  ok config

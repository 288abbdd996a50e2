-- ===== src/Config.antt =====
-- The configuration: the nodes of src/common/sk_config_loader.c, and the records of
-- src/api/sk_config.h with their defaults in src/components/sk_config.c.
pub mod Values
pub mod Workflows
pub mod Load
pub mod Outcome
pub mod Keys
mod Fields
pub mod Ports
pub mod Services
pub mod Valid
pub mod Order
pub mod Laws
mod Tests
use Prim.Native.String.{String}
use Prim.Native.Char.{code}
use skull.Prelude.{
  ℕ, zero, suc, Bool, true, false, Option, none, some, List, [], ◌∷◌, ◌++◌, length, ltb,
  if◌then◌else◌,
}
use skull.Prelude.Int.{ℤ, pos, negsuc}

-- A C string without its terminator.
abbrev pub Bytes : Type 0
Bytes = List ℕ

abbrev pub codes : String → Bytes
codes String.[] = []
codes (String.◌∷◌ c s) = code c ∷ codes s

-- The outcome of loading: a value, a failed `SK_ASSERT`, `exit(1)`, or a read that C does not
-- define, as of the wrong member of a union or behind an array.
pub data Loaded {ℓ} (A : Type ℓ) : Type ℓ where
  ok : A → Loaded A
  assert_failed : Loaded A
  exited : Loaded A
  undefined : Loaded A

infixl 5 ◌>>=◌ ◌>>◌
abbrev pub ◌>>=◌ {ℓ κ} : {A : Type ℓ} {B : Type κ} → Loaded A → (A → Loaded B) → Loaded B
ok a >>= f = f a
assert_failed >>= f = assert_failed
exited >>= f = exited
undefined >>= f = undefined

abbrev pub ◌>>◌ {κ} : {B : Type κ} → Loaded (Unit {0}) → Loaded B → Loaded B
m >> k = m >>= λ _. k

-- `SK_ASSERT(b)`
abbrev pub sk_assert : Bool → Loaded (Unit {0})
sk_assert true = ok tt
sk_assert false = assert_failed

-- `sk_cfg_node_t`. A mapping lists its entries in the order in which the hash table gives them.
mutual
  pub data CfgNode : Type 0 where
    value : Bytes → CfgNode
    array : CfgArray → CfgNode
    mapping : CfgMapping → CfgNode

  pub data CfgArray : Type 0 where
    nil : CfgArray
    cons : CfgNode → CfgArray → CfgArray

  pub data CfgMapping : Type 0 where
    end : CfgMapping
    entry : String → CfgNode → CfgMapping → CfgMapping

-- `sk_module_cfg_t`
pub record ModuleCfg : Type 0 where
  pub name : Bytes
  pub type : Bytes

pub data SockType : Type 0 where
  sock_tcp : SockType
  sock_udp : SockType

-- `sk_workflow_cfg_t`
pub record WorkflowCfg : Type 0 where
  pub concurrent : Bool
  pub enable_stdin : Bool
  pub sock_type : SockType
  pub port : ℤ
  pub bind : Bytes
  pub idl_name : Option Bytes
  pub modules : List ModuleCfg
  pub timeout : ℤ

pub data SrvDataMode : Type 0 where
  rw_pr : SrvDataMode
  rw_pw : SrvDataMode

-- `sk_service_cfg_t`
pub record ServiceCfg : Type 0 where
  pub type : Option Bytes
  pub enable : Bool
  pub data_mode : SrvDataMode
  pub max_qsize : ℤ

pub data LogLevel : Type 0 where
  level_trace : LogLevel
  level_debug : LogLevel
  level_info : LogLevel
  level_warn : LogLevel
  level_error : LogLevel
  level_fatal : LogLevel

-- `sk_config_t`. `location`, `log_name` and `diag_name` are arrays of bytes, the hash tables lists
-- of their entries.
pub record SkConfig : Type 0 where
  pub location : Bytes
  pub log_name : Bytes
  pub diag_name : Bytes
  pub threads : ℤ
  pub log_level : LogLevel
  pub workflows : List WorkflowCfg
  pub services : List (String × ServiceCfg)
  pub bio_cnt : ℤ
  pub command_port : ℤ
  pub command_bind : Option Bytes
  pub langs : List Bytes
  pub max_fds : ℤ
  pub slowlog_ms : ℤ
  pub txn_logging : Bool

-- `flist_push` and `fhash_str_set` of flibs, for the lists and the tables of the configuration.
pub record Flibs : Type 0 where
  pub push_module : List ModuleCfg → ModuleCfg → List ModuleCfg
  pub push_workflow : List WorkflowCfg → WorkflowCfg → List WorkflowCfg
  pub set_service : String → ServiceCfg → List (String × ServiceCfg) → List (String × ServiceCfg)
  pub set_lang : Bytes → List Bytes → List Bytes

-- `strncpy(array, src, n)`: `n` bytes, filled with zeros, and with none where `src` is too long.
unfoldable pub strncpy : Bytes → ℕ → Bytes
strncpy src zero = []
strncpy [] (suc n) = 0 ∷ strncpy [] n
strncpy (c ∷ src) (suc n) = c ∷ strncpy src n

-- The string in an array, or none where nothing ends it.
unfoldable pub c_string : Bytes → Option Bytes
c_string [] = none
c_string (zero ∷ cs) = some []
c_string (suc c ∷ cs) = elim (c_string cs) [ none ↦ none | some s ↦ some (suc c ∷ s) ]

-- SK_CONFIG_NO_PORT
abbrev pub no_port : ℤ
no_port = negsuc 0

-- `_create_workflow_cfg`
abbrev pub create_workflow_cfg : WorkflowCfg
create_workflow_cfg = record {
  concurrent = false;
  enable_stdin = false;
  sock_type = sock_tcp;
  port = no_port;
  bind = codes "0.0.0.0";
  idl_name = none;
  modules = [];
  timeout = pos 0;
}

-- `_service_cfg_item_create`
abbrev pub service_cfg_item_create : ServiceCfg
service_cfg_item_create = record {
  type = none;
  enable = false;
  data_mode = rw_pr;
  max_qsize = pos 0;
}

-- `_create_config`, with the location that `sk_config_create` copies into it.
unfoldable pub create_config : Bytes → SkConfig
unfolding strncpy
create_config location = record {
  location = strncpy location 1024;
  log_name = strncpy (codes "skull.log") 64;
  diag_name = strncpy (codes "diag.log") 64;
  threads = pos 1;
  log_level = level_info;
  workflows = [];
  services = [];
  bio_cnt = pos 0;
  command_port = pos 7759;
  command_bind = none;
  langs = [];
  max_fds = pos 1024;
  slowlog_ms = pos 0;
  txn_logging = false;
}

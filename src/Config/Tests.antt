-- ===== src/Config/Tests.antt =====
-- Runs of the loading, and the theorems at a small configuration.
use Prim.Native.String.{String}
use text.Mathlib.TextEquality.{eq_iff}
use skull.Prelude.{
  ◌≡◌, ◌≢◌, refl, sym, subst, append-nil, All-append, true, Option, some, [], ◌∷◌, ◌++◌, arith,
}
use skull.Prelude.Int.{pos, negsuc}
use skull.EpPool.Count.{IsPush}
use skull.Config.{
  Bytes, codes, Loaded, ok, assert_failed, CfgNode, value, array, mapping, nil, cons, CfgMapping,
  end, entry, SkConfig, Flibs, create_config, create_workflow_cfg,
}
use skull.Config.Values.{has_char, sk_config_getint}
use skull.Config.Laws.{load_module-append}
use skull.Config.Workflows.{load_module}
use skull.Config.Load.{load_config, sk_config_create}
use skull.Config.Keys.{IsDistinct}
use skull.Config.Order.{exchange, load_config-Reordered}
use skull.Config.Valid.{IsValid, LogName, sk_config_create-IsValid}

abbrev scalar : String → CfgNode
scalar s = value (codes s)

-- Lists that grow at their ends.
abbrev at_end : Flibs
at_end = record {
  push_module = λ ms m. ms ++ m ∷ [];
  push_workflow = λ ws w. ws ++ w ∷ [];
  set_service = λ name s ss. ss ++ (name, s) ∷ [];
  set_lang = λ l ls. ls ++ l ∷ [];
}

getint_blank : sk_config_getint (scalar "  -42x") ≡ ok (negsuc 41)
unfolding sk_config_getint
getint_blank = refl

getint_wraps : sk_config_getint (scalar "4294967297") ≡ ok (pos 1)
unfolding sk_config_getint
getint_wraps = refl

getint_range : sk_config_getint (scalar "9223372036854775808") ≡ assert_failed
unfolding sk_config_getint
getint_range = refl

module_cpp :
    load_module (codes "test:cpp") ≡ ok (record { name = codes "test"; type = codes "cpp" })
unfolding load_module
module_cpp = refl

module_no_type : load_module (codes "test") ≡ assert_failed
unfolding load_module
module_no_type = refl

module_rest :
    load_module (codes "test:py:x") ≡ ok (record { name = codes "test"; type = codes "py" })
unfolding load_module
module_rest = refl

abbrev flow : CfgMapping
flow =
    entry "port" (scalar "7758")
      (entry "modules" (array (cons (scalar "test:cpp") nil)) (entry "stdin" (scalar "1") end))

abbrev threads_first : CfgMapping
threads_first =
    entry "worker_threads" (scalar "4") (entry "workflows" (array (cons (mapping flow) nil)) end)

abbrev threads_last : CfgMapping
threads_last =
    entry "workflows" (array (cons (mapping flow) nil)) (entry "worker_threads" (scalar "4") end)

abbrev small : SkConfig
small = record (create_config (codes "a.yaml")) {
  threads = pos 4;
  workflows =
      record create_workflow_cfg {
        port = pos 7758;
        enable_stdin = true;
        modules = record { name = codes "test"; type = codes "cpp" } ∷ [];
      }
      ∷ [];
}

small_loads : load_config at_end (mapping threads_first) (create_config (codes "a.yaml")) ≡ ok small
unfolding load_config create_config
small_loads = refl

load_config-Reordered_example :
    load_config at_end (mapping threads_last) (create_config (codes "a.yaml")) ≡ ok small
load_config-Reordered_example =
    load_config-Reordered at_end threads_first threads_last (create_config (codes "a.yaml")) small
      (exchange "worker_threads" (scalar "4") "workflows" (array (cons (mapping flow) nil)) end
        (ground (arith, eq_iff "worker_threads" "workflows")))
      small_loads

abbrev load_small : Bytes → Loaded (Option CfgNode)
load_small location = ok (some (mapping threads_first))

small_created : sk_config_create at_end load_small (codes "a.yaml") ≡ ok small
unfolding sk_config_create create_config
small_created = refl

at_end-IsPush : IsPush at_end.push_workflow
at_end-IsPush ws w = (ws, [], sym (append-nil ws), refl)

load_small-IsDistinct :
    (location : Bytes) (es : CfgMapping)
    → load_small location ≡ ok (some (mapping es))
    → IsDistinct es
load_small-IsDistinct location es e =
    let same : threads_first ≡ es = cc in subst IsDistinct same ((differ, tt), (tt, tt))
  where
    differ : ◌≢◌ {A = String} "worker_threads" "workflows"
    differ = ground (arith, eq_iff "worker_threads" "workflows")

sk_config_create-IsValid_example : IsValid small × LogName small.log_name × LogName small.diag_name
sk_config_create-IsValid_example =
    sk_config_create-IsValid at_end load_small (codes "a.yaml") small at_end-IsPush
      (λ P name s ss h hs. All-append P ss ((name, s) ∷ []) hs (h, tt)) load_small-IsDistinct
      small_created

getint_zero : sk_config_getint (scalar "0") ≡ ok (pos 0)
unfolding sk_config_getint
getint_zero = refl

load_module-append_example :
    load_module (codes "test" ++ b':' ∷ codes "cpp")
    ≡ ok (record { name = codes "test"; type = codes "cpp" })
unfolding has_char
load_module-append_example = load_module-append (codes "test") (codes "cpp") refl refl (omega arith)

-- ===== src/Config/Fields.antt =====
-- Each key of the root has a field of the configuration of its own, which its entry reads and writes
-- and no other.
use Prim.Native.String.{String}
use skull.Prelude.{◌≡◌, ◌≢◌, refl, sym, ap, ◌∙◌, Bool, Option, some, List}
use skull.Prelude.Int.{ℤ}
use skull.Config.{
  Bytes, Loaded, ok, assert_failed, exited, undefined, ◌>>=◌, sk_assert, CfgNode, value, array,
  mapping, WorkflowCfg, ServiceCfg, LogLevel, SkConfig, Flibs,
}
use skull.Config.Values.{
  sk_config_getint, sk_config_getbool, sk_config_getstring, is_pos, is_nonneg, is_port,
}
use skull.Config.Workflows.{load_workflow, load_services}
use skull.Config.Load.{
  load_log_name, load_log_level, load_langs, Key, worker_threads, workflows, log_name, diag_log,
  log_level, services, bg_iothreads, languages, command_port, command_bind, max_fds, txn_logging,
  slowlog_ms, unknown, load_entry,
}
use skull.Config.Outcome.{bind-ok, bind_assoc, ok-inj}

-- Each key has a field of its own.
abbrev pub Field : Key → Type 0
Field worker_threads = ℤ
Field workflows = List WorkflowCfg
Field log_name = Bytes
Field diag_log = Bytes
Field log_level = LogLevel
Field services = List (String × ServiceCfg)
Field bg_iothreads = ℤ
Field languages = List Bytes
Field command_port = ℤ
Field command_bind = Option Bytes
Field max_fds = ℤ
Field txn_logging = Bool
Field slowlog_ms = ℤ
Field unknown = Unit

abbrev pub get : (k : Key) → SkConfig → Field k
get worker_threads c = c.threads
get workflows c = c.workflows
get log_name c = c.log_name
get diag_log c = c.diag_name
get log_level c = c.log_level
get services c = c.services
get bg_iothreads c = c.bio_cnt
get languages c = c.langs
get command_port c = c.command_port
get command_bind c = c.command_bind
get max_fds c = c.max_fds
get txn_logging c = c.txn_logging
get slowlog_ms c = c.slowlog_ms
get unknown c = tt

abbrev pub put : (k : Key) → Field k → SkConfig → SkConfig
put worker_threads v c = record c { threads = v }
put workflows v c = record c { workflows = v }
put log_name v c = record c { log_name = v }
put diag_log v c = record c { diag_name = v }
put log_level v c = record c { log_level = v }
put services v c = record c { services = v }
put bg_iothreads v c = record c { bio_cnt = v }
put languages v c = record c { langs = v }
put command_port v c = record c { command_port = v }
put command_bind v c = record c { command_bind = v }
put max_fds v c = record c { max_fds = v }
put txn_logging v c = record c { txn_logging = v }
put slowlog_ms v c = record c { slowlog_ms = v }
put unknown v c = c

pub get-put : (k j : Key) → k ≢ j → (v : Field j) (c : SkConfig) → get k (put j v c) ≡ get k c
get-put worker_threads worker_threads h v c = absurd (h refl)
get-put workflows workflows h v c = absurd (h refl)
get-put log_name log_name h v c = absurd (h refl)
get-put diag_log diag_log h v c = absurd (h refl)
get-put log_level log_level h v c = absurd (h refl)
get-put services services h v c = absurd (h refl)
get-put bg_iothreads bg_iothreads h v c = absurd (h refl)
get-put languages languages h v c = absurd (h refl)
get-put command_port command_port h v c = absurd (h refl)
get-put command_bind command_bind h v c = absurd (h refl)
get-put max_fds max_fds h v c = absurd (h refl)
get-put txn_logging txn_logging h v c = absurd (h refl)
get-put slowlog_ms slowlog_ms h v c = absurd (h refl)
get-put unknown unknown h v c = refl
get-put _ _ h v c = refl

put_comm :
    (k j : Key)
    → k ≢ j
    → (u : Field k) (v : Field j) (c : SkConfig) → put k u (put j v c) ≡ put j v (put k u c)
put_comm worker_threads worker_threads h u v c = absurd (h refl)
put_comm workflows workflows h u v c = absurd (h refl)
put_comm log_name log_name h u v c = absurd (h refl)
put_comm diag_log diag_log h u v c = absurd (h refl)
put_comm log_level log_level h u v c = absurd (h refl)
put_comm services services h u v c = absurd (h refl)
put_comm bg_iothreads bg_iothreads h u v c = absurd (h refl)
put_comm languages languages h u v c = absurd (h refl)
put_comm command_port command_port h u v c = absurd (h refl)
put_comm command_bind command_bind h u v c = absurd (h refl)
put_comm max_fds max_fds h u v c = absurd (h refl)
put_comm txn_logging txn_logging h u v c = absurd (h refl)
put_comm slowlog_ms slowlog_ms h u v c = absurd (h refl)
put_comm unknown unknown h u v c = refl
put_comm _ _ h u v c = refl

-- What an entry puts into its field, from what the field holds.
abbrev pub checked : (ℤ → Bool) → CfgNode → Loaded ℤ
checked test n = sk_config_getint n >>= λ i. sk_assert (test i) >>= λ _. ok i

abbrev pub read_bios : CfgNode → ℤ → Loaded ℤ
read_bios (value v) old = checked is_nonneg (value v)
read_bios _ old = ok old

module _ (o : Flibs) where
  abbrev pub read_field : (k : Key) → CfgNode → Field k → Loaded (Field k)
  read_field worker_threads n old = checked is_pos n
  read_field workflows n old = load_workflow o n old
  read_field log_name n old = load_log_name n
  read_field diag_log n old = load_log_name n
  read_field log_level n old = load_log_level n
  read_field services n old = load_services o n old
  read_field bg_iothreads n old = read_bios n old
  read_field languages n old = load_langs o n old
  read_field command_port n old = checked is_port n
  read_field command_bind n old = sk_config_getstring n >>= λ s. ok (some s)
  read_field max_fds n old = sk_config_getint n
  read_field txn_logging n old = sk_config_getbool n
  read_field slowlog_ms n old = sk_config_getint n
  read_field unknown n old = ok tt

  checked-put :
      (test : ℤ → Bool) (n : CfgNode) (f : ℤ → SkConfig)
      → (sk_config_getint n >>= λ i. sk_assert (test i) >>= λ _. ok (f i))
        ≡ (checked test n >>= λ i. ok (f i))
  checked-put test n f =
      elim (sk_config_getint n)
        as (λ m.
          (m >>= λ i. sk_assert (test i) >>= λ _. ok (f i))
          ≡ (m >>= (λ i. sk_assert (test i) >>= λ _. ok i) >>= λ i. ok (f i))) [
            | ok i ↦ sym (bind_assoc (sk_assert (test i)) (λ _. ok i) (λ i. ok (f i)))
            | assert_failed ↦ refl
            | exited ↦ refl
            | undefined ↦ refl
          ]

  -- An entry reads and writes the field of its key and no other.
  load_entry-local :
      (k : Key) (n : CfgNode) (c : SkConfig)
      → load_entry o k n c ≡ (read_field k n (get k c) >>= λ v. ok (put k v c))
  unfolding load_entry
  load_entry-local worker_threads n c = checked-put is_pos n (λ i. record c { threads = i })
  load_entry-local workflows n c = refl
  load_entry-local log_name n c = refl
  load_entry-local diag_log n c = refl
  load_entry-local log_level n c = refl
  load_entry-local services n c = refl
  load_entry-local bg_iothreads (value v) c =
      checked-put is_nonneg (value v) (λ i. record c { bio_cnt = i })
  load_entry-local bg_iothreads (array ns) c = refl
  load_entry-local bg_iothreads (mapping es) c = refl
  load_entry-local languages n c = refl
  load_entry-local command_port n c = checked-put is_port n (λ i. record c { command_port = i })
  load_entry-local command_bind n c = sym (
      bind_assoc (sk_config_getstring n) (λ s. ok (some s))
        (λ s. ok (record c { command_bind = s })))
  load_entry-local max_fds n c = refl
  load_entry-local txn_logging n c = refl
  load_entry-local slowlog_ms n c = refl
  load_entry-local unknown n c = refl

  -- What a successful entry did.
  pub load_entry-ok :
      (k : Key) (n : CfgNode) (c d : SkConfig)
      → load_entry o k n c ≡ ok d
      → (v : Field k) × (read_field k n (get k c) ≡ ok v) × (put k v c ≡ d)
  load_entry-ok k n c d e =
      let (v, read, done) =
        bind-ok (read_field k n (get k c)) (λ v. ok (put k v c)) d
          (sym (load_entry-local k n c) ∙ e) in
      (v, read, ok-inj _ _ done)

  read-load_entry :
      (k : Key) (n : CfgNode) (c : SkConfig) (v : Field k)
      → read_field k n (get k c) ≡ ok v
      → load_entry o k n c ≡ ok (put k v c)
  read-load_entry k n c v e = load_entry-local k n c ∙ ap (λ m. m >>= λ u. ok (put k u c)) e

  -- Entries of different keys can be loaded in either order.
  pub load_entry_comm :
      (k j : Key) (n p : CfgNode) (c d e : SkConfig)
      → k ≢ j
      → load_entry o k n c ≡ ok d
      → load_entry o j p d ≡ ok e
      → (d' : SkConfig) × (load_entry o j p c ≡ ok d') × (load_entry o k n d' ≡ ok e)
  load_entry_comm k j n p c d e differ first second =
      let (u, read, at_d) = load_entry-ok k n c d first in
      let (v, read', at_e) = load_entry-ok j p d e second in
      let differ' : j ≢ k = λ h. differ (sym h) in
      let seen : get j c ≡ get j d = sym (get-put j k differ' u c) ∙ ap (get j) at_d in
      let kept : read_field k n (get k (put j v c)) ≡ ok u =
        ap (read_field k n) (get-put k j differ v c) ∙ read in
      (
        put j v c,
        read-load_entry j p c v (ap (read_field j p) seen ∙ read'),
        read-load_entry k n (put j v c) u kept
            ∙ ap ok (put_comm k j differ u v c ∙ ap (put j v) at_d ∙ at_e),
      )

pub Key-discrete : Discrete Key
Key-discrete = hlevel

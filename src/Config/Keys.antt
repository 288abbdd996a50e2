-- ===== src/Config/Keys.antt =====
-- The keys of the root of a configuration and the texts that are compared with them.
use Prim.Native.String.{String}
use text.Mathlib.TextEquality.{eq_iff}
use skull.Prelude.{◌≡◌, ◌≢◌, refl, sym, ap, ◌∙◌, ◌⊎◌, inl, inr, Bool-cases, if◌then◌else◌}
use skull.Config.{CfgMapping, end, entry}
use skull.Config.Workflows.{◌is◌}
use skull.Config.Load.{
  Key, worker_threads, workflows, log_name, diag_log, log_level, services, bg_iothreads, languages,
  command_port, command_bind, max_fds, txn_logging, slowlog_ms, unknown, key_of,
}

abbrev key_text : Key → String
key_text worker_threads = "worker_threads"
key_text workflows = "workflows"
key_text log_name = "log_name"
key_text diag_log = "diag_log"
key_text log_level = "log_level"
key_text services = "services"
key_text bg_iothreads = "bg_iothreads"
key_text languages = "languages"
key_text command_port = "command_port"
key_text command_bind = "command_bind"
key_text max_fds = "max_fds"
key_text txn_logging = "txn_logging"
key_text slowlog_ms = "slowlog_ms"
key_text unknown = ""

abbrev IsNamed : String → Key → Type 0
IsNamed s k = (k ≡ unknown) ⊎ (s ≡ key_text k)

-- One comparison of the chain.
IsNamed-step :
    (s text : String) (k other : Key)
    → key_text k ≡ text
    → IsNamed s other
    → IsNamed s (if s is text then k else other)
IsNamed-step s text k other e h = elim (Bool-cases (s is text)) [
  | inl same ↦ rw same (inr ((eq_iff s text).0 same ∙ sym e))
  | inr differ ↦ rw differ h
]

key_of-IsNamed : (s : String) → IsNamed s (key_of s)
unfolding key_of
key_of-IsNamed s = IsNamed-step s _ worker_threads _ refl (
    IsNamed-step s _ workflows _ refl (
      IsNamed-step s _ log_name _ refl (
        IsNamed-step s _ diag_log _ refl (
          IsNamed-step s _ log_level _ refl (
            IsNamed-step s _ services _ refl (
              IsNamed-step s _ bg_iothreads _ refl (
                IsNamed-step s _ languages _ refl (
                  IsNamed-step s _ command_port _ refl (
                    IsNamed-step s _ command_bind _ refl (
                      IsNamed-step s _ max_fds _ refl (
                        IsNamed-step s _ txn_logging _ refl
                          (IsNamed-step s _ slowlog_ms _ refl (inl refl)))))))))))))

-- Texts that name the same key are the same, or not known.
pub key_of-inj : (s t : String) → key_of s ≡ key_of t → (key_of s ≡ unknown) ⊎ (s ≡ t)
key_of-inj s t e = elim (key_of-IsNamed s) [
  | inl h ↦ inl h
  | inr h ↦ elim (key_of-IsNamed t) [
    | inl h' ↦ inl (e ∙ h')
    | inr h' ↦ inr (h ∙ ap key_text e ∙ sym h')
  ]
]

-- A key that no entry has, and a mapping in which each key stands once, as in a hash table.
abbrev pub IsFresh : String → CfgMapping → Type 0
IsFresh k end = Unit
IsFresh k (entry j n es) = (k ≢ j) × IsFresh k es

abbrev pub IsDistinct : CfgMapping → Type 0
IsDistinct end = Unit
IsDistinct (entry k n es) = IsFresh k es × IsDistinct es

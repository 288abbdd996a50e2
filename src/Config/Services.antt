-- ===== src/Config/Services.antt =====
-- What the loading of services leaves: a `max_qsize` that is an `int`.
use Prim.Native.String.{String}
use skull.Prelude.{ℕ, Bool, true, false, List, All, arith}
use skull.Config.{
  CfgNode, value, array, mapping, CfgMapping, end, entry, ServiceCfg, service_cfg_item_create,
  Flibs,
}
use skull.Config.Values.{
  IsInt, in_long, int_of_long, read_sign, skip_spaces, read_digits, sk_config_getint,
  sk_config_getbool, sk_config_getstring,
}
use skull.Config.Workflows.{
  ◌is◌, load_service_data_mode, load_service_entry, load_service_entries, load_service,
  load_service_items, load_services,
}
use skull.Config.Outcome.{Gives, Gives-if, Gives-bind, Gives-ok}

int_of_long-IsInt : (negative : Bool) (n : ℕ) → IsInt (int_of_long negative n)
unfolding int_of_long
int_of_long-IsInt true n = ground arith
int_of_long-IsInt false n = ground arith

sk_config_getint-IsInt : (n : CfgNode) → Gives IsInt (sk_config_getint n)
unfolding sk_config_getint
sk_config_getint-IsInt (value v) =
    let r = read_sign (skip_spaces v) in
    Gives-if IsInt (in_long r.0 (read_digits 0 r.1)) _ _
      (Gives-ok IsInt _ (int_of_long-IsInt r.0 (read_digits 0 r.1))) (λ i e. cc)
sk_config_getint-IsInt (array ns) = λ i e. cc
sk_config_getint-IsInt (mapping es) = λ i e. cc

abbrev pub QsizeIsInt : ServiceCfg → Type 0
QsizeIsInt s = IsInt s.max_qsize

abbrev P : ServiceCfg × Bool → Type 0
P r = QsizeIsInt r.0

load_service_entry-IsInt :
    (key : String) (n : CfgNode) (s : ServiceCfg) (exist : Bool)
    → QsizeIsInt s
    → Gives P (load_service_entry key n (s, exist))
unfolding load_service_entry
load_service_entry-IsInt key n s exist h =
    Gives-if P (key is "enable") _ _ (Gives-bind P (sk_config_getbool n) _ (λ b e. Gives-ok P _ h))
      (Gives-if P (key is "data_mode") _ _
        (Gives-bind P (load_service_data_mode n) _ (λ m e. Gives-ok P _ h))
        (Gives-if P (key is "type") _ _
          (Gives-bind P (sk_config_getstring n) _ (λ t e. Gives-ok P _ h))
          (Gives-if P (key is "max_qsize") _ _
            (Gives-bind P (sk_config_getint n) _
              (λ i e. Gives-ok P _ (sk_config_getint-IsInt n i e)))
            (Gives-ok P _ h))))

load_service_entries-IsInt :
    (es : CfgMapping) (s : ServiceCfg) (exist : Bool)
    → QsizeIsInt s
    → Gives P (load_service_entries es (s, exist))
unfolding load_service_entries
load_service_entries-IsInt end s exist h = Gives-ok P _ h
load_service_entries-IsInt (entry key n es) s exist h =
    Gives-bind P (load_service_entry key n (s, exist)) _
      (λ r e. load_service_entries-IsInt es r.0 r.1 (load_service_entry-IsInt key n s exist h r e))

load_service-IsInt : (n : CfgNode) → Gives QsizeIsInt (load_service n)
unfolding load_service
load_service-IsInt (mapping es) =
    Gives-bind QsizeIsInt (load_service_entries es (service_cfg_item_create, false)) _ (λ r e.
      Gives-if QsizeIsInt r.1 _ _
        (Gives-ok QsizeIsInt r.0
          (load_service_entries-IsInt es service_cfg_item_create false (omega arith) r e))
        (λ s f. cc))
load_service-IsInt (value v) = λ s e. cc
load_service-IsInt (array ns) = λ s e. cc

abbrev pub QsizesAreInt : List (String × ServiceCfg) → Type 0
QsizesAreInt ss = All (λ (s : String × ServiceCfg). QsizeIsInt s.1) ss

-- What `fhash_str_set` leaves: the new entry and entries that were there, so what holds of these
-- holds of all.
abbrev pub Sets :
    (String → ServiceCfg → List (String × ServiceCfg) → List (String × ServiceCfg)) → Type 1
Sets set =
    (P : String × ServiceCfg → Type 0) (name : String) (s : ServiceCfg)
    (ss : List (String × ServiceCfg))
    → P (name, s)
    → All P ss
    → All P (set name s ss)

module _ (o : Flibs) (law : Sets o.set_service) where
  load_service_items-IsInt :
      (es : CfgMapping) (ss : List (String × ServiceCfg))
      → QsizesAreInt ss
      → Gives QsizesAreInt (load_service_items o es ss)
  unfolding load_service_items
  load_service_items-IsInt end ss hs = Gives-ok QsizesAreInt ss hs
  load_service_items-IsInt (entry name n es) ss hs =
      Gives-bind QsizesAreInt (load_service n) _ (λ s e.
        load_service_items-IsInt es (o.set_service name s ss)
          (law (λ t. QsizeIsInt t.1) name s ss (load_service-IsInt n s e) hs))

  pub load_services-IsInt :
      (n : CfgNode) (ss : List (String × ServiceCfg))
      → QsizesAreInt ss
      → Gives QsizesAreInt (load_services o n ss)
  unfolding load_services
  load_services-IsInt (mapping es) ss hs = load_service_items-IsInt es ss hs
  load_services-IsInt (value v) ss hs = Gives-ok QsizesAreInt ss hs
  load_services-IsInt (array ns) ss hs = Gives-ok QsizesAreInt ss hs

-- ===== src/Modules.antt =====
-- The capability registry of platforms: apps/api/app/modules/base.py and
-- apps/api/app/modules/registry.py. A registry is the list of its specs in the order in which they
-- were registered.
pub mod Catalogue
pub mod Hazards
pub mod Scenarios
pub mod Examples
use aidflow.Prelude.{
  String, Bool, false, not, ◌&&◌, ◌||◌, Option, none, some, List, [], ◌∷◌, ◌++◌, map, any, select,
  first, str_eq, member, is_text, if◌then◌else◌,
}

pub record ModuleSpec : Type 0 where
  pub id : String
  pub name : String
  pub domain : String
  pub module_type : String
  pub surfaces : List String
  pub applicable_hazards : List String
  pub default_enabled : Bool
  pub core : Bool
  pub dependencies : List String
  pub layer_key : Option String
  pub source : Option String

abbrev pub Registry : Type 0
Registry = List ModuleSpec

-- `applies_to`
abbrev pub applies_to : ModuleSpec → List String → Bool
applies_to m hazards =
    member "*" m.applicable_hazards || any (λ h. member h m.applicable_hazards) hazards

-- `registry.get`
unfoldable pub get_module : Registry → String → Option ModuleSpec
get_module reg id = first (λ m. str_eq m.id id) reg

abbrev pub is_registered : Registry → String → Bool
is_registered reg id = any (λ m. str_eq m.id id) reg

abbrev pub is_layer : ModuleSpec → Bool
is_layer m = str_eq m.module_type "layer"

-- `register`; `none` is the `ValueError` of a duplicate, or of a layer without its key.
unfoldable pub register : ModuleSpec → Registry → Option Registry
register m reg =
    if is_registered reg m.id
    then none
    else if is_layer m && not (is_text m.layer_key)
    then none
    else some (reg ++ m ∷ [])

abbrev and_then : {A B : Type 0} → Option A → (A → Option B) → Option B
and_then none f = none
and_then (some a) f = f a

unfoldable pub register_all : List ModuleSpec → Registry → Option Registry
unfolding register
register_all [] reg = some reg
register_all (m ∷ ms) reg = and_then (register m reg) (register_all ms)

abbrev pub has_layer_key : String → ModuleSpec → Bool
has_layer_key key m = elim m.layer_key [ none ↦ false | some k ↦ str_eq k key ]

unfoldable pub layer_by_key : Registry → String → Option ModuleSpec
layer_by_key reg key = first (λ m. is_layer m && has_layer_key key m) reg

abbrev pub layers : Registry → List ModuleSpec
layers reg = select is_layer reg

abbrev pub core_ids : Registry → List String
core_ids reg = map (λ m. m.id) (select (λ m. m.core) reg)

-- The first of these that is not registered: what `validate_ids` raises for.
unfoldable pub unknown_id : Registry → List String → Option String
unknown_id reg ids = first (λ id. not (is_registered reg id)) ids

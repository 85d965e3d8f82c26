-- ===== src/Platforms/Selection.antt =====
-- `resolve_selection` of apps/api/app/services/platform_service.py. A Python set is the list of its
-- elements in the order in which they were added, and the loops go through it in that order.
pub mod Closure
pub mod Required
pub mod Correct
use aidflow.Prelude.{
  ℕ, zero, suc, String, Bool, true, false, not, ◌&&◌, Option, none, some, List, [], ◌∷◌, ◌++◌, map,
  select, length, member, is_text, text_or, if◌then◌else◌, first, sort_by, sort_with, index_in,
  unseen,
}
use aidflow.Modules.{
  ModuleSpec, Registry, get_module, is_registered, layer_by_key, layers, core_ids, unknown_id,
}

-- The dependencies of a selected module. `require` does not raise for it: whatever is selected is
-- registered.
abbrev pub dependencies_of : Registry → String → List String
dependencies_of reg id = elim (get_module reg id) [ none ↦ [] | some m ↦ m.dependencies ]

-- `changed`, and `selected`
abbrev pub Round : Type 0
Round = Bool × List String

unfoldable pub add_dependency : Registry → Round → String → Round
add_dependency reg (changed, selected) dep =
    if not (member dep selected) && is_registered reg dep
    then (true, selected ++ dep ∷ [])
    else (changed, selected)

unfoldable pub add_dependencies : Registry → Round → List String → Round
unfolding add_dependency
add_dependencies reg r [] = r
add_dependencies reg r (dep ∷ deps) = add_dependencies reg (add_dependency reg r dep) deps

-- The `for` loop over a snapshot of the set.
unfoldable pub complete_all : Registry → Round → List String → Round
unfolding add_dependencies get_module
complete_all reg r [] = r
complete_all reg r (id ∷ ids) =
    complete_all reg (add_dependencies reg r (dependencies_of reg id)) ids

-- The `while` loop; `none` when the fuel is used up.
unfoldable pub close : Registry → ℕ → List String → Option (List String)
unfolding complete_all
close reg zero selected = none
close reg (suc fuel) selected =
    let r = complete_all reg (false, selected) selected in
    let later = close reg fuel r.1 in if r.0 then later else some r.1

-- A round that changes something adds a module of the registry, so that one round more than the
-- registry has modules is enough.
abbrev pub close_fuel : Registry → ℕ
close_fuel reg = suc (length reg)

-- What `resolve_selection` raises for, and what it returns.
pub data Selection : Type 0 where
  unknown_module : String → Selection
  unknown_layer : String → Selection
  chosen : (modules layers : List String) → Selection
  no_fuel : Selection

abbrev pub has_layer : Registry → String → Bool
has_layer reg key = elim (layer_by_key reg key) [ none ↦ false | some _ ↦ true ]

-- The first wanted layer that no module has.
abbrev pub first_unknown_layer : Registry → List String → Option String
first_unknown_layer reg keys = first (λ k. not (has_layer reg k)) keys

abbrev pub layer_ids : Registry → List String → List String
layer_ids reg [] = []
layer_ids reg (k ∷ ks) =
    let rest = layer_ids reg ks in elim (layer_by_key reg k) [ none ↦ rest | some m ↦ m.id ∷ rest ]

-- The set that the loop starts from.
abbrev pub start : Registry → List String → List String → List String
start reg modules layers = unseen [] (modules ++ core_ids reg ++ layer_ids reg layers)

abbrev pub ordered_modules : Registry → List String → List String
ordered_modules reg selected = map (λ m. m.id) (select (λ m. member m.id selected) reg)

abbrev pub layer_keys : List ModuleSpec → List String
layer_keys ms = map (λ m. text_or m.layer_key "") (select (λ m. is_text m.layer_key) ms)

-- In the caller's order: a sort with the index among the wanted keys. With no wanted layers every key
-- has the same index, and a stable sort changes nothing, as the source skips it.
unfoldable pub ordered_layers : Registry → List String → List String → List String
unfolding sort_with
ordered_layers reg wanted selected =
    sort_by (index_in wanted) (layer_keys (select (λ m. member m.id selected) (layers reg)))

abbrev pub finish : Registry → List String → Option (List String) → Selection
finish reg wanted none = no_fuel
finish reg wanted (some selected) =
    chosen (ordered_modules reg selected) (ordered_layers reg wanted selected)

-- After the profile has stood in for what the caller left open.
unfoldable pub resolve : Registry → List String → List String → Selection
unfolding close layer_by_key unknown_id
resolve reg modules layers = elim (unknown_id reg modules) [
  | some id ↦ unknown_module id
  | none ↦ elim (first_unknown_layer reg layers) [
    | some key ↦ unknown_layer key
    | none ↦ finish reg layers (close reg (close_fuel reg) (start reg modules layers))
  ]
]

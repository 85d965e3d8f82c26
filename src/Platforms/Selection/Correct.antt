-- ===== src/Platforms/Selection/Correct.antt =====
-- The result of `resolve_selection` against the modules that a selection requires.
use mathlib.Core.Path.{subst}
use aidflow.Prelude.{
  In-select, String, ◌≡◌, refl, sym, ap, ◌∙◌, inl, inr, ◌↔◌, Bool, true, none, some, List, [], ◌∷◌,
  map, select, count, member, In, eq_refl, Option-cases, arith, sort_with-IsChain, count-sort_with,
  IsChain, no_later, no_later-total, index_in,
}
use aidflow.Modules.{ModuleSpec, Registry, is_registered, is_layer, layers, unknown_id}
use aidflow.Platforms.Selection.{
  Selection, unknown_module, unknown_layer, chosen, no_fuel, close, close_fuel, start, layer_keys,
  ordered_modules, ordered_layers, first_unknown_layer, finish, resolve,
}
use aidflow.Platforms.Selection.Closure.{IsClosure, close_lem}
use aidflow.Platforms.Selection.Required.{
  Required, wanted, core, layer, dependency, member-ordered_modules, Needs-Required, Required-Needs,
  core_id-is_registered, layer_by_key-is_registered, unknown_id-none,
}

-- Whatever is required is registered, where every named module is.
Required-is_registered :
    (reg : Registry) (modules keys : List String) {x : String}
    → unknown_id reg modules ≡ none
    → Required reg modules keys x
    → is_registered reg x ≡ true
Required-is_registered reg modules keys {x} u (wanted h) = unknown_id-none reg modules x u h
Required-is_registered reg modules keys {x} u (core h) = core_id-is_registered reg x h
Required-is_registered reg modules keys u (layer k {m} h e) = layer_by_key-is_registered reg k m e
Required-is_registered reg modules keys u (dependency r e k) = k

-- What a result of `resolve_selection` means.
pub record IsComplete (reg : Registry) (modules keys chosen_ids chosen_keys : List String)
    : Type 0 where
  -- no named module and no named layer is unknown
  pub known : unknown_id reg modules ≡ none
  pub known_layers : first_unknown_layer reg keys ≡ none
  -- the modules are the required ones, in the order of the registry
  pub members : (x : String) → (member x chosen_ids ≡ true) ↔ Required reg modules keys x
  pub in_order : chosen_ids ≡ ordered_modules reg chosen_ids
  -- the layers are the keys of those modules, in the order in which the caller names them
  pub rising : IsChain (no_later (index_in keys)) chosen_keys
  pub keys_of :
      (p : String → Bool)
      → count p chosen_keys
        ≡ count p (layer_keys (select (λ m. member m.id chosen_ids) (layers reg)))

abbrev pub Resolved : Registry → List String → List String → Selection → Type 0
Resolved reg modules keys (unknown_module id) = unknown_id reg modules ≡ some id
Resolved reg modules keys (unknown_layer k) =
    (unknown_id reg modules ≡ none) × (first_unknown_layer reg keys ≡ some k)
Resolved reg modules keys (chosen ids ks) = IsComplete reg modules keys ids ks
Resolved reg modules keys no_fuel = ⊥

select-ordered :
    (reg ms : Registry) (sel : List String)
    → ((m : ModuleSpec) → In m ms → is_registered reg m.id ≡ true)
    → select (λ m. member m.id (ordered_modules reg sel)) ms ≡ select (λ m. member m.id sel) ms
select-ordered reg [] sel h = refl
select-ordered reg (m ∷ ms) sel h = ground (
  arith,
  select-ordered reg ms sel (λ n i. h n (inr i)),
  h m (inl refl),
  member-ordered_modules reg sel m.id,
)

In-is_registered : (reg : Registry) (m : ModuleSpec) → In m reg → is_registered reg m.id ≡ true
In-is_registered [] m i = absurd i
In-is_registered (n ∷ reg) m (inl e) = rw e (ground (arith, eq_refl m.id))
In-is_registered (n ∷ reg) m (inr i) = ground (arith, In-is_registered reg m i)

finish-IsComplete :
    (reg : Registry) (modules keys sel : List String)
    → unknown_id reg modules ≡ none
    → first_unknown_layer reg keys ≡ none
    → IsClosure reg (start reg modules keys) sel
    → IsComplete reg modules keys (ordered_modules reg sel) (ordered_layers reg keys sel)
unfolding ordered_layers
finish-IsComplete reg modules keys sel u v c = record {
  known = u;
  known_layers = v;
  members = λ x. (
    (λ h.
        Needs-Required reg modules keys
          (c.least x (ground (arith, h, member-ordered_modules reg sel x)))),
    λ r. ground (
      arith,
      member-ordered_modules reg sel x,
      Required-is_registered reg modules keys u r,
      c.whole x (Required-Needs reg modules keys r),
    ),
  );
  in_order = ap (map (λ m. m.id)) (sym (select-ordered reg reg sel (In-is_registered reg)));
  rising =
      sort_with-IsChain (no_later (index_in keys)) (no_later-total (index_in keys))
        (layer_keys (select (λ m. member m.id sel) (layers reg)));
  keys_of = λ p.
      count-sort_with (no_later (index_in keys)) p
        (layer_keys (select (λ m. member m.id sel) (layers reg)))
      ∙ ap (λ ms. count p (layer_keys ms))
          (sym (
            select-ordered reg (layers reg) sel
              (λ m i. In-is_registered reg m (In-select is_layer reg m i).0)));
}

run :
    (reg : Registry) (modules keys : List String)
    → unknown_id reg modules ≡ none
    → first_unknown_layer reg keys ≡ none
    → resolve reg modules keys
      ≡ finish reg keys (close reg (close_fuel reg) (start reg modules keys))
unfolding resolve
run reg modules keys u v = rw (resolve, u, v) refl

-- `resolve_selection`, once the caller or the profile has named modules and layers, raises for the
-- first module that is not registered, else for the first layer that no module has. Otherwise its
-- loop ends, and it returns exactly the modules that the named ones, the named layers and the core
-- require, dependencies of dependencies included, in the order of the registry, and the keys of
-- their layers in the order in which they were named.
pub resolve_lem :
    (reg : Registry) (modules keys : List String)
    → Resolved reg modules keys (resolve reg modules keys)
unfolding resolve
resolve_lem reg modules keys = elim (Option-cases (unknown_id reg modules)) [
  | inr (id, u) ↦ at (unknown_module id) (rw (resolve, u) refl) u
  | inl u ↦ elim (Option-cases (first_unknown_layer reg keys)) [
    | inr (k, v) ↦ at (unknown_layer k) (rw (resolve, u, v) refl) (u, v)
    | inl v ↦
        let (sel, e, c) = close_lem reg (start reg modules keys) in
        at (chosen (ordered_modules reg sel) (ordered_layers reg keys sel))
          (run reg modules keys u v ∙ ap (finish reg keys) e)
          (finish-IsComplete reg modules keys sel u v c)
  ]
]
  where
    at :
        (s : Selection)
        → resolve reg modules keys ≡ s
        → Resolved reg modules keys s
        → Resolved reg modules keys (resolve reg modules keys)
    at s q h = subst (Resolved reg modules keys) (sym q) h

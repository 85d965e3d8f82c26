-- ===== src/Modules/Examples.antt =====
-- The catalogue is accepted by the registry, in its order, and depends on registered modules only.
use aidflow.Prelude.{◌≡◌, refl, Bool, true, all, some, []}
use aidflow.Modules.{Registry, is_registered, register_all}
use aidflow.Modules.Catalogue.{catalogue}

catalogue_accepted : register_all catalogue [] ≡ some catalogue
unfolding register_all catalogue
catalogue_accepted = refl

is_whole : Registry → Bool
is_whole reg = all (λ m. all (is_registered reg) m.dependencies) reg

catalogue_whole : is_whole catalogue ≡ true
unfolding is_whole catalogue
catalogue_whole = refl

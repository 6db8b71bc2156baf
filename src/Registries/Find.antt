-- ===== src/Registries/Find.antt =====
-- The choice of a registry in redfish_sdk/managers/registries.py: `_find_registry` and
-- `_find_referenced_registry`, over the registries that the service advertises.
pub mod Versions
pub mod Latest
use redfish_python_sdk.Prelude.{
  ℕ, Bool, true, false, ◌&&◌, ◌||◌, ◌==◌, ltb, Option, none, some, List, [], ◌∷◌, Text, str,
  text_eq, lower, if◌then◌else◌,
}
use redfish_python_sdk.Exceptions.{
  Exc, Reason, registry_resolution_error, unknown_registry, not_advertised,
}
use redfish_python_sdk.Result.{Result, ok, err}
use redfish_python_sdk.HttpClient.Session.{or_else}
use redfish_python_sdk.Registries.Names.{
  Version, Registry, RegistryName, registry_parts, match_registry_name,
}

-- The order of tuples.
unfoldable pub version_lt : Version → Version → Bool
version_lt (a, b, c) (a', b', c') = ltb a a' || (a == a' && (ltb b b' || (b == b' && ltb c c')))

-- The test by which a loop keeps the parts of a registry.
abbrev pub Accepts : Type 0
Accepts = Text → Version → Bool

-- One round of the loops that collect candidates.
unfoldable pub candidate : Accepts → Registry → Option (Version × Registry)
candidate accepts registry = elim (registry_parts registry) [
  | err e ↦ none
  | ok (prefix, version) ↦ if accepts prefix version then some (version, registry) else none
]

unfoldable pub candidates : Accepts → List Registry → List (Version × Registry)
candidates accepts [] = []
candidates accepts (registry ∷ registries) =
    let rest = candidates accepts registries in
    elim (candidate accepts registry) [ none ↦ rest | some found ↦ found ∷ rest ]

-- max(candidates, key=lambda item: item[0]): the first of the greatest
unfoldable pub latest : Version × Registry → List (Version × Registry) → Version × Registry
latest best [] = best
latest best (other ∷ others) = latest (if version_lt best.0 other.0 then other else best) others

unfoldable pub choose : Reason → List (Version × Registry) → Result Registry
choose missing [] = err (registry_resolution_error missing)
choose missing (found ∷ others) = ok (latest found others).1

abbrev pub has_version : ℕ → ℕ → Version → Bool
has_version major minor (major', minor', _) = major' == major && minor' == minor

-- `registry_version[:2] == version`, of a prefix in any case
unfoldable pub is_wanted : Text → ℕ → ℕ → Accepts
unfolding lower
is_wanted prefix major minor registry_prefix version =
    text_eq (lower registry_prefix) (lower prefix) && has_version major minor version

-- The rest of `_find_registry`.
unfoldable pub find_registry : Text → ℕ → ℕ → List Registry → Result Registry
unfolding choose
find_registry prefix major minor registries =
    choose unknown_registry (candidates (is_wanted prefix major minor) registries)

abbrev has_errata : Option ℕ → Version → Bool
has_errata none version = true
has_errata (some errata) (_, _, errata') = errata' == errata

-- The test of `_find_referenced_registry`.
unfoldable pub is_referenced : RegistryName → Accepts
unfolding is_wanted
is_referenced name registry_prefix version =
    is_wanted name.prefix name.major name.minor registry_prefix version
    && has_errata name.errata version

-- The first registry whose Id is the reference; a missing Id reads as `None`.
unfoldable pub with_id : Text → List Registry → Result Registry
with_id reference [] = err (registry_resolution_error not_advertised)
with_id reference (registry ∷ registries) =
    let rest = with_id reference registries in
    if text_eq (or_else registry.id (str "None")) reference then ok registry else rest

-- The rest of `_find_referenced_registry`.
unfoldable pub find_referenced_registry : Text → List Registry → Result Registry
unfolding choose
find_referenced_registry reference registries = elim (match_registry_name reference) [
  | none ↦ with_id reference registries
  | some name ↦ choose not_advertised (candidates (is_referenced name) registries)
]

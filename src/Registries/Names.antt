-- ===== src/Registries/Names.antt =====
-- The names of message registries and of messages: the regular expressions, versions and
-- identities of redfish_sdk/managers/registries.py. A digit is an ASCII digit.
pub mod Printing
pub mod RoundTrip
use redfish_python_sdk.Prelude.{
  ℕ, ◌+◌, ◌*◌, ◌-◌, Bool, true, false, not, ◌&&◌, Option, none, some, List, [], ◌∷◌, ◌++◌, Text,
  str, text_eq, lower, is_empty, all, split_on, if◌then◌else◌,
}
use redfish_python_sdk.Exceptions.{Exc, registry_resolution_error, unparseable_registry}
use redfish_python_sdk.Result.{Result, ok, err}
use redfish_python_sdk.Url.{is_digit, decimal}
use redfish_python_sdk.HttpClient.Session.{truthy, or_else}
use redfish_python_sdk.Registries.{RegistryLocation}

-- major, minor, errata
abbrev pub Version : Type 0
Version = ℕ × ℕ × ℕ

-- `Registry`: a RegistryFile resource
pub record Registry : Type 0 where
  pub id : Option Text
  pub odata_id : Option Text
  pub registry_prefix : Option Text
  pub registry_version : Option Text
  pub location : List RegistryLocation

-- The groups of a match of `_REGISTRY_NAME`.
pub record RegistryName : Type 0 where
  pub prefix : Text
  pub major : ℕ
  pub minor : ℕ
  pub errata : Option ℕ

-- The groups of a match of `_MESSAGE_ID`.
pub record MessageId : Type 0 where
  pub prefix : Text
  pub major : ℕ
  pub minor : ℕ
  pub key : Text

-- \d+
unfoldable pub is_number : Text → Bool
unfolding all is_digit
is_number s = not (is_empty s) && all is_digit s

-- int(s)
abbrev pub int_of : Text → ℕ
int_of s = decimal 0 s

unfoldable pub name_of_parts : List Text → Option RegistryName
name_of_parts (prefix ∷ major ∷ minor ∷ []) =
    if not (is_empty prefix) && is_number major && is_number minor
    then some
        (record { prefix = prefix; major = int_of major; minor = int_of minor; errata = none })
    else none
name_of_parts (prefix ∷ major ∷ minor ∷ errata ∷ []) =
    if not (is_empty prefix) && is_number major && is_number minor && is_number errata
    then some (record {
      prefix = prefix;
      major = int_of major;
      minor = int_of minor;
      errata = some (int_of errata);
    })
    else none
name_of_parts _ = none

-- `_REGISTRY_NAME.fullmatch`
unfoldable pub match_registry_name : Text → Option RegistryName
unfolding name_of_parts
match_registry_name name = name_of_parts (split_on b'.' name)

unfoldable pub message_of_parts : List Text → Option MessageId
message_of_parts (prefix ∷ major ∷ minor ∷ key ∷ []) =
    if not (is_empty prefix) && is_number major && is_number minor && not (is_empty key)
    then some (record { prefix = prefix; major = int_of major; minor = int_of minor; key = key })
    else none
message_of_parts _ = none

-- `_MESSAGE_ID.fullmatch`
unfoldable pub match_message_id : Text → Option MessageId
unfolding message_of_parts
match_message_id message_id = message_of_parts (split_on b'.' message_id)

-- `_matched_version`
unfoldable pub matched_version : RegistryName → Version
matched_version name =
    (name.major, name.minor, elim name.errata [ none ↦ 0 | some errata ↦ errata ])

unfoldable pub version_of_parts : List Text → Option Version
version_of_parts (major ∷ minor ∷ errata ∷ []) =
    if is_number major && is_number minor && is_number errata
    then some (int_of major, int_of minor, int_of errata)
    else none
version_of_parts _ = none

-- `_parse_version`
unfoldable pub parse_version : Option Text → Option Version
unfolding split_on version_of_parts
parse_version value =
    if truthy value then version_of_parts (split_on b'.' (or_else value [])) else none

abbrev prefix_of : Option RegistryName → Option Text
prefix_of none = none
prefix_of (some name) = some name.prefix

-- The prefix in `_registry_parts`.
unfoldable pub registry_prefix_of :
    Registry → Option RegistryName → Option RegistryName → Option Text
registry_prefix_of registry (some name) resource_id = some name.prefix
registry_prefix_of registry none resource_id =
    if truthy registry.registry_prefix then registry.registry_prefix else prefix_of resource_id

-- The version of the resource's Id, where the Id has the prefix.
abbrev id_version : Text → Option RegistryName → Option Version
id_version prefix none = none
id_version prefix (some resource_id) =
    if text_eq (lower prefix) (lower resource_id.prefix)
    then some (matched_version resource_id)
    else none

abbrev name_version : Option RegistryName → Option Version
name_version none = none
name_version (some name) = some (matched_version name)

abbrev or_version : Option Version → Option Version → Option Version
or_version none other = other
or_version (some version) _ = some version

abbrev with_prefix : Text → Option Version → Result (Text × Version)
with_prefix prefix none = err (registry_resolution_error unparseable_registry)
with_prefix prefix (some version) = ok (prefix, version)

-- `explicit_version and prefix`
abbrev explicit : Text → Option Version → Option Version
explicit prefix version = if is_empty prefix then none else version

-- `_registry_parts`
unfoldable pub registry_parts : Registry → Result (Text × Version)
unfolding parse_version match_registry_name registry_prefix_of matched_version lower
registry_parts registry =
    let version = parse_version registry.registry_version in
    let name = match_registry_name (or_else registry.registry_prefix []) in
    let resource_id = match_registry_name (or_else registry.id []) in
    elim (registry_prefix_of registry name resource_id) [
      | none ↦ err (registry_resolution_error unparseable_registry)
      | some prefix ↦ with_prefix prefix (
          or_version (explicit prefix version)
            (or_version (id_version prefix resource_id) (name_version name)))
    ]

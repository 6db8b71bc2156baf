-- ===== src/Updates.antt =====
-- `UpdateServiceManager` of redfish_sdk/managers/update.py: the actions that the service
-- advertises, the parameters that it supports, and the requests.
pub mod Parameters
pub mod H3c
pub mod Authority
pub mod Bodies
pub mod Requests
pub mod Service
pub mod Strategies
pub mod Advertised
pub mod Permitted
pub mod Validated
pub mod Allowed
pub mod Guarded
pub mod Calls
pub mod Credentials
mod Tests
use redfish_python_sdk.Prelude.{
  ℕ, Bool, true, false, not, ◌&&◌, ◌||◌, Option, none, some, List, [], ◌∷◌, ◌++◌, Text, str,
  text_eq, starts_with, ends_with, contains, is_empty, mem, cut_last, map, strip, all, leb, ◌-◌,
  if◌then◌else◌,
}
use redfish_python_sdk.Exceptions.{
  validation_error, attribute_error, type_error, no_action_target, no_capabilities,
  unsupported_flash_type, no_upload_selector, unsupported_upload_selector, unsupported_parameter,
  not_staging, unsupported_update_target, empty_activate_target, no_activate_target, no_push_uri,
}
use redfish_python_sdk.Result.{Result, ok, err, raise_if, ◌>>=◌ as bind, ◌>>◌ as next}
use redfish_python_sdk.Exec.{Exec, Run, returned, raised, pure, raise, lift, ◌>>=◌, ◌>>◌}
use redfish_python_sdk.HttpClient.Session.{truthy, or_else}
use redfish_python_sdk.Json.{
  Json, null, bool, number, string, array, object, Items, Fields, empty, field, get_field, items,
}
use redfish_python_sdk.Url.{SplitResult, urlsplit}
use redfish_python_sdk.Updates.Requests.{
  UpdateService, UpdateServiceCapabilities, UpdateParameters, FirmwareUpdateResponse, HttpResponse,
  Upload, Host, is_true_value, add_fields, texts, optional_field,
}

-- The key of an action of that name.
unfoldable pub is_action : Text → Text → Bool
unfolding starts_with ends_with
is_action name key = starts_with key (str "#") && ends_with key (str "." ++ name)

-- `discover` of `_action`, the matches in the order of the search
unfoldable mutual
  unfolding is_action starts_with

  pub discover : Text → Fields → List Fields
  discover name empty = []
  discover name (field key value rest) = discover_value name key value ++ discover name rest

  pub discover_value : (name key : Text) → Json → List Fields
  discover_value name key (object container) =
      let inside = discover name container in
      if is_action name key
      then container ∷ []
      else if not (starts_with key (str "#"))
      then inside
      else []
  discover_value name key _ = []

abbrev pub actions_of : UpdateService → Fields
actions_of service = elim service.actions [ none ↦ empty | some actions ↦ actions ]

-- action.get("target"), where it is a text that is not empty
unfoldable pub target_of : Fields → Option Text
unfolding get_field
target_of action = elim (get_field (str "target") action) [
  | some (string target) ↦ if is_empty target then none else some target
  | _ ↦ none
]

-- An action with the target that it advertises.
pub record Action : Type 0 where
  pub target : Text
  pub parts : Fields

abbrev pub with_target : Fields → Result Action
with_target parts = elim (target_of parts) [
  | some target ↦ ok (record { target = target; parts = parts })
  | none ↦ err (validation_error no_action_target)
]

-- The end of `_action`.
unfoldable pub unique_action : List Fields → Result Action
unfolding target_of
unique_action (parts ∷ []) = with_target parts
unique_action _ = err (validation_error no_action_target)

-- value in allowed, of a parsed JSON value
unfoldable pub is_text : Text → Json → Bool
unfolding text_eq
is_text value (string t) = text_eq value t
is_text value _ = false

unfoldable pub in_items : Text → Items → Bool
unfolding is_text
in_items value Items.end = false
in_items value (Items.item v rest) = is_text value v || in_items value rest

abbrev is_present : Option Json → Bool
is_present none = false
is_present (some _) = true

unfoldable pub is_allowed : Text → Json → Result Bool
unfolding in_items contains get_field
is_allowed value (array allowed) = ok (in_items value allowed)
is_allowed value (string text) = ok (contains text value)
is_allowed value (object allowed) = ok (is_present (get_field value allowed))
is_allowed value _ = err type_error

-- d.get(key), where null and a missing key are both None
unfoldable pub get_value : Text → Fields → Option Json
unfolding get_field
get_value key parts = elim (get_field key parts) [
  | some null ↦ none
  | some v ↦ some v
  | none ↦ none
]

-- The loop over the parameters of an ActionInfo.
unfoldable pub find_parameter : Text → Items → Result (Option Json)
unfolding get_value is_text
find_parameter name Items.end = ok none
find_parameter name (Items.item (object parameter) rest) =
    let later = find_parameter name rest in
    if elim (get_value (str "Name") parameter) [ some v ↦ is_text name v | none ↦ false ]
    then ok (get_value (str "AllowableValues") parameter)
    else later
find_parameter name (Items.item _ rest) = err attribute_error

-- for parameter in info.get("Parameters", []); the members of a text and of an object are texts.
unfoldable pub parameter_values : Text → Json → Result (Option Json)
unfolding get_field find_parameter
parameter_values name (object info) = elim (get_field (str "Parameters") info) [
  | none ↦ ok none
  | some (array parameters) ↦ find_parameter name parameters
  | some (string []) ↦ ok none
  | some (string (_ ∷ _)) ↦ err attribute_error
  | some (object empty) ↦ ok none
  | some (object (field _ _ _)) ↦ err attribute_error
  | some _ ↦ err type_error
]
parameter_values name _ = err attribute_error

abbrev pub or_fallback : List Text → Option Json → Json
or_fallback fallback none = array (texts fallback)
or_fallback fallback (some allowed) = allowed

-- `_target_reference_type`
unfoldable pub target_reference_type : Text → Option Text
unfolding mem ends_with
target_reference_type resource_type =
    if mem resource_type (str "SoftwareInventory" ∷ str "ComputerSystem" ∷ str "Aggregate" ∷ [])
    then some resource_type
    else if ends_with resource_type (str "Collection")
    then some (str "ResourceCollection")
    else if mem resource_type (
        str "Assembly"
        ∷ str "Drive"
        ∷ str "FabricAdapter"
        ∷ str "Memory"
        ∷ str "MemoryChunks"
        ∷ str "NetworkAdapter"
        ∷ str "NetworkDeviceFunction"
        ∷ str "PCIeDevice"
        ∷ str "PCIeFunction"
        ∷ str "Processor"
        ∷ str "Storage"
        ∷ str "StorageController"
        ∷ str "Switch"
        ∷ [])
    then some (str "DeviceResource")
    else none

-- str(resource.get("@odata.type", "")).rsplit(".", 1)[-1]; what is no text names no type.
unfoldable pub raw_resource_type : Json → Result Text
unfolding get_field cut_last
raw_resource_type (object resource) = elim (get_field (str "@odata.type") resource) [
  | some (string t) ↦ ok (cut_last b'.' t).1
  | _ ↦ ok []
]
raw_resource_type _ = err attribute_error

abbrev pub list_of : Option (List Text) → List Text
list_of none = []
list_of (some xs) = xs

abbrev pub is_provided {ℓ} : {A : Type ℓ} → Option A → Bool
is_provided none = false
is_provided (some _) = true

abbrev pub is_yes : Option Bool → Bool
is_yes none = false
is_yes (some b) = b

-- support["Targets"] and support["Stage"], with what version 1.0 implies
unfoldable pub targets_support : UpdateServiceCapabilities → Bool
targets_support capabilities = elim capabilities.targets_parameter_supported [
  | some b ↦ b
  | none ↦
      is_provided capabilities.allowable_targets
      || not (is_empty (list_of capabilities.allowable_target_reference_types))
]

unfoldable pub stage_support : UpdateServiceCapabilities → Bool
stage_support capabilities = elim capabilities.stage_parameter_supported [
  | some b ↦ b
  | none ↦ is_provided capabilities.allowable_staging
]

-- `requested` beside `support`: whether each parameter is given, and supported
unfoldable pub requested_parameters :
    UpdateParameters → UpdateServiceCapabilities → List (Bool × Bool)
unfolding targets_support stage_support
requested_parameters parameters capabilities =
    (is_provided parameters.targets, targets_support capabilities)
    ∷ (
      is_provided parameters.exclude_targets,
      is_yes capabilities.exclude_targets_parameter_supported,
    )
    ∷ (is_provided parameters.force_update, is_yes capabilities.force_update_parameter_supported)
    ∷ (is_provided parameters.stage, stage_support capabilities)
    ∷ (is_provided parameters.local_image, is_yes capabilities.local_image_parameter_supported)
    ∷ []

-- The loop over `requested`.
unfoldable pub check_requested : List (Bool × Bool) → Result (Unit {0})
check_requested [] = ok tt
check_requested ((given, supported) ∷ rest) =
    next (raise_if (given && not supported) (validation_error unsupported_parameter))
      (check_requested rest)

-- all(value is None for value in requested.values())
unfoldable pub none_requested : UpdateParameters → Bool
none_requested parameters =
    not (is_provided parameters.targets)
    && not (is_provided parameters.exclude_targets)
    && not (is_provided parameters.force_update)
    && not (is_provided parameters.stage)
    && not (is_provided parameters.local_image)

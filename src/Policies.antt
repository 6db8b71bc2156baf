-- ===== src/Policies.antt =====
-- `PolicyServiceManager` of redfish_sdk/managers/policy.py, with the data of
-- redfish_sdk/models/policy.py.
pub mod Data
pub mod Admissible
pub mod Validated
pub mod Guarded
mod Tests
use redfish_python_sdk.Prelude.{
  ℕ, Bool, true, false, not, ◌&&◌, ◌||◌, Option, none, some, List, [], ◌∷◌, Text, str, text_eq,
  is_empty, mem, cut_last, if◌then◌else◌,
}
use redfish_python_sdk.Exceptions.{
  Exc, not_found, validation_error, empty_policy_name, no_responses, unsupported_condition,
  unsupported_action, no_target, unsupported_target, nothing_to_update, predefined_policy,
}
use redfish_python_sdk.Result.{Result, ok, err, ◌>>◌ as next, raise_if}
use redfish_python_sdk.Exec.{Exec, Run, returned, raised, pure, raise, lift, ◌>>=◌, ◌>>◌}
use redfish_python_sdk.HttpClient.Session.{truthy, or_else}
use redfish_python_sdk.Members.{select_member}
use redfish_python_sdk.Policies.Data.{
  PolicyCondition, condition, Conditions, end, item, PolicyResponse, PolicyService, Policy,
  PolicyCreate, PolicyPatch, Host,
}

abbrev pub is_supported : List Text → Option Text → Bool
is_supported supported none = false
is_supported supported (some value) = not (is_empty value) && mem value supported

-- `_validate_condition`
unfoldable mutual
  pub validate_condition : PolicyService → PolicyCondition → Result (Unit {0})
  validate_condition service
        (condition type compare_value operator property resource subordinates) =
      next
        (raise_if (not (is_supported service.condition_types_supported type))
          (validation_error unsupported_condition))
        (validate_conditions service subordinates)

  pub validate_conditions : PolicyService → Conditions → Result (Unit {0})
  validate_conditions service end = ok tt
  validate_conditions service (item c rest) =
      next (validate_condition service c) (validate_conditions service rest)

-- (odata_type or "").rsplit(".", 1)[-1]
abbrev pub resource_type : Option Text → Text
resource_type odata_type = (cut_last b'.' (or_else odata_type [])).1

abbrev pub is_reset : Option Text → Bool
is_reset action = text_eq (or_else action []) (str "Reset")

abbrev pub optional_condition : PolicyService → Option PolicyCondition → Result (Unit {0})
optional_condition service none = ok tt
optional_condition service (some c) = validate_condition service c

abbrev pub optional_list : Option (List PolicyResponse) → List PolicyResponse
optional_list none = []
optional_list (some responses) = responses

abbrev pub is_set {ℓ} : {A : Type ℓ} → Option A → Bool
is_set none = false
is_set (some _) = true

abbrev pub is_true : Option Bool → Bool
is_true none = false
is_true (some b) = b

-- `_policies_path`
unfoldable pub policies_path : PolicyService → Result Text
policies_path service =
    if truthy service.policies then ok (or_else service.policies []) else err not_found

module _ {ℓ} {S : Type ℓ} (host : Host S) where
  -- The check of the type of a Reset's target.
  unfoldable pub validate_target : PolicyService → Text → Exec S (Unit {0})
  unfolding cut_last
  validate_target service uri = host.entity_type uri >>= λ odata_type. lift (
      raise_if
        (not (is_supported service.resource_types_supported (some (resource_type odata_type))))
        (validation_error unsupported_target))

  -- `_validate_response`
  unfoldable pub validate_response : PolicyService → PolicyResponse → Exec S (Unit {0})
  unfolding validate_target
  validate_response service response =
      if not (is_supported service.actions_supported response.response_action)
      then raise (validation_error unsupported_action)
      else if not (is_reset response.response_action)
      then pure tt
      else if not (truthy response.target_uri)
      then raise (validation_error no_target)
      else validate_target service (or_else response.target_uri [])

  unfoldable pub validate_responses : PolicyService → List PolicyResponse → Exec S (Unit {0})
  unfolding validate_response
  validate_responses service [] = pure tt
  validate_responses service (response ∷ responses) =
      validate_response service response >> validate_responses service responses

  -- The end of `_validate_definition`.
  unfoldable pub validate_parts :
      PolicyService → Option PolicyCondition → Option (List PolicyResponse) → Exec S (Unit {0})
  unfolding validate_condition validate_responses
  validate_parts service trigger responses =
      lift (optional_condition service trigger)
      >> validate_responses service (optional_list responses)

  -- `_validate_definition`, where no service is given
  unfoldable pub validate_definition :
      Option PolicyCondition → Option (List PolicyResponse) → Exec S (Unit {0})
  unfolding validate_parts
  validate_definition trigger responses =
      if not (is_set trigger) && not (is_set responses)
      then pure tt
      else host.service >>= λ service. validate_parts service trigger responses

  -- `create`
  unfoldable pub create :
      Text
      → Text
      → PolicyCondition
      → List PolicyResponse
      → Option Bool
      → Option Text
      → Exec S Policy
  unfolding validate_parts policies_path
  create policy_id name trigger_condition responses enabled oem =
      if is_empty policy_id || is_empty name
      then raise (validation_error empty_policy_name)
      else if is_empty responses
      then raise (validation_error no_responses)
      else (do
        service ← host.service
        validate_parts service (some trigger_condition) (some responses)
        path ← lift (policies_path service)
        host.post path (record {
          id = policy_id;
          name = name;
          trigger_condition = trigger_condition;
          response = responses;
          enabled = enabled;
          oem = oem;
        }))

  -- `policy`
  unfoldable pub policy : Text → Exec S Policy
  unfolding policies_path select_member
  policy identifier = do
    service ← host.service
    path ← lift (policies_path service)
    policies ← host.collection path
    lift (select_member (λ p. p.id) (λ p. p.odata_id) policies (some identifier) [])

  -- The rest of `update`, with the policy as it is.
  unfoldable pub update_current : Policy → PolicyPatch → Exec S Policy
  unfolding validate_definition
  update_current current body =
      if not (truthy current.odata_id)
      then raise not_found
      else if is_true current.predefined
          && (is_set body.trigger_condition || is_set body.response || is_set body.oem)
      then raise (validation_error predefined_policy)
      else (do
        validate_definition body.trigger_condition body.response
        host.patch (or_else current.odata_id []) (record body { odata_etag = current.odata_etag }))

  -- `update`; the body's ETag is not read.
  unfoldable pub update : Text → PolicyPatch → Exec S Policy
  unfolding policy update_current
  update identifier body =
      if not (is_set body.trigger_condition)
        && not (is_set body.response)
        && not (is_set body.enabled)
        && not (is_set body.oem)
      then raise (validation_error nothing_to_update)
      else policy identifier >>= λ current. update_current current body

  -- `delete`
  unfoldable pub delete : Text → Exec S Text
  unfolding policy
  delete identifier = policy identifier >>= λ current.
      if is_true current.predefined
      then raise (validation_error predefined_policy)
      else if not (truthy current.odata_id)
      then raise not_found
      else host.delete (or_else current.odata_id [])
          (if truthy current.odata_etag then or_else current.odata_etag [] else str "*")

abbrev only_enabled : Bool → PolicyPatch
only_enabled b = record {
  odata_etag = none;
  trigger_condition = none;
  response = none;
  enabled = some b;
  oem = none;
}

module _ {ℓ} {S : Type ℓ} (host : Host S) where
  -- `enable`
  abbrev pub enable : Text → Exec S Policy
  enable identifier = update host identifier (only_enabled true)

  -- `disable`
  abbrev pub disable : Text → Exec S Policy
  disable identifier = update host identifier (only_enabled false)

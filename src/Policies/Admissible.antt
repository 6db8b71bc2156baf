-- ===== src/Policies/Admissible.antt =====
-- What redfish_sdk/managers/policy.py may write to a service: definitions that stay within what the
-- PolicyService advertises.
use redfish_python_sdk.Prelude.{
  ◌≡◌, refl, Bool, true, false, not, ◌&&◌, ◌||◌, Option, none, some, List, [], ◌∷◌, ◌++◌, Text,
  is_empty, All, All-append, IsMember, ◌⊎◌,
}
use redfish_python_sdk.Exceptions.{validation_error, unsupported_condition}
use redfish_python_sdk.Result.{Result, ok, err, raise_if, ◌>>◌}
use redfish_python_sdk.Exec.Answers.{HasGiven}
use redfish_python_sdk.HttpClient.Session.{truthy, or_else}
use redfish_python_sdk.Policies.Data.{
  PolicyCondition, condition, Conditions, end, item, PolicyResponse, PolicyService, Policy,
  PolicyCreate, PolicyPatch, Host,
}
use redfish_python_sdk.Policies.{
  is_supported, validate_condition, validate_conditions, resource_type, is_reset,
  optional_condition, optional_list, is_set, is_true,
}

-- The types of a condition and of all that are subordinate to it.
mutual
  pub types_of : PolicyCondition → List (Option Text)
  types_of (condition type compare_value operator property resource subordinates) =
      type ∷ all_types_of subordinates

  pub all_types_of : Conditions → List (Option Text)
  all_types_of end = []
  all_types_of (item c rest) = types_of c ++ all_types_of rest

abbrev pub IsSupported : List Text → Option Text → Type 0
IsSupported supported value = is_supported supported value ≡ true

abbrev pub Advertised : PolicyService → Option PolicyCondition → Type 0
Advertised service none = Unit
Advertised service (some c) = All (IsSupported service.condition_types_supported) (types_of c)

raised_unless :
    (b : Bool) (rest : Result (Unit {0}))
    → (raise_if (not b) (validation_error unsupported_condition) >> rest) ≡ ok tt
    → (b ≡ true) × (rest ≡ ok tt)
raised_unless true rest h = (refl, h)
raised_unless false rest h = absurd (cc h)

both_ok :
    (first rest : Result (Unit {0})) → (first >> rest) ≡ ok tt → (first ≡ ok tt) × (rest ≡ ok tt)
both_ok (ok tt) rest h = (refl, h)
both_ok (err e) rest h = absurd (cc h)

mutual
  unfolding types_of all_types_of validate_condition validate_conditions

  condition_types :
      (service : PolicyService) (c : PolicyCondition)
      → validate_condition service c ≡ ok tt
      → All (IsSupported service.condition_types_supported) (types_of c)
  condition_types service (condition type compare_value operator property resource subordinates) h =
      let checked =
        raised_unless (is_supported service.condition_types_supported type)
          (validate_conditions service subordinates) h in
      (checked.0, conditions_types service subordinates checked.1)

  conditions_types :
      (service : PolicyService) (cs : Conditions)
      → validate_conditions service cs ≡ ok tt
      → All (IsSupported service.condition_types_supported) (all_types_of cs)
  conditions_types service end h = tt
  conditions_types service (item c rest) h =
      let checked = both_ok (validate_condition service c) (validate_conditions service rest) h in
      All-append (IsSupported service.condition_types_supported) (types_of c) (all_types_of rest)
        (condition_types service c checked.0) (conditions_types service rest checked.1)

pub optional_condition-Advertised :
    (service : PolicyService) (c : Option PolicyCondition)
    → optional_condition service c ≡ ok tt
    → Advertised service c
optional_condition-Advertised service none h = tt
optional_condition-Advertised service (some c) h = condition_types service c h

-- The patch changes the definition of a policy.
abbrev pub is_definition_change : PolicyPatch → Bool
is_definition_change body = is_set body.trigger_condition || is_set body.response || is_set body.oem

module _ {ℓ} {S : Type ℓ} (host : Host S) where
  -- A Reset has a target whose type, as it was read, the service supports.
  pub record IsTarget (service : PolicyService) (uri : Option Text) : Type ℓ where
    pub present : truthy uri ≡ true
    pub odata_type : Option Text
    pub was_read : HasGiven (host.entity_type (or_else uri [])) odata_type
    pub supported :
        is_supported service.resource_types_supported (some (resource_type odata_type)) ≡ true

  pub record IsAllowed (service : PolicyService) (r : PolicyResponse) : Type ℓ where
    pub action : is_supported service.actions_supported r.response_action ≡ true
    pub target : (is_reset r.response_action ≡ false) ⊎ IsTarget service r.target_uri

  -- The parts of a definition are within what the service advertised when it was read.
  pub record IsWithin (c : Option PolicyCondition) (responses : Option (List PolicyResponse))
      : Type ℓ where
    pub service : PolicyService
    pub was_read : HasGiven host.service service
    pub advertised : Advertised service c
    pub allowed : All (IsAllowed service) (optional_list responses)

  -- The policy is one that the service listed.
  pub record IsListed (p : Policy) : Type ℓ where
    pub path : Text
    pub policies : List Policy
    pub was_read : HasGiven (host.collection path) policies
    pub member : IsMember p policies

  pub record IsCreatable (body : PolicyCreate) : Type ℓ where
    pub has_id : is_empty body.id ≡ false
    pub has_name : is_empty body.name ≡ false
    pub has_response : is_empty body.response ≡ false
    pub within : IsWithin (some body.trigger_condition) (some body.response)

  pub record IsPatchable (path : Text) (body : PolicyPatch) : Type ℓ where
    pub current : Policy
    pub listed : IsListed current
    pub at_policy : current.odata_id ≡ some path
    pub same_etag : body.odata_etag ≡ current.odata_etag
    pub not_predefined : (is_true current.predefined && is_definition_change body) ≡ false
    pub within :
        ((is_set body.trigger_condition || is_set body.response) ≡ false)
        ⊎ IsWithin body.trigger_condition body.response

  pub record IsDeletable (path : Text) : Type ℓ where
    pub current : Policy
    pub listed : IsListed current
    pub at_policy : current.odata_id ≡ some path
    pub not_predefined : is_true current.predefined ≡ false

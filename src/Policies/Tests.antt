-- ===== src/Policies/Tests.antt =====
-- redfish_sdk/managers/policy.py on a service that logs what is written to it.
use redfish_python_sdk.Prelude.{
  ◌≡◌, refl, true, false, Option, none, some, List, [], ◌∷◌, Text, str, text_eq, mem, filter_by,
  any, cut, cut_last, All,
}
use redfish_python_sdk.Exceptions.{validation_error, unsupported_condition, predefined_policy}
use redfish_python_sdk.Exec.{returned, raised}
use redfish_python_sdk.Members.{select_member, is_match}
use redfish_python_sdk.Policies.Data.{
  PolicyCondition, condition, Conditions, end, item, PolicyResponse, PolicyService, Policy,
  PolicyCreate, PolicyPatch, Host,
}
use redfish_python_sdk.Policies.{
  validate_condition, validate_target, validate_response, validate_responses, validate_parts,
  validate_definition, policies_path, create, policy, update_current, update, delete, enable,
}
use redfish_python_sdk.Policies.Admissible.{IsCreatable, IsPatchable, IsDeletable}
use redfish_python_sdk.Policies.Validated.{Guard}
use redfish_python_sdk.Policies.Guarded.{
  Call, create_call, update_call, delete_call, after_calls, calls-Guarded,
}

computing : Unit {0}
unfolding text_eq mem filter_by any cut cut_last select_member is_match validate_condition
    validate_target validate_response validate_responses validate_parts validate_definition
    policies_path create policy update_current update delete after_calls
computing = tt

data Write : Type 0 where
  posted : PolicyCreate → Write
  patched : Text → PolicyPatch → Write
  deleted : Text → Write

abbrev service : PolicyService
service = record {
  resource_types_supported = str "ComputerSystem" ∷ [];
  condition_types_supported = str "Property" ∷ str "AllOf" ∷ [];
  actions_supported = str "Reset" ∷ str "LogEvent" ∷ [];
  policies = some (str "/policies");
}

abbrev built_in : Policy
built_in = record {
  id = some (str "1");
  odata_id = some (str "/policies/1");
  odata_etag = some (str "e");
  enabled = some false;
  predefined = some true;
  response = [];
  trigger_condition = none;
}

abbrev host : Host (List Write)
host = record {
  service = λ log. returned service log;
  collection = λ _ log. returned (built_in ∷ []) log;
  entity_type = λ _ log. returned (some (str "#ComputerSystem.v1_20_0.ComputerSystem")) log;
  post = λ _ body log. returned built_in (posted body ∷ log);
  patch = λ path body log. returned built_in (patched path body ∷ log);
  delete = λ path _ log. returned [] (deleted path ∷ log);
}

abbrev of_type : Text → Conditions → PolicyCondition
of_type type subordinates = condition (some type) none none none none subordinates

abbrev nested : Text → PolicyCondition
nested type =
    of_type (str "AllOf") (item (of_type (str "Property") end) (item (of_type type end) end))

abbrev reset : PolicyResponse
reset = record {
  response_action = some (str "Reset");
  target_uri = some (str "/systems/1");
  reset_type = none;
  delay_seconds = none;
}

abbrev body : PolicyCreate
body = record {
  id = str "2";
  name = str "n";
  trigger_condition = nested (str "Property");
  response = reset ∷ [];
  enabled = none;
  oem = none;
}

create_test :
    create host (str "2") (str "n") (nested (str "Property")) (reset ∷ []) none none []
    ≡ returned built_in (posted body ∷ [])
unfolding computing
create_test = refl

create_unsupported_test :
    create host (str "2") (str "n") (nested (str "Timer")) (reset ∷ []) none none []
    ≡ raised (validation_error unsupported_condition) []
unfolding computing
create_unsupported_test = refl

abbrev patch_of : Option PolicyCondition → Option Text → PolicyPatch
patch_of trigger etag = record {
  odata_etag = etag;
  trigger_condition = trigger;
  response = none;
  enabled = some true;
  oem = none;
}

-- A predefined policy can be enabled, and not be changed otherwise.
update_test :
    (enable host (str "1") []
      ≡ returned built_in (patched (str "/policies/1") (patch_of none (some (str "e"))) ∷ []))
    × (update host (str "1") (patch_of (some (nested (str "Property"))) none) []
        ≡ raised (validation_error predefined_policy) [])
unfolding computing
update_test = (refl, refl)

abbrev Fits : Write → Type 0
Fits (posted b) = IsCreatable host b
Fits (patched path b) = IsPatchable host path b
Fits (deleted path) = IsDeletable host path

abbrev AllFit : List Write → Type 0
AllFit log = All Fits log

host-Guard : Guard host AllFit
host-Guard = record {
  service_keeps = record { at = λ _ h. h };
  collection_keeps = λ _. record { at = λ _ h. h };
  entity_keeps = λ _. record { at = λ _ h. h };
  post_keeps = λ _ _ fits. record { at = λ _ h. (fits, h) };
  patch_keeps = λ _ _ fits. record { at = λ _ h. (fits, h) };
  delete_keeps = λ _ _ fits. record { at = λ _ h. (fits, h) };
}

abbrev calls : List Call
calls =
    create_call (str "2") (str "n") (nested (str "Property")) (reset ∷ []) none none
    ∷ create_call (str "3") (str "m") (nested (str "Timer")) (reset ∷ []) none none
    ∷ update_call (str "1") (patch_of none none)
    ∷ delete_call (str "1")
    ∷ []

after_calls_test :
    after_calls host calls []
    ≡ patched (str "/policies/1") (patch_of none (some (str "e"))) ∷ posted body ∷ []
unfolding computing
after_calls_test = refl

calls-Guarded_example : AllFit (after_calls host calls [])
calls-Guarded_example = calls-Guarded host AllFit host-Guard calls [] tt

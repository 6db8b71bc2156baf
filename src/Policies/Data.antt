-- ===== src/Policies/Data.antt =====
-- The data of redfish_sdk/models/policy.py, and what `PolicyServiceManager` of
-- redfish_sdk/managers/policy.py asks of the client.
use redfish_python_sdk.Prelude.{ℕ, Bool, Option, List, Text}
use redfish_python_sdk.Exec.{Exec}

mutual
  -- `PolicyCondition`
  pub data PolicyCondition : Type 0 where
    condition :
        (type compare_value operator property_path resource_path : Option Text)
        → (subordinate_conditions : Conditions) → PolicyCondition

  pub data Conditions : Type 0 where
    end : Conditions
    item : PolicyCondition → Conditions → Conditions

-- `PolicyResponse`, without the bodies of events and of HTTP requests
pub record PolicyResponse : Type 0 where
  pub response_action : Option Text
  pub target_uri : Option Text
  pub reset_type : Option Text
  pub delay_seconds : Option ℕ

-- `PolicyService`; `policies` is the `@odata.id` of the link.
pub record PolicyService : Type 0 where
  pub resource_types_supported : List Text
  pub condition_types_supported : List Text
  pub actions_supported : List Text
  pub policies : Option Text

-- `Policy`
pub record Policy : Type 0 where
  pub id : Option Text
  pub odata_id : Option Text
  pub odata_etag : Option Text
  pub enabled : Option Bool
  pub predefined : Option Bool
  pub response : List PolicyResponse
  pub trigger_condition : Option PolicyCondition

-- `PolicyCreate`; the OEM part is a text.
pub record PolicyCreate : Type 0 where
  pub id : Text
  pub name : Text
  pub trigger_condition : PolicyCondition
  pub response : List PolicyResponse
  pub enabled : Option Bool
  pub oem : Option Text

-- `PolicyPatch`: none is a field that is left out.
pub record PolicyPatch : Type 0 where
  pub odata_etag : Option Text
  pub trigger_condition : Option PolicyCondition
  pub response : Option (List PolicyResponse)
  pub enabled : Option Bool
  pub oem : Option Text

-- What the manager asks of the client: `service` follows the link of the Service Root, `collection`
-- is `_get_collection`, `entity_type` gets a resource and reads its `@odata.type`, and `delete` is
-- `_request("DELETE", …)` with the `If-Match` header and the check of the status.
pub record Host {ℓ} (S : Type ℓ) : Type ℓ where
  pub service : Exec S PolicyService
  pub collection : Text → Exec S (List Policy)
  pub entity_type : Text → Exec S (Option Text)
  pub post : Text → PolicyCreate → Exec S Policy
  pub patch : Text → PolicyPatch → Exec S Policy
  pub delete : (path if_match : Text) → Exec S Text

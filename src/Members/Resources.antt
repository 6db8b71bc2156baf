-- ===== src/Members/Resources.antt =====
-- The resources that redfish_sdk/managers/system_resources.py reads, of
-- redfish_sdk/models/system_resources.py and redfish_sdk/models/actions.py, and what the manager
-- asks of the client.
use redfish_python_sdk.Prelude.{Bool, Option, List, Text}
use redfish_python_sdk.Exec.{Exec}
use redfish_python_sdk.Members.{Link}

-- The parts of a `System` that are read.
pub record SystemLinks : Type 0 where
  pub secure_boot : Option Link
  pub network_interfaces : Option Link
  pub memory_domains : Option Link
  pub memory : Option Link

-- SecureBootEnable@Redfish.AllowableValues, a parsed JSON value: an item of a list is the Boolean
-- that it equals, where it equals one; the rest is an object or a value that `in` refuses.
pub data AllowedStates : Type 0 where
  among : List (Option Bool) → AllowedStates
  keyed unsearchable : AllowedStates

-- `ResetKeysAction`
pub record ResetKeysAction : Type 0 where
  pub target : Option Text
  pub action_info : Option Text
  pub reset_keys_type_allowable_values : Option (List Text)

-- `SecureBoot`
pub record SecureBoot : Type 0 where
  pub odata_id : Option Text
  pub odata_etag : Option Text
  pub allowable_values : Option AllowedStates
  pub reset_keys : Option ResetKeysAction

-- `SecureBootPatch`
pub record SecureBootPatch : Type 0 where
  pub secure_boot_enable : Bool
  pub odata_etag : Option Text

-- `ActionInfoParameter`; an allowable value is a text, where it is one.
pub record ActionInfoParameter : Type 0 where
  pub name : Option Text
  pub allowable_values : Option (List (Option Text))

-- A member of a collection of ports or of chunks.
pub record Member : Type 0 where
  pub id : Option Text
  pub odata_id : Option Text

-- A member with the links that are read of it: a `NetworkInterface` has those of its ports and of
-- its adapter, a `MemoryDomain` that of its chunks, a `Memory` that of its metrics.
pub record Linked : Type 0 where
  pub id : Option Text
  pub odata_id : Option Text
  pub link : Option Link
  pub network_adapter : Option Link

-- What the manager asks of the client; `network_adapter` reads the link of the adapter's ports.
pub record Host {ℓ} (S : Type ℓ) (R : Type 0) : Type ℓ where
  pub system : Option Text → Exec S SystemLinks
  pub secure_boot : Text → Exec S SecureBoot
  pub action_info : Text → Exec S (List ActionInfoParameter)
  pub patch : Text → SecureBootPatch → Exec S R
  pub post : Text → Text → Exec S R
  pub members : Text → Exec S (List Linked)
  pub network_adapter : Text → Exec S (Option Link)
  pub collection : Text → Exec S (List Member)
  pub memory_metrics : Text → Exec S R

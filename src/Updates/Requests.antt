-- ===== src/Updates/Requests.antt =====
-- The values that redfish_sdk/managers/update.py works on, with redfish_sdk/models/update.py, and
-- what it asks of the client.
use redfish_python_sdk.Prelude.{
  ℕ, Bool, true, false, not, Option, none, some, List, [], ◌∷◌, Text, any, cut, is_empty, leb, ◌&&◌,
}
use redfish_python_sdk.Exec.{Exec}
use redfish_python_sdk.Json.{
  Json, null, bool, number, string, array, object, Items, Fields, empty, field,
}

-- `UpdateService`; the links are those of its resources, `actions` is none where the resource has
-- no `Actions`.
pub record UpdateService : Type 0 where
  pub odata_id : Option Text
  pub update_service_capabilities : Option Text
  pub http_push_uri : Option Text
  pub multi_part_http_push_uri : Option Text
  pub actions : Option Fields

-- `UpdateServiceCapabilities`
pub record UpdateServiceCapabilities : Type 0 where
  pub allowable_targets : Option (List Text)
  pub allowable_staging : Option (List Text)
  pub allowable_target_reference_types : Option (List Text)
  pub targets_parameter_supported : Option Bool
  pub exclude_targets_parameter_supported : Option Bool
  pub force_update_parameter_supported : Option Bool
  pub stage_parameter_supported : Option Bool
  pub local_image_parameter_supported : Option Bool

-- `UpdateParameters`; `oem` is the dictionary as `model_dump` gives it.
pub record UpdateParameters : Type 0 where
  pub targets : Option (List Text)
  pub exclude_targets : Option (List Text)
  pub force_update : Option Bool
  pub stage : Option Bool
  pub local_image : Option Bool
  pub oem : Option Fields

-- What is read of `RedfishResponse`, and of `FirmwareUpdateResponse`.
pub record FirmwareUpdateResponse : Type 0 where
  pub odata_id : Option Text
  pub task_uri : Option Text
  pub task_monitor : Option Text
  pub http_status : Option ℕ
  pub retry_after : Option Text

-- `requests.Response`, with the two headers that are read.
pub record HttpResponse : Type 0 where
  pub status_code : ℕ
  pub location : Option Text
  pub retry_after : Option Text
  pub text : Text

-- A file of an upload: the name of the form's field and the path.
pub record Upload : Type 0 where
  pub field_name : Text
  pub file_path : Text

-- What the manager asks of the client: `update_service` is `_get_update_service`,
-- `capabilities_at` gets a resource as UpdateServiceCapabilities, `get_raw`, `post_raw` and `post`
-- are the methods of the HTTP client, `upload` opens a file and gives it to `post_multipart` with
-- the other fields, and `parse` is `_parse`.
pub record Host {ℓ} (S : Type ℓ) : Type ℓ where
  pub update_service : Exec S UpdateService
  pub capabilities_at : Text → Exec S UpdateServiceCapabilities
  pub get_raw : Text → Exec S Json
  pub post_raw : Text → Fields → Exec S HttpResponse
  pub post : Text → Fields → Exec S FirmwareUpdateResponse
  pub upload : Text → Upload → Fields → Exec S HttpResponse
  pub parse : HttpResponse → Exec S FirmwareUpdateResponse

abbrev is_positive_digit : ℕ → Bool
is_positive_digit c = leb b'1' c && leb c b'9'

-- bool(value); a number is zero where its digits before an exponent are.
unfoldable pub is_true_value : Json → Bool
unfolding any cut
is_true_value null = false
is_true_value (bool b) = b
is_true_value (number text) = any is_positive_digit (cut b'e' (cut b'E' text).0).0
is_true_value (string text) = not (is_empty text)
is_true_value (array Items.end) = false
is_true_value (array (Items.item _ _)) = true
is_true_value (object empty) = false
is_true_value (object (field _ _ _)) = true

-- d.update(more), of keys that the dictionary does not have
unfoldable pub add_fields : Fields → Fields → Fields
add_fields more empty = more
add_fields more (field k v rest) = field k v (add_fields more rest)

unfoldable pub texts : List Text → Items
texts [] = Items.end
texts (t ∷ ts) = Items.item (string t) (texts ts)

-- d[key] = value  where the value is not None
abbrev pub optional_field : Text → Option Json → Fields → Fields
optional_field key none rest = rest
optional_field key (some v) rest = field key v rest

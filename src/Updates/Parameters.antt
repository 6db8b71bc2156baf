-- ===== src/Updates/Parameters.antt =====
-- The parameters and bodies of the requests of redfish_sdk/managers/update.py.
use redfish_python_sdk.Prelude.{
  ℕ, Bool, true, false, ◌&&◌, ◌||◌, Option, none, some, List, [], ◌∷◌, Text, str, is_empty, mem,
  map, leb, ◌-◌, if◌then◌else◌,
}
use redfish_python_sdk.Exceptions.{validation_error, empty_activate_target}
use redfish_python_sdk.Result.{Result, ok, err, ◌>>=◌ as bind}
use redfish_python_sdk.HttpClient.Session.{truthy, or_else}
use redfish_python_sdk.Json.{Json, string, array, object, Items, Fields, empty, field, bool}
use redfish_python_sdk.Url.{urlsplit}
use redfish_python_sdk.Updates.Requests.{UpdateParameters, add_fields, texts, optional_field}

abbrev texts_value : Option (List Text) → Option Json
texts_value none = none
texts_value (some xs) = some (array (texts xs))

abbrev bool_value : Option Bool → Option Json
bool_value none = none
bool_value (some b) = some (bool b)

abbrev pub dictionary : Option Fields → Option Json
dictionary none = none
dictionary (some d) = some (object d)

-- model_dump(by_alias=True, exclude_none=True)
unfoldable pub dump_parameters : UpdateParameters → Fields
unfolding texts
dump_parameters p = optional_field (str "Targets") (texts_value p.targets) (
    optional_field (str "ExcludeTargets") (texts_value p.exclude_targets) (
      optional_field (str "ForceUpdate") (bool_value p.force_update) (
        optional_field (str "Stage") (bool_value p.stage) (
          optional_field (str "LocalImage") (bool_value p.local_image)
            (optional_field (str "Oem") (dictionary p.oem) empty)))))

abbrev pub optional_text : Option Text → Option Json
optional_text none = none
optional_text (some t) = some (string t)

-- The body of SimpleUpdate.
unfoldable pub simple_update_body :
    (image_uri transfer_protocol : Text)
    → UpdateParameters
    → (username password : Option Text) → Fields
unfolding add_fields dump_parameters
simple_update_body image_uri transfer_protocol parameters username password =
    field (str "ImageURI") (string image_uri) (
      field (str "TransferProtocol") (string transfer_protocol) (
        add_fields
          (optional_field (str "Username") (optional_text username)
            (optional_field (str "Password") (optional_text password) empty))
          (dump_parameters parameters)))

-- The parameters of `stage_update`.
abbrev pub stage_parameters : List Text → Option Bool → UpdateParameters
stage_parameters targets force_update = record {
  targets = some targets;
  exclude_targets = none;
  force_update = force_update;
  stage = some true;
  local_image = none;
  oem = none;
}

abbrev upper_char : ℕ → ℕ
upper_char c = if leb b'a' c && leb c b'z' then c - 32 else c

-- transfer_protocol or urlsplit(image_uri).scheme.upper() or "HTTP"
unfoldable pub protocol_of : Option Text → Text → Result Text
unfolding urlsplit
protocol_of transfer_protocol image_uri =
    if truthy transfer_protocol
    then ok (or_else transfer_protocol [])
    else bind (urlsplit image_uri)
        (λ parts. ok (if is_empty parts.scheme then str "HTTP" else map upper_char parts.scheme))

-- The body of BMCFwUpdate.
abbrev pub bmc_body : Text → Option Text → Fields
bmc_body flash_type upload_selector =
    field (str "FlashType") (string flash_type)
      (optional_field (str "UploadSelector") (optional_text upload_selector) empty)

-- A target of `activate_software`: a text, or a Link with its `@odata.id`.
pub data Target : Type 0 where
  uri : Text → Target
  link : Option Text → Target

abbrev pub target_uri : Target → Option Text
target_uri (uri t) = some t
target_uri (link odata_id) = odata_id

-- The loop of `activate_software`, for the texts of the links.
unfoldable pub activate_uris : List Target → Result (List Text)
activate_uris [] = ok []
activate_uris (t ∷ targets) =
    let rest = activate_uris targets in
    if truthy (target_uri t)
    then bind rest (λ uris. ok (or_else (target_uri t) [] ∷ uris))
    else err (validation_error empty_activate_target)

unfoldable pub link_items : List Text → Items
link_items [] = Items.end
link_items (t ∷ ts) = Items.item (object (field (str "@odata.id") (string t) empty)) (link_items ts)

-- The argument `update_parameters` of `upload_firmware_file`.
pub data UploadParameters : Type 0 where
  not_given : UploadParameters
  typed : UpdateParameters → UploadParameters
  untyped : Fields → UploadParameters

abbrev pub is_listed : Option Text → List Text → Bool
is_listed none allowed = false
is_listed (some t) allowed = mem t allowed

abbrev pub or_task : Option Text → Option Text → Option Text
or_task first second = if truthy first then first else second

abbrev has_parameters : UploadParameters → Bool
has_parameters not_given = false
has_parameters _ = true

-- The other fields of an upload.
abbrev pub upload_fields : (multipart : Bool) → UploadParameters → Fields → Option Fields → Fields
upload_fields multipart update_parameters serialized oem_parameters =
    optional_field (str "UpdateParameters")
      (if multipart || has_parameters update_parameters then some (object serialized) else none)
      (optional_field (str "OemParameters") (dictionary oem_parameters) empty)

-- ===== src/Updates/Bodies.antt =====
-- The bodies of SimpleUpdate that the strategies of redfish_sdk/managers/update_strategies build,
-- but for H3C's.
use redfish_python_sdk.Prelude.{
  Option, none, some, List, [], ◌∷◌, Text, str, is_empty, if◌then◌else◌,
}
use redfish_python_sdk.Exceptions.{value_error}
use redfish_python_sdk.Result.{Result, ok, err}
use redfish_python_sdk.HttpClient.Session.{truthy}
use redfish_python_sdk.Json.{Json, string, array, object, bool, Fields, empty, field, get_field}
use redfish_python_sdk.Updates.Requests.{is_true_value, texts, optional_field}
use redfish_python_sdk.Updates.Parameters.{optional_text}

-- The arguments of `execute`; the user and the password are those of the keyword arguments, and
-- `extra` is the others.
pub record Request : Type 0 where
  pub image_uri : Text
  pub transfer_protocol : Text
  pub targets : List Text
  pub username : Option Text
  pub password : Option Text
  pub extra : Fields

-- What `body[key] = kwargs[name]` writes under `if kwargs.get(name)`.
unfoldable pub given_value : Text → Fields → Option Json
unfolding get_field is_true_value
given_value name kwargs = elim (get_field name kwargs) [
  | some v ↦ if is_true_value v then some v else none
  | none ↦ none
]

-- What `body[key] = bool(kwargs[name])` writes under `if name in kwargs`.
unfoldable pub as_bool : Text → Fields → Option Json
unfolding get_field is_true_value
as_bool name kwargs = elim (get_field name kwargs) [
  | some v ↦ some (bool (is_true_value v))
  | none ↦ none
]

-- The value where it is not empty.
abbrev pub non_empty : Option Text → Option Json
non_empty t = if truthy t then optional_text t else none

abbrev pub targets_value : List Text → Option Json
targets_value [] = none
targets_value (t ∷ ts) = some (array (texts (t ∷ ts)))

-- body["Oem"] = {"Public": oem_public}, where it is not empty
abbrev pub public_part : Fields → Fields
public_part empty = empty
public_part (field k v rest) =
    field (str "Oem") (object (field (str "Public") (object (field k v rest)) empty)) empty

abbrev pub image_and_protocol : Request → Fields → Fields
image_and_protocol r rest =
    field (str "ImageURI") (string r.image_uri)
      (field (str "TransferProtocol") (string r.transfer_protocol) rest)

abbrev pub credential_fields : Request → Fields → Fields
credential_fields r rest =
    optional_field (str "Username") (non_empty r.username)
      (optional_field (str "Password") (non_empty r.password) rest)

-- `GenericUpdateStrategy.execute`
unfoldable pub generic_body : Request → Fields
unfolding texts
generic_body r =
    image_and_protocol r (optional_field (str "Targets") (targets_value r.targets) empty)

-- `LenovoUpdateStrategy.execute`
unfoldable pub lenovo_body : Request → Fields
unfolding texts
lenovo_body r =
    image_and_protocol r
      (optional_field (str "Targets") (targets_value r.targets) (credential_fields r empty))

-- `NettrixUpdateStrategy.execute`
unfoldable pub nettrix_body : Request → Fields
unfolding texts as_bool
nettrix_body r = image_and_protocol r (
    optional_field (str "Targets") (targets_value r.targets)
      (optional_field (str "SaveConfig") (as_bool (str "preserve_config") r.extra) empty))

-- `XFusionUpdateStrategy.execute`
unfoldable pub xfusion_body : Request → Fields
unfolding as_bool given_value
xfusion_body r = image_and_protocol r (
    optional_field (str "PreserveConfig") (as_bool (str "preserve_config") r.extra) (
      optional_field (str "ActiveMode") (given_value (str "active_mode") r.extra)
        (optional_field (str "ModuleArray") (given_value (str "module_array") r.extra) empty)))

-- `ZteUpdateStrategy.execute`
unfoldable pub zte_body : Request → Fields
unfolding as_bool given_value
zte_body r = image_and_protocol r (
    public_part (
      optional_field (str "PreserveConf") (as_bool (str "preserve_config") r.extra) (
        optional_field (str "BMCFlash") (given_value (str "bmc_flash") r.extra) (
          optional_field (str "BiosFlash") (given_value (str "bios_flash") r.extra)
            (optional_field (str "ApplyTime") (given_value (str "apply_time") r.extra) empty)))))

-- `InspurUpdateStrategy.execute`
unfoldable pub inspur_body : Request → Fields
unfolding as_bool given_value
inspur_body r = image_and_protocol r (
    credential_fields r (
      public_part (
        optional_field (str "FlashItem") (given_value (str "flash_item") r.extra) (
          optional_field (str "PreserveConf") (as_bool (str "preserve_config") r.extra) (
            optional_field (str "BIOSUpdateType") (given_value (str "bios_update_type") r.extra) (
              optional_field (str "BiosFlash") (given_value (str "bios_flash") r.extra) (
                optional_field (str "PFRType") (as_bool (str "pfr_type") r.extra) (
                  optional_field (str "PFRRegion") (given_value (str "pfr_region") r.extra) (
                    optional_field (str "PFRUpdateDynamic")
                      (as_bool (str "pfr_update_dynamic") r.extra)
                      (optional_field (str "SeamlessModule")
                        (given_value (str "seamless_module") r.extra) empty))))))))))

-- `EnginetechUpdateStrategy.execute`; without targets it raises ValueError.
unfoldable pub enginetech_body : Request → Result Fields
unfolding texts as_bool given_value
enginetech_body r =
    if is_empty r.targets
    then err value_error
    else ok (
        image_and_protocol r (
          field (str "Targets") (array (texts r.targets)) (
            credential_fields r (
              public_part (
                optional_field (str "ImageType") (given_value (str "image_type") r.extra) (
                  optional_field (str "PreserveConf") (as_bool (str "preserve_config") r.extra)
                    empty))))))

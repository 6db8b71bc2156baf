-- ===== src/Updates/Permitted.antt =====
-- What redfish_sdk/managers/update.py may send to an UpdateService: requests to targets that the
-- service advertises, with parameters that its UpdateServiceCapabilities permit.
use redfish_python_sdk.Prelude.{
  ◌≡◌, Bool, true, false, Option, none, some, List, [], ◌∷◌, Text, str, is_empty, strip, text_eq,
  ◌&&◌, ◌||◌, All, IsIn, ◌⊎◌,
}
use redfish_python_sdk.Exec.Answers.{HasGiven}
use redfish_python_sdk.Result.{ok}
use redfish_python_sdk.HttpClient.Session.{truthy, or_else}
use redfish_python_sdk.Json.{Json, array, Fields, empty, field}
use redfish_python_sdk.Updates.Requests.{
  UpdateService, UpdateServiceCapabilities, UpdateParameters, Host, Upload,
}
use redfish_python_sdk.Updates.{
  actions_of, Action, is_allowed, target_reference_type, raw_resource_type, list_of, is_provided,
  is_yes, targets_support, stage_support, none_requested,
}
use redfish_python_sdk.Updates.Parameters.{
  simple_update_body, bmc_body, link_items, UploadParameters, not_given, typed, untyped,
  upload_fields, dump_parameters, or_task,
}
use redfish_python_sdk.Updates.Service.{capabilities, allowed_values}
use redfish_python_sdk.Updates.Bodies.{Request}
use redfish_python_sdk.Updates.Strategies.{Strategy, body_of, raw_target}
use redfish_python_sdk.Updates.Advertised.{IsUnique}

-- A parameter that is given is supported.
abbrev pub IsSupportedIf : (given supported : Bool) → Type 0
IsSupportedIf given supported = (given ≡ false) ⊎ (supported ≡ true)

module _ {ℓ} {S : Type ℓ} (host : Host S) where
  -- A target whose type, as it was read, is one that the service permits.
  pub record IsOfType (caps : UpdateServiceCapabilities) (target : Text) : Type ℓ where
    pub resource : Json
    pub was_read : HasGiven (host.get_raw target) resource
    pub resource_type : Text
    pub is_type : raw_resource_type resource ≡ ok resource_type
    pub reference_type : Text
    pub is_reference : target_reference_type resource_type ≡ some reference_type
    pub permitted : IsIn (list_of caps.allowable_target_reference_types) reference_type

  -- The target is listed, or has a type that is permitted.
  pub data IsReference (caps : UpdateServiceCapabilities) (target : Text) : Type ℓ where
    listed : IsIn (list_of caps.allowable_targets) target → IsReference caps target
    of_type : IsOfType caps target → IsReference caps target

  -- To stage, every target is one for staging; otherwise every target is listed or has a type that
  -- is permitted.
  abbrev pub HasTargets : UpdateServiceCapabilities → UpdateParameters → Type ℓ
  HasTargets caps p =
      ((is_yes p.stage ≡ true) × All (IsIn (list_of caps.allowable_staging)) (list_of p.targets))
      ⊎ ((is_yes p.stage ≡ false) × All (IsReference caps) (list_of p.targets))

  -- The parameters are within capabilities that the service gave.
  pub record IsWithin (p : UpdateParameters) : Type ℓ where
    pub caps : UpdateServiceCapabilities
    pub was_read : HasGiven (capabilities host) caps
    pub targets_supported : IsSupportedIf (is_provided p.targets) (targets_support caps)
    pub exclude_targets_supported :
        IsSupportedIf
          (is_provided p.exclude_targets)
          (is_yes caps.exclude_targets_parameter_supported)
    pub force_update_supported :
        IsSupportedIf (is_provided p.force_update) (is_yes caps.force_update_parameter_supported)
    pub stage_supported : IsSupportedIf (is_provided p.stage) (stage_support caps)
    pub local_image_supported :
        IsSupportedIf (is_provided p.local_image) (is_yes caps.local_image_parameter_supported)
    pub has_targets : HasTargets caps p

  abbrev pub IsPermitted : UpdateParameters → Type ℓ
  IsPermitted p = (none_requested p ≡ true) ⊎ IsWithin p

  -- The action is the only one of its name that the service advertised.
  pub record IsAdvertised (name : Text) (action : Action) : Type ℓ where
    pub service : UpdateService
    pub was_read : HasGiven host.update_service service
    pub unique : IsUnique name (actions_of service) action

  -- The value is among those that the service allows for a parameter of an action.
  pub record IsAllowed (action : Action) (name : Text) (fallback : List Text) (value : Text)
      : Type ℓ where
    pub allowed : Json
    pub was_read : HasGiven (allowed_values host action name fallback) allowed
    pub is_one : is_allowed value allowed ≡ ok true

  -- The two-image update comes with a selector; a selector is one that the service allows.
  pub data HasSelector (action : Action) (flash_type : Text) : Option Text → Type ℓ where
    no_selector :
        text_eq flash_type (str "DUALIMAGEFwUpdate") ≡ false → HasSelector action flash_type none
    with_selector :
        {selector : Text}
        → (text_eq flash_type (str "DUALIMAGEFwUpdate") && is_empty selector) ≡ false
        → IsAllowed action
            (str "UploadSelector")
            (str "AutoInactive" ∷ str "Image1" ∷ str "Image2" ∷ str "ImageBoth" ∷ [])
            selector
        → HasSelector action flash_type (some selector)

  -- What may be given to `post_raw`.
  pub data IsRequest : (target : Text) → (body : Fields) → Type ℓ where
    simple_update_request :
        (action : Action) (image_uri transfer_protocol : Text) (parameters : UpdateParameters)
        (username password : Option Text)
        → IsAdvertised (str "SimpleUpdate") action
        → IsPermitted parameters
        → IsRequest action.target
            (simple_update_body image_uri transfer_protocol parameters username password)
    bmc_request :
        (action : Action) (flash_type : Text) (upload_selector : Option Text)
        → IsAdvertised (str "BMCFwUpdate") action
        → IsAllowed action
            (str "FlashType")
            (str "FULLFwUpdate" ∷ str "DUALIMAGEFwUpdate" ∷ [])
            flash_type
        → HasSelector action flash_type upload_selector
        → IsRequest action.target (bmc_body flash_type upload_selector)
    activate_request :
        (action : Action) (uris : List Text)
        → IsAdvertised (str "Activate") action
        → is_empty uris ≡ false
        → All (λ uri. is_empty uri ≡ false) uris
        → IsRequest action.target (field (str "Targets") (array (link_items uris)) empty)

  -- The parameters of an upload are permitted where they are typed.
  abbrev pub IsSerialized : UploadParameters → Fields → Type ℓ
  IsSerialized parameters serialized =
      ((p : UpdateParameters) × (parameters ≡ typed p)
        × (serialized ≡ dump_parameters p)
        × IsPermitted p)
      ⊎ ((d : Fields) × (parameters ≡ untyped d) × (serialized ≡ d))
      ⊎ ((parameters ≡ not_given) × (serialized ≡ empty))

  -- What may be uploaded.
  pub data IsUpload : (target : Text) → Upload → (fields : Fields) → Type ℓ where
    image_upload :
        (action : Action) (name : Text) (file : Upload)
        → IsAdvertised name action
        → IsUpload action.target file empty
    file_upload :
        (service : UpdateService) (parameters : UploadParameters) (serialized : Fields)
        (file : Upload) (oem : Option Fields)
        → HasGiven host.update_service service
        → (truthy service.multi_part_http_push_uri || truthy service.http_push_uri) ≡ true
        → IsSerialized parameters serialized
        → IsUpload
            (or_else (or_task service.multi_part_http_push_uri service.http_push_uri) [])
            file
            (upload_fields (truthy service.multi_part_http_push_uri) parameters serialized oem)

  -- What may be given to `post`: the body of a strategy, to the target of SimpleUpdate that was
  -- read, which is not blank.
  pub record IsVendorRequest (target : Text) (body : Fields) : Type ℓ where
    pub path : Text
    pub raw : Json
    pub was_read : HasGiven (host.get_raw path) raw
    pub is_target : raw_target raw ≡ ok (some target)
    pub not_blank : is_empty (strip target) ≡ false
    pub strategy : Strategy
    pub request : Request
    pub is_body : body_of strategy request ≡ ok body

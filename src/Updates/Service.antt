-- ===== src/Updates/Service.antt =====
-- The methods of `UpdateServiceManager` of redfish_sdk/managers/update.py that call the service.
use redfish_python_sdk.Prelude.{
  Bool, not, ◌&&◌, Option, none, some, List, [], ◌∷◌, Text, str, text_eq, is_empty, mem, strip, all,
  ◌++◌, if◌then◌else◌,
}
use redfish_python_sdk.Exceptions.{
  validation_error, attribute_error, no_capabilities, unsupported_flash_type, no_upload_selector,
  unsupported_upload_selector, not_staging, unsupported_update_target, no_activate_target,
  no_push_uri, Reason,
}
use redfish_python_sdk.Result.{raise_if, ◌>>=◌ as bind}
use redfish_python_sdk.Exec.{Exec, pure, raise, lift, ◌>>=◌, ◌>>◌}
use redfish_python_sdk.HttpClient.Session.{truthy, or_else}
use redfish_python_sdk.Json.{Json, string, array, Fields, empty, field}
use redfish_python_sdk.Updates.Requests.{
  UpdateServiceCapabilities, UpdateParameters, FirmwareUpdateResponse, HttpResponse, Upload, Host,
  is_true_value,
}
use redfish_python_sdk.Updates.{
  discover, actions_of, Action, unique_action, is_allowed, get_value, parameter_values, or_fallback,
  target_reference_type, raw_resource_type, list_of, is_yes, requested_parameters, check_requested,
  none_requested,
}
use redfish_python_sdk.Updates.Parameters.{
  dump_parameters, simple_update_body, stage_parameters, protocol_of, bmc_body, Target,
  activate_uris, link_items, UploadParameters, not_given, typed, untyped, is_listed, or_task,
  upload_fields,
}

module _ {ℓ} {S : Type ℓ} (host : Host S) where
  -- `_action`
  unfoldable pub action : Text → Exec S Action
  unfolding discover unique_action
  action name =
      host.update_service >>= λ service. lift (unique_action (discover name (actions_of service)))

  -- action["@Redfish.ActionInfo"], where it is true: what the resource there says.
  unfoldable pub from_action_info : Text → Option Json → Exec S (Option Json)
  unfolding parameter_values is_true_value
  from_action_info name none = pure none
  from_action_info name (some (string [])) = pure none
  from_action_info name (some (string (c ∷ path))) =
      host.get_raw (c ∷ path) >>= λ info. lift (parameter_values name info)
  from_action_info name (some v) = if is_true_value v then raise attribute_error else pure none

  abbrev pub stated_or_found : Action → Text → List Text → Option Json → Exec S Json
  stated_or_found a name fallback (some allowed) = pure allowed
  stated_or_found a name fallback none =
      from_action_info name (get_value (str "@Redfish.ActionInfo") a.parts) >>= λ found.
      pure (or_fallback fallback found)

  -- `_allowed`
  unfoldable pub allowed_values : Action → Text → List Text → Exec S Json
  unfolding get_value from_action_info
  allowed_values a name fallback =
      stated_or_found a name fallback (get_value (name ++ str "@Redfish.AllowableValues") a.parts)

  -- `_result`
  unfoldable pub update_result : HttpResponse → Exec S FirmwareUpdateResponse
  unfolding strip
  update_result response =
      (if is_empty (strip response.text)
        then pure (record {
          odata_id = none;
          task_uri = none;
          task_monitor = none;
          http_status = none;
          retry_after = none;
        })
        else host.parse response)
      >>= λ r. pure (record r {
        task_monitor = or_task response.location r.task_monitor;
        http_status = some response.status_code;
        task_uri = or_task r.odata_id r.task_uri;
        retry_after = or_task response.retry_after r.retry_after;
      })

  -- self._result(self._http.post_raw(target, body))
  unfoldable pub post_result : Text → Fields → Exec S FirmwareUpdateResponse
  unfolding update_result
  post_result target body = host.post_raw target body >>= λ response. update_result response

  -- `_upload`
  unfoldable pub upload : Text → Upload → Fields → Exec S FirmwareUpdateResponse
  unfolding update_result
  upload target file fields = host.upload target file fields >>= λ response. update_result response

  -- `upload_sign_key`
  unfoldable pub upload_sign_key : Text → Exec S FirmwareUpdateResponse
  unfolding action upload
  upload_sign_key file_path = action (str "UploadSignKey") >>= λ a.
      upload a.target (record { field_name = str "pem_file"; file_path = file_path }) empty

  -- `upload_firmware_image`
  unfoldable pub upload_firmware_image : Text → Exec S FirmwareUpdateResponse
  unfolding action upload
  upload_firmware_image file_path = action (str "UploadFirmwareImage") >>= λ a.
      upload a.target (record { field_name = str "image_file"; file_path = file_path }) empty

  -- `capabilities`
  unfoldable pub capabilities : Exec S UpdateServiceCapabilities
  capabilities = host.update_service >>= λ service.
      if truthy service.update_service_capabilities
      then host.capabilities_at (or_else service.update_service_capabilities [])
      else raise (validation_error no_capabilities)

  -- `_validate_target_reference`
  unfoldable pub validate_target_reference : Text → UpdateServiceCapabilities → Exec S (Unit {0})
  unfolding mem raw_resource_type target_reference_type
  validate_target_reference target caps =
      if mem target (list_of caps.allowable_targets)
      then pure tt
      else if is_empty (list_of caps.allowable_target_reference_types)
      then raise (validation_error unsupported_update_target)
      else host.get_raw target >>= λ resource. lift (
          bind (raw_resource_type resource) (λ resource_type.
            raise_if
              (not (
                is_listed (target_reference_type resource_type)
                  (list_of caps.allowable_target_reference_types)))
              (validation_error unsupported_update_target)))

  unfoldable pub validate_target_references :
      List Text → UpdateServiceCapabilities → Exec S (Unit {0})
  unfolding validate_target_reference
  validate_target_references [] caps = pure tt
  validate_target_references (target ∷ targets) caps =
      validate_target_reference target caps >> validate_target_references targets caps

  -- The end of `validate_update_parameters`: the targets.
  unfoldable pub validate_targets : UpdateParameters → UpdateServiceCapabilities → Exec S (Unit {0})
  unfolding all mem validate_target_references
  validate_targets parameters caps =
      if is_yes parameters.stage
      then lift (
          raise_if
            (not (
              all (λ target. mem target (list_of caps.allowable_staging))
                (list_of parameters.targets)))
            (validation_error not_staging))
      else validate_target_references (list_of parameters.targets) caps

  -- `validate_update_parameters`; what it returns is its argument.
  unfoldable pub validate_update_parameters : UpdateParameters → Exec S UpdateParameters
  unfolding none_requested capabilities requested_parameters check_requested validate_targets
  validate_update_parameters parameters = if none_requested parameters then pure parameters else (do
    caps ← capabilities
    lift (check_requested (requested_parameters parameters caps))
    validate_targets parameters caps
    pure parameters)

  -- `standard_simple_update`
  unfoldable pub standard_simple_update :
      (image_uri transfer_protocol : Text)
      → UpdateParameters
      → (username password : Option Text) → Exec S FirmwareUpdateResponse
  unfolding action validate_update_parameters simple_update_body post_result
  standard_simple_update image_uri transfer_protocol parameters username password = do
    a ← action (str "SimpleUpdate")
    validated ← validate_update_parameters parameters
    post_result a.target
        (simple_update_body image_uri transfer_protocol validated username password)

  -- `stage_update`
  unfoldable pub stage_update :
      (image_uri : Text)
      → (targets : List Text) → (transfer_protocol : Option Text) → (force_update : Option Bool)
      → (username password : Option Text) → Exec S FirmwareUpdateResponse
  unfolding protocol_of validate_update_parameters standard_simple_update
  stage_update image_uri targets transfer_protocol force_update username password = do
    protocol ← lift (protocol_of transfer_protocol image_uri)
    parameters ← validate_update_parameters (stage_parameters targets force_update)
    standard_simple_update image_uri protocol parameters username password

  -- The test of a parameter of BMCFwUpdate against the allowable values.
  abbrev pub require_allowed : Text → Json → Reason → Exec S (Unit {0})
  require_allowed value allowed reason =
      lift (bind (is_allowed value allowed) (λ b. raise_if (not b) (validation_error reason)))

  -- The upload selector of `bmc_firmware_update`, where one is given.
  unfoldable pub check_selector : Action → Option Text → Exec S (Unit {0})
  unfolding allowed_values is_allowed
  check_selector a none = pure tt
  check_selector a (some selector) =
      allowed_values a (str "UploadSelector")
        (str "AutoInactive" ∷ str "Image1" ∷ str "Image2" ∷ str "ImageBoth" ∷ [])
      >>= λ selectors. require_allowed selector selectors unsupported_upload_selector

  -- `bmc_firmware_update`
  unfoldable pub bmc_firmware_update : Text → Option Text → Exec S FirmwareUpdateResponse
  unfolding action allowed_values is_allowed check_selector post_result text_eq
  bmc_firmware_update flash_type upload_selector = do
    a ← action (str "BMCFwUpdate")
    allowed ← allowed_values a (str "FlashType") (str "FULLFwUpdate" ∷ str "DUALIMAGEFwUpdate" ∷ [])
    require_allowed flash_type allowed unsupported_flash_type
    lift (
        raise_if (text_eq flash_type (str "DUALIMAGEFwUpdate") && not (truthy upload_selector))
          (validation_error no_upload_selector))
    check_selector a upload_selector
    post_result a.target (bmc_body flash_type upload_selector)

  -- `activate_software`
  unfoldable pub activate_software : List Target → Exec S FirmwareUpdateResponse
  unfolding action activate_uris link_items post_result
  activate_software targets = do
    a ← action (str "Activate")
    uris ← lift (activate_uris targets)
    lift (raise_if (is_empty uris) (validation_error no_activate_target))
    post_result a.target (field (str "Targets") (array (link_items uris)) empty)

  -- The dictionary of the parameters of an upload.
  unfoldable pub serialized_parameters : UploadParameters → Exec S Fields
  unfolding validate_update_parameters dump_parameters
  serialized_parameters not_given = pure empty
  serialized_parameters (typed parameters) =
      validate_update_parameters parameters >>= λ validated. pure (dump_parameters validated)
  serialized_parameters (untyped parameters) = pure parameters

  -- `upload_firmware_file`
  unfoldable pub upload_firmware_file :
      (file_path field_name : Text)
      → UploadParameters
      → Option Fields
      → Exec S FirmwareUpdateResponse
  unfolding serialized_parameters upload
  upload_firmware_file file_path field_name update_parameters oem_parameters = do
    service ← host.update_service
    lift (
        raise_if
          (not (truthy service.multi_part_http_push_uri) && not (truthy service.http_push_uri))
          (validation_error no_push_uri))
    serialized ← serialized_parameters update_parameters
    upload (or_else (or_task service.multi_part_http_push_uri service.http_push_uri) [])
        (record { field_name = field_name; file_path = file_path })
        (upload_fields (truthy service.multi_part_http_push_uri) update_parameters serialized
          oem_parameters)

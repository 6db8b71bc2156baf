-- ===== src/Updates/Guarded.antt =====
-- The requests of redfish_sdk/managers/update.py and of redfish_sdk/managers/update_strategies: each
-- is one that the service permits.
use redfish_python_sdk.Prelude.{
  ◌≡◌, refl, sym, ap, if◌then◌else◌, Bool, true, false, not, ◌&&◌, ◌||◌, Option, none, some, List,
  [], ◌∷◌, Text, str, is_empty, strip, All, inl, inr,
}
use mathlib.Core.Path.{subst}
use redfish_python_sdk.Exceptions.{empty_activate_target, no_push_uri, validation_error}
use redfish_python_sdk.Result.{Result, ok, err, ◌>>=◌ as bind}
use redfish_python_sdk.Exec.{pure, ◌>>=◌}
use redfish_python_sdk.Exec.Ends.{Ends, ends_returned, Ends-bind}
use redfish_python_sdk.Exec.Answers.{given-bind, lift-bind, raise_if-bind}
use redfish_python_sdk.HttpClient.Session.{truthy, or_else}
use redfish_python_sdk.Json.{Fields, empty}
use redfish_python_sdk.Updates.Requests.{UpdateParameters, HttpResponse, Host, Upload}
use redfish_python_sdk.Updates.Parameters.{
  activate_uris, UploadParameters, not_given, typed, untyped, Target, target_uri, protocol_of,
  stage_parameters, upload_fields, or_task, dump_parameters,
}
use redfish_python_sdk.Updates.Service.{
  action, allowed_values, update_result, post_result, upload, validate_update_parameters,
  standard_simple_update, stage_update, check_selector, bmc_firmware_update, activate_software,
  serialized_parameters, upload_firmware_file,
}
use redfish_python_sdk.Updates.Permitted.{
  IsPermitted, IsRequest, simple_update_request, bmc_request, activate_request, IsSerialized,
  IsUpload, image_upload, file_upload,
}
use redfish_python_sdk.Updates.Validated.{Guard, action-Ends, validate_update_parameters-Ends}
use redfish_python_sdk.Updates.Allowed.{allowed_values-Keeps, allowed-bind, check_selector-Ends}

-- The texts that `activate_software` takes of its targets are not empty.
activate_uris-All :
    (targets : List Target) (uris : List Text)
    → activate_uris targets ≡ ok uris
    → All (λ u. is_empty u ≡ false) uris
unfolding activate_uris
activate_uris-All [] uris h = subst (All (λ u. is_empty u ≡ false)) {x = []} (cc h) tt
activate_uris-All (t ∷ targets) uris h =
    at_uri (target_uri t) (activate_uris targets) h (activate_uris-All targets)
  where
    at_uri :
        (u : Option Text) (rest : Result (List Text))
        → (if truthy u
            then bind rest (λ uris. ok (or_else u [] ∷ uris))
            else err (validation_error empty_activate_target))
          ≡ ok uris
        → ((others : List Text) → rest ≡ ok others → All (λ u. is_empty u ≡ false) others)
        → All (λ u. is_empty u ≡ false) uris
    at_uri none rest e k = absurd (cc e)
    at_uri (some []) rest e k = absurd (cc e)
    at_uri (some (c ∷ u)) (err x) e k = absurd (cc e)
    at_uri (some (c ∷ u)) (ok others) e k =
        subst (All (λ u. is_empty u ≡ false)) {x = (c ∷ u) ∷ others} (cc e) (refl, k others refl)

either_true : (a b : Bool) → (not a && not b) ≡ false → (a || b) ≡ true
either_true true b h = refl
either_true false true h = refl
either_true false false h = absurd (cc h)

module _ {ℓ} {S : Type ℓ} (host : Host S) (I : S → Type ℓ) (guard : Guard host I) where
  update_result-Ends :
      (response : HttpResponse) (s : S)
      → I s
      → Ends (λ _ s'. I s') I (update_result host response s)
  unfolding update_result
  update_result-Ends response s i = at_text (is_empty (strip response.text))
    where
      at_text :
          (b : Bool)
          → Ends
              (λ _ s'. I s')
              I
              (((if b
                    then pure (record {
                      odata_id = none;
                      task_uri = none;
                      task_monitor = none;
                      http_status = none;
                      retry_after = none;
                    })
                    else host.parse response)
                  >>= λ r. pure (record r {
                    task_monitor = or_task response.location r.task_monitor;
                    http_status = some response.status_code;
                    task_uri = or_task r.odata_id r.task_uri;
                    retry_after = or_task response.retry_after r.retry_after;
                  }))
                s)
      at_text true = ends_returned i
      at_text false =
          given-bind I (host.parse response) _ s (guard.parse_keeps response) i
            (λ r s' _ k. ends_returned k)

  post_result-Ends :
      (target : Text) (body : Fields) (s : S)
      → IsRequest host target body
      → I s
      → Ends (λ _ s'. I s') I (post_result host target body s)
  unfolding post_result
  post_result-Ends target body s permitted i =
      given-bind I (host.post_raw target body) _ s (guard.post_raw_keeps target body permitted) i
        (λ response s' _ k. update_result-Ends response s' k)

  upload-Ends :
      (target : Text) (file : Upload) (fields : Fields) (s : S)
      → IsUpload host target file fields
      → I s
      → Ends (λ _ s'. I s') I (upload host target file fields s)
  unfolding upload
  upload-Ends target file fields s permitted i =
      given-bind I (host.upload target file fields) _ s
        (guard.upload_keeps target file fields permitted) i
        (λ response s' _ k. update_result-Ends response s' k)

  pub standard_simple_update-Ends :
      (image_uri transfer_protocol : Text) (parameters : UpdateParameters)
      (username password : Option Text) (s : S)
      → I s
      → Ends
          (λ _ s'. I s')
          I
          (standard_simple_update host image_uri transfer_protocol parameters username password s)
  unfolding standard_simple_update
  standard_simple_update-Ends image_uri transfer_protocol parameters username password s i =
      Ends-bind (action host (str "SimpleUpdate")) _ s
        (action-Ends host I guard (str "SimpleUpdate") s i)
        (λ a s' (advertised, k).
          Ends-bind (validate_update_parameters host parameters) _ s'
            (validate_update_parameters-Ends host I guard parameters s' k)
            (λ q s'' (same, permitted, k').
              post_result-Ends a.target _ s''
                (simple_update_request a image_uri transfer_protocol q username password advertised
                  (subst (IsPermitted host) (sym same) permitted))
                k'))

  pub stage_update-Ends :
      (image_uri : Text) (targets : List Text) (transfer_protocol : Option Text)
      (force_update : Option Bool) (username password : Option Text) (s : S)
      → I s
      → Ends
          (λ _ s'. I s')
          I
          (stage_update host image_uri targets transfer_protocol force_update username password s)
  unfolding stage_update
  stage_update-Ends image_uri targets transfer_protocol force_update username password s i =
      lift-bind I (protocol_of transfer_protocol image_uri) _ s i (λ protocol _.
        Ends-bind (validate_update_parameters host (stage_parameters targets force_update)) _ s
          (validate_update_parameters-Ends host I guard (stage_parameters targets force_update) s i)
          (λ q s' (_, _, k).
            standard_simple_update-Ends image_uri protocol q username password s' k))

  pub bmc_firmware_update-Ends :
      (flash_type : Text) (upload_selector : Option Text) (s : S)
      → I s
      → Ends (λ _ s'. I s') I (bmc_firmware_update host flash_type upload_selector s)
  unfolding bmc_firmware_update
  bmc_firmware_update-Ends flash_type upload_selector s i =
      Ends-bind (action host (str "BMCFwUpdate")) _ s
        (action-Ends host I guard (str "BMCFwUpdate") s i)
        (λ a s' (advertised, k).
          given-bind I (allowed_values host a (str "FlashType") _) _ s'
            (allowed_values-Keeps host I guard a (str "FlashType") _) k
            (λ allowed s'' read k'.
              allowed-bind host I guard flash_type allowed _ _ s'' k' (λ is_one.
                raise_if-bind I _ _ _ s'' k' (λ needed.
                  Ends-bind (check_selector host a upload_selector) _ s''
                    (check_selector-Ends host I guard a flash_type upload_selector s'' needed k')
                    (λ _ s3 (selected, k3).
                      post_result-Ends a.target _ s3
                        (bmc_request a flash_type upload_selector advertised
                          (record { allowed = allowed; was_read = read; is_one = is_one }) selected)
                        k3)))))

  pub activate_software-Ends :
      (targets : List Target) (s : S)
      → I s
      → Ends (λ _ s'. I s') I (activate_software host targets s)
  unfolding activate_software
  activate_software-Ends targets s i =
      Ends-bind (action host (str "Activate")) _ s (action-Ends host I guard (str "Activate") s i)
        (λ a s' (advertised, k). lift-bind I (activate_uris targets) _ s' k (λ uris e.
          raise_if-bind I (is_empty uris) _ _ s' k (λ something.
            post_result-Ends a.target _ s'
              (activate_request a uris advertised something (activate_uris-All targets uris e)) k)))

  serialized_parameters-Ends :
      (parameters : UploadParameters) (s : S)
      → I s
      → Ends
          (λ serialized s'. IsSerialized host parameters serialized × I s')
          I
          (serialized_parameters host parameters s)
  unfolding serialized_parameters
  serialized_parameters-Ends not_given s i = ends_returned (inr (inr (refl, refl)), i)
  serialized_parameters-Ends (untyped d) s i = ends_returned (inr (inl (d, refl, refl)), i)
  serialized_parameters-Ends (typed p) s i =
      Ends-bind (validate_update_parameters host p) _ s
        (validate_update_parameters-Ends host I guard p s i)
        (λ q s' (same, permitted, k).
          ends_returned (inl (p, refl, ap dump_parameters same, permitted), k))

  pub upload_firmware_file-Ends :
      (file_path field_name : Text) (parameters : UploadParameters) (oem : Option Fields) (s : S)
      → I s
      → Ends (λ _ s'. I s') I (upload_firmware_file host file_path field_name parameters oem s)
  unfolding upload_firmware_file
  upload_firmware_file-Ends file_path field_name parameters oem s i =
      given-bind I host.update_service _ s guard.service_keeps i (λ service s' read k.
        raise_if-bind I
          (not (truthy service.multi_part_http_push_uri) && not (truthy service.http_push_uri))
          (validation_error no_push_uri) _ s' k
          (λ advertised.
            Ends-bind {P = λ serialized s''. IsSerialized host parameters serialized × I s''}
              (serialized_parameters host parameters)
              (λ serialized.
                upload host
                  (or_else (or_task service.multi_part_http_push_uri service.http_push_uri) [])
                  (record { field_name = field_name; file_path = file_path })
                  (upload_fields (truthy service.multi_part_http_push_uri) parameters serialized
                    oem))
              s' (serialized_parameters-Ends parameters s' k)
              (λ serialized s'' (is_serialized, k').
                upload-Ends _ (record { field_name = field_name; file_path = file_path }) _ s''
                  (file_upload service parameters serialized
                    (record { field_name = field_name; file_path = file_path }) oem read
                    (either_true (truthy service.multi_part_http_push_uri)
                      (truthy service.http_push_uri) advertised)
                    is_serialized)
                  k')))

  pub upload_image-Ends :
      (name : Text) (file : Upload) (s : S)
      → I s
      → Ends (λ _ s'. I s') I ((action host name >>= λ a. upload host a.target file empty) s)
  upload_image-Ends name file s i =
      Ends-bind (action host name) _ s (action-Ends host I guard name s i) (λ a s' (advertised, k).
        upload-Ends a.target file empty s' (image_upload a name file advertised) k)

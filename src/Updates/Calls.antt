-- ===== src/Updates/Calls.antt =====
-- Sequences of calls of `UpdateServiceManager` of redfish_sdk/managers/update.py, with `execute` of
-- the strategies.
use redfish_python_sdk.Prelude.{
  ◌≡◌, refl, Bool, true, false, Option, none, some, List, [], ◌∷◌, Text, str, is_empty, strip, inl,
  inr, Bool-cases, if◌then◌else◌,
}
use redfish_python_sdk.Exceptions.{missing_attribute}
use redfish_python_sdk.Result.{ok}
use redfish_python_sdk.Exec.{Exec, raise, pure, lift, end_state, ◌>>=◌}
use redfish_python_sdk.Exec.Keeps.{Keeps}
use redfish_python_sdk.Exec.Ends.{Ends, ends_returned, ends_raised, Ends-bind}
use redfish_python_sdk.Exec.Answers.{HasGiven, kept-Ends, Ends-Keeps, given-bind, lift-bind}
use redfish_python_sdk.HttpClient.Session.{truthy, or_else}
use redfish_python_sdk.Json.{Json, Fields}
use redfish_python_sdk.Updates.Requests.{Host, UpdateParameters}
use redfish_python_sdk.Updates.Parameters.{UploadParameters, Target}
use redfish_python_sdk.Updates.Service.{
  standard_simple_update, stage_update, bmc_firmware_update, activate_software, upload_sign_key,
  upload_firmware_image, upload_firmware_file,
}
use redfish_python_sdk.Updates.Bodies.{Request}
use redfish_python_sdk.Updates.Strategies.{
  Strategy, body_of, raw_target, discover_action_target, execute, strategy_for, simple_update,
  raw_at,
}
use redfish_python_sdk.Updates.Validated.{Guard}
use redfish_python_sdk.Updates.Guarded.{
  standard_simple_update-Ends, stage_update-Ends, bmc_firmware_update-Ends, activate_software-Ends,
  upload_firmware_file-Ends, upload_image-Ends,
}

-- The target is one that a resource gave for SimpleUpdate.
pub record IsDiscovered {ℓ} {S : Type ℓ} (host : Host S) (target : Text) : Type ℓ where
  pub path : Text
  pub raw : Json
  pub was_read : HasGiven (host.get_raw path) raw
  pub is_target : raw_target raw ≡ ok (some target)
  pub not_blank : is_empty (strip target) ≡ false

module _ {ℓ} {S : Type ℓ} (host : Host S) (I : S → Type ℓ) (guard : Guard host I) where
  discover_action_target-Ends :
      (s : S)
      → I s
      → Ends (λ target s'. IsDiscovered host target × I s') I (discover_action_target host s)
  unfolding discover_action_target
  discover_action_target-Ends s i =
      given-bind I host.update_service _ s guard.service_keeps i
        (λ service s' _ k. at_path service.odata_id service.odata_id s' k)
    where
      at_blank :
          (path : Text) (raw : Json) (target : Option Text) (odata_id : Option Text) (s : S)
          → HasGiven (host.get_raw path) raw
          → raw_target raw ≡ ok target
          → I s
          → (blank : Bool) → is_empty (strip (or_else target [])) ≡ blank
          → Ends
              (λ t s'. IsDiscovered host t × I s')
              I
              ((if blank
                  then raise (missing_attribute (str "target") (or_else odata_id []))
                  else pure (or_else target []))
                s)
      at_blank path raw target odata_id s read e k true h = ends_raised k
      at_blank path raw none odata_id s read e k false h = absurd (cc h)
      at_blank path raw (some t) odata_id s read e k false h =
          ends_returned
            (record { path = path; raw = raw; was_read = read; is_target = e; not_blank = h }, k)

      at_path :
          (at odata_id : Option Text) (s : S)
          → I s
          → Ends
              (λ t s'. IsDiscovered host t × I s')
              I
              ((raw_at host at >>= λ raw. lift (raw_target raw) >>= λ target.
                  if is_empty (strip (or_else target []))
                  then raise (missing_attribute (str "target") (or_else odata_id []))
                  else pure (or_else target []))
                s)
      at_path none odata_id s k = ends_raised k
      at_path (some path) odata_id s k =
          given-bind I (host.get_raw path) _ s (guard.raw_keeps path) k (λ raw s' read k'.
            lift-bind I (raw_target raw) _ s' k' (λ target e.
              at_blank path raw target odata_id s' read e k' (is_empty (strip (or_else target [])))
                refl))

  execute-Ends :
      (strategy : Strategy) (r : Request) (s : S)
      → I s
      → Ends (λ _ s'. I s') I (execute host strategy r s)
  unfolding execute
  execute-Ends strategy r s i =
      Ends-bind (discover_action_target host) _ s (discover_action_target-Ends s i)
        (λ target s' (found, k). lift-bind I (body_of strategy r) _ s' k (λ body e.
          kept-Ends I (host.post target body) s'
            (guard.post_keeps target body (record {
              path = found.path;
              raw = found.raw;
              was_read = found.was_read;
              is_target = found.is_target;
              not_blank = found.not_blank;
              strategy = strategy;
              request = r;
              is_body = e;
            }))
            k))

  simple_update-Ends :
      (detect : Exec S Text) (vendor : Option Text) (r : Request) (s : S)
      → Keeps I detect
      → I s
      → Ends (λ _ s'. I s') I (simple_update host detect vendor r s)
  unfolding simple_update
  simple_update-Ends detect vendor r s keeps i = elim (Bool-cases (truthy vendor)) [
    | inl t ↦ rw t (execute-Ends (strategy_for (or_else vendor [])) r s i)
    | inr f ↦ rw f (
        given-bind I detect _ s keeps i
          (λ detected s' _ k. execute-Ends (strategy_for detected) r s' k))
  ]

-- A call of a method that sends a request.
pub data Call : Type 0 where
  standard_call :
      (image_uri transfer_protocol : Text)
      → (parameters : UpdateParameters) → (username password : Option Text) → Call
  stage_call :
      (image_uri : Text)
      → (targets : List Text) → (transfer_protocol : Option Text) → (force_update : Option Bool)
      → (username password : Option Text) → Call
  bmc_call : (flash_type : Text) → (upload_selector : Option Text) → Call
  activate_call : (targets : List Target) → Call
  sign_key_call : (file_path : Text) → Call
  image_call : (file_path : Text) → Call
  file_call :
      (file_path field_name : Text) → (parameters : UploadParameters) → (oem : Option Fields) → Call
  vendor_call : (vendor : Option Text) → (request : Request) → Call

module _ {ℓ} {S : Type ℓ} (host : Host S) (detect : Exec S Text) where
  abbrev pub after_call : Call → S → S
  after_call (standard_call image_uri protocol parameters username password) s =
      end_state (standard_simple_update host image_uri protocol parameters username password s)
  after_call (stage_call image_uri targets protocol force username password) s =
      end_state (stage_update host image_uri targets protocol force username password s)
  after_call (bmc_call flash_type selector) s =
      end_state (bmc_firmware_update host flash_type selector s)
  after_call (activate_call targets) s = end_state (activate_software host targets s)
  after_call (sign_key_call file_path) s = end_state (upload_sign_key host file_path s)
  after_call (image_call file_path) s = end_state (upload_firmware_image host file_path s)
  after_call (file_call file_path field_name parameters oem) s =
      end_state (upload_firmware_file host file_path field_name parameters oem s)
  after_call (vendor_call vendor request) s = end_state (simple_update host detect vendor request s)

  -- The state after a sequence of calls, each of which may have raised.
  unfoldable pub after_calls : List Call → S → S
  unfolding standard_simple_update stage_update bmc_firmware_update activate_software
      upload_sign_key upload_firmware_image upload_firmware_file simple_update
  after_calls [] s = s
  after_calls (c ∷ calls) s = after_calls calls (after_call c s)

module _ {ℓ} {S : Type ℓ} (host : Host S) (detect : Exec S Text) (I : S → Type ℓ)
    (guard : Guard host I) (detect_keeps : Keeps I detect) where
  call-Keeps : (c : Call) (s : S) → I s → I (after_call host detect c s)
  unfolding upload_sign_key upload_firmware_image
  call-Keeps (standard_call image_uri protocol parameters username password) s i =
      (Ends-Keeps I _ (
          standard_simple_update-Ends host I guard image_uri protocol parameters username
            password)).at
        s i
  call-Keeps (stage_call image_uri targets protocol force username password) s i =
      (Ends-Keeps I _
          (stage_update-Ends host I guard image_uri targets protocol force username password)).at
        s i
  call-Keeps (bmc_call flash_type selector) s i =
      (Ends-Keeps I _ (bmc_firmware_update-Ends host I guard flash_type selector)).at s i
  call-Keeps (activate_call targets) s i =
      (Ends-Keeps I _ (activate_software-Ends host I guard targets)).at s i
  call-Keeps (sign_key_call file_path) s i =
      (Ends-Keeps I _ (upload_image-Ends host I guard (str "UploadSignKey") _)).at s i
  call-Keeps (image_call file_path) s i =
      (Ends-Keeps I _ (upload_image-Ends host I guard (str "UploadFirmwareImage") _)).at s i
  call-Keeps (file_call file_path field_name parameters oem) s i =
      (Ends-Keeps I _
          (upload_firmware_file-Ends host I guard file_path field_name parameters oem)).at
        s i
  call-Keeps (vendor_call vendor request) s i =
      (Ends-Keeps I _
          (λ s i. simple_update-Ends host I guard detect vendor request s detect_keeps i)).at
        s i

  -- Every sequence of calls of the methods that send a request, with whatever arguments, keeps an
  -- invariant that the reads keep and that each permitted request keeps. Permitted is to post to
  -- the target of the only advertised action of a name: for SimpleUpdate, parameters that were
  -- empty or within capabilities that were read, each given parameter supported and each target
  -- listed, of a permitted type or stageable; for BMCFwUpdate, a flash type and a selector that
  -- the service allows; for Activate, a list of links that is not empty and has no empty one. And
  -- to upload to such a target, or to the advertised push URI with typed parameters that are
  -- within the capabilities; and to post the body of a strategy to the target of SimpleUpdate that
  -- was read, which is not blank. So the methods send nothing else, whatever the service answers.
  pub calls-Permitted : (calls : List Call) (s : S) → I s → I (after_calls host detect calls s)
  unfolding after_calls
  calls-Permitted [] s i = i
  calls-Permitted (c ∷ calls) s i =
      calls-Permitted calls (after_call host detect c s) (call-Keeps c s i)

-- ===== src/Updates/Validated.antt =====
-- What the reads and the validations of redfish_sdk/managers/update.py establish.
use redfish_python_sdk.Prelude.{
  ◌≡◌, refl, Bool, true, false, not, Option, none, some, List, [], ◌∷◌, Text, is_empty, mem, all,
  All, IsIn, inl, inr, arith, Bool-cases,
}
use redfish_python_sdk.Exceptions.{validation_error, unsupported_update_target}
use redfish_python_sdk.Result.{Result, ok, err, raise_if, ◌>>=◌ as bind}
use redfish_python_sdk.Exec.{lift}
use redfish_python_sdk.Exec.Keeps.{Keeps}
use redfish_python_sdk.Exec.Ends.{
  Ends, ends_returned, ends_raised, Ends-lift, Ends-bind, Ends-weaken,
}
use redfish_python_sdk.Exec.Answers.{HasGiven, kept-Ends, Ends-Keeps, given-bind, lift-bind}
use redfish_python_sdk.HttpClient.Session.{truthy}
use redfish_python_sdk.Json.{Json, Fields}
use redfish_python_sdk.Updates.Requests.{
  UpdateServiceCapabilities, UpdateParameters, HttpResponse, Host, Upload,
}
use redfish_python_sdk.Updates.{
  discover, actions_of, unique_action, target_reference_type, raw_resource_type, list_of,
  is_provided, is_yes, requested_parameters, check_requested, none_requested, targets_support,
}
use redfish_python_sdk.Updates.Parameters.{is_listed}
use redfish_python_sdk.Updates.Service.{
  action, capabilities, validate_target_reference, validate_target_references, validate_targets,
  validate_update_parameters,
}
use redfish_python_sdk.Updates.Advertised.{unique_action-IsUnique}
use redfish_python_sdk.Updates.Permitted.{
  IsSupportedIf, IsReference, listed, of_type, HasTargets, IsWithin, IsPermitted, IsAdvertised,
  IsRequest, IsUpload, IsVendorRequest,
}

-- The other end of an invariant: reads keep it, and so does each request that is permitted.
pub record Guard {ℓ} {S : Type ℓ} (host : Host S) (I : S → Type ℓ) : Type ℓ where
  pub service_keeps : Keeps I host.update_service
  pub capabilities_keep : (path : Text) → Keeps I (host.capabilities_at path)
  pub raw_keeps : (path : Text) → Keeps I (host.get_raw path)
  pub parse_keeps : (response : HttpResponse) → Keeps I (host.parse response)
  pub post_raw_keeps :
      (target : Text) (body : Fields)
      → IsRequest host target body
      → Keeps I (host.post_raw target body)
  pub upload_keeps :
      (target : Text) (file : Upload) (fields : Fields)
      → IsUpload host target file fields
      → Keeps I (host.upload target file fields)
  pub post_keeps :
      (target : Text) (body : Fields)
      → IsVendorRequest host target body
      → Keeps I (host.post target body)

-- What passing the test of a parameter says, and the rest of the loop.
check_requested-IsSupportedIf :
    (given supported : Bool) (rest : List (Bool × Bool))
    → check_requested ((given, supported) ∷ rest) ≡ ok tt
    → IsSupportedIf given supported × (check_requested rest ≡ ok tt)
unfolding check_requested
check_requested-IsSupportedIf false supported rest h = (inl refl, h)
check_requested-IsSupportedIf true true rest h = (inr refl, h)
check_requested-IsSupportedIf true false rest h = absurd (cc h)

all-IsIn : (xs : List Text) (ts : List Text) → all (λ t. mem t xs) ts ≡ true → All (IsIn xs) ts
unfolding all
all-IsIn xs [] h = tt
all-IsIn xs (t ∷ ts) h = (ground arith, all-IsIn xs ts (ground arith))

-- A type that is listed is the type of a reference that is permitted.
is_listed-some :
    (reference : Option Text) (allowed : List Text)
    → is_listed reference allowed ≡ true
    → (t : Text) × (reference ≡ some t) × IsIn allowed t
is_listed-some (some t) allowed h = (t, refl, h)
is_listed-some none allowed h = absurd (cc h)

module _ {ℓ} {S : Type ℓ} (host : Host S) (I : S → Type ℓ) (guard : Guard host I) where
  pub action-Ends :
      (name : Text) (s : S)
      → I s
      → Ends (λ a s'. IsAdvertised host name a × I s') I (action host name s)
  unfolding action
  action-Ends name s i =
      given-bind I host.update_service _ s guard.service_keeps i (λ service s' read k.
        Ends-lift (unique_action (discover name (actions_of service))) s'
          (λ a e. (
            record {
              service = service;
              was_read = read;
              unique = unique_action-IsUnique name (actions_of service) a e;
            },
            k,
          ))
          k)

  capabilities-Keeps : Keeps I (capabilities host)
  unfolding capabilities
  capabilities-Keeps = Ends-Keeps I (capabilities host) (λ s i.
      given-bind I host.update_service _ s guard.service_keeps i (λ service s' _ k.
        elim (Bool-cases (truthy service.update_service_capabilities)) [
          | inl t ↦ rw t (kept-Ends I (host.capabilities_at _) s' (guard.capabilities_keep _) k)
          | inr f ↦ rw f (ends_raised k)
        ]))

  validate_target_reference-Ends :
      (target : Text) (caps : UpdateServiceCapabilities) (s : S)
      → I s
      → Ends
          (λ _ s'. IsReference host caps target × I s')
          I
          (validate_target_reference host target caps s)
  unfolding validate_target_reference
  validate_target_reference-Ends target caps s i =
      elim (Bool-cases (mem target (list_of caps.allowable_targets))) [
        | inl t ↦ rw t (ends_returned (listed t, i))
        | inr f ↦ elim (Bool-cases (is_empty (list_of caps.allowable_target_reference_types))) [
          | inl nothing ↦ rw (f, nothing) (ends_raised i)
          | inr something ↦
              rw (f, something)
                (given-bind I (host.get_raw target) _ s (guard.raw_keeps target) i
                  (λ resource s' read k.
                    at_type resource s' read k (raw_resource_type resource) refl))
        ]
      ]
    where
      at_type :
          (resource : Json) (s' : S)
          → HasGiven (host.get_raw target) resource
          → I s'
          → (r : Result Text) → raw_resource_type resource ≡ r
          → Ends
              (λ _ s''. IsReference host caps target × I s'')
              I
              (lift
                (bind r (λ resource_type.
                  raise_if
                    (not (
                      is_listed
                        (target_reference_type resource_type)
                        (list_of caps.allowable_target_reference_types)))
                    (validation_error unsupported_update_target)))
                s')
      at_type resource s' read k (err e) h = ends_raised k
      at_type resource s' read k (ok resource_type) h =
          elim (Bool-cases (
            is_listed (target_reference_type resource_type)
              (list_of caps.allowable_target_reference_types))) [
                | inr f ↦ rw f (ends_raised k)
                | inl t ↦
                    let (reference, named, permitted) =
                      is_listed-some (target_reference_type resource_type)
                        (list_of caps.allowable_target_reference_types) t in
                    rw t (
                      ends_returned (
                        of_type (record {
                          resource = resource;
                          was_read = read;
                          resource_type = resource_type;
                          is_type = h;
                          reference_type = reference;
                          is_reference = named;
                          permitted = permitted;
                        }),
                        k,
                      ))
              ]

  validate_target_references-Ends :
      (targets : List Text) (caps : UpdateServiceCapabilities) (s : S)
      → I s
      → Ends
          (λ _ s'. All (IsReference host caps) targets × I s')
          I
          (validate_target_references host targets caps s)
  unfolding validate_target_references
  validate_target_references-Ends [] caps s i = ends_returned (tt, i)
  validate_target_references-Ends (target ∷ targets) caps s i =
      Ends-bind (validate_target_reference host target caps) _ s
        (validate_target_reference-Ends target caps s i)
        (λ _ s' (first, k).
          Ends-weaken (validate_target_references host targets caps s')
            (validate_target_references-Ends targets caps s' k)
            (λ _ s'' (rest, k'). ((first, rest), k')))

  validate_targets-Ends :
      (p : UpdateParameters) (caps : UpdateServiceCapabilities) (s : S)
      → I s
      → Ends (λ _ s'. HasTargets host caps p × I s') I (validate_targets host p caps s)
  unfolding validate_targets
  validate_targets-Ends p caps s i = elim (Bool-cases (is_yes p.stage)) [
    | inr f ↦ rw f (
        Ends-weaken (validate_target_references host (list_of p.targets) caps s)
          (validate_target_references-Ends (list_of p.targets) caps s i)
          (λ _ s' (references, k). (inr (refl, references), k)))
    | inl t ↦
        elim (Bool-cases
          (all (λ target. mem target (list_of caps.allowable_staging)) (list_of p.targets))) [
            | inr missing ↦ rw (t, missing) (ends_raised i)
            | inl staged ↦
                rw (t, staged)
                  (ends_returned (
                    inl (
                      refl,
                      all-IsIn (list_of caps.allowable_staging) (list_of p.targets) staged,
                    ),
                    i,
                  ))
          ]
  ]

  requested_parameters-IsWithin :
      (p : UpdateParameters) (caps : UpdateServiceCapabilities)
      → HasGiven (capabilities host) caps
      → check_requested (requested_parameters p caps) ≡ ok tt
      → HasTargets host caps p
      → IsWithin host p
  unfolding requested_parameters
  requested_parameters-IsWithin p caps read h has_targets =
      let (targets, h1) =
        check_requested-IsSupportedIf (is_provided p.targets) (targets_support caps) _ h in
      let (exclude, h2) = check_requested-IsSupportedIf _ _ _ h1 in
      let (force, h3) = check_requested-IsSupportedIf _ _ _ h2 in
      let (stage, h4) = check_requested-IsSupportedIf _ _ _ h3 in
      let (local_image, h5) = check_requested-IsSupportedIf _ _ _ h4 in
      record {
        caps = caps;
        was_read = read;
        targets_supported = targets;
        exclude_targets_supported = exclude;
        force_update_supported = force;
        stage_supported = stage;
        local_image_supported = local_image;
        has_targets = has_targets;
      }

  pub validate_update_parameters-Ends :
      (p : UpdateParameters) (s : S)
      → I s
      → Ends (λ q s'. (q ≡ p) × IsPermitted host p × I s') I (validate_update_parameters host p s)
  unfolding validate_update_parameters
  validate_update_parameters-Ends p s i = elim (Bool-cases (none_requested p)) [
    | inl t ↦ rw t (ends_returned (refl, inl refl, i))
    | inr f ↦ rw f (
        given-bind I (capabilities host) _ s capabilities-Keeps i (λ caps s' read k.
          lift-bind I (check_requested (requested_parameters p caps)) _ s' k (λ _ e.
            Ends-bind (validate_targets host p caps) _ s' (validate_targets-Ends p caps s' k)
              (λ _ s'' (has_targets, k').
                ends_returned
                  (refl, inr (requested_parameters-IsWithin p caps read e has_targets), k')))))
  ]

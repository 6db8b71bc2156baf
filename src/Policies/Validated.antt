-- ===== src/Policies/Validated.antt =====
-- What the reads and the validations of redfish_sdk/managers/policy.py establish.
use redfish_python_sdk.Prelude.{
  ◌≡◌, refl, true, false, not, ◌&&◌, ◌||◌, Option, none, some, List, [], ◌∷◌, Text, All, IsMember,
  IsMember-filter_by, ◌⊎◌, inl, inr, arith, Bool-cases,
}
use redfish_python_sdk.Exceptions.{validation_error, unsupported_target}
use redfish_python_sdk.Result.{ok, raise_if}
use redfish_python_sdk.Exec.{lift}
use redfish_python_sdk.Exec.Keeps.{Keeps}
use redfish_python_sdk.Exec.Answers.{HasGiven, given-Ends}
use redfish_python_sdk.Exec.Ends.{
  Ends, ends_returned, ends_raised, Ends-lift, Ends-bind, Ends-weaken,
}
use redfish_python_sdk.HttpClient.Session.{truthy, or_else}
use redfish_python_sdk.Members.{select_member, is_match, matches, only}
use redfish_python_sdk.Policies.Data.{
  PolicyCondition, PolicyResponse, PolicyService, PolicyCreate, PolicyPatch, Host,
}
use redfish_python_sdk.Policies.{
  is_supported, resource_type, is_reset, optional_condition, optional_list, is_set, validate_target,
  validate_response, validate_responses, validate_parts, validate_definition, policies_path, policy,
}
use redfish_python_sdk.Policies.Admissible.{
  IsTarget, IsAllowed, IsWithin, IsListed, IsCreatable, IsPatchable, IsDeletable,
  optional_condition-Advertised,
}

pub select_member-IsMember :
    {R : Type 0} (id odata_id : R → Option Text) (identifier : Text) (r : R) (resources : List R)
    → select_member id odata_id resources (some identifier) [] ≡ ok r
    → IsMember r resources
unfolding select_member
select_member-IsMember {R} id odata_id identifier r resources h =
    at_found (matches id odata_id resources (some identifier) [])
      (λ x m. IsMember-filter_by (is_match id odata_id [] identifier) x resources m) h
  where
    at_found :
        (xs : List R)
        → ((x : R) → IsMember x xs → IsMember x resources)
        → only id odata_id xs ≡ ok r
        → IsMember r resources
    at_found [] k e = absurd (cc e)
    at_found (x ∷ []) k e = k r (inl (cc e))
    at_found (x ∷ y ∷ xs) k e = absurd (cc e)

pub named_uri : (o : Option Text) → truthy o ≡ true → o ≡ some (or_else o [])
named_uri none h = cc
named_uri (some uri) h = refl

-- The other end of an invariant: reads keep it, and so does each write that is admissible.
pub record Guard {ℓ} {S : Type ℓ} (host : Host S) (I : S → Type ℓ) : Type ℓ where
  pub service_keeps : Keeps I host.service
  pub collection_keeps : (path : Text) → Keeps I (host.collection path)
  pub entity_keeps : (path : Text) → Keeps I (host.entity_type path)
  pub post_keeps :
      (path : Text) (body : PolicyCreate) → IsCreatable host body → Keeps I (host.post path body)
  pub patch_keeps :
      (path : Text) (body : PolicyPatch)
      → IsPatchable host path body
      → Keeps I (host.patch path body)
  pub delete_keeps :
      (path if_match : Text) → IsDeletable host path → Keeps I (host.delete path if_match)

module _ {ℓ} {S : Type ℓ} (host : Host S) (I : S → Type ℓ) (guard : Guard host I) where
  validate_target-Ends :
      (service : PolicyService) (uri : Option Text) (s : S)
      → truthy uri ≡ true
      → I s
      → Ends
          (λ _ s'. IsTarget host service uri × I s')
          I
          (validate_target host service (or_else uri []) s)
  unfolding validate_target
  validate_target-Ends service uri s present i =
      Ends-bind (host.entity_type (or_else uri [])) _ s
        (given-Ends I (host.entity_type (or_else uri [])) s (guard.entity_keeps (or_else uri [])) i)
        (λ odata_type s' (read, k). checked odata_type s' read k (
          Bool-cases
            (is_supported service.resource_types_supported (some (resource_type odata_type)))))
    where
      checked :
          (odata_type : Option Text) (s' : S)
          → HasGiven (host.entity_type (or_else uri [])) odata_type
          → I s'
          → (is_supported service.resource_types_supported (some (resource_type odata_type)) ≡ true)
            ⊎ (is_supported service.resource_types_supported (some (resource_type odata_type))
                ≡ false)
          → Ends
              (λ _ s'. IsTarget host service uri × I s')
              I
              (lift
                (raise_if
                  (not (
                    is_supported service.resource_types_supported
                      (some (resource_type odata_type))))
                  (validation_error unsupported_target))
                s')
      checked odata_type s' read k (inl t) = rw t (
          ends_returned (
            record { present = present; odata_type = odata_type; was_read = read; supported = t },
            k,
          ))
      checked odata_type s' read k (inr f) = rw f (ends_raised k)

  validate_response-Ends :
      (service : PolicyService) (r : PolicyResponse) (s : S)
      → I s
      → Ends (λ _ s'. IsAllowed host service r × I s') I (validate_response host service r s)
  unfolding validate_response
  validate_response-Ends service r s i =
      elim (Bool-cases (is_supported service.actions_supported r.response_action)) [
        | inr f ↦ rw f (ends_raised i)
        | inl t ↦ elim (Bool-cases (is_reset r.response_action)) [
          | inr other ↦ rw (t, other) (ends_returned (record { action = t; target = inl other }, i))
          | inl reset ↦ elim (Bool-cases (truthy r.target_uri)) [
            | inr missing ↦ rw (t, reset, missing) (ends_raised i)
            | inl present ↦
                rw (t, reset, present)
                  (Ends-weaken (validate_target host service (or_else r.target_uri []) s)
                    (validate_target-Ends service r.target_uri s present i)
                    (λ _ s' (target, k). (record { action = t; target = inr target }, k)))
          ]
        ]
      ]

  validate_responses-Ends :
      (service : PolicyService) (responses : List PolicyResponse) (s : S)
      → I s
      → Ends
          (λ _ s'. All (IsAllowed host service) responses × I s')
          I
          (validate_responses host service responses s)
  unfolding validate_responses
  validate_responses-Ends service [] s i = ends_returned (tt, i)
  validate_responses-Ends service (r ∷ responses) s i =
      Ends-bind (validate_response host service r) _ s (validate_response-Ends service r s i)
        (λ _ s' (allowed, k).
          Ends-weaken (validate_responses host service responses s')
            (validate_responses-Ends service responses s' k)
            (λ _ s'' (rest, k'). ((allowed, rest), k')))

  -- Parts that were validated are within what the service advertises.
  abbrev pub Validated :
      PolicyService → Option PolicyCondition → Option (List PolicyResponse) → Type ℓ
  Validated service trigger responses =
      HasGiven host.service service → IsWithin host trigger responses

  pub validate_parts-Ends :
      (service : PolicyService) (trigger : Option PolicyCondition)
      (responses : Option (List PolicyResponse)) (s : S)
      → I s
      → Ends
          (λ _ s'. Validated service trigger responses × I s')
          I
          (validate_parts host service trigger responses s)
  unfolding validate_parts
  validate_parts-Ends service trigger responses s i =
      Ends-bind (lift (optional_condition service trigger)) _ s
        (Ends-lift {P = λ _ s'. (optional_condition service trigger ≡ ok tt) × I s'}
          (optional_condition service trigger) s (λ _ e. (e, i)) i)
        (λ _ s' (e, k).
          Ends-weaken (validate_responses host service (optional_list responses) s')
            (validate_responses-Ends service (optional_list responses) s' k)
            (λ _ s'' (allowed, k'). (
              λ read. record {
                service = service;
                was_read = read;
                advertised = optional_condition-Advertised service trigger e;
                allowed = allowed;
              },
              k',
            )))

  pub validate_definition-Ends :
      (trigger : Option PolicyCondition) (responses : Option (List PolicyResponse)) (s : S)
      → I s
      → Ends
          (λ _ s'.
            (((is_set trigger || is_set responses) ≡ false) ⊎ IsWithin host trigger responses)
            × I s')
          I
          (validate_definition host trigger responses s)
  unfolding validate_definition
  validate_definition-Ends trigger responses s i =
      elim (Bool-cases (is_set trigger || is_set responses)) [
        | inr f ↦ rw (unset f) (ends_returned (inl f, i))
        | inl t ↦ rw (set t) (
            Ends-bind host.service _ s (given-Ends I host.service s guard.service_keeps i)
              (λ service s' (read, k).
                Ends-weaken (validate_parts host service trigger responses s')
                  (validate_parts-Ends service trigger responses s' k)
                  (λ _ s'' (validated, k'). (inr (validated read), k'))))
      ]
    where
      unset :
          (is_set trigger || is_set responses) ≡ false
          → (not (is_set trigger) && not (is_set responses)) ≡ true
      unset f = ground arith

      set :
          (is_set trigger || is_set responses) ≡ true
          → (not (is_set trigger) && not (is_set responses)) ≡ false
      set t = ground arith

  pub policy-Ends :
      (identifier : Text) (s : S)
      → I s
      → Ends (λ p s'. IsListed host p × I s') I (policy host identifier s)
  unfolding policy
  policy-Ends identifier s i =
      Ends-bind host.service _ s (given-Ends I host.service s guard.service_keeps i)
        (λ service s' (_, k).
          Ends-bind (lift (policies_path service)) _ s'
            (Ends-lift {P = λ _ s''. I s''} (policies_path service) s' (λ _ _. k) k)
            (λ path s'' k'.
              Ends-bind (host.collection path) _ s''
                (given-Ends I (host.collection path) s'' (guard.collection_keeps path) k')
                (λ policies s3 (read, k3).
                  Ends-lift
                    (select_member (λ p. p.id) (λ p. p.odata_id) policies (some identifier) []) s3
                    (λ p e. (
                      record {
                        path = path;
                        policies = policies;
                        was_read = read;
                        member =
                            select_member-IsMember (λ p. p.id) (λ p. p.odata_id) identifier p
                              policies e;
                      },
                      k3,
                    ))
                    k3)))

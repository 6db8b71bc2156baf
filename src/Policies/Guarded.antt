-- ===== src/Policies/Guarded.antt =====
-- `create`, `update` and `delete` of redfish_sdk/managers/policy.py write nothing that the service
-- does not advertise, and no predefined policy.
use redfish_python_sdk.Prelude.{
  refl, Bool, true, false, not, ◌&&◌, ◌||◌, Option, some, List, [], ◌∷◌, Text, is_empty, inl, inr,
  arith, Bool-cases, if◌then◌else◌,
}
use redfish_python_sdk.Exceptions.{validation_error, nothing_to_update}
use redfish_python_sdk.Exec.{Run, returned, raised, raise, lift, end_state, ◌>>=◌}
use redfish_python_sdk.Exec.Answers.{given-Ends, kept-Ends}
use redfish_python_sdk.Exec.Ends.{Ends, ends_returned, ends_raised, Ends-lift, Ends-bind}
use redfish_python_sdk.HttpClient.Session.{truthy, or_else}
use redfish_python_sdk.Policies.Data.{PolicyCondition, PolicyResponse, Policy, PolicyPatch, Host}
use redfish_python_sdk.Policies.{
  is_set, is_true, validate_parts, validate_definition, policies_path, create, policy,
  update_current, update, delete,
}
use redfish_python_sdk.Policies.Admissible.{IsListed, is_definition_change}
use redfish_python_sdk.Policies.Validated.{
  Guard, named_uri, validate_parts-Ends, validate_definition-Ends, policy-Ends,
}

module _ {ℓ} {S : Type ℓ} (host : Host S) (I : S → Type ℓ) (guard : Guard host I) where
  -- `create` keeps every invariant that reads keep and that creating an admissible policy keeps:
  -- it posts a policy with an Id, a Name and a response, whose condition types, actions and targets
  -- of resets are within what the service advertised, or it posts none.
  pub create-Ends :
      (policy_id name : Text) (trigger : PolicyCondition) (responses : List PolicyResponse)
      (enabled : Option Bool) (oem : Option Text) (s : S)
      → I s
      → Ends (λ _ s'. I s') I (create host policy_id name trigger responses enabled oem s)
  unfolding create
  create-Ends policy_id name trigger responses enabled oem s i =
      elim (Bool-cases (is_empty policy_id || is_empty name)) [
        | inl unnamed ↦ rw unnamed (ends_raised i)
        | inr named ↦ elim (Bool-cases (is_empty responses)) [
          | inl nothing ↦ rw (named, nothing) (ends_raised i)
          | inr something ↦
              rw (named, something)
                (Ends-bind host.service _ s (given-Ends I host.service s guard.service_keeps i)
                  (λ service s' (read, k).
                    Ends-bind (validate_parts host service (some trigger) (some responses)) _ s'
                      (validate_parts-Ends host I guard service (some trigger) (some responses) s'
                        k)
                      (λ _ s'' (validated, k').
                        Ends-bind (lift (policies_path service)) _ s''
                          (Ends-lift {P = λ _ s3. I s3} (policies_path service) s'' (λ _ _. k') k')
                          (λ path s3 k3.
                            kept-Ends I (host.post path _) s3
                              (guard.post_keeps path _ (record {
                                has_id = ground arith;
                                has_name = ground arith;
                                has_response = something;
                                within = validated read;
                              }))
                              k3))))
        ]
      ]

  update_current-Ends :
      (current : Policy) (body : PolicyPatch) (s : S)
      → IsListed host current
      → I s
      → Ends (λ _ s'. I s') I (update_current host current body s)
  unfolding update_current
  update_current-Ends current body s listed i = elim (Bool-cases (truthy current.odata_id)) [
    | inr missing ↦ rw missing (ends_raised i)
    | inl named ↦ elim (Bool-cases (is_true current.predefined && is_definition_change body)) [
      | inl refused ↦ rw (named, refused) (ends_raised i)
      | inr permitted ↦
          rw (named, permitted)
            (Ends-bind (validate_definition host body.trigger_condition body.response) _ s
              (validate_definition-Ends host I guard body.trigger_condition body.response s i)
              (λ _ s' (within, k).
                kept-Ends I (host.patch (or_else current.odata_id []) _) s'
                  (guard.patch_keeps (or_else current.odata_id []) _ (record {
                    current = current;
                    listed = listed;
                    at_policy = named_uri current.odata_id named;
                    same_etag = refl;
                    not_predefined = permitted;
                    within = within;
                  }))
                  k))
    ]
  ]

  -- `update` keeps every such invariant: it patches a policy that the service listed, under that
  -- policy's ETag, with parts within what the service advertised, and one that is predefined only
  -- in whether it is enabled; or it patches none.
  pub update-Ends :
      (identifier : Text) (body : PolicyPatch) (s : S)
      → I s
      → Ends (λ _ s'. I s') I (update host identifier body s)
  unfolding update
  update-Ends identifier body s i = at_test (
      not (is_set body.trigger_condition)
      && not (is_set body.response)
      && not (is_set body.enabled)
      && not (is_set body.oem))
    where
      at_test :
          (b : Bool)
          → Ends
              (λ _ s'. I s')
              I
              ((if b
                  then raise (validation_error nothing_to_update)
                  else policy host identifier >>= λ current. update_current host current body)
                s)
      at_test true = ends_raised i
      at_test false =
          Ends-bind (policy host identifier) _ s (policy-Ends host I guard identifier s i)
            (λ current s' (listed, k). update_current-Ends current body s' listed k)

  -- `delete` keeps every such invariant: it deletes a policy that the service listed and that is
  -- not predefined, or none.
  pub delete-Ends :
      (identifier : Text) (s : S) → I s → Ends (λ _ s'. I s') I (delete host identifier s)
  unfolding delete
  delete-Ends identifier s i =
      Ends-bind (policy host identifier) _ s (policy-Ends host I guard identifier s i)
        (λ current s' (listed, k). elim (Bool-cases (is_true current.predefined)) [
          | inl refused ↦ rw refused (ends_raised k)
          | inr permitted ↦ elim (Bool-cases (truthy current.odata_id)) [
            | inr missing ↦ rw (permitted, missing) (ends_raised k)
            | inl named ↦
                rw (permitted, named)
                  (kept-Ends I (host.delete (or_else current.odata_id []) _) s'
                    (guard.delete_keeps (or_else current.odata_id []) _ (record {
                      current = current;
                      listed = listed;
                      at_policy = named_uri current.odata_id named;
                      not_predefined = permitted;
                    }))
                    k)
          ]
        ])

-- A call of a method that writes.
pub data Call : Type 0 where
  create_call :
      (policy_id name : Text)
      → (trigger : PolicyCondition) → (responses : List PolicyResponse) → (enabled : Option Bool)
      → (oem : Option Text) → Call
  update_call : (identifier : Text) → (body : PolicyPatch) → Call
  delete_call : (identifier : Text) → Call

module _ {ℓ} {S : Type ℓ} (host : Host S) where
  abbrev pub after_call : Call → S → S
  after_call (create_call policy_id name trigger responses enabled oem) s =
      end_state (create host policy_id name trigger responses enabled oem s)
  after_call (update_call identifier body) s = end_state (update host identifier body s)
  after_call (delete_call identifier) s = end_state (delete host identifier s)

  -- The state after a sequence of calls, each of which may have raised.
  unfoldable pub after_calls : List Call → S → S
  unfolding create update delete
  after_calls [] s = s
  after_calls (c ∷ calls) s = after_calls calls (after_call c s)

module _ {ℓ} {S : Type ℓ} (host : Host S) (I : S → Type ℓ) (guard : Guard host I) where
  Ends-end_state {κ} : {A : Type κ} (r : Run S A) → Ends (λ _ s. I s) I r → I (end_state r)
  Ends-end_state (returned a s) (ends_returned h) = h
  Ends-end_state (raised e s) (ends_raised h) = h

  after_call_lem : (c : Call) (s : S) → I s → I (after_call host c s)
  after_call_lem (create_call policy_id name trigger responses enabled oem) s i =
      Ends-end_state (create host policy_id name trigger responses enabled oem s)
        (create-Ends host I guard policy_id name trigger responses enabled oem s i)
  after_call_lem (update_call identifier body) s i =
      Ends-end_state (update host identifier body s) (update-Ends host I guard identifier body s i)
  after_call_lem (delete_call identifier) s i =
      Ends-end_state (delete host identifier s) (delete-Ends host I guard identifier s i)

  -- Every sequence of calls of create, update and delete keeps an invariant that the reads of the
  -- service keep, and that each admissible write keeps: to post a policy with an Id, a Name and a
  -- response, whose condition types at every depth, actions and types of reset targets are within
  -- what the service advertised; to patch a listed policy under its ETag, with such parts, and a
  -- predefined one only in whether it is enabled; to delete a listed policy that is not predefined.
  -- So the methods make no other writes, whatever the service answers.
  pub calls-Guarded : (calls : List Call) (s : S) → I s → I (after_calls host calls s)
  unfolding after_calls
  calls-Guarded [] s i = i
  calls-Guarded (c ∷ calls) s i = calls-Guarded calls (after_call host c s) (after_call_lem c s i)

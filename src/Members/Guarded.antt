-- ===== src/Members/Guarded.antt =====
-- What `update_secure_boot` and `reset_secure_boot_keys` of
-- redfish_sdk/managers/system_resources.py may write: values that the service allows.
use redfish_python_sdk.Prelude.{
  ◌≡◌, refl, sym, arith, Bool, true, false, not, Option, none, some, List, [], Text, str, is_empty,
  any, inl, inr, Bool-cases, if◌then◌else◌, strip,
}
use redfish_python_sdk.Result.{Result, ok, err, raise_if, ◌>>=◌ as bind}
use redfish_python_sdk.Exec.{Exec, pure, lift, end_state, ◌>>=◌}
use redfish_python_sdk.Exec.Answers.{
  given-Ends, kept-Ends, lift-bind, raise_if-bind, given-bind, Ends-Keeps,
}
use redfish_python_sdk.Exec.Ends.{
  Ends, ends_returned, ends_raised, Ends-bind, Ends-lift, Ends-weaken,
}
use redfish_python_sdk.Exceptions.{validation_error, unsupported_secure_boot}
use redfish_python_sdk.HttpClient.Session.{truthy, or_else}
use redfish_python_sdk.Members.{require_link}
use redfish_python_sdk.Members.Resources.{AllowedStates, ResetKeysAction, SecureBoot, Host}
use redfish_python_sdk.Members.System.{
  allowable_values, secure_boot, is_allowed_state, check_state, require_target, texts, or_standard,
  is_key, system_link, update_secure_boot, stated_values, reset_with, reset_secure_boot_keys,
}
use redfish_python_sdk.Members.Permitted.{
  IsAllowedState, IsSecureBoot, IsStated, by_action, by_info, by_none, Guard,
}

check_state-IsAllowedState :
    (enabled : Bool) (allowed : Option AllowedStates)
    → check_state enabled allowed ≡ ok tt
    → IsAllowedState enabled allowed
unfolding check_state
check_state-IsAllowedState enabled none h = tt
check_state-IsAllowedState enabled (some allowed) h = at_test (is_allowed_state enabled allowed) h
  where
    at_test :
        (r : Result Bool)
        → bind r (λ b. raise_if (not b) (validation_error unsupported_secure_boot)) ≡ ok tt
        → r ≡ ok true
    at_test (ok true) q = refl
    at_test (ok false) q = absurd (cc q)
    at_test (err e) q = absurd (cc q)

module _ {ℓ} {S : Type ℓ} {R : Type 0} (host : Host S R) (I : S → Type ℓ)
    (guard : Guard host I) where
  secure_boot-Ends :
      (system_id : Option Text) (s : S)
      → I s
      → Ends (λ resource s'. IsSecureBoot host resource × I s') I (secure_boot host system_id s)
  unfolding secure_boot system_link
  secure_boot-Ends system_id s i =
      Ends-bind (system_link host (λ l. l.secure_boot) system_id) _ s
        (given-bind I (host.system system_id) (λ system. lift (require_link system.secure_boot)) s
          (guard.system_keeps system_id) i
          (λ system s' _ k.
            Ends-lift {P = λ _ s''. I s''} (require_link system.secure_boot) s' (λ _ _. k) k))
        (λ uri s' k.
          Ends-weaken (host.secure_boot uri s')
            (given-Ends I (host.secure_boot uri) s' (guard.secure_boot_keeps uri) k)
            (λ resource s'' (given, k'). (record { uri = uri; was_read = given }, k')))

  update_secure_boot-Ends :
      (enabled : Bool) (system_id : Option Text) (s : S)
      → I s
      → Ends (λ _ s'. I s') I (update_secure_boot host enabled system_id s)
  unfolding update_secure_boot
  update_secure_boot-Ends enabled system_id s i =
      Ends-bind (secure_boot host system_id) _ s (secure_boot-Ends system_id s i)
        (λ resource s' (read, k). elim (Bool-cases (truthy resource.odata_id)) [
          | inr f ↦ rw f (ends_raised k)
          | inl t ↦ rw t (
              lift-bind I (check_state enabled resource.allowable_values) _ s' k (λ _ e.
                kept-Ends I (host.patch (or_else resource.odata_id []) _) s'
                  (guard.patch_keeps (or_else resource.odata_id []) _ (record {
                    resource = resource;
                    is_secure_boot = read;
                    at_resource = t;
                    same_uri = refl;
                    same_etag = refl;
                    allowed = check_state-IsAllowedState enabled resource.allowable_values e;
                  }))
                  k))
        ])

  stated_values-Ends :
      (action : ResetKeysAction) (s : S)
      → I s
      → Ends (λ stated s'. IsStated host action stated × I s') I (stated_values host action s)
  unfolding stated_values
  stated_values-Ends action s i = at_values action.reset_keys_type_allowable_values refl
    where
      at_values :
          (values : Option (List Text))
          → action.reset_keys_type_allowable_values ≡ values
          → Ends
              (λ stated s'. IsStated host action stated × I s')
              I
              (elim (texts values) as (λ _. Exec S (Option (List (Option Text)))) [
                | some allowed ↦ pure (some allowed)
                | none ↦
                    if truthy action.action_info
                    then (host.action_info (or_else action.action_info []) >>= λ parameters.
                        pure (allowable_values (str "ResetKeysType") parameters))
                    else pure none
              ]
                s)
      at_values (some values) e = ends_returned (by_action values e, i)
      at_values none e = elim (Bool-cases (truthy action.action_info)) [
        | inr f ↦ rw f (ends_returned (by_none e f, i))
        | inl t ↦ rw t (
            given-bind I (host.action_info (or_else action.action_info [])) _ s
              (guard.info_keeps (or_else action.action_info [])) i
              (λ parameters s' given k. ends_returned (by_info parameters e given, k)))
      ]

  required :
      (action : ResetKeysAction) (name uri target : Text)
      → require_target action name uri ≡ ok target
      → (target ≡ or_else action.target []) × (is_empty (strip target) ≡ false)
  unfolding require_target
  required action name uri target e =
      elim (Bool-cases (is_empty (strip (or_else action.target [])))) [
        | inl t ↦ absurd (cc (rw t at e))
        | inr f ↦
            let same : or_else action.target [] ≡ target = value_of _ target (rw f at e) in
            (sym same, rw (← same) f)
      ]
    where
      value_of : (a b : Text) → ok a ≡ ok b → a ≡ b
      value_of a b q = cc q

  reset_with-Ends :
      (reset_keys_type : Text) (resource : SecureBoot) (s : S)
      → IsSecureBoot host resource
      → I s
      → (action : Option ResetKeysAction) → resource.reset_keys ≡ action
      → Ends (λ _ s'. I s') I (reset_with host reset_keys_type resource action s)
  unfolding reset_with
  reset_with-Ends reset_keys_type resource s read i none e = ends_raised i
  reset_with-Ends reset_keys_type resource s read i (some action) e =
      lift-bind I
        (require_target action (str "#SecureBoot.ResetKeys") (or_else resource.odata_id [])) _ s i
        (λ target named.
          Ends-bind (stated_values host action) _ s (stated_values-Ends action s i)
            (λ stated s' (is_stated, k).
              raise_if-bind I (not (any (is_key reset_keys_type) (or_standard stated))) _ _ s' k
                (λ allowed.
                  kept-Ends I (host.post target reset_keys_type) s'
                    (guard.post_keeps target reset_keys_type (record {
                      resource = resource;
                      is_secure_boot = read;
                      action = action;
                      advertised = e;
                      at_target =
                          (required action (str "#SecureBoot.ResetKeys")
                            (or_else resource.odata_id []) target named).0;
                      not_blank =
                          (required action (str "#SecureBoot.ResetKeys")
                            (or_else resource.odata_id []) target named).1;
                      stated = stated;
                      is_stated = is_stated;
                      allowed = ground (arith, allowed);
                    }))
                    k)))

  reset_secure_boot_keys-Ends :
      (reset_keys_type : Text) (system_id : Option Text) (s : S)
      → I s
      → Ends (λ _ s'. I s') I (reset_secure_boot_keys host reset_keys_type system_id s)
  unfolding reset_secure_boot_keys
  reset_secure_boot_keys-Ends reset_keys_type system_id s i =
      Ends-bind (secure_boot host system_id) _ s (secure_boot-Ends system_id s i)
        (λ resource s' (read, k).
          reset_with-Ends reset_keys_type resource s' read k resource.reset_keys refl)

  -- update_secure_boot and reset_secure_boot_keys keep an invariant that the reads keep, and that
  -- each admissible write keeps: to patch the SecureBoot resource that was read, under its ETag,
  -- to a state that it allows, where it says which; to post to the target that it advertises,
  -- which is not blank, a type of reset that its action allows, or the ActionInfo of that, or the
  -- standard where neither says which.
  pub update_secure_boot-Guarded :
      (enabled : Bool) (reset_keys_type : Text) (system_id : Option Text) (s : S)
      → I s
      → I (end_state (update_secure_boot host enabled system_id s))
        × I (end_state (reset_secure_boot_keys host reset_keys_type system_id s))
  update_secure_boot-Guarded enabled reset_keys_type system_id s i = (
    (Ends-Keeps I (update_secure_boot host enabled system_id)
          (λ s i. update_secure_boot-Ends enabled system_id s i)).at
        s i,
    (Ends-Keeps I (reset_secure_boot_keys host reset_keys_type system_id)
          (λ s i. reset_secure_boot_keys-Ends reset_keys_type system_id s i)).at
        s i,
  )

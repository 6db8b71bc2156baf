-- ===== src/Members/Permitted.antt =====
-- What redfish_sdk/managers/system_resources.py may write: values that the service allows.
use redfish_python_sdk.Prelude.{
  ◌≡◌, Bool, true, false, Option, none, some, List, [], Text, str, is_empty, any, strip,
}
use redfish_python_sdk.Result.{ok}
use redfish_python_sdk.Exec.Keeps.{Keeps}
use redfish_python_sdk.Exec.Answers.{HasGiven}
use redfish_python_sdk.HttpClient.Session.{truthy, or_else}
use redfish_python_sdk.Members.Resources.{
  AllowedStates, ResetKeysAction, SecureBoot, SecureBootPatch, ActionInfoParameter, Host,
}
use redfish_python_sdk.Members.System.{
  allowable_values, is_allowed_state, texts, or_standard, is_key,
}

-- The state is one that the resource allows, where it says which.
abbrev pub IsAllowedState : Bool → Option AllowedStates → Type 0
IsAllowedState enabled none = Unit
IsAllowedState enabled (some allowed) = is_allowed_state enabled allowed ≡ ok true

module _ {ℓ} {S : Type ℓ} {R : Type 0} (host : Host S R) where
  -- The resource is the one behind the link of the system.
  pub record IsSecureBoot (resource : SecureBoot) : Type ℓ where
    pub uri : Text
    pub was_read : HasGiven (host.secure_boot uri) resource

  pub record IsPatchable (uri : Text) (body : SecureBootPatch) : Type ℓ where
    pub resource : SecureBoot
    pub is_secure_boot : IsSecureBoot resource
    pub at_resource : truthy resource.odata_id ≡ true
    pub same_uri : uri ≡ or_else resource.odata_id []
    pub same_etag : body.odata_etag ≡ resource.odata_etag
    pub allowed : IsAllowedState body.secure_boot_enable resource.allowable_values

  -- The values are those of the action, or else those of its ActionInfo, or else the standard's.
  pub data IsStated (action : ResetKeysAction) : Option (List (Option Text)) → Type ℓ where
    by_action :
        (values : List Text)
        → action.reset_keys_type_allowable_values ≡ some values
        → IsStated action (texts (some values))
    by_info :
        (parameters : List ActionInfoParameter)
        → action.reset_keys_type_allowable_values ≡ none
        → HasGiven (host.action_info (or_else action.action_info [])) parameters
        → IsStated action (allowable_values (str "ResetKeysType") parameters)
    by_none :
        action.reset_keys_type_allowable_values ≡ none
        → truthy action.action_info ≡ false
        → IsStated action none

  pub record IsResettable (target reset_keys_type : Text) : Type ℓ where
    pub resource : SecureBoot
    pub is_secure_boot : IsSecureBoot resource
    pub action : ResetKeysAction
    pub advertised : resource.reset_keys ≡ some action
    pub at_target : target ≡ or_else action.target []
    pub not_blank : is_empty (strip target) ≡ false
    pub stated : Option (List (Option Text))
    pub is_stated : IsStated action stated
    pub allowed : any (is_key reset_keys_type) (or_standard stated) ≡ true

  -- The other end of an invariant: reads keep it, and so does each write that is admissible.
  pub record Guard (I : S → Type ℓ) : Type ℓ where
    pub system_keeps : (system_id : Option Text) → Keeps I (host.system system_id)
    pub secure_boot_keeps : (uri : Text) → Keeps I (host.secure_boot uri)
    pub info_keeps : (uri : Text) → Keeps I (host.action_info uri)
    pub patch_keeps :
        (uri : Text) (body : SecureBootPatch) → IsPatchable uri body → Keeps I (host.patch uri body)
    pub post_keeps :
        (target reset_keys_type : Text)
        → IsResettable target reset_keys_type
        → Keeps I (host.post target reset_keys_type)

-- ===== src/Registries/Resolve.antt =====
-- `resolve` of redfish_sdk/managers/registries.py: the chain of registries that a MessageId leads
-- through, in `_resolve_from_registry`.
pub mod Chosen
pub mod Chain
pub mod Served
mod Tests
use redfish_python_sdk.Prelude.{
  ℕ, zero, suc, Bool, true, false, Option, none, some, List, [], ◌∷◌, ◌++◌, Text, str, mem,
  dict_get, if◌then◌else◌,
}
use redfish_python_sdk.Exceptions.{
  Exc, registry_resolution_error, bad_message_id, reference_cycle, key_not_present,
}
use redfish_python_sdk.Result.{Result, ok, err}
use redfish_python_sdk.Exec.{Exec, Run, returned, raised, pure, raise, lift, ◌>>=◌}
use redfish_python_sdk.HttpClient.Session.{truthy, or_else}
use redfish_python_sdk.Registries.Names.{Registry, MessageId, match_message_id}
use redfish_python_sdk.Registries.Names.Printing.{registry_identity}
use redfish_python_sdk.Registries.Find.{find_registry, find_referenced_registry}
use redfish_python_sdk.Registries.Format.{
  RegistryMessage, MessageRegistry, ResolvedMessage, resolved_message,
}

-- What the resolver asks of the manager: `registries` and `_load_document`.
pub record Service {ℓ} (S : Type ℓ) : Type ℓ where
  pub registries : Exec S (List Registry)
  pub load : Registry → Option Text → Exec S MessageRegistry

-- Where a document leads: to the registry that it, or its message, refers to, or to a message.
pub data Lead : Type 0 where
  follow : (reference : Text) → Lead
  found : RegistryMessage → Lead

abbrev pub lead_of : Option RegistryMessage → Result Lead
lead_of none = err (registry_resolution_error key_not_present)
lead_of (some definition) =
    if truthy definition.referenced_registry
    then ok (follow (or_else definition.referenced_registry []))
    else ok (found definition)

unfoldable pub document_lead : MessageRegistry → Text → Result Lead
document_lead document key =
    if truthy document.referenced_registry
    then ok (follow (or_else document.referenced_registry []))
    else lead_of (dict_get key document.messages)

-- f"{identity}:{key}"
abbrev pub step_of : Text → Text → Text
step_of key identity = identity ++ (b':' ∷ key)

module _ {ℓ} {S : Type ℓ} (service : Service S) (key requested : Text)
    (message_args : Option (List Text)) (language : Option Text) where
  -- `_find_referenced_registry`
  abbrev pub referenced : Text → Exec S Registry
  referenced reference =
      service.registries >>= λ registries. lift (find_referenced_registry reference registries)

  abbrev pub at_lead :
      (Registry → Exec S (Option ResolvedMessage))
      → MessageRegistry
      → Registry
      → Lead
      → Exec S (Option ResolvedMessage)
  at_lead again document registry (follow reference) = referenced reference >>= again
  at_lead again document registry (found definition) =
      lift (resolved_message document registry key definition requested message_args) >>= λ m.
      pure (some m)

  -- A registry that the chain has not been at.
  abbrev pub at_registry :
      (Registry → Exec S (Option ResolvedMessage)) → Registry → Exec S (Option ResolvedMessage)
  at_registry again registry = service.load registry language >>= λ document.
      lift (document_lead document key) >>= at_lead again document registry

  -- `_resolve_from_registry`; none is that the fuel ran out.
  unfoldable pub resolve_from_registry : ℕ → List Text → Registry → Exec S (Option ResolvedMessage)
  resolve_from_registry zero trail registry = pure none
  resolve_from_registry (suc fuel) trail registry =
      lift (registry_identity registry) >>= λ identity.
      let step = step_of key identity in
      if mem step trail
      then raise (registry_resolution_error reference_cycle)
      else at_registry (resolve_from_registry fuel (step ∷ trail)) registry

module _ {ℓ} {S : Type ℓ} (service : Service S) (message_args : Option (List Text))
    (language : Option Text) where
  abbrev pub resolve_id : ℕ → Text → Option MessageId → Exec S (Option ResolvedMessage)
  resolve_id fuel message_id none = raise (registry_resolution_error bad_message_id)
  resolve_id fuel message_id (some parts) = do
    registries ← service.registries
    registry ← lift (find_registry parts.prefix parts.major parts.minor registries)
    resolve_from_registry service parts.key message_id message_args language fuel [] registry

  -- `resolve`; none is that the fuel ran out.
  unfoldable pub resolve : ℕ → Text → Exec S (Option ResolvedMessage)
  resolve fuel message_id = resolve_id fuel message_id (match_message_id message_id)

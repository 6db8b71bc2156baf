-- ===== src/Registries/Resolve/Chain.antt =====
-- The chain of references that `_resolve_from_registry` of redfish_sdk/managers/registries.py
-- follows ends.
use mathlib.Core.Path.{subst}
use redfish_python_sdk.Prelude.{
  ℕ, zero, suc, ◌+◌, ◌<◌, ◌≡◌, refl, Option, none, some, List, [], ◌∷◌, map, Text, inl, inr, mem,
  IsDistinct, IsIn, All, All-IsMember, length, length-le-of_IsIn, arith, Bool-cases,
}
use redfish_python_sdk.Exceptions.{unknown_registry}
use redfish_python_sdk.Result.{Result, ok}
use redfish_python_sdk.Exec.{Exec, Run, returned, raised, lift}
use redfish_python_sdk.Exec.Ends.{Ends, ends_returned, ends_raised, Ends-lift, Ends-bind}
use redfish_python_sdk.Registries.Names.{Registry, MessageId, match_message_id}
use redfish_python_sdk.Registries.Names.Printing.{registry_identity}
use redfish_python_sdk.Registries.Find.{is_wanted, find_registry, find_referenced_registry}
use redfish_python_sdk.Registries.Find.Latest.{find_registry-IsNewest}
use redfish_python_sdk.Registries.Format.{MessageRegistry, ResolvedMessage, resolved_message}
use redfish_python_sdk.Registries.Resolve.{
  Service, Lead, follow, found, document_lead, step_of, referenced, at_lead, at_registry,
  resolve_from_registry, resolve_id, resolve,
}
use redfish_python_sdk.Registries.Resolve.Chosen.{
  Answers, Chosen, IsNewest-Chosen, find_referenced_registry-Chosen, resolved_message-Answers,
  length-map, mem-map,
}

-- An identity of the registry, where it has one, is among the known ones.
abbrev pub Known : List Text → Registry → Type 0
Known known registry =
    (identity : Text) → registry_identity registry ≡ ok identity → IsIn known identity

module _ {ℓ} {S : Type ℓ} (service : Service S) (known : List Text) where
  abbrev pub Anything : S → Type 0
  Anything _ = Unit

  -- Whatever the service lists is known, or it raises.
  abbrev pub Advertises : Type ℓ
  Advertises =
      (s : S) → Ends (λ registries _. All (Known known) registries) Anything (service.registries s)

  module _ (key requested : Text) (message_args : Option (List Text)) (language : Option Text) where
    -- An answer to the request; that the fuel ran out is none.
    abbrev pub Answered : Option ResolvedMessage → S → Type 0
    Answered none _ = ⊥
    Answered (some m) _ = Answers key requested message_args m

    abbrev Onward : (Registry → Exec S (Option ResolvedMessage)) → Type ℓ
    Onward again =
        (registry : Registry) (s : S)
        → Known known registry
        → Ends Answered Anything (again registry s)

    Chosen-Ends :
        (r : Result Registry) (registries : List Registry) (s : S)
        → Chosen registries r
        → All (Known known) registries
        → Ends (λ registry _. Known known registry) Anything (lift r s)
    Chosen-Ends r registries s c k =
        Ends-lift r s
          (λ registry e.
            All-IsMember (Known known) registry registries k (subst (Chosen registries) e c))
          tt

    at_lead-Ends :
        (again : Registry → Exec S (Option ResolvedMessage)) (document : MessageRegistry)
        (registry : Registry) (lead : Lead) (s : S)
        → Advertises
        → Onward again
        → Ends Answered Anything
            (at_lead service key requested message_args language again document registry lead s)
    at_lead-Ends again document registry (follow reference) s advertised onward =
        Ends-bind (referenced service key requested message_args language reference) again s
          (Ends-bind service.registries _ s (advertised s) (λ registries s' k.
            Chosen-Ends (find_referenced_registry reference registries) registries s'
              (find_referenced_registry-Chosen reference registries) k))
          (λ registry s'. onward registry s')
    at_lead-Ends again document registry (found definition) s advertised onward =
        Ends-bind (lift (resolved_message document registry key definition requested message_args))
          _ s
          (Ends-lift (resolved_message document registry key definition requested message_args) s
            (λ m e.
              resolved_message-Answers document registry key definition requested message_args m e)
            tt)
          (λ m s' a. ends_returned a)

    anything-Ends {κ} : {A : Type κ} (r : Run S A) → Ends (λ _ _. Unit {0}) Anything r
    anything-Ends (returned a s) = ends_returned tt
    anything-Ends (raised e s) = ends_raised tt

    at_registry-Ends :
        (again : Registry → Exec S (Option ResolvedMessage)) (registry : Registry) (s : S)
        → Advertises
        → Onward again
        → Ends Answered Anything
            (at_registry service key requested message_args language again registry s)
    at_registry-Ends again registry s advertised onward =
        Ends-bind (service.load registry language) _ s
          (anything-Ends (service.load registry language s))
          (λ document s' _.
            Ends-bind (lift (document_lead document key)) _ s'
              (anything-Ends (lift (document_lead document key) s'))
              (λ lead s'' _. at_lead-Ends again document registry lead s'' advertised onward))

    abbrev steps : List Text
    steps = map (step_of key) known

    resolve_from_registry-Ends :
        (fuel : ℕ) (trail : List Text) (registry : Registry) (s : S)
        → Advertises
        → IsDistinct trail
        → All (IsIn steps) trail
        → length known < fuel + length trail
        → Known known registry
        → Ends Answered Anything (
            resolve_from_registry service key requested message_args language fuel trail registry s)
    unfolding resolve_from_registry
    resolve_from_registry-Ends zero trail registry s advertised d a lt k =
        absurd (omega (arith, length-le-of_IsIn trail steps d a, length-map (step_of key) known))
    resolve_from_registry-Ends (suc fuel) trail registry s advertised d a lt k =
        Ends-bind (lift (registry_identity registry)) _ s
          (Ends-lift {P = λ identity _. IsIn known identity} (registry_identity registry) s k tt)
          (λ identity s' i. elim (Bool-cases (mem (step_of key identity) trail)) [
            | inl t ↦ rw t (ends_raised tt)
            | inr fresh ↦ rw fresh (
                at_registry-Ends
                  (resolve_from_registry service key requested message_args language fuel
                    (step_of key identity ∷ trail))
                  registry s' advertised
                  (λ next s'' k'.
                    resolve_from_registry-Ends fuel (step_of key identity ∷ trail) next s''
                      advertised (fresh, d) (mem-map (step_of key) identity known i, a)
                      (omega arith) k'))
          ])

  module _ (message_args : Option (List Text)) (language : Option Text) where
    -- An answer to the MessageId, for the key that it names; that the fuel ran out is none.
    abbrev pub Resolved : Text → Option ResolvedMessage → S → Type 0
    Resolved message_id none _ = ⊥
    Resolved message_id (some m) _ =
        (parts : MessageId) × (match_message_id message_id ≡ some parts)
        × Answers parts.key message_id message_args m

    Answered-Resolved :
        (message_id : Text) (parts : MessageId) (r : Run S (Option ResolvedMessage))
        → match_message_id message_id ≡ some parts
        → Ends (Answered parts.key message_id message_args language) Anything r
        → Ends (Resolved message_id) Anything r
    Answered-Resolved message_id parts (returned none s) e (ends_returned h) = absurd h
    Answered-Resolved message_id parts (returned (some m) s) e (ends_returned h) =
        ends_returned (parts, e, h)
    Answered-Resolved message_id parts (raised x s) e h = ends_raised tt

    -- `resolve` ends, whatever cycles the references make: where every registry that the service
    -- ever lists has one of finitely many identities, fuel above their number is enough. What it
    -- returns answers the MessageId that was asked for, with its key and with the arguments given.
    pub resolve-Ends :
        (fuel : ℕ) (message_id : Text) (s : S)
        → Advertises
        → length known < fuel
        → Ends
            (Resolved message_id)
            Anything
            (resolve service message_args language fuel message_id s)
    unfolding resolve
    resolve-Ends fuel message_id s advertised lt = at_parts (match_message_id message_id) refl
      where
        at_parts :
            (o : Option MessageId)
            → match_message_id message_id ≡ o
            → Ends
                (Resolved message_id)
                Anything
                (resolve_id service message_args language fuel message_id o s)
        at_parts none e = ends_raised tt
        at_parts (some parts) e = Answered-Resolved message_id parts _ e (
            Ends-bind service.registries _ s (advertised s) (λ registries s' k.
              Ends-bind (lift (find_registry parts.prefix parts.major parts.minor registries)) _ s'
                (Chosen-Ends parts.key message_id message_args language
                  (find_registry parts.prefix parts.major parts.minor registries) registries s'
                  (IsNewest-Chosen (is_wanted parts.prefix parts.major parts.minor) unknown_registry
                    registries
                    (find_registry-IsNewest parts.prefix parts.major parts.minor registries))
                  k)
                (λ registry s'' k'.
                  resolve_from_registry-Ends parts.key message_id message_args language fuel []
                    registry s'' advertised tt tt (omega arith) k')))

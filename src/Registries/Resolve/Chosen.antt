-- ===== src/Registries/Resolve/Chosen.antt =====
-- What a search for a registry and a resolved message are in redfish_sdk/managers/registries.py.
use redfish_python_sdk.Prelude.{
  ◌≡◌, refl, Option, none, some, List, [], ◌∷◌, map, Text, str, inl, inr, mem, text_eq, text_eq_iff,
  text_eq_self, IsIn, IsMember, length, arith, Bool-cases,
}
use redfish_python_sdk.Exceptions.{Reason, not_advertised}
use redfish_python_sdk.Result.{Result, ok, err}
use redfish_python_sdk.HttpClient.Session.{or_else}
use redfish_python_sdk.Registries.Names.{Registry, match_registry_name}
use redfish_python_sdk.Registries.Find.{
  Accepts, candidates, is_referenced, with_id, choose, find_referenced_registry,
}
use redfish_python_sdk.Registries.Find.Latest.{
  IsNewest, newest, no_match, choose-IsNewest, candidates-AreCandidates,
}
use redfish_python_sdk.Registries.Format.{
  RegistryMessage, MessageRegistry, ResolvedMessage, given, resolved_message,
}

-- The registry that a search returned is one of those that were advertised.
abbrev pub Chosen : List Registry → Result Registry → Type 0
Chosen registries (err e) = Unit
Chosen registries (ok registry) = IsMember registry registries

with_id-Chosen :
    (reference : Text) (registries : List Registry)
    → Chosen registries (with_id reference registries)
unfolding with_id
with_id-Chosen reference [] = tt
with_id-Chosen reference (registry ∷ registries) =
    elim (Bool-cases (text_eq (or_else registry.id (str "None")) reference)) [
      | inl t ↦ rw t (inl refl)
      | inr f ↦ rw f (later (with_id reference registries) (with_id-Chosen reference registries))
    ]
  where
    later : (r : Result Registry) → Chosen registries r → Chosen (registry ∷ registries) r
    later (err e) h = tt
    later (ok other) h = inr h

pub IsNewest-Chosen :
    {r : Result Registry} (accepts : Accepts) (missing : Reason) (registries : List Registry)
    → IsNewest accepts missing registries r
    → Chosen registries r
IsNewest-Chosen accepts missing registries (newest prefix version m p a n) = m
IsNewest-Chosen accepts missing registries (no_match r) = tt

pub find_referenced_registry-Chosen :
    (reference : Text) (registries : List Registry)
    → Chosen registries (find_referenced_registry reference registries)
unfolding find_referenced_registry
find_referenced_registry-Chosen reference registries =
    elim (match_registry_name reference)
      as (λ name. Chosen registries (elim name [
        | none ↦ with_id reference registries
        | some name ↦ choose not_advertised (candidates (is_referenced name) registries)
      ])) [
        | none ↦ with_id-Chosen reference registries
        | some name ↦ IsNewest-Chosen (is_referenced name) not_advertised registries (
            choose-IsNewest (is_referenced name) not_advertised registries
              (candidates (is_referenced name) registries)
              (candidates-AreCandidates (is_referenced name) registries))
      ]

-- What a resolved message keeps of the request.
pub record Answers (key requested : Text) (message_args : Option (List Text)) (m : ResolvedMessage)
    : Type 0 where
  pub same_key : m.message_key ≡ key
  pub same_request : m.requested_message_id ≡ requested
  pub same_args : m.message_args ≡ given message_args

pub resolved_message-Answers :
    (document : MessageRegistry) (registry : Registry) (key : Text) (definition : RegistryMessage)
    (requested : Text) (message_args : Option (List Text)) (m : ResolvedMessage)
    → resolved_message document registry key definition requested message_args ≡ ok m
    → Answers key requested message_args m
unfolding resolved_message
resolved_message-Answers document registry key definition requested message_args m h = record {
  same_key = ground arith;
  same_request = ground arith;
  same_args = ground arith;
}

pub length-map : {A B : Type 0} (f : A → B) (xs : List A) → length (map f xs) ≡ length xs
length-map f [] = refl
length-map f (x ∷ xs) = omega (arith, length-map f xs)

pub mem-map : (f : Text → Text) (x : Text) (xs : List Text) → IsIn xs x → IsIn (map f xs) (f x)
unfolding mem
mem-map f x [] h = cc
mem-map f x (y ∷ ys) h =
    ground (arith, mem-map f x ys, text_eq_iff x y, text_eq_iff (f x) (f y), text_eq_self (f x))

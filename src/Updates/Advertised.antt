-- ===== src/Updates/Advertised.antt =====
-- The actions that the UpdateService of redfish_sdk/managers/update.py advertises.
use redfish_python_sdk.Prelude.{
  ◌≡◌, refl, Bool, true, false, not, List, [], ◌∷◌, ◌++◌, Text, str, starts_with, IsMember, ◌⊎◌,
  inl, inr, ◌↔◌, Option, some, none, if◌then◌else◌,
}
use mathlib.Core.Path.{subst}
use redfish_python_sdk.Exceptions.{validation_error, no_action_target}
use redfish_python_sdk.Json.{Json, null, bool, number, string, array, object, Fields, empty, field}
use redfish_python_sdk.Result.{ok, err}
use redfish_python_sdk.Updates.{
  is_action, discover, discover_value, Action, target_of, unique_action,
}

-- The container advertises an action of that name: it has it under the key of the action, or in an
-- object under a key that is no action's.
pub data Advertises (name : Text) : Fields → Fields → Type 0 where
  at_key :
      {key : Text} {parts rest : Fields}
      → is_action name key ≡ true
      → Advertises name (field key (object parts) rest) parts
  inside :
      {key : Text} {container rest parts : Fields}
      → is_action name key ≡ false
      → starts_with key (str "#") ≡ false
      → Advertises name container parts
      → Advertises name (field key (object container) rest) parts
  later :
      {key : Text} {value : Json} {rest parts : Fields}
      → Advertises name rest parts
      → Advertises name (field key value rest) parts

IsMember-append :
    {A : Type 0} (x : A) (xs ys : List A) → IsMember x (xs ++ ys) → IsMember x xs ⊎ IsMember x ys
IsMember-append x [] ys m = inr m
IsMember-append x (y ∷ xs) ys (inl e) = inl (inl e)
IsMember-append x (y ∷ xs) ys (inr m) = elim (IsMember-append x xs ys m) [
  | inl k ↦ inl (inr k)
  | inr k ↦ inr k
]

append-IsMember :
    {A : Type 0} (x : A) (xs ys : List A) → IsMember x xs ⊎ IsMember x ys → IsMember x (xs ++ ys)
append-IsMember x [] ys (inr m) = m
append-IsMember x [] ys (inl m) = absurd m
append-IsMember x (y ∷ xs) ys (inl (inl e)) = inl e
append-IsMember x (y ∷ xs) ys (inl (inr m)) = inr (append-IsMember x xs ys (inl m))
append-IsMember x (y ∷ xs) ys (inr m) = inr (append-IsMember x xs ys (inr m))

mutual
  unfolding discover discover_value

  discover-Advertises :
      (name : Text) (container parts : Fields)
      → IsMember parts (discover name container)
      → Advertises name container parts
  discover-Advertises name empty parts m = absurd m
  discover-Advertises name (field key value rest) parts m =
      elim (IsMember-append parts (discover_value name key value) (discover name rest) m) [
        | inl k ↦ discover_value-Advertises name key value rest parts k
        | inr k ↦ later (discover-Advertises name rest parts k)
      ]

  discover_value-Advertises :
      (name key : Text) (value : Json) (rest parts : Fields)
      → IsMember parts (discover_value name key value)
      → Advertises name (field key value rest) parts
  discover_value-Advertises name key (object container) rest parts m =
      at_key_of (is_action name key) (starts_with key (str "#")) refl refl m
        (λ k. discover-Advertises name container parts k)
    where
      at_key_of :
          (matching hashed : Bool)
          → is_action name key ≡ matching
          → starts_with key (str "#") ≡ hashed
          → IsMember parts (
              if matching
              then container ∷ []
              else if not hashed
              then discover name container
              else [])
          → (IsMember parts (discover name container) → Advertises name container parts)
          → Advertises name (field key (object container) rest) parts
      at_key_of true hashed e h (inl same) k =
          subst (λ c. Advertises name (field key (object c) rest) parts) same (at_key e)
      at_key_of true hashed e h (inr m') k = absurd m'
      at_key_of false true e h m' k = absurd m'
      at_key_of false false e h m' k = inside e h (k m')
  discover_value-Advertises name key null rest parts m = absurd m
  discover_value-Advertises name key (bool b) rest parts m = absurd m
  discover_value-Advertises name key (number n) rest parts m = absurd m
  discover_value-Advertises name key (string s) rest parts m = absurd m
  discover_value-Advertises name key (array a) rest parts m = absurd m

Advertises-discover :
    (name : Text) (container parts : Fields)
    → Advertises name container parts
    → IsMember parts (discover name container)
unfolding discover discover_value
Advertises-discover name empty parts a = elim a [ ]
Advertises-discover name (field key (object container) rest) _ (at_key e) = rw e (inl refl)
Advertises-discover name (field key (object container) rest) parts (inside e h a) =
    append-IsMember parts (discover_value name key (object container)) (discover name rest)
      (inl (rw (e, h) (Advertises-discover name container parts a)))
Advertises-discover name (field key value rest) parts (later a) =
    append-IsMember parts (discover_value name key value) (discover name rest)
      (inr (Advertises-discover name rest parts a))

-- The search gives exactly the actions of that name that the container advertises.
pub discover_iff-Advertises :
    (name : Text) (container parts : Fields)
    → IsMember parts (discover name container) ↔ Advertises name container parts
discover_iff-Advertises name container parts =
    (discover-Advertises name container parts, Advertises-discover name container parts)

-- What `_action` gives is advertised, is the only action of that name, and has that target.
pub record IsUnique (name : Text) (container : Fields) (action : Action) : Type 0 where
  pub advertised : Advertises name container action.parts
  pub only : (parts : Fields) → Advertises name container parts → parts ≡ action.parts
  pub target : target_of action.parts ≡ some action.target

pub unique_action-IsUnique :
    (name : Text) (container : Fields) (action : Action)
    → unique_action (discover name container) ≡ ok action
    → IsUnique name container action
unfolding unique_action
unique_action-IsUnique name container action h = among (discover name container) refl h
  where
    with_parts :
        (parts : Fields) (found : Option Text)
        → discover name container ≡ parts ∷ []
        → target_of parts ≡ found
        → (elim found [
          | some target ↦ ok (record { target = target; parts = parts })
          | none ↦ err (validation_error no_action_target)
        ])
          ≡ ok action
        → IsUnique name container action
    with_parts parts none e t r = absurd (cc r)
    with_parts parts (some target) e t r = subst (IsUnique name container) (cc r) (record {
      advertised = discover-Advertises name container parts (rw e (inl refl));
      only = λ other a. single other (rw e at (Advertises-discover name container other a));
      target = t;
    })
      where
        single : (other : Fields) → IsMember other (parts ∷ []) → other ≡ parts
        single other (inl same) = same
        single other (inr m) = absurd m

    among :
        (found : List Fields)
        → discover name container ≡ found
        → unique_action found ≡ ok action
        → IsUnique name container action
    among [] e r = absurd (cc r)
    among (parts ∷ []) e r = with_parts parts (target_of parts) e refl r
    among (parts ∷ more ∷ rest) e r = absurd (cc r)

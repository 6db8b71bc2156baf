-- ===== src/Collections/Outcomes.antt =====
-- What becomes of a member that `_get_collection` of redfish_sdk/client.py asks for.
use redfish_python_sdk.Prelude.{◌≡◌, refl, ◌⊎◌, inl, inr, List, [], ◌∷◌, ◌++◌, Text, All, IsMember}
use redfish_python_sdk.Result.{ok}
use redfish_python_sdk.Exec.Answers.{HasGiven}
use redfish_python_sdk.Collections.{
  member, CollectionFailure, Transport, Models, require_resource_identity,
}

All-weaken {ℓ κ} :
    {A : Type ℓ} {P Q : A → Type κ} (xs : List A) → ((x : A) → P x → Q x) → All P xs → All Q xs
All-weaken [] k h = tt
All-weaken (x ∷ xs) k (p, h) = (k x p, All-weaken xs k h)

pub IsMember-more :
    {A : Type 0} (x : A) (xs more : List A) → IsMember x xs → IsMember x (xs ++ more)
IsMember-more x [] more m = absurd m
IsMember-more x (y ∷ xs) more (inl e) = inl e
IsMember-more x (y ∷ xs) more (inr m) = inr (IsMember-more x xs more m)

pub IsMember-last : {A : Type 0} (x : A) (xs : List A) → IsMember x (xs ++ (x ∷ []))
IsMember-last x [] = inl refl
IsMember-last x (y ∷ xs) = inr (IsMember-last x xs)

-- The member at a path is noted as a failure.
pub record IsNoted (failures : List CollectionFailure) (path : Text) : Type 0 where
  pub failure : CollectionFailure
  pub noted : IsMember failure failures
  pub at_stage : failure.stage ≡ member
  pub at_path : failure.resource ≡ path

module _ {S M : Type 0} (transport : Transport S M) (models : Models M) where
  -- The resource is what the transport gave for the path, and has an identity.
  pub record IsGivenAt (path : Text) (resource : M) : Type 0 where
    pub answer : M
    pub was_given : HasGiven (transport.get path) answer
    pub has_identity : require_resource_identity models answer path ≡ ok resource

  -- The list holds what the transport gave for the path.
  pub record IsExpanded (resources : List M) (path : Text) : Type 0 where
    pub resource : M
    pub given_at : IsGivenAt path resource
    pub kept : IsMember resource resources

  -- One of the paths was answered with the resource.
  pub record IsSourced (paths : List Text) (resource : M) : Type 0 where
    pub path : Text
    pub visited : IsMember path paths
    pub given_at : IsGivenAt path resource

  abbrev pub Outcome : List M → List CollectionFailure → Text → Type 0
  Outcome resources failures path = IsExpanded resources path ⊎ IsNoted failures path

  -- What became of each path still holds of longer lists.
  pub outcomes-more :
      (resources more : List M) (failures others : List CollectionFailure) (paths : List Text)
      → ((m : M) → IsMember m resources → IsMember m more)
      → ((f : CollectionFailure) → IsMember f failures → IsMember f others)
      → All (Outcome resources failures) paths
      → All (Outcome more others) paths
  outcomes-more resources more failures others paths keep note =
      All-weaken paths (λ path outcome. onward path outcome)
    where
      onward : (path : Text) → Outcome resources failures path → Outcome more others path
      onward path (inl e) =
          inl
            (record { resource = e.resource; given_at = e.given_at; kept = keep e.resource e.kept })
      onward path (inr n) = inr (record {
        failure = n.failure;
        noted = note n.failure n.noted;
        at_stage = n.at_stage;
        at_path = n.at_path;
      })

  pub IsSourced-more :
      (path : Text) (paths : List Text) (resources : List M)
      → All (IsSourced paths) resources
      → All (IsSourced (path ∷ paths)) resources
  IsSourced-more path paths resources =
      All-weaken resources
        (λ m s. record { path = s.path; visited = inr s.visited; given_at = s.given_at })

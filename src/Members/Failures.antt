-- ===== src/Members/Failures.antt =====
-- How `network_ports` and `memory_chunks` of redfish_sdk/managers/system_resources.py fail.
use mathlib.Core.Path.{subst}
use redfish_python_sdk.Prelude.{
  ◌≡◌, refl, Option, none, some, List, [], ◌∷◌, Text, inl, inr, Bool-cases,
}
use redfish_python_sdk.Exceptions.{Exc, not_found, validation_error, multiple_match}
use redfish_python_sdk.Result.{Result, ok, err, ◌>>=◌}
use redfish_python_sdk.Exec.{Exec}
use redfish_python_sdk.Exec.Settles.{HasRaised}
use redfish_python_sdk.HttpClient.Session.{truthy}
use redfish_python_sdk.Members.{Link, matches, only, select_member, require_link}
use redfish_python_sdk.Members.Resources.{Linked, Host}
use redfish_python_sdk.Members.System.{chosen}

module _ {ℓ} {S : Type ℓ} {R : Type 0} (host : Host S R) (link_of : Linked → Exec S (Option Link))
    (identifier : Option Text) (system_id : Option Text) where
  -- The resource or the collection that was asked for is not advertised, the identifier has several
  -- members, or a call of the service raised the exception.
  pub data IsFailure : Exc → Type ℓ where
    not_advertised : IsFailure not_found
    ambiguous : IsFailure (validation_error multiple_match)
    by_system : {e : Exc} → HasRaised (host.system system_id) e → IsFailure e
    by_members : {e : Exc} (uri : Text) → HasRaised (host.members uri) e → IsFailure e
    by_link : {e : Exc} (resource : Linked) → HasRaised (link_of resource) e → IsFailure e
    by_collection : {e : Exc} (uri : Text) → HasRaised (host.collection uri) e → IsFailure e

  pub require_link-IsFailure : (l : Option Link) (e : Exc) → require_link l ≡ err e → IsFailure e
  unfolding require_link
  require_link-IsFailure none e h =
      let same : not_found ≡ e = cc h in subst IsFailure same not_advertised
  require_link-IsFailure (some l) e h = elim (Bool-cases (truthy l)) [
    | inl t ↦ absurd (cc (rw t at h))
    | inr f ↦
        let same : not_found ≡ e = error_of refl (rw f at h) in subst IsFailure same not_advertised
  ]
    where
      error_of : {x : Result Text} → x ≡ err not_found → x ≡ err e → not_found ≡ e
      error_of q h = cc (q, h)

  pub chosen-IsFailure :
      (resources : List Linked) (e : Exc) → chosen resources identifier ≡ err e → IsFailure e
  unfolding chosen select_member
  chosen-IsFailure resources e h = at_identifier identifier h
    where
      at_matches :
          (found : List Linked)
          → (only (λ (r : Linked). r.id) (λ r. r.odata_id) found >>= λ r. ok (r ∷ [])) ≡ err e
          → IsFailure e
      at_matches [] q = let same : not_found ≡ e = cc q in subst IsFailure same not_advertised
      at_matches (r ∷ []) q = absurd (cc q)
      at_matches (r ∷ r' ∷ found) q =
          let same : validation_error multiple_match ≡ e = cc q in subst IsFailure same ambiguous

      at_identifier : (named : Option Text) → chosen resources named ≡ err e → IsFailure e
      at_identifier none q = absurd (cc q)
      at_identifier (some name) q =
          at_matches (matches (λ r. r.id) (λ r. r.odata_id) resources (some name) []) q

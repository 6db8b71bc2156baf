-- ===== src/Members.antt =====
-- The choice of members in redfish_sdk/managers/system_resources.py: `require_link`,
-- `select_member` and `unique_members`.
pub mod Permitted
pub mod Resources
pub mod Laws
pub mod System
pub mod Failures
pub mod Gathered
pub mod Guarded
mod Tests
use redfish_python_sdk.Prelude.{
  Bool, true, false, ◌||◌, ◌&&◌, Option, none, some, List, [], ◌∷◌, Text, text_eq, any, filter_by,
  mem, is_empty, if◌then◌else◌,
}
use redfish_python_sdk.Exceptions.{Exc, not_found, validation_error, multiple_match}
use redfish_python_sdk.Result.{Result, ok, err}
use redfish_python_sdk.HttpClient.Session.{truthy, or_else}

-- A link is the `@odata.id` in it.
abbrev pub Link : Type 0
Link = Option Text

-- The `@odata.id` of a link, empty where there is none.
abbrev pub uri_of : Option Link → Text
uri_of none = []
uri_of (some link) = or_else link []

-- `require_link`, of the `@odata.id` of the link in the field
unfoldable pub require_link : Option Link → Result Text
require_link none = err not_found
require_link (some link) = if truthy link then ok (or_else link []) else err not_found

abbrev pub is_value : Text → Option Text → Bool
is_value identifier none = false
is_value identifier (some value) = text_eq value identifier

module _ {ℓ} {R : Type ℓ} (id odata_id : R → Option Text) where
  -- One test of `select_member`; `aliases` read the fields that it names.
  unfoldable pub is_match : List (R → Option Text) → Text → R → Bool
  unfolding any
  is_match aliases identifier resource =
      is_value identifier (id resource)
      || is_value identifier (odata_id resource)
      || any (λ alias. is_value identifier (alias resource)) aliases

  abbrev pub matches : List R → Option Text → List (R → Option Text) → List R
  matches resources none aliases = resources
  matches resources (some identifier) aliases = filter_by (is_match aliases identifier) resources

  abbrev pub only : List R → Result R
  only [] = err not_found
  only (resource ∷ []) = ok resource
  only (_ ∷ _ ∷ _) = err (validation_error multiple_match)

  -- `select_member`
  unfoldable pub select_member : List R → Option Text → List (R → Option Text) → Result R
  unfolding filter_by is_match
  select_member resources identifier aliases = only (matches resources identifier aliases)

  -- The loop of `unique_members`; a missing or empty `@odata.id` is in `seen` as the empty text,
  -- which is never looked up.
  unfoldable pub unique_from : List Text → List R → List R
  unfolding mem
  unique_from seen [] = []
  unique_from seen (resource ∷ resources) =
      let uri = or_else (odata_id resource) [] in
      let rest = unique_from (uri ∷ seen) resources in
      let skipped = unique_from seen resources in
      if truthy (odata_id resource) && mem uri seen then skipped else resource ∷ rest

  -- `unique_members`
  unfoldable pub unique_members : List R → List R
  unfolding unique_from
  unique_members resources = unique_from [] resources

-- ===== src/Collections.antt =====
-- Collections of redfish_sdk/client.py: `_collection_path`, `_require_resource_identity`,
-- `CollectionFailure`, `CollectionResult`, `_get_collection` and `_get_list`.
pub mod Logged
pub mod Once
pub mod Invariants
pub mod Bounds
pub mod Outcomes
pub mod Followed
pub mod Guarded
pub mod Asked
pub mod Accounts
pub mod Served
mod Tests
use redfish_python_sdk.Prelude.{
  ℕ, zero, suc, ◌≡◌, refl, Bool, true, false, not, ◌&&◌, ◌||◌, ◌==◌, Option, none, some, List, [],
  ◌∷◌, ◌++◌, Text, str, text_eq, lower, is_empty, strip, mem, if◌then◌else◌,
}
use redfish_python_sdk.Exceptions.{
  Exc, is_redfish, validation_error, missing_attribute, invalid_collection_link, cross_origin_link,
  paging_loop,
}
use redfish_python_sdk.Result.{Result, ok, err, ◌>>=◌, ◌>>◌, raise_if, on_error}
use redfish_python_sdk.Exec.{Exec, Run, returned, raised, pure, raise, lift, ◌>>=◌ as bind}
use redfish_python_sdk.Json.{Json}
use redfish_python_sdk.Url.{SplitResult, urlsplit, urlunsplit}
use redfish_python_sdk.Url.Join.{urljoin}
use redfish_python_sdk.HttpClient.Origin.{is_own_target}

-- `_collection_path`, for the client's base "{scheme}://{host}/".
unfoldable pub collection_path : Text → Text → Text → Result Text
unfolding urljoin urlsplit is_own_target urlunsplit
collection_path base_url link current_page = do
  current_url ← urljoin base_url current_page
  target ← urljoin current_url link
  resolved ← urlsplit target
  origin ← urlsplit base_url
  same_origin ←
      on_error (is_own_target resolved origin) (λ _. validation_error invalid_collection_link)
  raise_if (not same_origin) (validation_error cross_origin_link)
  ok (
      urlunsplit (record {
        scheme = [];
        netloc = [];
        path = if is_empty resolved.path then str "/" else resolved.path;
        query = resolved.query;
        fragment = [];
      }))

pub data Stage : Type 0 where
  page member : Stage

-- `CollectionFailure`
pub record CollectionFailure : Type 0 where
  pub stage : Stage
  pub resource : Text
  pub error : Exc

-- The links of a page: `members` has the `@odata.id` of each member, empty where it has none.
pub record Page : Type 0 where
  pub members : List Text
  pub next_link : Text

-- What the walk asks of the HTTP client.
pub record Transport {ℓ κ} (S : Type ℓ) (M : Type κ) : Type (ℓ ⊔ κ) where
  pub get_raw : Text → Exec S Json
  pub get : Text → Exec S M

-- The pydantic models of a collection and of its members.
pub record Models {κ} (M : Type κ) : Type κ where
  pub read_page : Text → Json → Result Page
  pub odata_id : M → Option Text
  pub id : M → Option Text

-- The variables of `_get_collection`.
pub record Walk {κ} (M : Type κ) : Type κ where
  pub expanded_members : List M
  pub failures : List CollectionFailure
  pub visited_pages : List Text
  pub visited_members : List Text

abbrev is_named : Option Text → Bool
is_named none = false
is_named (some s) = not (is_empty (strip s))

-- `_require_resource_identity`
unfoldable pub require_resource_identity {κ} : {M : Type κ} → Models M → M → Text → Result M
unfolding strip
require_resource_identity models resource resource_uri =
    if not (is_named (models.odata_id resource)) && not (is_named (models.id resource))
    then err (missing_attribute (str "@odata.id or Id") resource_uri)
    else ok resource

-- `handle_failure`
unfoldable pub handle_failure {κ} :
    {M : Type κ} → Bool → Stage → Text → Exc → Walk M → Result (Walk M)
handle_failure strict stage resource error w =
    if strict
    then err error
    else ok (record w {
      failures = w.failures ++ (record { stage = stage; resource = resource; error = error } ∷ []);
    })

-- the `break` after a failure
abbrev pub broken {ℓ κ μ} :
    {S : Type ℓ} {A : Type κ} {M : Type μ} → Exec S (Walk M) → Exec S (Option A × Walk M)
broken m = bind m (λ w. pure (none, w))

abbrev pub no_members {κ} : {M : Type κ} → Walk M
no_members = record {
  expanded_members = [];
  failures = [];
  visited_pages = [];
  visited_members = [];
}

module _ {ℓ κ} {S : Type ℓ} {M : Type κ} (transport : Transport S M) (models : Models M)
    (base_url : Text) (strict : Bool) where
  -- except RedfishException as exc: handle_failure(…)
  unfoldable pub on_redfish_error : Stage → Text → Walk M → Exc → Exec S (Walk M)
  unfolding is_redfish handle_failure
  on_redfish_error stage resource w e s =
      if is_redfish e then lift (handle_failure strict stage resource e w) s else raised e s

  abbrev pub keep_member : Text → Walk M → Result M → Exec S (Walk M)
  keep_member member_path w (ok m) =
      pure (record w { expanded_members = w.expanded_members ++ (m ∷ []) })
  keep_member member_path w (err e) = on_redfish_error member member_path w e

  -- The second `try` of the loop over members.
  unfoldable pub expand_member : Text → Walk M → Exec S (Walk M)
  unfolding on_redfish_error require_resource_identity
  expand_member member_path w s = elim (transport.get member_path s) [
    | returned m s' ↦ keep_member member_path w (require_resource_identity models m member_path) s'
    | raised e s' ↦ on_redfish_error member member_path w e s'
  ]

  -- One round of the loop over members.
  unfoldable pub visit_member : Text → Text → Walk M → Exec S (Walk M)
  unfolding collection_path on_redfish_error mem expand_member
  visit_member page_path link w s =
      if is_empty link then returned w s else elim (collection_path base_url link page_path) [
        | err e ↦ on_redfish_error member link w e s
        | ok member_path ↦
            if mem member_path w.visited_members
            then returned w s
            else expand_member member_path
                (record w { visited_members = member_path ∷ w.visited_members }) s
      ]

  -- for member in members
  unfoldable pub visit_members : Text → List Text → Walk M → Exec S (Walk M)
  unfolding visit_member
  visit_members page_path [] w = pure w
  visit_members page_path (link ∷ links) w =
      bind (visit_member page_path link w) (visit_members page_path links)

  abbrev pub page_failed : Text → Bool → Walk M → Exc → Exec S (Option Json × Walk M)
  page_failed page_path first_page w e s =
      if first_page && not strict
      then raised e s
      else broken (on_redfish_error page page_path w e) s

  -- `get_raw` and the `except` clause around it; none is the `break`.
  unfoldable pub fetch_page : Text → Bool → Walk M → Exec S (Option Json × Walk M)
  unfolding on_redfish_error
  fetch_page page_path first_page w s = elim (transport.get_raw page_path s) [
    | returned raw s' ↦ returned (some raw, w) s'
    | raised e s' ↦ page_failed page_path first_page w e s'
  ]

  -- The end of a round: the path of the next page, if there is one.
  unfoldable pub next_page : Text → Text → Walk M → Exec S (Option Text × Walk M)
  unfolding collection_path on_redfish_error
  next_page page_path next_link w s =
      if is_empty next_link
      then returned (none, w) s
      else elim (collection_path base_url next_link page_path) [
        | ok path ↦ returned (some path, w) s
        | err e ↦ broken (on_redfish_error page next_link w e) s
      ]

  -- The rest of the round, with what was fetched.
  abbrev pub visit_found : Text → Option Json × Walk M → Exec S (Option Text × Walk M)
  visit_found page_path (none, w) = pure (none, w)
  visit_found page_path (some raw, w) = bind (lift (models.read_page page_path raw)) (λ found.
      bind (visit_members page_path found.members w) (next_page page_path found.next_link))

  -- A page that was not seen before: its members, and where to go on.
  unfoldable pub visit_page : Text → Bool → Walk M → Exec S (Option Text × Walk M)
  unfolding fetch_page visit_members next_page
  visit_page page_path first_page w =
      bind (fetch_page page_path first_page w) (visit_found page_path)

  -- `break`, or the next round
  abbrev pub go_on :
      (Text → Walk M → Exec S (Option (Walk M))) → Option Text × Walk M → Exec S (Option (Walk M))
  go_on again (none, w) = pure (some w)
  go_on again (some path, w) = again path w

  -- The `while` loop; none is that the fuel ran out.
  unfoldable pub walk : ℕ → Text → Bool → Walk M → Exec S (Option (Walk M))
  unfolding mem visit_page on_redfish_error
  walk zero page_path first_page w s = returned none s
  walk (suc fuel) page_path first_page w s =
      if mem page_path w.visited_pages
      then bind (lift (handle_failure strict page page_path (validation_error paging_loop) w))
          (λ w. pure (some w)) s
      else bind
          (visit_page page_path first_page
            (record w { visited_pages = page_path ∷ w.visited_pages }))
          (go_on (λ path w. walk fuel path false w)) s

  -- `_get_collection`
  unfoldable pub get_collection : ℕ → Text → Exec S (Option (Walk M))
  unfolding collection_path walk
  get_collection fuel odata_id =
      bind (lift (collection_path base_url odata_id (str "/")))
        (λ page_path. walk fuel page_path true no_members)

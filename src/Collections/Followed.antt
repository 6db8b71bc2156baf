-- ===== src/Collections/Followed.antt =====
-- Which links `_get_collection` of redfish_sdk/client.py follows.
use redfish_python_sdk.Prelude.{
  ◌≡◌, refl, sym, ◌⊎◌, Bool, true, false, not, [], Text, str, is_empty, IsMember, if◌then◌else◌,
}
use redfish_python_sdk.Exceptions.{validation_error, invalid_collection_link, cross_origin_link}
use redfish_python_sdk.Result.{Result, ok, err, ◌>>=◌, ◌>>◌, raise_if, on_error, >>=-eq-ok}
use redfish_python_sdk.Exec.Answers.{HasGiven}
use redfish_python_sdk.Exec.Keeps.{Keeps}
use redfish_python_sdk.Json.{Json}
use redfish_python_sdk.Url.{SplitResult, urlsplit, urlunsplit}
use redfish_python_sdk.Url.Join.{urljoin}
use redfish_python_sdk.HttpClient.Origin.{is_own_target}
use redfish_python_sdk.Collections.{Transport, Models, Page, collection_path}

-- The path and the query of a split target.
abbrev pub local_part : SplitResult → Text
local_part resolved = urlunsplit (record {
  scheme = [];
  netloc = [];
  path = if is_empty resolved.path then str "/" else resolved.path;
  query = resolved.query;
  fragment = [];
})

-- The link of a page, joined to the page's own URL, is a target of the origin of the base, and the
-- path is its path and query.
pub record IsOwnLink (base_url link page_path path : Text) : Type 0 where
  pub page_url : Text
  pub target : Text
  pub resolved : SplitResult
  pub origin : SplitResult
  pub page_joined : urljoin base_url page_path ≡ ok page_url
  pub link_joined : urljoin page_url link ≡ ok target
  pub target_split : urlsplit target ≡ ok resolved
  pub base_split : urlsplit base_url ≡ ok origin
  pub own : is_own_target resolved origin ≡ ok true
  pub local : path ≡ local_part resolved

own_target :
    (r : Result Bool) (path : Text) (a : Text)
    → (on_error r (λ _. validation_error invalid_collection_link) >>= λ same.
        raise_if (not same) (validation_error cross_origin_link) >> ok a)
      ≡ ok path
    → (r ≡ ok true) × (path ≡ a)
own_target (ok true) path a h = let e : a ≡ path = cc h in (refl, sym e)
own_target (ok false) path a h = absurd (cc h)
own_target (err e) path a h = absurd (cc h)

pub collection_path-IsOwnLink :
    (base_url link page_path path : Text)
    → collection_path base_url link page_path ≡ ok path
    → IsOwnLink base_url link page_path path
unfolding collection_path
collection_path-IsOwnLink base_url link page_path path h =
    let (page_url, h1, e1) = >>=-eq-ok _ (urljoin base_url page_path) h in
    let (target, h2, e2) = >>=-eq-ok _ (urljoin page_url link) h1 in
    let (resolved, h3, e3) = >>=-eq-ok _ (urlsplit target) h2 in
    let (origin, h4, e4) = >>=-eq-ok _ (urlsplit base_url) h3 in
    let (own, local) = own_target (is_own_target resolved origin) path (local_part resolved) h4 in
    record {
      page_url = page_url;
      target = target;
      resolved = resolved;
      origin = origin;
      page_joined = e1;
      link_joined = e2;
      target_split = e3;
      base_split = e4;
      own = own;
      local = local;
    }

module _ {ℓ} {S : Type ℓ} {M : Type 0} (transport : Transport S M) (models : Models M)
    (base_url : Text) where
  -- The page was read from what the transport gave for its path.
  pub record IsServed (page_path : Text) (found : Page) : Type ℓ where
    pub raw : Json
    pub was_given : HasGiven (transport.get_raw page_path) raw
    pub was_read : models.read_page page_path raw ≡ ok found

  -- The path is where a member's link on a served page leads.
  pub record IsMemberPath (path : Text) : Type ℓ where
    pub page_path : Text
    pub found : Page
    pub served : IsServed page_path found
    pub link : Text
    pub listed : IsMember link found.members
    pub own_link : IsOwnLink base_url link page_path path

  -- The path is where the next link of a served page leads.
  pub record IsNextPath (path : Text) : Type ℓ where
    pub page_path : Text
    pub found : Page
    pub served : IsServed page_path found
    pub own_link : IsOwnLink base_url found.next_link page_path path

  -- The path of the collection, or of a page after one that was served.
  abbrev pub IsPagePath : Text → Text → Type ℓ
  IsPagePath odata_id path = IsOwnLink base_url odata_id (str "/") path ⊎ IsNextPath path

  -- The predicate survives the requests for the pages and for the members of the collection.
  pub record IsFollowing (odata_id : Text) (P : S → Type ℓ) : Type ℓ where
    pub pages : (path : Text) → IsPagePath odata_id path → Keeps P (transport.get_raw path)
    pub members : (path : Text) → IsMemberPath path → Keeps P (transport.get path)

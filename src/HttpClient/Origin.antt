-- ===== src/HttpClient/Origin.antt =====
-- Targets and origins in redfish_sdk/http_client.py: `_effective_port`, `_same_origin`,
-- `_validate_endpoint`, `_resolve_url`, `_is_same_origin_target`, `_validate_external_url`,
-- `_build_url` and `_session_collection_from_location`.
use redfish_python_sdk.Prelude.{
  ℕ, Bool, true, false, not, ◌&&◌, ◌||◌, Option, none, some, ◌∷◌, ◌++◌, Text, str, text_eq,
  starts_with, lower, any, is_space, strip, rstrip, cut_last, is_empty, ltb, ◌==◌, if◌then◌else◌,
}
use redfish_python_sdk.Exceptions.{
  validation_error, bad_host, bad_scheme, https_required, invalid_host_or_port, host_only,
  invalid_target, different_origin, invalid_artifact_url, bad_artifact_url,
}
use redfish_python_sdk.Result.{Result, ok, err, ◌>>=◌, ◌>>◌, raise_if, on_error}
use redfish_python_sdk.Url.{
  SplitResult, urlsplit, urlunsplit, hostname, port, username, password, or_empty,
}
use redfish_python_sdk.HttpClient.Defs.{HttpClient}

abbrev is_none {ℓ} : {A : Type ℓ} → Option A → Bool
is_none none = true
is_none (some _) = false

-- `_effective_port`
unfoldable pub effective_port : SplitResult → Result ℕ
effective_port parts = do
  explicit ← port parts
  ok (elim explicit [
    | some n ↦ n
    | none ↦ if text_eq (lower parts.scheme) (str "https") then 443 else 80
  ])

-- Scheme, host and effective port, compared from the left until one differs.
unfoldable pub same_authority : SplitResult → SplitResult → Result Bool
unfolding effective_port
same_authority first second =
    if text_eq (lower first.scheme) (lower second.scheme)
      && text_eq (lower (or_empty (hostname first))) (lower (or_empty (hostname second)))
    then (do p ← effective_port first; q ← effective_port second; ok (p == q))
    else ok false

-- `_same_origin`
unfoldable pub same_origin : Text → Text → Result Bool
unfolding same_authority
same_origin first_url second_url = do
  first ← urlsplit first_url
  second ← urlsplit second_url
  same_authority first second

-- path.startswith(("http://", "https://"))
unfoldable pub is_absolute : Text → Bool
is_absolute path = starts_with path (str "http://") || starts_with path (str "https://")

-- f"{scheme}://{host}"
unfoldable pub base_url : HttpClient → Text
base_url c = c.scheme ++ str "://" ++ c.host

-- `_build_url`
unfoldable pub build_url : HttpClient → Text → Text
unfolding base_url
build_url c path =
    let path = if starts_with path (str "/") then path else b'/' ∷ path in base_url c ++ path

-- The comparison in `_resolve_url`.
unfoldable pub is_own_target : SplitResult → SplitResult → Result Bool
unfolding same_authority
is_own_target target base = do
  same ← same_authority target base
  ok (same && is_none (username target) && is_none (password target))

-- `_resolve_url`
unfoldable pub resolve_url : HttpClient → Text → Result Text
unfolding base_url build_url is_absolute is_own_target
resolve_url c path = do
  base ← urlsplit (base_url c)
  target ← urlsplit (if is_absolute path then path else build_url c path)
  same ← on_error (is_own_target target base) (λ _. validation_error invalid_target)
  raise_if (not same) (validation_error different_origin)
  ok (urlunsplit target)

abbrev or_false : Result Bool → Bool
or_false (ok b) = b
or_false (err _) = false

-- `_is_same_origin_target`
unfoldable pub is_same_origin_target : HttpClient → Text → Bool
unfolding is_absolute base_url same_origin
is_same_origin_target c path =
    if not (is_absolute path) then true else or_false (same_origin (base_url c) path)

-- `urlsplit(url)` with its port read, as both validations do inside their `try`.
unfoldable pub split_with_port : Text → Result SplitResult
split_with_port url = do parts ← urlsplit url; _ ← port parts; ok parts

abbrev is_http_scheme : Text → Bool
is_http_scheme scheme = text_eq scheme (str "http") || text_eq scheme (str "https")

-- `_validate_external_url`
unfoldable pub validate_external_url : Text → Result Text
unfolding split_with_port
validate_external_url path = do
  target ← on_error (split_with_port path) (λ _. validation_error invalid_artifact_url)
  raise_if
      (not (is_http_scheme (lower target.scheme))
        || is_none (hostname target)
        || not (is_none (username target))
        || not (is_none (password target)))
      (validation_error bad_artifact_url)
  ok (urlunsplit target)

-- `_validate_endpoint`, its warnings left out.
unfoldable pub validate_endpoint : Text → Text → Option Bool → Result (Unit {0})
unfolding split_with_port
validate_endpoint host scheme allow_insecure_http_auth = do
  raise_if
      (is_empty host
        || not (text_eq host (strip host))
        || any (λ character. is_space character || ltb character 32) host)
      (validation_error bad_host)
  raise_if (not (is_http_scheme (lower scheme))) (validation_error bad_scheme)
  raise_if
      (text_eq (lower scheme) (str "http")
        && elim allow_insecure_http_auth [ some false ↦ true | _ ↦ false ])
      (validation_error https_required)
  endpoint ←
      on_error (split_with_port (lower scheme ++ str "://" ++ host))
        (λ _. validation_error invalid_host_or_port)
  raise_if
      (not (text_eq endpoint.scheme (lower scheme))
        || is_none (hostname endpoint)
        || not (is_none (username endpoint))
        || not (is_none (password endpoint))
        || not (is_empty endpoint.path || text_eq endpoint.path (str "/"))
        || not (is_empty endpoint.query)
        || not (is_empty endpoint.fragment))
      (validation_error host_only)

-- `_DEFAULT_SESSION_COLLECTION`
unfoldable pub default_session_collection : Text
default_session_collection = str "/redfish/v1/SessionService/Sessions"

abbrev is_slash : ℕ → Bool
is_slash c = c == b'/'

-- path.rstrip("/")
unfoldable pub rstrip_slash : Text → Text
rstrip_slash = rstrip is_slash

-- path.rsplit("/", 1)[0]
unfoldable pub parent : Text → Text
parent path = elim (cut_last b'/' path).0 [ none ↦ path | some before ↦ before ]

-- `_session_collection_from_location`
unfoldable pub session_collection_from_location : Option Text → Result Text
unfolding default_session_collection rstrip_slash parent
session_collection_from_location none = ok default_session_collection
session_collection_from_location (some location) =
    if is_empty location then ok default_session_collection else do
      parts ← urlsplit location
      let above = parent (rstrip_slash parts.path)
      ok (if is_empty above then default_session_collection else above)

-- ===== src/HttpClient/Verbs.antt =====
-- The verbs of `RedfishHttpClient` over `_request`: `_get_etag`, `_store_etag`, `_parse`, `get`,
-- `get_raw`, `post_raw`, `patch`, `patch_raw`, `delete_raw` and `delete`; redfish_sdk/http_client.py.
pub mod Laws
pub mod Frame
use redfish_python_sdk.Prelude.{
  ◌≡◌, refl, Bool, true, false, not, ◌&&◌, ◌||◌, ◌==◌, Option, none, some, List, [], ◌∷◌, ◌++◌, map,
  Text, str, is_empty, strip, dict_get, dict_set, if◌then◌else◌,
}
use redfish_python_sdk.Exceptions.{
  Exc, redfish_exception, missing_attribute, value_error, parse_failed,
}
use redfish_python_sdk.Result.{Result, ok, err}
use redfish_python_sdk.Exec.{
  Exec, Run, returned, raised, pure, raise, lift, gets, modify, ◌>>=◌, ◌>>◌,
}
use redfish_python_sdk.Json.{Json}
use redfish_python_sdk.HttpClient.Defs.{
  RetryPolicy, default, HttpClient, Server, Response, get_header,
}
use redfish_python_sdk.HttpClient.Session.{raise_for_status, truthy, or_else}
use redfish_python_sdk.HttpClient.Auth.{request}

-- `model.odata_etag` where the model has such a field, and its owner is not None.
abbrev pub etag_of : Option (Option Text) → Option Text
etag_of none = none
etag_of (some etag) = if truthy etag then etag else none

-- `_get_etag`
unfoldable pub get_etag : Text → Option (Option Text) → HttpClient → Text
unfolding dict_get
get_etag path body_etag c = elim (etag_of body_etag) [
  | some etag ↦ etag
  | none ↦ or_else (dict_get path c.last_etag) (str "*")
]

-- `_store_etag`
unfoldable pub store_etag : Text → Response → HttpClient → HttpClient
unfolding get_header dict_set
store_etag path response c =
    let etag = get_header (str "ETag") response.headers in
    if truthy etag then record c { last_etag = dict_set path (or_else etag []) c.last_etag } else c

-- A pydantic model: `validate` is `model_validate` with its context, `empty` is
-- `model_construct()`, and `odata_etag` reads the field, where the model has one.
pub record ModelClass {ℓ} (M : Type ℓ) : Type ℓ where
  pub validate : (resource_uri : Text) (location : Option Text) → Json → Result M
  pub empty : M
  pub odata_etag : M → Option (Option Text)
  pub with_etag : Text → M → M

-- except RedfishMissingAttributeError: raise; except Exception → RedfishException
abbrev pub parse_error : Response → Exc → Exc
parse_error response (missing_attribute attribute uri) = missing_attribute attribute uri
parse_error response _ = redfish_exception response.status_code parse_failed

abbrev pub parsed {ℓ} : {M : Type ℓ} → Response → Result M → Result M
parsed response (ok m) = ok m
parsed response (err e) = err (parse_error response e)

abbrev pub json_of : Response → Result Json
json_of response = elim response.json [ none ↦ err value_error | some j ↦ ok j ]

-- `_parse`
unfoldable pub parse {ℓ} : {M : Type ℓ} → ModelClass M → Response → Text → Result M
unfolding get_header
parse model response resource_uri = elim response.json [
  | none ↦ err (redfish_exception response.status_code parse_failed)
  | some j ↦
      parsed response (model.validate resource_uri (get_header (str "Location") response.headers) j)
]

-- The end of `get`: the entity takes the stored ETag, unless it has one.
unfoldable pub with_stored_etag {ℓ} : {M : Type ℓ} → ModelClass M → Text → M → HttpClient → M
unfolding dict_get
with_stored_etag model path m c = elim (model.odata_etag m) [
  | none ↦ m
  | some etag ↦
      if not (truthy etag) && truthy (dict_get path c.last_etag)
      then model.with_etag (or_else (dict_get path c.last_etag) []) m
      else m
]

-- headers.update(extra)
unfoldable pub updated : List (Text × Text) → List (Text × Text) → List (Text × Text)
unfolding dict_set
updated headers [] = headers
updated headers ((name, value) ∷ extra) = updated (dict_set name value headers) extra

-- {"If-Match": etag}, updated with the extra headers
unfoldable pub patch_headers : Text → List (Text × Text) → List (Text × Text)
unfolding updated
patch_headers etag extra_headers = updated ((str "If-Match", etag) ∷ []) extra_headers

abbrev pub names_of : List (Text × Text) → List Text
names_of headers = map (λ h. h.0) headers

module _ (server : Server) where
  -- A request, its ETag stored and its status examined.
  unfoldable pub exchange : Text → Text → List Text → Exec HttpClient Response
  unfolding request store_etag raise_for_status
  exchange method path headers = do
    response ← request server method path true default headers
    modify (store_etag path response)
    raise_for_status response
    pure response

  -- `get_raw`
  unfoldable pub get_raw : Text → Exec HttpClient Json
  unfolding exchange
  get_raw path = do response ← exchange (str "GET") path []; lift (json_of response)

  -- `get`
  unfoldable pub get {ℓ} : {M : Type ℓ} → ModelClass M → Text → Exec HttpClient M
  unfolding exchange parse with_stored_etag
  get model path = do
    response ← exchange (str "GET") path []
    result ← lift (parse model response path)
    gets (with_stored_etag model path result)

  -- `post_raw`
  unfoldable pub post_raw : Text → Exec HttpClient Response
  unfolding exchange
  post_raw path = exchange (str "POST") path []

  -- `patch`; `body_etag` is the ETag field of its body.
  unfoldable pub patch {ℓ} :
      {M : Type ℓ}
      → ModelClass M
      → Text
      → Option (Option Text)
      → List (Text × Text)
      → Exec HttpClient M
  unfolding exchange get_etag patch_headers parse strip
  patch model path body_etag extra_headers = do
    etag ← gets (get_etag path body_etag)
    response ← exchange (str "PATCH") path (names_of (patch_headers etag extra_headers))
    if response.status_code == 204 || is_empty (strip response.text)
        then pure model.empty
        else lift (parse model response path)

  -- `patch_raw`
  unfoldable pub patch_raw : Text → List (Text × Text) → Exec HttpClient Response
  unfolding exchange get_etag patch_headers
  patch_raw path extra_headers = do
    etag ← gets (get_etag path none)
    exchange (str "PATCH") path (names_of (patch_headers etag extra_headers))

  -- `delete_raw`
  unfoldable pub delete_raw : Text → Exec HttpClient Response
  unfolding request raise_for_status
  delete_raw path = do
    response ← request server (str "DELETE") path true default []
    raise_for_status response
    pure response

  -- `delete`
  unfoldable pub delete : Text → Exec HttpClient Text
  unfolding delete_raw
  delete path = do response ← delete_raw path; pure response.text

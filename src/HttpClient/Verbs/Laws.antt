-- ===== src/HttpClient/Verbs/Laws.antt =====
-- ETags and managed headers in the verbs of redfish_sdk/http_client.py.
use redfish_python_sdk.Prelude.{
  ◌≡◌, ◌≢◌, refl, Bool, true, ◌||◌, none, List, [], ◌∷◌, Text, str, any, arith, text_eq,
  text_eq_iff, lower, dict_set, dict_get-dict_set, dict_get-dict_set_other, if◌then◌else◌,
  Bool-cases, inl, inr,
}
use redfish_python_sdk.Exceptions.{validation_error, managed_header}
use redfish_python_sdk.Exec.{raised}
use redfish_python_sdk.HttpClient.Defs.{default, HttpClient, Server, Response, get_header}
use redfish_python_sdk.HttpClient.Session.{validate_managed_headers, translate, truthy, or_else}
use redfish_python_sdk.HttpClient.Auth.{request}
use redfish_python_sdk.HttpClient.Verbs.{
  get_etag, store_etag, exchange, patch_raw, patch_headers, updated, names_of,
}

-- What `_get_etag` finds once `_store_etag` has seen a response: on the same path, the response's
-- ETag where it has one; on every other path, what was found before.
pub get_etag-store_etag :
    (path other : Text) (response : Response) (c : HttpClient)
    → other ≢ path
    → (get_etag path none (store_etag path response c) ≡ (
        if truthy (get_header (str "ETag") response.headers)
        then or_else (get_header (str "ETag") response.headers) []
        else get_etag path none c))
      × (get_etag other none (store_etag path response c) ≡ get_etag other none c)
unfolding get_etag store_etag
get_etag-store_etag path other response c ne =
    elim (Bool-cases (truthy (get_header (str "ETag") response.headers))) [
      | inl t ↦ (
        rw (t, dict_get-dict_set) refl,
        rw (t, dict_get-dict_set_other path other _ c.last_etag ne) refl,
      )
      | inr f ↦ (rw f refl, rw f refl)
    ]

abbrev pub is_managed : Text → Bool
is_managed name =
    text_eq (lower name) (str "authorization") || text_eq (lower name) (str "x-auth-token")

any-names_of :
    (p : Text → Bool) (name value : Text) (headers : List (Text × Text))
    → p name ≡ true
    → any p (names_of (dict_set name value headers)) ≡ true
unfolding dict_set any
any-names_of p name value [] h = rw h refl
any-names_of p name value ((k, v) ∷ rest) h =
    ground (arith, any-names_of p name value rest h, text_eq_iff k name)

any-names_of_set :
    (p : Text → Bool) (name value : Text) (headers : List (Text × Text))
    → any p (names_of headers) ≡ true
    → any p (names_of (dict_set name value headers)) ≡ true
unfolding dict_set any
any-names_of_set p name value [] h = cc
any-names_of_set p name value ((k, v) ∷ rest) h =
    ground (arith, any-names_of_set p name value rest, text_eq_iff k name)

any-updated :
    (p : Text → Bool) (headers extra : List (Text × Text))
    → (any p (names_of headers) || any p (names_of extra)) ≡ true
    → any p (names_of (updated headers extra)) ≡ true
unfolding updated any
any-updated p headers [] h = ground arith
any-updated p headers ((name, value) ∷ extra) h =
    any-updated p (dict_set name value headers) extra
      (ground (arith, any-names_of p name value headers, any-names_of_set p name value headers))

request_managed :
    (server : Server) (method path : Text) (headers : List Text) (c : HttpClient)
    → any is_managed headers ≡ true
    → request server method path true default headers c ≡ raised (validation_error managed_header) c
unfolding request validate_managed_headers translate
request_managed server method path headers c h = rw h refl

exchange_managed :
    (server : Server) (method path : Text) (headers : List Text) (c : HttpClient)
    → any is_managed headers ≡ true
    → exchange server method path headers c ≡ raised (validation_error managed_header) c
unfolding exchange
exchange_managed server method path headers c h =
    ground (arith, request_managed server method path headers c h)

-- `patch_raw` with an extra header that is Authorization or X-Auth-Token in whatever case of its
-- letters raises a validation error, sends nothing and leaves the client as it is.
pub patch_raw_managed :
    (server : Server) (path : Text) (extra : List (Text × Text)) (c : HttpClient)
    → any is_managed (names_of extra) ≡ true
    → patch_raw server path extra c ≡ raised (validation_error managed_header) c
unfolding patch_raw patch_headers any
patch_raw_managed server path extra c h =
    exchange_managed server (str "PATCH") path
      (names_of (patch_headers (get_etag path none c) extra)) c
      (any-updated is_managed ((str "If-Match", get_etag path none c) ∷ []) extra (ground arith))

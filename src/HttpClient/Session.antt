-- ===== src/HttpClient/Session.antt =====
-- The authentication state of the HTTP client and the checks of an answer in
-- redfish_sdk/http_client.py: `set_auth_token`, `reset_basic_auth`, `_validate_managed_headers`,
-- `_raise_for_status`, and the helpers of `_refresh_session`.
use redfish_python_sdk.Prelude.{
  ℕ, Bool, true, false, not, ◌&&◌, ◌||◌, Option, none, some, List, [], Text, str, text_eq, lower,
  any, is_empty, ltb, leb, ◌==◌, if◌then◌else◌,
}
use redfish_python_sdk.Exceptions.{
  Exc, redfish_exception, not_found, auth_error, connection_error, timeout_error, validation_error,
  read_timeout, connect_timeout, connection_failed, empty_token, managed_header, refresh_failed,
  request_failed,
}
use redfish_python_sdk.Result.{Result, ok}
use redfish_python_sdk.Exec.{Exec, raised, pure, raise, lift, gets, catch, modify, ◌>>=◌, ◌>>◌}
use redfish_python_sdk.HttpClient.Defs.{
  AuthenticationMode, basic, session, HttpClient, Response, get_header,
}
use redfish_python_sdk.HttpClient.Origin.{session_collection_from_location}

-- an option that is set and, as Python sees it, true
abbrev pub truthy : Option Text → Bool
truthy none = false
truthy (some s) = not (is_empty s)

abbrev pub or_else : Option Text → Text → Text
or_else none d = d
or_else (some s) d = s

-- The collection that `set_auth_token` stores.
unfoldable pub collection_for : Option Text → Option Text → Text → Result Text
collection_for session_collection_uri session_location current =
    if truthy session_collection_uri
    then ok (or_else session_collection_uri [])
    else if truthy session_location
    then session_collection_from_location session_location
    else ok current

-- `set_auth_token`
unfoldable pub set_auth_token :
    (token : Text) (session_location session_collection_uri username password : Option Text)
    → Exec HttpClient (Unit {0})
unfolding collection_for
set_auth_token token session_location session_collection_uri username password =
    if is_empty token then raise (validation_error empty_token) else do
      modify (λ c. record c {
        username = or_else username c.username;
        password = or_else password c.password;
      })
      current ← gets (λ c. c.session_collection_uri)
      collection ← lift (collection_for session_collection_uri session_location current)
      modify (λ c. record c {
        session_collection_uri = collection;
        auth_mode = session;
        session_key = some token;
        session_location = session_location;
        session_refresh_failure = none;
        authorization = none;
        x_auth_token = some token;
      })

-- `reset_basic_auth`
unfoldable pub reset_basic_auth : HttpClient → HttpClient
reset_basic_auth c = record c {
  auth_mode = basic;
  session_key = none;
  session_location = none;
  session_refresh_failure = none;
  x_auth_token = none;
  authorization = some c.basic_auth;
}

-- except Timeout → RedfishTimeoutError; except ConnectionError → RedfishConnectionError
unfoldable pub translated : Text → Exc → Exc
translated host read_timeout = timeout_error host
translated host connect_timeout = timeout_error host
translated host (connection_failed cause) = connection_error host cause
translated host e = e

unfoldable pub translate {ℓ} : {A : Type ℓ} → Exec HttpClient A → Exec HttpClient A
unfolding translated
translate m = catch m (λ e c. raised (translated c.host e) c)

unfoldable pub is_success : ℕ → Bool
is_success code = leb 200 code && ltb code 300

abbrev pub is_auth_failure : ℕ → Bool
is_auth_failure code = code == 401 || code == 403

-- `self._session_key != observed_session_key` for an observed key
abbrev pub is_other_key : Option Text → Option Text → Bool
is_other_key (some observed) (some current) = not (text_eq current observed)
is_other_key (some observed) none = true
is_other_key none current = false

abbrev pub same_key : Option Text → Option Text → Bool
same_key none none = true
same_key (some a) (some b) = text_eq a b
same_key _ _ = false

-- `_validate_managed_headers`, over the names of the headers
unfoldable pub validate_managed_headers : List Text → Exec HttpClient (Unit {0})
validate_managed_headers headers =
    if any
      (λ name.
        text_eq (lower name) (str "authorization") || text_eq (lower name) (str "x-auth-token"))
      headers
    then raise (validation_error managed_header)
    else pure tt

-- `_raise_for_status`
unfoldable pub raise_for_status : Response → Exec HttpClient (Unit {0})
unfolding is_success
raise_for_status response =
    let code = response.status_code in
    if is_success code || code == 302
    then pure tt
    else if is_auth_failure code
    then raise (auth_error code)
    else if code == 404
    then raise not_found
    else raise (redfish_exception code request_failed)

-- The answer to a refresh, read: the token and the location of the new session.
unfoldable pub accept_session : Response → Exec HttpClient (Unit {0})
unfolding set_auth_token is_success
accept_session response =
    if is_auth_failure response.status_code
    then raise (auth_error response.status_code)
    else if not (is_success response.status_code)
    then raise (redfish_exception response.status_code refresh_failed)
    else if not (truthy (get_header (str "X-Auth-Token") response.headers))
    then raise (auth_error 401)
    else do
      collection ← gets (λ c. c.session_collection_uri)
      set_auth_token (or_else (get_header (str "X-Auth-Token") response.headers) [])
          (get_header (str "Location") response.headers) (some collection) none none

abbrev pub stored_failure : Option Text → HttpClient → Option Exc
stored_failure observed c = elim c.session_refresh_failure [
  | none ↦ none
  | some (key, failure) ↦ if same_key key observed then some failure else none
]

abbrev pub retry_or_raise : Option Exc → Exec HttpClient (Unit {0}) → Exec HttpClient (Unit {0})
retry_or_raise none m = m
retry_or_raise (some failure) m = raise failure

abbrev pub is_session : AuthenticationMode → Bool
is_session session = true
is_session basic = false

abbrev pub is_unset : Option Text → Bool
is_unset none = true
is_unset (some _) = false

abbrev pub shut : HttpClient → HttpClient
shut c = record c { closed = true }

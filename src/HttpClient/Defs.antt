-- ===== src/HttpClient/Defs.antt =====
-- The state of `RedfishHttpClient`, the requests that it hands to the `requests` library, and the
-- library's answers. redfish_sdk/http_client.py, auth.py, retry.py.
use redfish_python_sdk.Prelude.{
  ℕ, Bool, not, Option, none, some, List, [], ◌∷◌, Text, text_eq, lower, if◌then◌else◌,
}
use redfish_python_sdk.Exceptions.{Exc, read_timeout, connect_timeout, connection_failed}
use redfish_python_sdk.Exec.{Exec, returned, pure, raise}
use redfish_python_sdk.Json.{Json}

-- `AuthenticationMode`
pub data AuthenticationMode : Type 0 where
  basic session : AuthenticationMode

-- `RetryPolicy`
pub data RetryPolicy : Type 0 where
  default idempotent : RetryPolicy

-- The part of a `requests.Response` that the SDK reads; `json` is none where `response.json()`
-- raises ValueError.
pub record Response : Type 0 where
  pub status_code : ℕ
  pub headers : List (Text × Text)
  pub text : Text
  pub json : Option Json

-- `response.headers.get(name)`: a CaseInsensitiveDict
unfoldable pub get_header : Text → List (Text × Text) → Option Text
get_header name [] = none
get_header name ((k, v) ∷ rest) =
    if text_eq (lower k) (lower name) then some v else get_header name rest

-- What a call of a verb of a `requests.Session` does.
pub data Outcome : Type 0 where
  answered : Response → Outcome
  read_timed_out connect_timed_out : Outcome
  unconnected : (cause : Text) → Outcome

-- A request that left the SDK: `external` is set for the credential-free session.
pub record Sent : Type 0 where
  pub method : Text
  pub url : Text
  pub external : Bool
  pub authorization : Option Text
  pub x_auth_token : Option Text

-- The other end: an answer to each request, in view of all the earlier ones, newest first.
abbrev pub Server : Type 0
Server = List Sent → Outcome

-- `RedfishHttpClient`: its fields, with the two headers of `_session` that carry credentials, the
-- requests that were sent and the pauses that were slept, newest first.
pub record HttpClient : Type 0 where
  pub host : Text
  pub scheme : Text
  pub retry_5xx : ℕ
  pub retry_on_read_timeout : Bool
  pub retry_backoff : ℕ
  pub username : Text
  pub password : Text
  pub basic_auth : Text
  pub auth_mode : AuthenticationMode
  pub session_key : Option Text
  pub session_location : Option Text
  pub session_collection_uri : Text
  pub session_refresh_failure : Option (Option Text × Exc)
  pub authorization : Option Text
  pub x_auth_token : Option Text
  pub last_etag : List (Text × Text)
  pub sent : List Sent
  pub slept : List ℕ
  pub closed : Bool

-- One call of the network: the request is logged, and the server answers it.
unfoldable pub transmit : Server → Sent → Exec HttpClient Outcome
transmit server request c =
    returned (server (request ∷ c.sent)) (record c { sent = request ∷ c.sent })

-- `self._session` sends its credential headers, `self._external_session` has none.
unfoldable pub session_request : Text → Text → Bool → HttpClient → Sent
session_request method url authenticated c = record {
  method = method;
  url = url;
  external = not authenticated;
  authorization = if authenticated then c.authorization else none;
  x_auth_token = if authenticated then c.x_auth_token else none;
}

-- What the caller of a verb of a session gets: the response, or an exception of `requests`.
abbrev pub deliver : Outcome → Exec HttpClient Response
deliver (answered r) = pure r
deliver read_timed_out = raise read_timeout
deliver connect_timed_out = raise connect_timeout
deliver (unconnected cause) = raise (connection_failed cause)

-- ===== src/HttpClient/Init.antt =====
-- The constructor of `RedfishHttpClient` in redfish_sdk/http_client.py.
use redfish_python_sdk.Prelude.{
  ℕ, Bool, false, Option, none, some, [], ◌++◌, Text, str, lower, is_empty,
}
use redfish_python_sdk.Exceptions.{validation_error, empty_session_key, empty_session_location}
use redfish_python_sdk.Result.{Result, ok, err, ◌>>=◌, ◌>>◌, raise_if}
use redfish_python_sdk.Exec.{Run, returned, raised}
use redfish_python_sdk.Base64.{b64encode, encode}
use redfish_python_sdk.HttpClient.Defs.{AuthenticationMode, basic, session, HttpClient}
use redfish_python_sdk.HttpClient.Origin.{
  validate_endpoint, resolve_url, session_collection_from_location,
}
use redfish_python_sdk.HttpClient.Session.{set_auth_token}

-- The arguments that bear on behaviour. `retry_5xx` is what `max(int(retry_5xx), 0)` leaves.
pub record Arguments : Type 0 where
  pub host : Text
  pub username : Text
  pub password : Text
  pub scheme : Text
  pub retry_5xx : ℕ
  pub retry_on_read_timeout : Bool
  pub retry_backoff : ℕ
  pub allow_insecure_http_auth : Option Bool
  pub auth_mode : AuthenticationMode
  pub session_key : Option Text
  pub session_location : Option Text

-- given, and the empty text
abbrev pub is_blank : Option Text → Bool
is_blank none = false
is_blank (some s) = is_empty s

unfoldable pub basic_header : Text → Text → Text
unfolding b64encode encode
basic_header username password =
    str "Basic " ++ b64encode (encode (username ++ str ":" ++ password))

abbrev pub effective_mode : Arguments → AuthenticationMode
effective_mode a = elim a.session_key [ none ↦ a.auth_mode | some _ ↦ session ]

-- The client before the headers of its session are chosen.
unfoldable pub blank_client : Arguments → Text → HttpClient
unfolding basic_header lower
blank_client a collection = record {
  host = a.host;
  scheme = lower a.scheme;
  retry_5xx = a.retry_5xx;
  retry_on_read_timeout = a.retry_on_read_timeout;
  retry_backoff = a.retry_backoff;
  username = a.username;
  password = a.password;
  basic_auth = basic_header a.username a.password;
  auth_mode = effective_mode a;
  session_key = none;
  session_location = none;
  session_collection_uri = collection;
  session_refresh_failure = none;
  authorization = none;
  x_auth_token = none;
  last_etag = [];
  sent = [];
  slept = [];
  closed = false;
}

abbrev pub state_of : Run HttpClient (Unit {0}) → Result HttpClient
state_of (returned _ c) = ok c
state_of (raised e _) = err e

abbrev pub with_credentials :
    AuthenticationMode → Option Text → Option Text → HttpClient → Result HttpClient
with_credentials basic _ _ c = ok (record c { authorization = some c.basic_auth })
with_credentials session none _ c = ok c
with_credentials session (some key) location c =
    state_of (set_auth_token key location none none none c)

abbrev pub check_location : HttpClient → Option Text → Result (Unit {0})
check_location c none = ok tt
check_location c (some location) = do _ ← resolve_url c location; ok tt

-- `__init__`
unfoldable pub init : Arguments → Result HttpClient
unfolding validate_endpoint blank_client set_auth_token resolve_url session_collection_from_location
init a = do
  validate_endpoint a.host a.scheme a.allow_insecure_http_auth
  raise_if (is_blank a.session_key) (validation_error empty_session_key)
  raise_if (is_blank a.session_location) (validation_error empty_session_location)
  check_location (blank_client a []) a.session_location
  collection ← session_collection_from_location a.session_location
  with_credentials (effective_mode a) a.session_key a.session_location (blank_client a collection)

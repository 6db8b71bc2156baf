-- ===== src/HttpClient/Tests.antt =====
-- redfish_sdk/http_client.py on concrete servers.
use redfish_python_sdk.Prelude.{
  lower, dict_get, dict_set, ℕ, ◌≤◌, ◌≡◌, refl, true, false, none, some, List, [], ◌∷◌, Text, str,
  ltb, if◌then◌else◌, All, length, arith, text_eq, strip, any, starts_with,
}
use redfish_python_sdk.Exceptions.{auth_error, validation_error, managed_header}
use redfish_python_sdk.Result.{ok}
use redfish_python_sdk.Exec.{returned, raised, end_state}
use redfish_python_sdk.Url.{urlsplit, urlunsplit, port, hostname, username, password}
use redfish_python_sdk.HttpClient.Defs.{
  session, default, HttpClient, Server, Sent, Response, answered, session_request, get_header,
}
use redfish_python_sdk.HttpClient.Retry.{send_loop, can_retry}
use redfish_python_sdk.HttpClient.Retry.Laws.{IsRetried, send_loop-IsRetried, send_loop_single_shot}
use redfish_python_sdk.HttpClient.Origin.{resolve_url, validate_endpoint}
use redfish_python_sdk.HttpClient.Verbs.{get_etag, store_etag, patch_raw}
use redfish_python_sdk.HttpClient.Verbs.Laws.{get_etag-store_etag, patch_raw_managed}
use redfish_python_sdk.HttpClient.Session.{or_else, truthy}
use redfish_python_sdk.HttpClient.Auth.{refresh_session, request}
use redfish_python_sdk.HttpClient.Auth.Refresh.{
  refresh_session_failure, refresh_session_success, refresh_all, refresh_all_single_flight,
  NeverIssues,
}
use redfish_python_sdk.HttpClient.Auth.Consistent.{IsConsistent}
use redfish_python_sdk.HttpClient.Auth.Writes.{own_count, request_write_once}
use redfish_python_sdk.HttpClient.Init.{Arguments, init}
use redfish_python_sdk.HttpClient.Lifecycle.{Reach, here, next, calls, Reach-IsConsistent}
use redfish_python_sdk.HttpClient.Redirects.{Redirect, rebuild_auth, wire, IsAtHome}
use redfish_python_sdk.HttpClient.Downloads.{Paths}
use redfish_python_sdk.HttpClient.Calls.{after_verb, gets_json}
use redfish_python_sdk.HttpClient.Lifecycle.Credentials.{address, credentials_stay_home}

urls : Unit {0}
unfolding init resolve_url can_retry refresh_session text_eq strip any urlsplit urlunsplit port
    hostname username password starts_with
urls = tt

abbrev arguments : Arguments
arguments = record {
  host = str "bmc";
  username = str "root";
  password = str "pw";
  scheme = str "https";
  retry_5xx = 2;
  retry_on_read_timeout = true;
  retry_backoff = 3;
  allow_insecure_http_auth = none;
  auth_mode = session;
  session_key = some (str "old");
  session_location = some (str "/redfish/v1/SessionService/Sessions/1");
}

abbrev client : HttpClient
client = record {
  host = str "bmc";
  scheme = str "https";
  retry_5xx = 2;
  retry_on_read_timeout = true;
  retry_backoff = 3;
  username = str "root";
  password = str "pw";
  basic_auth = str "Basic cm9vdDpwdw==";
  auth_mode = session;
  session_key = some (str "old");
  session_location = some (str "/redfish/v1/SessionService/Sessions/1");
  session_collection_uri = str "/redfish/v1/SessionService/Sessions";
  session_refresh_failure = none;
  authorization = none;
  x_auth_token = some (str "old");
  last_etag = [];
  sent = [];
  slept = [];
  closed = false;
}

abbrev answer : ℕ → List (Text × Text) → Response
answer code headers = record { status_code = code; headers = headers; text = []; json = none }

-- 503 for the first two requests
abbrev busy : Server
busy history = answered (answer (if ltb (length history) 3 then 503 else 200) [])

-- 401 for every request without a new token, and a login that hands one out
abbrev expired : Server
expired history = answered (answer 401 [])

abbrev issuing : Server
issuing history = answered (answer 201 ((str "X-Auth-Token", str "new") ∷ []))

init_test : init arguments ≡ ok client
unfolding urls
init_test = refl

send_loop-IsRetried_example :
    IsRetried busy
      (str "GET")
      (str "https://bmc/redfish")
      true
      default
      client
      1
      3
      (send_loop busy (str "GET") (str "https://bmc/redfish") true default client)
send_loop-IsRetried_example =
    send_loop-IsRetried busy (str "GET") (str "https://bmc/redfish") true default client

send_loop_single_shot_example :
    send_loop busy (str "POST") (str "https://bmc/redfish") true default client
    ≡ returned (answer 503 []) (record client {
      sent = session_request (str "POST") (str "https://bmc/redfish") true client ∷ [];
    })
unfolding urls
send_loop_single_shot_example =
    send_loop_single_shot busy (str "POST") (str "https://bmc/redfish") true default client refl

request_write_once_example :
    own_count
      (end_state
        (request expired (str "POST") (str "/redfish/v1/Systems") true default [] client)).sent
    ≤ 1
unfolding urls own_count
request_write_once_example =
    request_write_once expired (str "POST") (str "/redfish/v1/Systems") true default [] refl client

-- The client after a login that was refused.
abbrev refused : HttpClient
refused = end_state (refresh_session expired (some (str "old")) client)

refresh_session_failure_example :
    refresh_session expired (some (str "old")) refused ≡ raised (auth_error 401) refused
unfolding urls
refresh_session_failure_example =
    refresh_session_failure expired (some (str "old")) client refused (auth_error 401) refl

refresh_session_success_example :
    refresh_session issuing (some (str "older")) client ≡ returned tt client
refresh_session_success_example =
    refresh_session_success issuing (str "older") client (λ e. absurd (cc e))

issuing-NeverIssues : NeverIssues issuing (str "old")
unfolding get_header
issuing-NeverIssues history r e f = ground arith

refresh_all_single_flight_example :
    (refresh_all issuing 3 (some (str "old")) client
      ≡ end_state (refresh_session issuing (some (str "old")) client))
    × (length (refresh_all issuing 3 (some (str "old")) client).sent ≤ 1)
refresh_all_single_flight_example =
    refresh_all_single_flight issuing (str "old") 2 client issuing-NeverIssues

-- A read whose answer holds an ETag, on a computer whose paths are all resolved.
abbrev paths : Paths
paths = record { abspath = λ p. p; realpath = λ p. p; isdir = λ _. false }

abbrev unquote : Text → Text
unquote p = p

abbrev visited : HttpClient
visited = after_verb issuing paths unquote (gets_json (str "/redfish/v1")) client

abbrev visit : Reach issuing client visited
visit = next here (calls client paths unquote (gets_json (str "/redfish/v1")))

Reach-IsConsistent_example : IsConsistent visited
Reach-IsConsistent_example = Reach-IsConsistent issuing arguments client _ init_test visit

-- Every request is redirected to a host of someone else.
abbrev elsewhere : List Sent → List Redirect
elsewhere log = (str "GET", str "https://other/x") ∷ []

credentials_stay_home_example :
    All (IsAtHome (address arguments)) (wire (λ _ _. false) elsewhere visited.sent)
credentials_stay_home_example =
    credentials_stay_home issuing (λ _ _. false) elsewhere arguments client _ init_test visit

-- The request that follows has lost both headers.
rebuild_auth_test :
    rebuild_auth
      (λ _ _. false)
      (session_request (str "GET") (str "https://bmc/redfish") true client)
      (str "GET", str "https://other/x")
    ≡ ok (record (session_request (str "GET") (str "https://bmc/redfish") true client) {
      url = str "https://other/x";
      authorization = none;
      x_auth_token = none;
    })
unfolding urls rebuild_auth
rebuild_auth_test = refl

abbrev tagged : Response
tagged = answer 200 ((str "etag", str "W/7") ∷ [])

get_etag-store_etag_example :
    (get_etag (str "/a") none (store_etag (str "/a") tagged client) ≡ (
      if truthy (get_header (str "ETag") tagged.headers)
      then or_else (get_header (str "ETag") tagged.headers) []
      else get_etag (str "/a") none client))
    × (get_etag (str "/") none (store_etag (str "/a") tagged client)
        ≡ get_etag (str "/") none client)
get_etag-store_etag_example =
    get_etag-store_etag (str "/a") (str "/") tagged client (λ e. absurd (cc e))

get_etag_test : get_etag (str "/a") none (store_etag (str "/a") tagged client) ≡ str "W/7"
unfolding get_etag store_etag urls get_header lower dict_get dict_set
get_etag_test = refl

patch_raw_managed_example :
    patch_raw issuing (str "/redfish/v1") ((str "X-AUTH-token", str "mine") ∷ []) client
    ≡ raised (validation_error managed_header) client
unfolding urls any lower
patch_raw_managed_example =
    patch_raw_managed issuing (str "/redfish/v1") ((str "X-AUTH-token", str "mine") ∷ []) client
      refl

-- A host with an empty query passes, and takes the path of every request for its query.
validate_endpoint_test : validate_endpoint (str "bmc?") (str "https") none ≡ ok tt
unfolding urls validate_endpoint
validate_endpoint_test = refl

empty_query_test :
    resolve_url (record client { host = str "bmc?" }) (str "/redfish/v1")
    ≡ ok (str "https://bmc?/redfish/v1")
unfolding urls
empty_query_test = refl

-- ===== src/HttpClient/Lifecycle/Credentials.antt =====
-- Where the credentials of a client can go, from its construction on.
use redfish_python_sdk.Prelude.{◌≡◌, Bool, List, Option, [], Text, str, arith, lower, ◌++◌, All}
use redfish_python_sdk.Result.{Result, ok, err, ◌>>=◌, >>-eq-ok, raise_if}
use redfish_python_sdk.Exec.{end_state}
use redfish_python_sdk.HttpClient.Defs.{HttpClient, Server, Sent}
use redfish_python_sdk.HttpClient.Session.{set_auth_token, reset_basic_auth, shut}
use redfish_python_sdk.HttpClient.Auth.{clear_active_session}
use redfish_python_sdk.HttpClient.Auth.Frame.{
  request-Keeps, refresh_session-Keeps, logout-Keeps, close-Keeps,
}
use redfish_python_sdk.HttpClient.Auth.Safe.{IsSafe, IsSafe-refreshing, IsSafe-sending}
use redfish_python_sdk.HttpClient.Init.{
  Arguments, init, blank_client, with_credentials, effective_mode, check_location, is_blank,
}
use redfish_python_sdk.HttpClient.Origin.{
  validate_endpoint, session_collection_from_location, base_url,
}
use redfish_python_sdk.HttpClient.Verbs.Frame.{stores-IsSafe}
use redfish_python_sdk.HttpClient.Calls.{after_verb-keeps}
use redfish_python_sdk.HttpClient.Redirects.{Redirect, wire, IsAtHome, wire-IsAtHome}
use redfish_python_sdk.HttpClient.Lifecycle.{
  Step, calls, requests, refreshes, sets_token, resets, clears, logs_out, closes, Reach, here, next,
}

reset_basic_auth-IsSafe :
    (base : Text) (c : HttpClient) → IsSafe base c → IsSafe base (reset_basic_auth c)
unfolding reset_basic_auth base_url
reset_basic_auth-IsSafe base c h = record { at_base = h.at_base; guarded = h.guarded }

shut-IsSafe : (base : Text) (c : HttpClient) → IsSafe base c → IsSafe base (shut c)
unfolding base_url
shut-IsSafe base c h = record { at_base = h.at_base; guarded = h.guarded }

clear_active_session-IsSafe :
    (base location : Text) (c : HttpClient)
    → IsSafe base c
    → IsSafe base (end_state (clear_active_session location c))
unfolding clear_active_session
clear_active_session-IsSafe base location c h =
    let r = reset_basic_auth-IsSafe base c h in ground arith

Step-IsSafe :
    {server : Server} {c d : HttpClient} (base : Text)
    → Step server c d
    → IsSafe base c
    → IsSafe base d
Step-IsSafe {server} base (calls c paths unquote verb) h =
    after_verb-keeps (IsSafe-refreshing base) (IsSafe-sending base) (stores-IsSafe base) server
      paths unquote verb c h
Step-IsSafe {server} base (requests c method path authenticated policy headers) h =
    (request-Keeps (IsSafe-refreshing base) (IsSafe-sending base) server method path authenticated
        policy headers).at
      c h
Step-IsSafe {server} base (refreshes c observed) h =
    (refresh_session-Keeps (IsSafe-refreshing base) server observed).at c h
Step-IsSafe base (sets_token c token location collection username password) h =
    ((IsSafe-refreshing base).token token location collection username password).at c h
Step-IsSafe base (resets c) h = reset_basic_auth-IsSafe base c h
Step-IsSafe base (clears c location) h = clear_active_session-IsSafe base location c h
Step-IsSafe {server} base (logs_out c suppress_errors) h =
    (logout-Keeps (IsSafe-refreshing base) (IsSafe-sending base) server
        (reset_basic_auth-IsSafe base) suppress_errors).at
      c h
Step-IsSafe {server} base (closes c) h =
    (close-Keeps (IsSafe-refreshing base) (IsSafe-sending base) server
        (reset_basic_auth-IsSafe base) (shut-IsSafe base)).at
      c h

Reach-IsSafe :
    {server : Server} {c d : HttpClient} (base : Text)
    → Reach server c d
    → IsSafe base c
    → IsSafe base d
Reach-IsSafe base here h = h
Reach-IsSafe base (next r st) h = Step-IsSafe base st (Reach-IsSafe base r h)

-- The address that the arguments name.
abbrev pub address : Arguments → Text
address a = lower a.scheme ++ str "://" ++ a.host

with_credentials-IsSafe :
    (key location : Option Text) (a : Arguments) (collection : Text) (c : HttpClient)
    → with_credentials (effective_mode a) a.session_key location (blank_client a collection) ≡ ok c
    → IsSafe (address a) c
unfolding blank_client set_auth_token base_url
with_credentials-IsSafe key location a collection c e = record {
  at_base = ground arith;
  guarded = (let e : c.sent ≡ [] = ground arith in rw e tt);
}

with_collection-IsSafe :
    (r : Result Text) (a : Arguments) (c : HttpClient)
    → (r >>= λ collection.
        with_credentials
          (effective_mode a)
          a.session_key
          a.session_location
          (blank_client a collection))
      ≡ ok c
    → IsSafe (address a) c
with_collection-IsSafe (ok collection) a c e =
    with_credentials-IsSafe a.session_key a.session_location a collection c e
with_collection-IsSafe (err x) a c e = cc

init-IsSafe : (a : Arguments) (c : HttpClient) → init a ≡ ok c → IsSafe (address a) c
unfolding init
init-IsSafe a c e =
    with_collection-IsSafe (session_collection_from_location a.session_location) a c (
      >>-eq-ok (check_location (blank_client a []) a.session_location) _ (
        >>-eq-ok (raise_if (is_blank a.session_location) _) _ (
          >>-eq-ok (raise_if (is_blank a.session_key) _) _
            (>>-eq-ok (validate_endpoint a.host a.scheme a.allow_insecure_http_auth) _ e))))

-- Whatever calls follow the construction of a client, the public verbs among them, and whatever the
-- servers answer, redirects included: every request that leaves, those that follow a redirect among
-- them, carries neither an Authorization nor an X-Auth-Token header, or it goes home. Its URL is
-- then written from a split target whose scheme, host name and effective port are those of the
-- address that the client was built with, and which names no user and no password, or _same_origin
-- holds of such a URL and this one.
pub credentials_stay_home :
    (server : Server) (should_strip_auth : Text → Text → Bool)
    (redirects : List Sent → List Redirect) (a : Arguments) (c d : HttpClient)
    → init a ≡ ok c
    → Reach server c d
    → All (IsAtHome (address a)) (wire should_strip_auth redirects d.sent)
credentials_stay_home server should_strip_auth redirects a c d e r =
    wire-IsAtHome should_strip_auth (address a) redirects d.sent
      (Reach-IsSafe (address a) r (init-IsSafe a c e)).guarded

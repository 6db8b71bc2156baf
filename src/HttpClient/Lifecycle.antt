-- ===== src/HttpClient/Lifecycle.antt =====
-- A client from its construction on: every sequence of its methods, against every server.
pub mod Credentials
use redfish_python_sdk.Prelude.{
  ℕ, ◌≡◌, refl, ◌⊎◌, inl, inr, Bool, true, false, Option, none, some, List, [], Text, arith,
  if◌then◌else◌,
}
use redfish_python_sdk.Result.{Result, ok, err, ◌>>=◌, >>-eq-ok, raise_if}
use redfish_python_sdk.Exec.{end_state}
use redfish_python_sdk.Exec.Keeps.{Keeps}
use redfish_python_sdk.HttpClient.Defs.{basic, session, HttpClient, Server, RetryPolicy}
use redfish_python_sdk.HttpClient.Session.{set_auth_token, reset_basic_auth}
use redfish_python_sdk.HttpClient.Auth.{
  clear_active_session, request, refresh_session, logout, close,
}
use redfish_python_sdk.HttpClient.Auth.Frame.{
  request-Keeps, refresh_session-Keeps, logout-Keeps, close-Keeps,
}
use redfish_python_sdk.HttpClient.Auth.Consistent.{
  IsConsistent, IsConsistent-refreshing, IsConsistent-sending, reset_basic_auth-IsConsistent,
  clear_active_session-IsConsistent,
}
use redfish_python_sdk.HttpClient.Verbs.{store_etag}
use redfish_python_sdk.HttpClient.Verbs.Frame.{StoresEtags}
use redfish_python_sdk.HttpClient.Downloads.{Paths}
use redfish_python_sdk.HttpClient.Calls.{Verb, after_verb, after_verb-keeps}
use redfish_python_sdk.HttpClient.Init.{
  Arguments, init, blank_client, with_credentials, effective_mode, check_location, is_blank,
}
use redfish_python_sdk.HttpClient.Origin.{validate_endpoint, session_collection_from_location}

-- One call of a method of the client; the call may raise. `requests` is `_request`, through which
-- all else goes, and `calls` a public verb, on any file system.
pub data Step (server : Server) : HttpClient → HttpClient → Type 1 where
  calls :
      (c : HttpClient) (paths : Paths) (unquote : Text → Text) (verb : Verb)
      → Step server c (after_verb server paths unquote verb c)
  requests :
      (c : HttpClient) (method path : Text) (authenticated : Bool) (policy : RetryPolicy)
      (headers : List Text)
      → Step server c (end_state (request server method path authenticated policy headers c))
  refreshes :
      (c : HttpClient) (observed : Option Text)
      → Step server c (end_state (refresh_session server observed c))
  sets_token :
      (c : HttpClient) (token : Text) (location collection username password : Option Text)
      → Step server c (end_state (set_auth_token token location collection username password c))
  resets : (c : HttpClient) → Step server c (reset_basic_auth c)
  clears :
      (c : HttpClient) (location : Text)
      → Step server c (end_state (clear_active_session location c))
  logs_out :
      (c : HttpClient) (suppress_errors : Bool)
      → Step server c (end_state (logout server suppress_errors c))
  closes : (c : HttpClient) → Step server c (end_state (close server c))

pub data Reach (server : Server) (c : HttpClient) : HttpClient → Type 1 where
  here : Reach server c c
  next : {d e : HttpClient} → Reach server c d → Step server d e → Reach server c e

stores-IsConsistent : StoresEtags IsConsistent
unfolding store_etag
stores-IsConsistent path response c h = ground arith

Step-IsConsistent :
    {server : Server} {c d : HttpClient} → Step server c d → IsConsistent c → IsConsistent d
Step-IsConsistent {server} (calls c paths unquote verb) h =
    after_verb-keeps IsConsistent-refreshing IsConsistent-sending stores-IsConsistent server paths
      unquote verb c h
Step-IsConsistent {server} (requests c method path authenticated policy headers) h =
    (request-Keeps IsConsistent-refreshing IsConsistent-sending server method path authenticated
        policy headers).at
      c h
Step-IsConsistent {server} (refreshes c observed) h =
    (refresh_session-Keeps IsConsistent-refreshing server observed).at c h
Step-IsConsistent (sets_token c token location collection username password) h =
    (IsConsistent-refreshing.token token location collection username password).at c h
Step-IsConsistent (resets c) h = reset_basic_auth-IsConsistent c
Step-IsConsistent (clears c location) h = (clear_active_session-IsConsistent location).at c h
Step-IsConsistent {server} (logs_out c suppress_errors) h =
    (logout-Keeps IsConsistent-refreshing IsConsistent-sending server
        (λ c _. reset_basic_auth-IsConsistent c) suppress_errors).at
      c h
Step-IsConsistent {server} (closes c) h =
    (close-Keeps IsConsistent-refreshing IsConsistent-sending server
        (λ c _. reset_basic_auth-IsConsistent c) (λ c h. h)).at
      c h

with_credentials-IsConsistent :
    (key location : Option Text) (a : Arguments) (collection : Text) (c : HttpClient)
    → with_credentials (effective_mode a) a.session_key location (blank_client a collection) ≡ ok c
    → IsConsistent c
unfolding blank_client set_auth_token
with_credentials-IsConsistent key location a collection c e = ground arith

with_collection-IsConsistent :
    (r : Result Text) (a : Arguments) (c : HttpClient)
    → (r >>= λ collection.
        with_credentials
          (effective_mode a)
          a.session_key
          a.session_location
          (blank_client a collection))
      ≡ ok c
    → IsConsistent c
with_collection-IsConsistent (ok collection) a c e =
    with_credentials-IsConsistent a.session_key a.session_location a collection c e
with_collection-IsConsistent (err x) a c e = cc

init-IsConsistent : (a : Arguments) (c : HttpClient) → init a ≡ ok c → IsConsistent c
unfolding init
init-IsConsistent a c e =
    with_collection-IsConsistent (session_collection_from_location a.session_location) a c (
      >>-eq-ok (check_location (blank_client a []) a.session_location) _ (
        >>-eq-ok (raise_if (is_blank a.session_location) _) _ (
          >>-eq-ok (raise_if (is_blank a.session_key) _) _
            (>>-eq-ok (validate_endpoint a.host a.scheme a.allow_insecure_http_auth) _ e))))

-- Whatever calls follow the construction of a client, the public verbs among them, and whatever the
-- server answers: in basic mode the session has the Basic header and no token, and no session key
-- is stored; in session mode the session has no Basic header, and its token header is the stored
-- session key.
pub Reach-IsConsistent :
    (server : Server) (a : Arguments) (c d : HttpClient)
    → init a ≡ ok c
    → Reach server c d
    → IsConsistent d
Reach-IsConsistent server a c d e here = init-IsConsistent a c e
Reach-IsConsistent server a c d e (next r st) =
    Step-IsConsistent st (Reach-IsConsistent server a c _ e r)

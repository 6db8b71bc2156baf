-- ===== src/HttpClient/Auth.antt =====
-- The calls that a session takes in redfish_sdk/http_client.py: `_refresh_session`, `_send`,
-- `_request`, `logout`, `close` and `clear_active_session`.
pub mod Frame
pub mod Consistent
pub mod Refresh
pub mod Writes
pub mod Safe
use redfish_python_sdk.Prelude.{
  ℕ, ◌≡◌, refl, Bool, true, false, not, ◌&&◌, ◌||◌, Option, none, some, List, [], ◌∷◌, Text, str,
  text_eq, lower, any, is_empty, ltb, leb, ◌==◌, if◌then◌else◌,
}
use redfish_python_sdk.Exceptions.{
  Exc, Reason, redfish_exception, not_found, auth_error, connection_error, timeout_error,
  validation_error, read_timeout, connect_timeout, connection_failed, empty_token, managed_header,
  refresh_failed, request_failed,
}
use redfish_python_sdk.Result.{Result, ok, err}
use redfish_python_sdk.Exec.{
  Exec, Run, returned, raised, pure, raise, lift, gets, catch, modify, ◌>>=◌, ◌>>◌, end_state,
}
use redfish_python_sdk.HttpClient.Defs.{
  AuthenticationMode, basic, session, RetryPolicy, default, HttpClient, Server, Response, Sent,
  transmit, session_request, get_header, deliver,
}
use redfish_python_sdk.HttpClient.Origin.{
  resolve_url, validate_external_url, session_collection_from_location, rstrip_slash,
}
use redfish_python_sdk.HttpClient.Retry.{is_read_method, send_loop}
use redfish_python_sdk.HttpClient.Session.{
  truthy, or_else, collection_for, set_auth_token, reset_basic_auth, translated, translate,
  is_success, is_auth_failure, is_other_key, same_key, validate_managed_headers, raise_for_status,
  accept_session, stored_failure, retry_or_raise, is_session, is_unset, shut,
}

module _ (server : Server) where
  -- One call of a verb of a session.
  unfoldable pub call_session : Text → Text → Bool → Exec HttpClient Response
  unfolding transmit session_request
  call_session method url authenticated = do
    outcome ← λ c. transmit server (session_request method url authenticated c) c
    deliver outcome

  -- The outer `try` of `_refresh_session`, where no failure for the observed key is stored.
  unfoldable pub renew_session : Exec HttpClient (Unit {0})
  unfolding call_session accept_session translate
  renew_session = do
    response ← translate (do
      uri ← gets (λ c. c.session_collection_uri)
      url ← λ c. lift (resolve_url c uri) c
      call_session (str "POST") url false)
    accept_session response

  -- `_refresh_session`, run under its lock.
  unfoldable pub refresh_session : Option Text → Exec HttpClient (Unit {0})
  unfolding renew_session
  refresh_session observed c =
      if is_other_key observed c.session_key
      then returned tt c
      else catch (retry_or_raise (stored_failure observed c) renew_session)
          (λ e c'. raised e (record c' { session_refresh_failure = some (observed, e) })) c

  -- `_send`
  unfoldable pub send : Text → Text → Bool → RetryPolicy → List Text → Exec HttpClient Response
  unfolding validate_managed_headers
  send method path authenticated policy headers = do
    validate_managed_headers headers
    url ← λ c. lift (if authenticated then resolve_url c path else validate_external_url path) c
    send_loop server method url authenticated policy

  -- The repetition of a read that was answered 401.
  unfoldable pub after_unauthorized :
      Text
      → Text
      → Bool
      → RetryPolicy
      → List Text
      → Option Text
      → Response
      → Exec HttpClient Response
  unfolding refresh_session send
  after_unauthorized method path authenticated policy headers observed response c =
      if authenticated
        && is_read_method method
        && response.status_code == 401
        && is_session c.auth_mode
      then (do refresh_session observed; send method path authenticated policy headers) c
      else returned response c

  abbrev pub ensure_session : Bool → Exec HttpClient (Unit {0})
  ensure_session authenticated c =
      if authenticated && is_session c.auth_mode && is_unset c.session_key
      then refresh_session none c
      else returned tt c

  -- `_request`
  unfoldable pub request : Text → Text → Bool → RetryPolicy → List Text → Exec HttpClient Response
  unfolding validate_managed_headers refresh_session send after_unauthorized translate
  request method path authenticated policy headers = translate (do
    validate_managed_headers headers
    ensure_session authenticated
    observed ← gets (λ c. c.session_key)
    response ← send method path authenticated policy headers
    after_unauthorized method path authenticated policy headers observed response)

  -- The `try` of `logout`.
  unfoldable pub delete_session : Exec HttpClient (Unit {0})
  unfolding send raise_for_status
  delete_session = do
    location ← gets (λ c. c.session_location)
    if truthy location
        then (do
          response ← send (str "DELETE") (or_else location []) true default []
          raise_for_status response)
        else pure tt

  -- `logout`
  unfoldable pub logout : Bool → Exec HttpClient (Unit {0})
  unfolding delete_session reset_basic_auth
  logout suppress_errors c = elim (delete_session c) [
    | returned _ c' ↦ returned tt (reset_basic_auth c')
    | raised e c' ↦
        if suppress_errors
        then returned tt (reset_basic_auth c')
        else raised e (reset_basic_auth c')
  ]

  -- `close`
  unfoldable pub close : Exec HttpClient (Unit {0})
  unfolding logout
  close c = elim (if is_session c.auth_mode then logout true c else returned tt c) [
    | returned _ c' ↦ returned tt (shut c')
    | raised e c' ↦ raised e (shut c')
  ]

abbrev pub validation_only : Exc → Bool
validation_only (validation_error _) = true
validation_only _ = false

-- `clear_active_session`
unfoldable pub clear_active_session : Text → Exec HttpClient (Unit {0})
unfolding reset_basic_auth
clear_active_session session_location c =
    if not (truthy c.session_location)
    then returned tt c
    else elim (resolve_url c (or_else c.session_location [])) [
      | err e ↦ if validation_only e then returned tt c else raised e c
      | ok active ↦ elim (resolve_url c session_location) [
        | err e ↦ if validation_only e then returned tt c else raised e c
        | ok deleted ↦
            if text_eq (rstrip_slash active) (rstrip_slash deleted)
            then returned tt (reset_basic_auth c)
            else returned tt c
      ]
    ]

-- ===== src/HttpClient/Auth/Writes.antt =====
-- `_request` never replays a write: not for a failed answer, and not for a renewed session.
use redfish_python_sdk.Prelude.{
  ℕ, suc, ◌≤◌, ◌≡◌, refl, Bool, false, Option, List, [], ◌∷◌, Text, arith, if◌then◌else◌,
}
use redfish_python_sdk.Result.{Result, ok, err}
use redfish_python_sdk.Exec.{Exec, Run, returned, raised, end_state}
use redfish_python_sdk.Exec.Keeps.{bind_ends}
use redfish_python_sdk.HttpClient.Defs.{
  RetryPolicy, default, idempotent, HttpClient, Server, Sent, Response, Outcome, answered,
  read_timed_out, connect_timed_out, unconnected, session_request, deliver,
}
use redfish_python_sdk.HttpClient.Origin.{resolve_url, validate_external_url}
use redfish_python_sdk.HttpClient.Retry.{send_loop, is_read_method, can_retry}
use redfish_python_sdk.HttpClient.Retry.Laws.{send_loop_single_shot}
use redfish_python_sdk.HttpClient.Auth.Frame.{
  IsRefreshInvariant, logged, bind_lifted, validate_managed_headers-Keeps, ensure_session-Keeps,
}
use redfish_python_sdk.HttpClient.Session.{set_auth_token, translate, validate_managed_headers}
use redfish_python_sdk.HttpClient.Auth.{send, after_unauthorized, request, ensure_session}

-- The requests that went out on the authenticated session.
unfoldable pub own_count : List Sent → ℕ
own_count [] = 0
own_count (s ∷ sent) = let rest = own_count sent in if s.external then rest else suc rest

abbrev run_bind :
    Run HttpClient Response → (Response → Exec HttpClient Response) → Run HttpClient Response
run_bind r f = elim r [ returned a s' ↦ f a s' | raised e s' ↦ raised e s' ]

module _ (n : ℕ) where
  abbrev Counts : HttpClient → Type 0
  Counts c = own_count c.sent ≡ n

  abbrev CountsMore : HttpClient → Type 0
  CountsMore c = own_count c.sent ≤ suc n

  Counts-refreshing : IsRefreshInvariant Counts
  unfolding own_count set_auth_token session_request
  Counts-refreshing = record {
    login = λ c path url h e. h;
    failed = λ c key e h. h;
    token = λ token location collection username password. record { at = λ s h. ground arith };
  }

module _ (server : Server) (method path : Text) (authenticated : Bool) (policy : RetryPolicy)
    (headers : List Text) (single : can_retry method policy ≡ false) where
  deliver-end_state : (o : Outcome) (c : HttpClient) → end_state (deliver o c) ≡ c
  deliver-end_state (answered r) c = refl
  deliver-end_state read_timed_out c = refl
  deliver-end_state connect_timed_out c = refl
  deliver-end_state (unconnected cause) c = refl

  own_count-logged :
      (n : ℕ) (url : Text) (c : HttpClient)
      → Counts n c
      → CountsMore n (logged c method url authenticated)
  unfolding own_count session_request
  own_count-logged n url c h = ground arith

  sent-CountsMore :
      (n : ℕ) (r : Result Text) (c : HttpClient)
      → Counts n c
      → CountsMore n
          (end_state (bind_lifted r (λ url. send_loop server method url authenticated policy) c))
  sent-CountsMore n (err e) c h = omega arith
  sent-CountsMore n (ok url) c h =
      rw (send_loop_single_shot server method url authenticated policy c single)
        (rw deliver-end_state (own_count-logged n url c h))

  send-CountsMore :
      (n : ℕ) (c : HttpClient)
      → Counts n c
      → CountsMore n (end_state (send server method path authenticated policy headers c))
  unfolding send validate_managed_headers
  send-CountsMore n c h = ground (
    arith,
    sent-CountsMore n (if authenticated then resolve_url c path else validate_external_url path) c
        h,
  )

  not_read : is_read_method method ≡ false
  unfolding can_retry
  not_read = go policy single
    where
      go : (p : RetryPolicy) → can_retry method p ≡ false → is_read_method method ≡ false
      go default h = h
      go idempotent h = cc

  unauthorized_once :
      (observed : Option Text) (r : Response) (c : HttpClient)
      → after_unauthorized server method path authenticated policy headers observed r c
        ≡ returned r c
  unfolding after_unauthorized
  unauthorized_once observed r c = ground (arith, not_read)

  then_unauthorized :
      (n : ℕ) (observed : Option Text) (r : Run HttpClient Response)
      → CountsMore n (end_state r)
      → CountsMore n (
          end_state (
            run_bind r
              (after_unauthorized server method path authenticated policy headers observed)))
  then_unauthorized n observed (returned r c) h = rw unauthorized_once h
  then_unauthorized n observed (raised e c) h = h

  send_once :
      (n : ℕ) (observed : Option Text) (c : HttpClient)
      → Counts n c
      → CountsMore n (
          end_state (
            run_bind
              (send server method path authenticated policy headers c)
              (after_unauthorized server method path authenticated policy headers observed)))
  send_once n observed c h =
      then_unauthorized n observed (send server method path authenticated policy headers c)
        (send-CountsMore n c h)

  translate-end_state :
      (m : Exec HttpClient Response) (c : HttpClient) → end_state (translate m c) ≡ end_state (m c)
  unfolding translate
  translate-end_state m c = ground arith

  -- A write without the idempotent policy goes out at most once on the authenticated session,
  -- whatever happens: an error status, a timeout, or an expired session, whose renewal is the only
  -- other request.
  pub request_write_once :
      (c : HttpClient)
      → own_count (end_state (request server method path authenticated policy headers c)).sent
        ≤ suc (own_count c.sent)
  unfolding request
  request_write_once c = rw translate-end_state (
      bind_ends (Counts (own_count c.sent)) (CountsMore (own_count c.sent))
        (validate_managed_headers headers) _ (validate_managed_headers-Keeps headers)
        (λ s h. omega arith)
        (λ _ s h.
          bind_ends (Counts (own_count c.sent)) (CountsMore (own_count c.sent))
            (ensure_session server authenticated) _
            (ensure_session-Keeps (Counts-refreshing (own_count c.sent)) server authenticated)
            (λ s h. omega arith) (λ _ s h. send_once (own_count c.sent) s.session_key s h) s h)
        c refl)

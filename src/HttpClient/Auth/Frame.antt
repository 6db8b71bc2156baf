-- ===== src/HttpClient/Auth/Frame.antt =====
-- A rule for invariants of the client: what the log of requests, the pauses, a new token and a
-- stored failure keep, the methods that talk to the network keep.
use redfish_python_sdk.Prelude.{
  ℕ, ◌≡◌, refl, Bool, true, false, ◌&&◌, ◌==◌, Option, none, some, List, ◌∷◌, Text, str, arith,
}
use redfish_python_sdk.Exceptions.{Exc}
use redfish_python_sdk.Result.{Result, ok, err}
use redfish_python_sdk.Exec.{Exec, raised, lift, catch, end_state, ◌>>=◌}
use redfish_python_sdk.Exec.Keeps.{
  Keeps, Keeps-pure, Keeps-raise, Keeps-gets, Keeps-if, Keeps-catch, Keeps-bind, if-end_state,
  keeps_rules,
}
use redfish_python_sdk.HttpClient.Defs.{
  RetryPolicy, HttpClient, Server, Response, Outcome, answered, read_timed_out, connect_timed_out,
  unconnected, session_request, deliver,
}
use redfish_python_sdk.HttpClient.Origin.{resolve_url, validate_external_url}
use redfish_python_sdk.HttpClient.Retry.{is_read_method}
use redfish_python_sdk.HttpClient.Retry.Frame.{send_loop-Keeps}
use redfish_python_sdk.HttpClient.Session.{
  set_auth_token, reset_basic_auth, translate, validate_managed_headers, raise_for_status,
  accept_session, retry_or_raise, stored_failure, is_other_key, is_session, is_unset, shut,
}
use redfish_python_sdk.HttpClient.Auth.{
  call_session, renew_session, refresh_session, send, after_unauthorized, request, delete_session,
  logout, close, ensure_session,
}

pub translate-Keeps {ℓ κ} :
    {A : Type ℓ} {P : HttpClient → Type κ} (m : Exec HttpClient A)
    → Keeps P m
    → Keeps P (translate m)
unfolding translate
translate-Keeps m k = Keeps-catch m _ k (λ e. record { at = λ s h. h })

pub validate_managed_headers-Keeps {ℓ} :
    {P : HttpClient → Type ℓ} (headers : List Text) → Keeps P (validate_managed_headers headers)
unfolding validate_managed_headers
validate_managed_headers-Keeps headers = Keeps-if _ _ _ (Keeps-raise _) (Keeps-pure tt)

abbrev pub logged : HttpClient → Text → Text → Bool → HttpClient
logged c method url authenticated = record c {
  sent = session_request method url authenticated c ∷ c.sent;
}

-- What has to be shown of an invariant of `_refresh_session`.
pub record IsRefreshInvariant {ℓ} (P : HttpClient → Type ℓ) : Type ℓ where
  pub login :
      (c : HttpClient) (path url : Text)
      → P c
      → resolve_url c path ≡ ok url
      → P (logged c (str "POST") url false)
  pub failed :
      (c : HttpClient) (key : Option Text) (e : Exc)
      → P c
      → P (record c { session_refresh_failure = some (key, e) })
  pub token :
      (token : Text) (location collection username password : Option Text)
      → Keeps P (set_auth_token token location collection username password)

-- What has to be shown of an invariant of `_send`.
pub record IsSendInvariant {ℓ} (P : HttpClient → Type ℓ) : Type ℓ where
  pub own :
      (c : HttpClient) (method path url : Text)
      → P c
      → resolve_url c path ≡ ok url
      → P (logged c method url true)
  pub external :
      (c : HttpClient) (method path url : Text)
      → P c
      → validate_external_url path ≡ ok url
      → P (logged c method url false)
  pub paused : (c : HttpClient) (t : ℕ) → P c → P (record c { slept = t ∷ c.slept })

abbrev pub bind_lifted : {A B : Type 0} → Result A → (A → Exec HttpClient B) → Exec HttpClient B
bind_lifted x f = do a ← lift x; f a

-- a bind on a pure function, where the rest may use that it did not raise
pub bind_lift-Keeps {ℓ} :
    {A : Type 0} {B : Type 0} {P : HttpClient → Type ℓ} (r : HttpClient → Result A)
    (f : A → Exec HttpClient B)
    → ((a : A) (c : HttpClient) → P c → r c ≡ ok a → P (end_state (f a c)))
    → Keeps P (do a ← λ c. lift (r c) c; f a)
bind_lift-Keeps {A} {B} {P} r f k = record { at = λ c h. go c h (r c) refl }
  where
    go : (c : HttpClient) → P c → (x : Result A) → r c ≡ x → P (end_state (bind_lifted x f c))
    go c h (ok a) e = k a c h e
    go c h (err x) e = h

module _ {ℓ} {P : HttpClient → Type ℓ} (inv : IsSendInvariant P) (server : Server) where
  pub send-Keeps :
      (method path : Text) (authenticated : Bool) (policy : RetryPolicy) (headers : List Text)
      → Keeps P (send server method path authenticated policy headers)
  unfolding send resolve_url
  send-Keeps method path true policy headers =
      Keeps-bind _ _ (validate_managed_headers-Keeps headers) (λ _.
        bind_lift-Keeps (λ c. resolve_url c path) _
          (λ url c h e.
            ((send_loop-Keeps {P = λ c. P c × (resolve_url c path ≡ ok url)} server method url true
                policy (λ c h. (inv.own c method path url h.0 h.1, h.1))
                (λ c t h. (inv.paused c t h.0, h.1))).at
              c (h, e)).0))
  send-Keeps method path false policy headers =
      Keeps-bind _ _ (validate_managed_headers-Keeps headers) (λ _.
        bind_lift-Keeps (λ c. validate_external_url path) _
          (λ url c h e.
            (send_loop-Keeps server method url false policy
                (λ c h. inv.external c method path url h e) inv.paused).at
              c h))

deliver-Keeps {ℓ} : {P : HttpClient → Type ℓ} (o : Outcome) → Keeps P (deliver o)
deliver-Keeps (answered r) = Keeps-pure r
deliver-Keeps read_timed_out = Keeps-raise _
deliver-Keeps connect_timed_out = Keeps-raise _
deliver-Keeps (unconnected cause) = Keeps-raise _

module _ {ℓ} {P : HttpClient → Type ℓ} (inv : IsRefreshInvariant P) (server : Server) where
  accept_session-Keeps : (r : Response) → Keeps P (accept_session r)
  unfolding accept_session
  accept_session-Keeps r = search (keeps_rules, inv.token)

  renew_session-Keeps : Keeps P (renew_session server)
  unfolding renew_session call_session
  renew_session-Keeps =
      Keeps-bind _ _
        (translate-Keeps _ (
          Keeps-bind _ _ (Keeps-gets (λ c. c.session_collection_uri)) (λ uri.
            bind_lift-Keeps (λ c. resolve_url c uri) _
              (λ url c h e.
                (deliver-Keeps {P = P}
                    (server (session_request (str "POST") url false c ∷ c.sent))).at
                  (logged c (str "POST") url false) (inv.login c uri url h e)))))
        accept_session-Keeps

  retry_or_raise-Keeps :
      (o : Option Exc) (m : Exec HttpClient (Unit {0})) → Keeps P m → Keeps P (retry_or_raise o m)
  retry_or_raise-Keeps none m k = k
  retry_or_raise-Keeps (some e) m k = Keeps-raise e

  refresh_body-Keeps :
      (observed : Option Text) (o : Option Exc)
      → Keeps P (
          catch
            (retry_or_raise o (renew_session server))
            (λ e c. raised e (record c { session_refresh_failure = some (observed, e) })))
  refresh_body-Keeps observed o =
      Keeps-catch _ _ (retry_or_raise-Keeps o (renew_session server) renew_session-Keeps)
        (λ e. record { at = λ c h. inv.failed c observed e h })

  pub refresh_session-Keeps : (observed : Option Text) → Keeps P (refresh_session server observed)
  unfolding refresh_session
  refresh_session-Keeps observed = record {
    at = λ c h.
        if-end_state P (is_other_key observed c.session_key) _ _ h
          ((refresh_body-Keeps observed (stored_failure observed c)).at c h);
  }

  pub ensure_session-Keeps : (authenticated : Bool) → Keeps P (ensure_session server authenticated)
  ensure_session-Keeps authenticated = record {
    at = λ c h.
        if-end_state P (authenticated && is_session c.auth_mode && is_unset c.session_key) _ _
          ((refresh_session-Keeps none).at c h) h;
  }

raise_for_status-Keeps {ℓ} : {P : HttpClient → Type ℓ} (r : Response) → Keeps P (raise_for_status r)
unfolding raise_for_status
raise_for_status-Keeps r = search keeps_rules

module _ {ℓ} {P : HttpClient → Type ℓ} (refreshing : IsRefreshInvariant P)
    (sending : IsSendInvariant P) (server : Server) where
  after_unauthorized-Keeps :
      (method path : Text) (authenticated : Bool) (policy : RetryPolicy) (headers : List Text)
      (observed : Option Text) (r : Response)
      → Keeps P (after_unauthorized server method path authenticated policy headers observed r)
  unfolding after_unauthorized
  after_unauthorized-Keeps method path authenticated policy headers observed r = record {
    at = λ c h.
        if-end_state P
          (authenticated && is_read_method method && r.status_code == 401 && is_session c.auth_mode)
          _ _
          ((Keeps-bind (refresh_session server observed) _
              (refresh_session-Keeps refreshing server observed)
              (λ _. send-Keeps sending server method path authenticated policy headers)).at
            c h)
          h;
  }

  -- Whatever the server answers, `_request` keeps an invariant, whether it returns or raises.
  pub request-Keeps :
      (method path : Text) (authenticated : Bool) (policy : RetryPolicy) (headers : List Text)
      → Keeps P (request server method path authenticated policy headers)
  unfolding request
  request-Keeps method path authenticated policy headers = translate-Keeps _ (
      Keeps-bind _ _ (validate_managed_headers-Keeps headers) (λ _.
        Keeps-bind _ _ (ensure_session-Keeps refreshing server authenticated) (λ _.
          Keeps-bind _ _ (Keeps-gets _) (λ observed.
            Keeps-bind _ _ (send-Keeps sending server method path authenticated policy headers)
              (after_unauthorized-Keeps method path authenticated policy headers observed)))))

  delete_session-Keeps : Keeps P (delete_session server)
  unfolding delete_session
  delete_session-Keeps = search (keeps_rules, send-Keeps sending server, raise_for_status-Keeps)

  module _ (reset : (c : HttpClient) → P c → P (reset_basic_auth c)) where
    pub logout-Keeps : (suppress_errors : Bool) → Keeps P (logout server suppress_errors)
    unfolding logout
    logout-Keeps suppress_errors = record {
      at = λ c h.
          ground (arith, delete_session-Keeps.at c h, reset (end_state (delete_session server c)));
    }

    pub close-Keeps : ((c : HttpClient) → P c → P (shut c)) → Keeps P (close server)
    unfolding close
    close-Keeps closed = record {
      at = λ c h. ground (
        arith,
        (logout-Keeps true).at c h,
        closed c h,
        closed (end_state (logout server true c)),
      );
    }

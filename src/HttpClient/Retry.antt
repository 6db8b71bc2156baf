-- ===== src/HttpClient/Retry.antt =====
-- `_can_retry`, `_should_retry_status` and the loop of `_send` in redfish_sdk/http_client.py.
pub mod Laws
pub mod Frame
use redfish_python_sdk.Prelude.{
  ℕ, zero, suc, ◌+◌, ◌*◌, ◌≡◌, refl, Bool, true, false, ◌&&◌, ◌||◌, Option, none, some, List, [],
  ◌∷◌, Text, str, text_eq, any, ltb, ◌==◌, if◌then◌else◌,
}
use redfish_python_sdk.Exceptions.{Exc, read_timeout, connect_timeout, connection_failed}
use redfish_python_sdk.Exec.{Exec, Run, returned, raised, ◌>>=◌, ◌>>◌, raise, pure, modify, gets}
use redfish_python_sdk.HttpClient.Defs.{
  HttpClient, Server, Response, Outcome, answered, read_timed_out, connect_timed_out, unconnected,
  RetryPolicy, default, idempotent, transmit, session_request,
}

unfoldable pub is_read_method : Text → Bool
is_read_method method = text_eq method (str "GET") || text_eq method (str "HEAD")

unfoldable pub is_retry_status : ℕ → Bool
is_retry_status code = code == 500 || code == 502 || code == 503 || code == 504

-- The method is in upper case already, as all callers have it.
unfoldable pub can_retry : Text → RetryPolicy → Bool
unfolding is_read_method
can_retry method default = is_read_method method
can_retry method idempotent = true

unfoldable pub should_retry_status : Text → ℕ → RetryPolicy → Bool
unfolding can_retry is_retry_status
should_retry_status method code policy = can_retry method policy && is_retry_status code

-- `_time.sleep(self.retry_backoff * attempt)`
unfoldable pub back_off : ℕ → Exec HttpClient (Unit {0})
back_off attempt = modify (λ c. record c { slept = (c.retry_backoff * attempt) ∷ c.slept })

-- The code after the loop.
unfoldable pub after_loop : Option Response → Exec HttpClient Response
after_loop none = raise read_timeout
after_loop (some response) = pure response

module _ (server : Server) (method url : Text) (authenticated : Bool) (policy : RetryPolicy) where
  -- What one round does with the answer; `again` is the rest of the loop.
  unfoldable pub after_attempt :
      (attempt attempts : ℕ)
      → (Option Response → Exec HttpClient Response)
      → Option Response
      → Outcome
      → Exec HttpClient Response
  unfolding should_retry_status back_off
  after_attempt attempt attempts again response read_timed_out c =
      if c.retry_on_read_timeout && can_retry method policy && ltb attempt attempts
      then (do back_off attempt; again response) c
      else raised read_timeout c
  after_attempt attempt attempts again response connect_timed_out c = raised connect_timeout c
  after_attempt attempt attempts again response (unconnected cause) c =
      raised (connection_failed cause) c
  after_attempt attempt attempts again response (answered r) c =
      if ltb attempt attempts && should_retry_status method r.status_code policy
      then (do back_off attempt; again (some r)) c
      else returned r c

  -- `for attempt in range(1, attempts + 1)`, with `left` rounds to go.
  unfoldable pub attempts_from :
      (left attempt attempts : ℕ) → Option Response → Exec HttpClient Response
  unfolding after_attempt transmit session_request after_loop
  attempts_from zero attempt attempts response = after_loop response
  attempts_from (suc left) attempt attempts response = do
    let again = attempts_from left (attempt + 1) attempts
    outcome ← λ c. transmit server (session_request method url authenticated c) c
    after_attempt attempt attempts again response outcome

  -- `_send`, once its target is resolved: one attempt and `retry_5xx` more.
  unfoldable pub send_loop : Exec HttpClient Response
  unfolding attempts_from
  send_loop c = let attempts = 1 + c.retry_5xx in attempts_from attempts 1 attempts none c

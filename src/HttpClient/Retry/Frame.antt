-- ===== src/HttpClient/Retry/Frame.antt =====
-- What the retry loop leaves alone.
use redfish_python_sdk.Prelude.{ℕ, zero, suc, ◌+◌, ◌*◌, Bool, Option, none, some, ◌∷◌, Text, arith}
use redfish_python_sdk.Exceptions.{read_timeout}
use redfish_python_sdk.Exec.{Exec}
use redfish_python_sdk.Exec.Keeps.{Keeps, Keeps-raise, Keeps-pure}
use redfish_python_sdk.HttpClient.Defs.{
  HttpClient, Server, Response, Outcome, answered, read_timed_out, connect_timed_out, unconnected,
  RetryPolicy, session_request,
}
use redfish_python_sdk.HttpClient.Retry.{after_attempt, attempts_from, send_loop}

module _ {ℓ} {P : HttpClient → Type ℓ} (server : Server) (method url : Text) (authenticated : Bool)
    (policy : RetryPolicy)
    (logged : (c : HttpClient)
      → P c
      → P (record c { sent = session_request method url authenticated c ∷ c.sent }))
    (paused : (c : HttpClient) (t : ℕ) → P c → P (record c { slept = t ∷ c.slept })) where
  after_attempt-Keeps :
      (attempt attempts : ℕ) (again : Option Response → Exec HttpClient Response)
      → ((r : Option Response) → Keeps P (again r))
      → (response : Option Response) (o : Outcome)
      → Keeps P
          (after_attempt server method url authenticated policy attempt attempts again response o)
  unfolding after_attempt
  after_attempt-Keeps attempt attempts again k response read_timed_out = record {
    at = λ c h. ground (
      arith,
      (k response).at (record c { slept = (c.retry_backoff * attempt) ∷ c.slept })
          (paused c (c.retry_backoff * attempt) h),
    );
  }
  after_attempt-Keeps attempt attempts again k response (answered r) = record {
    at = λ c h. ground (
      arith,
      (k (some r)).at (record c { slept = (c.retry_backoff * attempt) ∷ c.slept })
          (paused c (c.retry_backoff * attempt) h),
    );
  }
  after_attempt-Keeps attempt attempts again k response connect_timed_out = record { at = λ c h. h }
  after_attempt-Keeps attempt attempts again k response (unconnected cause) = record {
    at = λ c h. h;
  }

  attempts_from-Keeps :
      (left attempt attempts : ℕ) (response : Option Response)
      → Keeps P
          (attempts_from server method url authenticated policy left attempt attempts response)
  unfolding attempts_from
  attempts_from-Keeps zero attempt attempts none = Keeps-raise read_timeout
  attempts_from-Keeps zero attempt attempts (some r) = Keeps-pure r
  attempts_from-Keeps (suc left) attempt attempts response = record {
    at = λ c h.
        (after_attempt-Keeps attempt attempts
            (attempts_from server method url authenticated policy left (attempt + 1) attempts)
            (attempts_from-Keeps left (attempt + 1) attempts) response
            (server (session_request method url authenticated c ∷ c.sent))).at
          (record c { sent = session_request method url authenticated c ∷ c.sent }) (logged c h);
  }

  -- What the log of requests and the pauses keep, the loop keeps.
  pub send_loop-Keeps : Keeps P (send_loop server method url authenticated policy)
  unfolding send_loop
  send_loop-Keeps = record {
    at = λ c h. (attempts_from-Keeps (1 + c.retry_5xx) 1 (1 + c.retry_5xx) none).at c h;
  }

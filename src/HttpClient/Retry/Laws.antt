-- ===== src/HttpClient/Retry/Laws.antt =====
-- The retry loop of `_send`: how often a request is sent, and when the loop ends.
use redfish_python_sdk.Prelude.{
  ℕ, zero, suc, ◌+◌, ◌*◌, ◌≤◌, ◌<◌, ◌≡◌, refl, ◌⊎◌, inl, inr, Bool, true, false, ◌&&◌, Option, none,
  some, List, ◌∷◌, Text, arith, ltb, Bool-cases,
}
use redfish_python_sdk.Exec.{Exec, Run}
use redfish_python_sdk.HttpClient.Defs.{
  HttpClient, Server, Sent, Response, Outcome, answered, read_timed_out, connect_timed_out,
  unconnected, RetryPolicy, session_request, deliver,
}
use redfish_python_sdk.HttpClient.Retry.{
  can_retry, should_retry_status, after_attempt, attempts_from, send_loop,
}

-- `n` more copies of one request.
abbrev pub repeat : ℕ → Sent → List Sent → List Sent
repeat zero request sent = sent
repeat (suc n) request sent = repeat n request (request ∷ sent)

-- The pauses after the attempts `attempt`, `attempt + 1`, …: each is longer than the one before.
abbrev pub pauses : (backoff attempt n : ℕ) → List ℕ → List ℕ
pauses backoff attempt zero slept = slept
pauses backoff attempt (suc n) slept = pauses backoff (attempt + 1) n ((backoff * attempt) ∷ slept)

module _ (server : Server) (method url : Text) (authenticated : Bool) (policy : RetryPolicy) where
  -- Whether an answer permits another attempt.
  abbrev pub is_transient : HttpClient → Outcome → Bool
  is_transient c read_timed_out = c.retry_on_read_timeout && can_retry method policy
  is_transient c (answered r) = should_retry_status method r.status_code policy
  is_transient c _ = false

  -- The run that sends the request `retries + 1` times in state `c`, from the attempt number
  -- `attempt`: each answer but the last was transient, and the last was not, unless the attempts
  -- were used up.
  pub record IsRetried (c : HttpClient) (attempt attempts : ℕ) (run : Run HttpClient Response)
      : Type 0 where
    pub retries : ℕ
    pub bounded : attempt + retries ≤ attempts
    pub transient :
        (k : ℕ)
        → k < retries
        → is_transient c
            (server (repeat (suc k) (session_request method url authenticated c) c.sent))
          ≡ true
    pub last :
        (attempt + retries ≡ attempts)
        ⊎ (is_transient c
              (server (repeat (suc retries) (session_request method url authenticated c) c.sent))
            ≡ false)
    pub result :
        run
        ≡ deliver
            (server (repeat (suc retries) (session_request method url authenticated c) c.sent))
            (record c {
              sent = repeat (suc retries) (session_request method url authenticated c) c.sent;
              slept = pauses c.retry_backoff attempt retries c.slept;
            })

  module _ (attempt attempts : ℕ) (again : Option Response → Exec HttpClient Response) where
    after_attempt-deliver :
        (response : Option Response) (o : Outcome) (c : HttpClient)
        → (ltb attempt attempts ≡ false) ⊎ (is_transient c o ≡ false)
        → after_attempt server method url authenticated policy attempt attempts again response o c
          ≡ deliver o c
    unfolding after_attempt
    after_attempt-deliver response read_timed_out c h = ground arith
    after_attempt-deliver response (answered r) c h = ground arith
    after_attempt-deliver response _ c h = refl

    after_attempt-again :
        (response : Option Response) (o : Outcome) (c : HttpClient)
        → ltb attempt attempts ≡ true
        → is_transient c o ≡ true
        → (next : Option Response) × (after_attempt server method url authenticated policy attempt
              attempts again response o c
            ≡ again next (record c { slept = (c.retry_backoff * attempt) ∷ c.slept }))
    unfolding after_attempt
    after_attempt-again response read_timed_out c h t = (response, rw (t, h) refl)
    after_attempt-again response (answered r) c h t = (some r, rw (t, h) refl)
    after_attempt-again response connect_timed_out c h t = cc
    after_attempt-again response (unconnected cause) c h t = cc

  abbrev request_in : HttpClient → Sent
  request_in = session_request method url authenticated

  -- The state after one attempt that is followed by another.
  abbrev next_state : ℕ → HttpClient → HttpClient
  next_state attempt c = record c {
    sent = request_in c ∷ c.sent;
    slept = (c.retry_backoff * attempt) ∷ c.slept;
  }

  deliver-IsRetried :
      (attempt attempts : ℕ) (c : HttpClient) {run : Run HttpClient Response}
      → attempt ≤ attempts
      → (attempt ≡ attempts) ⊎ (is_transient c (server (request_in c ∷ c.sent)) ≡ false)
      → run ≡ deliver (server (request_in c ∷ c.sent)) (record c { sent = request_in c ∷ c.sent })
      → IsRetried c attempt attempts run
  deliver-IsRetried attempt attempts c h last e = record {
    retries = 0;
    bounded = omega arith;
    transient = λ k lt. absurd (omega arith);
    last = first_last last;
    result = e;
  }
    where
      first_last :
          (attempt ≡ attempts) ⊎ (is_transient c (server (request_in c ∷ c.sent)) ≡ false)
          → (attempt + 0 ≡ attempts) ⊎ (is_transient c (server (request_in c ∷ c.sent)) ≡ false)
      first_last (inl p) = inl (omega arith)
      first_last (inr p) = inr p

  next-IsRetried :
      (attempt attempts : ℕ) (c : HttpClient) {run : Run HttpClient Response}
      → is_transient c (server (request_in c ∷ c.sent)) ≡ true
      → IsRetried (next_state attempt c) (attempt + 1) attempts run
      → IsRetried c attempt attempts run
  unfolding session_request
  next-IsRetried attempt attempts c t r = record {
    retries = suc r.retries;
    bounded = omega (arith, r.bounded);
    transient = earlier;
    last = later r.last;
    result = r.result;
  }
    where
      earlier :
          (k : ℕ)
          → k < suc r.retries
          → is_transient c (server (repeat (suc k) (request_in c) c.sent)) ≡ true
      earlier zero h = t
      earlier (suc k) h = r.transient k (omega arith)

      later :
          (attempt + 1 + r.retries ≡ attempts)
            ⊎ (is_transient c (server (repeat (suc (suc r.retries)) (request_in c) c.sent)) ≡ false)
          → (attempt + suc r.retries ≡ attempts)
            ⊎ (is_transient c (server (repeat (suc (suc r.retries)) (request_in c) c.sent)) ≡ false)
      later (inl p) = inl (omega arith)
      later (inr p) = inr p

  attempts_from-IsRetried :
      (left attempt attempts : ℕ) (response : Option Response) (c : HttpClient)
      → attempt + left ≡ attempts
      → IsRetried c attempt attempts (
          attempts_from server method url authenticated policy
            (suc left)
            attempt
            attempts
            response
            c)
  unfolding attempts_from
  attempts_from-IsRetried zero attempt attempts response c h =
      deliver-IsRetried attempt attempts c (omega arith) (inl (omega arith))
        (after_attempt-deliver attempt attempts (rest zero) response _ _ (inl (ground arith)))
    where
      rest : ℕ → Option Response → Exec HttpClient Response
      rest n = attempts_from server method url authenticated policy n (attempt + 1) attempts
  attempts_from-IsRetried (suc left) attempt attempts response c h =
      elim (Bool-cases (is_transient c (server (request_in c ∷ c.sent)))) [
        | inl t ↦
            let (next, e) =
              after_attempt-again attempt attempts rest response (server (request_in c ∷ c.sent))
                (record c { sent = request_in c ∷ c.sent }) (ground arith) t in
            rw e (
              next-IsRetried attempt attempts c t (
                attempts_from-IsRetried left (attempt + 1) attempts next (next_state attempt c)
                  (omega arith)))
        | inr f ↦
            deliver-IsRetried attempt attempts c (omega arith) (inr f)
              (after_attempt-deliver attempt attempts rest response _ _ (inr f))
      ]
    where
      rest : Option Response → Exec HttpClient Response
      rest = attempts_from server method url authenticated policy (suc left) (attempt + 1) attempts

  -- `_send`, for a client that may retry `retry_5xx` times: the request is sent at least once and at
  -- most `1 + retry_5xx` times, each time with the same method, target and credentials. Every
  -- answer but the last permitted another attempt, and the last one did not, unless the attempts
  -- were used up. The caller gets what the last answer says, the pauses between attempts grow
  -- linearly with the attempt's number, and nothing else of the client changes.
  pub send_loop-IsRetried :
      (c : HttpClient)
      → IsRetried c 1 (1 + c.retry_5xx) (send_loop server method url authenticated policy c)
  unfolding send_loop
  send_loop-IsRetried c =
      let e : 1 + c.retry_5xx ≡ suc c.retry_5xx = omega arith in
      rw e (attempts_from-IsRetried c.retry_5xx 1 (suc c.retry_5xx) none c (omega arith))

  -- A write that no idempotent policy covers is sent exactly once, whatever `retry_5xx` is and
  -- whatever the answer, and its caller gets that answer.
  pub send_loop_single_shot :
      (c : HttpClient)
      → can_retry method policy ≡ false
      → send_loop server method url authenticated policy c
        ≡ deliver (server (request_in c ∷ c.sent)) (record c { sent = request_in c ∷ c.sent })
  unfolding should_retry_status
  send_loop_single_shot c h = once r.retries refl
    where
      r : IsRetried c 1 (1 + c.retry_5xx) (send_loop server method url authenticated policy c)
      r = send_loop-IsRetried c

      impossible : (o : Outcome) → is_transient c o ≡ true → ⊥
      impossible read_timed_out t = ground arith
      impossible (answered a) t = ground arith
      impossible connect_timed_out t = cc
      impossible (unconnected cause) t = cc

      once :
          (n : ℕ)
          → n ≡ r.retries
          → send_loop server method url authenticated policy c
            ≡ deliver (server (request_in c ∷ c.sent)) (record c { sent = request_in c ∷ c.sent })
      once zero e = rw (← e) at r.result
      once (suc n) e = absurd (impossible _ (r.transient 0 (omega arith)))

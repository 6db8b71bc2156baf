-- ===== src/HttpClient/Auth/Refresh.antt =====
-- `_refresh_session` under its lock: callers that saw the same expired key log in once.
use redfish_python_sdk.Prelude.{
  ℕ, zero, suc, ◌≤◌, ◌≡◌, ◌≢◌, refl, ap, ◌∙◌, inl, inr, true, false, Option, none, some, List, Text,
  str, arith, text_eq_iff, text_eq_self, Bool-cases, length,
}
use redfish_python_sdk.Exceptions.{Exc}
use redfish_python_sdk.Result.{Result, ok, err}
use redfish_python_sdk.Exec.{Exec, Run, returned, raised, catch, end_state}
use redfish_python_sdk.HttpClient.Defs.{
  HttpClient, Server, Sent, Response, Outcome, answered, read_timed_out, connect_timed_out,
  unconnected, get_header,
}
use redfish_python_sdk.HttpClient.Origin.{resolve_url}
use redfish_python_sdk.HttpClient.Auth.Frame.{logged}
use redfish_python_sdk.HttpClient.Session.{
  set_auth_token, translate, accept_session, retry_or_raise, stored_failure, is_other_key, same_key,
}
use redfish_python_sdk.HttpClient.Auth.{call_session, renew_session, refresh_session}

same_key_self : (key : Option Text) → same_key key key ≡ true
same_key_self none = refl
same_key_self (some k) = text_eq_self k

module _ (server : Server) where
  -- A login that raises leaves the session key alone.
  renew_session-raised :
      (c c' : HttpClient) (e : Exc)
      → renew_session server c ≡ raised e c'
      → c'.session_key ≡ c.session_key
  unfolding renew_session call_session accept_session set_auth_token translate
  renew_session-raised c c' e h = ground arith

  -- A login sends at most one request.
  renew_session-sends :
      (c : HttpClient) → length (end_state (renew_session server c)).sent ≤ suc (length c.sent)
  unfolding renew_session call_session accept_session set_auth_token translate
  renew_session-sends c = ground arith

  refresh_session-sends :
      (observed : Option Text) (c : HttpClient)
      → length (end_state (refresh_session server observed c)).sent ≤ suc (length c.sent)
  unfolding refresh_session
  refresh_session-sends observed c = ground (arith, renew_session-sends c)

  -- What is stored when the outer `try` raises.
  abbrev remember : Option Text → Exc → Exec HttpClient (Unit {0})
  remember observed e c = raised e (record c { session_refresh_failure = some (observed, e) })

  caught_facts :
      (observed : Option Text) (o : Option Exc) (c c' : HttpClient) (e : Exc)
      → catch (retry_or_raise o (renew_session server)) (remember observed) c ≡ raised e c'
      → (c'.session_key ≡ c.session_key) × (c'.session_refresh_failure ≡ some (observed, e))
  caught_facts observed (some failure) c c' e h = ground arith
  caught_facts observed none c c' e h = go (renew_session server c) refl h
    where
      go :
          (r : Run HttpClient (Unit {0}))
          → renew_session server c ≡ r
          → catch (λ _. r) (remember observed) c ≡ raised e c'
          → (c'.session_key ≡ c.session_key) × (c'.session_refresh_failure ≡ some (observed, e))
      go (returned t s) q h = cc
      go (raised x s) q h = ground (arith, renew_session-raised c s x q)

  refresh_session-raised :
      (observed : Option Text) (c c' : HttpClient) (e : Exc)
      → refresh_session server observed c ≡ raised e c'
      → (is_other_key observed c.session_key ≡ false)
        × (c'.session_key ≡ c.session_key)
        × (c'.session_refresh_failure ≡ some (observed, e))
  unfolding refresh_session
  refresh_session-raised observed c c' e h =
      elim (Bool-cases (is_other_key observed c.session_key)) [
        | inl other ↦ absurd (cc (rw other at h))
        | inr same ↦
            let (key, failure) =
              caught_facts observed (stored_failure observed c) c c' e (rw same at h) in
            (same, key, failure)
      ]

  failed_again :
      (observed : Option Text) (c : HttpClient) (e : Exc)
      → is_other_key observed c.session_key ≡ false
      → c.session_refresh_failure ≡ some (observed, e)
      → refresh_session server observed c ≡ raised e c
  unfolding refresh_session
  failed_again observed c e same failure = ground (arith, same_key_self observed)

  -- A refresh that raised is not tried again for the same key: the next caller that saw that key
  -- gets the same exception, nothing is sent and the client does not change.
  pub refresh_session_failure :
      (observed : Option Text) (c c' : HttpClient) (e : Exc)
      → refresh_session server observed c ≡ raised e c'
      → refresh_session server observed c' ≡ raised e c'
  refresh_session_failure observed c c' e h =
      let (same, key, failure) = refresh_session-raised observed c c' e h in
      failed_again observed c' e (rw key same) failure

  is_other_key_of_ne :
      (observed : Text) (key : Option Text)
      → key ≢ some observed
      → is_other_key (some observed) key ≡ true
  is_other_key_of_ne observed none h = refl
  is_other_key_of_ne observed (some current) h = ground (arith, text_eq_iff current observed)

  -- A refresh that returned is not tried again by a caller that saw the key which it replaced.
  pub refresh_session_success :
      (observed : Text) (c : HttpClient)
      → c.session_key ≢ some observed
      → refresh_session server (some observed) c ≡ returned tt c
  unfolding refresh_session
  refresh_session_success observed c h = rw (is_other_key_of_ne observed c.session_key h)

  -- The threads that saw `observed` take the lock one after the other.
  unfoldable pub refresh_all : ℕ → Option Text → HttpClient → HttpClient
  refresh_all zero observed c = c
  refresh_all (suc n) observed c =
      refresh_all n observed (end_state (refresh_session server observed c))

  -- The server's documented behaviour: no answer hands out the token again.
  abbrev pub NeverIssues : Text → Type 0
  NeverIssues token =
      (history : List Sent) (r : Response)
      → server history ≡ answered r
      → get_header (str "X-Auth-Token") r.headers ≢ some token

  accept_session-key :
      (r : Response) (c c' : HttpClient)
      → accept_session r c ≡ returned tt c'
      → get_header (str "X-Auth-Token") r.headers ≡ c'.session_key
  unfolding accept_session set_auth_token
  accept_session-key r c c' h = ground arith

  renew_session-answer :
      (c c' : HttpClient)
      → renew_session server c ≡ returned tt c'
      → (history : List Sent) × (r : Response) × (server history ≡ answered r)
        × (get_header (str "X-Auth-Token") r.headers ≡ c'.session_key)
  unfolding renew_session call_session translate
  renew_session-answer c c' h = go (resolve_url c c.session_collection_uri) refl
    where
      Answer : Type 0
      Answer =
          (history : List Sent) × (r : Response) × (server history ≡ answered r)
          × (get_header (str "X-Auth-Token") r.headers ≡ c'.session_key)

      after : Text → HttpClient
      after url = logged c (str "POST") url false

      on_answer :
          (url : Text)
          → resolve_url c c.session_collection_uri ≡ ok url
          → (o : Outcome) → server (after url).sent ≡ o
          → Answer
      on_answer url p (answered r) q =
          ((after url).sent, r, q, ground (arith, accept_session-key r (after url) c'))
      on_answer url p read_timed_out q = absurd (ground arith)
      on_answer url p connect_timed_out q = absurd (ground arith)
      on_answer url p (unconnected cause) q = absurd (ground arith)

      go : (x : Result Text) → resolve_url c c.session_collection_uri ≡ x → Answer
      go (ok url) p = on_answer url p (server (after url).sent) refl
      go (err e) p = absurd (ground arith)

  renew_session-fresh :
      (observed : Text) (c c' : HttpClient)
      → NeverIssues observed
      → renew_session server c ≡ returned tt c'
      → c'.session_key ≢ some observed
  renew_session-fresh observed c c' never h =
      let (history, r, answer, key) = renew_session-answer c c' h in
      λ e. never history r answer (key ∙ e)

  caught-returned :
      (observed : Option Text) (o : Option Exc) (c c' : HttpClient)
      → catch (retry_or_raise o (renew_session server)) (remember observed) c ≡ returned tt c'
      → renew_session server c ≡ returned tt c'
  caught-returned observed (some failure) c c' h = absurd (cc)
  caught-returned observed none c c' h = ground arith

  refresh_session-fresh :
      (observed : Text) (c c' : HttpClient)
      → NeverIssues observed
      → refresh_session server (some observed) c ≡ returned tt c'
      → c'.session_key ≢ some observed
  unfolding refresh_session
  refresh_session-fresh observed c c' never h =
      elim (Bool-cases (is_other_key (some observed) c.session_key)) [
        | inl other ↦ λ k. ground (arith, text_eq_iff observed observed)
        | inr same ↦
            renew_session-fresh observed c c' never (
              caught-returned (some observed) (stored_failure (some observed) c) c c'
                (rw same at h))
      ]

  refresh_session-settled :
      (observed : Text) (c : HttpClient)
      → NeverIssues observed
      → (n : ℕ)
      → refresh_all n (some observed) (end_state (refresh_session server (some observed) c))
        ≡ end_state (refresh_session server (some observed) c)
  unfolding refresh_all
  refresh_session-settled observed c never n = go (refresh_session server (some observed) c) refl
    where
      stays :
          (d : HttpClient)
          → end_state (refresh_session server (some observed) d) ≡ d
          → (m : ℕ) → refresh_all m (some observed) d ≡ d
      stays d e zero = refl
      stays d e (suc m) = rw e (stays d e m)

      go :
          (r : Run HttpClient (Unit {0}))
          → refresh_session server (some observed) c ≡ r
          → refresh_all n (some observed) (end_state r) ≡ end_state r
      go (raised e d) p = stays d (ap end_state (refresh_session_failure (some observed) c d e p)) n
      go (returned t d) p =
          stays d
            (ap end_state
              (refresh_session_success observed d (refresh_session-fresh observed c d never p)))
            n

  -- However many callers saw the same expired session key, they send at most one login between
  -- them, and the client ends as the first caller left it, whether that login succeeded or not; so
  -- long as the server never issues the expired token again.
  pub refresh_all_single_flight :
      (observed : Text) (n : ℕ) (c : HttpClient)
      → NeverIssues observed
      → (refresh_all (suc n) (some observed) c
          ≡ end_state (refresh_session server (some observed) c))
        × (length (refresh_all (suc n) (some observed) c).sent ≤ suc (length c.sent))
  unfolding refresh_all
  refresh_all_single_flight observed n c never = (
    refresh_session-settled observed c never n,
    rw (refresh_session-settled observed c never n) (refresh_session-sends (some observed) c),
  )

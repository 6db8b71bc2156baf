-- ===== src/Tasks/Rounds.antt =====
-- One round of `wait_for_operation` of redfish_sdk/managers/task.py: what its result says.
use redfish_python_sdk.Prelude.{
  ℕ, ◌-◌, ◌≡◌, ◌⊎◌, inl, inr, refl, Bool, true, false, not, ◌&&◌, ◌||◌, ◌==◌, Option, none, some,
  [], Text, str, text_eq, leb, ltb, arith,
}
use redfish_python_sdk.Exceptions.{Exc}
use redfish_python_sdk.Result.{Result, ok, err}
use redfish_python_sdk.Exec.{Run, returned, raised, pure, lift, end_state}
use redfish_python_sdk.Exec.Answers.{HasGiven}
use redfish_python_sdk.Exec.Ends.{Ends, ends_returned, ends_raised, Ends-bind, Ends-if}
use redfish_python_sdk.HttpClient.Defs.{Response}
use redfish_python_sdk.HttpClient.Session.{truthy, or_else, is_success, is_auth_failure, is_session}
use redfish_python_sdk.Tasks.Defs.{
  Task, TaskRecoveryPolicy, Operation, AsyncOperationResult, Host, is_failed_state,
  is_terminal_state, state_of, either, sleep,
}
use redfish_python_sdk.Tasks.Operation.{
  Vars, Step, done, again, pause, on_request_error, on_auth_error, on_unauthorized,
  on_task_resource, on_accepted, verify_state, verify_missing_monitor, verify_task, on_answer,
  on_response, round, noting, is_unreachable, auth_code, result,
}

module _ {ℓ} {S : Type ℓ} (host : Host S) (monitor_uri : Text) (monitor_is_task : Bool)
    (r : AsyncOperationResult) where
  -- The monitor was answered with a success other than 202, not as the task itself with 200.
  pub record IsAnswered : Type 0 where
    pub monitor_found : r.monitor_missing ≡ false
    pub success : is_success r.final_response.status_code ≡ true
    pub not_accepted : (r.final_response.status_code == 202) ≡ false
    pub not_task : (monitor_is_task && r.final_response.status_code == 200) ≡ false

  -- The monitor is the task itself, and its answer 200 holds the task, completed.
  pub record IsTaskAnswered : Type 0 where
    pub monitor_found : r.monitor_missing ≡ false
    pub is_task : monitor_is_task ≡ true
    pub success : (r.final_response.status_code == 200) ≡ true
    pub task : Task
    pub was_parsed :
        host.parse_task r.final_response (or_else (either r.task_uri (some monitor_uri)) [])
        ≡ ok task
    pub is_result : r.task ≡ some task
    pub completed : text_eq (state_of task) (str "Completed") ≡ true

  -- The monitor is gone, and the URI of the task was answered 200 with the task, completed.
  pub record IsVerified : Type ℓ where
    pub monitor_missing : r.monitor_missing ≡ true
    pub gone : (r.final_response.status_code == 404 || r.final_response.status_code == 410) ≡ true
    pub answer : Response
    pub was_given : HasGiven (host.request (or_else r.task_uri [])) answer
    pub success : (answer.status_code == 200) ≡ true
    pub task : Task
    pub was_parsed : host.parse_task answer (or_else r.task_uri []) ≡ ok task
    pub is_result : r.task ≡ some task
    pub completed : text_eq (state_of task) (str "Completed") ≡ true

  -- The last answer is one that the monitor has given, and the operation has ended well.
  pub record IsFinished : Type ℓ where
    pub was_given : HasGiven (host.request monitor_uri) r.final_response
    pub ending : IsAnswered ⊎ (IsTaskAnswered ⊎ IsVerified)

abbrev pub Anything {ℓ} : {S : Type ℓ} → S → Type ℓ
Anything _ = Unit

-- A predicate of the state that sleeping, asking and resetting keep.
pub record IsKept {ℓ} {S : Type ℓ} (host : Host S) (Later : S → Type ℓ) : Type ℓ where
  pub slept : (d : ℕ) (s : S) → Later s → Later (host.sleep d s)
  pub reset : (s : S) → Later s → Later (host.reset_basic_auth s)
  pub requested : (uri : Text) (s : S) → Later s → Later (end_state (host.request uri s))

module _ {ℓ} {S : Type ℓ} (host : Host S) (operation : Operation) (policy : TaskRecoveryPolicy)
    (poll_interval deadline : ℕ) (monitor_uri : Text) (monitor_is_task : Bool) {Later : S → Type ℓ}
    (kept : IsKept host Later) where
  abbrev pub GoodStep : Step → S → Type ℓ
  GoodStep (done r) s = IsFinished host monitor_uri monitor_is_task r × Later s
  GoodStep (again vars) s = Later s

  pub sleep-Good :
      (delay : ℕ) (s : S) → Later s → Ends (λ _ s. Later s) Anything (sleep host delay deadline s)
  unfolding sleep
  sleep-Good delay s h =
      Ends-if (leb deadline (host.now s) || ltb (deadline - host.now s) delay) _ _
        (λ _. ends_raised tt) (λ _. ends_returned (kept.slept delay s h))

  pause-Good :
      (delay : ℕ) (vars : Vars) (s : S)
      → Later s
      → Ends GoodStep Anything (
          pause host operation policy poll_interval deadline monitor_uri monitor_is_task delay vars
            s)
  unfolding pause
  pause-Good delay vars s h =
      Ends-bind (sleep host delay deadline) (λ _. pure (again vars)) s (sleep-Good delay s h)
        (λ _ s h. ends_returned h)

  on_auth_error-Good :
      (vars : Vars) (e : Exc) (code : Option ℕ) (s : S)
      → Ends GoodStep Anything (
          on_auth_error host operation policy poll_interval deadline monitor_uri monitor_is_task
            vars e code s)
  on_auth_error-Good vars e none s = ends_raised tt
  on_auth_error-Good vars e (some code) s = ends_raised tt

  on_request_error-Good :
      (vars : Vars) (e : Exc) (s : S)
      → Later s
      → Ends GoodStep Anything (
          on_request_error host operation policy poll_interval deadline monitor_uri monitor_is_task
            vars e s)
  unfolding on_request_error
  on_request_error-Good vars e s h =
      Ends-if (is_unreachable e) _ _
        (λ _.
          Ends-if (leb policy.max_connection_attempts vars.connection_attempts) _ _
            (λ _. ends_raised tt) (λ _. pause-Good policy.recovery_interval _ s h))
        (λ _. on_auth_error-Good vars e (auth_code e) s)

  on_unauthorized-Good :
      (vars : Vars) (response : Response) (s : S)
      → Later s
      → Ends GoodStep Anything (
          on_unauthorized host operation policy poll_interval deadline monitor_uri monitor_is_task
            vars response s)
  unfolding on_unauthorized
  on_unauthorized-Good vars response s h =
      Ends-if (is_session (host.auth_mode s)) _ _ (λ _. ends_raised tt)
        (λ _.
          Ends-if (leb policy.max_auth_attempts vars.auth_attempts) _ _ (λ _. ends_raised tt)
            (λ _. ends_returned (kept.reset s h)))

  on_task_resource-Good :
      (vars : Vars) (response : Response) (task : Task) (s : S)
      → HasGiven (host.request monitor_uri) response
      → (monitor_is_task && response.status_code == 200) ≡ true
      → host.parse_task response (or_else (either vars.task_uri (some monitor_uri)) []) ≡ ok task
      → Later s
      → Ends GoodStep Anything (
          on_task_resource host operation policy poll_interval deadline monitor_uri monitor_is_task
            vars response task s)
  unfolding on_task_resource is_success
  on_task_resource-Good vars response task s given ok_code parsed h =
      Ends-if (text_eq (state_of task) (str "Completed")) _ _
        (λ t. ends_returned (
          record {
            was_given = given;
            ending = inr (
                inl (record {
                  monitor_found = refl;
                  is_task = ground arith;
                  success = ground arith;
                  task = task;
                  was_parsed = parsed;
                  is_result = refl;
                  completed = t;
                }));
          },
          h,
        ))
        (λ _.
          Ends-if (is_failed_state (state_of task)) _ _ (λ _. ends_raised tt)
            (λ _. pause-Good _ _ s h))

  on_accepted-Good :
      (vars : Vars) (response : Response) (task : Option Task) (s : S)
      → Later s
      → Ends GoodStep Anything (
          on_accepted host operation policy poll_interval deadline monitor_uri monitor_is_task vars
            response task s)
  unfolding on_accepted
  on_accepted-Good vars response task s h = pause-Good _ (noting task vars) s h

  abbrev Verified : Vars → Response → Task → S → Type ℓ
  Verified vars response task s =
      IsFinished host monitor_uri monitor_is_task (
        result host operation policy poll_interval deadline monitor_uri monitor_is_task vars
          response (some task) true)
      × Later s

  verify_state-Good :
      (vars : Vars) (monitor_response : Response) (task : Task) (s : S)
      → HasGiven (host.request monitor_uri) monitor_response
      → (monitor_response.status_code == 404 || monitor_response.status_code == 410) ≡ true
      → (answer : Response) → HasGiven (host.request (or_else vars.task_uri [])) answer
      → (answer.status_code == 200) ≡ true
      → host.parse_task answer (or_else vars.task_uri []) ≡ ok task
      → Later s
      → Ends (Verified vars monitor_response) Anything (
          verify_state host operation policy poll_interval deadline monitor_uri monitor_is_task vars
            monitor_response task s)
  unfolding verify_state
  verify_state-Good vars monitor_response task s given gone answer answered is_ok parsed h =
      Ends-if (not (is_terminal_state (state_of task))) _ _ (λ _. ends_raised tt)
        (λ t.
          Ends-if (is_failed_state (state_of task)) _ _ (λ _. ends_raised tt)
            (λ f. ends_returned (
              record {
                was_given = given;
                ending = inr (
                    inr (record {
                      monitor_missing = refl;
                      gone = gone;
                      answer = answer;
                      was_given = answered;
                      success = is_ok;
                      task = task;
                      was_parsed = parsed;
                      is_result = refl;
                      completed = ground arith;
                    }));
              },
              h,
            )))

  lift-Good :
      {A : Type 0} (r : Result A) (s : S)
      → Later s
      → Ends (λ a s. (r ≡ ok a) × Later s) Anything (lift r s)
  lift-Good (ok a) s h = ends_returned (refl, h)
  lift-Good (err e) s h = ends_raised tt

  verify_task-Good :
      (vars : Vars) (monitor_response response : Response) (s : S)
      → HasGiven (host.request monitor_uri) monitor_response
      → (monitor_response.status_code == 404 || monitor_response.status_code == 410) ≡ true
      → HasGiven (host.request (or_else vars.task_uri [])) response
      → Later s
      → Ends (Verified vars monitor_response) Anything (
          verify_task host operation policy poll_interval deadline monitor_uri monitor_is_task vars
            monitor_response response s)
  unfolding verify_task
  verify_task-Good vars monitor_response response s given gone answered h =
      Ends-if (not (response.status_code == 200)) _ _ (λ _. ends_raised tt)
        (λ is_ok.
          Ends-bind (lift (host.parse_task response (or_else vars.task_uri []))) _ s
            (lift-Good (host.parse_task response (or_else vars.task_uri [])) s h)
            (λ task s (parsed, h).
              verify_state-Good vars monitor_response task s given gone response answered
                (ground arith) parsed h))

  request-Good :
      (uri : Text) (s : S)
      → Later s
      → Ends (λ a s. HasGiven (host.request uri) a × Later s) Anything (host.request uri s)
  request-Good uri s h = go (host.request uri s) refl (kept.requested uri s h)
    where
      go :
          (r : Run S Response)
          → host.request uri s ≡ r
          → Later (end_state r)
          → Ends (λ a s. HasGiven (host.request uri) a × Later s) Anything r
      go (returned a s') q h = ends_returned (record { before = s; after = s'; given = q }, h)
      go (raised e s') q h = ends_raised tt

  verify_missing_monitor-Good :
      (vars : Vars) (response : Response) (s : S)
      → HasGiven (host.request monitor_uri) response
      → (response.status_code == 404 || response.status_code == 410) ≡ true
      → Later s
      → Ends (Verified vars response) Anything (
          verify_missing_monitor host operation policy poll_interval deadline monitor_uri
            monitor_is_task vars response s)
  unfolding verify_missing_monitor
  verify_missing_monitor-Good vars response s given gone h =
      Ends-if (not (truthy vars.task_uri)) _ _ (λ _. ends_raised tt)
        (λ _.
          Ends-bind (host.request (or_else vars.task_uri [])) _ s
            (request-Good (or_else vars.task_uri []) s h)
            (λ answer s (answered, h).
              verify_task-Good vars response answer s given gone answered h))

  on_answer-Good :
      (vars : Vars) (response : Response) (s : S)
      → HasGiven (host.request monitor_uri) response
      → Later s
      → Ends GoodStep Anything (
          on_answer host operation policy poll_interval deadline monitor_uri monitor_is_task vars
            response s)
  unfolding on_answer
  on_answer-Good vars response s given h =
      Ends-if (monitor_is_task && response.status_code == 200) _ _
        (λ t.
          Ends-bind (lift (host.parse_task response _)) _ s (lift-Good _ s h)
            (λ task s (parsed, h). on_task_resource-Good vars response task s given t parsed h))
        (λ not_task.
          Ends-if (response.status_code == 202) _ _
            (λ _.
              Ends-bind (lift (host.task_from_response response monitor_uri)) _ s (lift-Good _ s h)
                (λ task s (_, h). on_accepted-Good vars response task s h))
            (λ not_202.
              Ends-if (response.status_code == 404 || response.status_code == 410) _ _
                (λ gone.
                  Ends-bind
                    (verify_missing_monitor host operation policy poll_interval deadline monitor_uri
                      monitor_is_task vars response)
                    _ s (verify_missing_monitor-Good vars response s given gone h)
                    (λ task s verified. ends_returned verified))
                (λ _.
                  Ends-if (not (is_success response.status_code)) _ _ (λ _. ends_raised tt)
                    (λ success. ends_returned (
                      record {
                        was_given = given;
                        ending = inl (record {
                          monitor_found = refl;
                          success = ground arith;
                          not_accepted = not_202;
                          not_task = not_task;
                        });
                      },
                      h,
                    )))))

  on_response-Good :
      (vars : Vars) (response : Response) (s : S)
      → HasGiven (host.request monitor_uri) response
      → Later s
      → Ends GoodStep Anything (
          on_response host operation policy poll_interval deadline monitor_uri monitor_is_task vars
            response s)
  unfolding on_response
  on_response-Good vars response s given h =
      Ends-if (is_auth_failure response.status_code) _ _
        (λ _. on_unauthorized-Good vars response s h) (λ _. on_answer-Good _ response s given h)

  -- A round keeps the predicate, once the request has established it.
  pub round-Good :
      (vars : Vars) (s : S)
      → Later (end_state (host.request monitor_uri s))
      → Ends GoodStep Anything
          (round host operation policy poll_interval deadline monitor_uri monitor_is_task vars s)
  unfolding round
  round-Good vars s h = go (host.request monitor_uri s) refl h
    where
      go :
          (r : Run S Response)
          → host.request monitor_uri s ≡ r
          → Later (end_state r)
          → Ends GoodStep Anything (elim r [
            | returned response s' ↦
                on_response host operation policy poll_interval deadline monitor_uri monitor_is_task
                  vars response s'
            | raised e s' ↦
                on_request_error host operation policy poll_interval deadline monitor_uri
                  monitor_is_task vars e s'
          ])
      go (returned response s') q h =
          on_response-Good vars response s' (record { before = s; after = s'; given = q }) h
      go (raised e s') q h = on_request_error-Good vars e s' h

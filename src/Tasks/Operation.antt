-- ===== src/Tasks/Operation.antt =====
-- `wait_for_operation` and `_verify_missing_monitor` of redfish_sdk/managers/task.py.
use redfish_python_sdk.Prelude.{
  ℕ, zero, suc, ◌+◌, Bool, true, false, not, ◌&&◌, ◌||◌, ◌==◌, Option, none, some, [], Text, str,
  text_eq, leb, ltb, if◌then◌else◌,
}
use redfish_python_sdk.Exceptions.{
  Exc, Reason, connection_error, timeout_error, auth_error, validation_error, async_operation_error,
  timed_out, not_asynchronous, cannot_reconnect, refresh_failed_while_monitoring,
  unauthorized_after_refresh, reauthentication_exhausted, failure_state, http_failure,
  monitor_disappeared, task_cannot_verify, monitor_gone_after_failure,
}
use redfish_python_sdk.Exec.{Exec, returned, raised, pure, raise, lift, ◌>>=◌, ◌>>◌}
use redfish_python_sdk.HttpClient.Defs.{Response, get_header}
use redfish_python_sdk.HttpClient.Session.{truthy, or_else, is_auth_failure, is_session, is_success}
use redfish_python_sdk.Tasks.Defs.{
  Task, TaskRecoveryPolicy, Operation, AsyncOperationResult, Host, is_failed_state,
  is_terminal_state, state_of, either, is_task_resource_uri, offline_delay, retry_after_seconds,
  sleep,
}

-- except (RedfishConnectionError, RedfishTimeoutError)
abbrev pub is_unreachable : Exc → Bool
is_unreachable (connection_error _ _) = true
is_unreachable (timeout_error _) = true
is_unreachable _ = false

-- except RedfishAuthError
abbrev pub auth_code : Exc → Option ℕ
auth_code (auth_error code) = some code
auth_code _ = none

-- The variables of the loop.
pub record Vars : Type 0 where
  pub connection_attempts : ℕ
  pub auth_attempts : ℕ
  pub last_task : Option Task
  pub task_uri : Option Text

-- How a round of the loop ends, where it does not raise: `return`, or `continue`.
pub data Step : Type 0 where
  done : AsyncOperationResult → Step
  again : Vars → Step

abbrev pub or_delay : Option ℕ → Option ℕ → Option ℕ
or_delay none d = d
or_delay (some d) _ = some d

abbrev pub delay_or : Option ℕ → ℕ → ℕ
delay_or none d = d
delay_or (some d) _ = d

abbrev pub task_delay {ℓ} : {S : Type ℓ} → Host S → Option Task → Option ℕ
task_delay host none = none
task_delay host (some task) = offline_delay host task.messages

abbrev pub noting : Option Task → Vars → Vars
noting none vars = vars
noting (some task) vars = record vars {
  last_task = some task;
  task_uri = either vars.task_uri task.odata_id;
}

module _ {ℓ} {S : Type ℓ} (host : Host S) (operation : Operation) (policy : TaskRecoveryPolicy)
    (poll_interval deadline : ℕ) (monitor_uri : Text) (task_resource_location : Bool) where
  abbrev failure : ℕ → Reason → Vars → ℕ → Exc
  failure code reason vars attempts =
      async_operation_error code reason monitor_uri (or_else vars.task_uri []) attempts

  abbrev pub result : Vars → Response → Option Task → Bool → AsyncOperationResult
  result vars response task monitor_missing = record {
    initial_http_status = operation.http_status;
    task_monitor_uri = monitor_uri;
    task_uri = vars.task_uri;
    initial_retry_after = operation.retry_after;
    final_response = response;
    task = task;
    monitor_missing = monitor_missing;
  }

  unfoldable pub pause : ℕ → Vars → Exec S Step
  unfolding sleep
  pause delay vars = do sleep host delay deadline; pure (again vars)

  abbrev pub on_auth_error : Vars → Exc → Option ℕ → Exec S Step
  on_auth_error vars e none = raise e
  on_auth_error vars e (some code) = raise (failure code refresh_failed_while_monitoring vars 1)

  -- The `except` clauses around the request.
  unfoldable pub on_request_error : Vars → Exc → Exec S Step
  unfolding pause
  on_request_error vars e s =
      if is_unreachable e
      then if leb policy.max_connection_attempts vars.connection_attempts
        then raised (failure 0 cannot_reconnect vars vars.connection_attempts) s
        else pause policy.recovery_interval
            (record vars { connection_attempts = vars.connection_attempts + 1 }) s
      else on_auth_error vars e (auth_code e) s

  -- response.status_code in (401, 403)
  unfoldable pub on_unauthorized : Vars → Response → Exec S Step
  on_unauthorized vars response s =
      if is_session (host.auth_mode s)
      then raised (failure response.status_code unauthorized_after_refresh vars 1) s
      else if leb policy.max_auth_attempts vars.auth_attempts
      then raised (failure response.status_code reauthentication_exhausted vars vars.auth_attempts)
          s
      else returned (again (record vars { auth_attempts = vars.auth_attempts + 1 }))
          (host.reset_basic_auth s)

  -- The monitor is the task itself, and was answered 200.
  unfoldable pub on_task_resource : Vars → Response → Task → Exec S Step
  unfolding pause get_header
  on_task_resource vars response task s =
      if text_eq (state_of task) (str "Completed")
      then returned (done (result vars response (some task) false)) s
      else if is_failed_state (state_of task)
      then raised (failure response.status_code failure_state vars 0) s
      else pause
          (delay_or
            (or_delay (retry_after_seconds host s (get_header (str "Retry-After") response.headers))
              (offline_delay host task.messages))
            poll_interval)
          (record vars { last_task = some task }) s

  -- 202
  unfoldable pub on_accepted : Vars → Response → Option Task → Exec S Step
  unfolding pause get_header
  on_accepted vars response task s =
      pause
        (delay_or
          (or_delay (retry_after_seconds host s (get_header (str "Retry-After") response.headers))
            (task_delay host task))
          poll_interval)
        (noting task vars) s

  -- The end of `_verify_missing_monitor`.
  unfoldable pub verify_state : Vars → Response → Task → Exec S Task
  verify_state vars response task s =
      if not (is_terminal_state (state_of task))
      then raised (failure response.status_code monitor_disappeared vars 0) s
      else if is_failed_state (state_of task)
      then raised (failure response.status_code monitor_gone_after_failure vars 0) s
      else returned task s

  -- The answer of the task resource.
  unfoldable pub verify_task : Vars → Response → Response → Exec S Task
  unfolding verify_state
  verify_task vars monitor_response response s =
      if not (response.status_code == 200)
      then raised (failure response.status_code task_cannot_verify vars 0) s
      else (do
        task ← lift (host.parse_task response (or_else vars.task_uri []))
        verify_state vars monitor_response task)
          s

  -- `_verify_missing_monitor`
  unfoldable pub verify_missing_monitor : Vars → Response → Exec S Task
  unfolding verify_task
  verify_missing_monitor vars monitor_response s =
      if not (truthy vars.task_uri)
      then raised
          (async_operation_error monitor_response.status_code monitor_disappeared monitor_uri [] 0)
          s
      else (host.request (or_else vars.task_uri []) >>= verify_task vars monitor_response) s

  -- The part of a round after the answer, once the connection attempts are reset.
  unfoldable pub on_answer : Vars → Response → Exec S Step
  unfolding on_task_resource on_accepted verify_missing_monitor is_success
  on_answer vars response s =
      let code = response.status_code in
      if task_resource_location && code == 200
      then (do
        task ←
            lift (host.parse_task response (or_else (either vars.task_uri (some monitor_uri)) []))
        on_task_resource vars response task)
          s
      else if code == 202
      then (do
        task ← lift (host.task_from_response response monitor_uri)
        on_accepted vars response task)
          s
      else if code == 404 || code == 410
      then (do
        task ← verify_missing_monitor vars response
        pure (done (result vars response (some task) true)))
          s
      else if not (is_success code)
      then raised (failure code http_failure vars 0) s
      else returned (done (result vars response vars.last_task false)) s

  -- The part of a round after the answer.
  unfoldable pub on_response : Vars → Response → Exec S Step
  unfolding on_unauthorized on_answer
  on_response vars response s =
      if is_auth_failure response.status_code
      then on_unauthorized vars response s
      else on_answer (record vars { connection_attempts = 0 }) response s

  unfoldable pub round : Vars → Exec S Step
  unfolding on_request_error on_response
  round vars s = elim (host.request monitor_uri s) [
    | returned response s' ↦ on_response vars response s'
    | raised e s' ↦ on_request_error vars e s'
  ]

  abbrev pub continue_with :
      (Vars → Exec S (Option AsyncOperationResult)) → Step → Exec S (Option AsyncOperationResult)
  continue_with rest (done r) = pure (some r)
  continue_with rest (again vars) = rest vars

  -- The `while` loop; none is that the fuel ran out.
  unfoldable pub poll : ℕ → Vars → Exec S (Option AsyncOperationResult)
  unfolding round
  poll zero vars s = returned none s
  poll (suc fuel) vars s =
      if ltb (host.now s) deadline
      then (round vars >>= continue_with (λ vars. poll fuel vars)) s
      else raised timed_out s

module _ {ℓ} {S : Type ℓ} (host : Host S) (operation : Operation) (policy : TaskRecoveryPolicy)
    (poll_interval timeout : ℕ) where
  abbrev pub initial_pause : Option ℕ → ℕ → Exec S (Unit {0})
  initial_pause none deadline = pure tt
  initial_pause (some delay) deadline = sleep host delay deadline

  abbrev pub monitored_uri : Text
  monitored_uri = or_else operation.task_monitor []

  abbrev pub is_monitor_task : Bool
  is_monitor_task =
      is_task_resource_uri monitored_uri (either operation.task_uri operation.odata_id)

  abbrev pub start_vars : Vars
  start_vars = record {
    connection_attempts = 0;
    auth_attempts = 0;
    last_task = none;
    task_uri =
        if is_monitor_task
        then either (either operation.task_uri operation.odata_id) (some monitored_uri)
        else either operation.task_uri operation.odata_id;
  }

  -- `wait_for_operation`
  unfoldable pub wait_for_operation : ℕ → Exec S (Option AsyncOperationResult)
  unfolding poll sleep is_task_resource_uri retry_after_seconds
  wait_for_operation fuel s =
      let deadline = host.now s + timeout in
      if not (operation.http_status == 202) || not (truthy operation.task_monitor)
      then raised (validation_error not_asynchronous) s
      else (initial_pause (retry_after_seconds host s operation.retry_after) deadline
            >> poll host operation policy poll_interval deadline monitored_uri is_monitor_task fuel
                start_vars)
          s

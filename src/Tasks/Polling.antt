-- ===== src/Tasks/Polling.antt =====
-- `wait_for_task` of redfish_sdk/managers/task.py.
pub mod Laws
use redfish_python_sdk.Prelude.{
  ℕ, zero, suc, ◌+◌, Bool, true, false, Option, none, some, [], Text, str, starts_with, leb, ltb,
  if◌then◌else◌,
}
use redfish_python_sdk.Exceptions.{
  Exc, Reason, async_operation_error, timed_out, cannot_reconnect, refresh_failed_while_monitoring,
  reauthentication_exhausted,
}
use redfish_python_sdk.Exec.{Exec, Run, returned, raised, pure, raise, ◌>>=◌, ◌>>◌}
use redfish_python_sdk.HttpClient.Session.{is_session}
use redfish_python_sdk.Tasks.Defs.{
  Task, TaskRecoveryPolicy, Host, is_terminal_state, state_of, offline_delay, sleep,
}
use redfish_python_sdk.Tasks.Operation.{is_unreachable, auth_code}

-- The counters of the loop.
pub record Attempts : Type 0 where
  pub connection_attempts : ℕ
  pub auth_attempts : ℕ

pub data Turn : Type 0 where
  finished : Task → Turn
  waiting : Attempts → Turn

-- self._offline_delay(task) or float(poll_interval)
abbrev pub positive_or : Option ℕ → ℕ → ℕ
positive_or none d = d
positive_or (some zero) d = d
positive_or (some (suc n)) _ = suc n

module _ {ℓ} {S : Type ℓ} (host : Host S) (policy : TaskRecoveryPolicy) (poll_interval deadline : ℕ)
    (task_id : Text) where
  -- task_id if task_id.startswith("/") else ""
  unfoldable pub uri_of_id : Text
  unfolding starts_with
  uri_of_id = if starts_with task_id (str "/") then task_id else []

  abbrev pub task_failure : ℕ → Reason → ℕ → Exc
  task_failure code reason attempts = async_operation_error code reason [] uri_of_id attempts

  unfoldable pub wait_turn : ℕ → Attempts → Exec S Turn
  unfolding sleep
  wait_turn delay attempts = sleep host delay deadline >> pure (waiting attempts)

  -- except RedfishAuthError
  abbrev pub on_expired : Attempts → Exc → Option ℕ → Exec S Turn
  on_expired attempts e none s = raised e s
  on_expired attempts e (some code) s =
      if is_session (host.auth_mode s)
      then raised (task_failure code refresh_failed_while_monitoring 1) s
      else if leb policy.max_auth_attempts attempts.auth_attempts
      then raised (task_failure code reauthentication_exhausted attempts.auth_attempts) s
      else returned (waiting (record attempts { auth_attempts = attempts.auth_attempts + 1 }))
          (host.reset_basic_auth s)

  -- The `except` clauses around `get`.
  unfoldable pub on_get_error : Attempts → Exc → Exec S Turn
  unfolding wait_turn uri_of_id
  on_get_error attempts e s =
      if is_unreachable e
      then if leb policy.max_connection_attempts attempts.connection_attempts
        then raised (task_failure 0 cannot_reconnect attempts.connection_attempts) s
        else wait_turn policy.recovery_interval
            (record attempts { connection_attempts = attempts.connection_attempts + 1 }) s
      else on_expired attempts e (auth_code e) s

  unfoldable pub on_task : Attempts → Task → Exec S Turn
  unfolding wait_turn
  on_task attempts task s =
      if is_terminal_state (state_of task)
      then returned (finished task) s
      else wait_turn (positive_or (offline_delay host task.messages) poll_interval)
          (record attempts { connection_attempts = 0 }) s

  unfoldable pub turn : Attempts → Exec S Turn
  unfolding on_get_error on_task
  turn attempts s = elim (host.get task_id s) [
    | returned task s' ↦ on_task attempts task s'
    | raised e s' ↦ on_get_error attempts e s'
  ]

  abbrev pub next_turn : (Attempts → Exec S (Option Task)) → Turn → Exec S (Option Task)
  next_turn rest (finished task) = pure (some task)
  next_turn rest (waiting attempts) = rest attempts

  -- The `while` loop; none is that the fuel ran out.
  unfoldable pub turns : ℕ → Attempts → Exec S (Option Task)
  unfolding turn
  turns zero attempts s = returned none s
  turns (suc fuel) attempts s =
      if ltb (host.now s) deadline
      then (turn attempts >>= next_turn (λ attempts. turns fuel attempts)) s
      else raised timed_out s

-- `wait_for_task`
unfoldable pub wait_for_task {ℓ} :
    {S : Type ℓ} (host : Host S) (policy : TaskRecoveryPolicy) (poll_interval timeout : ℕ)
    (task_id : Text) (fuel : ℕ)
    → Exec S (Option Task)
unfolding turns
wait_for_task host policy poll_interval timeout task_id fuel s =
    turns host policy poll_interval (host.now s + timeout) task_id fuel
      (record { connection_attempts = 0; auth_attempts = 0 }) s

-- ===== src/Tasks/Finished.antt =====
-- What the result of `wait_for_operation` of redfish_sdk/managers/task.py says of the operation.
use redfish_python_sdk.Prelude.{
  ℕ, zero, suc, ◌+◌, ◌≡◌, Bool, false, not, ◌||◌, ◌==◌, Option, none, some, [], Text, ltb,
}
use redfish_python_sdk.Exec.{Exec, Run, returned, raised}
use redfish_python_sdk.Exec.Ends.{Ends, ends_returned, ends_raised, Ends-bind, Ends-if}
use redfish_python_sdk.HttpClient.Session.{truthy}
use redfish_python_sdk.Tasks.Defs.{
  TaskRecoveryPolicy, Operation, AsyncOperationResult, Host, retry_after_seconds,
}
use redfish_python_sdk.Tasks.Operation.{
  Vars, Step, done, again, round, continue_with, poll, wait_for_operation, is_monitor_task,
  monitored_uri, initial_pause, start_vars,
}
use redfish_python_sdk.Tasks.Rounds.{IsFinished, IsKept, Anything, GoodStep, sleep-Good, round-Good}

module _ {ℓ} {S : Type ℓ} (host : Host S) (operation : Operation) (policy : TaskRecoveryPolicy)
    (poll_interval : ℕ) where
  Anything-kept : IsKept host Anything
  Anything-kept = record { slept = λ d s h. tt; reset = λ s h. tt; requested = λ uri s h. tt }

  abbrev GoodResult : Text → Bool → Option AsyncOperationResult → S → Type ℓ
  GoodResult monitor_uri monitor_is_task none _ = Unit {ℓ}
  GoodResult monitor_uri monitor_is_task (some r) _ = IsFinished host monitor_uri monitor_is_task r

  module _ (deadline : ℕ) (monitor_uri : Text) (monitor_is_task : Bool) where
    continue_with-Good :
        (rest : Vars → Exec S (Option AsyncOperationResult))
        → ((vars : Vars) (s : S)
            → Ends (GoodResult monitor_uri monitor_is_task) Anything (rest vars s))
        → (step : Step) (s : S)
        → GoodStep host operation policy poll_interval deadline monitor_uri monitor_is_task
            Anything-kept step s
        → Ends (GoodResult monitor_uri monitor_is_task) Anything (
            continue_with host operation policy poll_interval deadline monitor_uri monitor_is_task
              rest step s)
    continue_with-Good rest good (done r) s (h, _) = ends_returned h
    continue_with-Good rest good (again vars) s h = good vars s

    poll-Good :
        (fuel : ℕ) (vars : Vars) (s : S)
        → Ends (GoodResult monitor_uri monitor_is_task) Anything (
            poll host operation policy poll_interval deadline monitor_uri monitor_is_task fuel vars
              s)
    unfolding poll
    poll-Good zero vars s = ends_returned tt
    poll-Good (suc fuel) vars s =
        Ends-if (ltb (host.now s) deadline) _ _
          (λ _.
            Ends-bind
              (round host operation policy poll_interval deadline monitor_uri monitor_is_task vars)
              _ s
              (round-Good host operation policy poll_interval deadline monitor_uri monitor_is_task
                Anything-kept vars s tt)
              (continue_with-Good _ (λ vars s. poll-Good fuel vars s)))
          (λ _. ends_raised tt)

  module _ (timeout : ℕ) where
    initial_pause-Good :
        (delay : Option ℕ) (deadline : ℕ) (s : S)
        → Ends
            (λ _ _. Unit {ℓ})
            Anything
            (initial_pause host operation policy poll_interval timeout delay deadline s)
    initial_pause-Good none deadline s = ends_returned tt
    initial_pause-Good (some delay) deadline s =
        sleep-Good host operation policy poll_interval deadline [] false Anything-kept delay s tt

    returned-IsFinished :
        (monitor_uri : Text) (monitor_is_task : Bool) (run : Run S (Option AsyncOperationResult))
        (r : AsyncOperationResult) (s : S)
        → Ends (GoodResult monitor_uri monitor_is_task) Anything run
        → run ≡ returned (some r) s
        → IsFinished host monitor_uri monitor_is_task r
    returned-IsFinished u b (returned none s') r s h e = absurd (cc e)
    returned-IsFinished u b (returned (some r') s') r s (ends_returned h) e =
        let e' : r' ≡ r = cc e in rw (← e') h
    returned-IsFinished u b (raised x s') r s h e = absurd (cc e)

    -- `wait_for_operation` returns a result only for an operation that has ended well. Its final
    -- response is one that the monitor has given. Either it is a success other than 202, and not a
    -- 200 of a monitor that is the task itself; or the monitor is the task itself, and the result
    -- is the task that its answer 200 was parsed to, in the state Completed; or it is a 404 or 410,
    -- and the result is the task that a 200 answer of the task's own URI was parsed to, in the
    -- state Completed.
    pub wait_for_operation-IsFinished :
        (fuel : ℕ) (s s' : S) (r : AsyncOperationResult)
        → wait_for_operation host operation policy poll_interval timeout fuel s
          ≡ returned (some r) s'
        → IsFinished host
            (monitored_uri host operation policy poll_interval timeout)
            (is_monitor_task host operation policy poll_interval timeout)
            r
    unfolding wait_for_operation
    wait_for_operation-IsFinished fuel s s' r e =
        returned-IsFinished (monitored_uri host operation policy poll_interval timeout)
          (is_monitor_task host operation policy poll_interval timeout) _ r s'
          (Ends-if (not (operation.http_status == 202) || not (truthy operation.task_monitor)) _ _
            (λ _. ends_raised tt)
            (λ _.
              Ends-bind
                (initial_pause host operation policy poll_interval timeout
                  (retry_after_seconds host s operation.retry_after) (host.now s + timeout))
                _ s
                (initial_pause-Good (retry_after_seconds host s operation.retry_after)
                  (host.now s + timeout) s)
                (λ _ s _.
                  poll-Good _ _ _ fuel (start_vars host operation policy poll_interval timeout) s)))
          e

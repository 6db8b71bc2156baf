-- ===== src/Tasks/Deadline.antt =====
-- The loop of `wait_for_operation` of redfish_sdk/managers/task.py ends by its deadline.
use redfish_python_sdk.Prelude.{
  ℕ, zero, suc, ◌+◌, ◌≤◌, ◌<◌, ◌≢◌, Bool, false, not, ◌||◌, ◌==◌, Option, none, some, [], Text, ltb,
  arith,
}
use redfish_python_sdk.Exec.{Exec, Run, returned, raised}
use redfish_python_sdk.Exec.Ends.{Ends, ends_returned, ends_raised, Ends-bind, Ends-if}
use redfish_python_sdk.HttpClient.Session.{truthy}
use redfish_python_sdk.Tasks.Defs.{
  TaskRecoveryPolicy, Operation, AsyncOperationResult, Host, IsClock, retry_after_seconds,
}
use redfish_python_sdk.Tasks.Operation.{
  Vars, Step, done, again, round, continue_with, poll, wait_for_operation, initial_pause,
  start_vars,
}
use redfish_python_sdk.Tasks.Rounds.{IsKept, Anything, GoodStep, sleep-Good, round-Good}

module _ {ℓ} {S : Type ℓ} (host : Host S) (clock : IsClock host) (operation : Operation)
    (policy : TaskRecoveryPolicy) (poll_interval : ℕ) where
  record After (start : ℕ) (s : S) : Type ℓ where
    later : start < host.now s

  After-kept : (start : ℕ) → IsKept host (After start)
  After-kept start = record {
    slept = λ d s h. record { later = omega (arith, clock.slept d s, h.later) };
    reset = λ s h. record { later = omega (arith, clock.reset s, h.later) };
    requested = λ uri s h. record { later = omega (arith, clock.requested uri s, h.later) };
  }

  -- The fuel never runs out.
  record Exhausted : Type ℓ where
    impossible : ⊥

  abbrev Finished : Option AsyncOperationResult → S → Type ℓ
  Finished none _ = Exhausted
  Finished (some r) _ = Unit {ℓ}

  module _ (deadline : ℕ) (monitor_uri : Text) (monitor_is_task : Bool) where
    continue_with-Ends :
        (start : ℕ) (rest : Vars → Exec S (Option AsyncOperationResult))
        → ((vars : Vars) (s : S) → After start s → Ends Finished Anything (rest vars s))
        → (step : Step) (s : S)
        → GoodStep host operation policy poll_interval deadline monitor_uri monitor_is_task
            (After-kept start)
            step
            s
        → Ends Finished Anything (
            continue_with host operation policy poll_interval deadline monitor_uri monitor_is_task
              rest step s)
    continue_with-Ends start rest good (done r) s h = ends_returned tt
    continue_with-Ends start rest good (again vars) s h = good vars s h

    poll-Ends :
        (fuel : ℕ) (vars : Vars) (s : S)
        → 0 < fuel
        → deadline < fuel + host.now s
        → Ends Finished Anything (
            poll host operation policy poll_interval deadline monitor_uri monitor_is_task fuel vars
              s)
    unfolding poll
    poll-Ends zero vars s positive lt = absurd (omega arith)
    poll-Ends (suc fuel) vars s positive lt =
        Ends-if (ltb (host.now s) deadline) _ _
          (λ before.
            Ends-bind
              (round host operation policy poll_interval deadline monitor_uri monitor_is_task vars)
              _ s
              (round-Good host operation policy poll_interval deadline monitor_uri monitor_is_task
                (After-kept (host.now s)) vars s (record { later = clock.requested monitor_uri s }))
              (continue_with-Ends (host.now s) _ (λ vars s' after.
                poll-Ends fuel vars s' (ground (arith, after.later))
                  (ground (arith, after.later)))))
          (λ _. ends_raised tt)

  module _ (timeout : ℕ) where
    record NotBefore (start : ℕ) (s : S) : Type ℓ where
      later : start ≤ host.now s

    NotBefore-kept : (start : ℕ) → IsKept host (NotBefore start)
    NotBefore-kept start = record {
      slept = λ d s h. record { later = omega (arith, clock.slept d s, h.later) };
      reset = λ s h. record { later = omega (arith, clock.reset s, h.later) };
      requested = λ uri s h. record { later = omega (arith, clock.requested uri s, h.later) };
    }

    initial_pause-NotBefore :
        (delay : Option ℕ) (deadline : ℕ) (s : S)
        → Ends
            (λ _. NotBefore (host.now s))
            Anything
            (initial_pause host operation policy poll_interval timeout delay deadline s)
    initial_pause-NotBefore none deadline s = ends_returned (record { later = omega arith })
    initial_pause-NotBefore (some delay) deadline s =
        sleep-Good host operation policy poll_interval deadline [] false
          (NotBefore-kept (host.now s)) delay s (record { later = omega arith })

    not_exhausted :
        (run : Run S (Option AsyncOperationResult)) (s : S)
        → Ends Finished Anything run
        → run ≢ returned none s
    not_exhausted (returned none s') s (ends_returned h) = absurd h.impossible
    not_exhausted (returned (some r) s') s h = λ e. absurd (cc e)
    not_exhausted (raised x s') s h = λ e. absurd (cc e)

    -- Fuel for one round more than the timeout has ticks is enough: `wait_for_operation` returns a
    -- result or raises, whatever the server answers, if each request takes a tick at least.
    pub wait_for_operation_ends :
        (s s' : S)
        → wait_for_operation host operation policy poll_interval timeout (suc timeout) s
          ≢ returned none s'
    unfolding wait_for_operation
    wait_for_operation_ends s s' = not_exhausted _ s' (
        Ends-if (not (operation.http_status == 202) || not (truthy operation.task_monitor)) _ _
          (λ _. ends_raised tt)
          (λ _.
            Ends-bind
              (initial_pause host operation policy poll_interval timeout
                (retry_after_seconds host s operation.retry_after) (host.now s + timeout))
              _ s
              (initial_pause-NotBefore (retry_after_seconds host s operation.retry_after)
                (host.now s + timeout) s)
              (λ _ s later.
                poll-Ends _ _ _ (suc timeout)
                  (start_vars host operation policy poll_interval timeout) s (omega arith)
                  (omega (arith, later.later)))))

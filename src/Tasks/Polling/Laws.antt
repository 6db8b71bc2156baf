-- ===== src/Tasks/Polling/Laws.antt =====
-- `wait_for_task` of redfish_sdk/managers/task.py ends, and with a task that has ended.
use redfish_python_sdk.Prelude.{
  ℕ, zero, suc, ◌+◌, ◌-◌, ◌<◌, ◌≡◌, refl, true, ◌||◌, Option, none, some, Text, leb, ltb, arith,
}
use redfish_python_sdk.Exceptions.{Exc}
use redfish_python_sdk.Exec.{Exec, Run, returned, raised, pure, end_state}
use redfish_python_sdk.Exec.Ends.{Ends, ends_returned, ends_raised, Ends-bind, Ends-if}
use redfish_python_sdk.HttpClient.Session.{is_session}
use redfish_python_sdk.Tasks.Defs.{
  Task, TaskRecoveryPolicy, Host, IsClock, sleep, is_terminal_state, state_of,
}
use redfish_python_sdk.Tasks.Operation.{is_unreachable, auth_code}
use redfish_python_sdk.Tasks.Polling.{
  Attempts, Turn, finished, waiting, wait_turn, on_expired, on_get_error, on_task, turn, next_turn,
  turns, wait_for_task,
}

abbrev Anything {ℓ} : {S : Type ℓ} → S → Type 0
Anything _ = Unit

module _ {ℓ} {S : Type ℓ} (host : Host S) (clock : IsClock host) (policy : TaskRecoveryPolicy)
    (poll_interval : ℕ) (task_id : Text) where
  -- A turn ends later than it began, and with a task only if that has ended.
  abbrev GoodTurn : ℕ → Turn → S → Type 0
  GoodTurn start (finished task) s = is_terminal_state (state_of task) ≡ true
  GoodTurn start (waiting attempts) s = start < host.now s

  -- The loop ended with a task that has ended.
  abbrev GoodEnd : Option Task → S → Type 0
  GoodEnd none _ = ⊥
  GoodEnd (some task) _ = is_terminal_state (state_of task) ≡ true

  module _ (deadline start : ℕ) where
    wait_turn-Good :
        (delay : ℕ) (attempts : Attempts) (s : S)
        → start < host.now s
        → Ends
            (GoodTurn start)
            Anything
            (wait_turn host policy poll_interval deadline task_id delay attempts s)
    unfolding wait_turn sleep
    wait_turn-Good delay attempts s h =
        Ends-bind (sleep host delay deadline) (λ _. pure (waiting attempts)) s slept
          (λ _ s (k : start < host.now s). ends_returned k)
      where
        later : (delay : ℕ) (s : S) → start < host.now s → start < host.now (host.sleep delay s)
        later delay s h = omega (arith, clock.slept delay s, h)

        slept : Ends (λ _ s. start < host.now s) Anything (sleep host delay deadline s)
        slept =
            Ends-if (leb deadline (host.now s) || ltb (deadline - host.now s) delay) _ _
              (λ _. ends_raised tt) (λ _. ends_returned (later delay s h))

    on_expired-Good :
        (attempts : Attempts) (e : Exc) (code : Option ℕ) (s : S)
        → start < host.now s
        → Ends
            (GoodTurn start)
            Anything
            (on_expired host policy poll_interval deadline task_id attempts e code s)
    on_expired-Good attempts e none s h = ends_raised tt
    on_expired-Good attempts e (some code) s h =
        Ends-if (is_session (host.auth_mode s)) _ _ (λ _. ends_raised tt)
          (λ _.
            Ends-if (leb policy.max_auth_attempts attempts.auth_attempts) _ _ (λ _. ends_raised tt)
              (λ _. ends_returned (later s h)))
      where
        later : (s : S) → start < host.now s → start < host.now (host.reset_basic_auth s)
        later s h = omega (arith, clock.reset s, h)

    on_get_error-Good :
        (attempts : Attempts) (e : Exc) (s : S)
        → start < host.now s
        → Ends
            (GoodTurn start)
            Anything
            (on_get_error host policy poll_interval deadline task_id attempts e s)
    unfolding on_get_error
    on_get_error-Good attempts e s h =
        Ends-if (is_unreachable e) _ _
          (λ _.
            Ends-if (leb policy.max_connection_attempts attempts.connection_attempts) _ _
              (λ _. ends_raised tt) (λ _. wait_turn-Good policy.recovery_interval _ s h))
          (λ _. on_expired-Good attempts e (auth_code e) s h)

    on_task-Good :
        (attempts : Attempts) (task : Task) (s : S)
        → start < host.now s
        → Ends
            (GoodTurn start)
            Anything
            (on_task host policy poll_interval deadline task_id attempts task s)
    unfolding on_task
    on_task-Good attempts task s h =
        Ends-if (is_terminal_state (state_of task)) _ _ (λ t. ends_returned t)
          (λ _. wait_turn-Good _ _ s h)

    turn-Good :
        (attempts : Attempts) (s : S)
        → start ≡ host.now s
        → Ends
            (GoodTurn start)
            Anything
            (turn host policy poll_interval deadline task_id attempts s)
    unfolding turn
    turn-Good attempts s e = go (host.get task_id s) (
        let g : host.now s < host.now (end_state (host.get task_id s)) = clock.gotten task_id s in
        rw (← e) at g)
      where
        go :
            (r : Run S Task)
            → start < host.now (end_state r)
            → Ends (GoodTurn start) Anything (elim r [
              | returned task s' ↦
                  on_task host policy poll_interval deadline task_id attempts task s'
              | raised x s' ↦ on_get_error host policy poll_interval deadline task_id attempts x s'
            ])
        go (returned task s') h = on_task-Good attempts task s' h
        go (raised x s') h = on_get_error-Good attempts x s' h

  next_turn-Good :
      (deadline start : ℕ) (rest : Attempts → Exec S (Option Task))
      → ((attempts : Attempts) (s : S)
          → start < host.now s
          → Ends GoodEnd Anything (rest attempts s))
      → (t : Turn) (s : S) → GoodTurn start t s
      → Ends GoodEnd Anything (next_turn host policy poll_interval deadline task_id rest t s)
  next_turn-Good deadline start rest good (finished task) s h = ends_returned h
  next_turn-Good deadline start rest good (waiting attempts) s h = good attempts s h

  turns-Good :
      (deadline fuel : ℕ) (attempts : Attempts) (s : S)
      → 0 < fuel
      → deadline < fuel + host.now s
      → Ends GoodEnd Anything (turns host policy poll_interval deadline task_id fuel attempts s)
  unfolding turns
  turns-Good deadline zero attempts s positive lt = absurd (omega arith)
  turns-Good deadline (suc fuel) attempts s positive lt =
      Ends-if (ltb (host.now s) deadline) _ _
        (λ before.
          Ends-bind (turn host policy poll_interval deadline task_id attempts) _ s
            (turn-Good deadline (host.now s) attempts s refl)
            (next_turn-Good deadline (host.now s) _ (λ attempts s' after.
              turns-Good deadline fuel attempts s' (ground arith) (ground arith))))
        (λ _. ends_raised tt)

  ended :
      (run : Run S (Option Task)) (o : Option Task) (s : S)
      → Ends GoodEnd Anything run
      → run ≡ returned o s
      → (task : Task) × (o ≡ some task) × (is_terminal_state (state_of task) ≡ true)
  ended (returned none s') o s (ends_returned h) e = absurd h
  ended (returned (some task) s') o s (ends_returned h) e = (task, cc e, h)
  ended (raised x s') o s h e = absurd (cc e)

  -- With fuel for one round more than the timeout has ticks, `wait_for_task` raises or returns a
  -- task in one of the terminal states, whatever the server answers, if each request takes a tick
  -- at least.
  pub wait_for_task_ends :
      (timeout : ℕ) (o : Option Task) (s s' : S)
      → wait_for_task host policy poll_interval timeout task_id (suc timeout) s ≡ returned o s'
      → (task : Task) × (o ≡ some task) × (is_terminal_state (state_of task) ≡ true)
  unfolding wait_for_task
  wait_for_task_ends timeout o s s' e =
      ended _ o s' (turns-Good (host.now s + timeout) (suc timeout) _ s (omega arith) (omega arith))
        e

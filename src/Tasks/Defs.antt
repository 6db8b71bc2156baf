-- ===== src/Tasks/Defs.antt =====
-- The data of redfish_sdk/models/task.py, and the helpers of `TaskServiceManager` in
-- redfish_sdk/managers/task.py: `_is_task_resource_uri`, `_offline_delay`, `_retry_after_seconds`
-- and `_sleep`. Time is counted in ticks.
use redfish_python_sdk.Prelude.{
  ℕ, ◌+◌, ◌-◌, ◌<◌, ◌≡◌, Bool, false, not, ◌&&◌, ◌||◌, Option, none, some, List, [], ◌∷◌, Text, str,
  text_eq, is_empty, contains, ends_with, cut, leb, ltb, if◌then◌else◌,
}
use redfish_python_sdk.Exceptions.{timed_out}
use redfish_python_sdk.Result.{Result}
use redfish_python_sdk.Exec.{Exec, returned, raised, end_state}
use redfish_python_sdk.HttpClient.Defs.{AuthenticationMode, Response}
use redfish_python_sdk.HttpClient.Origin.{rstrip_slash}
use redfish_python_sdk.HttpClient.Session.{truthy, or_else}

-- `Message`
pub record Message : Type 0 where
  pub message_id : Option Text
  pub message_args : List Text

-- `Task`
pub record Task : Type 0 where
  pub odata_id : Option Text
  pub task_state : Option Text
  pub messages : List Message

-- `TaskRecoveryPolicy`
pub record TaskRecoveryPolicy : Type 0 where
  pub max_connection_attempts : ℕ
  pub max_auth_attempts : ℕ
  pub recovery_interval : ℕ

-- `RedfishResponse`, what it keeps of the answer to the mutation
pub record Operation : Type 0 where
  pub http_status : ℕ
  pub task_monitor : Option Text
  pub task_uri : Option Text
  pub odata_id : Option Text
  pub retry_after : Option Text

-- `AsyncOperationResult`
pub record AsyncOperationResult : Type 0 where
  pub initial_http_status : ℕ
  pub task_monitor_uri : Text
  pub task_uri : Option Text
  pub initial_retry_after : Option Text
  pub final_response : Response
  pub task : Option Task
  pub monitor_missing : Bool

-- What the monitoring uses of the process and of the HTTP client. `now` is time.monotonic() and
-- `request` is `_request("GET", …)`; `parse_task` is `_parse` with the model Task, and
-- `task_from_response` is `_task_from_response`, both of pydantic; `seconds` is `float(value)`,
-- no less than 0, where it does not raise, and `seconds_until` reads an HTTP date.
pub record Host {ℓ} (S : Type ℓ) : Type ℓ where
  pub now : S → ℕ
  pub sleep : ℕ → S → S
  pub request : Text → Exec S Response
  pub get : Text → Exec S Task
  pub auth_mode : S → AuthenticationMode
  pub reset_basic_auth : S → S
  pub parse_task : Response → Text → Result Task
  pub task_from_response : Response → Text → Result (Option Task)
  pub seconds : Text → Option ℕ
  pub seconds_until : S → Text → Option ℕ

-- `_TERMINAL_STATES` and `_FAILED_STATES`
abbrev pub is_failed_state : Text → Bool
is_failed_state state =
    text_eq state (str "Exception")
    || text_eq state (str "Killed")
    || text_eq state (str "Cancelled")

abbrev pub is_terminal_state : Text → Bool
is_terminal_state state = text_eq state (str "Completed") || is_failed_state state

-- task.task_state or ""
abbrev pub state_of : Task → Text
state_of task = or_else task.task_state []

-- first or second
abbrev pub either : Option Text → Option Text → Option Text
either first second = if truthy first then first else second

abbrev is_same_uri : Text → Option Text → Bool
is_same_uri location none = false
is_same_uri location (some uri) =
    not (is_empty uri) && text_eq (rstrip_slash location) (rstrip_slash uri)

-- `_is_task_resource_uri`
unfoldable pub is_task_resource_uri : Text → Option Text → Bool
unfolding rstrip_slash contains cut
is_task_resource_uri location task_uri =
    let path = rstrip_slash (cut b'?' location).0 in
    is_same_uri location task_uri
    || (contains path (str "/TaskService/Tasks/") && not (contains path (str "/TaskMonitors/")))

module _ {ℓ} {S : Type ℓ} (host : Host S) where
  -- The first argument that reads as a number.
  unfoldable pub first_seconds : List Text → Option ℕ
  first_seconds [] = none
  first_seconds (value ∷ values) = elim (host.seconds value) [
    | some d ↦ some d
    | none ↦ first_seconds values
  ]

  -- args[1:] if len(args) > 1 else args
  abbrev pub candidates : List Text → List Text
  candidates (a ∷ b ∷ args) = b ∷ args
  candidates args = args

  -- `_offline_delay`
  unfoldable pub offline_delay : List Message → Option ℕ
  unfolding first_seconds ends_with
  offline_delay [] = none
  offline_delay (message ∷ messages) =
      let rest = offline_delay messages in
      if ends_with (or_else message.message_id []) (str "ManagerGoingOfflineTemporarily")
      then elim (first_seconds (candidates message.message_args)) [ some d ↦ some d | none ↦ rest ]
      else rest

  -- `_retry_after_seconds`
  unfoldable pub retry_after_seconds : S → Option Text → Option ℕ
  retry_after_seconds s none = none
  retry_after_seconds s (some value) = elim (host.seconds value) [
    | some d ↦ some d
    | none ↦ host.seconds_until s value
  ]

  -- `_sleep`
  unfoldable pub sleep : ℕ → ℕ → Exec S (Unit {0})
  sleep delay deadline s =
      if leb deadline (host.now s) || ltb (deadline - host.now s) delay
      then raised timed_out s
      else returned tt (host.sleep delay s)

-- What a monotonic clock does: a request takes time, a sleep takes as long as it is told to, and
-- the rest does not move it.
pub record IsClock {ℓ} {S : Type ℓ} (host : Host S) : Type ℓ where
  pub slept : (d : ℕ) (s : S) → host.now (host.sleep d s) ≡ host.now s + d
  pub requested : (uri : Text) (s : S) → host.now s < host.now (end_state (host.request uri s))
  pub gotten : (uri : Text) (s : S) → host.now s < host.now (end_state (host.get uri s))
  pub reset : (s : S) → host.now (host.reset_basic_auth s) ≡ host.now s

-- ===== src/Tasks/Tests.antt =====
-- redfish_sdk/managers/task.py on a server that answers 202 once, and 200 from then on.
use redfish_python_sdk.Prelude.{
  ℕ, ◌≡◌, ◌≢◌, refl, true, false, Option, none, some, [], str, ◌==◌, length, text_eq, strip, any,
  starts_with, contains, cut, if◌then◌else◌,
}
use redfish_python_sdk.Result.{ok}
use redfish_python_sdk.Exec.{Run, returned, end_state}
use redfish_python_sdk.Json.{null}
use redfish_python_sdk.Url.{urlsplit, urlunsplit, port, hostname, username, password}
use redfish_python_sdk.HttpClient.Samples.{client}
use redfish_python_sdk.HttpClient.Defs.{Server, Response, answered}
use redfish_python_sdk.HttpClient.Origin.{resolve_url}
use redfish_python_sdk.HttpClient.Retry.{can_retry, send_loop}
use redfish_python_sdk.HttpClient.Auth.{request}
use redfish_python_sdk.HttpClient.Verbs.{ModelClass, get}
use redfish_python_sdk.Tasks.Defs.{
  Task, TaskRecoveryPolicy, Operation, AsyncOperationResult, Host, is_terminal_state, state_of,
}
use redfish_python_sdk.Tasks.Operation.{wait_for_operation, is_monitor_task, monitored_uri}
use redfish_python_sdk.Tasks.Rounds.{IsFinished}
use redfish_python_sdk.Tasks.Finished.{wait_for_operation-IsFinished}
use redfish_python_sdk.Tasks.Deadline.{wait_for_operation_ends}
use redfish_python_sdk.Tasks.Polling.{wait_for_task}
use redfish_python_sdk.Tasks.Polling.Laws.{wait_for_task_ends}
use redfish_python_sdk.Tasks.Served.{task_from_response, World, http_host, http_host-IsClock}

computing : Unit {0}
unfolding task_from_response wait_for_operation wait_for_task request get send_loop resolve_url
    can_retry text_eq strip any starts_with contains cut urlsplit urlunsplit port hostname username
    password
computing = tt

abbrev answer : ℕ → Response
answer code = record { status_code = code; headers = []; text = []; json = some null }

abbrev server : Server
server history = answered (answer (if length history == 1 then 202 else 200))

-- The state of a task, as the server has it.
abbrev task : Task
task = record { odata_id = some (str "/t/1"); task_state = some (str "Completed"); messages = [] }

abbrev model : ModelClass Task
model = record {
  validate = λ _ _ _. ok task;
  empty = task;
  odata_etag = λ _. none;
  with_etag = λ _ t. t;
}

abbrev host : Host World
host = http_host server (λ _. 1) model (λ _. none) (λ _ _. none)

abbrev start : World
start = record { client = client; now = 100 }

abbrev policy : TaskRecoveryPolicy
policy = record { max_connection_attempts = 3; max_auth_attempts = 1; recovery_interval = 5 }

abbrev operation : Operation
operation = record {
  http_status = 202;
  task_monitor = some (str "/m/1");
  task_uri = none;
  odata_id = none;
  retry_after = none;
}

abbrev outcome : AsyncOperationResult
outcome = record {
  initial_http_status = 202;
  task_monitor_uri = str "/m/1";
  task_uri = none;
  initial_retry_after = none;
  final_response = answer 200;
  task = none;
  monitor_missing = false;
}

abbrev final : Run World (Option AsyncOperationResult)
final = wait_for_operation host operation policy 5 60 61 start

wait_for_operation_test : final ≡ returned (some outcome) (end_state final)
unfolding computing
wait_for_operation_test = refl

wait_for_operation_now : World.now (end_state final) ≡ 109
unfolding computing
wait_for_operation_now = refl

wait_for_operation-IsFinished_example :
    IsFinished host
      (monitored_uri host operation policy 5 60)
      (is_monitor_task host operation policy 5 60)
      outcome
wait_for_operation-IsFinished_example =
    wait_for_operation-IsFinished host operation policy 5 60 61 start (end_state final) outcome
      wait_for_operation_test

wait_for_operation_ends_example :
    wait_for_operation host operation policy 5 60 61 start ≢ returned none start
wait_for_operation_ends_example =
    wait_for_operation_ends host (http_host-IsClock server (λ _. 1) model (λ _. none) (λ _ _. none))
      operation policy 5 60 start start

abbrev last : Run World (Option Task)
last = wait_for_task host policy 5 60 (str "/t/1") 61 start

wait_for_task_test : last ≡ returned (some task) (end_state last)
unfolding computing
wait_for_task_test = refl

wait_for_task_ends_example :
    (t : Task) × (◌≡◌ {A = Option Task} (some task) (some t))
    × (is_terminal_state (state_of t) ≡ true)
wait_for_task_ends_example =
    wait_for_task_ends host (http_host-IsClock server (λ _. 1) model (λ _. none) (λ _ _. none))
      policy 5 (str "/t/1") 60 (some task) start (end_state last) wait_for_task_test

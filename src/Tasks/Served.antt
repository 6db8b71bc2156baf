-- ===== src/Tasks/Served.antt =====
-- The host of redfish_sdk/managers/task.py: the HTTP client of redfish_sdk/http_client.py and a
-- clock that its requests and the pauses of the process move. Tasks are named by their paths.
use redfish_python_sdk.Prelude.{
  ℕ, suc, ◌+◌, ◌<◌, refl, Bool, true, false, Option, none, some, [], Text, str, strip, is_empty,
  ◌||◌, arith, if◌then◌else◌,
}
use redfish_python_sdk.Result.{Result, ok, err}
use redfish_python_sdk.Json.{Json, object, string, Fields, field, get_field}
use redfish_python_sdk.Exec.{Run, returned, raised, end_state}
use redfish_python_sdk.HttpClient.Defs.{default, HttpClient, Server, Response}
use redfish_python_sdk.HttpClient.Session.{reset_basic_auth}
use redfish_python_sdk.HttpClient.Auth.{request}
use redfish_python_sdk.HttpClient.Verbs.{ModelClass, parse, get}
use redfish_python_sdk.Tasks.Defs.{Task, Host, IsClock}

pub record World : Type 0 where
  pub client : HttpClient
  pub now : ℕ

-- How long a request takes beyond the first tick, in view of the client that has sent it.
abbrev pub Latency : Type 0
Latency = HttpClient → ℕ

abbrev pub moved {ℓ} : {A : Type ℓ} → Latency → ℕ → Run HttpClient A → Run World A
moved latency now (returned a c) = returned a (record { client = c; now = suc (now + latency c) })
moved latency now (raised e c) = raised e (record { client = c; now = suc (now + latency c) })

abbrev has_key : Fields → Text → Bool
has_key fields key = elim (get_field key fields) [ none ↦ false | some _ ↦ true ]

-- body.setdefault(key, value)
unfoldable with_default : Text → Text → Fields → Fields
unfolding get_field
with_default key value fields =
    if has_key fields key then fields else field key (string value) fields

abbrev some_task : Result Task → Result (Option Task)
some_task (ok t) = ok (some t)
some_task (err e) = err e

abbrev task_of_body : ModelClass Task → Text → Json → Result (Option Task)
task_of_body model monitor_uri (object fields) =
    if has_key fields (str "TaskState")
      || has_key fields (str "TaskStatus")
      || has_key fields (str "@odata.id")
    then some_task (
        model.validate monitor_uri none
          (object (with_default (str "TaskMonitor") monitor_uri fields)))
    else ok none
task_of_body model monitor_uri _ = ok none

-- `_task_from_response`
unfoldable pub task_from_response : ModelClass Task → Response → Text → Result (Option Task)
unfolding strip get_field with_default
task_from_response model response monitor_uri =
    if is_empty (strip response.text)
    then ok none
    else elim response.json [ none ↦ ok none | some body ↦ task_of_body model monitor_uri body ]

module _ (server : Server) (latency : Latency) (model : ModelClass Task) (seconds : Text → Option ℕ)
    (seconds_until : ℕ → Text → Option ℕ) where
  abbrev pub http_host : Host World
  http_host = record {
    now = λ w. w.now;
    sleep = λ d w. record w { now = w.now + d };
    request =
        λ uri w. moved latency w.now (request server (str "GET") uri true default [] w.client);
    get = λ uri w. moved latency w.now (get server model uri w.client);
    auth_mode = λ w. w.client.auth_mode;
    reset_basic_auth = λ w. record w { client = reset_basic_auth w.client };
    parse_task = λ response uri. parse model response uri;
    task_from_response = λ response uri. task_from_response model response uri;
    seconds = seconds;
    seconds_until = λ w value. seconds_until w.now value;
  }

  moved-later :
      {A : Type 0} (now : ℕ) (r : Run HttpClient A)
      → now < World.now (end_state (moved latency now r))
  moved-later now (returned a c) = omega arith
  moved-later now (raised e c) = omega arith

  pub http_host-IsClock : IsClock http_host
  http_host-IsClock = record {
    slept = λ d w. refl;
    requested =
        λ uri w. moved-later w.now (request server (str "GET") uri true default [] w.client);
    gotten = λ uri w. moved-later w.now (get server model uri w.client);
    reset = λ w. refl;
  }

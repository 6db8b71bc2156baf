-- ===== src/Tasks/Lookup.antt =====
-- `TaskServiceManager.get` and `tasks` of redfish_sdk/managers/task.py, with `_get_task_service`
-- of redfish_sdk/client.py.
use redfish_python_sdk.Prelude.{
  ℕ, Bool, true, false, Option, none, some, [], ◌++◌, Text, str, starts_with, if◌then◌else◌,
}
use redfish_python_sdk.Exceptions.{Exc, not_found, attribute_error}
use redfish_python_sdk.Result.{Result, ok, err}
use redfish_python_sdk.Exec.{Exec, raised, pure, raise, lift, gets, catch, ◌>>=◌}
use redfish_python_sdk.HttpClient.Defs.{HttpClient, Server}
use redfish_python_sdk.HttpClient.Origin.{base_url}
use redfish_python_sdk.HttpClient.Session.{truthy, or_else}
use redfish_python_sdk.HttpClient.Verbs.{ModelClass, get}
use redfish_python_sdk.Collections.{Models, Walk, get_collection}
use redfish_python_sdk.Collections.Served.{http_transport}
use redfish_python_sdk.Members.{select_member}
use redfish_python_sdk.Tasks.Defs.{Task}

-- The links of `RootService` and of `TaskService` that are read: none is a missing link, and
-- within it a link without `@odata.id`.
pub record Root : Type 0 where
  pub task_service : Option (Option Text)
  pub tasks : Option (Option Text)

pub record TaskService : Type 0 where
  pub tasks : Option (Option Text)

abbrev pub uri_of : Option (Option Text) → Option Text
uri_of none = none
uri_of (some uri) = uri

-- getattr(root, "task_service", None) or getattr(root, "tasks", None)
abbrev pub service_link : Root → Option Text
service_link root = elim root.task_service [ some uri ↦ uri | none ↦ uri_of root.tasks ]

-- task_service.tasks.odata_id
abbrev pub collection_link : Option (Option Text) → Result Text
collection_link none = err attribute_error
collection_link (some uri) = ok (or_else uri [])

abbrev pub is_not_found : Exc → Bool
is_not_found not_found = true
is_not_found _ = false

module _ (server : Server) (roots : ModelClass Root) (services : ModelClass TaskService)
    (model : ModelClass Task) (models : Models Task) (strict : Bool) where
  -- `_get_task_service`
  unfoldable pub get_task_service : Exec HttpClient TaskService
  unfolding get
  get_task_service = do
    root ← get server roots (str "/redfish/v1/")
    let link = service_link root
    get server services (if truthy link then or_else link [] else str "/redfish/v1/TaskService")

  -- `tasks`; none is that the fuel of the collection ran out.
  unfoldable pub tasks : ℕ → Exec HttpClient (Option (Walk Task))
  unfolding get_task_service get_collection base_url
  tasks fuel = do
    service ← get_task_service
    odata_id ← lift (collection_link service.tasks)
    base ← gets base_url
    get_collection (http_transport server model) models (base ++ str "/") strict fuel odata_id

  abbrev selected : Text → Option (Walk Task) → Exec HttpClient (Option Task)
  selected task_id none = pure none
  selected task_id (some w) =
      lift (select_member models.id models.odata_id w.expanded_members (some task_id) [])
      >>= λ task. pure (some task)

  -- The `except` clause of `get`.
  unfoldable pub get_unlisted : Text → Exc → Exec HttpClient (Option Task)
  unfolding get_task_service get
  get_unlisted task_id e s =
      if is_not_found e
      then (do
        service ← get_task_service
        let uri = uri_of service.tasks
        if truthy uri
            then (get server model (or_else uri [] ++ str "/" ++ task_id) >>= λ task.
                pure (some task))
            else raise e)
          s
      else raised e s

  -- `get`
  unfoldable pub get_task : ℕ → Text → Exec HttpClient (Option Task)
  unfolding get tasks select_member get_unlisted starts_with
  get_task fuel task_id s =
      if starts_with task_id (str "/")
      then (get server model task_id >>= λ task. pure (some task)) s
      else catch (tasks fuel >>= selected task_id) (get_unlisted task_id) s

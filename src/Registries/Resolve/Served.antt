-- ===== src/Registries/Resolve/Served.antt =====
-- The service of the resolver: `_load_document` of redfish_sdk/managers/registries.py over the
-- manager's cache, and the list of registries, read by the manager's client.
use redfish_python_sdk.Prelude.{List}
use redfish_python_sdk.Exec.{Exec, returned, raised}
use redfish_python_sdk.HttpClient.Defs.{HttpClient, Server}
use redfish_python_sdk.HttpClient.Verbs.{ModelClass}
use redfish_python_sdk.Registries.{Manager, load_document}
use redfish_python_sdk.Registries.Names.{Registry}
use redfish_python_sdk.Registries.Format.{MessageRegistry}
use redfish_python_sdk.Registries.Resolve.{Service}

-- A call of the client, by the manager.
abbrev by_client {ℓ κ} : {D : Type ℓ} {A : Type κ} → Exec HttpClient A → Exec (Manager D) A
by_client call m = elim (call m.client) [
  | returned a c ↦ returned a (record m { client = c })
  | raised e c ↦ raised e (record m { client = c })
]

abbrev pub manager_service :
    Server
    → ModelClass MessageRegistry
    → Exec HttpClient (List Registry)
    → Service (Manager MessageRegistry)
manager_service server model registries = record {
  registries = by_client registries;
  load = λ registry language. load_document server model registry.location language;
}

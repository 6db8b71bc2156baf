-- ===== src/Collections/Served.antt =====
-- The transport of `_get_collection`: `get_raw` and `get` of redfish_sdk/http_client.py.
use redfish_python_sdk.HttpClient.Defs.{HttpClient, Server}
use redfish_python_sdk.HttpClient.Verbs.{ModelClass, get, get_raw}
use redfish_python_sdk.Collections.{Transport}

abbrev pub http_transport {κ} : {M : Type κ} → Server → ModelClass M → Transport HttpClient M
http_transport server model = record { get_raw = get_raw server; get = get server model }

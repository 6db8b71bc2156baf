-- ===== src/Registries/Credentials.antt =====
-- Loading a registry document gives no credentials away: redfish_sdk/managers/registries.py.
use redfish_python_sdk.Result.{Result}
use redfish_python_sdk.Exec.Keeps.{Keeps}
use redfish_python_sdk.HttpClient.Defs.{HttpClient}

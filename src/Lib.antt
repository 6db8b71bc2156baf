-- ===== src/Lib.antt =====
-- redfish_sdk: a client of the Redfish API of server management controllers. The modules below
-- model the parts of it that decide what is sent, to whom, and what the caller gets.
--
-- HttpClient is RedfishHttpClient of redfish_sdk/http_client.py with auth.py and retry.py. Its
-- record (HttpClient/Defs.antt) has the fields of the object, the two credential headers of its
-- session, and what it has sent and slept, newest first. The other end of the network is a
-- parameter, Server: an arbitrary function of everything that was sent so far.
-- HttpClient/Retry.antt is the loop of _send; HttpClient/Origin.antt is _effective_port,
-- _same_origin, _validate_endpoint, _resolve_url, _is_same_origin_target, _validate_external_url,
-- _build_url and _session_collection_from_location; HttpClient/Session.antt is set_auth_token,
-- reset_basic_auth, _validate_managed_headers and _raise_for_status; HttpClient/Auth.antt is
-- _refresh_session, _send, _request, logout, close and clear_active_session; HttpClient/Init.antt
-- is __init__; HttpClient/Lifecycle.antt is the relation of all their calls, with the public
-- verbs of HttpClient/Calls.antt. HttpClient/Redirects.antt is _CredentialSafeSession: a request
-- of the log stands for one call of requests, and `wire` adds the requests that follow its
-- redirects, which the servers choose; should_strip_auth of requests is a parameter.
--
-- HttpClient/Verbs.antt is the ETag store and the verbs get, get_raw, post_raw, patch, patch_raw,
-- delete_raw and delete; a pydantic model is the parameter ModelClass. HttpClient/Downloads.antt
-- has post, post_multipart, download and download_via_post, with the names of files in headers
-- from HttpClient/Filenames.antt; os.path and the decoding of names are parameters.
-- HttpClient/Redact.antt and HttpClient/Scrub.antt are _redact_for_log.
--
-- Collections is RedfishClient._get_collection of redfish_sdk/client.py with _collection_path and
-- _require_resource_identity. It asks a Transport, the interface that HttpClient fills in
-- Collections/Served.antt. The while loop runs on fuel, one unit for each page;
-- Collections/Bounds.antt says how much is enough. Collections/Invariants.antt is what one round
-- keeps, Collections/Outcomes.antt what becomes of a member, Collections/Followed.antt which
-- links are followed, and Collections/Guarded.antt which requests they lead to.
-- Collections/Logged.antt is a transport that logs what it is asked for.
--
-- Tasks is redfish_sdk/managers/task.py with the data of redfish_sdk/models/task.py:
-- Tasks/Operation.antt is wait_for_operation and _verify_missing_monitor, Tasks/Polling.antt is
-- wait_for_task, Tasks/Lookup.antt is get and tasks, Tasks/Defs.antt has their helpers. They use
-- a Host, the HTTP client and the clock, which Tasks/Served.antt fills. Time is counted in ticks,
-- and how float() and an HTTP date read as ticks are parameters; the loops run on fuel, one unit
-- for each tick of the timeout and one more. Registries is redfish_sdk/managers/registries.py
-- with the data of redfish_sdk/models/registry.py: Registries.antt loads documents by
-- _select_location, _fetch_document and _load_document with its cache of 32 documents, the least
-- recently used first; Registries/Names.antt is the two patterns of names, _parse_version and
-- _registry_parts, Registries/Names/Printing.antt what is printed; Registries/Find.antt is
-- _find_registry and _find_referenced_registry; Registries/Format.antt is _resolved_message;
-- Registries/Resolve.antt is resolve, which runs on fuel, one unit for each registry of the
-- chain, and asks a Service that Registries/Resolve/Served.antt fills. Digits are ASCII digits
-- there, and of any number. Gpu is redfish_sdk/managers/gpu_discovery.py: Gpu.antt is
-- _GpuInventory, where a set of identities is a list and every call of add is a Resource;
-- Gpu/Signals.antt has the tests for a GPU and _gpu_from_pcie_device, Gpu/Sources.antt the
-- resources that are read and the Host, Gpu/Discovery.antt the readers and discover_gpus.
-- Policies is PolicyServiceManager of redfish_sdk/managers/policy.py with the data of
-- redfish_sdk/models/policy.py, over the Host of Policies/Data.antt, what it asks of the client.
-- Updates is UpdateServiceManager of redfish_sdk/managers/update.py with
-- redfish_sdk/models/update.py: Updates.antt has the search for actions and the checks,
-- Updates/Requests.antt the values and the Host, Updates/Parameters.antt the parameters and
-- bodies, Updates/Service.antt the methods, and Updates/Strategies.antt simple_update with the
-- registry of redfish_sdk/managers/update_strategies, whose bodies are in Updates/Bodies.antt and
-- Updates/H3c.antt. Vendor is VendorDetector of
-- redfish_sdk/managers/update_strategies/vendor_detect.py; a client is its id(), a number.
-- Members is redfish_sdk/managers/system_resources.py: Members.antt is require_link,
-- select_member and unique_members, Members/System.antt is SystemResourcesManager over the Host
-- of Members/Resources.antt, what it asks of the client.
--
-- Exec.antt is a call of the Python code: a state passed on, and a value or an exception with the
-- state it leaves. Exceptions.antt is redfish_sdk/exceptions.py: each raise site is a Reason in
-- place of its message, and the message of a connection error is written out. Result.antt is a
-- computation without state that may raise. Url.antt, Url/Join.antt and Url/Cuts.antt are what
-- the code uses of urllib.parse, Base64.antt of base64 and str.encode; a text is the list of its
-- code points. Json.antt is a parsed JSON value.
--
-- The retry loop counts down the attempts that range(1, attempts + 1) has left. Time is measured
-- in units of retry_backoff, which is a whole number here. Threads are not modelled:
-- _refresh_session runs under a lock, and the threads that take it are a sequence of calls. Of
-- logging only the redaction is modelled; warnings, proxies, .netrc and TLS settings are left
-- out. The other theorems than those of credentials see a request and its redirects as one.
-- _can_retry compares the method as it is, which the callers pass in upper case. The file system
-- refuses nothing: creating directories, opening and writing a file do not fail. Whatever goes
-- wrong while _load_document writes its error message is one reason. Not modelled either are the
-- other managers of redfish_sdk/managers, which send requests through the transport and return
-- their models, the collection of logs and the extractors of OEM data, the declarations of
-- pydantic models, and the methods of redfish_sdk/client.py that forward to the managers.
mod Prelude
pub mod Exceptions
pub mod Result
pub mod Exec
pub mod Json
pub mod Url
pub mod Base64
pub mod HttpClient
pub mod Collections
pub mod Tasks
pub mod Members
pub mod Vendor
pub mod Registries
pub mod Gpu
pub mod Policies
pub mod Updates

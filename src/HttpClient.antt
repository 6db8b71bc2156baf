-- ===== src/HttpClient.antt =====
-- redfish_sdk/http_client.py, auth.py and retry.py: the transport.
pub mod Scrub
pub mod Filenames
pub mod Defs
pub mod Retry
pub mod Origin
pub mod Session
pub mod Auth
pub mod Init
pub mod Lifecycle
pub mod Verbs
pub mod Redirects
pub mod Calls
pub mod Redact
pub mod Downloads
pub mod Samples
mod Tests

-- ===== src/HttpClient/Samples.antt =====
-- A client of redfish_sdk/http_client.py in basic mode, for the tests.
use redfish_python_sdk.Prelude.{false, none, some, [], str}
use redfish_python_sdk.HttpClient.Defs.{basic, HttpClient}

abbrev pub client : HttpClient
client = record {
  host = str "bmc";
  scheme = str "https";
  retry_5xx = 0;
  retry_on_read_timeout = false;
  retry_backoff = 1;
  username = str "root";
  password = str "pw";
  basic_auth = str "Basic cm9vdDpwdw==";
  auth_mode = basic;
  session_key = none;
  session_location = none;
  session_collection_uri = str "/redfish/v1/SessionService/Sessions";
  session_refresh_failure = none;
  authorization = some (str "Basic cm9vdDpwdw==");
  x_auth_token = none;
  last_etag = [];
  sent = [];
  slept = [];
  closed = false;
}

-- ===== src/Exceptions.antt =====
-- redfish_sdk/exceptions.py: the hierarchy of exceptions as one data type, a constructor for each
-- class, with the arguments that the code tells exceptions apart by. Of the wording of
-- messages only that of a connection error is modelled: a `Reason` names the `raise` statement.
mod Tests
use redfish_python_sdk.Prelude.{
  ℕ, Bool, true, false, Option, none, some, List, [], ◌∷◌, ◌++◌, Text, str, contains, lower, any,
  if◌then◌else◌,
}

pub data Reason : Type 0 where
  -- http_client.py
  unsafe_filename escapes_directory bad_host bad_scheme https_required invalid_host_or_port
        host_only :
      Reason
  empty_session_key empty_session_location invalid_target different_origin : Reason
  invalid_artifact_url bad_artifact_url managed_header empty_token refresh_failed : Reason
  request_failed parse_failed : Reason
  -- client.py
  invalid_collection_link cross_origin_link paging_loop : Reason
  -- managers
  no_match multiple_match no_log_services multiple_log_services ambiguous_log_id : Reason
  not_asynchronous cannot_reconnect refresh_failed_while_monitoring : Reason
  unauthorized_after_refresh reauthentication_exhausted failure_state http_failure : Reason
  monitor_disappeared task_cannot_verify monitor_gone_after_failure : Reason
  bad_message_id reference_cycle key_not_present no_message_text wrong_arguments : Reason
  missing_argument unknown_registry not_advertised no_usable_uri cannot_load : Reason
  no_locations unparseable_registry : Reason
  empty_policy_name no_responses unsupported_condition unsupported_action no_target : Reason
  unsupported_target nothing_to_update predefined_policy : Reason
  no_action_target no_capabilities unsupported_flash_type no_upload_selector : Reason
  unsupported_upload_selector unsupported_parameter not_staging unsupported_update_target : Reason
  empty_activate_target no_activate_target no_push_uri : Reason
  unsupported_secure_boot no_reset_keys unsupported_reset_keys : Reason

pub data Exc : Type 0 where
  redfish_exception : (status_code : ℕ) → Reason → Exc
  not_found : Exc
  auth_error : (status_code : ℕ) → Exc
  connection_error : (host cause : Text) → Exc
  timeout_error : (host : Text) → Exc
  validation_error : Reason → Exc
  missing_attribute : (attribute resource_uri : Text) → Exc
  registry_resolution_error : Reason → Exc
  async_operation_error :
      (status_code : ℕ)
      → Reason
      → (task_monitor_uri task_uri : Text) → (recovery_attempts : ℕ) → Exc
  log_collect_failed :
      (task_id task_state task_status : Text) → (messages progress_history : List Text) → Exc
  -- outside the hierarchy: Python's TimeoutError, ValueError, AttributeError and TypeError, and
  -- those of `requests`
  timed_out value_error attribute_error type_error read_timeout connect_timeout http_error : Exc
  connection_failed : (cause : Text) → Exc

-- `exc.status_code`, which only a RedfishException has.
unfoldable pub status_code : Exc → Option ℕ
status_code (redfish_exception code _) = some code
status_code not_found = some 404
status_code (auth_error code) = some code
status_code (connection_error _ _) = some 0
status_code (timeout_error _) = some 0
status_code (validation_error _) = some 400
status_code (missing_attribute _ _) = some 502
status_code (registry_resolution_error _) = some 400
status_code (async_operation_error code _ _ _ _) = some code
status_code (log_collect_failed _ _ _ _ _) = some 500
status_code _ = none

-- isinstance(exc, RedfishException)
unfoldable pub is_redfish : Exc → Bool
unfolding status_code
is_redfish e = elim (status_code e) [ some _ ↦ true | none ↦ false ]

pub data ConnectionReason : Type 0 where
  refused unreachable dns tls other : ConnectionReason

-- `_CAUSE_MARKERS`
unfoldable pub cause_markers : List (ConnectionReason × List Text)
cause_markers =
    (refused, str "connection refused" ∷ str "econnrefused" ∷ str "errno 61" ∷ str "errno 111" ∷ [])
    ∷ (
      unreachable,
      str "no route to host"
          ∷ str "network is unreachable"
          ∷ str "host is down"
          ∷ str "ehostunreach"
          ∷ str "enetunreach"
          ∷ [],
    )
    ∷ (
      dns,
      str "name or service not known"
          ∷ str "nodename nor servname"
          ∷ str "temporary failure in name resolution"
          ∷ str "getaddrinfo failed"
          ∷ [],
    )
    ∷ (
      tls,
      str "ssl" ∷ str "certificate" ∷ str "handshake failed" ∷ str "wrong version number" ∷ [],
    )
    ∷ []

-- The two loops of `_classify_connection_cause`.
unfoldable pub first_reason : List (ConnectionReason × List Text) → Text → ConnectionReason
first_reason [] blob = other
first_reason ((reason, markers) ∷ rest) blob =
    if any (contains blob) markers then reason else first_reason rest blob

-- `_classify_connection_cause`; the argument is f"{cause!r} {cause}".
unfoldable pub classify_connection_cause : Option Text → ConnectionReason
unfolding first_reason cause_markers
classify_connection_cause none = other
classify_connection_cause (some blob) = first_reason cause_markers (lower blob)

-- `_connection_hint`; `repr` writes a text as Python does in an f-string's {host!r}.
unfoldable pub connection_hint : (repr : Text → Text) → (host : Text) → ConnectionReason → Text
connection_hint repr host refused =
    str "Hint: "
    ++ host
    ++ str " accepted routing (host is up) but no service is listening on the requested TCP port. "
    ++ str "Check: 1) the IP is a BMC address (not a host OS address); 2) the BMC Redfish/HTTPS "
    ++ str "service is enabled; 3) the port matches your RedfishClient ``scheme``/port (Redfish "
    ++ str "default is 443 for https)."
connection_hint repr host unreachable =
    str "Hint: "
    ++ host
    ++ str
        " is not routable from this machine. Check network connectivity (VPN / firewall / VLAN / "
    ++ str "subnet)."
connection_hint repr host dns =
    str "Hint: could not resolve host name "
    ++ repr host
    ++ str ". Check DNS or use the raw IP address instead."
connection_hint repr host tls =
    str "Hint: TLS/SSL handshake failed with "
    ++ host
    ++ str ". BMC self-signed certificates can use explicit ``verify_ssl=False`` compatibility. "
    ++ str
        "Prefer ``verify_ssl=True`` with a trust store; otherwise check the server's TLS version."
connection_hint repr host other =
    str "Hint: unclassified connection failure to "
    ++ host
    ++ str ". Verify basic connectivity with ``ping`` / ``nc -zv "
    ++ host
    ++ str " 443``."

-- The message of a `RedfishConnectionError`; the cause is str(cause) and f"{cause!r} {cause}".
unfoldable pub connection_message :
    (repr : Text → Text) → (host cause : Text) → (blob : Option Text) → Text
unfolding connection_hint classify_connection_cause
connection_message repr host cause blob =
    str "Unable to connect to host: "
    ++ host
    ++ str ". Cause: "
    ++ cause
    ++ str ". "
    ++ connection_hint repr host (classify_connection_cause blob)

-- ===== src/Exceptions/Tests.antt =====
-- redfish_sdk/exceptions.py on a cause that has markers of two entries.
use redfish_python_sdk.Prelude.{
  ◌≡◌, refl, true, none, some, [], Text, str, contains, lower, any, starts_with,
}
use redfish_python_sdk.Exceptions.{
  refused, other, log_collect_failed, status_code, cause_markers, first_reason,
  classify_connection_cause, connection_hint, connection_message,
}

computing : Unit {0}
unfolding contains lower any starts_with status_code cause_markers first_reason
    classify_connection_cause connection_hint connection_message
computing = tt

abbrev blob : Text
blob = str "SSL: Connection refused"

classify_test :
    (classify_connection_cause (some blob) ≡ refused) × (classify_connection_cause none ≡ other)
unfolding computing
classify_test = (refl, refl)

status_code_test : status_code (log_collect_failed [] [] [] [] []) ≡ some 500
unfolding computing
status_code_test = refl

connection_message_test :
    starts_with
      (connection_message (λ s. s) (str "bmc") (str "X") none)
      (str "Unable to connect to host: bmc. Cause: X. Hint: unclassified")
    ≡ true
unfolding computing
connection_message_test = refl

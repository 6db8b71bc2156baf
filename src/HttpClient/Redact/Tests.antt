-- ===== src/HttpClient/Redact/Tests.antt =====
-- redfish_sdk/http_client.py: what is logged of some values.
use redfish_python_sdk.Prelude.{
  ◌≡◌, refl, [], text_eq, Text, str, starts_with, ends_with, contains, has_char, lower, is_space,
  mem, any, filter_by, split_on, join_with, cut, cut_last, inl,
}
use redfish_python_sdk.Exceptions.{value_error}
use redfish_python_sdk.Result.{ok, err}
use redfish_python_sdk.Json.{Json, Fields, string, object}
use redfish_python_sdk.Url.{
  SplitResult, urlsplit, urlunsplit, username, password, hostname, port, digits,
}
use redfish_python_sdk.HttpClient.Scrub.{
  count_while, drop, credential_length, credential_at, scrub_from, scrub,
}
use redfish_python_sdk.HttpClient.Redact.{
  LogValue, text_value, object_value, no_container, parsed_object, no_fields, log_field,
  sensitive_log_keys, sensitive_log_suffixes, is_sensitive, query_names, has_userinfo, host_of,
  with_port, redact_netloc, is_url, redact_query, rebuilt, redact_parts, redact_text,
  redact_for_log, redact_items, redact_fields,
}
use redfish_python_sdk.HttpClient.Redact.Hidden.{
  Agree, both_objects, both_object_texts, both_urls, no_others, shown, hidden, redact_for_log-Agree,
}

computing : Unit {0}
unfolding text_eq starts_with ends_with contains has_char lower is_space mem any filter_by split_on
    join_with cut cut_last urlsplit urlunsplit username password hostname port digits
    sensitive_log_keys sensitive_log_suffixes is_sensitive count_while drop credential_length
    credential_at scrub_from scrub query_names has_userinfo host_of with_port redact_netloc is_url
    redact_query rebuilt redact_parts redact_text redact_for_log redact_items redact_fields
computing = tt

scrub_test :
    scrub (str "Authorization: Bearer  abc.def, Basic dTpw; bearer; xBasic a")
    ≡ str "Authorization: Bearer <redacted>, Basic <redacted>; bearer; xBasic a"
unfolding computing
scrub_test = refl

abbrev requote : Text → Text
requote name = name

abbrev dumps : Json → Text
dumps _ = str "{}"

redact_url_test :
    redact_for_log requote dumps
      (text_value (str "sftp://u:p@BMC:22/fw?token=1&x=2#f") no_container)
    ≡ ok (string (str "sftp://<redacted>@bmc:22/fw?token=%3Credacted%3E&x=%3Credacted%3E"))
unfolding computing
redact_url_test = refl

-- A text that is no URL, but looks like one, makes the log statement raise.
redact_bad_url_test :
    redact_for_log requote dumps (text_value (str "http://[bmc/redfish") no_container)
    ≡ err value_error
unfolding computing
redact_bad_url_test = refl

abbrev body_with : Text → Text → LogValue
body_with secret address = object_value (
    log_field (str "X-Auth-Token") (text_value secret no_container) (
      log_field (str "ImageURI") (text_value address no_container) (
        log_field (str "Nested")
          (text_value (str "{...}")
            (parsed_object (log_field (str "Password") (text_value secret no_container) no_fields)))
          no_fields)))

redact_for_log_test :
    redact_for_log requote dumps (body_with (str "s") (str "sftp://u:p@h/i"))
    ≡ ok (
        object (
          Fields.field (str "X-Auth-Token") (string (str "<redacted>")) (
            Fields.field
              (str "ImageURI")
              (string (str "sftp://<redacted>@h/i"))
              (Fields.field (str "Nested") (string (str "{}")) Fields.empty))))
unfolding computing
redact_for_log_test = refl

abbrev parts_with : Text → SplitResult
parts_with netloc = record {
  scheme = str "sftp";
  netloc = netloc;
  path = str "/i";
  query = [];
  fragment = [];
}

abbrev agreeing :
    Agree (body_with (str "s") (str "sftp://u:p@h/i")) (body_with (str "t") (str "sftp://v:q@h/i"))
unfolding computing
agreeing = both_objects (
    hidden (str "X-Auth-Token") _ _ refl (
      shown
        (both_urls (parts_with (str "u:p@h")) (parts_with (str "v:q@h")) refl refl refl refl
          (record {
            same_scheme = refl;
            same_path = refl;
            same_names = refl;
            same_userinfo = refl;
            same_host = refl;
            same_port = refl;
            same_netloc = inl refl;
          }))
        (shown (both_object_texts (hidden (str "Password") _ _ refl no_others)) no_others)))

redact_for_log-Agree_example :
    redact_for_log requote dumps (body_with (str "s") (str "sftp://u:p@h/i"))
    ≡ redact_for_log requote dumps (body_with (str "t") (str "sftp://v:q@h/i"))
redact_for_log-Agree_example =
    redact_for_log-Agree requote dumps (body_with (str "s") (str "sftp://u:p@h/i"))
      (body_with (str "t") (str "sftp://v:q@h/i")) agreeing

-- ===== src/HttpClient/Downloads/Tests.antt =====
-- redfish_sdk/http_client.py: names and places of files that are downloaded.
use redfish_python_sdk.Prelude.{
  ◌≡◌, refl, true, none, some, [], ◌∷◌, Text, str, text_eq, starts_with, ends_with, contains,
  has_char, lower, is_space, mem, any, strip, rstrip, drop_while, cut, cut_last, split_on,
  join_with, filter_by,
}
use redfish_python_sdk.Exceptions.{validation_error, unsafe_filename, escapes_directory}
use redfish_python_sdk.Result.{ok, err}
use redfish_python_sdk.Exec.Ends.{Ends}
use redfish_python_sdk.HttpClient.Defs.{Server, Response, answered, get_header}
use redfish_python_sdk.HttpClient.Samples.{client}
use redfish_python_sdk.HttpClient.Filenames.{
  validate_download_filename, after_equals, extended_value, quoted_value, search,
  filename_from_content_disposition,
}
use redfish_python_sdk.HttpClient.Downloads.{
  operation_of, is_task_location, task_of, TaskFields, Paths, join_path, path_parts, common_prefix,
  commonpath, last_segment, Files, inside_directory, download_via_post,
}
use redfish_python_sdk.HttpClient.Downloads.Below.{IsSaved, download_via_post-IsSaved}

computing : Unit {0}
unfolding text_eq starts_with ends_with contains has_char lower is_space mem any strip rstrip
    drop_while cut cut_last split_on join_with filter_by get_header operation_of is_task_location
    task_of validate_download_filename after_equals extended_value quoted_value search
    filename_from_content_disposition join_path path_parts common_prefix commonpath last_segment
    inside_directory
computing = tt

abbrev unquote : Text → Text
unquote t = t

filename_test :
    (filename_from_content_disposition unquote (some (str "attachment; filename=\"log.tar.gz\""))
      ≡ ok (some (str "log.tar.gz")))
    × (filename_from_content_disposition unquote
          (some (str "attachment; FileName* = UTF-8''a.gz; x=1"))
        ≡ ok (some (str "a.gz")))
    × (filename_from_content_disposition unquote (some (str "inline")) ≡ ok none)
    × (filename_from_content_disposition unquote (some (str "attachment; filename=../etc/passwd"))
        ≡ err (validation_error unsafe_filename))
unfolding computing
filename_test = (refl, refl, refl, refl)

-- The file system without links: a path is what it is.
abbrev paths : Paths
paths = record { abspath = λ p. p; realpath = λ p. p; isdir = λ _. true }

-- One with a link that leads out of the directory.
abbrev linked : Paths
linked = record {
  abspath = λ p. p;
  realpath = λ p. elim (split_on b'/' p) [ _ ∷ _ ∷ _ ∷ [] ↦ str "/etc/x" | _ ↦ p ];
  isdir = λ _. true;
}

inside_directory_test :
    (inside_directory paths (str "/tmp") (str "a.gz") ≡ ok (str "/tmp/a.gz"))
    × (inside_directory linked (str "/tmp") (str "a.gz") ≡ err (validation_error escapes_directory))
unfolding computing
inside_directory_test = (refl, refl)

abbrev new_task : TaskFields
new_task = record {
  odata_id = none;
  task_monitor = none;
  initial_http_status = none;
  initial_location = none;
  initial_content_location = none;
  initial_retry_after = none;
}

abbrev accepted : Response
accepted = record {
  status_code = 202;
  headers = (str "location", str "/redfish/v1/TaskService/Tasks/7") ∷ [];
  text = [];
  json = none;
}

task_of_test : (task_of accepted new_task).odata_id ≡ some (str "/redfish/v1/TaskService/Tasks/7")
unfolding computing
task_of_test = refl

abbrev server : Server
server _ = answered (record {
  status_code = 200;
  headers = (str "Content-Disposition", str "attachment; filename=log.gz") ∷ [];
  text = str "logs";
  json = none;
})

abbrev start : Files
start = record { client = client; written = [] }

download_via_post-IsSaved_example :
    Ends
      (λ r s'. IsSaved paths (str "/tmp/") start s' r)
      (λ s'. s'.written ≡ [])
      (download_via_post server paths unquote
        (str "/redfish/v1/Download")
        (some (str "/tmp/"))
        start)
download_via_post-IsSaved_example =
    download_via_post-IsSaved server paths unquote (str "/redfish/v1/Download") (str "/tmp/") start

-- ===== src/HttpClient/Downloads.antt =====
-- `post`, `post_multipart`, `download` and `download_via_post` of `RedfishHttpClient`, with the
-- names of files that a server gives; redfish_sdk/http_client.py.
pub mod Below
mod Tests
use redfish_python_sdk.Prelude.{
  ℕ, Bool, true, false, not, ◌&&◌, ◌||◌, ◌==◌, leb, suc, Option, none, some, List, [], ◌∷◌, ◌++◌,
  map, Text, str, text_eq, starts_with, ends_with, contains, has_char, lower, is_space, is_empty,
  mem, any, strip, rstrip, drop_while, cut, cut_last, split_on, join_with, filter_by, if◌then◌else◌,
}
use redfish_python_sdk.Exceptions.{validation_error, unsafe_filename, escapes_directory}
use redfish_python_sdk.Result.{Result, ok, err, ◌>>=◌ as bind}
use redfish_python_sdk.Exec.{Exec, Run, returned, raised, pure, raise, lift, modify, ◌>>=◌, ◌>>◌}
use redfish_python_sdk.HttpClient.Defs.{HttpClient, Server, Response, default, get_header}
use redfish_python_sdk.HttpClient.Session.{raise_for_status, truthy, or_else}
use redfish_python_sdk.HttpClient.Origin.{is_same_origin_target}
use redfish_python_sdk.HttpClient.Auth.{request}
use redfish_python_sdk.HttpClient.Verbs.{ModelClass, parse, exchange}
use redfish_python_sdk.HttpClient.Filenames.{
  validate_download_filename, after_equals, extended_value, quoted_value, search,
  filename_from_content_disposition,
}

-- What `post` writes to a RedfishResponse.
pub record OperationFields : Type 0 where
  pub odata_id : Option Text
  pub task_uri : Option Text
  pub task_monitor : Option Text
  pub http_status : Option ℕ
  pub retry_after : Option Text

-- What `post` writes to a Task.
pub record TaskFields : Type 0 where
  pub odata_id : Option Text
  pub task_monitor : Option Text
  pub initial_http_status : Option ℕ
  pub initial_location : Option Text
  pub initial_content_location : Option Text
  pub initial_retry_after : Option Text

-- Which of the two the model is, with its fields, if it is one of them.
pub data Kind {ℓ} (M : Type ℓ) : Type ℓ where
  plain : Kind M
  is_operation : (get : M → OperationFields) → (put : OperationFields → M → M) → Kind M
  is_task : (get : M → TaskFields) → (put : TaskFields → M → M) → Kind M

abbrev first_true : Option Text → Option Text → Option Text
first_true a b = if truthy a then a else b

unfoldable pub operation_of : Response → OperationFields → OperationFields
unfolding get_header
operation_of response r = record r {
  task_monitor = first_true (get_header (str "Location") response.headers) r.task_monitor;
  http_status = some response.status_code;
  task_uri = first_true r.odata_id r.task_uri;
  retry_after = first_true (get_header (str "Retry-After") response.headers) r.retry_after;
}

-- location, where it is that of a task
unfoldable pub is_task_location : Option Text → Bool
unfolding contains
is_task_location none = false
is_task_location (some location) =
    contains location (str "/TaskService/Tasks/") && not (contains location (str "/TaskMonitors/"))

unfoldable pub task_of : Response → TaskFields → TaskFields
unfolding get_header is_task_location
task_of response t =
    let location = get_header (str "Location") response.headers in
    record t {
      initial_http_status = some response.status_code;
      initial_location = location;
      initial_content_location = get_header (str "Content-Location") response.headers;
      initial_retry_after = get_header (str "Retry-After") response.headers;
      task_monitor = first_true t.task_monitor location;
      odata_id =
          if not (truthy t.odata_id) && is_task_location location then location else t.odata_id;
    }

abbrev pub annotated {ℓ} : {M : Type ℓ} → Kind M → Response → M → M
annotated plain response m = m
annotated (is_operation get put) response m = put (operation_of response (get m)) m
annotated (is_task get put) response m = put (task_of response (get m)) m

-- What the client knows of the file system: os.path.abspath, os.path.realpath and os.path.isdir.
pub record Paths : Type 0 where
  pub abspath : Text → Text
  pub realpath : Text → Text
  pub isdir : Text → Bool

-- os.path.join, of a second part that does not begin with a slash
unfoldable pub join_path : Text → Text → Text
unfolding ends_with
join_path directory name =
    if is_empty directory || ends_with directory (str "/")
    then directory ++ name
    else directory ++ (b'/' ∷ name)

-- The parts of an absolute path that `os.path.commonpath` compares.
unfoldable pub path_parts : Text → List Text
unfolding filter_by split_on text_eq
path_parts path =
    filter_by (λ part. not (is_empty part) && not (text_eq part (str "."))) (split_on b'/' path)

unfoldable pub common_prefix : List Text → List Text → List Text
unfolding text_eq
common_prefix [] ys = []
common_prefix (x ∷ xs) [] = []
common_prefix (x ∷ xs) (y ∷ ys) =
    let rest = common_prefix xs ys in if text_eq x y then x ∷ rest else []

-- os.path.commonpath of two absolute paths
unfoldable pub commonpath : Text → Text → Text
unfolding path_parts common_prefix join_with
commonpath first second =
    b'/' ∷ join_with b'/' (common_prefix (path_parts first) (path_parts second))

-- path.rstrip("/").rsplit("/", 1)[-1] or "download.bin"
unfoldable pub last_segment : Text → Text
unfolding rstrip cut_last
last_segment path =
    let segment = (cut_last b'/' (rstrip (λ c. c == b'/') path)).1 in
    if is_empty segment then str "download.bin" else segment

-- The client, and the files that were written, the newest first.
pub record Files : Type 0 where
  pub client : HttpClient
  pub written : List (Text × Text)

-- A call of the HTTP client, beside the files.
abbrev pub on_client {ℓ} : {A : Type ℓ} → Exec HttpClient A → Exec Files A
on_client call s = elim (call s.client) [
  | returned a c ↦ returned a (record s { client = c })
  | raised e c ↦ raised e (record s { client = c })
]

-- What the two downloads return: the content, or the path of the file.
pub data Downloaded : Type 0 where
  content : Text → Downloaded
  saved : (path : Text) → Downloaded

abbrev pub save : Text → Text → Exec Files Downloaded
save path body s = returned (saved path) (record s { written = (path, body) ∷ s.written })

-- A file in a directory that was asked for, unless it escapes from it.
unfoldable pub inside_directory : Paths → Text → Text → Result Text
unfolding join_path commonpath text_eq
inside_directory paths abs_path filename =
    let output_dir = paths.realpath abs_path in
    let path = paths.realpath (join_path output_dir filename) in
    if text_eq (commonpath output_dir path) output_dir
    then ok path
    else err (validation_error escapes_directory)

module _ (server : Server) (paths : Paths) (unquote : Text → Text) where
  -- `post`
  unfoldable pub post {ℓ} : {M : Type ℓ} → ModelClass M → Kind M → Text → Exec HttpClient M
  unfolding exchange parse strip operation_of task_of
  post model kind path = exchange server (str "POST") path [] >>= λ response.
      (if response.status_code == 204 || is_empty (strip response.text)
        then pure model.empty
        else lift (parse model response path))
      >>= λ result. pure (annotated kind response result)

  -- `post_multipart`; the header is the content type.
  unfoldable pub post_multipart : Text → Exec HttpClient Response
  unfolding exchange
  post_multipart path = exchange server (str "POST") path (str "Content-Type" ∷ [])

  -- The request of a download, which stores no ETag.
  unfoldable pub fetch : Text → Text → Bool → Exec HttpClient Response
  unfolding request raise_for_status
  fetch method uri authenticated = do
    response ← request server method uri authenticated default []
    raise_for_status response
    pure response

  -- `download`
  unfoldable pub download : Text → Option Text → Exec Files Downloaded
  unfolding fetch is_same_origin_target
  download uri output_path s =
      (on_client (fetch (str "GET") uri (is_same_origin_target s.client uri)) >>= λ response.
      elim output_path [
        | none ↦ pure (content response.text)
        | some path ↦ save (paths.abspath path) response.text
      ])
        s

  -- The name of the file in a directory.
  unfoldable pub file_name : Text → Response → Result Text
  unfolding filename_from_content_disposition get_header last_segment
  file_name path response = named (
      filename_from_content_disposition unquote
        (get_header (str "Content-Disposition") response.headers))
    where
      named : Result (Option Text) → Result Text
      named (ok name) = ok (if truthy name then or_else name [] else last_segment path)
      named (err e) = err e

  -- The path to which the body of a POST is written.
  unfoldable pub target_path : Text → Text → Response → Result Text
  unfolding file_name inside_directory ends_with
  target_path path output_path response =
      let abs_path = paths.abspath output_path in
      if paths.isdir abs_path || ends_with output_path (str "/")
      then bind (file_name path response) (λ filename. inside_directory paths abs_path filename)
      else ok abs_path

  -- `download_via_post`
  unfoldable pub download_via_post : Text → Option Text → Exec Files Downloaded
  unfolding fetch target_path
  download_via_post path output_path = on_client (fetch (str "POST") path true) >>= λ response.
      elim output_path [
        | none ↦ pure (content response.text)
        | some given ↦ lift (target_path path given response) >>= λ at. save at response.text
      ]

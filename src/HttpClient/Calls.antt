-- ===== src/HttpClient/Calls.antt =====
-- The public verbs of `RedfishHttpClient` of redfish_sdk/http_client.py as calls, and what each of
-- them keeps.
use redfish_python_sdk.Prelude.{
  Bool, Option, none, some, List, [], ◌∷◌, Text, str, is_empty, strip, true, ◌||◌, ◌==◌,
}
use redfish_python_sdk.Exec.{Exec, Run, returned, raised, pure, lift, gets, end_state, ◌>>=◌}
use redfish_python_sdk.Exec.Keeps.{Keeps, Keeps-bind, Keeps-lift, Keeps-pure, Keeps-gets, Keeps-if}
use redfish_python_sdk.HttpClient.Defs.{default, HttpClient, Server, Response}
use redfish_python_sdk.HttpClient.Session.{raise_for_status}
use redfish_python_sdk.HttpClient.Auth.{request}
use redfish_python_sdk.HttpClient.Auth.Frame.{IsRefreshInvariant, IsSendInvariant, request-Keeps}
use redfish_python_sdk.HttpClient.Origin.{is_same_origin_target}
use redfish_python_sdk.HttpClient.Verbs.{
  ModelClass, exchange, get, get_raw, post_raw, patch, patch_raw, delete_raw, delete, get_etag,
  patch_headers, names_of, parse,
}
use redfish_python_sdk.HttpClient.Verbs.Frame.{
  StoresEtags, raise_for_status-Keeps, exchange-Keeps, get-Keeps, get_raw-Keeps,
}
use redfish_python_sdk.HttpClient.Downloads.{
  Kind, Paths, Files, Downloaded, content, on_client, save, post, post_multipart, fetch, download,
  target_path, download_via_post, annotated,
}

-- A call of a public method that sends a request.
pub data Verb : Type 1 where
  gets_model : {M : Type 0} → (model : ModelClass M) → (path : Text) → Verb
  gets_json : (path : Text) → Verb
  posts_model : {M : Type 0} → (model : ModelClass M) → (kind : Kind M) → (path : Text) → Verb
  posts_json posts_multipart : (path : Text) → Verb
  patches_model :
      {M : Type 0}
      → (model : ModelClass M) → (path : Text) → (body_etag : Option (Option Text))
      → (extra_headers : List (Text × Text)) → Verb
  patches_json : (path : Text) → (extra_headers : List (Text × Text)) → Verb
  deletes_response deletes_text : (path : Text) → Verb
  downloads downloads_via_post : (path : Text) → (output_path : Option Text) → Verb

module _ (server : Server) (paths : Paths) (unquote : Text → Text) where
  -- The client after a call, which may have raised.
  unfoldable pub after_verb : Verb → HttpClient → HttpClient
  unfolding get get_raw post post_raw post_multipart patch patch_raw delete_raw delete download
      download_via_post
  after_verb (gets_model model path) c = end_state (get server model path c)
  after_verb (gets_json path) c = end_state (get_raw server path c)
  after_verb (posts_model model kind path) c =
      end_state (post server paths unquote model kind path c)
  after_verb (posts_json path) c = end_state (post_raw server path c)
  after_verb (posts_multipart path) c = end_state (post_multipart server paths unquote path c)
  after_verb (patches_model model path body_etag extra_headers) c =
      end_state (patch server model path body_etag extra_headers c)
  after_verb (patches_json path extra_headers) c = end_state (patch_raw server path extra_headers c)
  after_verb (deletes_response path) c = end_state (delete_raw server path c)
  after_verb (deletes_text path) c = end_state (delete server path c)
  after_verb (downloads path output_path) c =
      (end_state (
        download server paths unquote path output_path
          (record { client = c; written = [] }))).client
  after_verb (downloads_via_post path output_path) c =
      (end_state (
        download_via_post server paths unquote path output_path
          (record { client = c; written = [] }))).client

-- A call of the HTTP client keeps what it keeps beside the files.
abbrev OnClient : (HttpClient → Type 0) → Files → Type 0
OnClient P s = P s.client

on_client-Keeps :
    {A : Type 0} {P : HttpClient → Type 0} (call : Exec HttpClient A)
    → Keeps P call
    → Keeps (OnClient P) (on_client call)
on_client-Keeps {A} {P} call k = record { at = λ s h. at_run s (call s.client) (k.at s.client h) }
  where
    at_run :
        (s : Files) (r : Run HttpClient A)
        → P (end_state r)
        → OnClient P (
            end_state (elim r as (λ _. Run Files A) [
              | returned a c ↦ returned a (record s { client = c })
              | raised e c ↦ raised e (record s { client = c })
            ]))
    at_run s (returned a c) h = h
    at_run s (raised e c) h = h

save-Keeps : (P : HttpClient → Type 0) (path body : Text) → Keeps (OnClient P) (save path body)
save-Keeps P path body = record { at = λ s h. h }

module _ {P : HttpClient → Type 0} (refreshing : IsRefreshInvariant P) (sending : IsSendInvariant P)
    (stores : StoresEtags P) (server : Server) (paths : Paths) (unquote : Text → Text) where
  post-Keeps :
      {M : Type 0} (model : ModelClass M) (kind : Kind M) (path : Text)
      → Keeps P (post server paths unquote model kind path)
  unfolding post
  post-Keeps model kind path =
      Keeps-bind (exchange server (str "POST") path []) _
        (exchange-Keeps refreshing sending stores server (str "POST") path [])
        (λ response.
          Keeps-bind _ _
            (Keeps-if (response.status_code == 204 || is_empty (strip response.text)) _ _
              (Keeps-pure model.empty) (Keeps-lift (λ _. parse model response path)))
            (λ result. Keeps-pure (annotated kind response result)))

  patch-Keeps :
      {M : Type 0} (model : ModelClass M) (path : Text) (body_etag : Option (Option Text))
      (extra_headers : List (Text × Text))
      → Keeps P (patch server model path body_etag extra_headers)
  unfolding patch
  patch-Keeps model path body_etag extra_headers =
      Keeps-bind (gets (get_etag path body_etag)) _ (Keeps-gets (get_etag path body_etag)) (λ etag.
        Keeps-bind _ _
          (exchange-Keeps refreshing sending stores server (str "PATCH") path
            (names_of (patch_headers etag extra_headers)))
          (λ response.
            Keeps-if (response.status_code == 204 || is_empty (strip response.text)) _ _
              (Keeps-pure model.empty) (Keeps-lift (λ _. parse model response path))))

  patch_raw-Keeps :
      (path : Text) (extra_headers : List (Text × Text))
      → Keeps P (patch_raw server path extra_headers)
  unfolding patch_raw
  patch_raw-Keeps path extra_headers =
      Keeps-bind (gets (get_etag path none)) _ (Keeps-gets (get_etag path none)) (λ etag.
        exchange-Keeps refreshing sending stores server (str "PATCH") path
          (names_of (patch_headers etag extra_headers)))

  checked-Keeps : (response : Response) → Keeps P (raise_for_status response >>= λ _. pure response)
  checked-Keeps response =
      Keeps-bind (raise_for_status response) _
        (raise_for_status-Keeps refreshing sending stores server response)
        (λ _. Keeps-pure response)

  delete_raw-Keeps : (path : Text) → Keeps P (delete_raw server path)
  unfolding delete_raw
  delete_raw-Keeps path =
      Keeps-bind (request server (str "DELETE") path true default []) _
        (request-Keeps refreshing sending server (str "DELETE") path true default []) checked-Keeps

  delete-Keeps : (path : Text) → Keeps P (delete server path)
  unfolding delete
  delete-Keeps path =
      Keeps-bind (delete_raw server path) _ (delete_raw-Keeps path) (λ r. Keeps-pure r.text)

  fetch-Keeps :
      (method uri : Text) (authenticated : Bool)
      → Keeps P (fetch server paths unquote method uri authenticated)
  unfolding fetch
  fetch-Keeps method uri authenticated =
      Keeps-bind (request server method uri authenticated default []) _
        (request-Keeps refreshing sending server method uri authenticated default []) checked-Keeps

  saved-Keeps :
      (output_path : Option Text) (body : Text) (at : Text → Text)
      → Keeps (OnClient P) (elim output_path as (λ _. Exec Files Downloaded) [
        | none ↦ pure (content body)
        | some path ↦ save (at path) body
      ])
  saved-Keeps none body at = Keeps-pure (content body)
  saved-Keeps (some path) body at = save-Keeps P (at path) body

  download-Keeps :
      (uri : Text) (output_path : Option Text)
      → Keeps (OnClient P) (download server paths unquote uri output_path)
  unfolding download
  download-Keeps uri output_path = record {
    at = λ s h.
        (Keeps-bind {P = OnClient P}
            (on_client
              (fetch server paths unquote (str "GET") uri (is_same_origin_target s.client uri)))
            _
            (on_client-Keeps {P = P} _
              (fetch-Keeps (str "GET") uri (is_same_origin_target s.client uri)))
            (λ response. saved-Keeps output_path response.text (λ path. paths.abspath path))).at
          s h;
  }

  posted-Keeps :
      (path : Text) (output_path : Option Text) (response : Response)
      → Keeps (OnClient P) (elim output_path as (λ _. Exec Files Downloaded) [
        | none ↦ pure (content response.text)
        | some given ↦ lift (target_path server paths unquote path given response) >>= λ at.
            save at response.text
      ])
  posted-Keeps path none response = Keeps-pure (content response.text)
  posted-Keeps path (some given) response =
      Keeps-bind {P = OnClient P} (lift (target_path server paths unquote path given response)) _
        (Keeps-lift (λ _. target_path server paths unquote path given response))
        (λ at. save-Keeps P at response.text)

  download_via_post-Keeps :
      (path : Text) (output_path : Option Text)
      → Keeps (OnClient P) (download_via_post server paths unquote path output_path)
  unfolding download_via_post
  download_via_post-Keeps path output_path =
      Keeps-bind {P = OnClient P} (on_client (fetch server paths unquote (str "POST") path true)) _
        (on_client-Keeps {P = P} _ (fetch-Keeps (str "POST") path true))
        (posted-Keeps path output_path)

  -- Every verb keeps an invariant of the requests and of the stored ETags.
  pub after_verb-keeps :
      (verb : Verb) (c : HttpClient) → P c → P (after_verb server paths unquote verb c)
  unfolding after_verb post_raw post_multipart
  after_verb-keeps (gets_model model path) c h =
      (get-Keeps refreshing sending stores server model path).at c h
  after_verb-keeps (gets_json path) c h =
      (get_raw-Keeps refreshing sending stores server path).at c h
  after_verb-keeps (posts_model model kind path) c h = (post-Keeps model kind path).at c h
  after_verb-keeps (posts_json path) c h =
      (exchange-Keeps refreshing sending stores server (str "POST") path []).at c h
  after_verb-keeps (posts_multipart path) c h =
      (exchange-Keeps refreshing sending stores server (str "POST") path
          (str "Content-Type" ∷ [])).at
        c h
  after_verb-keeps (patches_model model path body_etag extra_headers) c h =
      (patch-Keeps model path body_etag extra_headers).at c h
  after_verb-keeps (patches_json path extra_headers) c h =
      (patch_raw-Keeps path extra_headers).at c h
  after_verb-keeps (deletes_response path) c h = (delete_raw-Keeps path).at c h
  after_verb-keeps (deletes_text path) c h = (delete-Keeps path).at c h
  after_verb-keeps (downloads path output_path) c h =
      (download-Keeps path output_path).at (record { client = c; written = [] }) h
  after_verb-keeps (downloads_via_post path output_path) c h =
      (download_via_post-Keeps path output_path).at (record { client = c; written = [] }) h

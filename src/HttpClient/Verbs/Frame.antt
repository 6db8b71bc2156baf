-- ===== src/HttpClient/Verbs/Frame.antt =====
-- What `get` and `get_raw` of redfish_sdk/http_client.py keep.
use redfish_python_sdk.Prelude.{true, List, [], Text, str, arith}
use redfish_python_sdk.Exec.{lift, modify}
use redfish_python_sdk.Exec.Keeps.{Keeps, Keeps-bind, Keeps-lift, Keeps-pure, Keeps-gets}
use redfish_python_sdk.HttpClient.Defs.{default, HttpClient, Server, Response}
use redfish_python_sdk.HttpClient.Session.{raise_for_status}
use redfish_python_sdk.HttpClient.Auth.{request}
use redfish_python_sdk.HttpClient.Auth.Frame.{IsRefreshInvariant, IsSendInvariant, request-Keeps}
use redfish_python_sdk.HttpClient.Origin.{base_url}
use redfish_python_sdk.HttpClient.Auth.Safe.{IsSafe}
use redfish_python_sdk.HttpClient.Verbs.{
  ModelClass, exchange, get, get_raw, store_etag, parse, with_stored_etag, json_of,
}

-- Storing an ETag keeps the predicate.
abbrev pub StoresEtags : (HttpClient → Type 0) → Type 0
StoresEtags P =
    (path : Text) (response : Response) (c : HttpClient) → P c → P (store_etag path response c)

module _ {P : HttpClient → Type 0} (refreshing : IsRefreshInvariant P) (sending : IsSendInvariant P)
    (stores : StoresEtags P) (server : Server) where
  pub raise_for_status-Keeps : (response : Response) → Keeps P (raise_for_status response)
  unfolding raise_for_status
  raise_for_status-Keeps response = record { at = λ s h. ground arith }

  pub exchange-Keeps :
      (method path : Text) (headers : List Text) → Keeps P (exchange server method path headers)
  unfolding exchange
  exchange-Keeps method path headers =
      Keeps-bind (request server method path true default headers) _
        (request-Keeps refreshing sending server method path true default headers)
        (λ response.
          Keeps-bind (modify (store_etag path response)) _
            (record { at = λ s h. stores path response s h })
            (λ _.
              Keeps-bind (raise_for_status response) _ (raise_for_status-Keeps response)
                (λ _. Keeps-pure response)))

  pub get-Keeps {κ} :
      {M : Type κ} (model : ModelClass M) (path : Text) → Keeps P (get server model path)
  unfolding get
  get-Keeps model path =
      Keeps-bind (exchange server (str "GET") path []) _ (exchange-Keeps (str "GET") path [])
        (λ response.
          Keeps-bind (lift (parse model response path)) _
            (Keeps-lift (λ _. parse model response path))
            (λ result. Keeps-gets (with_stored_etag model path result)))

  pub get_raw-Keeps : (path : Text) → Keeps P (get_raw server path)
  unfolding get_raw
  get_raw-Keeps path =
      Keeps-bind (exchange server (str "GET") path []) _ (exchange-Keeps (str "GET") path [])
        (λ response. Keeps-lift (λ _. json_of response))

pub stores-IsSafe : (base : Text) → StoresEtags (IsSafe base)
unfolding store_etag base_url
stores-IsSafe base path response c h = ground arith

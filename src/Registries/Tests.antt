-- ===== src/Registries/Tests.antt =====
-- redfish_sdk/managers/registries.py on a publisher and a full cache.
use redfish_python_sdk.Prelude.{
  ℕ, arith, ◌≡◌, refl, false, none, some, List, [], ◌∷◌, str, text_eq, lower, cut, dict_get,
  starts_with,
}
use redfish_python_sdk.Result.{ok}
use redfish_python_sdk.Exec.{Run, returned, end_state}
use redfish_python_sdk.Json.{null}
use redfish_python_sdk.Url.{urlsplit}
use redfish_python_sdk.HttpClient.Samples.{client}
use redfish_python_sdk.HttpClient.Defs.{Server, answered, session_request}
use redfish_python_sdk.HttpClient.Verbs.{ModelClass}
use redfish_python_sdk.Registries.{
  RegistryLocation, Manager, select_location, load_document, without, put_last, evict,
}
use redfish_python_sdk.Registries.Cache.{IsBounded, keys_of, load_document-IsBounded}

computing : Unit {0}
unfolding select_location load_document text_eq lower cut dict_get starts_with urlsplit without
    put_last evict
computing = tt

abbrev publisher : Server
publisher history =
    answered (record { status_code = 200; headers = []; text = []; json = some null })

abbrev model : ModelClass ℕ
model = record { validate = λ _ _ _. ok 7; empty = 0; odata_etag = λ _. none; with_etag = λ _ n. n }

abbrev locations : List RegistryLocation
locations =
    record { language = some (str "de"); uri = none; publication_uri = none }
    ∷ record {
      language = some (str "en-US");
      uri = none;
      publication_uri = some (str "https://dmtf/base.json");
    }
    ∷ []

select_location_test :
    select_location locations (some (str "EN"))
    ≡ ok (record {
      language = some (str "en-US");
      uri = none;
      publication_uri = some (str "https://dmtf/base.json");
    })
unfolding computing
select_location_test = refl

abbrev manager : Manager ℕ
manager = record { client = client; cache = [] }

abbrev loaded : Run (Manager ℕ) ℕ
loaded = load_document publisher model locations (some (str "en")) manager

-- The publisher is asked without credentials, and its document is kept.
load_document_test :
    loaded
    ≡ returned 7 (record {
      client = record client {
        sent = session_request (str "GET") (str "https://dmtf/base.json") false client ∷ [];
      };
      cache = (str "https://dmtf/base.json", 7) ∷ [];
    })
unfolding computing
load_document_test = refl

manager-IsBounded : IsBounded manager
unfolding keys_of
manager-IsBounded = record { size = omega arith; distinct = tt }

load_document-IsBounded_example : IsBounded (end_state loaded)
load_document-IsBounded_example =
    load_document-IsBounded publisher model locations (some (str "en")) manager manager-IsBounded

-- ===== src/Registries.antt =====
-- The documents of redfish_sdk/managers/registries.py: `_select_location`, `_is_bmc_url`,
-- `_fetch_document` and the bounded cache of `_load_document`.
pub mod Names
pub mod Find
pub mod Format
pub mod Resolve
pub mod Cache
pub mod Credentials
mod Tests
use redfish_python_sdk.Prelude.{
  ℕ, suc, ◌+◌, ◌≡◌, refl, Bool, true, false, not, ◌&&◌, ◌||◌, Option, none, some, List, [], ◌∷◌,
  ◌++◌, Text, str, text_eq, lower, is_empty, leb, ltb, cut, length, dict_get, if◌then◌else◌,
}
use redfish_python_sdk.Exceptions.{
  Exc, registry_resolution_error, no_locations, no_usable_uri, cannot_load, value_error, http_error,
}
use redfish_python_sdk.Result.{Result, ok, err}
use redfish_python_sdk.Exec.{Exec, Run, returned, raised, pure, raise, lift, gets, ◌>>=◌, ◌>>◌}
use redfish_python_sdk.Url.{SplitResult, urlsplit}
use redfish_python_sdk.HttpClient.Defs.{HttpClient, Server, Response}
use redfish_python_sdk.HttpClient.Origin.{base_url}
use redfish_python_sdk.HttpClient.Session.{truthy, or_else}
use redfish_python_sdk.HttpClient.Auth.{call_session}
use redfish_python_sdk.HttpClient.Verbs.{ModelClass, get, json_of}

-- `RegistryLocation`
pub record RegistryLocation : Type 0 where
  pub language : Option Text
  pub uri : Option Text
  pub publication_uri : Option Text

abbrev pub first_with : (RegistryLocation → Bool) → List RegistryLocation → Option RegistryLocation
first_with p [] = none
first_with p (location ∷ locations) =
    let rest = first_with p locations in if p location then some location else rest

-- location.language.casefold(), where there is a language
abbrev pub folded : RegistryLocation → Option Text
folded location = elim location.language [
  | none ↦ none
  | some language ↦ if is_empty language then none else some (lower language)
]

abbrev pub is_language : Text → Option Text → Bool
is_language wanted none = false
is_language wanted (some language) = text_eq language wanted

abbrev pub is_primary : Text → Option Text → Bool
is_primary wanted none = false
is_primary wanted (some language) = text_eq (cut b'-' language).0 wanted

abbrev pub or_location : Option RegistryLocation → RegistryLocation → RegistryLocation
or_location none location = location
or_location (some location) _ = location

-- The location for a language, where there is one.
unfoldable pub location_for : Text → List RegistryLocation → Option RegistryLocation
unfolding lower cut
location_for language locations =
    let requested = lower language in
    elim (first_with (λ location. is_language requested (folded location)) locations) [
      | some location ↦ some location
      | none ↦
          first_with (λ location. is_primary (cut b'-' requested).0 (folded location)) locations
    ]

-- `_select_location`
unfoldable pub select_location : List RegistryLocation → Option Text → Result RegistryLocation
unfolding location_for lower
select_location [] language = err (registry_resolution_error no_locations)
select_location (head ∷ locations) language =
    let fallback =
      or_location
        (first_with (λ location. is_language (str "en") (folded location)) (head ∷ locations))
        head in
    if truthy language
    then ok (or_location (location_for (or_else language []) (head ∷ locations)) fallback)
    else ok fallback

-- The documents that were loaded, the least recently used first.
abbrev pub DocumentCache {ℓ} : Type ℓ → Type ℓ
DocumentCache D = List (Text × D)

-- `_MAX_CACHE_ENTRIES`
abbrev pub max_cache_entries : ℕ
max_cache_entries = 32

module _ {ℓ} {D : Type ℓ} where
  unfoldable pub without : Text → DocumentCache D → DocumentCache D
  without source [] = []
  without source ((key, document) ∷ cache) =
      let rest = without source cache in if text_eq key source then rest else (key, document) ∷ rest

  -- cache.move_to_end(source), the document stored under it before
  unfoldable pub put_last : Text → D → DocumentCache D → DocumentCache D
  unfolding without
  put_last source document cache = without source cache ++ ((source, document) ∷ [])

  -- while len(cache) > _MAX_CACHE_ENTRIES: cache.popitem(last=False)
  unfoldable pub evict : DocumentCache D → DocumentCache D
  evict [] = []
  evict (entry ∷ cache) =
      let rest = evict cache in
      if ltb max_cache_entries (suc (length cache)) then rest else entry ∷ cache

-- The manager: its client's HTTP client, and its cache.
pub record Manager {ℓ} (D : Type ℓ) : Type ℓ where
  pub client : HttpClient
  pub cache : DocumentCache D

-- `_is_bmc_url`
unfoldable pub is_bmc_url : SplitResult → SplitResult → Bool
unfolding lower
is_bmc_url parsed bmc =
    text_eq (lower parsed.scheme) (lower bmc.scheme)
    && text_eq (lower parsed.netloc) (lower bmc.netloc)

-- The path that is asked of the service.
abbrev pub service_path : Text → SplitResult → Text
service_path source parsed =
    if is_empty parsed.scheme
    then source
    else let path = if is_empty parsed.path then str "/" else parsed.path in
      if is_empty parsed.query then path else path ++ str "?" ++ parsed.query

module _ {ℓ} {D : Type ℓ} (server : Server) (model : ModelClass D) where
  -- `response.raise_for_status()` of the requests library, and the document
  abbrev pub published : Response → Result D
  published response =
      if leb 400 response.status_code && ltb response.status_code 600
      then err http_error
      else elim response.json [ none ↦ err value_error | some j ↦ model.validate [] none j ]

  abbrev pub fetch_from : Text → SplitResult → SplitResult → Exec HttpClient D
  fetch_from source parsed bmc =
      if is_empty parsed.scheme || is_bmc_url parsed bmc
      then get server model (service_path source parsed)
      else call_session server (str "GET") source false >>= λ response. lift (published response)

  -- `_fetch_document`
  unfoldable pub fetch_document : Text → Exec HttpClient D
  unfolding base_url is_bmc_url get call_session
  fetch_document source = do
    parsed ← lift (urlsplit source)
    base ← gets base_url
    bmc ← lift (if is_empty parsed.scheme then urlsplit [] else urlsplit base)
    fetch_from source parsed bmc

  -- The loop of `_load_document` over the sources.
  unfoldable pub load_from : List Text → Exec (Manager D) D
  unfolding dict_get put_last evict fetch_document
  load_from [] m = raised (registry_resolution_error cannot_load) m
  load_from (source ∷ sources) m = elim (dict_get source m.cache) [
    | some document ↦ returned document (record m { cache = put_last source document m.cache })
    | none ↦ elim (fetch_document source m.client) [
      | returned document c ↦
          returned document
            (record m { client = c; cache = evict (put_last source document m.cache) })
      | raised e c ↦ load_from sources (record m { client = c })
    ]
  ]

  -- the sources that are set, without repetition
  abbrev pub sources_of : RegistryLocation → List Text
  sources_of location =
      let first = or_else location.uri [] in
      let second = or_else location.publication_uri [] in
      let rest = if is_empty second || text_eq first second then [] else second ∷ [] in
      if is_empty first then rest else first ∷ rest

  abbrev pub load_at : RegistryLocation → Exec (Manager D) D
  load_at location m =
      if is_empty (sources_of location)
      then raised (registry_resolution_error no_usable_uri) m
      else load_from (sources_of location) m

  -- `_load_document`
  unfoldable pub load_document : List RegistryLocation → Option Text → Exec (Manager D) D
  unfolding load_from select_location
  load_document locations language = lift (select_location locations language) >>= load_at

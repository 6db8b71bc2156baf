-- ===== src/Registries/Cache.antt =====
-- The cache of redfish_sdk/managers/registries.py is bounded and has one document for a source.
use redfish_python_sdk.Prelude.{
  suc, ◌≤◌, ◌≡◌, refl, false, not, ◌&&◌, ◌||◌, Option, none, some, List, [], ◌∷◌, ◌++◌, Text,
  text_eq, text_eq_iff, text_eq_self, ltb, length, length-append, mem, IsDistinct, dict_get,
  is_empty, arith, Bool-cases, inl, inr,
}
use redfish_python_sdk.Result.{Result, ok, err}
use redfish_python_sdk.Exec.{Run, returned, raised, lift, end_state, ◌>>=◌}
use redfish_python_sdk.Exec.Keeps.{if-end_state}
use redfish_python_sdk.HttpClient.Defs.{HttpClient, Server}
use redfish_python_sdk.HttpClient.Verbs.{ModelClass}
use redfish_python_sdk.Registries.{
  DocumentCache, Manager, RegistryLocation, max_cache_entries, without, put_last, evict,
  fetch_document, load_from, load_document, select_location, sources_of, load_at,
}

module _ {ℓ} {D : Type ℓ} where
  unfoldable pub keys_of : DocumentCache D → List Text
  keys_of [] = []
  keys_of ((key, _) ∷ cache) = key ∷ keys_of cache

  mem-without :
      (x source : Text) (cache : DocumentCache D)
      → mem x (keys_of (without source cache)) ≡ (mem x (keys_of cache) && not (text_eq x source))
  unfolding keys_of without mem
  mem-without x source [] = refl
  mem-without x source ((key, document) ∷ cache) = ground (
    arith,
    mem-without x source cache,
    text_eq_iff x key,
    text_eq_iff key source,
    text_eq_iff x source,
  )

  without-IsDistinct :
      (source : Text) (cache : DocumentCache D)
      → IsDistinct (keys_of cache)
      → IsDistinct (keys_of (without source cache))
  unfolding keys_of without
  without-IsDistinct source [] h = tt
  without-IsDistinct source ((key, document) ∷ cache) (n, h) =
      elim (Bool-cases (text_eq key source)) [
        | inl t ↦ rw t (without-IsDistinct source cache h)
        | inr f ↦
            rw f (ground (arith, mem-without key source cache), without-IsDistinct source cache h)
      ]

  mem-snoc :
      (x source : Text) (document : D) (cache : DocumentCache D)
      → mem x (keys_of (cache ++ ((source, document) ∷ [])))
        ≡ (mem x (keys_of cache) || text_eq x source)
  unfolding keys_of mem
  mem-snoc x source document [] = ground arith
  mem-snoc x source document ((key, d) ∷ cache) = ground (arith, mem-snoc x source document cache)

  snoc-IsDistinct :
      (source : Text) (document : D) (cache : DocumentCache D)
      → mem source (keys_of cache) ≡ false
      → IsDistinct (keys_of cache)
      → IsDistinct (keys_of (cache ++ ((source, document) ∷ [])))
  unfolding keys_of mem
  snoc-IsDistinct source document [] m h = (refl, tt)
  snoc-IsDistinct source document ((key, d) ∷ cache) m (n, h) = (
    ground
        (arith, mem-snoc key source document cache, text_eq_iff key source, text_eq_iff source key),
    snoc-IsDistinct source document cache (ground arith) h,
  )

  put_last-IsDistinct :
      (source : Text) (document : D) (cache : DocumentCache D)
      → IsDistinct (keys_of cache)
      → IsDistinct (keys_of (put_last source document cache))
  unfolding put_last
  put_last-IsDistinct source document cache h =
      snoc-IsDistinct source document (without source cache)
        (ground (arith, mem-without source source cache, text_eq_self source))
        (without-IsDistinct source cache h)

  evict-IsDistinct :
      (cache : DocumentCache D) → IsDistinct (keys_of cache) → IsDistinct (keys_of (evict cache))
  unfolding evict keys_of
  evict-IsDistinct [] h = tt
  evict-IsDistinct ((key, d) ∷ cache) (n, h) =
      elim (Bool-cases (ltb max_cache_entries (suc (length cache)))) [
        | inl t ↦ rw t (evict-IsDistinct cache h)
        | inr f ↦ rw f (n, h)
      ]

  length-evict : (cache : DocumentCache D) → length (evict cache) ≤ max_cache_entries
  unfolding evict
  length-evict [] = omega arith
  length-evict (entry ∷ cache) = ground (arith, length-evict cache)

  length-without :
      (source : Text) (cache : DocumentCache D) → length (without source cache) ≤ length cache
  unfolding without
  length-without source [] = omega arith
  length-without source ((key, d) ∷ cache) = ground (arith, length-without source cache)

  length-without-hit :
      (source : Text) (cache : DocumentCache D) (document : D)
      → dict_get source cache ≡ some document
      → suc (length (without source cache)) ≤ length cache
  unfolding without dict_get
  length-without-hit source [] document h = absurd (cc h)
  length-without-hit source ((key, d) ∷ cache) document h =
      ground (arith, length-without-hit source cache document, length-without source cache)

-- At most `_MAX_CACHE_ENTRIES` documents, each under a source of its own.
pub record IsBounded {ℓ} {D : Type ℓ} (m : Manager D) : Type 0 where
  pub size : length m.cache ≤ max_cache_entries
  pub distinct : IsDistinct (keys_of m.cache)

module _ {ℓ} {D : Type ℓ} (server : Server) (model : ModelClass D) where
  hit-IsBounded :
      (source : Text) (document : D) (m : Manager D)
      → dict_get source m.cache ≡ some document
      → IsBounded m
      → IsBounded (record m { cache = put_last source document m.cache })
  unfolding put_last
  hit-IsBounded source document m e h = record {
    size = omega (
      arith,
      h.size,
      length-without-hit source m.cache document e,
      length-append (without source m.cache) ((source, document) ∷ []),
    );
    distinct = put_last-IsDistinct source document m.cache h.distinct;
  }

  load_from-IsBounded :
      (sources : List Text) (m : Manager D)
      → IsBounded m
      → IsBounded (end_state (load_from server model sources m))
  unfolding load_from
  load_from-IsBounded [] m h = h
  load_from-IsBounded (source ∷ sources) m h = at_cache (dict_get source m.cache) refl (λ c.
      load_from-IsBounded sources (record m { client = c })
        (record { size = h.size; distinct = h.distinct }))
    where
      fetched : Run HttpClient D → Run (Manager D) D
      fetched r = elim r [
        | returned document c ↦
            returned document
              (record m { client = c; cache = evict (put_last source document m.cache) })
        | raised e c ↦ load_from server model sources (record m { client = c })
      ]

      at_fetch :
          (r : Run HttpClient D)
          → ((c : HttpClient)
              → IsBounded (end_state (load_from server model sources (record m { client = c }))))
          → IsBounded (end_state (fetched r))
      at_fetch (returned document c) rest = record {
        size = length-evict (put_last source document m.cache);
        distinct =
            evict-IsDistinct (put_last source document m.cache)
              (put_last-IsDistinct source document m.cache h.distinct);
      }
      at_fetch (raised e c) rest = rest c

      found : Option D → Run (Manager D) D
      found o = elim o [
        | some document ↦ returned document (record m { cache = put_last source document m.cache })
        | none ↦ fetched (fetch_document server model source m.client)
      ]

      at_cache :
          (o : Option D)
          → dict_get source m.cache ≡ o
          → ((c : HttpClient)
              → IsBounded (end_state (load_from server model sources (record m { client = c }))))
          → IsBounded (end_state (found o))
      at_cache (some document) e rest = hit-IsBounded source document m e h
      at_cache none e rest = at_fetch (fetch_document server model source m.client) rest

  -- `_load_document` keeps the cache at 32 documents at most, each under a source of its own,
  -- whether it returns a document or raises, and whatever the servers answer.
  pub load_document-IsBounded :
      (locations : List RegistryLocation) (language : Option Text) (m : Manager D)
      → IsBounded m
      → IsBounded (end_state (load_document server model locations language m))
  unfolding load_document
  load_document-IsBounded locations language m h = at_location (select_location locations language)
    where
      at_location :
          (r : Result RegistryLocation)
          → IsBounded (end_state ((lift r >>= load_at server model) m))
      at_location (err e) = h
      at_location (ok location) =
          if-end_state IsBounded (is_empty (sources_of server model location)) _ _ h
            (load_from-IsBounded (sources_of server model location) m h)

-- ===== src/HttpClient/Redact.antt =====
-- `_redact_for_log` of redfish_sdk/http_client.py: what the client writes to its log of a path, a
-- body or a header.
pub mod Hidden
mod Tests
use redfish_python_sdk.Prelude.{
  ℕ, Bool, true, false, not, ◌&&◌, ◌||◌, ◌+◌, ◌-◌, ◌==◌, zero, suc, leb, Option, none, some, List,
  [], ◌∷◌, ◌++◌, Text, str, starts_with, ends_with, contains, has_char, lower, is_space, is_empty,
  mem, any, map, filter_by, length, split_on, join_with, cut, if◌then◌else◌,
}
use redfish_python_sdk.Exceptions.{value_error}
use redfish_python_sdk.Result.{Result, ok, err, ◌>>=◌}
use redfish_python_sdk.Json.{Json, Items, Fields, null, bool, number, string, array, object}
use redfish_python_sdk.Url.{
  SplitResult, urlsplit, urlunsplit, username, password, hostname, port, digits,
}
use redfish_python_sdk.HttpClient.Scrub.{
  redacted, count_while, drop, credential_length, credential_at, scrub_from, scrub,
}

mutual
  -- A value that is logged. A text comes with what `json.loads` gives of it where that is a dict or
  -- a list; what is in there is shorter, so the value is finite.
  pub data LogValue : Type 0 where
    null_value : LogValue
    bool_value : Bool → LogValue
    number_value : Text → LogValue
    text_value : Text → Parsed → LogValue
    array_value : LogItems → LogValue
    object_value : LogFields → LogValue

  pub data Parsed : Type 0 where
    no_container : Parsed
    parsed_array : LogItems → Parsed
    parsed_object : LogFields → Parsed

  pub data LogItems : Type 0 where
    no_items : LogItems
    log_item : LogValue → LogItems → LogItems

  pub data LogFields : Type 0 where
    no_fields : LogFields
    log_field : Text → LogValue → LogFields → LogFields

-- `_SENSITIVE_LOG_KEYS`
unfoldable pub sensitive_log_keys : List Text
sensitive_log_keys =
    str "password"
    ∷ str "username"
    ∷ str "authenticationkey"
    ∷ str "encryptionkey"
    ∷ str "consoleurl"
    ∷ str "credential"
    ∷ str "secret"
    ∷ str "token"
    ∷ str "accesstoken"
    ∷ str "authtoken"
    ∷ str "xauthtoken"
    ∷ str "httpheaders"
    ∷ str "authorization"
    ∷ str "proxyauthorization"
    ∷ str "cookie"
    ∷ str "setcookie"
    ∷ []

-- `_SENSITIVE_LOG_SUFFIXES`
unfoldable pub sensitive_log_suffixes : List Text
sensitive_log_suffixes =
    str "authorization"
    ∷ str "community"
    ∷ str "communitystring"
    ∷ str "communitystrings"
    ∷ str "consoleurl"
    ∷ str "credential"
    ∷ str "password"
    ∷ str "secret"
    ∷ str "token"
    ∷ []

abbrev is_plain : ℕ → Bool
is_plain c = (leb b'a' c && leb c b'z') || (leb b'0' c && leb c b'9')

unfoldable pub is_sensitive : Text → Bool
unfolding filter_by lower mem any ends_with sensitive_log_keys sensitive_log_suffixes
is_sensitive key =
    let normalized = filter_by is_plain (lower key) in
    mem normalized sensitive_log_keys || any (ends_with normalized) sensitive_log_suffixes

-- The names of `parse_qsl(query, keep_blank_values=True)`, before they are decoded.
unfoldable pub query_names : Text → List Text
unfolding filter_by split_on cut
query_names query =
    map (λ pair. (cut b'=' pair).0) (filter_by (λ pair. not (is_empty pair)) (split_on b'&' query))

abbrev is_some : Option Text → Bool
is_some none = false
is_some (some _) = true

-- parts.username is not None or parts.password is not None
unfoldable pub has_userinfo : SplitResult → Bool
unfolding username password
has_userinfo parts = is_some (username parts) || is_some (password parts)

-- parts.hostname or ""
unfoldable pub host_of : SplitResult → Text
unfolding hostname
host_of parts = elim (hostname parts) [ none ↦ [] | some host ↦ host ]

unfoldable pub with_port : Text → Option ℕ → Text
unfolding digits
with_port host none = host
with_port host (some n) = host ++ (b':' ∷ digits 5 n [])

-- The authority that is logged.
unfoldable pub redact_netloc : Bool → Result (Option ℕ) → (host netloc : Text) → Result Text
unfolding with_port
redact_netloc true port host netloc = port >>= λ p. ok (redacted ++ (b'@' ∷ with_port host p))
redact_netloc false port host netloc = ok netloc

-- if "://" in value or (value.startswith("/") and "?" in value)
unfoldable pub is_url : Text → Bool
unfolding contains starts_with has_char
is_url value = contains value (str "://") || (starts_with value (str "/") && has_char b'?' value)

-- `requote` is what `parse_qsl` and `urlencode` make of a name: it is decoded and encoded again.
-- `dumps` is `json.dumps`.
module _ (requote : Text → Text) (dumps : Json → Text) where
  -- urlencode of the names, each with <redacted>
  unfoldable pub redact_query : List Text → Text
  unfolding join_with
  redact_query names = join_with b'&' (map (λ name. requote name ++ str "=%3Credacted%3E") names)

  -- urlunsplit((scheme, netloc, path, query, ""))
  unfoldable pub rebuilt : (scheme path : Text) → (names : List Text) → (netloc : Text) → Text
  unfolding redact_query urlunsplit
  rebuilt scheme path names netloc = urlunsplit (record {
    scheme = scheme;
    netloc = netloc;
    path = path;
    query = redact_query names;
    fragment = [];
  })

  unfoldable pub redact_parts : SplitResult → Result Text
  unfolding redact_netloc has_userinfo port host_of query_names rebuilt
  redact_parts parts =
      redact_netloc (has_userinfo parts) (port parts) (host_of parts) parts.netloc >>= λ netloc.
      ok (rebuilt parts.scheme parts.path (query_names parts.query) netloc)

  -- The branch of a text that is no JSON container.
  unfoldable pub redact_text : Text → Result Json
  unfolding is_url urlsplit redact_parts scrub
  redact_text value =
      (if is_url value then urlsplit value >>= redact_parts else ok value) >>= λ shown.
      ok (string (scrub shown))

  -- `_redact_for_log`; it raises where `urlsplit` or the port of a text does.
  unfoldable mutual
    unfolding is_sensitive redact_text

    pub redact_for_log : LogValue → Result Json
    redact_for_log null_value = ok null
    redact_for_log (bool_value b) = ok (bool b)
    redact_for_log (number_value n) = ok (number n)
    redact_for_log (text_value s no_container) = redact_text s
    redact_for_log (text_value s (parsed_array xs)) =
        redact_items xs >>= λ shown. ok (string (dumps (array shown)))
    redact_for_log (text_value s (parsed_object fields)) =
        redact_fields fields >>= λ shown. ok (string (dumps (object shown)))
    redact_for_log (array_value xs) = redact_items xs >>= λ shown. ok (array shown)
    redact_for_log (object_value fields) = redact_fields fields >>= λ shown. ok (object shown)

    pub redact_items : LogItems → Result Items
    redact_items no_items = ok Items.end
    redact_items (log_item v rest) =
        let others = redact_items rest in
        redact_for_log v >>= λ shown. others >>= λ more. ok (Items.item shown more)

    pub redact_fields : LogFields → Result Fields
    redact_fields no_fields = ok Fields.empty
    redact_fields (log_field key v rest) =
        let others = redact_fields rest in
        let shown = redact_for_log v in
        (if is_sensitive key then ok (string redacted) else shown) >>= λ item.
        others >>= λ more. ok (Fields.field key item more)

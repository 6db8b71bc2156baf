-- ===== src/HttpClient/Redact/Hidden.antt =====
-- What `_redact_for_log` of redfish_sdk/http_client.py keeps out of the log.
use redfish_python_sdk.Prelude.{◌≡◌, refl, sym, Bool, true, false, Text, inl, inr, ◌⊎◌}
use redfish_python_sdk.Result.{ok}
use redfish_python_sdk.Json.{Json}
use redfish_python_sdk.Url.{SplitResult, urlsplit, port}
use redfish_python_sdk.HttpClient.Redact.{
  LogValue, text_value, array_value, object_value, no_container, parsed_array, parsed_object,
  LogItems, no_items, log_item, LogFields, no_fields, log_field, is_sensitive, query_names,
  has_userinfo, is_url, host_of, redact_netloc, redact_parts, redact_text, redact_for_log,
  redact_items, redact_fields,
}

-- Two URLs that differ only in the user, the password, the values of the query and the fragment.
pub record SameUrl (p q : SplitResult) : Type 0 where
  pub same_scheme : p.scheme ≡ q.scheme
  pub same_path : p.path ≡ q.path
  pub same_names : query_names p.query ≡ query_names q.query
  pub same_userinfo : has_userinfo p ≡ has_userinfo q
  pub same_host : host_of p ≡ host_of q
  pub same_port : port p ≡ port q
  pub same_netloc : (has_userinfo p ≡ true) ⊎ (p.netloc ≡ q.netloc)

mutual
  -- Two values that differ only in what is to be hidden: in the values of sensitive keys, at any
  -- depth, within JSON texts too, and in the parts of URLs that `SameUrl` leaves out.
  pub data Agree : LogValue → LogValue → Type 0 where
    same : (v : LogValue) → Agree v v
    both_arrays : {xs ys : LogItems} → AgreeItems xs ys → Agree (array_value xs) (array_value ys)
    both_objects :
        {fs gs : LogFields} → AgreeFields fs gs → Agree (object_value fs) (object_value gs)
    both_array_texts :
        {s t : Text} {xs ys : LogItems}
        → AgreeItems xs ys
        → Agree (text_value s (parsed_array xs)) (text_value t (parsed_array ys))
    both_object_texts :
        {s t : Text} {fs gs : LogFields}
        → AgreeFields fs gs
        → Agree (text_value s (parsed_object fs)) (text_value t (parsed_object gs))
    both_urls :
        {s t : Text} (p q : SplitResult)
        → is_url s ≡ true
        → is_url t ≡ true
        → urlsplit s ≡ ok p
        → urlsplit t ≡ ok q
        → SameUrl p q
        → Agree (text_value s no_container) (text_value t no_container)

  pub data AgreeItems : LogItems → LogItems → Type 0 where
    no_more : AgreeItems no_items no_items
    one_more :
        {v w : LogValue} {xs ys : LogItems}
        → Agree v w
        → AgreeItems xs ys
        → AgreeItems (log_item v xs) (log_item w ys)

  pub data AgreeFields : LogFields → LogFields → Type 0 where
    no_others : AgreeFields no_fields no_fields
    shown :
        {key : Text} {v w : LogValue} {fs gs : LogFields}
        → Agree v w
        → AgreeFields fs gs
        → AgreeFields (log_field key v fs) (log_field key w gs)
    hidden :
        (key : Text) (v w : LogValue) {fs gs : LogFields}
        → is_sensitive key ≡ true
        → AgreeFields fs gs
        → AgreeFields (log_field key v fs) (log_field key w gs)

redact_netloc-same :
    (p q : SplitResult)
    → SameUrl p q
    → redact_netloc (has_userinfo p) (port p) (host_of p) p.netloc
      ≡ redact_netloc (has_userinfo q) (port q) (host_of q) q.netloc
unfolding redact_netloc
redact_netloc-same p q h =
    rw (h.same_userinfo, h.same_port, h.same_host) (at_userinfo (has_userinfo q) refl h.same_netloc)
  where
    at_userinfo :
        (b : Bool)
        → has_userinfo q ≡ b
        → (has_userinfo p ≡ true) ⊎ (p.netloc ≡ q.netloc)
        → redact_netloc b (port q) (host_of q) p.netloc
          ≡ redact_netloc b (port q) (host_of q) q.netloc
    at_userinfo true e n = refl
    at_userinfo false e (inr n) = rw n refl
    at_userinfo false e (inl t) = absurd (cc (sym t, h.same_userinfo, e))

module _ (requote : Text → Text) (dumps : Json → Text) where
  redact_parts-same :
      (p q : SplitResult)
      → SameUrl p q
      → redact_parts requote dumps p ≡ redact_parts requote dumps q
  unfolding redact_parts
  redact_parts-same p q h =
      rw (redact_netloc-same p q h, h.same_scheme, h.same_path, h.same_names) refl

  redact_text-same :
      (s t : Text) (p q : SplitResult)
      → is_url s ≡ true
      → is_url t ≡ true
      → urlsplit s ≡ ok p
      → urlsplit t ≡ ok q
      → SameUrl p q
      → redact_text requote dumps s ≡ redact_text requote dumps t
  unfolding redact_text
  redact_text-same s t p q us ut es et h = rw (us, ut, es, et, redact_parts-same p q h) refl

  mutual
    unfolding redact_for_log redact_items redact_fields

    redact_value-Agree :
        (v w : LogValue)
        → Agree v w
        → redact_for_log requote dumps v ≡ redact_for_log requote dumps w
    redact_value-Agree v _ (same _) = refl
    redact_value-Agree (array_value xs) (array_value ys) (both_arrays h) =
        rw (redact_items-Agree xs ys h) refl
    redact_value-Agree (object_value fs) (object_value gs) (both_objects h) =
        rw (redact_fields-Agree fs gs h) refl
    redact_value-Agree (text_value s (parsed_array xs)) (text_value t (parsed_array ys))
          (both_array_texts h) =
        rw (redact_items-Agree xs ys h) refl
    redact_value-Agree (text_value s (parsed_object fs)) (text_value t (parsed_object gs))
          (both_object_texts h) =
        rw (redact_fields-Agree fs gs h) refl
    redact_value-Agree (text_value s no_container) (text_value t no_container)
          (both_urls p q us ut es et h) =
        redact_text-same s t p q us ut es et h

    redact_items-Agree :
        (xs ys : LogItems)
        → AgreeItems xs ys
        → redact_items requote dumps xs ≡ redact_items requote dumps ys
    redact_items-Agree no_items no_items no_more = refl
    redact_items-Agree no_items (log_item w ys) h = elim h [ ]
    redact_items-Agree (log_item v xs) no_items h = elim h [ ]
    redact_items-Agree (log_item v xs) (log_item w ys) (one_more a h) =
        rw (redact_value-Agree v w a, redact_items-Agree xs ys h) refl

    redact_fields-Agree :
        (fs gs : LogFields)
        → AgreeFields fs gs
        → redact_fields requote dumps fs ≡ redact_fields requote dumps gs
    redact_fields-Agree no_fields no_fields no_others = refl
    redact_fields-Agree no_fields (log_field key w gs) h = elim h [ ]
    redact_fields-Agree (log_field key v fs) no_fields h = elim h [ ]
    redact_fields-Agree (log_field key v fs) (log_field _ w gs) (shown a h) =
        rw (redact_value-Agree v w a, redact_fields-Agree fs gs h) refl
    redact_fields-Agree (log_field key v fs) (log_field _ w gs) (hidden _ _ _ secret h) =
        rw (secret, redact_fields-Agree fs gs h) refl

  -- Whatever json.dumps and the quoting of names do, two values that differ only in what is to be
  -- hidden are logged alike: the log shows nothing of the values of sensitive keys at any depth,
  -- JSON within texts included, nor of the user, the password, the query's values and the
  -- fragment of a text that is a URL.
  pub redact_for_log-Agree :
      (v w : LogValue) → Agree v w → redact_for_log requote dumps v ≡ redact_for_log requote dumps w
  redact_for_log-Agree v w h = redact_value-Agree v w h

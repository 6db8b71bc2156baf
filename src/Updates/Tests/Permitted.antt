-- ===== src/Updates/Tests/Permitted.antt =====
-- Sequences of calls of redfish_sdk/managers/update.py on a service that logs what is sent to it.
use redfish_python_sdk.Prelude.{
  ◌≡◌, refl, true, false, Option, none, some, List, [], ◌∷◌, Text, str, strip, length, All,
  is_empty, ◌||◌, arith, if◌then◌else◌,
}
use mathlib.Core.Path.{subst}
use redfish_python_sdk.HttpClient.Session.{truthy, or_else}
use redfish_python_sdk.Updates.Permitted.{
  IsAdvertised, IsRequest, simple_update_request, bmc_request, activate_request, IsUpload,
  image_upload, file_upload,
}
use redfish_python_sdk.Json.{Json, string, array, object, Fields, get_field}
use redfish_python_sdk.Updates.Requests.{Upload}
use redfish_python_sdk.Updates.{Action, target_of}
use redfish_python_sdk.Updates.Parameters.{or_task, uri}
use redfish_python_sdk.Updates.Validated.{Guard}
use redfish_python_sdk.Updates.Calls.{
  Call, stage_call, bmc_call, activate_call, vendor_call, image_call, after_calls, calls-Permitted,
}
use redfish_python_sdk.Updates.Tests.{Sent, posted, uploaded, host, detect, request, computing}

-- What was sent was sent to a target that is not empty.
abbrev IsNamed : Sent → Type 0
IsNamed (posted target body) = is_empty target ≡ false
IsNamed (uploaded target file_path) = is_empty target ≡ false

target_of-nonempty : (parts : Fields) (t : Text) → target_of parts ≡ some t → is_empty t ≡ false
unfolding target_of
target_of-nonempty parts t h = at_field (get_field (str "target") parts) h
  where
    at_field :
        (found : Option Json)
        → (elim found [
          | some (string target) ↦ if is_empty target then none else some target
          | _ ↦ none
        ])
          ≡ some t
        → is_empty t ≡ false
    at_field none e = absurd (cc e)
    at_field (some (string [])) e = absurd (cc e)
    at_field (some (string (c ∷ s))) e = subst (λ t. is_empty t ≡ false) {x = c ∷ s} (cc e) refl
    at_field (some Json.null) e = absurd (cc e)
    at_field (some (Json.bool b)) e = absurd (cc e)
    at_field (some (Json.number n)) e = absurd (cc e)
    at_field (some (array a)) e = absurd (cc e)
    at_field (some (object o)) e = absurd (cc e)

advertised_nonempty :
    (name : Text) (a : Action) → IsAdvertised host name a → is_empty a.target ≡ false
advertised_nonempty name a h = target_of-nonempty a.parts a.target h.unique.target

request_nonempty :
    (target : Text) (body : Fields) → IsRequest host target body → is_empty target ≡ false
request_nonempty _ _ (simple_update_request a u p q n w h permitted) =
    advertised_nonempty (str "SimpleUpdate") a h
request_nonempty _ _ (bmc_request a f u h allowed selected) =
    advertised_nonempty (str "BMCFwUpdate") a h
request_nonempty _ _ (activate_request a u h some_uris no_empty) =
    advertised_nonempty (str "Activate") a h

either_nonempty :
    (first second : Option Text)
    → (truthy first || truthy second) ≡ true
    → is_empty (or_else (or_task first second) []) ≡ false
either_nonempty none none h = cc
either_nonempty none (some s) h = ground arith
either_nonempty (some []) none h = cc
either_nonempty (some []) (some s) h = ground arith
either_nonempty (some (c ∷ s)) second h = refl

upload_nonempty :
    (target : Text) (file : Upload) (fields : Fields)
    → IsUpload host target file fields
    → is_empty target ≡ false
upload_nonempty _ _ _ (image_upload a name file h) = advertised_nonempty name a h
upload_nonempty _ _ _ (file_upload s p serialized file oem read h is_serialized) =
    either_nonempty s.multi_part_http_push_uri s.http_push_uri h

strip_nonempty : (t : Text) → is_empty (strip t) ≡ false → is_empty t ≡ false
unfolding strip
strip_nonempty [] h = absurd (cc h)
strip_nonempty (c ∷ t) h = refl

abbrev guard : Guard host (All IsNamed)
guard = record {
  service_keeps = record { at = λ _ h. h };
  capabilities_keep = λ _. record { at = λ _ h. h };
  raw_keeps = λ _. record { at = λ _ h. h };
  parse_keeps = λ _. record { at = λ _ h. h };
  post_raw_keeps = λ target body h. record { at = λ _ k. (request_nonempty target body h, k) };
  upload_keeps =
      λ target file fields h. record { at = λ _ k. (upload_nonempty target file fields h, k) };
  post_keeps = λ target body h. record { at = λ _ k. (strip_nonempty target h.not_blank, k) };
}

abbrev calls : List Call
calls =
    stage_call (str "http://h/i") (str "/bmc1" ∷ []) none none none none
    ∷ bmc_call (str "FULLFwUpdate") none
    ∷ activate_call (uri (str "/fw") ∷ [])
    ∷ image_call (str "image.bin")
    ∷ vendor_call none request
    ∷ []

after_calls_test : length (after_calls host detect calls []) ≡ 4
unfolding computing
after_calls_test = refl

calls-Permitted_example : All IsNamed (after_calls host detect calls [])
calls-Permitted_example =
    calls-Permitted host detect (All IsNamed) guard (record { at = λ _ h. h }) calls [] tt

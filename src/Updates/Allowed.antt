-- ===== src/Updates/Allowed.antt =====
-- The allowable values of a parameter of an action in redfish_sdk/managers/update.py.
use redfish_python_sdk.Prelude.{
  ◌≡◌, refl, if◌then◌else◌, Bool, true, false, not, ◌&&◌, Option, none, some, List, [], ◌∷◌, ◌++◌,
  Text, str, arith, text_eq,
}
use redfish_python_sdk.Exceptions.{
  attribute_error, Exc, Reason, validation_error, unsupported_upload_selector,
}
use redfish_python_sdk.Result.{Result, ok, err, raise_if, ◌>>=◌ as bind}
use redfish_python_sdk.Exec.{Exec, lift, pure, raise, ◌>>=◌}
use redfish_python_sdk.Exec.Keeps.{Keeps}
use redfish_python_sdk.Exec.Ends.{Ends, ends_returned, ends_raised, Ends-lift, Ends-bind}
use redfish_python_sdk.Exec.Answers.{Ends-Keeps, given-bind}
use redfish_python_sdk.HttpClient.Session.{truthy}
use redfish_python_sdk.Json.{Json, string, array, object}
use redfish_python_sdk.Updates.Requests.{Host, is_true_value}
use redfish_python_sdk.Updates.{Action, is_allowed, get_value, parameter_values}
use redfish_python_sdk.Updates.Service.{
  from_action_info, allowed_values, check_selector, stated_or_found, require_allowed,
}
use redfish_python_sdk.Updates.Permitted.{HasSelector, no_selector, with_selector}
use redfish_python_sdk.Updates.Validated.{Guard}

passed_allowed :
    (r : Result Bool) (e : Exc) → bind r (λ b. raise_if (not b) e) ≡ ok tt → r ≡ ok true
passed_allowed (ok true) e h = refl
passed_allowed (ok false) e h = absurd (cc h)
passed_allowed (err x) e h = absurd (cc h)

module _ {ℓ} {S : Type ℓ} (host : Host S) (I : S → Type ℓ) (guard : Guard host I) where
  unless_true-Ends :
      (b : Bool) (s : S)
      → I s
      → Ends (λ _ s'. I s') I ((if b then raise {A = Option Json} attribute_error else pure none) s)
  unless_true-Ends true s i = ends_raised i
  unless_true-Ends false s i = ends_returned i

  from_action_info-Ends :
      (name : Text) (info : Option Json) (s : S)
      → I s
      → Ends (λ _ s'. I s') I (from_action_info host name info s)
  unfolding from_action_info
  from_action_info-Ends name none s i = ends_returned i
  from_action_info-Ends name (some (string [])) s i = ends_returned i
  from_action_info-Ends name (some (string (c ∷ path))) s i =
      given-bind I (host.get_raw (c ∷ path)) _ s (guard.raw_keeps (c ∷ path)) i
        (λ info s' _ k. Ends-lift (parameter_values name info) s' (λ _ _. k) k)
  from_action_info-Ends name (some Json.null) s i = unless_true-Ends (is_true_value Json.null) s i
  from_action_info-Ends name (some (Json.bool b)) s i =
      unless_true-Ends (is_true_value (Json.bool b)) s i
  from_action_info-Ends name (some (Json.number n)) s i =
      unless_true-Ends (is_true_value (Json.number n)) s i
  from_action_info-Ends name (some (array a)) s i = unless_true-Ends (is_true_value (array a)) s i
  from_action_info-Ends name (some (object o)) s i = unless_true-Ends (is_true_value (object o)) s i

  pub allowed_values-Keeps :
      (a : Action) (name : Text) (fallback : List Text)
      → Keeps I (allowed_values host a name fallback)
  unfolding allowed_values
  allowed_values-Keeps a name fallback =
      Ends-Keeps I (allowed_values host a name fallback)
        (λ s i. at_value s i (get_value (name ++ str "@Redfish.AllowableValues") a.parts))
    where
      at_value :
          (s : S)
          → I s
          → (v : Option Json) → Ends (λ _ s'. I s') I (stated_or_found host a name fallback v s)
      at_value s i (some allowed) = ends_returned i
      at_value s i none =
          let info = get_value (str "@Redfish.ActionInfo") a.parts in
          Ends-bind (from_action_info host name info) _ s (from_action_info-Ends name info s i)
            (λ found s' k. ends_returned k)

  -- A value of a parameter that passes its test, and what is done then.
  pub allowed-bind :
      {B : Type 0} {P : B → S → Type ℓ} (value : Text) (allowed : Json) (reason : Reason)
      (f : Unit {0} → Exec S B) (s : S)
      → I s
      → (is_allowed value allowed ≡ ok true → Ends P I (f tt s))
      → Ends P I ((require_allowed host value allowed reason >>= f) s)
  allowed-bind {P = P} value allowed reason f s i k = at_result (is_allowed value allowed) k
    where
      at_result :
          (r : Result Bool)
          → (r ≡ ok true → Ends P I (f tt s))
          → Ends P I ((lift (bind r (λ b. raise_if (not b) (validation_error reason))) >>= f) s)
      at_result (err e) k = ends_raised i
      at_result (ok true) k = k refl
      at_result (ok false) k = ends_raised i

  -- The selector passes its tests.
  pub check_selector-Ends :
      (a : Action) (flash_type : Text) (upload_selector : Option Text) (s : S)
      → (text_eq flash_type (str "DUALIMAGEFwUpdate") && not (truthy upload_selector)) ≡ false
      → I s
      → Ends
          (λ _ s'. HasSelector host a flash_type upload_selector × I s')
          I
          (check_selector host a upload_selector s)
  unfolding check_selector
  check_selector-Ends a flash_type none s needed i = ends_returned (no_selector (ground arith), i)
  check_selector-Ends a flash_type (some selector) s needed i =
      given-bind I (allowed_values host a (str "UploadSelector") _) _ s
        (allowed_values-Keeps a (str "UploadSelector") _) i
        (λ selectors s' read k.
          Ends-lift
            (bind (is_allowed selector selectors)
              (λ b. raise_if (not b) (validation_error unsupported_upload_selector)))
            s'
            (λ _ e. (
              with_selector (ground arith) (record {
                allowed = selectors;
                was_read = read;
                is_one = passed_allowed (is_allowed selector selectors) _ e;
              }),
              k,
            ))
            k)

-- ===== src/Updates/Strategies.antt =====
-- redfish_sdk/managers/update_strategies: the body of SimpleUpdate that each vendor takes, the
-- registry of strategies, and `simple_update` of redfish_sdk/managers/update.py.
use redfish_python_sdk.Prelude.{
  Option, none, some, List, [], ◌∷◌, Text, str, text_eq, is_empty, strip, lower, if◌then◌else◌,
}
use redfish_python_sdk.Exceptions.{missing_attribute, attribute_error}
use redfish_python_sdk.Result.{Result, ok, err, ◌>>=◌ as bind}
use redfish_python_sdk.Exec.{Exec, pure, raise, lift, ◌>>=◌}
use redfish_python_sdk.HttpClient.Session.{truthy, or_else}
use redfish_python_sdk.Json.{Json, string, object, Fields, empty, get_field}
use redfish_python_sdk.Updates.Requests.{FirmwareUpdateResponse, Host}
use redfish_python_sdk.Updates.Bodies.{
  Request, generic_body, lenovo_body, nettrix_body, xfusion_body, zte_body, inspur_body,
  enginetech_body,
}
use redfish_python_sdk.Updates.H3c.{h3c_body}

-- The strategies that are registered.
pub data Strategy : Type 0 where
  generic enginetech inspur zte h3c nettrix xfusion lenovo : Strategy

unfoldable pub strategies : List (Text × Strategy)
strategies =
    (str "generic", generic)
    ∷ (str "enginetech", enginetech)
    ∷ (str "inspur", inspur)
    ∷ (str "zte", zte)
    ∷ (str "h3c", h3c)
    ∷ (str "nettrix", nettrix)
    ∷ (str "xfusion", xfusion)
    ∷ (str "lenovo", lenovo)
    ∷ []

unfoldable pub registered : Text → List (Text × Strategy) → Strategy
unfolding text_eq
registered vendor [] = generic
registered vendor ((key, strategy) ∷ rest) =
    if text_eq key vendor then strategy else registered vendor rest

-- `UpdateStrategyRegistry.get`
unfoldable pub strategy_for : Text → Strategy
unfolding registered strategies lower
strategy_for vendor = registered (lower vendor) strategies

unfoldable pub body_of : Strategy → Request → Result Fields
unfolding generic_body enginetech_body inspur_body zte_body h3c_body nettrix_body xfusion_body
    lenovo_body
body_of generic r = ok (generic_body r)
body_of enginetech r = enginetech_body r
body_of inspur r = ok (inspur_body r)
body_of zte r = ok (zte_body r)
body_of h3c r = h3c_body r
body_of nettrix r = ok (nettrix_body r)
body_of xfusion r = ok (xfusion_body r)
body_of lenovo r = ok (lenovo_body r)

-- raw.get("Actions", {}).get("#UpdateService.SimpleUpdate", {}).get("target"), where it is a text
unfoldable pub raw_target : Json → Result (Option Text)
unfolding get_field
raw_target raw = bind (member (str "Actions") raw) (λ actions.
    bind (member (str "#UpdateService.SimpleUpdate") actions)
      (λ simple_update. bind (member (str "target") simple_update) (λ target. ok (text_of target))))
  where
    member : Text → Json → Result Json
    member key (object parts) = elim (get_field key parts) [
      | some v ↦ ok v
      | none ↦ ok (object empty)
    ]
    member key _ = err attribute_error

    text_of : Json → Option Text
    text_of (string t) = some t
    text_of _ = none

module _ {ℓ} {S : Type ℓ} (host : Host S) where
  -- get_raw(path), which fails on None
  abbrev pub raw_at : Option Text → Exec S Json
  raw_at none = raise attribute_error
  raw_at (some path) = host.get_raw path

  -- `_discover_action_target`
  unfoldable pub discover_action_target : Exec S Text
  unfolding raw_target strip
  discover_action_target = do
    service ← host.update_service
    raw ← raw_at service.odata_id
    target ← lift (raw_target raw)
    if is_empty (strip (or_else target []))
        then raise (missing_attribute (str "target") (or_else service.odata_id []))
        else pure (or_else target [])

  -- `execute` of a strategy
  unfoldable pub execute : Strategy → Request → Exec S FirmwareUpdateResponse
  unfolding discover_action_target body_of
  execute strategy r = discover_action_target >>= λ target.
      lift (body_of strategy r) >>= λ body. host.post target body

  -- `simple_update`; `detect` is `VendorDetector.detect`.
  unfoldable pub simple_update :
      (detect : Exec S Text) → (vendor : Option Text) → Request → Exec S FirmwareUpdateResponse
  unfolding strategy_for execute
  simple_update detect vendor r =
      (if truthy vendor then pure (or_else vendor []) else detect) >>= λ detected.
      execute (strategy_for detected) r

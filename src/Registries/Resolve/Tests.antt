-- ===== src/Registries/Resolve/Tests.antt =====
-- `resolve` of redfish_sdk/managers/registries.py on a service of three registries, one of which
-- refers to another, and two of which refer to one another.
use mathlib.Core.Path.{subst}
use redfish_python_sdk.Prelude.{
  ℕ, suc, ◌≡◌, refl, Option, none, some, List, [], ◌∷◌, ◌++◌, Text, str, lower, text_eq, mem, all,
  All, IsIn, split_on, join_with, dict_get, has_char, arith, if◌then◌else◌,
}
use redfish_python_sdk.Exceptions.{
  registry_resolution_error, reference_cycle, missing_argument, bad_message_id, unknown_registry,
}
use redfish_python_sdk.Result.{ok, err}
use redfish_python_sdk.Exec.{returned, raised}
use redfish_python_sdk.Exec.Ends.{Ends, ends_returned}
use redfish_python_sdk.Url.{is_digit, decimal}
use redfish_python_sdk.HttpClient.Session.{or_else}
use redfish_python_sdk.Registries.Names.{
  Registry, registry_parts, match_message_id, match_registry_name, parse_version, is_number,
}
use redfish_python_sdk.Registries.Names.Printing.{
  show, registry_identity, identity_text, message_id_text, version_text,
}
use redfish_python_sdk.Registries.Names.RoundTrip.{
  match_message_id-message_id_text, match_registry_name-identity_text,
}
use redfish_python_sdk.Registries.Find.{
  version_lt, candidate, candidates, latest, choose, is_wanted, is_referenced, find_registry,
  find_referenced_registry,
}
use redfish_python_sdk.Registries.Find.Latest.{IsNewest, find_registry-IsNewest}
use redfish_python_sdk.Registries.Format.{
  RegistryMessage, MessageRegistry, substitute, document_identity, resolved_message,
}
use redfish_python_sdk.Registries.Format.Substitution.{
  Piece, char, reference, print, render, substitute-print,
}
use redfish_python_sdk.Registries.Resolve.{Service, document_lead, resolve_from_registry, resolve}
use redfish_python_sdk.Registries.Resolve.Chain.{Known, Resolved, Anything, resolve-Ends}

computing : Unit {0}
unfolding lower text_eq mem all split_on join_with dict_get is_digit decimal registry_parts
    match_message_id match_registry_name parse_version is_number show registry_identity
    identity_text message_id_text version_text version_lt candidate candidates latest choose
    is_wanted is_referenced find_registry find_referenced_registry substitute document_identity
    resolved_message document_lead resolve_from_registry resolve has_char
computing = tt

abbrev registry : Text → Text → Registry
registry prefix version = record {
  id = some (prefix ++ str ".1.2");
  odata_id = none;
  registry_prefix = some prefix;
  registry_version = some version;
  location = [];
}

abbrev advertised : List Registry
advertised =
    registry (str "Base") (str "1.8.0")
    ∷ registry (str "base") (str "1.8.11")
    ∷ registry (str "Loop") (str "1.0.0")
    ∷ registry (str "Pool") (str "1.0.0")
    ∷ []

abbrev message : RegistryMessage
message = record {
  message = some (str "100% of %2, not %1");
  message_severity = some (str "OK");
  number_of_args = some 2;
  resolution = none;
  referenced_registry = none;
}

abbrev document : Option Text → List (Text × RegistryMessage) → MessageRegistry
document source messages = record {
  messages = messages;
  registry_prefix = none;
  registry_version = none;
  referenced_registry = source;
}

abbrev document_of : Option Text → MessageRegistry
document_of prefix =
    if text_eq (or_else prefix []) (str "Loop")
    then document (some (str "Pool.1.0")) []
    else if text_eq (or_else prefix []) (str "Pool")
    then document (some (str "Loop.1.0")) []
    else document none ((str "Moved", message) ∷ [])

abbrev service : Service ℕ
service = record {
  registries = λ n. returned advertised (suc n);
  load = λ registry _ n. returned (document_of registry.registry_prefix) n;
}

-- The newest errata wins, in whatever case its prefix is.
find_registry_test :
    find_registry (str "BASE") 1 8 advertised ≡ ok (registry (str "base") (str "1.8.11"))
unfolding computing
find_registry_test = refl

abbrev args : Option (List Text)
args = some (str "a" ∷ str "b" ∷ [])

resolve_test :
    resolve service args none 5 (str "Base.1.8.Moved") 0
    ≡ returned
        (some (record {
          requested_message_id = str "Base.1.8.Moved";
          message_id = str "base.1.8.Moved";
          registry_prefix = str "base";
          registry_version = str "1.8.11";
          message_key = str "Moved";
          message = str "100% of b, not a";
          message_args = str "a" ∷ str "b" ∷ [];
          message_severity = some (str "OK");
          resolution = none;
        }))
        1
unfolding computing
resolve_test = refl

resolve_cycle_test :
    resolve service args none 5 (str "Loop.1.0.Moved") 0
    ≡ raised (registry_resolution_error reference_cycle) 3
unfolding computing
resolve_cycle_test = refl

resolve_bad_id_test :
    resolve service args none 5 (str "Base.1.8.0.Moved") 0
    ≡ raised (registry_resolution_error bad_message_id) 0
unfolding computing
resolve_bad_id_test = refl

substitute_missing_test :
    substitute (str "a" ∷ []) (str "%1 %02") ≡ err (registry_resolution_error missing_argument)
unfolding computing
substitute_missing_test = refl

find_registry-IsNewest_example :
    IsNewest
      (is_wanted (str "Base") 1 8)
      unknown_registry
      advertised
      (find_registry (str "Base") 1 8 advertised)
find_registry-IsNewest_example = find_registry-IsNewest (str "Base") 1 8 advertised

match_message_id_example :
    match_message_id (message_id_text (str "Base") (1, 18, 0) (str "Moved"))
    ≡ some (record { prefix = str "Base"; major = 1; minor = 18; key = str "Moved" })
unfolding computing
match_message_id_example =
    match_message_id-message_id_text (str "Base") (str "Moved") (1, 18, 0) refl refl refl refl

match_registry_name_example :
    match_registry_name (identity_text (str "Base") (1, 18, 3))
    ≡ some (record { prefix = str "Base"; major = 1; minor = 18; errata = some 3 })
unfolding computing
match_registry_name_example = match_registry_name-identity_text (str "Base") (1, 18, 3) refl refl

abbrev template : List Piece
template = char b'%' ∷ char b' ' ∷ reference 1 ∷ char b'%' ∷ reference 12 ∷ char b'!' ∷ []

substitute-print_example :
    substitute (str "a" ∷ []) (print template) ≡ render (str "a" ∷ []) template
unfolding computing
substitute-print_example =
    substitute-print (str "a" ∷ []) template (refl, (refl, (refl, (refl, (refl, (refl, tt))))))

abbrev identities : List Text
identities = str "Base.1.8.0" ∷ str "base.1.8.11" ∷ str "Loop.1.0.0" ∷ str "Pool.1.0.0" ∷ []

identified-Known :
    (r : Registry) (identity : Text)
    → registry_identity r ≡ ok identity
    → IsIn identities identity
    → Known identities r
identified-Known r identity e m other e' =
    let same : identity ≡ other = cc in subst (IsIn identities) same m

advertised-Known : All (Known identities) advertised
unfolding computing
advertised-Known = (
  identified-Known (registry (str "Base") (str "1.8.0")) (str "Base.1.8.0") refl refl,
  (
    identified-Known (registry (str "base") (str "1.8.11")) (str "base.1.8.11") refl refl,
    (
      identified-Known (registry (str "Loop") (str "1.0.0")) (str "Loop.1.0.0") refl refl,
      (identified-Known (registry (str "Pool") (str "1.0.0")) (str "Pool.1.0.0") refl refl, tt),
    ),
  ),
)

resolve-Ends_example :
    Ends
      (Resolved service identities args none (str "Loop.1.0.Moved"))
      (Anything service identities)
      (resolve service args none 5 (str "Loop.1.0.Moved") 0)
resolve-Ends_example =
    resolve-Ends service identities args none 5 (str "Loop.1.0.Moved") 0
      (λ s. ends_returned advertised-Known) (omega arith)

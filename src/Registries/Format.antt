-- ===== src/Registries/Format.antt =====
-- The text of a message in redfish_sdk/managers/registries.py: `_resolved_message` with the
-- substitution of its arguments.
pub mod Substitution
use redfish_python_sdk.Prelude.{
  ℕ, zero, suc, ◌+◌, ◌-◌, ◌*◌, Bool, true, false, not, ◌&&◌, ◌==◌, ltb, Option, none, some, List,
  [], ◌∷◌, ◌++◌, Text, length, if◌then◌else◌,
}
use redfish_python_sdk.Exceptions.{
  Exc, registry_resolution_error, missing_argument, no_message_text, wrong_arguments,
}
use redfish_python_sdk.Result.{Result, ok, err, ◌>>=◌, ◌>>◌, raise_if}
use redfish_python_sdk.Url.{is_digit}
use redfish_python_sdk.HttpClient.Session.{truthy, or_else}
use redfish_python_sdk.Registries.Names.{Version, Registry, registry_parts, parse_version}
use redfish_python_sdk.Registries.Names.Printing.{version_text, message_id_text}

-- `RegistryMessage`
pub record RegistryMessage : Type 0 where
  pub message : Option Text
  pub message_severity : Option Text
  pub number_of_args : Option ℕ
  pub resolution : Option Text
  pub referenced_registry : Option Text

-- `MessageRegistry`
pub record MessageRegistry : Type 0 where
  pub messages : List (Text × RegistryMessage)
  pub registry_prefix : Option Text
  pub registry_version : Option Text
  pub referenced_registry : Option Text

-- `ResolvedMessage`
pub record ResolvedMessage : Type 0 where
  pub requested_message_id : Text
  pub message_id : Text
  pub registry_prefix : Text
  pub registry_version : Text
  pub message_key : Text
  pub message : Text
  pub message_args : List Text
  pub message_severity : Option Text
  pub resolution : Option Text

abbrev pub nth_text : ℕ → List Text → Option Text
nth_text n [] = none
nth_text zero (arg ∷ args) = some arg
nth_text (suc n) (arg ∷ args) = nth_text n args

-- `substitute`, of the number behind the percent sign
unfoldable pub argument : List Text → ℕ → Result Text
argument args n = elim (if n == 0 then none else nth_text (n - 1) args) [
  | none ↦ err (registry_resolution_error missing_argument)
  | some arg ↦ ok arg
]

-- What was read last: nothing of `%(\d+)`, the percent sign, or the number so far.
pub data Pending : Type 0 where
  plain percent : Pending
  number : ℕ → Pending

-- The text that is due when a match ends, or fails.
unfoldable pub due : List Text → Pending → Result Text
unfolding argument
due args plain = ok []
due args percent = ok (b'%' ∷ [])
due args (number n) = argument args n

-- one more digit of the number
abbrev pub digit_after : Pending → ℕ → Pending
digit_after (number n) c = number (n * 10 + (c - b'0'))
digit_after _ c = number (c - b'0')

abbrev pub is_pending : Pending → Bool
is_pending plain = false
is_pending _ = true

-- `_ARGUMENT.sub(substitute, text)`, from left to right
unfoldable pub substitute_from : List Text → Pending → Text → Result Text
unfolding due
substitute_from args pending [] = due args pending
substitute_from args pending (c ∷ s) =
    let onward = substitute_from args (digit_after pending c) s in
    let opened = (do
      before ← due args pending
      after ← substitute_from args percent s
      ok (before ++ after)) in
    let copied = (do
      before ← due args pending
      after ← substitute_from args plain s
      ok (before ++ (c ∷ after))) in
    if is_pending pending && is_digit c then onward else if c == b'%' then opened else copied

unfoldable pub substitute : List Text → Text → Result Text
unfolding substitute_from
substitute args text = substitute_from args plain text

abbrev pub given : Option (List Text) → List Text
given none = []
given (some args) = args

abbrev pub is_given : Option (List Text) → Bool
is_given none = false
is_given (some _) = true

abbrev pub differs : ℕ → Option ℕ → Bool
differs n none = false
differs n (some expected) = not (n == expected)

abbrev or_parsed : Option Version → Version → Version
or_parsed none version = version
or_parsed (some version) _ = version

-- `_document_identity`
unfoldable pub document_identity : MessageRegistry → Registry → Result (Text × Version)
document_identity document registry = registry_parts registry >>= λ fallback. ok (
  if truthy document.registry_prefix then or_else document.registry_prefix [] else fallback.0,
  or_parsed (parse_version document.registry_version) fallback.1,
)

-- The text, with the arguments in place where they are given.
abbrev pub formatted : Option (List Text) → Text → Result Text
formatted none text = ok text
formatted (some args) text = substitute args text

-- `_resolved_message`
unfoldable pub resolved_message :
    MessageRegistry
    → Registry
    → Text
    → RegistryMessage
    → Text
    → Option (List Text)
    → Result ResolvedMessage
resolved_message document registry key definition requested_message_id message_args =
    elim definition.message [
      | none ↦ registry_parts registry >>= λ _. err (registry_resolution_error no_message_text)
      | some template ↦ do
        raise_if
            (is_given message_args
              && differs (length (given message_args)) definition.number_of_args)
            (registry_resolution_error wrong_arguments)
        text ← formatted message_args template
        (prefix, version) ← document_identity document registry
        ok (record {
          requested_message_id = requested_message_id;
          message_id = message_id_text prefix version key;
          registry_prefix = prefix;
          registry_version = version_text version;
          message_key = key;
          message = text;
          message_args = given message_args;
          message_severity = definition.message_severity;
          resolution = definition.resolution;
        })
    ]

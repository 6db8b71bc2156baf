-- ===== src/Registries/Names/Printing.antt =====
-- Versions and identities as redfish_sdk/managers/registries.py prints them, in f-strings and by
-- `_registry_identity`.
use redfish_python_sdk.Prelude.{
  ℕ, zero, suc, ◌+◌, ◌/◌, ◌%◌, [], ◌∷◌, ◌++◌, Text, ltb, join_with, if◌then◌else◌,
}
use redfish_python_sdk.Result.{Result, ok, ◌>>=◌}
use redfish_python_sdk.Registries.Names.{Version, Registry, registry_parts}

-- The decimal digits of `n`, for a fuel above it.
unfoldable pub digits_of : ℕ → ℕ → Text
digits_of zero n = []
digits_of (suc fuel) n =
    let earlier = digits_of fuel (n / 10) in
    if ltb n 10 then (b'0' + n) ∷ [] else earlier ++ ((b'0' + n % 10) ∷ [])

-- str(n); the fuel is enough, since each round divides `n` by ten.
unfoldable pub show : ℕ → Text
unfolding digits_of
show n = digits_of (suc n) n

-- f"{prefix}.{version[0]}.{version[1]}.{version[2]}"
unfoldable pub identity_text : Text → Version → Text
identity_text prefix (major, minor, errata) =
    join_with b'.' (prefix ∷ show major ∷ show minor ∷ show errata ∷ [])

-- ".".join(str(part) for part in version)
unfoldable pub version_text : Version → Text
version_text (major, minor, errata) = join_with b'.' (show major ∷ show minor ∷ show errata ∷ [])

-- f"{prefix}.{major}.{minor}.{key}"
unfoldable pub message_id_text : Text → Version → Text → Text
message_id_text prefix (major, minor, errata) key =
    join_with b'.' (prefix ∷ show major ∷ show minor ∷ key ∷ [])

-- `_registry_identity`
unfoldable pub registry_identity : Registry → Result Text
unfolding registry_parts identity_text
registry_identity registry = registry_parts registry >>= λ p. ok (identity_text p.0 p.1)

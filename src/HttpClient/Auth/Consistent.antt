-- ===== src/HttpClient/Auth/Consistent.antt =====
-- The authentication mode, the session key and the two credential headers agree.
use redfish_python_sdk.Prelude.{◌≡◌, refl, ◌⊎◌, inl, Option, none, some, Text, arith}
use redfish_python_sdk.Exec.Keeps.{Keeps}
use redfish_python_sdk.HttpClient.Defs.{basic, session, HttpClient}
use redfish_python_sdk.HttpClient.Session.{set_auth_token, reset_basic_auth}
use redfish_python_sdk.HttpClient.Auth.{clear_active_session}
use redfish_python_sdk.HttpClient.Auth.Frame.{IsRefreshInvariant, IsSendInvariant}

-- In basic mode the Basic header is set and there is no token; in session mode there is no Basic
-- header, and the token header is the session key.
abbrev pub IsConsistent : HttpClient → Type 0
IsConsistent c =
    ((c.auth_mode ≡ basic)
      × (c.session_key ≡ none)
      × (c.authorization ≡ some c.basic_auth)
      × (c.x_auth_token ≡ none))
    ⊎ ((c.auth_mode ≡ session) × (c.authorization ≡ none) × (c.x_auth_token ≡ c.session_key))

pub set_auth_token-IsConsistent :
    (token : Text) (location collection username password : Option Text)
    → Keeps IsConsistent (set_auth_token token location collection username password)
unfolding set_auth_token
set_auth_token-IsConsistent token location collection username password = record {
  at = λ s h. ground arith;
}

pub reset_basic_auth-IsConsistent : (c : HttpClient) → IsConsistent (reset_basic_auth c)
unfolding reset_basic_auth
reset_basic_auth-IsConsistent c = inl (refl, refl, refl, refl)

pub clear_active_session-IsConsistent :
    (location : Text) → Keeps IsConsistent (clear_active_session location)
unfolding clear_active_session
clear_active_session-IsConsistent location = record { at = λ s h. ground arith }

pub IsConsistent-refreshing : IsRefreshInvariant IsConsistent
IsConsistent-refreshing = record {
  login = λ c path url h e. h;
  failed = λ c key e h. h;
  token = set_auth_token-IsConsistent;
}

pub IsConsistent-sending : IsSendInvariant IsConsistent
IsConsistent-sending = record {
  own = λ c method path url h e. h;
  external = λ c method path url h e. h;
  paused = λ c t h. h;
}

-- ===== src/HttpClient/Auth/Safe.antt =====
-- Credentials stay with the configured origin.
use redfish_python_sdk.Prelude.{
  ◌≡◌, refl, ◌⊎◌, inl, inr, true, false, none, Text, str, arith, if◌then◌else◌, All,
}
use redfish_python_sdk.Result.{Result, ok, err}
use redfish_python_sdk.Url.{SplitResult, urlsplit, urlunsplit}
use redfish_python_sdk.HttpClient.Defs.{HttpClient, Sent, session_request}
use redfish_python_sdk.HttpClient.Origin.{
  resolve_url, is_own_target, is_absolute, build_url, base_url,
}
use redfish_python_sdk.HttpClient.Auth.Frame.{logged, IsRefreshInvariant, IsSendInvariant}
use redfish_python_sdk.HttpClient.Session.{set_auth_token}

-- A request carries no credentials, or its target is a split target of the configured authority.
pub record IsOwnTarget (base url : Text) : Type 0 where
  pub target : SplitResult
  pub authority : SplitResult
  pub configured : urlsplit base ≡ ok authority
  pub same : is_own_target target authority ≡ ok true
  pub written : url ≡ urlunsplit target

abbrev pub IsGuarded : Text → Sent → Type 0
IsGuarded base s = ((s.authorization ≡ none) × (s.x_auth_token ≡ none)) ⊎ IsOwnTarget base s.url

resolve_url-IsOwnTarget :
    (c : HttpClient) (path url : Text) → resolve_url c path ≡ ok url → IsOwnTarget (base_url c) url
unfolding resolve_url
resolve_url-IsOwnTarget c path url h =
    go (urlsplit (base_url c)) (urlsplit (if is_absolute path then path else build_url c path)) refl
      refl
  where
    go :
        (b t : Result SplitResult)
        → urlsplit (base_url c) ≡ b
        → urlsplit (if is_absolute path then path else build_url c path) ≡ t
        → IsOwnTarget (base_url c) url
    go (ok base) (ok target) p q = record {
      target = target;
      authority = base;
      configured = p;
      same = ground arith;
      written = ground arith;
    }
    go (ok base) (err e) p q = absurd (ground arith)
    go (err e) t p q = absurd (ground arith)

-- Every request that a client sent is guarded, for the scheme and the host it was built with.
pub record IsSafe (base : Text) (c : HttpClient) : Type 0 where
  pub at_base : base_url c ≡ base
  pub guarded : All (IsGuarded base) c.sent

anonymous :
    (base : Text) (c : HttpClient) (method url : Text)
    → IsGuarded base (session_request method url false c)
unfolding session_request
anonymous base c method url = inl (refl, refl)

-- A request of the credential-free session is safe, wherever it goes.
pub external-IsSafe :
    (base method url : Text) (c : HttpClient)
    → IsSafe base c
    → IsSafe base (logged c method url false)
unfolding base_url
external-IsSafe base method url c h = record {
  at_base = h.at_base;
  guarded = (anonymous base c method url, h.guarded);
}

pub IsSafe-refreshing : (base : Text) → IsRefreshInvariant (IsSafe base)
unfolding base_url set_auth_token
IsSafe-refreshing base = record {
  login = λ c path url h e. record {
    at_base = h.at_base;
    guarded = (anonymous base c (str "POST") url, h.guarded);
  };
  failed = λ c key e h. record { at_base = h.at_base; guarded = h.guarded };
  token = λ token location collection username password. record { at = λ s h. ground arith };
}

pub IsSafe-sending : (base : Text) → IsSendInvariant (IsSafe base)
unfolding base_url session_request
IsSafe-sending base = record {
  own = λ c method path url h e. record {
    at_base = h.at_base;
    guarded = (inr (rw (← h.at_base) (resolve_url-IsOwnTarget c path url e)), h.guarded);
  };
  external = λ c method path url h e. record {
    at_base = h.at_base;
    guarded = (anonymous base c method url, h.guarded);
  };
  paused = λ c t h. record { at_base = h.at_base; guarded = h.guarded };
}

-- ===== src/Updates/Credentials.antt =====
-- Where the strategies of redfish_sdk/managers/update_strategies send the credentials of the file
-- server.
use redfish_python_sdk.Prelude.{
  ◌≡◌, refl, Bool, true, false, Option, [], ◌∷◌, Text, str, mem, lower, Bool-cases, inl, inr,
}
use redfish_python_sdk.Result.{ok}
use redfish_python_sdk.Exec.{Exec}
use redfish_python_sdk.HttpClient.Session.{truthy, or_else}
use redfish_python_sdk.Updates.Requests.{Host}
use redfish_python_sdk.Updates.Bodies.{Request, generic_body, zte_body, nettrix_body, xfusion_body}
use redfish_python_sdk.Updates.H3c.{build_uri_with_credentials, h3c_body}
use redfish_python_sdk.Updates.Strategies.{
  Strategy, generic, enginetech, inspur, zte, h3c, nettrix, xfusion, lenovo, body_of, execute,
  strategy_for, simple_update,
}

-- Whether a request of that vendor over that protocol may hold credentials: in fields of the body,
-- and for H3C in the URI of SFTP and CIFS.
abbrev pub holds_credentials : Strategy → (transfer_protocol : Text) → Bool
holds_credentials enginetech protocol = true
holds_credentials inspur protocol = true
holds_credentials lenovo protocol = true
holds_credentials h3c protocol = mem (lower protocol) (str "sftp" ∷ str "cifs" ∷ [])
holds_credentials generic protocol = false
holds_credentials zte protocol = false
holds_credentials nettrix protocol = false
holds_credentials xfusion protocol = false

abbrev pub with_user : Option Text → Option Text → Request → Request
with_user username password r = record r { username = username; password = password }

-- Without a protocol for it, the URI is left as it is.
build_uri_without :
    (image_uri protocol : Text) (user password : Option Text)
    → mem (lower protocol) (str "sftp" ∷ str "cifs" ∷ []) ≡ false
    → build_uri_with_credentials image_uri protocol user password ≡ ok image_uri
unfolding build_uri_with_credentials
build_uri_without image_uri protocol user password h = elim (Bool-cases (truthy user)) [
  | inl t ↦ rw (t, h) refl
  | inr f ↦ rw f refl
]

body_of-same :
    (strategy : Strategy) (r : Request) (username password username' password' : Option Text)
    → holds_credentials strategy r.transfer_protocol ≡ false
    → body_of strategy (with_user username password r)
      ≡ body_of strategy (with_user username' password' r)
unfolding body_of generic_body zte_body nettrix_body xfusion_body h3c_body
body_of-same generic r username password username' password' h = refl
body_of-same zte r username password username' password' h = refl
body_of-same nettrix r username password username' password' h = refl
body_of-same xfusion r username password username' password' h = refl
body_of-same h3c r username password username' password' h =
    rw
      (
        build_uri_without r.image_uri r.transfer_protocol username password h,
        build_uri_without r.image_uri r.transfer_protocol username' password' h,
      )
      refl
body_of-same enginetech r username password username' password' h = absurd (cc h)
body_of-same inspur r username password username' password' h = absurd (cc h)
body_of-same lenovo r username password username' password' h = absurd (cc h)

module _ {ℓ} {S : Type ℓ} (host : Host S) where
  execute-same :
      (strategy : Strategy) (r : Request) (username password username' password' : Option Text)
      → holds_credentials strategy r.transfer_protocol ≡ false
      → execute host strategy (with_user username password r)
        ≡ execute host strategy (with_user username' password' r)
  unfolding execute
  execute-same strategy r username password username' password' h =
      rw (body_of-same strategy r username password username' password' h) refl

  -- For a vendor that is given and whose strategy is the generic one, ZTE's, Nettrix's or xFusion's,
  -- or H3C's over another protocol than SFTP and CIFS, `simple_update` does the same whatever the
  -- user and the password of the file server are: it sends neither of them.
  pub simple_update-Confined :
      (detect : Exec S Text) (vendor : Option Text) (r : Request)
      (username password username' password' : Option Text)
      → truthy vendor ≡ true
      → holds_credentials (strategy_for (or_else vendor [])) r.transfer_protocol ≡ false
      → simple_update host detect vendor (with_user username password r)
        ≡ simple_update host detect vendor (with_user username' password' r)
  unfolding simple_update
  simple_update-Confined detect vendor r username password username' password' given h =
      rw given
        (execute-same (strategy_for (or_else vendor [])) r username password username' password' h)

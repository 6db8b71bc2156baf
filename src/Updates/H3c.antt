-- ===== src/Updates/H3c.antt =====
-- The body of SimpleUpdate of redfish_sdk/managers/update_strategies/h3c.py, with the credentials
-- in its URI.
use redfish_python_sdk.Prelude.{
  ℕ, not, Option, none, some, List, [], ◌∷◌, ◌++◌, Text, str, is_empty, mem, lower, cut, cut_last,
  ◌==◌, if◌then◌else◌,
}
use redfish_python_sdk.Result.{Result, ok, ◌>>=◌ as bind}
use redfish_python_sdk.HttpClient.Session.{truthy, or_else}
use redfish_python_sdk.Json.{Json, string, bool, Fields, empty, field}
use redfish_python_sdk.Url.{digits, SplitResult, urlsplit, urlunsplit, username, hostname, port}
use redfish_python_sdk.Updates.Requests.{optional_field}
use redfish_python_sdk.Updates.Bodies.{Request, given_value, as_bool, public_part}

-- The host and the port of `new_netloc`; a host that there is not is printed as None, and a port of
-- zero is left out. A port has five digits at most.
abbrev pub host_text : Option Text → Text
host_text none = str "None"
host_text (some host) = host

unfoldable pub port_text : Option ℕ → Text
unfolding digits
port_text none = []
port_text (some n) = if n == 0 then [] else b':' ∷ digits 5 n []

-- `uses_params` of urllib.parse
unfoldable uses_params : List Text
uses_params =
    []
    ∷ str "ftp"
    ∷ str "hdl"
    ∷ str "prospero"
    ∷ str "http"
    ∷ str "https"
    ∷ str "shttp"
    ∷ str "rtsp"
    ∷ str "rtsps"
    ∷ str "sip"
    ∷ str "sips"
    ∷ str "mms"
    ∷ str "sftp"
    ∷ str "tel"
    ∷ []

-- What `urlparse` and `urlunparse` leave of a path: `;` before parameters of the last segment that
-- are empty is lost.
unfoldable without_empty_params : Text → Text
unfolding cut cut_last
without_empty_params path =
    let (directory, segment) = cut_last b'/' path in
    let (name, params) = cut b';' segment in
    elim params [
      | some [] ↦ elim directory [ none ↦ name | some d ↦ d ++ (b'/' ∷ name) ]
      | _ ↦ path
    ]

unfoldable pub reparsed_path : Text → Text → Text
unfolding mem uses_params without_empty_params
reparsed_path scheme path = if mem scheme uses_params then without_empty_params path else path

-- `new_netloc`
unfoldable pub netloc_with :
    (username : Text) → (password hostname : Option Text) → (port : Option ℕ) → Text
unfolding port_text
netloc_with username password hostname port =
    (username ++ (if truthy password then b':' ∷ or_else password [] else []))
    ++ (b'@' ∷ (host_text hostname ++ port_text port))

-- The last part of `_build_uri_with_credentials`.
unfoldable pub with_userinfo :
    (proto_lower username : Text) → (password : Option Text) → SplitResult → Result Text
unfolding hostname port netloc_with urlunsplit reparsed_path
with_userinfo proto_lower username password parsed = bind (port parsed) (λ p. ok (
    urlunsplit (record parsed {
      scheme = if is_empty parsed.scheme then proto_lower else parsed.scheme;
      netloc = netloc_with username password (hostname parsed) p;
      path = reparsed_path parsed.scheme parsed.path;
    })))

-- `_build_uri_with_credentials`; `urlparse` is `urlsplit`, with the parameters in the path.
unfoldable pub build_uri_with_credentials :
    (image_uri transfer_protocol : Text) → (user password : Option Text) → Result Text
unfolding mem lower urlsplit username with_userinfo
build_uri_with_credentials image_uri transfer_protocol user password =
    if not (truthy user)
    then ok image_uri
    else if not (mem (lower transfer_protocol) (str "sftp" ∷ str "cifs" ∷ []))
    then ok image_uri
    else bind (urlsplit image_uri) (λ parsed.
      if truthy (username parsed)
      then ok image_uri
      else with_userinfo (lower transfer_protocol) (or_else user []) password parsed)

-- What is written as Preserve: the mode, and otherwise what the flag means.
unfoldable pub preserve : Fields → Option Json
unfolding given_value as_bool
preserve kwargs = elim (given_value (str "restore_mode") kwargs) [
  | some mode ↦ some mode
  | none ↦ elim (as_bool (str "preserve_config") kwargs) [
    | some (bool b) ↦ some (string (if b then str "Retain" else str "Restore"))
    | _ ↦ none
  ]
]

-- `H3cUpdateStrategy.execute`
unfoldable pub h3c_body : Request → Result Fields
unfolding build_uri_with_credentials preserve given_value
h3c_body r =
    bind (build_uri_with_credentials r.image_uri r.transfer_protocol r.username r.password) (λ u.
      ok (
        field (str "ImageURI") (string u) (
          public_part (
            optional_field (str "Preserve") (preserve r.extra) (
              optional_field (str "RebootMode") (given_value (str "reboot_mode") r.extra) (
                optional_field (str "Backup") (given_value (str "backup") r.extra) (
                  optional_field (str "BiosFlash") (given_value (str "bios_flash") r.extra) (
                    optional_field (str "ImageMd5URI") (given_value (str "image_md5_uri") r.extra) (
                      optional_field (str "Date") (given_value (str "delay") r.extra) (
                        optional_field (str "UpgradeType")
                          (given_value (str "upgrade_type") r.extra) empty))))))))))

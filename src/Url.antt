-- ===== src/Url.antt =====
-- urllib.parse: `urlsplit` and `urlunsplit` of ASCII texts, with the derived parts of a result.
-- What a bracketed host holds is not examined.
pub mod Join
pub mod Cuts
use redfish_python_sdk.Prelude.{
  ℕ, ◌+◌, ◌-◌, ◌*◌, ◌/◌, ◌%◌, zero, suc, Bool, false, not, ◌&&◌, ◌||◌, Option, none, some, [], ◌∷◌,
  ◌++◌, ◌≡◌, refl, Text, str, starts_with, has_char, lower, drop_while, cut, cut_last, filter_by,
  all, is_empty, leb, ◌==◌, if◌then◌else◌,
}
use redfish_python_sdk.Exceptions.{value_error}
use redfish_python_sdk.Result.{Result, ok, err}

pub record SplitResult : Type 0 where
  pub scheme : Text
  pub netloc : Text
  pub path : Text
  pub query : Text
  pub fragment : Text

unfoldable pub is_alpha : ℕ → Bool
is_alpha c = (leb b'a' c && leb c b'z') || (leb b'A' c && leb c b'Z')

unfoldable pub is_digit : ℕ → Bool
is_digit c = leb b'0' c && leb c b'9'

unfoldable pub is_scheme_char : ℕ → Bool
unfolding is_alpha is_digit
is_scheme_char c = is_alpha c || is_digit c || c == b'+' || c == b'-' || c == b'.'

-- what `urlsplit` keeps of a text: no blank or control character at the left end, and no tab or
-- line end anywhere
unfoldable pub is_kept : ℕ → Bool
is_kept c = not (c == 9 || c == 10 || c == 13)

unfoldable pub cleaned : Text → Text
unfolding drop_while filter_by is_kept
cleaned url = filter_by is_kept (drop_while (λ c. leb c 32) url)

unfoldable pub ends_netloc : ℕ → Bool
ends_netloc c = c == b'/' || c == b'?' || c == b'#'

-- the longest prefix without a delimiter, and the rest with it
unfoldable pub split_netloc : Text → Text × Text
unfolding ends_netloc
split_netloc [] = ([], [])
split_netloc (c ∷ s) =
    let (netloc, rest) = split_netloc s in if ends_netloc c then ([], c ∷ s) else (c ∷ netloc, rest)

unfoldable pub is_scheme : Text → Bool
unfolding is_scheme_char all
is_scheme [] = false
is_scheme (c ∷ s) = is_alpha c && all is_scheme_char s

-- the scheme in lower case, if there is one, and the rest
unfoldable pub split_scheme : Text → Text × Text
unfolding cut is_scheme lower
split_scheme url =
    let (before, after) = cut b':' url in
    elim after [
      | none ↦ ([], url)
      | some rest ↦ if is_scheme before then (lower before, rest) else ([], url)
    ]

abbrev pub or_empty : Option Text → Text
or_empty none = []
or_empty (some s) = s

-- the text behind a leading "//"
unfoldable pub after_slashes : Text → Option Text
after_slashes (c ∷ d ∷ s) = if c == b'/' && d == b'/' then some s else none
after_slashes _ = none

unfoldable pub with_netloc : Text → Text → Text → Result SplitResult
unfolding cut has_char
with_netloc scheme netloc url =
    let (before_fragment, fragment) = cut b'#' url in
    let (path, query) = cut b'?' before_fragment in
    let opens = has_char b'[' netloc in
    let closes = has_char b']' netloc in
    if (opens && not closes) || (closes && not opens)
    then err value_error
    else ok (record {
      scheme = scheme;
      netloc = netloc;
      path = path;
      query = or_empty query;
      fragment = or_empty fragment;
    })

unfoldable pub split_rest : Text → Text → Result SplitResult
unfolding with_netloc split_netloc after_slashes
split_rest scheme url = elim (after_slashes url) [
  | none ↦ with_netloc scheme [] url
  | some rest ↦ let (netloc, tail) = split_netloc rest in with_netloc scheme netloc tail
]

unfoldable pub urlsplit : Text → Result SplitResult
unfolding cleaned split_scheme split_rest
urlsplit url = let (scheme, rest) = split_scheme (cleaned url) in split_rest scheme rest

-- the parts of `netloc`: the user information, if there is an '@', and the host with its port
unfoldable pub userinfo : SplitResult → Option Text
unfolding cut_last
userinfo parts = (cut_last b'@' parts.netloc).0

unfoldable pub hostinfo : SplitResult → Text
unfolding cut_last
hostinfo parts = (cut_last b'@' parts.netloc).1

unfoldable pub username : SplitResult → Option Text
unfolding userinfo cut
username parts = elim (userinfo parts) [ none ↦ none | some info ↦ some (cut b':' info).0 ]

unfoldable pub password : SplitResult → Option Text
unfolding userinfo cut
password parts = elim (userinfo parts) [ none ↦ none | some info ↦ (cut b':' info).1 ]

host_and_port : Text → Text × Option Text
unfolding cut
host_and_port info = elim (cut b'[' info).1 [
  | none ↦ cut b':' info
  | some inner ↦ let (host, rest) = cut b']' inner in (host, (cut b':' (or_empty rest)).1)
]

-- the host and the text of the port; an empty port is none
unfoldable pub host_port : Text → Text × Option Text
unfolding host_and_port
host_port info =
    let (host, port) = host_and_port info in (host, if is_empty (or_empty port) then none else port)

unfoldable pub hostname : SplitResult → Option Text
unfolding hostinfo host_port lower
hostname parts =
    let (host, _) = host_port (hostinfo parts) in if is_empty host then none else some (lower host)

unfoldable pub decimal : ℕ → Text → ℕ
decimal n [] = n
decimal n (c ∷ s) = decimal (n * 10 + (c - b'0')) s

-- `parts.port` raises ValueError for what is no port number.
unfoldable pub port : SplitResult → Result (Option ℕ)
unfolding hostinfo host_port all is_digit decimal
port parts =
    let (_, text) = host_port (hostinfo parts) in
    elim text [
      | none ↦ ok none
      | some digits ↦
          if all is_digit digits && leb (decimal 0 digits) 65535
          then ok (some (decimal 0 digits))
          else err value_error
    ]

-- str(n), where n has at most `fuel` digits
unfoldable pub digits : ℕ → ℕ → Text → Text
digits zero n shown = shown
digits (suc fuel) n shown =
    let shown' = (b'0' + n % 10) ∷ shown in
    let rest = digits fuel (n / 10) shown' in if n / 10 == 0 then shown' else rest

unfoldable pub urlunsplit : SplitResult → Text
unfolding starts_with
urlunsplit parts =
    let path =
      if not (is_empty parts.path) && not (starts_with parts.path (str "/"))
      then b'/' ∷ parts.path
      else parts.path in
    let url = if is_empty parts.netloc then parts.path else str "//" ++ parts.netloc ++ path in
    let url = if is_empty parts.scheme then url else parts.scheme ++ str ":" ++ url in
    let url = if is_empty parts.query then url else url ++ str "?" ++ parts.query in
    if is_empty parts.fragment then url else url ++ str "#" ++ parts.fragment

urlsplit_absolute :
    urlsplit (str "HTTPS://u:p@BMC.lan:8443/redfish/v1?a=b#c")
    ≡ ok (record {
      scheme = str "https";
      netloc = str "u:p@BMC.lan:8443";
      path = str "/redfish/v1";
      query = str "a=b";
      fragment = str "c";
    })
unfolding urlsplit
urlsplit_absolute = refl

abbrev example_parts : SplitResult
example_parts = record {
  scheme = str "https";
  netloc = str "u:p@BMC.lan:8443";
  path = [];
  query = [];
  fragment = [];
}

parts_of_netloc :
    (hostname example_parts ≡ some (str "bmc.lan"))
    × (port example_parts ≡ ok (some 8443))
    × (username example_parts ≡ some (str "u"))
    × (password example_parts ≡ some (str "p"))
unfolding hostname port username password
parts_of_netloc = (refl, refl, refl, refl)

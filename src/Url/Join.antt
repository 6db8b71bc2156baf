-- ===== src/Url/Join.antt =====
-- urllib.parse.urljoin, for a base whose scheme is http or https.
use redfish_python_sdk.Prelude.{
  Bool, not, ◌&&◌, ◌||◌, List, [], ◌∷◌, ◌++◌, ◌≡◌, refl, Text, str, text_eq, has_char, cut,
  is_empty, filter_by, split_on, join_with, starts_with, if◌then◌else◌,
}
use redfish_python_sdk.Result.{Result, ok, ◌>>=◌}
use redfish_python_sdk.Url.{SplitResult, urlsplit, urlunsplit, or_empty}

-- `_splitparams`: the path, and what stands behind the first ';' of its last segment.
unfoldable split_params : Text → Text × Text
unfolding cut has_char
split_params [] = ([], [])
split_params (c ∷ s) =
    let (path, params) = split_params s in
    if has_char b'/' (c ∷ s)
    then (c ∷ path, params)
    else let (before, after) = cut b';' (c ∷ s) in (before, or_empty after)

-- `urlunparse` of a result whose path is in two parts.
abbrev unparse : SplitResult → Text → Text → Text
unparse parts path params =
    urlunsplit (record parts { path = if is_empty params then path else path ++ str ";" ++ params })

-- all but the last
unfoldable but_last : List Text → List Text
but_last [] = []
but_last (x ∷ []) = []
but_last (x ∷ y ∷ ys) = x ∷ but_last (y ∷ ys)

unfoldable last_of : List Text → Text
last_of [] = []
last_of (x ∷ []) = x
last_of (x ∷ y ∷ ys) = last_of (y ∷ ys)

abbrev is_filled : Text → Bool
is_filled s = not (is_empty s)

-- segments[1:-1] = filter(None, segments[1:-1])
unfoldable filter_inner : List Text → List Text
unfolding filter_by but_last last_of
filter_inner [] = []
filter_inner (x ∷ []) = x ∷ []
filter_inner (x ∷ y ∷ ys) = x ∷ (filter_by is_filled (but_last (y ∷ ys)) ++ (last_of (y ∷ ys) ∷ []))

-- base_parts, its last part dropped unless it is empty
unfoldable base_parts : Text → List Text
unfolding split_on but_last last_of
base_parts path =
    let parts = split_on b'/' path in if is_empty (last_of parts) then parts else but_last parts

-- The loop over the segments.
unfoldable resolve_dots : List Text → List Text → List Text
unfolding but_last text_eq
resolve_dots resolved [] = resolved
resolve_dots resolved (seg ∷ segments) =
    resolve_dots
      (if text_eq seg (str "..")
        then but_last resolved
        else if text_eq seg (str ".")
        then resolved
        else resolved ++ (seg ∷ []))
      segments

abbrev is_dots : Text → Bool
is_dots s = text_eq s (str ".") || text_eq s (str "..")

unfoldable joined_path : Text → Text → Text
unfolding base_parts split_on join_with resolve_dots filter_inner last_of starts_with
joined_path base_path path =
    let segments =
      if starts_with path (str "/")
      then split_on b'/' path
      else filter_inner (base_parts base_path ++ split_on b'/' path) in
    let resolved = resolve_dots [] segments in
    let resolved = if is_dots (last_of segments) then resolved ++ ([] ∷ []) else resolved in
    let joined = join_with b'/' resolved in if is_empty joined then str "/" else joined

-- Both texts are not empty.
unfoldable join_parts : SplitResult → SplitResult → Text → Text
unfolding split_params joined_path urlunsplit
join_parts base parts url =
    let (base_path, base_params) = split_params base.path in
    let (path, params) = split_params parts.path in
    let scheme = if is_empty parts.scheme then base.scheme else parts.scheme in
    if not (text_eq scheme base.scheme)
    then url
    else if not (is_empty parts.netloc)
    then unparse (record parts { scheme = scheme }) path params
    else if is_empty path && is_empty params
    then unparse
        (record parts {
          scheme = scheme;
          netloc = base.netloc;
          query = if is_empty parts.query then base.query else parts.query;
        })
        base_path base_params
    else unparse (record parts { scheme = scheme; netloc = base.netloc })
        (joined_path base_path path) params

unfoldable pub urljoin : Text → Text → Result Text
unfolding urlsplit join_parts
urljoin base url =
    if is_empty base
    then ok url
    else if is_empty url
    then ok base
    else (do b ← urlsplit base; parts ← urlsplit url; ok (join_parts b parts url))

urljoin_tests :
    (urljoin (str "https://bmc/redfish/v1/Systems") (str "/redfish/v1/Chassis")
      ≡ ok (str "https://bmc/redfish/v1/Chassis"))
    × (urljoin (str "https://bmc/redfish/v1/Systems") (str "../x/./y")
        ≡ ok (str "https://bmc/redfish/x/y"))
    × (urljoin (str "https://bmc/redfish/v1/Systems") (str "?$skip=2")
        ≡ ok (str "https://bmc/redfish/v1/Systems?$skip=2"))
    × (urljoin (str "https://bmc/a/b") (str "//evil/c") ≡ ok (str "https://evil/c"))
    × (urljoin (str "https://bmc/a/b") (str "http://bmc/c") ≡ ok (str "http://bmc/c"))
    × (urljoin (str "https://bmc/a/b") (str "..") ≡ ok (str "https://bmc/"))
unfolding urljoin
urljoin_tests = (refl, refl, refl, refl, refl, refl)

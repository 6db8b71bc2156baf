-- ===== src/HttpClient/Filenames.antt =====
-- The names of files in headers, in redfish_sdk/http_client.py.
use redfish_python_sdk.Prelude.{
  ℕ, Bool, false, not, ◌||◌, ◌==◌, leb, Option, none, some, [], ◌∷◌, Text, str, starts_with,
  has_char, lower, is_space, is_empty, mem, any, strip, rstrip, drop_while, cut, if◌then◌else◌,
}
use redfish_python_sdk.Exceptions.{validation_error, unsafe_filename}
use redfish_python_sdk.Result.{Result, ok, err}
use redfish_python_sdk.HttpClient.Session.{truthy, or_else}

-- `_validate_download_filename`; an absolute path has a slash.
unfoldable pub validate_download_filename : Text → Result Text
unfolding mem has_char any
validate_download_filename filename =
    if is_empty filename
      || mem filename (str "." ∷ str ".." ∷ [])
      || has_char b'/' filename
      || has_char 92 filename
      || any (λ c. not (leb 32 c) || c == 127) filename
    then err (validation_error unsafe_filename)
    else ok filename

-- The text behind `prefix`, blanks and `=`, where the text begins so.
unfoldable pub after_equals : Text → Text → Option Text
unfolding starts_with lower drop_while is_space
after_equals prefix s =
    if starts_with (lower s) prefix then equals (drop_while is_space (behind prefix s)) else none
  where
    behind : Text → Text → Text
    behind [] t = t
    behind (_ ∷ p) [] = []
    behind (_ ∷ p) (_ ∷ t) = behind p t

    equals : Text → Option Text
    equals [] = none
    equals (c ∷ t) = if c == b'=' then some t else none

abbrev non_empty_text : Text → Option Text
non_empty_text t = if is_empty t then none else some t

-- [^']*''([^;]+)
unfoldable pub extended_value : Text → Option Text
unfolding cut
extended_value s = elim (cut 39 s).1 [
  | some (c ∷ rest) ↦ if c == 39 then non_empty_text (cut b';' rest).0 else none
  | _ ↦ none
]

-- \s*"?([^";]+)"?  and the group without the blanks around it: where only blanks stand there, it is
-- one of them.
unfoldable pub quoted_value : Text → Option Text
unfolding drop_while is_space cut strip
quoted_value s =
    let bare = drop_while is_space s in
    let value = (cut 34 (cut b';' (without_quote bare)).0).0 in
    if not (is_empty value) then some (strip value) else if blank_first s then some [] else none
  where
    without_quote : Text → Text
    without_quote [] = []
    without_quote (c ∷ t) = if c == 34 then t else c ∷ t

    blank_first : Text → Bool
    blank_first [] = false
    blank_first (c ∷ _) = is_space c

-- re.search, from left to right: what the first position gives that gives something
unfoldable pub search : (Text → Option Text) → Text → Option Text
search match [] = match []
search match (c ∷ s) =
    let rest = search match s in elim (match (c ∷ s)) [ some found ↦ some found | none ↦ rest ]

abbrev is_quote : ℕ → Bool
is_quote c = c == 34

abbrev within : (Text → Option Text) → Option Text → Option Text
within match none = none
within match (some s) = match s

-- `_filename_from_content_disposition`; `unquote` is that of urllib.parse.
unfoldable pub filename_from_content_disposition :
    (unquote : Text → Text) → Option Text → Result (Option Text)
unfolding search after_equals extended_value quoted_value strip rstrip drop_while
    validate_download_filename
filename_from_content_disposition unquote value =
    if not (truthy value)
    then ok none
    else elim (search (λ s. within extended_value (after_equals (str "filename*") s))
        (or_else value [])) [
          | some name ↦ validated (unquote (rstrip is_quote (drop_while is_quote (strip name))))
          | none ↦
              elim (search (λ s. within quoted_value (after_equals (str "filename") s))
                (or_else value [])) [ some name ↦ validated (unquote name) | none ↦ ok none ]
        ]
  where
    validated : Text → Result (Option Text)
    validated name = elim (validate_download_filename name) [ ok n ↦ ok (some n) | err e ↦ err e ]

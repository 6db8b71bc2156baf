-- ===== src/HttpClient/Scrub.antt =====
-- The authorization schemes in a text that is logged, in redfish_sdk/http_client.py.
use redfish_python_sdk.Prelude.{
  ℕ, Bool, false, not, ◌&&◌, ◌||◌, ◌+◌, ◌-◌, ◌==◌, zero, suc, leb, Option, none, some, [], ◌∷◌,
  ◌++◌, Text, str, starts_with, lower, is_space, if◌then◌else◌,
}

-- `_REDACTED`
abbrev pub redacted : Text
redacted = str "<redacted>"

-- `\b` looks at word characters; those outside ASCII are not told apart.
abbrev is_word : ℕ → Bool
is_word c =
    (leb b'a' c && leb c b'z')
    || (leb b'A' c && leb c b'Z')
    || (leb b'0' c && leb c b'9')
    || c == b'_'

-- [^\s,;"']
abbrev is_token : ℕ → Bool
is_token c =
    not (is_space c) && not (c == b',') && not (c == b';') && not (c == 34) && not (c == 39)

-- The number of characters at the left end for which the test holds.
unfoldable pub count_while : (ℕ → Bool) → Text → ℕ
count_while p [] = 0
count_while p (c ∷ s) = let rest = count_while p s in if p c then suc rest else 0

unfoldable pub drop : ℕ → Text → Text
drop zero s = s
drop (suc n) [] = []
drop (suc n) (c ∷ s) = drop n s

-- The length of `\s+[^\s,;"']+` at the left end, and 0 where it is not there.
unfoldable pub credential_length : Text → ℕ
unfolding count_while drop is_space
credential_length s =
    let blanks = count_while is_space s in
    let token = count_while is_token (drop blanks s) in
    if blanks == 0 || token == 0 then 0 else blanks + token

-- The length of the scheme and that of what follows it, where the text begins with a match.
unfoldable pub credential_at : Text → Option (ℕ × ℕ)
unfolding starts_with lower drop credential_length
credential_at s =
    let bearer = credential_length (drop 6 s) in
    let basic = credential_length (drop 5 s) in
    if starts_with (lower s) (str "bearer") && not (bearer == 0)
    then some (6, bearer)
    else if starts_with (lower s) (str "basic") && not (basic == 0)
    then some (5, basic)
    else none

-- re.sub of a scheme and its credential: `keep` characters are still copied, then `skip` dropped.
unfoldable pub scrub_from : (after_word : Bool) → (keep skip : ℕ) → Text → Text
unfolding credential_at
scrub_from after_word (suc zero) skip (c ∷ s) =
    c ∷ (str " " ++ redacted) ++ scrub_from (is_word c) 0 skip s
scrub_from after_word (suc (suc keep)) skip (c ∷ s) = c ∷ scrub_from (is_word c) (suc keep) skip s
scrub_from after_word zero (suc skip) (c ∷ s) = scrub_from (is_word c) 0 skip s
scrub_from after_word zero zero (c ∷ s) =
    elim (if after_word then none else credential_at (c ∷ s)) [
      | some (keep, skip) ↦ c ∷ scrub_from (is_word c) (keep - 1) skip s
      | none ↦ c ∷ scrub_from (is_word c) 0 0 s
    ]
scrub_from after_word keep skip [] = []

-- re.sub(r"(?i)\b(Bearer|Basic)\s+[^\s,;\"']+", …)
unfoldable pub scrub : Text → Text
unfolding scrub_from
scrub s = scrub_from false 0 0 s

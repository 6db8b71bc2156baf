-- ===== src/Base64.antt =====
-- base64.b64encode and str.encode, as the constructor of the HTTP client uses them.
use redfish_python_sdk.Prelude.{
  ℕ, ◌+◌, ◌-◌, ◌*◌, ◌/◌, ◌%◌, ◌≡◌, refl, List, [], ◌∷◌, ◌++◌, Text, str, ltb, if◌then◌else◌,
}

-- The UTF-8 bytes of a code point.
unfoldable pub utf8_char : ℕ → List ℕ
utf8_char c =
    if ltb c 0x80
    then c ∷ []
    else if ltb c 0x800
    then (0xc0 + c / 64) ∷ (0x80 + c % 64) ∷ []
    else if ltb c 0x10000
    then (0xe0 + c / 4096) ∷ (0x80 + c / 64 % 64) ∷ (0x80 + c % 64) ∷ []
    else (0xf0 + c / 262144) ∷ (0x80 + c / 4096 % 64) ∷ (0x80 + c / 64 % 64) ∷ (0x80 + c % 64) ∷ []

unfoldable pub encode : Text → List ℕ
unfolding utf8_char
encode [] = []
encode (c ∷ s) = utf8_char c ++ encode s

-- The character for a number below 64.
unfoldable pub base64_char : ℕ → ℕ
base64_char n =
    if ltb n 26
    then n + b'A'
    else if ltb n 52
    then n - 26 + b'a'
    else if ltb n 62
    then n - 52 + b'0'
    else if ltb n 63
    then b'+'
    else b'/'

-- The four characters for three bytes.
unfoldable pub base64_group : ℕ → ℕ → ℕ → Text
unfolding base64_char
base64_group a b c =
    base64_char (a / 4)
    ∷ base64_char (a % 4 * 16 + b / 16)
    ∷ base64_char (b % 16 * 4 + c / 64)
    ∷ base64_char (c % 64)
    ∷ []

unfoldable pub b64encode : List ℕ → Text
unfolding base64_group
b64encode [] = []
b64encode (a ∷ []) = base64_char (a / 4) ∷ base64_char (a % 4 * 16) ∷ str "=="
b64encode (a ∷ b ∷ []) =
    base64_char (a / 4) ∷ base64_char (a % 4 * 16 + b / 16) ∷ base64_char (b % 16 * 4) ∷ str "="
b64encode (a ∷ b ∷ c ∷ rest) = base64_group a b c ++ b64encode rest

b64encode_user : b64encode (encode (str "Aladdin:open sesame")) ≡ str "QWxhZGRpbjpvcGVuIHNlc2FtZQ=="
unfolding b64encode encode
b64encode_user = refl

-- ===== src/Updates/Authority.antt =====
-- What urllib.parse reads of the authority that redfish_sdk/managers/update_strategies/h3c.py
-- builds.
use redfish_python_sdk.Prelude.{
  ℕ, ◌≤◌, ◌≡◌, refl, ap, ◌∙◌, Bool, true, false, ◌&&◌, ◌||◌, Option, none, some, [], ◌∷◌, ◌++◌,
  Text, has_char, lower, cut, cut_last, all, is_empty, leb, ◌==◌, arith, if◌then◌else◌, Bool-cases,
  inl, inr,
}
use mathlib.Core.List.{append-nil}
use redfish_python_sdk.Result.{Result, ok, err}
use redfish_python_sdk.Exceptions.{value_error}
use redfish_python_sdk.HttpClient.Session.{truthy, or_else}
use redfish_python_sdk.Url.{
  SplitResult, is_digit, decimal, digits, userinfo, hostinfo, host_port, username, password,
  hostname, port,
}
use redfish_python_sdk.Url.Cuts.{
  cut_absent, cut_first, cut_last_at, has_char-append, decimal-digits, all-digits, digits-nonempty,
  host_port_alone, host_port_both,
}
use redfish_python_sdk.Updates.H3c.{netloc_with, port_text}

-- A host name as `hostname` gives it, of a host that is not bracketed.
pub record IsHost (host : Text) : Type 0 where
  pub not_empty : is_empty host ≡ false
  pub in_lower_case : lower host ≡ host
  pub no_at : has_char b'@' host ≡ false
  pub no_colon : has_char b':' host ≡ false
  pub no_bracket : has_char b'[' host ≡ false

-- A text of digits has no other character.
digits-has_char :
    (c : ℕ) (s : Text) → is_digit c ≡ false → all is_digit s ≡ true → has_char c s ≡ false
unfolding is_digit all has_char
digits-has_char c [] d h = refl
digits-has_char c (e ∷ s) d h = ground (arith, digits-has_char c s)

abbrev IsPort : Option ℕ → Type 0
IsPort none = Unit
IsPort (some n) = n ≤ 65535

abbrev positive : Option ℕ → Option ℕ
positive none = none
positive (some n) = if n == 0 then none else some n

port_text-has_char :
    (c : ℕ) (p : Option ℕ)
    → is_digit c ≡ false
    → (b':' == c) ≡ false
    → has_char c (port_text p) ≡ false
unfolding port_text has_char all
port_text-has_char c none d n = refl
port_text-has_char c (some p) d n = elim (Bool-cases (p == 0)) [
  | inl t ↦ rw t refl
  | inr f ↦ rw (f, n) (digits-has_char c (digits 5 p []) d (all-digits 5 p [] refl))
]

abbrev given_port : Option ℕ → Option Text
given_port none = none
given_port (some n) = if n == 0 then none else some (digits 5 n [])

-- Behind the host, the port is cut off.
host_port-text :
    (host : Text) (p : Option ℕ)
    → IsHost host
    → host_port (host ++ port_text p) ≡ (host, given_port p)
unfolding port_text is_digit all
host_port-text host none h = rw (append-nil host) (host_port_alone host h.no_bracket h.no_colon)
host_port-text host (some n) h = elim (Bool-cases (n == 0)) [
  | inl t ↦ rw (t, append-nil host) (host_port_alone host h.no_bracket h.no_colon)
  | inr f ↦ rw f (
      host_port_both host (digits 5 n []) h.no_bracket h.no_colon
        (digits-has_char b'[' (digits 5 n []) refl (all-digits 5 n [] refl)) (digits-nonempty 4 n))
]

abbrev userinfo_of : Text → Option Text → Text
userinfo_of user password = user ++ (if truthy password then b':' ∷ or_else password [] else [])

netloc-cut :
    (user : Text) (password : Option Text) (host : Text) (p : Option ℕ)
    → IsHost host
    → cut_last b'@' (netloc_with user password (some host) p)
      ≡ (some (userinfo_of user password), host ++ port_text p)
unfolding netloc_with is_digit
netloc-cut user secret host p h = cut_last_at b'@' (userinfo_of user secret) (host ++ port_text p) (
    has_char-append b'@' host (port_text p)
    ∙ neither (has_char b'@' host) (has_char b'@' (port_text p)) h.no_at
        (port_text-has_char b'@' p refl refl))
  where
    neither : (a b : Bool) → a ≡ false → b ≡ false → (a || b) ≡ false
    neither a b ha hb = rw (ha, hb) refl

abbrev given_text : Option Text → Option Text
given_text password = if truthy password then password else none

userinfo-cut :
    (user : Text) (password : Option Text)
    → has_char b':' user ≡ false
    → cut b':' (userinfo_of user password) ≡ (user, given_text password)
userinfo-cut user none h = rw (append-nil user) (cut_absent b':' user h)
userinfo-cut user (some []) h = rw (append-nil user) (cut_absent b':' user h)
userinfo-cut user (some (c ∷ s)) h = cut_first b':' user (c ∷ s) h

user_read :
    (q : SplitResult) (info user : Text) (secret : Option Text)
    → userinfo q ≡ some info
    → cut b':' info ≡ (user, secret)
    → (username q ≡ some user) × (password q ≡ secret)
unfolding username password
user_read q info user secret h k = (
  ap (λ o. elim o as (λ _. Option Text) [ none ↦ none | some i ↦ some (cut b':' i).0 ]) h
      ∙ ap (λ r. some r.0) k,
  ap (λ o. elim o as (λ _. Option Text) [ none ↦ none | some i ↦ (cut b':' i).1 ]) h
      ∙ ap (λ r. r.1) k,
)

host_read :
    (q : SplitResult) (text host : Text) (shown : Option Text)
    → hostinfo q ≡ text
    → host_port text ≡ (host, shown)
    → IsHost host
    → hostname q ≡ some host
unfolding hostname
host_read q text host shown h k is_host =
    ap (λ r. if is_empty r.0 then none else some (lower r.0)) (ap host_port h ∙ k) ∙ named
  where
    named : (if is_empty host then none else some (lower host)) ≡ some host
    named = rw (is_host.not_empty, is_host.in_lower_case) refl

-- The digits of a port are a port number.
digits_read :
    (n : ℕ)
    → n ≤ 65535
    → (if all is_digit (digits 5 n []) && leb (decimal 0 (digits 5 n [])) 65535
        then ok (some (decimal 0 (digits 5 n [])))
        else err value_error)
      ≡ ok (some n)
unfolding all decimal
digits_read n fits =
    rw (all-digits 5 n [] refl, decimal-digits 4 n [] (omega (arith, fits))) (ground (arith, fits))

port_read :
    (q : SplitResult) (text host : Text) (p : Option ℕ)
    → hostinfo q ≡ text
    → host_port text ≡ (host, given_port p)
    → IsPort p
    → port q ≡ ok (positive p)
unfolding port
port_read q text host p h k fits =
    ap
      (λ r. elim r.1 as (λ _. Result (Option ℕ)) [
        | none ↦ ok none
        | some shown ↦
            if all is_digit shown && leb (decimal 0 shown) 65535
            then ok (some (decimal 0 shown))
            else err value_error
      ])
      (ap host_port h ∙ k)
    ∙ at_port p fits
  where
    at_port :
        (p : Option ℕ)
        → IsPort p
        → (elim (given_port p) as (λ _. Result (Option ℕ)) [
          | none ↦ ok none
          | some shown ↦
              if all is_digit shown && leb (decimal 0 shown) 65535
              then ok (some (decimal 0 shown))
              else err value_error
        ])
          ≡ ok (positive p)
    at_port none fits = refl
    at_port (some n) fits = elim (Bool-cases (n == 0)) [
      | inl t ↦ rw t refl
      | inr f ↦ rw f (digits_read n fits)
    ]

-- urllib.parse reads from the authority that is built what was put into it: the user, the password
-- where there is one, the host, and the port unless it is zero. The user has no colon, the host is
-- not bracketed, is in lower case and has no at sign, and the port is at most 65535.
pub netloc_with-read :
    (q : SplitResult) (user : Text) (secret : Option Text) (host : Text) (p : Option ℕ)
    → q.netloc ≡ netloc_with user secret (some host) p
    → has_char b':' user ≡ false
    → IsHost host
    → IsPort p
    → (username q ≡ some user)
      × (password q ≡ given_text secret)
      × (hostname q ≡ some host)
      × (port q ≡ ok (positive p))
unfolding userinfo hostinfo
netloc_with-read q user secret host p e no_colon h fits =
    let parts = ap (cut_last b'@') e ∙ netloc-cut user secret host p h in
    let at_host = host_port-text host p h in
    let read =
      user_read q (userinfo_of user secret) user (given_text secret) (ap (λ r. r.0) parts)
        (userinfo-cut user secret no_colon) in
    (
      read.0,
      read.1,
      host_read q (host ++ port_text p) host (given_port p) (ap (λ r. r.1) parts) at_host h,
      port_read q (host ++ port_text p) host p (ap (λ r. r.1) parts) at_host fits,
    )

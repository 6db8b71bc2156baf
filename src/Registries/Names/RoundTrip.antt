-- ===== src/Registries/Names/RoundTrip.antt =====
-- What redfish_sdk/managers/registries.py prints for a message or a registry, its own patterns
-- read back.
use redfish_python_sdk.Prelude.{
  ℕ, zero, suc, ◌+◌, ◌-◌, ◌*◌, ◌/◌, ◌%◌, ◌<◌, ◌≡◌, refl, true, false, some, List, [], ◌∷◌, ◌++◌,
  Text, is_empty, has_char, all, ltb, split_on, join_with, All, arith, Bool-cases, inl, inr,
}
use redfish_python_sdk.Url.{is_digit, decimal}
use redfish_python_sdk.Registries.Names.{Version, is_number, match_registry_name, match_message_id}
use redfish_python_sdk.Registries.Names.Printing.{digits_of, show, identity_text, message_id_text}

-- A text without the separator.
abbrev pub IsPart : Text → Type 0
IsPart s = has_char b'.' s ≡ false

split_on-part : (s : Text) → IsPart s → split_on b'.' s ≡ s ∷ []
unfolding has_char split_on
split_on-part [] h = refl
split_on-part (c ∷ s) h = ground (arith, split_on-part s)

split_on-append :
    (s rest : Text) → IsPart s → split_on b'.' (s ++ (b'.' ∷ rest)) ≡ s ∷ split_on b'.' rest
unfolding has_char split_on
split_on-append [] rest h = refl
split_on-append (c ∷ s) rest h = ground (arith, split_on-append s rest)

split_on-join :
    (part : Text) (parts : List Text)
    → All IsPart (part ∷ parts)
    → split_on b'.' (join_with b'.' (part ∷ parts)) ≡ part ∷ parts
unfolding join_with
split_on-join part [] (h, _) = split_on-part part h
split_on-join part (more ∷ parts) (h, k) =
    rw (split_on-append part (join_with b'.' (more ∷ parts)) h) (rw (split_on-join more parts k))

decimal-append : (s : Text) (n c : ℕ) → decimal n (s ++ (c ∷ [])) ≡ decimal n s * 10 + (c - b'0')
unfolding decimal
decimal-append [] n c = refl
decimal-append (d ∷ s) n c = decimal-append s (n * 10 + (d - b'0')) c

decimal-digits_of : (fuel n : ℕ) → n < fuel → decimal 0 (digits_of fuel n) ≡ n
unfolding digits_of
decimal-digits_of zero n h = absurd (omega arith)
decimal-digits_of (suc fuel) n h = elim (Bool-cases (ltb n 10)) [
  | inl small ↦ rw small (unfold decimal in omega arith)
  | inr large ↦ rw large (
      rw (decimal-append (digits_of fuel (n / 10)) 0 (b'0' + n % 10))
        (rw (decimal-digits_of fuel (n / 10) (ground arith)) (omega arith)))
]

all-append :
    (s t : Text) → all is_digit s ≡ true → all is_digit t ≡ true → all is_digit (s ++ t) ≡ true
unfolding all
all-append [] t h k = k
all-append (c ∷ s) t h k = ground (arith, all-append s t)

digits_of-all : (fuel n : ℕ) → all is_digit (digits_of fuel n) ≡ true
unfolding digits_of all is_digit
digits_of-all zero n = refl
digits_of-all (suc fuel) n = elim (Bool-cases (ltb n 10)) [
  | inl small ↦ rw small (ground arith)
  | inr large ↦ rw large (
      all-append (digits_of fuel (n / 10)) ((b'0' + n % 10) ∷ []) (digits_of-all fuel (n / 10))
        (ground arith))
]

append_nonempty : (s : Text) (c : ℕ) → is_empty (s ++ (c ∷ [])) ≡ false
append_nonempty [] c = refl
append_nonempty (d ∷ s) c = refl

digits_of_nonempty : (fuel n : ℕ) → is_empty (digits_of (suc fuel) n) ≡ false
unfolding digits_of
digits_of_nonempty fuel n =
    ground (arith, append_nonempty (digits_of fuel (n / 10)) (b'0' + n % 10))

pub show-is_number : (n : ℕ) → is_number (show n) ≡ true
unfolding is_number show
show-is_number n = rw (digits_of_nonempty n n) (digits_of-all (suc n) n)

pub decimal-show : (n : ℕ) → decimal 0 (show n) ≡ n
unfolding show
decimal-show n = decimal-digits_of (suc n) n (omega arith)

digits_IsPart : (s : Text) → all is_digit s ≡ true → IsPart s
unfolding all is_digit has_char
digits_IsPart [] h = refl
digits_IsPart (c ∷ s) h = ground (arith, digits_IsPart s)

show-IsPart : (n : ℕ) → IsPart (show n)
unfolding show
show-IsPart n = digits_IsPart (show n) (digits_of-all (suc n) n)

-- The MessageId that a resolved message reports matches the pattern of MessageIds, and its groups
-- are the prefix, the version's major and minor number and the key that it was made of, for a
-- prefix and a key that are not empty and have no dot.
pub match_message_id-message_id_text :
    (prefix key : Text) (version : Version)
    → IsPart prefix
    → IsPart key
    → is_empty prefix ≡ false
    → is_empty key ≡ false
    → match_message_id (message_id_text prefix version key)
      ≡ some (record { prefix = prefix; major = version.0; minor = version.1; key = key })
unfolding match_message_id message_id_text
match_message_id-message_id_text prefix key (major, minor, errata) hp hk np nk =
    rw
      (split_on-join prefix (show major ∷ show minor ∷ key ∷ [])
        (hp, (show-IsPart major, (show-IsPart minor, (hk, tt)))))
      (rw (np, nk, show-is_number major, show-is_number minor)
        (rw (decimal-show major, decimal-show minor)))

-- The identity of a registry matches `_REGISTRY_NAME`, and its groups are the prefix and the whole
-- version, for a prefix that is not empty and has no dot.
pub match_registry_name-identity_text :
    (prefix : Text) (version : Version)
    → IsPart prefix
    → is_empty prefix ≡ false
    → match_registry_name (identity_text prefix version)
      ≡ some (record {
        prefix = prefix;
        major = version.0;
        minor = version.1;
        errata = some version.2;
      })
unfolding match_registry_name identity_text
match_registry_name-identity_text prefix (major, minor, errata) hp np =
    rw
      (split_on-join prefix (show major ∷ show minor ∷ show errata ∷ [])
        (hp, (show-IsPart major, (show-IsPart minor, (show-IsPart errata, tt)))))
      (rw (np, show-is_number major, show-is_number minor, show-is_number errata)
        (rw (decimal-show major, decimal-show minor, decimal-show errata)))

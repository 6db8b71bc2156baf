-- ===== src/Url/Cuts.antt =====
-- Texts cut at a separator, and ports that are printed and read: the parts of an authority for
-- urllib.parse.
use redfish_python_sdk.Prelude.{
  ℕ, zero, suc, ◌+◌, ◌*◌, ◌/◌, ◌%◌, ◌<◌, ◌≡◌, refl, ap, ◌∙◌, true, false, ◌||◌, Option, none, some,
  [], ◌∷◌, ◌++◌, Text, has_char, cut, cut_last, all, is_empty, ◌==◌, arith, if◌then◌else◌,
  Bool-cases, inl, inr,
}
use mathlib.Core.List.{reverse, append_assoc, reverse-append, reverse-cons, reverse-reverse}
use redfish_python_sdk.Url.{is_digit, decimal, digits, host_and_port, host_port, or_empty}

-- A text without the separator is all before it.
pub cut_absent : (sep : ℕ) (s : Text) → has_char sep s ≡ false → cut sep s ≡ (s, none)
unfolding cut has_char
cut_absent sep [] h = refl
cut_absent sep (c ∷ s) h = ground (arith, cut_absent sep s)

-- The first separator cuts the text.
pub cut_first :
    (sep : ℕ) (s t : Text) → has_char sep s ≡ false → cut sep (s ++ (sep ∷ t)) ≡ (s, some t)
unfolding cut has_char
cut_first sep [] t h = ground arith
cut_first sep (c ∷ s) t h = ground (arith, cut_first sep s t)

pub has_char-append : (c : ℕ) (s t : Text) → has_char c (s ++ t) ≡ (has_char c s || has_char c t)
unfolding has_char
has_char-append c [] t = refl
has_char-append c (d ∷ s) t = ground (arith, has_char-append c s t)

has_char-reverse : (c : ℕ) (s : Text) → has_char c (reverse s) ≡ has_char c s
unfolding has_char
has_char-reverse c [] = refl
has_char-reverse c (d ∷ s) =
    rw (reverse-cons d s, has_char-append c (reverse s) (d ∷ []))
      (ground (arith, has_char-reverse c s))

reverse-append_cons :
    (sep : ℕ) (s t : Text) → reverse (s ++ (sep ∷ t)) ≡ reverse t ++ (sep ∷ reverse s)
reverse-append_cons sep s t =
    reverse-append s (sep ∷ t)
    ∙ ap (λ r. r ++ reverse s) (reverse-cons sep t)
    ∙ append_assoc (reverse t) (sep ∷ []) (reverse s)

-- The last separator cuts the text.
pub cut_last_at :
    (sep : ℕ) (s t : Text) → has_char sep t ≡ false → cut_last sep (s ++ (sep ∷ t)) ≡ (some s, t)
unfolding cut_last
cut_last_at sep s t h =
    rw
      (
        reverse-append_cons sep s t,
        cut_first sep (reverse t) (reverse s) (has_char-reverse sep t ∙ h),
      )
      (rw (reverse-reverse s, reverse-reverse t) refl)

-- The bound of the numbers of that many digits.
abbrev pub bound : ℕ → ℕ
bound zero = 1
bound (suc fuel) = 10 * bound fuel

digits_step :
    (fuel n : ℕ) (shown : Text)
    → digits (suc fuel) n shown ≡ (
        if n / 10 == 0
        then (b'0' + n % 10) ∷ shown
        else digits fuel (n / 10) ((b'0' + n % 10) ∷ shown))
unfolding digits
digits_step fuel n shown = refl

-- Reading what was printed gives the number.
pub decimal-digits :
    (fuel n : ℕ) (shown : Text)
    → n < bound (suc fuel)
    → decimal 0 (digits (suc fuel) n shown) ≡ decimal n shown
unfolding decimal
decimal-digits zero n shown h = rw digits_step (ground arith)
decimal-digits (suc fuel) n shown h =
    rw digits_step (ground (arith, decimal-digits fuel (n / 10) ((b'0' + n % 10) ∷ shown)))

pub all-digits :
    (fuel n : ℕ) (shown : Text)
    → all is_digit shown ≡ true
    → all is_digit (digits fuel n shown) ≡ true
unfolding digits all is_digit
all-digits zero n shown h = h
all-digits (suc fuel) n shown h = ground (arith, all-digits fuel (n / 10) ((b'0' + n % 10) ∷ shown))

digits_not_empty :
    (fuel n : ℕ) (shown : Text) → is_empty shown ≡ false → is_empty (digits fuel n shown) ≡ false
unfolding digits
digits_not_empty zero n shown h = h
digits_not_empty (suc fuel) n shown h = elim (Bool-cases (n / 10 == 0)) [
  | inl t ↦ rw t refl
  | inr f ↦ rw f (digits_not_empty fuel (n / 10) ((b'0' + n % 10) ∷ shown) refl)
]

pub digits-nonempty : (fuel n : ℕ) → is_empty (digits (suc fuel) n []) ≡ false
unfolding digits
digits-nonempty fuel n = elim (Bool-cases (n / 10 == 0)) [
  | inl t ↦ rw t refl
  | inr f ↦ rw f (digits_not_empty fuel (n / 10) ((b'0' + n % 10) ∷ []) refl)
]

has_char_colon : (port : Text) → has_char b'[' (b':' ∷ port) ≡ has_char b'[' port
unfolding has_char
has_char_colon port = refl

host_and_port_bare : (info : Text) → has_char b'[' info ≡ false → host_and_port info ≡ cut b':' info
unfolding host_and_port
host_and_port_bare info h = ground (arith, cut_absent b'[' info h)

-- A host without a port, and one with a port.
pub host_port_alone :
    (host : Text)
    → has_char b'[' host ≡ false
    → has_char b':' host ≡ false
    → host_port host ≡ (host, none)
unfolding host_port
host_port_alone host b c =
    ap (λ r. (r.0, if is_empty (or_empty r.1) then none else r.1))
      (host_and_port_bare host b ∙ cut_absent b':' host c)

pub host_port_both :
    (host port : Text)
    → has_char b'[' host ≡ false
    → has_char b':' host ≡ false
    → has_char b'[' port ≡ false
    → is_empty port ≡ false
    → host_port (host ++ (b':' ∷ port)) ≡ (host, some port)
unfolding host_port
host_port_both host port b c b' n =
    ap (λ r. (r.0, if is_empty (or_empty r.1) then none else r.1))
      (host_and_port_bare (host ++ (b':' ∷ port)) (no_bracket host port b b')
        ∙ cut_first b':' host port c)
    ∙ ap {B = Text × Option Text} (λ o. (host, o)) (present port n)
  where
    no_bracket :
        (host port : Text)
        → has_char b'[' host ≡ false
        → has_char b'[' port ≡ false
        → has_char b'[' (host ++ (b':' ∷ port)) ≡ false
    no_bracket host port h k =
        ground (arith, has_char-append b'[' host (b':' ∷ port), has_char_colon port)

    present :
        (port : Text)
        → is_empty port ≡ false
        → (if is_empty port then none else some port) ≡ some port
    present port n = rw n refl

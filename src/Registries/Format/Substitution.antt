-- ===== src/Registries/Format/Substitution.antt =====
-- The scanner of `_ARGUMENT.sub` in redfish_sdk/managers/registries.py and templates as sequences
-- of characters and references.
use mathlib.Core.List.{append-nil}
use redfish_python_sdk.Prelude.{
  ℕ, ◌+◌, ◌-◌, ◌*◌, ◌≡◌, ◌∙◌, refl, Bool, true, false, ◌&&◌, ◌==◌, List, [], ◌∷◌, ◌++◌, Text, all,
  arith, Bool-cases, inl, inr,
}
use redfish_python_sdk.Result.{Result, ok, err, ◌>>=◌}
use redfish_python_sdk.Url.{is_digit, decimal}
use redfish_python_sdk.Registries.Names.{is_number}
use redfish_python_sdk.Registries.Names.Printing.{show}
use redfish_python_sdk.Registries.Names.RoundTrip.{show-is_number, decimal-show}
use redfish_python_sdk.Registries.Format.{
  Pending, plain, percent, number, argument, due, is_pending, substitute_from, substitute,
}

-- A template: its characters, and %n for the argument n.
pub data Piece : Type 0 where
  char : ℕ → Piece
  reference : ℕ → Piece

abbrev pub print : List Piece → Text
print [] = []
print (char c ∷ pieces) = c ∷ print pieces
print (reference n ∷ pieces) = b'%' ∷ (show n ++ print pieces)

abbrev pub render : List Text → List Piece → Result Text
render args [] = ok []
render args (char c ∷ pieces) = render args pieces >>= λ text. ok (c ∷ text)
render args (reference n ∷ pieces) =
    argument args n >>= λ arg. render args pieces >>= λ text. ok (arg ++ text)

abbrev pub starts_with_digit : List Piece → Bool
starts_with_digit (char c ∷ pieces) = is_digit c
starts_with_digit _ = false

-- No digit stands behind a reference, or behind a percent sign that is a character.
abbrev pub IsTemplate : List Piece → Type 0
IsTemplate [] = Unit
IsTemplate (char c ∷ pieces) = ((c == b'%' && starts_with_digit pieces) ≡ false) × IsTemplate pieces
IsTemplate (reference n ∷ pieces) = (starts_with_digit pieces ≡ false) × IsTemplate pieces

module _ (args : List Text) where
  number_digits :
      (n : ℕ) (digits rest : Text)
      → all is_digit digits ≡ true
      → substitute_from args (number n) (digits ++ rest)
        ≡ substitute_from args (number (decimal n digits)) rest
  unfolding all substitute_from decimal
  number_digits n [] rest h = refl
  number_digits n (c ∷ digits) rest h = elim (Bool-cases (is_digit c)) [
    | inl t ↦
        rw (t, substitute_from) (number_digits (n * 10 + (c - b'0')) digits rest (ground arith))
    | inr f ↦ absurd (cc)
  ]

  percent_number :
      (digits rest : Text)
      → is_number digits ≡ true
      → substitute_from args percent (digits ++ rest)
        ≡ substitute_from args (number (decimal 0 digits)) rest
  unfolding is_number all substitute_from decimal
  percent_number [] rest h = absurd (cc h)
  percent_number (c ∷ digits) rest h = elim (Bool-cases (is_digit c)) [
    | inl t ↦
        let zero_first : 0 * 10 + (c - b'0') ≡ c - b'0' = omega arith in
        rw (t, substitute_from, zero_first) (number_digits (c - b'0') digits rest (ground arith))
    | inr f ↦ absurd (cc)
  ]

  -- The rest of a text behind what is due.
  abbrev behind : Pending → Result Text → Result Text
  behind pending rest = due args pending >>= λ before. rest >>= λ after. ok (before ++ after)

  substitute_from-percent :
      (pending : Pending) (s : Text)
      → substitute_from args pending (b'%' ∷ s) ≡ behind pending (substitute_from args percent s)
  unfolding substitute_from is_digit
  substitute_from-percent plain s = refl
  substitute_from-percent percent s = refl
  substitute_from-percent (number n) s = refl

  substitute_from-copy :
      (pending : Pending) (c : ℕ) (s : Text)
      → (is_pending pending && is_digit c) ≡ false
      → (c == b'%') ≡ false
      → substitute_from args pending (c ∷ s)
        ≡ behind pending (substitute_from args plain s >>= λ after. ok (c ∷ after))
  unfolding substitute_from
  substitute_from-copy pending c s d p =
      rw (d, p, substitute_from) (copied (due args pending) (substitute_from args plain s))
    where
      copied :
          (r t : Result Text)
          → (r >>= λ before. t >>= λ after. ok (before ++ (c ∷ after)))
            ≡ (r >>= λ before. (t >>= λ after. ok (c ∷ after)) >>= λ after. ok (before ++ after))
      copied (err e) t = refl
      copied (ok b) (err e) = refl
      copied (ok b) (ok a) = refl

  behind_nothing : (r : Result Text) → r ≡ (r >>= λ before. ok (before ++ []))
  behind_nothing (err e) = refl
  behind_nothing (ok before) = simp append-nil

  behind_plain : (r : Result Text) → behind plain r ≡ r
  unfolding due
  behind_plain (err e) = refl
  behind_plain (ok after) = refl

  -- No digit that would lengthen a number comes next.
  abbrev Stops : Pending → List Piece → Type 0
  Stops pending pieces = (is_pending pending && starts_with_digit pieces) ≡ false

  substitute_from-print :
      (pieces : List Piece) (pending : Pending)
      → IsTemplate pieces
      → Stops pending pieces
      → substitute_from args pending (print pieces) ≡ behind pending (render args pieces)
  substitute_from-print [] pending t h = unfold substitute_from in behind_nothing (due args pending)
  substitute_from-print (char c ∷ pieces) pending (p, t) h = elim (Bool-cases (c == b'%')) [
    | inl e ↦
        let is_percent : c ≡ b'%' = ground arith in
        rw (is_percent, substitute_from-percent pending (print pieces))
          (rw (substitute_from-print pieces percent t (ground arith)) (unfold due in refl))
    | inr f ↦
        rw (substitute_from-copy pending c (print pieces) h f)
          (rw (substitute_from-print pieces plain t refl) (rw (behind_plain (render args pieces))))
  ]
  substitute_from-print (reference n ∷ pieces) pending (p, t) h =
      rw (substitute_from-percent pending (show n ++ print pieces)) (
        rw (percent_number (show n) (print pieces) (show-is_number n)) (
          rw (decimal-show n)
            (rw (substitute_from-print pieces (number n) t p) (unfold due in refl))))

-- The text of a template, each of whose characters may be any but a percent sign before a digit,
-- and in which no digit follows a reference, is formatted as the template is rendered: its
-- characters as they are, in place of each reference %n the argument n, counted from 1, and the
-- error of the first reference that has no argument.
pub substitute-print :
    (args : List Text) (pieces : List Piece)
    → IsTemplate pieces
    → substitute args (print pieces) ≡ render args pieces
unfolding substitute
substitute-print args pieces t =
    substitute_from-print args pieces plain t refl ∙ behind_plain args (render args pieces)

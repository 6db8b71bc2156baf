-- ===== src/Prelude/Strings.antt =====
-- Python's `str` as the list of its code points, with the methods that the program calls.
use Prim.Native.Nat.{ℕ, ◌+◌}
use Prim.Native.Char.{code}
use Prim.Native.String.{String}
use mathlib.Core.Path.{◌≡◌, refl}
use mathlib.Core.Logic.{◌↔◌}
use mathlib.Core.Bool.{Bool, true, false, ◌&&◌, ◌||◌}
use mathlib.Core.Option.{Option, none, some}
use mathlib.Core.List.{List, [], ◌∷◌, ◌++◌, map, reverse}
use native.Mathlib.Omega.{arith}
use redfish_python_sdk.Prelude.Tests.{leb, ◌==◌, if◌then◌else◌}

abbrev pub Text : Type 0
Text = List ℕ

-- A text literal.
abbrev pub str : String → Text
str String.[] = []
str (String.◌∷◌ c s) = code c ∷ str s

-- a == b
unfoldable pub text_eq : Text → Text → Bool
text_eq [] [] = true
text_eq (c ∷ s) (d ∷ t) = c == d && text_eq s t
text_eq _ _ = false

eq_of_text_eq : (s t : Text) → text_eq s t ≡ true → s ≡ t
unfolding text_eq
eq_of_text_eq [] [] h = refl
eq_of_text_eq (c ∷ s) (d ∷ t) h = ground (arith, eq_of_text_eq s t)
eq_of_text_eq [] (d ∷ t) h = ground arith
eq_of_text_eq (c ∷ s) [] h = ground arith

pub text_eq_self : (s : Text) → text_eq s s ≡ true
unfolding text_eq
text_eq_self [] = refl
text_eq_self (c ∷ s) = ground (arith, text_eq_self s)

text_eq_of_eq : (s t : Text) → s ≡ t → text_eq s t ≡ true
text_eq_of_eq s t e = rw e (text_eq_self t)

pub text_eq_iff : (s t : Text) → (text_eq s t ≡ true) ↔ (s ≡ t)
text_eq_iff s t = (eq_of_text_eq s t, text_eq_of_eq s t)

-- bool(s)
abbrev pub is_empty {ℓ} : {A : Type ℓ} → List A → Bool
is_empty [] = true
is_empty (_ ∷ _) = false

-- s.startswith(prefix)
unfoldable pub starts_with : Text → Text → Bool
starts_with s [] = true
starts_with [] (_ ∷ _) = false
starts_with (c ∷ s) (d ∷ t) = c == d && starts_with s t

-- s.endswith(suffix)
unfoldable pub ends_with : Text → Text → Bool
unfolding starts_with
ends_with s t = starts_with (reverse s) (reverse t)

-- sub in s
unfoldable pub contains : Text → Text → Bool
unfolding starts_with
contains [] t = is_empty t
contains (c ∷ s) t = starts_with (c ∷ s) t || contains s t

-- c in s
unfoldable pub has_char : ℕ → Text → Bool
has_char c [] = false
has_char c (d ∷ s) = d == c || has_char c s

-- s.lower() and s.casefold(), of ASCII letters.
unfoldable pub lower_char : ℕ → ℕ
lower_char c = if leb b'A' c && leb c b'Z' then c + 32 else c

unfoldable pub lower : Text → Text
unfolding lower_char
lower = map lower_char

-- s.isspace() of one character, for the ASCII blanks.
unfoldable pub is_space : ℕ → Bool
is_space c = c == 32 || (leb 9 c && leb c 13) || (leb 28 c && leb c 31)

-- drops characters at the left end while the test holds
unfoldable pub drop_while : (ℕ → Bool) → Text → Text
drop_while p [] = []
drop_while p (c ∷ s) = if p c then drop_while p s else c ∷ s

-- s.rstrip(chars)
unfoldable pub rstrip : (ℕ → Bool) → Text → Text
unfolding drop_while
rstrip p s = reverse (drop_while p (reverse s))

-- s.strip()
unfoldable pub strip : Text → Text
unfolding drop_while rstrip is_space
strip s = rstrip is_space (drop_while is_space s)

-- the part before the first separator, and the rest, the separator dropped
unfoldable pub cut : ℕ → Text → Text × Option Text
cut sep [] = ([], none)
cut sep (c ∷ s) =
    let (before, after) = cut sep s in if c == sep then ([], some s) else (c ∷ before, after)

-- s.rsplit(sep, 1)[0] and s.rpartition(sep): the part before the last separator, if there is one
unfoldable pub cut_last : ℕ → Text → Option Text × Text
unfolding cut
cut_last sep s =
    let (after, before) = cut sep (reverse s) in
    (elim before [ none ↦ none | some b ↦ some (reverse b) ], reverse after)

-- s.split(sep), for a separator of one character; never empty
unfoldable pub split_on : ℕ → Text → List Text
split_on sep [] = [] ∷ []
split_on sep (c ∷ s) =
    let rest = split_on sep s in
    if c == sep
    then [] ∷ rest
    else elim rest [ [] ↦ (c ∷ []) ∷ [] | part ∷ parts ↦ (c ∷ part) ∷ parts ]

-- sep.join(parts)
unfoldable pub join_with : ℕ → List Text → Text
join_with sep [] = []
join_with sep (part ∷ []) = part
join_with sep (part ∷ more ∷ parts) = part ++ (sep ∷ join_with sep (more ∷ parts))

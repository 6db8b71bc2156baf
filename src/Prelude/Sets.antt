-- ===== src/Prelude/Sets.antt =====
-- Sets of texts as lists, and dictionaries from texts as association lists.
use Prim.Native.Nat.{suc, ◌≤◌}
use mathlib.Core.Path.{◌≡◌, refl}
use mathlib.Core.Logic.{◌≢◌}
use mathlib.Core.Bool.{Bool, true, false, ◌||◌}
use mathlib.Core.Option.{Option, none, some}
use mathlib.Core.List.{List, [], ◌∷◌}
use native.Mathlib.Omega.{arith}
use redfish_python_sdk.Prelude.Tests.{if◌then◌else◌}
use redfish_python_sdk.Prelude.Lists.{length, All}
use redfish_python_sdk.Prelude.Strings.{Text, text_eq, text_eq_iff, text_eq_self}

-- x in xs
unfoldable pub mem : Text → List Text → Bool
mem x [] = false
mem x (y ∷ ys) = text_eq x y || mem x ys

-- No text stands in the list twice.
abbrev pub IsDistinct : List Text → Type 0
IsDistinct [] = Unit
IsDistinct (x ∷ xs) = (mem x xs ≡ false) × IsDistinct xs

abbrev pub IsIn : List Text → Text → Type 0
IsIn xs x = mem x xs ≡ true

-- The list without the first `x`.
unfoldable remove : Text → List Text → List Text
remove x [] = []
remove x (y ∷ ys) = if text_eq x y then ys else y ∷ remove x ys

length-remove : (x : Text) (ys : List Text) → IsIn ys x → suc (length (remove x ys)) ≡ length ys
unfolding mem remove
length-remove x [] h = cc
length-remove x (y ∷ ys) h = ground (arith, length-remove x ys)

mem-remove : (x z : Text) (ys : List Text) → text_eq z x ≡ false → IsIn ys z → IsIn (remove x ys) z
unfolding mem remove
mem-remove x z [] d h = cc
mem-remove x z (y ∷ ys) d h = ground (arith, mem-remove x z ys, text_eq_iff x y)

All-remove :
    (x : Text) (xs ys : List Text)
    → mem x xs ≡ false
    → All (IsIn ys) xs
    → All (IsIn (remove x ys)) xs
unfolding mem
All-remove x [] ys d h = tt
All-remove x (z ∷ zs) ys d (p, h) = (
  mem-remove x z ys (ground (arith, text_eq_iff x z, text_eq_iff z x)) p,
  All-remove x zs ys (ground arith) h,
)

-- Distinct texts of a list are no more than the list has.
pub length-le-of_IsIn :
    (xs ys : List Text) → IsDistinct xs → All (IsIn ys) xs → length xs ≤ length ys
length-le-of_IsIn [] ys d h = omega arith
length-le-of_IsIn (x ∷ xs) ys (n, d) (p, h) =
    omega
      (arith, length-le-of_IsIn xs (remove x ys) d (All-remove x xs ys n h), length-remove x ys p)

module _ {ℓ} {A : Type ℓ} where
  -- d.get(key)
  unfoldable pub dict_get : Text → List (Text × A) → Option A
  dict_get key [] = none
  dict_get key ((k, value) ∷ rest) = if text_eq k key then some value else dict_get key rest

  -- d[key] = value
  unfoldable pub dict_set : Text → A → List (Text × A) → List (Text × A)
  dict_set key value [] = (key, value) ∷ []
  dict_set key value ((k, v) ∷ rest) =
      if text_eq k key then (k, value) ∷ rest else (k, v) ∷ dict_set key value rest

  pub dict_get-dict_set :
      (key : Text) (value : A) (d : List (Text × A))
      → dict_get key (dict_set key value d) ≡ some value
  unfolding dict_get dict_set
  dict_get-dict_set key value [] = rw text_eq_self refl
  dict_get-dict_set key value ((k, v) ∷ rest) = ground (arith, dict_get-dict_set key value rest)

  pub dict_get-dict_set_other :
      (key other : Text) (value : A) (d : List (Text × A))
      → other ≢ key
      → dict_get other (dict_set key value d) ≡ dict_get other d
  unfolding dict_get dict_set
  dict_get-dict_set_other key other value [] ne = ground (arith, text_eq_iff key other)
  dict_get-dict_set_other key other value ((k, v) ∷ rest) ne = ground (
    arith,
    dict_get-dict_set_other key other value rest ne,
    text_eq_iff k key,
    text_eq_iff k other,
  )

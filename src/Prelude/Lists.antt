-- ===== src/Prelude/Lists.antt =====
-- Lists measured by native numbers, membership tests, and predicates over lists.
use Prim.Native.Nat.{ℕ, suc, ◌+◌}
use mathlib.Core.Path.{◌≡◌, sym, subst}
use mathlib.Core.Logic.{◌⊎◌, inl, inr}
use mathlib.Core.Bool.{Bool, true, false, ◌&&◌, ◌||◌}
use mathlib.Core.List.{List, [], ◌∷◌, ◌++◌}
use native.Mathlib.Omega.{arith}
use redfish_python_sdk.Prelude.Tests.{Bool-cases, if◌then◌else◌}

module _ {ℓ} {A : Type ℓ} where
  abbrev pub length : List A → ℕ
  length [] = 0
  length (x ∷ xs) = suc (length xs)

  pub length-append : (xs ys : List A) → length (xs ++ ys) ≡ length xs + length ys
  length-append [] ys = omega arith
  length-append (x ∷ xs) ys = omega (arith, length-append xs ys)

  -- any(p(x) for x in xs), all(p(x) for x in xs)
  unfoldable pub any : (A → Bool) → List A → Bool
  any p [] = false
  any p (x ∷ xs) = p x || any p xs

  unfoldable pub all : (A → Bool) → List A → Bool
  all p [] = true
  all p (x ∷ xs) = p x && all p xs

  -- [x for x in xs if p(x)]
  unfoldable pub filter_by : (A → Bool) → List A → List A
  filter_by p [] = []
  filter_by p (x ∷ xs) = let rest = filter_by p xs in if p x then x ∷ rest else rest

module _ {ℓ κ} {A : Type ℓ} (P : A → Type κ) where
  abbrev pub All : List A → Type κ
  All [] = Unit
  All (x ∷ xs) = P x × All xs

  pub All-append : (xs ys : List A) → All xs → All ys → All (xs ++ ys)
  All-append [] ys _ k = k
  All-append (x ∷ xs) ys (p, h) k = (p, All-append xs ys h k)

-- The value is one of the list.
abbrev pub IsMember : {A : Type 0} → A → List A → Type 0
IsMember x [] = ⊥
IsMember x (y ∷ ys) = (x ≡ y) ⊎ IsMember x ys

pub All-IsMember {κ} :
    {A : Type 0} (P : A → Type κ) (x : A) (xs : List A) → All P xs → IsMember x xs → P x
All-IsMember P x [] h m = absurd m
All-IsMember P x (y ∷ ys) (p, h) (inl e) = subst P (sym e) p
All-IsMember P x (y ∷ ys) (p, h) (inr m) = All-IsMember P x ys h m

pub IsMember-filter_by :
    {A : Type 0} (p : A → Bool) (x : A) (xs : List A) → IsMember x (filter_by p xs) → IsMember x xs
unfolding filter_by
IsMember-filter_by p x [] m = m
IsMember-filter_by p x (y ∷ ys) m = elim (Bool-cases (p y)) [
  | inl t ↦ kept (rw t at m) (IsMember-filter_by p x ys)
  | inr f ↦ inr (IsMember-filter_by p x ys (rw f at m))
]
  where
    kept :
        IsMember x (y ∷ filter_by p ys)
        → (IsMember x (filter_by p ys) → IsMember x ys)
        → IsMember x (y ∷ ys)
    kept (inl e) later = inl e
    kept (inr k) later = inr (later k)

-- ===== src/Exec/Ends.antt =====
-- What holds at the end of a run: one predicate of the value and the state where it returned,
-- another of the state where it raised.
use redfish_python_sdk.Prelude.{Bool, true, false, if◌then◌else◌, ◌≡◌, refl}
use redfish_python_sdk.Exceptions.{Exc}
use redfish_python_sdk.Result.{Result, ok, err}
use redfish_python_sdk.Exec.{Run, returned, raised, Exec, lift, ◌>>=◌}

pub data Ends {ℓ κ μ} {S : Type ℓ} {A : Type κ} (P : A → S → Type μ) (Q : S → Type μ)
    : Run S A → Type (ℓ ⊔ κ ⊔ μ) where
  ends_returned : {a : A} {s : S} → P a s → Ends P Q (returned a s)
  ends_raised : {e : Exc} {s : S} → Q s → Ends P Q (raised e s)

module _ {ℓ κ μ} {S : Type ℓ} {A : Type κ} {P : A → S → Type μ} {Q : S → Type μ} where
  pub Ends-lift : (r : Result A) (s : S) → ((a : A) → r ≡ ok a → P a s) → Q s → Ends P Q (lift r s)
  Ends-lift (ok a) s h q = ends_returned (h a refl)
  Ends-lift (err e) s h q = ends_raised q

  pub Ends-if :
      (b : Bool) (r r' : Run S A)
      → (b ≡ true → Ends P Q r)
      → (b ≡ false → Ends P Q r')
      → Ends P Q (if b then r else r')
  Ends-if true r r' h h' = h refl
  Ends-if false r r' h h' = h' refl

module _ {ℓ κ μ ν} {S : Type ℓ} {A : Type κ} {B : Type μ} {P : A → S → Type ν} {R : B → S → Type ν}
    {Q : S → Type ν} where
  bound-Ends :
      (r : Run S A) (f : A → Exec S B)
      → Ends P Q r
      → ((a : A) (s : S) → P a s → Ends R Q (f a s))
      → Ends R Q (elim r [ returned a s' ↦ f a s' | raised e s' ↦ raised e s' ])
  bound-Ends (returned a s) f (ends_returned p) k = k a s p
  bound-Ends (raised e s) f (ends_raised q) k = ends_raised q

  pub Ends-bind :
      (m : Exec S A) (f : A → Exec S B) (s : S)
      → Ends P Q (m s)
      → ((a : A) (s : S) → P a s → Ends R Q (f a s))
      → Ends R Q ((m >>= f) s)
  Ends-bind m f s h k = bound-Ends (m s) f h k

pub Ends-weaken {ℓ κ μ} :
    {S : Type ℓ} {A : Type κ} {P P' : A → S → Type μ} {Q : S → Type μ} (r : Run S A)
    → Ends P Q r
    → ((a : A) (s : S) → P a s → P' a s)
    → Ends P' Q r
Ends-weaken (returned a s) (ends_returned p) k = ends_returned (k a s p)
Ends-weaken (raised e s) (ends_raised q) k = ends_raised q

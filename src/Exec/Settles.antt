-- ===== src/Exec/Settles.antt =====
-- What a run gives: a value with one property where it returned, an exception with another where it
-- raised.
use redfish_python_sdk.Prelude.{◌≡◌, refl, Bool, true, false, Option, none, some, if◌then◌else◌}
use redfish_python_sdk.Exceptions.{Exc, is_redfish}
use redfish_python_sdk.Result.{Result, ok, err}
use redfish_python_sdk.Exec.{lift, Exec, Run, returned, raised, attempt, ◌>>=◌}
use redfish_python_sdk.Exec.Answers.{HasGiven}

pub data Settles {ℓ κ ν} {S : Type ℓ} {A : Type 0} (P : A → Type κ) (E : Exc → Type ν)
    : Run S A → Type (ℓ ⊔ κ ⊔ ν) where
  with_value : {a : A} {s : S} → P a → Settles P E (returned a s)
  with_error : {e : Exc} {s : S} → E e → Settles P E (raised e s)

-- What an attempt gave: nothing, or a value of the call.
pub data Attempted {ℓ} {S : Type ℓ} {A : Type 0} (call : Exec S A) : Option A → Type ℓ where
  failed : Attempted call none
  succeeded : {a : A} → HasGiven call a → Attempted call (some a)

module _ {ℓ} {S : Type ℓ} (E : Exc → Type 0) where
  -- Every exception that the call raises is of the hierarchy or has the property.
  abbrev pub Fails : {A : Type 0} → Exec S A → Type ℓ
  Fails {A} call =
      (s : S) → Settles (λ (_ : A). Unit {0}) (λ e. is_redfish e ≡ false → E e) (call s)

  pub attempt-Settles :
      {A : Type 0} (call : Exec S A) (s : S)
      → Fails call
      → Settles (Attempted call) E (attempt call s)
  unfolding attempt
  attempt-Settles {A} call s fails = at_run (call s) refl (fails s)
    where
      at_error :
          (e : Exc) (s' : S) (b : Bool)
          → is_redfish e ≡ b
          → (is_redfish e ≡ false → E e)
          → Settles (Attempted call) E (if b then returned none s' else raised e s')
      at_error e s' true q h = with_value failed
      at_error e s' false q h = with_error (h q)

      at_run :
          (r : Run S A)
          → call s ≡ r
          → Settles (λ (_ : A). Unit {0}) (λ e. is_redfish e ≡ false → E e) r
          → Settles (Attempted call) E (elim r [
            | returned a s' ↦ returned (some a) s'
            | raised e s' ↦ if is_redfish e then returned none s' else raised e s'
          ])
      at_run (returned a s') q h =
          with_value (succeeded (record { before = s; after = s'; given = q }))
      at_run (raised e s') q (with_error h) = at_error e s' (is_redfish e) refl h

module _ {ℓ κ μ ν} {S : Type ℓ} {A B : Type 0} {P : A → Type κ} {Q : B → Type μ}
    {E : Exc → Type ν} where
  bound-Settles :
      (r : Run S A) (f : A → Exec S B)
      → Settles P E r
      → ((a : A) (s : S) → P a → Settles Q E (f a s))
      → Settles Q E (elim r [ returned a s' ↦ f a s' | raised e s' ↦ raised e s' ])
  bound-Settles (returned a s) f (with_value p) k = k a s p
  bound-Settles (raised e s) f (with_error h) k = with_error h

  pub Settles-bind :
      (m : Exec S A) (f : A → Exec S B) (s : S)
      → Settles P E (m s)
      → ((a : A) (s : S) → P a → Settles Q E (f a s))
      → Settles Q E ((m >>= f) s)
  Settles-bind m f s h k = bound-Settles (m s) f h k

pub Settles-weaken {ℓ κ μ ν} :
    {S : Type ℓ} {A : Type 0} {P : A → Type κ} {Q : A → Type μ} {E : Exc → Type ν} (r : Run S A)
    → Settles P E r
    → ((a : A) → P a → Q a)
    → Settles Q E r
Settles-weaken (returned a s) (with_value p) k = with_value (k a p)
Settles-weaken (raised e s) (with_error h) k = with_error h

-- The call raised the exception, in some state.
pub record HasRaised {ℓ} {S : Type ℓ} {A : Type 0} (call : Exec S A) (e : Exc) : Type ℓ where
  pub before : S
  pub after : S
  pub failed : call before ≡ raised e after

module _ {ℓ} {S : Type ℓ} {E : Exc → Type ℓ} where
  pub given-Settles :
      {A : Type 0} (call : Exec S A) (s : S)
      → ((e : Exc) → HasRaised call e → E e)
      → Settles (HasGiven call) E (call s)
  given-Settles {A} call s k = at_run (call s) refl
    where
      at_run : (r : Run S A) → call s ≡ r → Settles (HasGiven call) E r
      at_run (returned a s') e = with_value (record { before = s; after = s'; given = e })
      at_run (raised x s') e = with_error (k x (record { before = s; after = s'; failed = e }))

  pub lift-Settles :
      {A : Type 0} (r : Result A) (s : S)
      → ((e : Exc) → r ≡ err e → E e)
      → Settles (λ a. r ≡ ok a) E (lift r s)
  lift-Settles (ok a) s k = with_value refl
  lift-Settles (err e) s k = with_error (k e refl)

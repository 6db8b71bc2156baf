-- ===== src/Exec/Keeps.antt =====
-- Invariants of methods, a rule for each way to build one: `Keeps P m` says that `m` keeps `P`,
-- whether it returns or raises.
use redfish_python_sdk.Prelude.{Bool, true, false, if◌then◌else◌}
use redfish_python_sdk.Exceptions.{Exc}
use redfish_python_sdk.Result.{Result, ok, err}
use redfish_python_sdk.Exec.{
  Run, returned, raised, Exec, pure, raise, lift, gets, catch, end_state, ◌>>=◌,
}

pub record Keeps {ℓ κ μ} {S : Type ℓ} {A : Type κ} (P : S → Type μ) (m : Exec S A)
    : Type (ℓ ⊔ μ) where
  pub at : (s : S) → P s → P (end_state (m s))

lift-end_state {ℓ κ μ} :
    {S : Type ℓ} {A : Type κ} (P : S → Type μ) (r : Result A) (s : S)
    → P s
    → P (end_state (lift r s))
lift-end_state P (ok a) s h = h
lift-end_state P (err e) s h = h

pub if-end_state {ℓ κ μ} :
    {S : Type ℓ} {A : Type κ} (P : S → Type μ) (b : Bool) (r r' : Run S A)
    → P (end_state r)
    → P (end_state r')
    → P (end_state (if b then r else r'))
if-end_state P true r r' h h' = h
if-end_state P false r r' h h' = h'

module _ {ℓ κ μ} {S : Type ℓ} {A : Type κ} {P : S → Type μ} where
  pub Keeps-gets : (f : S → A) → Keeps P (gets f)
  Keeps-gets f = record { at = λ s h. h }

  pub Keeps-lift : (r : S → Result A) → Keeps P (λ s. lift (r s) s)
  Keeps-lift r = record { at = λ s h. lift-end_state P (r s) s h }

  pub Keeps-if : (b : Bool) (m n : Exec S A) → Keeps P m → Keeps P n → Keeps P (if b then m else n)
  Keeps-if true m n km kn = km
  Keeps-if false m n km kn = kn

  pub Keeps-raise : (e : Exc) → Keeps P (raise {A = A} e)
  Keeps-raise e = record { at = λ s h. h }

  catch-end_state :
      (r : Run S A) (h : Exc → Exec S A)
      → ((e : Exc) → Keeps P (h e))
      → P (end_state r)
      → P (end_state (elim r [ returned a s' ↦ returned a s' | raised e s' ↦ h e s' ]))
  catch-end_state (returned a s) h kh p = p
  catch-end_state (raised e s) h kh p = (kh e).at s p

  pub Keeps-pure : (value : A) → Keeps P (pure value)
  Keeps-pure value = record { at = λ _ h. h }

  pub Keeps-catch :
      (m : Exec S A) (h : Exc → Exec S A)
      → Keeps P m
      → ((e : Exc) → Keeps P (h e))
      → Keeps P (catch m h)
  Keeps-catch m h km kh = record { at = λ s p. catch-end_state (m s) h kh (km.at s p) }

module _ {ℓ κ μ ν} {S : Type ℓ} {A : Type κ} {B : Type μ} {P : S → Type ν} where
  bind-end_state :
      (r : Run S A) (f : A → Exec S B)
      → ((a : A) → Keeps P (f a))
      → P (end_state r)
      → P (end_state (elim r [ returned a s' ↦ f a s' | raised e s' ↦ raised e s' ]))
  bind-end_state (returned a s) f kf p = (kf a).at s p
  bind-end_state (raised e s) f kf p = p

  pub Keeps-bind :
      (first : Exec S A) (after : A → Exec S B)
      → Keeps P first
      → ((value : A) → Keeps P (after value))
      → Keeps P (first >>= after)
  Keeps-bind m f km kf = record { at = λ s p. bind-end_state (m s) f kf (km.at s p) }

-- Two steps with a weaker predicate after the second.
module _ {ℓ κ μ ν ξ} {S : Type ℓ} {A : Type κ} {B : Type μ} (P : S → Type ν) (Q : S → Type ξ) where
  pub bind_ends :
      (m : Exec S A) (f : A → Exec S B)
      → Keeps P m
      → ((s : S) → P s → Q s)
      → ((a : A) (s : S) → P s → Q (end_state (f a s)))
      → (s : S) → P s
      → Q (end_state ((m >>= f) s))
  bind_ends m f km weaker kf s p = go (m s) (km.at s p)
    where
      bound : Run S A → Run S B
      bound r = elim r [ returned a s' ↦ f a s' | raised e s' ↦ raised e s' ]

      go : (r : Run S A) → P (end_state r) → Q (end_state (bound r))
      go (returned a s') h = kf a s' h
      go (raised e s') h = weaker s' h

pub ruleset keeps_rules =
    (Keeps-bind, Keeps-catch, Keeps-if, Keeps-lift, Keeps-gets, Keeps-raise, Keeps-pure)

-- ===== src/Exec.antt =====
-- Methods that read and write an object, call the network and may raise: what was done before a
-- raise stays done, so the state comes back beside the exception too.
pub mod Keeps
pub mod Ends
pub mod Answers
pub mod Settles
use redfish_python_sdk.Prelude.{
  ◌≡◌, refl, Bool, true, false, Option, none, some, List, [], ◌∷◌, if◌then◌else◌,
}
use redfish_python_sdk.Exceptions.{Exc, is_redfish}
use redfish_python_sdk.Result.{Result, ok, err}

pub data Run {ℓ κ} (S : Type ℓ) (A : Type κ) : Type (ℓ ⊔ κ) where
  returned : A → S → Run S A
  raised : Exc → S → Run S A

abbrev pub Exec {ℓ κ} : Type ℓ → Type κ → Type (ℓ ⊔ κ)
Exec S A = S → Run S A

module _ {ℓ κ} {S : Type ℓ} {A : Type κ} where
  abbrev pub pure : A → Exec S A
  pure a s = returned a s

  abbrev pub raise : Exc → Exec S A
  raise e s = raised e s

  abbrev pub lift : Result A → Exec S A
  lift (ok a) s = returned a s
  lift (err e) s = raised e s

  abbrev pub gets : (S → A) → Exec S A
  gets f s = returned (f s) s

  -- try: m  except: h
  abbrev pub catch : Exec S A → (Exc → Exec S A) → Exec S A
  catch m h s = elim (m s) [ returned a s' ↦ returned a s' | raised e s' ↦ h e s' ]

  -- try: m  except RedfishException: none
  unfoldable pub attempt : Exec S A → Exec S (Option A)
  unfolding is_redfish
  attempt m s = elim (m s) [
    | returned a s' ↦ returned (some a) s'
    | raised e s' ↦ if is_redfish e then returned none s' else raised e s'
  ]

  -- The state in which a run ends, whether it returned or raised.
  abbrev pub end_state : Run S A → S
  end_state (returned _ s) = s
  end_state (raised _ s) = s

abbrev pub modify {ℓ} : {S : Type ℓ} → (S → S) → Exec S (Unit {0})
modify f s = returned tt (f s)

module _ {ℓ κ μ} {S : Type ℓ} {A : Type κ} {B : Type μ} where
  infixl 5 ◌>>=◌
  abbrev pub ◌>>=◌ : Exec S A → (A → Exec S B) → Exec S B
  ◌>>=◌ m f s = elim (m s) [ returned a s' ↦ f a s' | raised e s' ↦ raised e s' ]

module _ {ℓ κ} {S : Type ℓ} {B : Type κ} where
  infixl 5 ◌>>◌
  abbrev pub ◌>>◌ : Exec S (Unit {0}) → Exec S B → Exec S B
  m >> n = m >>= λ _. n

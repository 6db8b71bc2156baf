-- ===== src/Exec/Answers.antt =====
-- What a call gave in some state, and calls that keep an invariant.
use redfish_python_sdk.Prelude.{◌≡◌, refl, Bool, true, false}
use redfish_python_sdk.Exceptions.{Exc}
use redfish_python_sdk.Result.{Result, raise_if}
use redfish_python_sdk.Exec.{Exec, Run, returned, raised, lift, end_state, ◌>>=◌}
use redfish_python_sdk.Exec.Keeps.{Keeps}
use redfish_python_sdk.Exec.Ends.{Ends, ends_returned, ends_raised, Ends-bind, Ends-weaken}

-- The call gave the value, in some state.
pub record HasGiven {ℓ} {S : Type ℓ} {A : Type 0} (call : Exec S A) (a : A) : Type ℓ where
  pub before : S
  pub after : S
  pub given : call before ≡ returned a after

module _ {ℓ} {S : Type ℓ} (I : S → Type ℓ) where
  -- A call that keeps the invariant, with the value that it gave.
  pub given-Ends :
      {A : Type 0} (call : Exec S A) (s : S)
      → Keeps I call
      → I s
      → Ends (λ a s'. HasGiven call a × I s') I (call s)
  given-Ends {A} call s keeps i = at_run (call s) refl (keeps.at s i)
    where
      at_run :
          (r : Run S A) → call s ≡ r → I (end_state r) → Ends (λ a s'. HasGiven call a × I s') I r
      at_run (returned a s') e k = ends_returned (record { before = s; after = s'; given = e }, k)
      at_run (raised x s') e k = ends_raised k

  pub kept-Ends :
      {A : Type 0} (call : Exec S A) (s : S) → Keeps I call → I s → Ends (λ _ s'. I s') I (call s)
  kept-Ends call s keeps i = Ends-weaken (call s) (given-Ends call s keeps i) (λ _ s' (_, k). k)

  -- A call that is known to end in the invariant keeps it.
  pub Ends-Keeps :
      {A : Type 0} (call : Exec S A)
      → ((s : S) → I s → Ends (λ _ s'. I s') I (call s))
      → Keeps I call
  Ends-Keeps {A} call h = record { at = λ s i. end_of (call s) (h s i) }
    where
      end_of : (r : Run S A) → Ends (λ _ s'. I s') I r → I (end_state r)
      end_of (returned a s) (ends_returned k) = k
      end_of (raised e s) (ends_raised k) = k

  -- A call that keeps the invariant, and what is done with the value that it gave.
  pub given-bind :
      {A B : Type 0} {P : B → S → Type ℓ} (call : Exec S A) (f : A → Exec S B) (s : S)
      → Keeps I call
      → I s
      → ((a : A) (s' : S) → HasGiven call a → I s' → Ends P I (f a s'))
      → Ends P I ((call >>= f) s)
  given-bind call f s keeps i k =
      Ends-bind call f s (given-Ends call s keeps i) (λ a s' (h, j). k a s' h j)

  -- A pure step, and what is done with its value.
  pub lift-bind :
      {A B : Type 0} {P : B → S → Type ℓ} (r : Result A) (f : A → Exec S B) (s : S)
      → I s
      → ((a : A) → r ≡ Result.ok a → Ends P I (f a s))
      → Ends P I ((lift r >>= f) s)
  lift-bind (Result.ok a) f s i k = k a refl
  lift-bind (Result.err e) f s i k = ends_raised i

  -- if test: raise e, and what is done where the test is false
  pub raise_if-bind :
      {B : Type 0} {P : B → S → Type ℓ} (b : Bool) (e : Exc) (f : Unit {0} → Exec S B) (s : S)
      → I s
      → (b ≡ false → Ends P I (f tt s))
      → Ends P I ((lift (raise_if b e) >>= f) s)
  raise_if-bind true e f s i k = ends_raised i
  raise_if-bind false e f s i k = k refl

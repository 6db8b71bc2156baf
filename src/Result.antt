-- ===== src/Result.antt =====
-- The outcome of a pure function that may raise, and the `do` notation for it.
use redfish_python_sdk.Prelude.{◌≡◌, refl, Bool, true, false}
use redfish_python_sdk.Exceptions.{Exc}

pub data Result {ℓ} (A : Type ℓ) : Type ℓ where
  err : (raised : Exc) → Result A
  ok : (value : A) → Result A

module _ {ℓ κ} {A : Type ℓ} {B : Type κ} where
  infixl 5 ◌>>=◌
  abbrev pub ◌>>=◌ : (first : Result A) (after : A → Result B) → Result B
  err e >>= after = err e
  ok value >>= after = after value

  pub >>=-eq-ok :
      {b : B} (after : A → Result B) (first : Result A)
      → (first >>= after) ≡ ok b
      → (value : A) × (after value ≡ ok b) × (first ≡ ok value)
  >>=-eq-ok after (err e) failed = cc
  >>=-eq-ok after (ok value) h = (value, h, refl)

module _ {ℓ} {B : Type ℓ} where
  infixl 5 ◌>>◌
  abbrev pub ◌>>◌ : (first : Result (Unit {0})) (after : Result B) → Result B
  err e >> after = err e
  ok _ >> after = after

  pub >>-eq-ok : (m : Result (Unit {0})) (n : Result B) {b : B} → (m >> n) ≡ ok b → n ≡ ok b
  >>-eq-ok (ok _) n h = h
  >>-eq-ok (err e) n h = cc

-- if test: raise e
abbrev pub raise_if : Bool → Exc → Result (Unit {0})
raise_if true e = err e
raise_if false e = ok tt

-- try: r  except … as e: raise h(e)
abbrev pub on_error {ℓ} : {A : Type ℓ} → Result A → (Exc → Exc) → Result A
on_error (ok a) h = ok a
on_error (err e) h = err (h e)

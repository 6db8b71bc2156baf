-- ===== src/Gpu/Groups.antt =====
-- The candidates of `_GpuInventory` in redfish_sdk/managers/gpu_discovery.py as sets of identities,
-- and what a call of `add` does to them.
use redfish_python_sdk.Prelude.{
  ◌≡◌, refl, ap, true, false, ◌||◌, List, [], ◌∷◌, ◌++◌, Text, inl, inr, text_eq, text_eq_iff,
  text_eq_self, any, mem, arith, Bool-cases,
}
use redfish_python_sdk.Gpu.{set_add, set_update, meets}

pub mem-append : (x : Text) (s t : List Text) → mem x (s ++ t) ≡ (mem x s || mem x t)
unfolding mem
mem-append x [] t = refl
mem-append x (y ∷ s) t = ground (arith, mem-append x s t)

pub mem-set_add : (x y : Text) (s : List Text) → mem x (set_add y s) ≡ (mem x s || text_eq x y)
unfolding set_add mem
mem-set_add x y s = ground (arith, mem-append x s (y ∷ []), mem_same x y s)
  where
    mem_same : (x y : Text) (s : List Text) → (text_eq x y ≡ true) → mem x s ≡ mem y s
    mem_same x y s h = let e : x ≡ y = (text_eq_iff x y).0 h in ap (λ z. mem z s) e

pub mem-set_update : (x : Text) (s t : List Text) → mem x (set_update s t) ≡ (mem x s || mem x t)
unfolding set_update mem
mem-set_update x s [] = ground arith
mem-set_update x s (y ∷ t) = ground (arith, mem-set_update x (set_add y s) t, mem-set_add x y s)

-- The sets have no text in common.
abbrev pub Apart : List Text → List Text → Type 0
Apart s t = (x : Text) → mem x s ≡ true → mem x t ≡ false

pub Apart-sym : (s t : List Text) → Apart s t → Apart t s
Apart-sym s t h x m = elim (Bool-cases (mem x s)) [ inl k ↦ absurd (cc (h x k)) | inr k ↦ k ]

pub Apart-meets : (s t : List Text) → meets s t ≡ false → Apart s t
unfolding meets any mem
Apart-meets [] t h x m = cc
Apart-meets (y ∷ s) t h x m = elim (Bool-cases (text_eq x y)) [
  | inl e ↦ let same : x ≡ y = (text_eq_iff x y).0 e in ground arith
  | inr f ↦ Apart-meets s t (ground arith) x (ground arith)
]

-- A text that the sets have in common.
pub record Common (s t : List Text) : Type 0 where
  pub shared : Text
  pub left : mem shared s ≡ true
  pub right : mem shared t ≡ true

pub Common-meets : (s t : List Text) → meets s t ≡ true → Common s t
unfolding meets any mem
Common-meets [] t h = absurd (cc h)
Common-meets (y ∷ s) t h = elim (Bool-cases (mem y t)) [
  | inl k ↦ record { shared = y; left = rw (text_eq_self y) refl; right = k }
  | inr k ↦ later (Common-meets s t (ground arith))
]
  where
    later : Common s t → Common (y ∷ s) t
    later c = record { shared = c.shared; left = ground (arith, c.left); right = c.right }

-- ===== src/Registries/Find/Versions.antt =====
-- The order of versions in redfish_sdk/managers/registries.py, and the newest of a list.
use mathlib.Core.Path.{subst}
use redfish_python_sdk.Prelude.{
  ◌≡◌, sym, true, false, List, [], ◌∷◌, All, inl, inr, arith, Bool-cases,
}
use redfish_python_sdk.Registries.Names.{Version, Registry}
use redfish_python_sdk.Registries.Find.{version_lt, latest}

version_lt_trans :
    (u v w : Version) → version_lt v u ≡ false → version_lt w v ≡ false → version_lt w u ≡ false
unfolding version_lt
version_lt_trans (a, b, c) (a', b', c') (a'', b'', c'') h k = ground arith

pub version_lt_self : (v : Version) → version_lt v v ≡ false
unfolding version_lt
version_lt_self (a, b, c) = ground arith

version_lt_asym : (u v : Version) → version_lt u v ≡ true → version_lt v u ≡ false
unfolding version_lt
version_lt_asym (a, b, c) (a', b', c') h = ground arith

abbrev pub Least : Version × Registry → Version × Registry → Type 0
Least best other = version_lt best.0 other.0 ≡ false

module _ {ℓ} (P : Version × Registry → Type ℓ) where
  pub latest-All :
      (best : Version × Registry) (others : List (Version × Registry))
      → P best
      → All P others
      → P (latest best others)
  unfolding latest
  latest-All best [] p _ = p
  latest-All best (other ∷ others) p (q, h) = elim (Bool-cases (version_lt best.0 other.0)) [
    | inl t ↦ rw t (latest-All other others q h)
    | inr f ↦ rw f (latest-All best others p h)
  ]

pub latest-Least :
    (best bound : Version × Registry) (others : List (Version × Registry))
    → Least best bound
    → Least (latest best others) bound
unfolding latest
latest-Least best bound [] h = h
latest-Least best bound (other ∷ others) h = elim (Bool-cases (version_lt best.0 other.0)) [
  | inl t ↦
      rw (t, latest)
        (latest-Least other bound others
          (version_lt_trans bound.0 best.0 other.0 h (version_lt_asym best.0 other.0 t)))
  | inr f ↦ rw (f, latest) (latest-Least best bound others h)
]

latest-newer :
    (best other : Version × Registry) (others : List (Version × Registry))
    → version_lt best.0 other.0 ≡ true
    → latest best (other ∷ others) ≡ latest other others
unfolding latest
latest-newer best other others h = rw (h, latest)

latest-older :
    (best other : Version × Registry) (others : List (Version × Registry))
    → version_lt best.0 other.0 ≡ false
    → latest best (other ∷ others) ≡ latest best others
unfolding latest
latest-older best other others h = rw (h, latest)

pub latest_others :
    (best : Version × Registry) (others : List (Version × Registry))
    → All (Least (latest best others)) others
latest_others best [] = tt
latest_others best (other ∷ others) = elim (Bool-cases (version_lt best.0 other.0)) [
  | inl t ↦
      subst bounds (sym (latest-newer best other others t))
        (latest-Least other other others (version_lt_self other.0), latest_others other others)
  | inr f ↦
      subst bounds (sym (latest-older best other others f))
        (latest-Least best other others f, latest_others best others)
]
  where
    bounds : Version × Registry → Type 0
    bounds bound = All (Least bound) (other ∷ others)

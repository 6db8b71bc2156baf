-- ===== src/Registries/Find/Latest.antt =====
-- `_find_registry` and `_find_referenced_registry` of redfish_sdk/managers/registries.py choose the
-- newest of the registries that fit.
use mathlib.Core.Path.{subst}
use redfish_python_sdk.Prelude.{
  ℕ, ◌≡◌, refl, Bool, true, false, Option, none, some, List, [], ◌∷◌, Text, All, IsMember, inl, inr,
  arith, if◌then◌else◌,
}
use redfish_python_sdk.Exceptions.{Reason, registry_resolution_error, unknown_registry}
use redfish_python_sdk.Result.{Result, ok, err}
use redfish_python_sdk.Registries.Names.{Version, Registry, registry_parts}
use redfish_python_sdk.Registries.Find.{
  Accepts, version_lt, candidate, candidates, latest, choose, is_wanted, find_registry,
}
use redfish_python_sdk.Registries.Find.Versions.{
  latest-All, version_lt_self, Least, latest-Least, latest_others,
}

-- No registry that the test accepts has a version above this one.
abbrev pub NotNewer : Accepts → Version → Registry → Type 0
NotNewer accepts version registry =
    (prefix : Text) (other : Version)
    → registry_parts registry ≡ ok (prefix, other)
    → accepts prefix other ≡ true
    → version_lt version other ≡ false

abbrev pub IsRejected : Accepts → Registry → Type 0
IsRejected accepts registry =
    (prefix : Text) (version : Version)
    → registry_parts registry ≡ ok (prefix, version)
    → accepts prefix version ≡ false

-- A newest registry of the list that the test accepts, or the error where it accepts none.
pub data IsNewest (accepts : Accepts) (missing : Reason) (registries : List Registry)
    : Result Registry → Type 0 where
  newest :
      {registry : Registry} (prefix : Text) (version : Version)
      → IsMember registry registries
      → registry_parts registry ≡ ok (prefix, version)
      → accepts prefix version ≡ true
      → All (NotNewer accepts version) registries
      → IsNewest accepts missing registries (ok registry)
  no_match :
      All (IsRejected accepts) registries
      → IsNewest accepts missing registries (err (registry_resolution_error missing))

module _ (accepts : Accepts) where
  -- A candidate is a registry of the list with its version, and the test accepts it.
  pub record IsCandidate (registries : List Registry) (c : Version × Registry) : Type 0 where
    prefix : Text
    member : IsMember c.1 registries
    parts : registry_parts c.1 ≡ ok (prefix, c.0)
    accepted : accepts prefix c.0 ≡ true

  candidate-some :
      (registry : Registry) (c : Version × Registry)
      → candidate accepts registry ≡ some c
      → IsCandidate (registry ∷ []) c
  unfolding candidate
  candidate-some registry c h = at_parts (registry_parts registry) refl h
    where
      at_accepts :
          (prefix : Text) (version : Version) (b : Bool)
          → registry_parts registry ≡ ok (prefix, version)
          → accepts prefix version ≡ b
          → (if b then some (version, registry) else none) ≡ some c
          → IsCandidate (registry ∷ []) c
      at_accepts prefix version false p a k = absurd (cc k)
      at_accepts prefix version true p a k =
          let e : (version, registry) ≡ c = cc in
          subst (IsCandidate (registry ∷ [])) e
            (record { prefix = prefix; member = inl refl; parts = p; accepted = a })

      at_parts :
          (r : Result (Text × Version))
          → registry_parts registry ≡ r
          → elim r [
            | err e ↦ none
            | ok (prefix, version) ↦
                if accepts prefix version then some (version, registry) else none
          ]
            ≡ some c
          → IsCandidate (registry ∷ []) c
      at_parts (err e) p k = absurd (cc k)
      at_parts (ok (prefix, version)) p k =
          at_accepts prefix version (accepts prefix version) p refl k

  candidate-none :
      (registry : Registry) → candidate accepts registry ≡ none → IsRejected accepts registry
  unfolding candidate
  candidate-none registry h prefix version p = ground (arith, p)

  candidate-NotNewer :
      (registry : Registry) (c bound : Version × Registry)
      → candidate accepts registry ≡ some c
      → Least bound c
      → NotNewer accepts bound.0 registry
  unfolding candidate
  candidate-NotNewer registry c bound h l prefix version p a = ground (arith, p)

  -- The candidates of a list, and that it has no others: what is found of each bounds all.
  pub record AreCandidates (registries : List Registry) (found : List (Version × Registry))
      : Type 0 where
    sound : All (IsCandidate registries) found
    none_missed :
        (bound : Version × Registry)
        → All (Least bound) found
        → All (NotNewer accepts bound.0) registries
    all_rejected : found ≡ [] → All (IsRejected accepts) registries

  IsCandidate-tail :
      (registry : Registry) (registries : List Registry) (c : Version × Registry)
      → IsCandidate registries c
      → IsCandidate (registry ∷ registries) c
  IsCandidate-tail registry registries c h = record {
    prefix = h.prefix;
    member = inr h.member;
    parts = h.parts;
    accepted = h.accepted;
  }

  IsCandidate-head :
      (registry : Registry) (registries : List Registry) (c : Version × Registry)
      → IsCandidate (registry ∷ []) c
      → IsCandidate (registry ∷ registries) c
  IsCandidate-head registry registries c h = record {
    prefix = h.prefix;
    member = at_member h.member;
    parts = h.parts;
    accepted = h.accepted;
  }
    where
      at_member : IsMember c.1 (registry ∷ []) → IsMember c.1 (registry ∷ registries)
      at_member (inl e) = inl e
      at_member (inr none_left) = absurd none_left

  IsCandidate-All :
      (registry : Registry) (registries : List Registry) (found : List (Version × Registry))
      → All (IsCandidate registries) found
      → All (IsCandidate (registry ∷ registries)) found
  IsCandidate-All registry registries [] h = tt
  IsCandidate-All registry registries (c ∷ found) (p, h) =
      (IsCandidate-tail registry registries c p, IsCandidate-All registry registries found h)

  IsRejected-NotNewer :
      (registry : Registry) (version : Version)
      → IsRejected accepts registry
      → NotNewer accepts version registry
  IsRejected-NotNewer registry version h prefix other p a = absurd (cc (h prefix other p))

  pub candidates-AreCandidates :
      (registries : List Registry) → AreCandidates registries (candidates accepts registries)
  unfolding candidates
  candidates-AreCandidates [] = record {
    sound = tt;
    none_missed = λ _ _. tt;
    all_rejected = λ _. tt;
  }
  candidates-AreCandidates (registry ∷ registries) =
      at_candidate (candidate accepts registry) refl (candidates-AreCandidates registries)
    where
      at_candidate :
          (o : Option (Version × Registry))
          → candidate accepts registry ≡ o
          → AreCandidates registries (candidates accepts registries)
          → AreCandidates (registry ∷ registries) (elim o [
            | none ↦ candidates accepts registries
            | some found ↦ found ∷ candidates accepts registries
          ])
      at_candidate none e h =
          let rejected = candidate-none registry e in
          record {
            sound = IsCandidate-All registry registries (candidates accepts registries) h.sound;
            none_missed =
                λ bound k. (IsRejected-NotNewer registry bound.0 rejected, h.none_missed bound k);
            all_rejected = λ k. (rejected, h.all_rejected k);
          }
      at_candidate (some c) e h = record {
        sound = (
          IsCandidate-head registry registries c (candidate-some registry c e),
          IsCandidate-All registry registries (candidates accepts registries) h.sound,
        );
        none_missed =
            λ bound k. (candidate-NotNewer registry c bound e k.0, h.none_missed bound k.1);
        all_rejected = λ k. absurd (cc k);
      }

  pub choose-IsNewest :
      (missing : Reason) (registries : List Registry) (found : List (Version × Registry))
      → AreCandidates registries found
      → IsNewest accepts missing registries (choose missing found)
  unfolding choose
  choose-IsNewest missing registries [] h = no_match (h.all_rejected refl)
  choose-IsNewest missing registries (c ∷ found) h =
      let best = latest c found in
      let chosen = latest-All (IsCandidate registries) c found h.sound.0 h.sound.1 in
      newest chosen.prefix best.0 chosen.member chosen.parts chosen.accepted
        (h.none_missed best (latest-Least c c found (version_lt_self c.0), latest_others c found))

-- `_find_registry` returns a registry of the list whose prefix, in any case, major and minor
-- version are the wanted ones, and no other such registry has a greater version; it raises the
-- error of an unknown registry only where the list has none.
pub find_registry-IsNewest :
    (prefix : Text) (major minor : ℕ) (registries : List Registry)
    → IsNewest
        (is_wanted prefix major minor)
        unknown_registry
        registries
        (find_registry prefix major minor registries)
unfolding find_registry
find_registry-IsNewest prefix major minor registries =
    choose-IsNewest (is_wanted prefix major minor) unknown_registry registries
      (candidates (is_wanted prefix major minor) registries)
      (candidates-AreCandidates (is_wanted prefix major minor) registries)

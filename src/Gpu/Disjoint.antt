-- ===== src/Gpu/Disjoint.antt =====
-- No two candidates of `_GpuInventory` in redfish_sdk/managers/gpu_discovery.py share an identity.
use redfish_python_sdk.Prelude.{
  ◌≡◌, refl, ◌∙◌, Bool, true, false, not, ◌||◌, List, [], ◌∷◌, ◌++◌, Text, inl, inr, any, filter_by,
  mem, All, All-append, arith, Bool-cases,
}
use redfish_python_sdk.Gpu.{
  Candidate, set_update, meets, merge, absorb, replace_first, hits, relabelled, add_candidate,
}
use redfish_python_sdk.Gpu.Groups.{Apart, Apart-sym, Apart-meets, mem-set_update}

-- Some candidate has the identity.
abbrev pub in_any : Text → List Candidate → Bool
in_any x candidates = any (λ c. mem x c.identities) candidates

mem-absorb :
    (x : Text) (primary : Candidate) (others : List Candidate)
    → mem x (absorb primary others).identities ≡ (mem x primary.identities || in_any x others)
unfolding absorb any
mem-absorb x primary [] = ground arith
mem-absorb x primary (other ∷ others) =
    let merged : Candidate = record {
      gpu = merge primary.gpu other.gpu;
      identities = set_update primary.identities other.identities;
    } in
    ground (arith, mem-absorb x merged others, mem-set_update x primary.identities other.identities)

abbrev pub IsDisjoint : List Candidate → Type 0
IsDisjoint [] = Unit
IsDisjoint (c ∷ candidates) =
    All (λ d. Apart c.identities d.identities) candidates × IsDisjoint candidates

-- The candidate has the identities of the set and of the candidates.
abbrev pub IsUnion : List Text → List Candidate → Candidate → Type 0
IsUnion identities candidates merged =
    (x : Text) → mem x merged.identities ≡ (mem x identities || in_any x candidates)

All-filter_by {ℓ} :
    {A : Type 0} (P : A → Type ℓ) (p : A → Bool) (xs : List A) → All P xs → All P (filter_by p xs)
unfolding filter_by
All-filter_by P p [] h = tt
All-filter_by P p (x ∷ xs) (q, h) = elim (Bool-cases (p x)) [
  | inl t ↦ rw t (q, All-filter_by P p xs h)
  | inr f ↦ rw f (All-filter_by P p xs h)
]

module _ (identities : List Text) where
  -- A candidate that does not meet the identities is apart from those that do.
  abbrev IsOutside : List Candidate → Candidate → Type 0
  IsOutside candidates c =
      meets c.identities identities ≡ false
      → All (λ d. Apart c.identities d.identities) (hits identities candidates)

  IsOutside-here :
      (c : Candidate) (candidates : List Candidate)
      → All (λ d. Apart c.identities d.identities) candidates
      → IsOutside (c ∷ candidates) c
  unfolding filter_by
  IsOutside-here c candidates h f = rw f (
      All-filter_by (λ d. Apart c.identities d.identities) (λ d. meets d.identities identities)
        candidates h)

  IsOutside-there :
      (c : Candidate) (candidates others : List Candidate)
      → All (λ d. Apart c.identities d.identities) others
      → All (IsOutside candidates) others
      → All (IsOutside (c ∷ candidates)) others
  unfolding filter_by
  IsOutside-there c candidates [] a h = tt
  IsOutside-there c candidates (d ∷ others) (p, a) (o, h) = (
    elim (Bool-cases (meets c.identities identities)) [
      | inl t ↦ rw t (λ f. (Apart-sym c.identities d.identities p, o f))
      | inr n ↦ rw n o
    ],
    IsOutside-there c candidates others a h,
  )

  IsDisjoint-IsOutside :
      (candidates : List Candidate) → IsDisjoint candidates → All (IsOutside candidates) candidates
  IsDisjoint-IsOutside [] h = tt
  IsDisjoint-IsOutside (c ∷ candidates) (a, h) = (
    IsOutside-here c candidates a,
    IsOutside-there c candidates candidates a (IsDisjoint-IsOutside candidates h),
  )

  Apart-any :
      (x : Text) (s : List Text) (candidates : List Candidate)
      → mem x s ≡ true
      → All (λ d. Apart s d.identities) candidates
      → in_any x candidates ≡ false
  unfolding any
  Apart-any x s [] m h = refl
  Apart-any x s (d ∷ candidates) m (p, h) = ground (arith, p x m, Apart-any x s candidates m h)

  -- So it is apart from their union.
  outside-union :
      (candidates : List Candidate) (merged c : Candidate)
      → IsUnion identities (hits identities candidates) merged
      → IsOutside candidates c
      → meets c.identities identities ≡ false
      → Apart c.identities merged.identities
  outside-union candidates merged c u o f x m =
      u x
      ∙ ground (
        arith,
        Apart-meets c.identities identities f x m,
        Apart-any x c.identities (hits identities candidates) m (o f),
      )

  abbrev others_of : List Candidate → List Candidate
  others_of candidates = filter_by (λ c. not (meets c.identities identities)) candidates

  -- Apart from the union: each candidate that stays.
  abbrev Stays : Candidate → Candidate → Type 0
  Stays merged c = meets c.identities identities ≡ false → Apart c.identities merged.identities

  union-Stays :
      (candidates others : List Candidate) (merged : Candidate)
      → IsUnion identities (hits identities candidates) merged
      → All (IsOutside candidates) others
      → All (Stays merged) others
  union-Stays candidates [] merged u h = tt
  union-Stays candidates (c ∷ others) merged u (o, h) =
      (outside-union candidates merged c u o, union-Stays candidates others merged u h)

  others-Apart :
      (merged : Candidate) (candidates : List Candidate)
      → All (Stays merged) candidates
      → All (λ d. Apart merged.identities d.identities) (others_of candidates)
  unfolding filter_by
  others-Apart merged [] h = tt
  others-Apart merged (c ∷ candidates) (p, h) = elim (Bool-cases (meets c.identities identities)) [
    | inl t ↦ rw t (others-Apart merged candidates h)
    | inr f ↦
        rw f (Apart-sym c.identities merged.identities (p f), others-Apart merged candidates h)
  ]

  filter_by-IsDisjoint :
      (p : Candidate → Bool) (candidates : List Candidate)
      → IsDisjoint candidates
      → IsDisjoint (filter_by p candidates)
  unfolding filter_by
  filter_by-IsDisjoint p [] h = tt
  filter_by-IsDisjoint p (c ∷ candidates) (a, h) = elim (Bool-cases (p c)) [
    | inl t ↦ rw t (
      All-filter_by (λ d. Apart c.identities d.identities) p candidates a,
      filter_by-IsDisjoint p candidates h,
    )
    | inr f ↦ rw f (filter_by-IsDisjoint p candidates h)
  ]

  pub replace_first-All {ℓ} :
      (P : Candidate → Type ℓ) (merged : Candidate) (candidates : List Candidate)
      → P merged
      → All P candidates
      → All P (replace_first identities merged candidates)
  unfolding replace_first
  replace_first-All P merged [] m h = tt
  replace_first-All P merged (c ∷ candidates) m (p, h) =
      elim (Bool-cases (meets c.identities identities)) [
        | inl t ↦ rw t (m, All-filter_by P (λ d. not (meets d.identities identities)) candidates h)
        | inr f ↦ rw f (p, replace_first-All P merged candidates m h)
      ]

  replace_first-IsDisjoint :
      (merged : Candidate) (candidates : List Candidate)
      → IsDisjoint candidates
      → All (Stays merged) candidates
      → IsDisjoint (replace_first identities merged candidates)
  unfolding replace_first
  replace_first-IsDisjoint merged [] h k = tt
  replace_first-IsDisjoint merged (c ∷ candidates) (a, h) (p, k) =
      elim (Bool-cases (meets c.identities identities)) [
        | inl t ↦ rw t (
          others-Apart merged candidates k,
          filter_by-IsDisjoint (λ d. not (meets d.identities identities)) candidates h,
        )
        | inr f ↦ rw f (
          replace_first-All (λ d. Apart c.identities d.identities) merged candidates (p f) a,
          replace_first-IsDisjoint merged candidates h k,
        )
      ]

  snoc-IsDisjoint :
      (c : Candidate) (candidates : List Candidate)
      → IsDisjoint candidates
      → All (λ d. Apart d.identities c.identities) candidates
      → IsDisjoint (candidates ++ (c ∷ []))
  snoc-IsDisjoint c [] h k = (tt, tt)
  snoc-IsDisjoint c (d ∷ candidates) (a, h) (p, k) = (
    All-append (λ e. Apart d.identities e.identities) candidates (c ∷ []) a (p, tt),
    snoc-IsDisjoint c candidates h k,
  )

  no_hits-Apart :
      (candidates : List Candidate)
      → hits identities candidates ≡ []
      → All (λ d. Apart d.identities identities) candidates
  unfolding filter_by
  no_hits-Apart [] h = tt
  no_hits-Apart (d ∷ candidates) h = elim (Bool-cases (meets d.identities identities)) [
    | inl t ↦ absurd (cc (rw t at h))
    | inr f ↦ (Apart-meets d.identities identities f, no_hits-Apart candidates (rw f at h))
  ]

absorb-IsUnion :
    (c primary : Candidate) (duplicates : List Candidate)
    → IsUnion c.identities (primary ∷ duplicates) (relabelled (absorb primary (c ∷ duplicates)))
unfolding any
absorb-IsUnion c primary duplicates x = ground (arith, mem-absorb x primary (c ∷ duplicates))

-- How `add_candidate` ends: with no match, or with the union of the matches in their place.
pub data Added (c : Candidate) (candidates : List Candidate) : List Candidate → Type 0 where
  appended : hits c.identities candidates ≡ [] → Added c candidates (candidates ++ (c ∷ []))
  replaced :
      (merged primary : Candidate) (duplicates : List Candidate)
      → hits c.identities candidates ≡ primary ∷ duplicates
      → IsUnion c.identities (hits c.identities candidates) merged
      → Added c candidates (replace_first c.identities merged candidates)

pub add_candidate-Added :
    (c : Candidate) (candidates : List Candidate) → Added c candidates (add_candidate c candidates)
unfolding add_candidate
add_candidate-Added c candidates = at_hits (hits c.identities candidates) refl
  where
    at_hits :
        (found : List Candidate)
        → hits c.identities candidates ≡ found
        → Added c candidates (elim found [
          | [] ↦ candidates ++ (c ∷ [])
          | primary ∷ duplicates ↦
              replace_first c.identities (relabelled (absorb primary (c ∷ duplicates))) candidates
        ])
    at_hits [] e = appended e
    at_hits (primary ∷ duplicates) e =
        replaced (relabelled (absorb primary (c ∷ duplicates))) primary duplicates e
          (rw e (absorb-IsUnion c primary duplicates))

pub add_candidate-IsDisjoint :
    (c : Candidate) (candidates : List Candidate)
    → IsDisjoint candidates
    → IsDisjoint (add_candidate c candidates)
add_candidate-IsDisjoint c candidates h = at_added (add_candidate-Added c candidates)
  where
    at_added : {result : List Candidate} → Added c candidates result → IsDisjoint result
    at_added (appended e) =
        snoc-IsDisjoint c.identities c candidates h (no_hits-Apart c.identities candidates e)
    at_added (replaced merged primary duplicates e u) =
        replace_first-IsDisjoint c.identities merged candidates h (
          union-Stays c.identities candidates candidates merged u
            (IsDisjoint-IsOutside c.identities candidates h))

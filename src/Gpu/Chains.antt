-- ===== src/Gpu/Chains.antt =====
-- Chains of identities that sets share, and the candidates of `_GpuInventory` in
-- redfish_sdk/managers/gpu_discovery.py that hold a set.
use redfish_python_sdk.Prelude.{
  ◌≡◌, refl, true, false, not, ◌||◌, List, [], ◌∷◌, ◌++◌, Text, ◌⊎◌, inl, inr, any, filter_by, mem,
  All, IsMember, arith, Bool-cases,
}
use redfish_python_sdk.Gpu.{Candidate, meets, replace_first, hits}
use redfish_python_sdk.Gpu.Groups.{Common-meets}
use redfish_python_sdk.Gpu.Disjoint.{in_any}

-- The sets link the two identities: by one of the sets, or one after the other.
pub data Chain (sets : List (List Text)) : Text → Text → Type 0 where
  linked :
      {x y : Text} (s : List Text)
      → IsMember s sets
      → mem x s ≡ true
      → mem y s ≡ true
      → Chain sets x y
  joined : {x y z : Text} → Chain sets x y → Chain sets y z → Chain sets x z

module _ (s : List Text) where
  pub IsMember-append : (sets more : List (List Text)) → IsMember s sets → IsMember s (sets ++ more)
  IsMember-append [] more m = absurd m
  IsMember-append (t ∷ sets) more (inl e) = inl e
  IsMember-append (t ∷ sets) more (inr m) = inr (IsMember-append sets more m)

  pub IsMember-snoc : (sets : List (List Text)) → IsMember s (sets ++ (s ∷ []))
  IsMember-snoc [] = inl refl
  IsMember-snoc (t ∷ sets) = inr (IsMember-snoc sets)

pub Chain-append :
    {sets : List (List Text)} {x y : Text} (more : List (List Text))
    → Chain sets x y
    → Chain (sets ++ more) x y
Chain-append {sets} more (linked s m p q) = linked s (IsMember-append s sets more m) p q
Chain-append more (joined c d) = joined (Chain-append more c) (Chain-append more d)

pub Chain-sym : {sets : List (List Text)} {x y : Text} → Chain sets x y → Chain sets y x
Chain-sym (linked s m p q) = linked s m q p
Chain-sym (joined c d) = joined (Chain-sym d) (Chain-sym c)

abbrev pub IsSubset : List Text → List Text → Type 0
IsSubset s t = (x : Text) → mem x s ≡ true → mem x t ≡ true

-- One of the candidates has all identities of the set.
abbrev pub IsHeld : List Candidate → List Text → Type 0
IsHeld [] s = ⊥
IsHeld (c ∷ candidates) s = IsSubset s c.identities ⊎ IsHeld candidates s

abbrev pub IsConnected : List (List Text) → Candidate → Type 0
IsConnected sets c =
    (x y : Text) → mem x c.identities ≡ true → mem y c.identities ≡ true → Chain sets x y

pub IsConnected-append :
    (sets more : List (List Text)) (candidates : List Candidate)
    → All (IsConnected sets) candidates
    → All (IsConnected (sets ++ more)) candidates
IsConnected-append sets more [] h = tt
IsConnected-append sets more (c ∷ candidates) (p, h) =
    (λ x y mx my. Chain-append more (p x y mx my), IsConnected-append sets more candidates h)

module _ (c : Candidate) (s : List Text) where
  pub IsHeld-snoc :
      (candidates : List Candidate) → IsHeld candidates s → IsHeld (candidates ++ (c ∷ [])) s
  IsHeld-snoc [] h = absurd h
  IsHeld-snoc (d ∷ candidates) (inl p) = inl p
  IsHeld-snoc (d ∷ candidates) (inr h) = inr (IsHeld-snoc candidates h)

pub IsHeld-last :
    (c : Candidate) (candidates : List Candidate) → IsHeld (candidates ++ (c ∷ [])) c.identities
IsHeld-last c [] = inl (λ x m. m)
IsHeld-last c (d ∷ candidates) = inr (IsHeld-last c candidates)

-- A candidate that meets the identities is within the union.
pub hit-IsSubset :
    (identities : List Text) (candidates : List Candidate) (d : Candidate) (x : Text)
    → meets d.identities identities ≡ true
    → IsMember d candidates
    → mem x d.identities ≡ true
    → in_any x (hits identities candidates) ≡ true
unfolding filter_by any
hit-IsSubset identities [] d x t m k = absurd m
hit-IsSubset identities (e ∷ candidates) d x t (inl same) k = rw (← same) (rw t (rw k refl))
hit-IsSubset identities (e ∷ candidates) d x t (inr m) k =
    elim (Bool-cases (meets e.identities identities)) [
      | inl u ↦ rw u (ground (arith, hit-IsSubset identities candidates d x t m k))
      | inr f ↦ rw f (hit-IsSubset identities candidates d x t m k)
    ]

abbrev others_of : List Text → List Candidate → List Candidate
others_of identities candidates = filter_by (λ c. not (meets c.identities identities)) candidates

module _ (identities : List Text) (merged : Candidate) where
  -- The candidates that meet the identities are within the merged one.
  abbrev pub Within : Candidate → Type 0
  Within d = meets d.identities identities ≡ true → IsSubset d.identities merged.identities

  IsHeld-split :
      (candidates : List Candidate) (s : List Text)
      → All Within candidates
      → IsHeld candidates s
      → IsSubset s merged.identities ⊎ IsHeld (others_of identities candidates) s
  unfolding filter_by
  IsHeld-split [] s w h = absurd h
  IsHeld-split (c ∷ candidates) s (w, v) (inl p) =
      elim (Bool-cases (meets c.identities identities)) [
        | inl t ↦ inl (λ x m. w t x (p x m))
        | inr f ↦ inr (rw f (inl p))
      ]
  IsHeld-split (c ∷ candidates) s (w, v) (inr h) = at_rest (IsHeld-split candidates s v h)
    where
      at_rest :
          IsSubset s merged.identities ⊎ IsHeld (others_of identities candidates) s
          → IsSubset s merged.identities ⊎ IsHeld (others_of identities (c ∷ candidates)) s
      at_rest (inl p) = inl p
      at_rest (inr k) = elim (Bool-cases (meets c.identities identities)) [
        | inl t ↦ inr (rw t k)
        | inr f ↦ inr (rw f (inr k))
      ]

  pub replace_first-IsHeld :
      (candidates : List Candidate) (s : List Text)
      → All Within candidates
      → IsHeld candidates s
      → IsHeld (replace_first identities merged candidates) s
  unfolding replace_first
  replace_first-IsHeld [] s w h = absurd h
  replace_first-IsHeld (c ∷ candidates) s (w, v) (inl p) =
      elim (Bool-cases (meets c.identities identities)) [
        | inl t ↦ rw t (inl (λ x m. w t x (p x m)))
        | inr f ↦ rw f (inl p)
      ]
  replace_first-IsHeld (c ∷ candidates) s (w, v) (inr h) =
      elim (Bool-cases (meets c.identities identities)) [
        | inl t ↦ rw t (IsHeld-split candidates s v h)
        | inr f ↦ rw f (inr (replace_first-IsHeld candidates s v h))
      ]

  pub replace_first-merged :
      (candidates duplicates : List Candidate) (primary : Candidate) (s : List Text)
      → hits identities candidates ≡ primary ∷ duplicates
      → IsSubset s merged.identities
      → IsHeld (replace_first identities merged candidates) s
  unfolding replace_first filter_by
  replace_first-merged [] duplicates primary s e p = absurd (cc e)
  replace_first-merged (c ∷ candidates) duplicates primary s e p =
      elim (Bool-cases (meets c.identities identities)) [
        | inl t ↦ rw t (inl p)
        | inr f ↦ rw f (inr (replace_first-merged candidates duplicates primary s (rw f at e) p))
      ]

-- A chain from the identity to one of the set.
pub record Anchor (sets : List (List Text)) (identities : List Text) (x : Text) : Type 0 where
  pub end : Text
  pub inside : mem end identities ≡ true
  pub chain : Chain sets x end

pub hit-Anchor :
    (sets : List (List Text)) (identities : List Text) (x : Text) (candidates : List Candidate)
    → All (IsConnected sets) candidates
    → in_any x (hits identities candidates) ≡ true
    → Anchor sets identities x
unfolding filter_by any
hit-Anchor sets identities x [] h m = absurd (cc m)
hit-Anchor sets identities x (c ∷ candidates) (p, h) m =
    elim (Bool-cases (meets c.identities identities)) [
      | inl t ↦
          at_here t (rw t at m) (Bool-cases (mem x c.identities))
            (hit-Anchor sets identities x candidates h)
      | inr f ↦ hit-Anchor sets identities x candidates h (rw f at m)
    ]
  where
    at_here :
        meets c.identities identities ≡ true
        → (mem x c.identities || in_any x (hits identities candidates)) ≡ true
        → (mem x c.identities ≡ true) ⊎ (mem x c.identities ≡ false)
        → (in_any x (hits identities candidates) ≡ true → Anchor sets identities x)
        → Anchor sets identities x
    at_here t k (inl here) later =
        let common = Common-meets c.identities identities t in
        record {
          end = common.shared;
          inside = common.right;
          chain = p x common.shared here common.left;
        }
    at_here t k (inr other) later = later (ground arith)

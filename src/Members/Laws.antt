-- ===== src/Members/Laws.antt =====
-- What `select_member` and `unique_members` of redfish_sdk/managers/system_resources.py promise.
use redfish_python_sdk.Prelude.{
  ℕ, suc, ◌≤◌, length, All, ◌≡◌, refl, ◌⊎◌, inl, inr, Bool, true, false, not, ◌&&◌, Option, none,
  some, List, [], ◌∷◌, Text, text_eq_iff, text_eq_self, filter_by, mem, IsDistinct, is_empty,
  if◌then◌else◌, arith, Bool-cases,
}
use redfish_python_sdk.Exceptions.{not_found, validation_error, multiple_match}
use redfish_python_sdk.Result.{Result, ok, err}
use redfish_python_sdk.HttpClient.Session.{truthy, or_else}
use redfish_python_sdk.Members.{is_match, only, select_member, unique_from, unique_members}

module _ {ℓ} {R : Type ℓ} (id odata_id : R → Option Text) where
  -- The identities of the resources that have one.
  unfoldable pub uris_of : List R → List Text
  uris_of [] = []
  uris_of (resource ∷ resources) =
      let rest = uris_of resources in
      if truthy (odata_id resource) then or_else (odata_id resource) [] ∷ rest else rest

  unset_is_empty : (o : Option Text) → truthy o ≡ false → is_empty (or_else o []) ≡ true
  unset_is_empty none h = refl
  unset_is_empty (some s) h = ground arith

  mem-unique_from :
      (x : Text) (seen : List Text) (resources : List R)
      → is_empty x ≡ false
      → mem x (uris_of (unique_from id odata_id seen resources))
        ≡ (mem x (uris_of resources) && not (mem x seen))
  unfolding unique_from uris_of mem
  mem-unique_from x seen [] h = refl
  mem-unique_from x seen (resource ∷ resources) h = ground (
    arith,
    mem-unique_from x seen resources h,
    mem-unique_from x (or_else (odata_id resource) [] ∷ seen) resources h,
    text_eq_iff x (or_else (odata_id resource) []),
    unset_is_empty (odata_id resource),
  )

  pub unique_from-IsDistinct :
      (seen : List Text) (resources : List R)
      → IsDistinct (uris_of (unique_from id odata_id seen resources))
  unfolding unique_from uris_of mem
  unique_from-IsDistinct seen [] = tt
  unique_from-IsDistinct seen (resource ∷ resources) =
      head (truthy (odata_id resource)) refl (mem (or_else (odata_id resource) []) seen)
        (unique_from-IsDistinct seen resources)
        (unique_from-IsDistinct (or_else (odata_id resource) [] ∷ seen) resources)
    where
      uri : Text
      uri = or_else (odata_id resource) []

      filled : (o : Option Text) → truthy o ≡ true → is_empty (or_else o []) ≡ false
      filled none h = cc
      filled (some s) h = ground arith

      fresh :
          truthy (odata_id resource) ≡ true
          → mem uri (uris_of (unique_from id odata_id (uri ∷ seen) resources)) ≡ false
      fresh t = ground (
        arith,
        mem-unique_from uri (uri ∷ seen) resources (filled (odata_id resource) t),
        text_eq_self uri,
      )

      head :
          (t : Bool)
          → truthy (odata_id resource) ≡ t
          → (m : Bool) → IsDistinct (uris_of (unique_from id odata_id seen resources))
          → IsDistinct (uris_of (unique_from id odata_id (uri ∷ seen) resources))
          → IsDistinct (
              uris_of (
                if t && m
                then unique_from id odata_id seen resources
                else resource ∷ unique_from id odata_id (uri ∷ seen) resources))
      head true q true skipped rest = skipped
      head true q false skipped rest = rw q (fresh q, rest)
      head false q m skipped rest = rw q rest

  -- `unique_members` keeps no identity twice and loses none: an identity stands in the result
  -- exactly if it stands in the resources.
  pub unique_members_lem :
      (resources : List R) (x : Text)
      → is_empty x ≡ false
      → IsDistinct (uris_of (unique_members id odata_id resources))
        × (mem x (uris_of (unique_members id odata_id resources)) ≡ mem x (uris_of resources))
  unfolding unique_members mem
  unique_members_lem resources x h =
      (unique_from-IsDistinct [] resources, ground (arith, mem-unique_from x [] resources h))

  -- How many members pass a test.
  unfoldable pub count : (R → Bool) → List R → ℕ
  count p [] = 0
  count p (x ∷ xs) = let n = count p xs in if p x then suc n else n

  abbrev pub Selected : (R → Bool) → ℕ → Result R → Type ℓ
  Selected p n r =
      ((n ≡ 0) × (r ≡ err not_found))
      ⊎ (((n ≡ 1) × (m : R) × (p m ≡ true) × (r ≡ ok m))
          ⊎ ((2 ≤ n) × (r ≡ err (validation_error multiple_match))))

  filter_by-count : (p : R → Bool) (xs : List R) → length (filter_by p xs) ≡ count p xs
  unfolding filter_by count
  filter_by-count p [] = refl
  filter_by-count p (x ∷ xs) = ground (arith, filter_by-count p xs)

  filter_by-All : (p : R → Bool) (xs : List R) → All (λ x. p x ≡ true) (filter_by p xs)
  unfolding filter_by
  filter_by-All p [] = tt
  filter_by-All p (x ∷ xs) = elim (Bool-cases (p x)) [
    | inl t ↦ rw t (t, filter_by-All p xs)
    | inr f ↦ rw f (filter_by-All p xs)
  ]

  only-Selected :
      (p : R → Bool) (xs : List R) (n : ℕ)
      → All (λ x. p x ≡ true) xs
      → length xs ≡ n
      → Selected p n (only id odata_id xs)
  only-Selected p [] n a e = inl (omega arith, refl)
  only-Selected p (x ∷ []) n (t, _) e = inr (inl (omega arith, x, t, refl))
  only-Selected p (x ∷ y ∷ xs) n a e = inr (inr (omega arith, refl))

  -- `select_member` with an identifier: the one member that has it as its Id, its `@odata.id` or
  -- one of the aliases, where exactly one does; not found where none does, and a validation error
  -- where several do.
  pub select_member_lem :
      (resources : List R) (identifier : Text) (aliases : List (R → Option Text))
      → Selected
          (is_match id odata_id aliases identifier)
          (count (is_match id odata_id aliases identifier) resources)
          (select_member id odata_id resources (some identifier) aliases)
  unfolding select_member
  select_member_lem resources identifier aliases =
      only-Selected (is_match id odata_id aliases identifier) _ _
        (filter_by-All (is_match id odata_id aliases identifier) resources)
        (filter_by-count (is_match id odata_id aliases identifier) resources)

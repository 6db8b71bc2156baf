-- ===== src/Collections/Bounds.antt =====
-- The loop of `_get_collection` of redfish_sdk/client.py ends.
use redfish_python_sdk.Prelude.{
  ℕ, zero, suc, ◌+◌, ◌<◌, ◌≡◌, ◌≢◌, refl, Bool, true, false, Option, none, some, List, ◌∷◌, Text,
  str, mem, IsDistinct, IsIn, All, length, length-le-of_IsIn, arith, Bool-cases, inl, inr,
}
use redfish_python_sdk.Exceptions.{Exc, validation_error, paging_loop}
use redfish_python_sdk.Result.{ok}
use redfish_python_sdk.Exec.{Run, returned, raised, lift}
use redfish_python_sdk.Exec.Ends.{Ends, ends_returned, ends_raised, Ends-lift, Ends-bind}
use redfish_python_sdk.Collections.{
  page, Transport, Models, Walk, handle_failure, visit_page, go_on, walk, get_collection,
  no_members, collection_path,
}
use redfish_python_sdk.Collections.Invariants.{
  IsRoundInvariant, Anything, Leads, KeptNext, visit_page-Kept,
}

module _ {ℓ κ} {S : Type ℓ} {M : Type κ} (transport : Transport S M) (models : Models M)
    (base_url : Text) (strict : Bool) (pages : List Text) where
  abbrev Visited : List Text → Walk M → Type 0
  Visited visited w = w.visited_pages ≡ visited

  Visited-round : (visited : List Text) → IsRoundInvariant transport models strict (Visited visited)
  Visited-round visited = record {
    failing = λ stage resource e w f h. h;
    missing = λ path e w f h. h;
    keeping = λ path answer m w before after q i h. h;
  }

  abbrev Finished : Option (Walk M) → S → Type 0
  Finished none _ = ⊥
  Finished (some w) _ = Unit

  -- The paths that a round leads to are among the pages.
  abbrev pub LeadsToPages : Type ℓ
  LeadsToPages = Leads transport models base_url (IsIn pages)

  abbrev Again : ℕ → Type (ℓ ⊔ κ)
  Again fuel =
      (path : Text) (w : Walk M) (s : S)
      → IsDistinct w.visited_pages
      → All (IsIn pages) w.visited_pages
      → IsIn pages path
      → length pages < fuel + length w.visited_pages
      → Ends Finished Anything (walk transport models base_url strict fuel path false w s)

  looped :
      (b : Bool) (path : Text) (e : Exc) (w : Walk M) (s : S)
      → Ends (λ _ _. Unit) Anything (lift (handle_failure b page path e w) s)
  unfolding handle_failure
  looped true path e w s = ends_raised tt
  looped false path e w s = ends_returned tt

  onward :
      (fuel : ℕ) (visited : List Text)
      → Again fuel
      → IsDistinct visited
      → All (IsIn pages) visited
      → length pages < fuel + length visited
      → (next : Option Text × Walk M) (s : S)
      → KeptNext transport models base_url strict (Visited-round visited) (IsIn pages) next s
      → Ends Finished Anything (
          go_on transport models base_url strict
            (λ path w. walk transport models base_url strict fuel path false w)
            next
            s)
  onward fuel visited again d a lt (none, w) s h = ends_returned tt
  onward fuel visited again d a lt (some path, w) s (n, e) =
      again path w s (rw e d) (rw e a) n (rw e lt)

  walk-Ends :
      (fuel : ℕ) (path : Text) (first_page : Bool) (w : Walk M) (s : S)
      → LeadsToPages
      → IsDistinct w.visited_pages
      → All (IsIn pages) w.visited_pages
      → IsIn pages path
      → length pages < fuel + length w.visited_pages
      → Ends Finished Anything (walk transport models base_url strict fuel path first_page w s)
  unfolding walk
  walk-Ends zero path first_page w s leads d a n lt =
      absurd (omega (arith, length-le-of_IsIn w.visited_pages pages d a))
  walk-Ends (suc fuel) path first_page w s leads d a n lt =
      elim (Bool-cases (mem path w.visited_pages)) [
        | inl t ↦ rw t (
            Ends-bind (lift (handle_failure strict page path (validation_error paging_loop) w)) _ s
              (looped strict path (validation_error paging_loop) w s) (λ w s h. ends_returned tt))
        | inr f ↦ rw f (
            Ends-bind
              (visit_page transport models base_url strict path first_page
                (record w { visited_pages = path ∷ w.visited_pages }))
              _ s
              (visit_page-Kept transport models base_url strict
                (Visited-round (path ∷ w.visited_pages)) (IsIn pages) path first_page
                (record w { visited_pages = path ∷ w.visited_pages }) s leads refl)
              (onward fuel (path ∷ w.visited_pages)
                (λ path w s d a n lt. walk-Ends fuel path false w s leads d a n lt) (f, d) (n, a)
                (omega arith)))
      ]

  not_exhausted :
      (r : Run S (Option (Walk M))) (s' : S) → Ends Finished Anything r → r ≢ returned none s'
  not_exhausted (returned none s) s' (ends_returned h) = absurd h
  not_exhausted (returned (some w) s) s' (ends_returned h) = λ e. absurd (cc e)
  not_exhausted (raised x s) s' h = λ e. absurd (cc e)

  -- Where the collection's own path is one of finitely many pages, and every next link that the
  -- transport serves leads to one of them, fuel for one round more than there are pages is enough:
  -- the loop ends, whatever cycles the links make.
  pub get_collection_ends :
      (odata_id : Text) (s s' : S)
      → LeadsToPages
      → ((path : Text) → collection_path base_url odata_id (str "/") ≡ ok path → IsIn pages path)
      → get_collection transport models base_url strict (suc (length pages)) odata_id s
        ≢ returned none s'
  unfolding get_collection
  get_collection_ends odata_id s s' leads start = not_exhausted _ s' (
      Ends-bind (lift (collection_path base_url odata_id (str "/"))) _ s first (λ path s n.
        walk-Ends (suc (length pages)) path true no_members s leads tt tt n (omega arith)))
    where
      first :
          Ends
            (λ path _. IsIn pages path)
            Anything
            (lift (collection_path base_url odata_id (str "/")) s)
      first = Ends-lift (collection_path base_url odata_id (str "/")) s start tt

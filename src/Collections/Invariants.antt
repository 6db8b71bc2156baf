-- ===== src/Collections/Invariants.antt =====
-- Invariants of one round of `_get_collection` of redfish_sdk/client.py.
use redfish_python_sdk.Prelude.{
  ◌≡◌, refl, Bool, true, false, not, ◌&&◌, Option, none, some, List, [], ◌∷◌, ◌++◌, Text, is_empty,
  mem, if◌then◌else◌,
}
use redfish_python_sdk.Exceptions.{Exc, is_redfish}
use redfish_python_sdk.Result.{Result, ok, err}
use redfish_python_sdk.Exec.{Exec, Run, returned, raised, pure, lift, ◌>>=◌}
use redfish_python_sdk.Exec.Ends.{Ends, ends_returned, ends_raised, Ends-if, Ends-bind}
use redfish_python_sdk.Json.{Json}
use redfish_python_sdk.Collections.{
  Stage, page, member, Transport, Models, Page, Walk, handle_failure, on_redfish_error, keep_member,
  expand_member, visit_member, visit_members, fetch_page, next_page, visit_page, visit_found,
  broken, page_failed, collection_path, require_resource_identity,
}

abbrev pub failed {ℓ} : {M : Type ℓ} → Stage → Text → Exc → Walk M → Walk M
failed stage resource e w = record w {
  failures = w.failures ++ (record { stage = stage; resource = resource; error = e } ∷ []);
}

abbrev pub entered {ℓ} : {M : Type ℓ} → Text → Walk M → Walk M
entered path w = record w { visited_members = path ∷ w.visited_members }

-- A predicate that no step of a round breaks; a failure is only noted in best-effort mode, and a
-- member only kept where the transport gave one with an identity.
pub record IsRoundInvariant {ℓ κ} {S : Type ℓ} {M : Type κ} (transport : Transport S M)
    (models : Models M) (strict : Bool) (P : Walk M → Type 0) : Type (ℓ ⊔ κ) where
  pub failing :
      (stage : Stage) (resource : Text) (e : Exc) (w : Walk M)
      → strict ≡ false
      → P w
      → P (failed stage resource e w)
  pub missing :
      (path : Text) (e : Exc) (w : Walk M)
      → strict ≡ false
      → P w
      → P (failed member path e (entered path w))
  pub keeping :
      (path : Text) (answer m : M) (w : Walk M) (before after : S)
      → transport.get path before ≡ returned answer after
      → require_resource_identity models answer path ≡ ok m
      → P w
      → P (record (entered path w) { expanded_members = w.expanded_members ++ (m ∷ []) })

abbrev pub Anything {ℓ} : {S : Type ℓ} → S → Type 0
Anything _ = Unit

module _ {ℓ κ} {S : Type ℓ} {M : Type κ} (transport : Transport S M) (models : Models M)
    (base_url : Text) (Next : Text → Type 0) where
  -- Every next link of a page that the transport serves leads to a path of that kind.
  abbrev pub Leads : Type ℓ
  Leads =
      (page_path : Text) (s s' : S) (raw : Json) (found : Page) (path : Text)
      → transport.get_raw page_path s ≡ returned raw s'
      → models.read_page page_path raw ≡ ok found
      → collection_path base_url found.next_link page_path ≡ ok path
      → Next path

module _ {ℓ κ} {S : Type ℓ} {M : Type κ} (transport : Transport S M) (models : Models M)
    (base_url : Text) (strict : Bool) {P : Walk M → Type 0}
    (keeps : IsRoundInvariant transport models strict P) (Next : Text → Type 0) where
  abbrev Kept : Walk M → S → Type 0
  Kept w _ = P w

  abbrev pub KeptNext : Option Text × Walk M → S → Type 0
  KeptNext (none, w) _ = P w
  KeptNext (some path, w) _ = Next path × P w

  handle_failure-Kept :
      (b : Bool) (stage : Stage) (resource : Text) (e : Exc) (w : Walk M) (s : S)
      → (b ≡ false → P (failed stage resource e w))
      → Ends Kept Anything (lift (handle_failure b stage resource e w) s)
  unfolding handle_failure
  handle_failure-Kept true stage resource e w s h = ends_raised tt
  handle_failure-Kept false stage resource e w s h = ends_returned (h refl)

  on_redfish_error-Kept :
      (stage : Stage) (resource : Text) (e : Exc) (w : Walk M) (s : S)
      → (strict ≡ false → P (failed stage resource e w))
      → Ends Kept Anything (on_redfish_error transport models base_url strict stage resource w e s)
  unfolding on_redfish_error
  on_redfish_error-Kept stage resource e w s h =
      Ends-if (is_redfish e) _ _ (λ _. handle_failure-Kept strict stage resource e w s h)
        (λ _. ends_raised tt)

  keep_member-Kept :
      (path : Text) (w : Walk M) (r : Result M) (s : S)
      → ((m : M)
          → r ≡ ok m
          → P (record (entered path w) { expanded_members = w.expanded_members ++ (m ∷ []) }))
      → P w
      → Ends Kept Anything (keep_member transport models base_url strict path (entered path w) r s)
  keep_member-Kept path w (ok m) s k h = ends_returned (k m refl)
  keep_member-Kept path w (err e) s k h =
      on_redfish_error-Kept member path e (entered path w) s (λ f. keeps.missing path e w f h)

  expand_member-Kept :
      (path : Text) (w : Walk M) (s : S)
      → P w
      → Ends Kept Anything (expand_member transport models base_url strict path (entered path w) s)
  unfolding expand_member
  expand_member-Kept path w s h = go (transport.get path s) refl
    where
      go :
          (r : Run S M)
          → transport.get path s ≡ r
          → Ends Kept Anything (elim r [
            | returned m s' ↦
                keep_member transport models base_url strict path
                  (entered path w)
                  (require_resource_identity models m path)
                  s'
            | raised e s' ↦
                on_redfish_error transport models base_url strict member path (entered path w) e s'
          ])
      go (returned m s') q =
          keep_member-Kept path w (require_resource_identity models m path) s'
            (λ m' i. keeps.keeping path m m' w s s' q i h) h
      go (raised e s') q =
          on_redfish_error-Kept member path e (entered path w) s' (λ f. keeps.missing path e w f h)

  visit_member-Kept :
      (page_path link : Text) (w : Walk M) (s : S)
      → P w
      → Ends Kept Anything (visit_member transport models base_url strict page_path link w s)
  unfolding visit_member
  visit_member-Kept page_path link w s h =
      Ends-if (is_empty link) _ _ (λ _. ends_returned h)
        (λ _. go (collection_path base_url link page_path))
    where
      go :
          (r : Result Text)
          → Ends Kept Anything (elim r [
            | err e ↦ on_redfish_error transport models base_url strict member link w e s
            | ok path ↦
                if mem path w.visited_members
                then returned w s
                else expand_member transport models base_url strict path (entered path w) s
          ])
      go (err e) = on_redfish_error-Kept member link e w s (λ f. keeps.failing member link e w f h)
      go (ok path) =
          Ends-if (mem path w.visited_members) _ _ (λ _. ends_returned h)
            (λ _. expand_member-Kept path w s h)

  visit_members-Kept :
      (page_path : Text) (links : List Text) (w : Walk M) (s : S)
      → P w
      → Ends Kept Anything (visit_members transport models base_url strict page_path links w s)
  unfolding visit_members
  visit_members-Kept page_path [] w s h = ends_returned h
  visit_members-Kept page_path (link ∷ links) w s h =
      Ends-bind (visit_member transport models base_url strict page_path link w) _ s
        (visit_member-Kept page_path link w s h) (λ w s h. visit_members-Kept page_path links w s h)

  broken-Kept :
      {A : Type 0} (R : Option A × Walk M → S → Type 0) (m : Exec S (Walk M)) (s : S)
      → ((w : Walk M) (s : S) → P w → R (none, w) s)
      → Ends Kept Anything (m s)
      → Ends R Anything (broken m s)
  broken-Kept R m s weaker h =
      Ends-bind m (λ w. pure (none, w)) s h (λ w s k. ends_returned (weaker w s k))

  abbrev Stopped : Option Json × Walk M → S → Type 0
  Stopped (none, w) _ = P w
  Stopped (some raw, w) _ = ⊥

  visit_found-Stopped :
      (path : Text) (found : Option Json × Walk M) (s : S)
      → Stopped found s
      → Ends KeptNext Anything (visit_found transport models base_url strict path found s)
  visit_found-Stopped path (none, w) s h = ends_returned h
  visit_found-Stopped path (some raw, w) s h = absurd h

  next_page-Kept :
      (path link : Text) (w : Walk M) (s : S)
      → ((next : Text) → collection_path base_url link path ≡ ok next → Next next)
      → P w
      → Ends KeptNext Anything (next_page transport models base_url strict path link w s)
  unfolding next_page
  next_page-Kept path link w s leads h =
      Ends-if (is_empty link) _ _ (λ _. ends_returned h)
        (λ _. go (collection_path base_url link path) refl)
    where
      go :
          (r : Result Text)
          → collection_path base_url link path ≡ r
          → Ends KeptNext Anything (elim r [
            | ok next ↦ returned (some next, w) s
            | err e ↦ broken (on_redfish_error transport models base_url strict page link w e) s
          ])
      go (ok next) q = ends_returned (leads next q, h)
      go (err e) q =
          broken-Kept KeptNext (on_redfish_error transport models base_url strict page link w e) s
            (λ w s h. h)
            (on_redfish_error-Kept page link e w s (λ f. keeps.failing page link e w f h))

  visit_found-Kept :
      (path : Text) (raw : Json) (w : Walk M) (s : S)
      → ((found : Page) (next : Text)
          → models.read_page path raw ≡ ok found
          → collection_path base_url found.next_link path ≡ ok next
          → Next next)
      → P w
      → Ends KeptNext Anything (visit_found transport models base_url strict path (some raw, w) s)
  visit_found-Kept path raw w s leads h = go (models.read_page path raw) refl
    where
      after : Page → Exec S (Option Text × Walk M)
      after found s = elim (visit_members transport models base_url strict path found.members w s) [
        | returned w s ↦ next_page transport models base_url strict path found.next_link w s
        | raised e s ↦ raised e s
      ]

      go :
          (r : Result Page)
          → models.read_page path raw ≡ r
          → Ends KeptNext Anything
              (elim (lift r s) [ returned found s ↦ after found s | raised e s ↦ raised e s ])
      go (err e) q = ends_raised tt
      go (ok found) q =
          Ends-bind (visit_members transport models base_url strict path found.members w) _ s
            (visit_members-Kept path found.members w s h)
            (λ w s h. next_page-Kept path found.next_link w s (λ next. leads found next q) h)

  page_failed-Kept :
      (path : Text) (first_page : Bool) (w : Walk M) (e : Exc) (s : S)
      → P w
      → Ends Stopped Anything (page_failed transport models base_url strict path first_page w e s)
  page_failed-Kept path first_page w e s h =
      Ends-if (first_page && not strict) _ _ (λ _. ends_raised tt)
        (λ _.
          broken-Kept Stopped (on_redfish_error transport models base_url strict page path w e) s
            (λ w s h. h)
            (on_redfish_error-Kept page path e w s (λ f. keeps.failing page path e w f h)))

  -- A round keeps the predicate, and leads where the links of the served pages lead.
  pub visit_page-Kept :
      (path : Text) (first_page : Bool) (w : Walk M) (s : S)
      → Leads transport models base_url Next
      → P w
      → Ends KeptNext Anything (visit_page transport models base_url strict path first_page w s)
  unfolding visit_page fetch_page
  visit_page-Kept path first_page w s leads h = go (transport.get_raw path s) refl
    where
      fetched : Run S Json → Run S (Option Json × Walk M)
      fetched r = elim r [
        | returned raw s' ↦ returned (some raw, w) s'
        | raised e s' ↦ page_failed transport models base_url strict path first_page w e s'
      ]

      go :
          (r : Run S Json)
          → transport.get_raw path s ≡ r
          → Ends KeptNext Anything
              (((λ _. fetched r) >>= visit_found transport models base_url strict path) s)
      go (returned raw s') q =
          visit_found-Kept path raw w s' (λ found next. leads path s s' raw found next q) h
      go (raised e s') q =
          Ends-bind (page_failed transport models base_url strict path first_page w e)
            (visit_found transport models base_url strict path) s'
            (page_failed-Kept path first_page w e s' h) (visit_found-Stopped path)

-- ===== src/Collections/Guarded.antt =====
-- `_get_collection` of redfish_sdk/client.py asks only for what the links of the configured origin
-- name.
use redfish_python_sdk.Prelude.{
  ℕ, zero, suc, ◌≡◌, refl, inl, inr, Bool, true, false, not, ◌&&◌, Option, none, some, List, [],
  ◌∷◌, Text, str, is_empty, mem, if◌then◌else◌, IsMember,
}
use redfish_python_sdk.Exceptions.{Exc, is_redfish, validation_error, paging_loop}
use redfish_python_sdk.Result.{Result, ok, err}
use redfish_python_sdk.Exec.{Run, returned, raised, end_state}
use redfish_python_sdk.Exec.Keeps.{Keeps, Keeps-bind, Keeps-lift, Keeps-pure, if-end_state}
use redfish_python_sdk.Exec.Ends.{Ends, ends_returned, ends_raised, Ends-if, Ends-bind}
use redfish_python_sdk.Exec.Answers.{HasGiven, kept-Ends, Ends-Keeps, lift-bind}
use redfish_python_sdk.Json.{Json}
use redfish_python_sdk.Collections.{
  Stage, page, member, Transport, Models, Page, Walk, handle_failure, on_redfish_error, keep_member,
  expand_member, visit_member, visit_members, page_failed, fetch_page, next_page, visit_found,
  visit_page, go_on, walk, broken, get_collection, no_members, collection_path,
  require_resource_identity,
}
use redfish_python_sdk.Collections.Followed.{
  IsServed, IsMemberPath, IsPagePath, IsFollowing, collection_path-IsOwnLink,
}

module _ {ℓ} {S : Type ℓ} {M : Type 0} {P : S → Type ℓ} (transport : Transport S M)
    (models : Models M) (base_url : Text) (strict : Bool) (odata_id : Text)
    (following : IsFollowing transport models base_url odata_id P) where
  on_redfish_error-Keeps :
      (stage : Stage) (resource : Text) (w : Walk M) (e : Exc)
      → Keeps P (on_redfish_error transport models base_url strict stage resource w e)
  unfolding on_redfish_error
  on_redfish_error-Keeps stage resource w e = record {
    at = λ s h.
        if-end_state P (is_redfish e) _ _
          ((Keeps-lift {P = P} (λ _. handle_failure strict stage resource e w)).at s h) h;
  }

  keep_member-Keeps :
      (path : Text) (w : Walk M) (r : Result M)
      → Keeps P (keep_member transport models base_url strict path w r)
  keep_member-Keeps path w (ok m) = Keeps-pure _
  keep_member-Keeps path w (err e) = on_redfish_error-Keeps member path w e

  expand_member-Keeps :
      (path : Text) (w : Walk M)
      → IsMemberPath transport models base_url path
      → Keeps P (expand_member transport models base_url strict path w)
  unfolding expand_member
  expand_member-Keeps path w linked = record {
    at = λ s h. go (transport.get path s) ((following.members path linked).at s h);
  }
    where
      go :
          (r : Run S M)
          → P (end_state r)
          → P (
              end_state (elim r [
                | returned m s' ↦
                    keep_member transport models base_url strict path w
                      (require_resource_identity models m path)
                      s'
                | raised e s' ↦ on_redfish_error transport models base_url strict member path w e s'
              ]))
      go (returned m s') h =
          (keep_member-Keeps path w (require_resource_identity models m path)).at s' h
      go (raised e s') h = (on_redfish_error-Keeps member path w e).at s' h

  module _ (page_path : Text) (found : Page)
      (served : IsServed transport models base_url page_path found) where
    visit_member-Keeps :
        (link : Text) (w : Walk M)
        → IsMember link found.members
        → Keeps P (visit_member transport models base_url strict page_path link w)
    unfolding visit_member
    visit_member-Keeps link w listed = record {
      at = λ s h.
          if-end_state P (is_empty link) _ _ h
            (go s h (collection_path base_url link page_path) refl);
    }
      where
        go :
            (s : S)
            → P s
            → (r : Result Text) → collection_path base_url link page_path ≡ r
            → P (
                end_state (elim r [
                  | err e ↦ on_redfish_error transport models base_url strict member link w e s
                  | ok path ↦
                      if mem path w.visited_members
                      then returned w s
                      else expand_member transport models base_url strict path
                          (record w { visited_members = path ∷ w.visited_members })
                          s
                ]))
        go s h (err e) q = (on_redfish_error-Keeps member link w e).at s h
        go s h (ok path) q = if-end_state P (mem path w.visited_members) _ _ h (
            (expand_member-Keeps path _ (record {
              page_path = page_path;
              found = found;
              served = served;
              link = link;
              listed = listed;
              own_link = collection_path-IsOwnLink base_url link page_path path q;
            })).at
              s h)

    visit_members-Keeps :
        (links : List Text) (w : Walk M)
        → ((link : Text) → IsMember link links → IsMember link found.members)
        → Keeps P (visit_members transport models base_url strict page_path links w)
    unfolding visit_members
    visit_members-Keeps [] w within = Keeps-pure w
    visit_members-Keeps (link ∷ links) w within =
        Keeps-bind (visit_member transport models base_url strict page_path link w) _
          (visit_member-Keeps link w (within link (inl refl)))
          (λ w. visit_members-Keeps links w (λ l m. within l (inr m)))

  abbrev OwnNext : Option Text × Walk M → S → Type ℓ
  OwnNext (none, w) s = P s
  OwnNext (some path, w) s = IsPagePath transport models base_url odata_id path × P s

  abbrev Fetched : Text → Option Json × Walk M → S → Type ℓ
  Fetched page_path (none, w) s = P s
  Fetched page_path (some raw, w) s = HasGiven (transport.get_raw page_path) raw × P s

  broken-Ends :
      {A : Type 0} (R : Option A × Walk M → S → Type ℓ) (stage : Stage) (resource : Text)
      (w : Walk M) (e : Exc) (s : S)
      → ((w : Walk M) (s : S) → P s → R (none, w) s)
      → P s
      → Ends R P (broken (on_redfish_error transport models base_url strict stage resource w e) s)
  broken-Ends R stage resource w e s weaker h =
      Ends-bind (on_redfish_error transport models base_url strict stage resource w e) _ s
        (kept-Ends P (on_redfish_error transport models base_url strict stage resource w e) s
          (on_redfish_error-Keeps stage resource w e) h)
        (λ w s k. ends_returned (weaker w s k))

  fetch_page-Ends :
      (path : Text) (first_page : Bool) (w : Walk M) (s : S)
      → IsPagePath transport models base_url odata_id path
      → P s
      → Ends (Fetched path) P (fetch_page transport models base_url strict path first_page w s)
  unfolding fetch_page
  fetch_page-Ends path first_page w s own h =
      go (transport.get_raw path s) refl ((following.pages path own).at s h)
    where
      go :
          (r : Run S Json)
          → transport.get_raw path s ≡ r
          → P (end_state r)
          → Ends (Fetched path) P (elim r [
            | returned raw s' ↦ returned (some raw, w) s'
            | raised e s' ↦ page_failed transport models base_url strict path first_page w e s'
          ])
      go (returned raw s') q h = ends_returned (record { before = s; after = s'; given = q }, h)
      go (raised e s') q h =
          Ends-if (first_page && not strict) _ _ (λ _. ends_raised h)
            (λ _. broken-Ends (Fetched path) page path w e s' (λ w s h. h) h)

  next_page-Ends :
      (path : Text) (found : Page) (w : Walk M) (s : S)
      → IsServed transport models base_url path found
      → P s
      → Ends OwnNext P (next_page transport models base_url strict path found.next_link w s)
  unfolding next_page
  next_page-Ends path found w s served h =
      Ends-if (is_empty found.next_link) _ _ (λ _. ends_returned h)
        (λ _. go (collection_path base_url found.next_link path) refl)
    where
      go :
          (r : Result Text)
          → collection_path base_url found.next_link path ≡ r
          → Ends OwnNext P (elim r [
            | ok next ↦ returned (some next, w) s
            | err e ↦
                broken
                  (on_redfish_error transport models base_url strict page found.next_link w e)
                  s
          ])
      go (ok next) q = ends_returned (
        inr (record {
          page_path = path;
          found = found;
          served = served;
          own_link = collection_path-IsOwnLink base_url found.next_link path next q;
        }),
        h,
      )
      go (err e) q = broken-Ends OwnNext page found.next_link w e s (λ w s h. h) h

  visit_found-Ends :
      (path : Text) (fetched : Option Json × Walk M) (s : S)
      → Fetched path fetched s
      → Ends OwnNext P (visit_found transport models base_url strict path fetched s)
  visit_found-Ends path (none, w) s h = ends_returned h
  visit_found-Ends path (some raw, w) s (given, h) =
      lift-bind P (models.read_page path raw) _ s h (λ found q.
        let served : IsServed transport models base_url path found = record {
          raw = raw;
          was_given = given;
          was_read = q;
        } in
        Ends-bind (visit_members transport models base_url strict path found.members w) _ s
          (kept-Ends P (visit_members transport models base_url strict path found.members w) s
            (visit_members-Keeps path found served found.members w (λ l m. m)) h)
          (λ w s h. next_page-Ends path found w s served h))

  onward :
      (fuel : ℕ)
      → ((path : Text) (w : Walk M) (s : S)
          → IsPagePath transport models base_url odata_id path
          → P s
          → Ends (λ _ s. P s) P (walk transport models base_url strict fuel path false w s))
      → (next : Option Text × Walk M) (s : S) → OwnNext next s
      → Ends
          (λ _ s. P s)
          P
          (go_on transport models base_url strict
            (λ path w. walk transport models base_url strict fuel path false w)
            next
            s)
  onward fuel again (none, w) s h = ends_returned h
  onward fuel again (some path, w) s (own, h) = again path w s own h

  walk-Ends :
      (fuel : ℕ) (path : Text) (first_page : Bool) (w : Walk M) (s : S)
      → IsPagePath transport models base_url odata_id path
      → P s
      → Ends (λ _ s. P s) P (walk transport models base_url strict fuel path first_page w s)
  unfolding walk visit_page
  walk-Ends zero path first_page w s own h = ends_returned h
  walk-Ends (suc fuel) path first_page w s own h =
      Ends-if (mem path w.visited_pages) _ _
        (λ _.
          lift-bind P (handle_failure strict page path (validation_error paging_loop) w) _ s h
            (λ w q. ends_returned h))
        (λ _.
          Ends-bind
            (visit_page transport models base_url strict path first_page
              (record w { visited_pages = path ∷ w.visited_pages }))
            _ s
            (Ends-bind
              (fetch_page transport models base_url strict path first_page
                (record w { visited_pages = path ∷ w.visited_pages }))
              _ s (fetch_page-Ends path first_page _ s own h) (visit_found-Ends path))
            (onward fuel (λ path w s own h. walk-Ends fuel path false w s own h)))

  -- Reading a collection keeps every predicate of the state that survives two kinds of requests:
  -- for a page, whose path comes from the collection's own link or from the next link of a page
  -- that was served; and for a member, whose path comes from a link that a served page lists. Each
  -- of these links, joined to the URL of its page, is a target of the configured origin, and the
  -- path is its path and query. So nothing else is asked for, whether the call returns or raises.
  pub get_collection-Keeps :
      (fuel : ℕ) → Keeps P (get_collection transport models base_url strict fuel odata_id)
  unfolding get_collection
  get_collection-Keeps fuel = Ends-Keeps P _ (λ s h.
      lift-bind P (collection_path base_url odata_id (str "/")) _ s h (λ path q.
        walk-Ends fuel path true no_members s
          (inl (collection_path-IsOwnLink base_url odata_id (str "/") path q)) h))

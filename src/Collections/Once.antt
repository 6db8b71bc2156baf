-- ===== src/Collections/Once.antt =====
-- `_get_collection` of redfish_sdk/client.py asks for no page and for no member twice.
use redfish_python_sdk.Prelude.{
  ℕ, zero, suc, refl, Bool, true, false, not, ◌&&◌, Option, none, some, [], ◌∷◌, Text, str,
  is_empty, mem, if◌then◌else◌, Bool-cases, inl, inr,
}
use redfish_python_sdk.Exceptions.{validation_error, paging_loop}
use redfish_python_sdk.Result.{Result, ok, err}
use redfish_python_sdk.Exec.{Exec, Run, returned, raised, pure, lift, end_state}
use redfish_python_sdk.Exec.Ends.{Ends, ends_returned, ends_raised, Ends-lift, Ends-if, Ends-bind}
use redfish_python_sdk.Json.{Json}
use redfish_python_sdk.Collections.{
  page, Transport, Models, Walk, handle_failure, on_redfish_error, visit_members, fetch_page,
  next_page, visit_page, visit_found, broken, go_on, walk, get_collection, no_members,
  collection_path,
}
use redfish_python_sdk.Collections.Logged.{
  Log, noted, logging, IsLogged, AsksOnce, Good, AskedOnce, GoodNext, GoodEnd, Good-AskedOnce,
  handle_failure-Ends, on_redfish_error-Ends, visit_members-Ends,
}

module _ {ℓ κ} {S : Type ℓ} {M : Type κ} (transport : Transport S M) (models : Models M)
    (base_url : Text) where
  module _ (strict : Bool) where
    broken-Ends :
        {A : Type 0} (m : Exec (S × Log) (Walk M)) (s : S × Log)
        → Ends Good AskedOnce (m s)
        → Ends (GoodNext {A = Option A}) AskedOnce (broken m s)
    broken-Ends m s h = Ends-bind m (λ w. pure (none, w)) s h (λ w s k. ends_returned k)

    fetch_page-Ends :
        (path : Text) (first_page : Bool) (w : Walk M) (s : S) (log : Log)
        → IsLogged w (record log { pages = path ∷ log.pages })
        → Ends GoodNext AskedOnce
            (fetch_page (logging transport) models base_url strict path first_page w (s, log))
    unfolding fetch_page
    fetch_page-Ends path first_page w s log h = go (transport.get_raw path s)
      where
        later : Log
        later = record log { pages = path ∷ log.pages }

        go :
            (r : Run S Json)
            → Ends (GoodNext {A = Option Json}) AskedOnce (elim (noted later r) [
              | returned raw s' ↦ returned (some raw, w) s'
              | raised e s' ↦
                  if first_page && not strict
                  then raised e s'
                  else broken
                      (on_redfish_error (logging transport) models base_url strict page path w e)
                      s'
            ])
        go (returned raw s') = ends_returned h
        go (raised e s') =
            Ends-if (first_page && not strict) _ _
              (λ _. ends_raised (Good-AskedOnce w (s', later) h))
              (λ _.
                broken-Ends
                  (on_redfish_error (logging transport) models base_url strict page path w e)
                  (s', later)
                  (on_redfish_error-Ends transport models base_url strict page path w e (s', later)
                    h))

    next_page-Ends :
        (path link : Text) (w : Walk M) (s : S × Log)
        → Good w s
        → Ends GoodNext AskedOnce
            (next_page (logging transport) models base_url strict path link w s)
    unfolding next_page
    next_page-Ends path link w s h =
        Ends-if (is_empty link) _ _ (λ _. ends_returned h)
          (λ _. go (collection_path base_url link path))
      where
        go :
            (r : Result Text)
            → Ends (GoodNext {A = Option Text}) AskedOnce (elim r [
              | ok path ↦ returned (some path, w) s
              | err e ↦
                  broken
                    (on_redfish_error (logging transport) models base_url strict page link w e)
                    s
            ])
        go (ok path) = ends_returned h
        go (err e) =
            broken-Ends (on_redfish_error (logging transport) models base_url strict page link w e)
              s (on_redfish_error-Ends transport models base_url strict page link w e s h)

    visit_found-Ends :
        (path : Text) (found : Option Json × Walk M) (s : S × Log)
        → GoodNext found s
        → Ends GoodNext AskedOnce
            (visit_found (logging transport) models base_url strict path found s)
    visit_found-Ends path (none, w) s h = ends_returned h
    visit_found-Ends path (some raw, w) s h =
        Ends-bind (lift (models.read_page path raw)) _ s
          (Ends-lift (models.read_page path raw) s (λ _ _. h) (Good-AskedOnce w s h))
          (λ found s h.
            Ends-bind
              (visit_members (logging transport) models base_url strict path found.members w) _ s
              (visit_members-Ends transport models base_url strict path found.members w s h)
              (λ w s h. next_page-Ends path found.next_link w s h))

    visit_page-Ends :
        (path : Text) (first_page : Bool) (w : Walk M) (s : S) (log : Log)
        → IsLogged w (record log { pages = path ∷ log.pages })
        → Ends GoodNext AskedOnce
            (visit_page (logging transport) models base_url strict path first_page w (s, log))
    unfolding visit_page
    visit_page-Ends path first_page w s log h =
        Ends-bind (fetch_page (logging transport) models base_url strict path first_page w) _
          (s, log) (fetch_page-Ends path first_page w s log h) (visit_found-Ends path)

    walk-Ends :
        (fuel : ℕ) (path : Text) (first_page : Bool) (w : Walk M) (s : S × Log)
        → Good w s
        → Ends GoodEnd AskedOnce
            (walk (logging transport) models base_url strict fuel path first_page w s)
    unfolding walk
    walk-Ends zero path first_page w s h = ends_returned (Good-AskedOnce w s h)
    walk-Ends (suc fuel) path first_page w (s, log) h =
        elim (Bool-cases (mem path w.visited_pages)) [
          | inl t ↦ rw t (
              Ends-bind (lift (handle_failure strict page path (validation_error paging_loop) w)) _
                (s, log)
                (handle_failure-Ends transport models base_url strict page path
                  (validation_error paging_loop) w (s, log) h)
                (λ w s h. ends_returned h))
          | inr f ↦ rw f (
              Ends-bind
                (visit_page (logging transport) models base_url strict path first_page (entered w))
                _ (s, log)
                (visit_page-Ends path first_page (entered w) s log (record {
                  same_pages = rw h.same_pages refl;
                  same_members = h.same_members;
                  pages = (f, h.pages);
                  members = h.members;
                }))
                (onward (λ path w s h. walk-Ends fuel path false w s h)))
        ]
      where
        entered : Walk M → Walk M
        entered w = record w { visited_pages = path ∷ w.visited_pages }

        onward :
            ((path : Text) (w : Walk M) (s : S × Log)
              → Good w s
              → Ends GoodEnd AskedOnce
                  (walk (logging transport) models base_url strict fuel path false w s))
            → (next : Option Text × Walk M) (s : S × Log) → GoodNext next s
            → Ends GoodEnd AskedOnce (
                go_on
                  (logging transport)
                  models
                  base_url
                  strict
                  (λ path w. walk (logging transport) models base_url strict fuel path false w)
                  next
                  s)
        onward again (none, w) s h = ends_returned h
        onward again (some path, w) s h = again path w s h

    Ends-AskedOnce :
        (r : Run (S × Log) (Option (Walk M))) → Ends GoodEnd AskedOnce r → AskedOnce (end_state r)
    Ends-AskedOnce (returned none s) (ends_returned h) = h
    Ends-AskedOnce (returned (some w) s) (ends_returned h) = Good-AskedOnce w s h
    Ends-AskedOnce (raised e s) (ends_raised h) = h

    -- Over every transport, in either mode, and whether the collection is returned or the call
    -- raises: the pages that were asked for are distinct, and so are the members.
    pub get_collection_once :
        (fuel : ℕ) (odata_id : Text) (s : S)
        → AsksOnce
            (end_state (
              get_collection
                (logging transport)
                models
                base_url
                strict
                fuel
                odata_id
                (s, record { pages = []; members = [] }))).1
    unfolding get_collection
    get_collection_once fuel odata_id s = Ends-AskedOnce _ (
        Ends-bind (lift (collection_path base_url odata_id (str "/"))) _ start resolved
          (λ path s h. walk-Ends fuel path true no_members s h))
      where
        start : S × Log
        start = (s, record { pages = []; members = [] })

        empty_log : Good {M = M} no_members start
        empty_log = record { same_pages = refl; same_members = refl; pages = tt; members = tt }

        resolved :
            Ends
              (λ _ s. Good {M = M} no_members s)
              AskedOnce
              (lift (collection_path base_url odata_id (str "/")) start)
        resolved =
            Ends-lift (collection_path base_url odata_id (str "/")) start (λ _ _. empty_log)
              (record { pages = tt; members = tt })

-- ===== src/Collections/Logged.antt =====
-- The calls that `_get_collection` of redfish_sdk/client.py makes for the members of a page.
use redfish_python_sdk.Prelude.{
  ◌≡◌, refl, Bool, true, false, Option, none, some, List, [], ◌∷◌, Text, is_empty, mem, IsDistinct,
  if◌then◌else◌, Bool-cases, inl, inr,
}
use redfish_python_sdk.Exceptions.{Exc, is_redfish}
use redfish_python_sdk.Result.{Result, ok, err}
use redfish_python_sdk.Exec.{Run, returned, raised, lift}
use redfish_python_sdk.Exec.Ends.{Ends, ends_returned, ends_raised, Ends-if, Ends-bind}
use redfish_python_sdk.Collections.{
  Stage, member, Transport, Models, Walk, handle_failure, on_redfish_error, keep_member,
  expand_member, visit_member, visit_members, collection_path, require_resource_identity,
}

-- The calls of a transport, newest first.
pub record Log : Type 0 where
  pub pages : List Text
  pub members : List Text

abbrev pub noted {ℓ κ} : {S : Type ℓ} {A : Type κ} → Log → Run S A → Run (S × Log) A
noted log (returned a s) = returned a (s, log)
noted log (raised e s) = raised e (s, log)

-- A transport that notes what it is asked for.
abbrev pub logging {ℓ κ} : {S : Type ℓ} {M : Type κ} → Transport S M → Transport (S × Log) M
logging transport = record {
  get_raw =
      λ path (s, log). noted (record log { pages = path ∷ log.pages }) (transport.get_raw path s);
  get = λ path (s, log). noted (record log { members = path ∷ log.members }) (transport.get path s);
}

-- The walk has visited what the log says, and nothing twice.
pub record IsLogged {ℓ} {M : Type ℓ} (w : Walk M) (log : Log) : Type 0 where
  pub same_pages : log.pages ≡ w.visited_pages
  pub same_members : log.members ≡ w.visited_members
  pub pages : IsDistinct w.visited_pages
  pub members : IsDistinct w.visited_members

-- No page and no member was asked for twice.
pub record AsksOnce (log : Log) : Type 0 where
  pub pages : IsDistinct log.pages
  pub members : IsDistinct log.members

abbrev pub AskedOnce {ℓ} : {S : Type ℓ} → S × Log → Type 0
AskedOnce s = AsksOnce s.1

module _ {ℓ κ} {S : Type ℓ} {M : Type κ} where
  abbrev pub Good : Walk M → S × Log → Type 0
  Good w (s, log) = IsLogged w log

  abbrev pub GoodNext {μ} : {A : Type μ} → A × Walk M → S × Log → Type 0
  GoodNext (a, w) s = Good w s

  abbrev pub GoodEnd : Option (Walk M) → S × Log → Type 0
  GoodEnd none s = AskedOnce s
  GoodEnd (some w) s = Good w s

  pub Good-AskedOnce : (w : Walk M) (s : S × Log) → Good w s → AskedOnce s
  Good-AskedOnce w (s, log) h = record {
    pages = rw (← h.same_pages) at h.pages;
    members = rw (← h.same_members) at h.members;
  }

module _ {ℓ κ} {S : Type ℓ} {M : Type κ} (transport : Transport S M) (models : Models M)
    (base_url : Text) where
  pub handle_failure-Ends :
      (strict : Bool) (stage : Stage) (resource : Text) (e : Exc) (w : Walk M) (s : S × Log)
      → Good w s
      → Ends Good AskedOnce (lift (handle_failure strict stage resource e w) s)
  unfolding handle_failure
  handle_failure-Ends true stage resource e w s h = ends_raised (Good-AskedOnce w s h)
  handle_failure-Ends false stage resource e w (s, log) h = ends_returned (record {
    same_pages = h.same_pages;
    same_members = h.same_members;
    pages = h.pages;
    members = h.members;
  })

  module _ (strict : Bool) where
    pub on_redfish_error-Ends :
        (stage : Stage) (resource : Text) (w : Walk M) (e : Exc) (s : S × Log)
        → Good w s
        → Ends Good AskedOnce
            (on_redfish_error (logging transport) models base_url strict stage resource w e s)
    unfolding on_redfish_error
    on_redfish_error-Ends stage resource w e s h =
        Ends-if (is_redfish e) _ _ (λ _. handle_failure-Ends strict stage resource e w s h)
          (λ _. ends_raised (Good-AskedOnce w s h))

    keep_member-Ends :
        (path : Text) (w : Walk M) (r : Result M) (s : S × Log)
        → Good w s
        → Ends Good AskedOnce (keep_member (logging transport) models base_url strict path w r s)
    keep_member-Ends path w (ok m) (s, log) h = ends_returned (record {
      same_pages = h.same_pages;
      same_members = h.same_members;
      pages = h.pages;
      members = h.members;
    })
    keep_member-Ends path w (err e) s h = on_redfish_error-Ends member path w e s h

    expand_member-Ends :
        (path : Text) (w : Walk M) (s : S) (log : Log)
        → IsLogged w (record log { members = path ∷ log.members })
        → Ends Good AskedOnce
            (expand_member (logging transport) models base_url strict path w (s, log))
    unfolding expand_member
    expand_member-Ends path w s log h = go (transport.get path s)
      where
        later : Log
        later = record log { members = path ∷ log.members }

        go :
            (r : Run S M)
            → Ends Good AskedOnce (elim (noted later r) [
              | returned m s' ↦
                  keep_member
                    (logging transport)
                    models
                    base_url
                    strict
                    path
                    w
                    (require_resource_identity models m path)
                    s'
              | raised e s' ↦
                  on_redfish_error (logging transport) models base_url strict member path w e s'
            ])
        go (returned m s') =
            keep_member-Ends path w (require_resource_identity models m path) (s', later) h
        go (raised e s') = on_redfish_error-Ends member path w e (s', later) h

    visit_member-Ends :
        (page_path link : Text) (w : Walk M) (s : S × Log)
        → Good w s
        → Ends Good AskedOnce
            (visit_member (logging transport) models base_url strict page_path link w s)
    unfolding visit_member
    visit_member-Ends page_path link w (s, log) h =
        Ends-if (is_empty link) _ _ (λ _. ends_returned h)
          (λ _. go (collection_path base_url link page_path))
      where
        go :
            (r : Result Text)
            → Ends Good AskedOnce (elim r [
              | err e ↦
                  on_redfish_error
                    (logging transport)
                    models
                    base_url
                    strict
                    member
                    link
                    w
                    e
                    (s, log)
              | ok path ↦
                  if mem path w.visited_members
                  then returned w (s, log)
                  else expand_member
                      (logging transport)
                      models
                      base_url
                      strict
                      path
                      (record w { visited_members = path ∷ w.visited_members })
                      (s, log)
            ])
        go (err e) = on_redfish_error-Ends member link w e (s, log) h
        go (ok path) = elim (Bool-cases (mem path w.visited_members)) [
          | inl t ↦ rw t (ends_returned h)
          | inr f ↦ rw f (
              expand_member-Ends path (record w { visited_members = path ∷ w.visited_members }) s
                log
                (record {
                  same_pages = h.same_pages;
                  same_members = rw h.same_members refl;
                  pages = h.pages;
                  members = (f, h.members);
                }))
        ]

    pub visit_members-Ends :
        (page_path : Text) (links : List Text) (w : Walk M) (s : S × Log)
        → Good w s
        → Ends Good AskedOnce
            (visit_members (logging transport) models base_url strict page_path links w s)
    unfolding visit_members
    visit_members-Ends page_path [] w s h = ends_returned h
    visit_members-Ends page_path (link ∷ links) w s h =
        Ends-bind (visit_member (logging transport) models base_url strict page_path link w) _ s
          (visit_member-Ends page_path link w s h)
          (λ w s h. visit_members-Ends page_path links w s h)

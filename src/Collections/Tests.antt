-- ===== src/Collections/Tests.antt =====
-- `_get_collection` of redfish_sdk/client.py on a collection of two pages whose links form a cycle.
use redfish_python_sdk.Prelude.{
  ℕ, suc, ◌≡◌, ◌≢◌, refl, true, false, none, some, List, [], ◌∷◌, Text, str, text_eq, text_eq_iff,
  strip, any, starts_with, mem, IsIn, if◌then◌else◌, arith, Bool-cases, inl, inr,
}
use redfish_python_sdk.Exceptions.{not_found, is_redfish}
use redfish_python_sdk.Result.{ok}
use redfish_python_sdk.Exec.{returned, raised, end_state}
use redfish_python_sdk.Json.{null}
use redfish_python_sdk.Url.{urlsplit, urlunsplit, port, hostname, username, password}
use redfish_python_sdk.Url.Join.{urljoin}
use redfish_python_sdk.Collections.{
  page, member, Transport, Models, Page, Walk, walk, get_collection, collection_path,
  handle_failure, visit_page, visit_members, on_redfish_error, require_resource_identity,
}
use redfish_python_sdk.Collections.Logged.{logging, AsksOnce}
use redfish_python_sdk.Collections.Asked.{AsksOwn, get_collection-AsksOwn}
use redfish_python_sdk.Collections.Once.{get_collection_once}
use redfish_python_sdk.Collections.Bounds.{LeadsToPages, get_collection_ends}
use redfish_python_sdk.Collections.Accounts.{IsAccounted, get_collection-IsAccounted}

computing : Unit {0}
unfolding get_collection collection_path urljoin urlsplit urlunsplit port hostname username password
    text_eq strip any starts_with mem handle_failure visit_page visit_members on_redfish_error
    require_resource_identity is_redfish walk
computing = tt

abbrev base : Text
base = str "https://bmc/"

abbrev first : Text
first = str "/c"

abbrev second : Text
second = str "/c?p=2"

abbrev pages : List Text
pages = first ∷ second ∷ []

abbrev linked : Page
linked = record { members = str "m1" ∷ str "/m1" ∷ str "/m2" ∷ []; next_link = second }

-- One member is missing.
abbrev transport : Transport ℕ Text
transport = record {
  get_raw = λ path n. if text_eq path first then returned null (suc n) else raised not_found n;
  get = λ path n.
      if text_eq path (str "/m2") then raised not_found (suc n) else returned path (suc n);
}

abbrev models : Models Text
models = record { read_page = λ _ _. ok linked; odata_id = λ m. some m; id = λ _. none }

abbrev found : Walk Text
found = record {
  expanded_members = str "/m1" ∷ [];
  failures =
      record { stage = member; resource = str "/m2"; error = not_found }
      ∷ record { stage = page; resource = second; error = not_found }
      ∷ [];
  visited_pages = second ∷ first ∷ [];
  visited_members = str "/m2" ∷ str "/m1" ∷ [];
}

get_collection_test : get_collection transport models base false 3 first 0 ≡ returned (some found) 3
unfolding computing
get_collection_test = refl

get_collection_strict_test :
    get_collection transport models base true 3 first 0 ≡ raised not_found 3
unfolding computing
get_collection_strict_test = refl

get_collection_once_example :
    AsksOnce
      (end_state (
        get_collection
          (logging transport)
          models
          base
          false
          3
          first
          (0, record { pages = []; members = [] }))).1
get_collection_once_example = get_collection_once transport models base false 3 first 0

get_collection-AsksOwn_example :
    AsksOwn transport models base first
      (end_state (
        get_collection
          (logging transport)
          models
          base
          false
          3
          first
          (0, record { pages = []; members = [] }))).1
get_collection-AsksOwn_example = get_collection-AsksOwn transport models base first false 3 0

leads : LeadsToPages transport models base false pages
unfolding computing
leads page_path s s' raw p path g r c = elim (Bool-cases (text_eq page_path first)) [
  | inl t ↦ to_second page_path path p ((text_eq_iff page_path first).0 t) r c
  | inr f ↦ absurd (cc (rw f at g))
]
  where
    to_second :
        (page_path path : Text) (p : Page)
        → page_path ≡ first
        → ok linked ≡ ok p
        → collection_path base p.next_link page_path ≡ ok path
        → IsIn pages path
    to_second page_path path p q r c =
        let e : p ≡ linked = cc r in let e' : second ≡ path = cc (rw (e, q) at c) in rw (← e') refl

get_collection_ends_example : get_collection transport models base false 3 first 0 ≢ returned none 3
unfolding computing
get_collection_ends_example =
    get_collection_ends transport models base false pages first 0 3 leads (λ path e. ground arith)

get_collection-IsAccounted_example : IsAccounted transport models false found
get_collection-IsAccounted_example =
    get_collection-IsAccounted transport models base false 3 first found 0 3 get_collection_test

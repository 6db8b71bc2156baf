-- ===== src/Collections/Asked.antt =====
-- What `_get_collection` of redfish_sdk/client.py has asked for, over a transport that logs it.
use redfish_python_sdk.Prelude.{ℕ, [], ◌∷◌, Text, Bool, All}
use redfish_python_sdk.Exec.{Run, returned, raised, end_state}
use redfish_python_sdk.Collections.{Transport, Models, get_collection}
use redfish_python_sdk.Collections.Logged.{Log, logging, noted}
use redfish_python_sdk.Collections.Followed.{IsPagePath, IsMemberPath, IsFollowing}
use redfish_python_sdk.Collections.Guarded.{get_collection-Keeps}

noted_log {κ} :
    {S A : Type 0} (P : Log → Type κ) (log : Log) (r : Run S A)
    → P log
    → P (end_state (noted log r)).1
noted_log P log (returned a s) h = h
noted_log P log (raised e s) h = h

module _ {S M : Type 0} (transport : Transport S M) (models : Models M)
    (base_url odata_id : Text) where
  -- Every page and every member of the log is one that the collection's links name.
  pub record AsksOwn (log : Log) : Type 0 where
    pub pages : All (IsPagePath (logging transport) models base_url odata_id) log.pages
    pub members : All (IsMemberPath (logging transport) models base_url) log.members

  abbrev AskedOwn : S × Log → Type 0
  AskedOwn s = AsksOwn s.1

  AskedOwn-IsFollowing : IsFollowing (logging transport) models base_url odata_id AskedOwn
  AskedOwn-IsFollowing = record {
    pages = λ path own. record {
      at = λ (s, log) h.
          noted_log AsksOwn (record log { pages = path ∷ log.pages }) (transport.get_raw path s)
            (record { pages = (own, h.pages); members = h.members });
    };
    members = λ path own. record {
      at = λ (s, log) h.
          noted_log AsksOwn (record log { members = path ∷ log.members }) (transport.get path s)
            (record { pages = h.pages; members = (own, h.members) });
    };
  }

  -- Over every transport, with any fuel, and whether the collection is returned or the call raises:
  -- each page that `_get_collection` has asked for has the path of the collection's own link or of
  -- the next link of a page that was served, and each member the path of a link that a served page
  -- lists. Each of these links, joined to the URL of its page, is a target of the configured
  -- origin, and the path is its path and query: links to other origins are not followed.
  pub get_collection-AsksOwn :
      (strict : Bool) (fuel : ℕ) (s : S)
      → AsksOwn
          (end_state (
            get_collection
              (logging transport)
              models
              base_url
              strict
              fuel
              odata_id
              (s, record { pages = []; members = [] }))).1
  get_collection-AsksOwn strict fuel s =
      (get_collection-Keeps (logging transport) models base_url strict odata_id AskedOwn-IsFollowing
          fuel).at
        (s, record { pages = []; members = [] }) (record { pages = tt; members = tt })

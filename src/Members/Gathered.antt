-- ===== src/Members/Gathered.antt =====
-- Where the members come from that `network_ports` and `memory_chunks` of
-- redfish_sdk/managers/system_resources.py return.
use redfish_python_sdk.Prelude.{
  ◌≡◌, refl, Bool, true, false, ◌&&◌, Option, List, [], ◌∷◌, ◌++◌, Text, is_empty, mem, All,
  All-append, IsMember, inl, inr, IsDistinct, Bool-cases, if◌then◌else◌,
}
use redfish_python_sdk.Result.{ok}
use redfish_python_sdk.Exec.{Exec, lift}
use redfish_python_sdk.Exec.Answers.{HasGiven}
use redfish_python_sdk.Exec.Settles.{
  given-Settles, lift-Settles, Settles, with_value, with_error, Settles-bind, Settles-weaken,
}
use redfish_python_sdk.HttpClient.Session.{truthy, or_else}
use redfish_python_sdk.Members.{Link, uri_of, unique_from, unique_members, require_link}
use redfish_python_sdk.Members.Laws.{uris_of, unique_from-IsDistinct}
use redfish_python_sdk.Members.Resources.{SystemLinks, Linked, Member, Host}
use redfish_python_sdk.Members.Failures.{
  IsFailure, not_advertised, by_system, by_members, by_link, by_collection, require_link-IsFailure,
  chosen-IsFailure,
}
use redfish_python_sdk.Members.System.{
  chosen, system_link, linked_members, gather, members_behind, network_ports, memory_chunks,
  port_link, chunk_link,
}

module _ {ℓ} {S : Type ℓ} {R : Type 0} (host : Host S R) (field : SystemLinks → Option Link)
    (link_of : Linked → Exec S (Option Link)) (identifier : Option Text)
    (system_id : Option Text) where
  -- A resource of the collection that the system links, the selected one where one is named.
  pub record IsChosen (resource : Linked) : Type ℓ where
    pub system : SystemLinks
    pub was_read : HasGiven (host.system system_id) system
    pub uri : Text
    pub advertised : require_link (field system) ≡ ok uri
    pub resources : List Linked
    pub were_read : HasGiven (host.members uri) resources
    pub selected : List Linked
    pub are_selected : chosen resources identifier ≡ ok selected
    pub member : IsMember resource selected

  -- A member of the collection behind the link of such a resource.
  pub record IsBehind (member : Member) : Type ℓ where
    pub resource : Linked
    pub chosen : IsChosen resource
    pub link : Option Link
    pub is_link : HasGiven (link_of resource) link
    pub members : List Member
    pub were_read : HasGiven (host.collection (uri_of link)) members
    pub is_member : IsMember member members

  members-IsBehind :
      (resource : Linked) (link : Option Link) (members xs : List Member)
      → IsChosen resource
      → HasGiven (link_of resource) link
      → HasGiven (host.collection (uri_of link)) members
      → ((x : Member) → IsMember x xs → IsMember x members)
      → All IsBehind xs
  members-IsBehind resource link members [] c l m inside = tt
  members-IsBehind resource link members (x ∷ xs) c l m inside = (
    record {
      resource = resource;
      chosen = c;
      link = link;
      is_link = l;
      members = members;
      were_read = m;
      is_member = inside x (inl refl);
    },
    members-IsBehind resource link members xs c l m (λ y k. inside y (inr k)),
  )

  gather-Settles :
      (resources : List Linked) (advertised : Bool) (result : List Member) (s : S)
      → All IsChosen resources
      → All IsBehind result
      → Settles
          (λ (found : Bool × List Member). All IsBehind found.1)
          (IsFailure host link_of identifier system_id)
          (gather host link_of resources (advertised, result) s)
  unfolding gather
  gather-Settles [] advertised result s c h = with_value h
  gather-Settles (resource ∷ resources) advertised result s (p, c) h =
      Settles-bind {E = IsFailure host link_of identifier system_id} (link_of resource) _ s
        (given-Settles (link_of resource) s (λ _ x. by_link resource x))
        (λ link s' l. elim (Bool-cases (is_empty (uri_of link))) [
          | inl t ↦ rw t (gather-Settles resources advertised result s' c h)
          | inr f ↦ rw f (
              Settles-bind {E = IsFailure host link_of identifier system_id}
                (host.collection (uri_of link)) _ s'
                (given-Settles (host.collection (uri_of link)) s'
                  (λ _ x. by_collection (uri_of link) x))
                (λ members s'' m. gather-Settles resources true (result ++ members) s'' c (
                  All-append IsBehind result members h
                    (members-IsBehind resource link members members p l m (λ _ k. k)))))
        ])

  linked_members-Settles :
      (s : S)
      → Settles
          (λ (resources : List Linked).
            (selected : List Linked)
            → chosen resources identifier ≡ ok selected
            → All IsChosen selected)
          (IsFailure host link_of identifier system_id)
          (linked_members host field system_id s)
  unfolding linked_members system_link
  linked_members-Settles s =
      Settles-bind
        {P = λ uri.
          (system : SystemLinks) × HasGiven (host.system system_id) system
          × (require_link (field system) ≡ ok uri)}
        (system_link host field system_id) (λ uri. host.members uri) s
        (Settles-bind {E = IsFailure host link_of identifier system_id} (host.system system_id) _ s
          (given-Settles (host.system system_id) s (λ _ x. by_system x))
          (λ system s' read.
            Settles-weaken {E = IsFailure host link_of identifier system_id}
              (lift (require_link (field system)) s')
              (lift-Settles (require_link (field system)) s' (λ e h.
                require_link-IsFailure host link_of identifier system_id (field system) e h))
              (λ uri e. (system, read, e))))
        (λ uri s' (system, read, e).
          Settles-weaken {E = IsFailure host link_of identifier system_id} (host.members uri s')
            (given-Settles (host.members uri) s' (λ _ x. by_members uri x))
            (λ resources given selected q.
              each system read uri e resources given selected q selected (λ _ k. k)))
    where
      each :
          (system : SystemLinks)
          → HasGiven (host.system system_id) system
          → (uri : Text) → require_link (field system) ≡ ok uri
          → (resources : List Linked) → HasGiven (host.members uri) resources
          → (selected : List Linked) → chosen resources identifier ≡ ok selected
          → (xs : List Linked) → ((x : Linked) → IsMember x xs → IsMember x selected)
          → All IsChosen xs
      each system read uri e resources given selected q [] inside = tt
      each system read uri e resources given selected q (x ∷ xs) inside = (
        record {
          system = system;
          was_read = read;
          uri = uri;
          advertised = e;
          resources = resources;
          were_read = given;
          selected = selected;
          are_selected = q;
          member = inside x (inl refl);
        },
        each system read uri e resources given selected q xs (λ y k. inside y (inr k)),
      )

  unique_from-All :
      (seen : List Text) (members : List Member)
      → All IsBehind members
      → All IsBehind (unique_from (λ r. r.id) (λ r. r.odata_id) seen members)
  unfolding unique_from
  unique_from-All seen [] h = tt
  unique_from-All seen (m ∷ members) (p, h) =
      at_test (unique_from (λ r. r.id) (λ r. r.odata_id) seen members)
        (unique_from (λ r. r.id) (λ r. r.odata_id) (or_else m.odata_id [] ∷ seen) members)
        (truthy m.odata_id && mem (or_else m.odata_id []) seen) (unique_from-All seen members h)
        (unique_from-All (or_else m.odata_id [] ∷ seen) members h)
    where
      at_test :
          (skipped rest : List Member) (b : Bool)
          → All IsBehind skipped
          → All IsBehind rest
          → All IsBehind (if b then skipped else m ∷ rest)
      at_test skipped rest true k k' = k
      at_test skipped rest false k k' = (p, k')

  -- Members of the collections behind the links, none with the identity of another.
  abbrev pub AreBehind : List Member → Type ℓ
  AreBehind members =
      IsDistinct (uris_of (λ r. r.id) (λ r. r.odata_id) members) × All IsBehind members

  members_behind-AreBehind :
      (s : S)
      → Settles AreBehind
          (IsFailure host link_of identifier system_id)
          (members_behind host field link_of identifier system_id s)
  unfolding members_behind unique_members
  members_behind-AreBehind s =
      Settles-bind {E = IsFailure host link_of identifier system_id}
        (linked_members host field system_id) _ s (linked_members-Settles s)
        (λ resources s' all_chosen.
          Settles-bind {E = IsFailure host link_of identifier system_id}
            (lift (chosen resources identifier)) _ s'
            (lift-Settles (chosen resources identifier) s'
              (λ e h. chosen-IsFailure host link_of identifier system_id resources e h))
            (λ selected s'' e.
              Settles-bind {E = IsFailure host link_of identifier system_id}
                (gather host link_of selected (false, [])) _ s''
                (gather-Settles selected false [] s'' (all_chosen selected e) tt)
                (λ found s3 h. elim (Bool-cases found.0) [
                  | inl t ↦ rw t (
                      with_value (
                        unique_from-IsDistinct (λ r. r.id) (λ r. r.odata_id) [] found.1,
                        unique_from-All [] found.1 h,
                      ))
                  | inr f ↦ rw f (with_error not_advertised)
                ])))

-- Where network_ports and memory_chunks return members, none has the identity of another, and each
-- is in a collection that the service gave for a link: that of the ports of an interface, or else
-- of its adapter, and that of the chunks of a domain. The interface or the domain is in the
-- collection that the system links, and the one that was named, where one was. Where they raise, it
-- is that what was asked for is not found, that several members have the identifier, or what a call
-- of the service raised.
pub network_ports-AreBehind {ℓ} :
    {S : Type ℓ} {R : Type 0} (host : Host S R) (identifier system_id : Option Text) (s : S)
    → Settles
        (AreBehind host (λ l. l.network_interfaces) (port_link host) identifier system_id)
        (IsFailure host (port_link host) identifier system_id)
        (network_ports host identifier system_id s)
      × Settles
          (AreBehind host (λ l. l.memory_domains) (chunk_link host) identifier system_id)
          (IsFailure host (chunk_link host) identifier system_id)
          (memory_chunks host identifier system_id s)
unfolding network_ports memory_chunks
network_ports-AreBehind host identifier system_id s = (
  members_behind-AreBehind host (λ l. l.network_interfaces) (port_link host) identifier system_id s,
  members_behind-AreBehind host (λ l. l.memory_domains) (chunk_link host) identifier system_id s,
)

-- ===== src/Members/System.antt =====
-- `SystemResourcesManager` of redfish_sdk/managers/system_resources.py, with the methods of
-- redfish_sdk/models/actions.py that it calls.
mod Tests
use redfish_python_sdk.Prelude.{
  Bool, true, false, not, ◌&&◌, ◌||◌, Option, none, some, List, [], ◌∷◌, ◌++◌, Text, str, text_eq,
  is_empty, strip, any, map, if◌then◌else◌,
}
use redfish_python_sdk.Exceptions.{
  not_found, validation_error, type_error, missing_attribute, unsupported_secure_boot,
  no_reset_keys, unsupported_reset_keys,
}
use redfish_python_sdk.Result.{Result, ok, err, raise_if, ◌>>=◌ as bind}
use redfish_python_sdk.Exec.{Exec, Run, returned, raised, pure, raise, lift, ◌>>=◌}
use redfish_python_sdk.HttpClient.Session.{truthy, or_else}
use redfish_python_sdk.Members.{Link, uri_of, require_link, select_member, unique_members}
use redfish_python_sdk.Members.Resources.{
  SystemLinks, AllowedStates, among, keyed, unsearchable, ResetKeysAction, SecureBoot,
  SecureBootPatch, ActionInfoParameter, Member, Linked, Host,
}

abbrev is_state : Bool → Option Bool → Bool
is_state enabled none = false
is_state true (some value) = value
is_state false (some value) = not value

-- enabled in allowed
unfoldable pub is_allowed_state : Bool → AllowedStates → Result Bool
unfolding any
is_allowed_state enabled (among values) = ok (any (is_state enabled) values)
is_allowed_state enabled keyed = ok false
is_allowed_state enabled unsearchable = err type_error

-- The test of `update_secure_boot`.
unfoldable pub check_state : Bool → Option AllowedStates → Result (Unit {0})
unfolding is_allowed_state
check_state enabled none = ok tt
check_state enabled (some allowed) =
    bind (is_allowed_state enabled allowed)
      (λ b. raise_if (not b) (validation_error unsupported_secure_boot))

-- `ActionInfo.parameter` and `ActionInfo.allowable_values`
unfoldable pub allowable_values : Text → List ActionInfoParameter → Option (List (Option Text))
unfolding text_eq
allowable_values parameter_name [] = none
allowable_values parameter_name (parameter ∷ parameters) =
    let rest = allowable_values parameter_name parameters in
    if text_eq (or_else parameter.name []) parameter_name then parameter.allowable_values else rest

-- `ActionDescriptor.require_target`
unfoldable pub require_target : ResetKeysAction → Text → Text → Result Text
unfolding strip
require_target action action_name resource_uri =
    if is_empty (strip (or_else action.target []))
    then err (missing_attribute (str "target") resource_uri)
    else ok (or_else action.target [])

abbrev pub texts : Option (List Text) → Option (List (Option Text))
texts none = none
texts (some values) = some (map some values)

-- The values of `ResetKeysType` where neither the action nor its ActionInfo names some.
abbrev pub or_standard : Option (List (Option Text)) → List (Option Text)
or_standard none =
    some (str "ResetAllKeysToDefault") ∷ some (str "DeleteAllKeys") ∷ some (str "DeletePK") ∷ []
or_standard (some allowed) = allowed

abbrev pub is_key : Text → Option Text → Bool
is_key value none = false
is_key value (some key) = text_eq value key

-- [select_member(resources, identifier)], where an identifier is given
unfoldable pub chosen : List Linked → Option Text → Result (List Linked)
unfolding select_member
chosen resources none = ok resources
chosen resources (some identifier) =
    bind (select_member (λ r. r.id) (λ r. r.odata_id) resources (some identifier) [])
      (λ r. ok (r ∷ []))

module _ {ℓ} {S : Type ℓ} {R : Type 0} (host : Host S R) where
  -- require_link(system, field)
  unfoldable pub system_link : (SystemLinks → Option Link) → Option Text → Exec S Text
  unfolding require_link
  system_link field system_id =
      host.system system_id >>= λ system. lift (require_link (field system))

  -- `secure_boot`
  unfoldable pub secure_boot : Option Text → Exec S SecureBoot
  unfolding system_link
  secure_boot system_id = system_link (λ s. s.secure_boot) system_id >>= λ uri. host.secure_boot uri

  -- `update_secure_boot`
  unfoldable pub update_secure_boot : Bool → Option Text → Exec S R
  unfolding secure_boot check_state
  update_secure_boot enabled system_id = secure_boot system_id >>= λ resource.
      if not (truthy resource.odata_id)
      then raise not_found
      else (lift (check_state enabled resource.allowable_values) >>= λ _.
          host.patch (or_else resource.odata_id [])
            (record { secure_boot_enable = enabled; odata_etag = resource.odata_etag }))

  -- The values that the action allows, as far as the service says.
  unfoldable pub stated_values : ResetKeysAction → Exec S (Option (List (Option Text)))
  unfolding allowable_values
  stated_values action = elim (texts action.reset_keys_type_allowable_values) [
    | some allowed ↦ pure (some allowed)
    | none ↦
        if truthy action.action_info
        then (host.action_info (or_else action.action_info []) >>= λ parameters.
            pure (allowable_values (str "ResetKeysType") parameters))
        else pure none
  ]

  -- The rest of `reset_secure_boot_keys`, with the action of the resource.
  unfoldable pub reset_with : Text → SecureBoot → Option ResetKeysAction → Exec S R
  unfolding require_target stated_values any
  reset_with reset_keys_type resource none = raise (validation_error no_reset_keys)
  reset_with reset_keys_type resource (some action) =
      lift (require_target action (str "#SecureBoot.ResetKeys") (or_else resource.odata_id []))
      >>= λ target. stated_values action >>= λ stated.
          lift (
            raise_if (not (any (is_key reset_keys_type) (or_standard stated)))
              (validation_error unsupported_reset_keys))
          >>= λ _. host.post target reset_keys_type

  -- `reset_secure_boot_keys`
  unfoldable pub reset_secure_boot_keys : Text → Option Text → Exec S R
  unfolding secure_boot reset_with
  reset_secure_boot_keys reset_keys_type system_id =
      secure_boot system_id >>= λ resource. reset_with reset_keys_type resource resource.reset_keys

  -- `network_interfaces`, `memory_domains` and the collection of `memory_metrics`
  unfoldable pub linked_members : (SystemLinks → Option Link) → Option Text → Exec S (List Linked)
  unfolding system_link
  linked_members field system_id = system_link field system_id >>= λ uri. host.members uri

  -- The link of the ports of an interface, or else of those of its adapter.
  unfoldable pub port_link : Linked → Exec S (Option Link)
  port_link interface =
      if is_empty (uri_of interface.link) && not (is_empty (uri_of interface.network_adapter))
      then host.network_adapter (uri_of interface.network_adapter)
      else pure interface.link

  abbrev pub chunk_link : Linked → Exec S (Option Link)
  chunk_link domain = pure domain.link

  -- The loops of `network_ports` and `memory_chunks`, with `advertised` and `result`.
  unfoldable pub gather :
      (Linked → Exec S (Option Link))
      → List Linked
      → Bool × List Member
      → Exec S (Bool × List Member)
  gather link_of [] found = pure found
  gather link_of (resource ∷ resources) (advertised, result) = link_of resource >>= λ link.
      if is_empty (uri_of link)
      then gather link_of resources (advertised, result)
      else (host.collection (uri_of link) >>= λ members.
          gather link_of resources (true, result ++ members))

  -- The body that `network_ports` and `memory_chunks` have in common.
  unfoldable pub members_behind :
      (SystemLinks → Option Link)
      → (Linked → Exec S (Option Link))
      → Option Text
      → Option Text
      → Exec S (List Member)
  unfolding linked_members chosen gather unique_members
  members_behind field link_of identifier system_id =
      linked_members field system_id >>= λ resources.
      lift (chosen resources identifier) >>= λ selected.
      gather link_of selected (false, []) >>= λ found.
      if found.0
      then pure (unique_members (λ r. r.id) (λ r. r.odata_id) found.1)
      else raise not_found

  -- `network_ports`
  unfoldable pub network_ports : Option Text → Option Text → Exec S (List Member)
  unfolding members_behind port_link
  network_ports = members_behind (λ s. s.network_interfaces) port_link

  -- `memory_chunks`
  unfoldable pub memory_chunks : Option Text → Option Text → Exec S (List Member)
  unfolding members_behind
  memory_chunks = members_behind (λ s. s.memory_domains) chunk_link

  -- `memory_metrics`
  unfoldable pub memory_metrics : Option Text → Option Text → Exec S R
  unfolding linked_members select_member require_link
  memory_metrics memory_id system_id = do
    memories ← linked_members (λ s. s.memory) system_id
    memory ← lift (select_member (λ r. r.id) (λ r. r.odata_id) memories memory_id [])
    uri ← lift (require_link memory.link)
    host.memory_metrics uri

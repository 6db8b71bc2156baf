-- ===== src/Members/System/Tests.antt =====
-- redfish_sdk/managers/system_resources.py on a service that logs what is written to it.
use redfish_python_sdk.Prelude.{
  ◌≡◌, refl, Bool, true, false, Option, none, some, List, [], ◌∷◌, Text, str, text_eq, text_eq_iff,
  any, mem, strip, filter_by, All, arith,
}
use redfish_python_sdk.Exceptions.{not_found, validation_error, unsupported_secure_boot}
use redfish_python_sdk.Result.{ok}
use redfish_python_sdk.Exec.{returned, raised, end_state}
use redfish_python_sdk.Exec.Settles.{Settles}
use redfish_python_sdk.Members.{require_link, is_match, select_member, unique_from, unique_members}
use redfish_python_sdk.Members.Resources.{among, ResetKeysAction, SecureBoot, Member, Linked, Host}
use redfish_python_sdk.Members.System.{
  allowable_values, secure_boot, memory_metrics, is_allowed_state, check_state, require_target,
  or_standard, is_key, chosen, system_link, update_secure_boot, stated_values, reset_with,
  reset_secure_boot_keys, linked_members, port_link, chunk_link, gather, members_behind,
  network_ports, memory_chunks,
}
use redfish_python_sdk.Members.Failures.{IsFailure}
use redfish_python_sdk.Members.Gathered.{AreBehind, network_ports-AreBehind}
use redfish_python_sdk.Members.Permitted.{
  IsAllowedState, IsSecureBoot, IsStated, by_action, by_info, by_none, Guard,
}
use redfish_python_sdk.Members.Guarded.{update_secure_boot-Guarded}

computing : Unit {0}
unfolding text_eq any mem strip filter_by require_link is_match select_member unique_from
    unique_members is_allowed_state check_state allowable_values require_target chosen system_link
    secure_boot update_secure_boot stated_values reset_with reset_secure_boot_keys linked_members
    port_link gather members_behind network_ports memory_chunks memory_metrics
computing = tt

data Write : Type 0 where
  patched : Bool → Write
  posted : Text → Write

abbrev action : ResetKeysAction
action = record {
  target = some (str "/reset");
  action_info = none;
  reset_keys_type_allowable_values = some (str "DeletePK" ∷ []);
}

abbrev boot : SecureBoot
boot = record {
  odata_id = some (str "/sb");
  odata_etag = some (str "1");
  allowable_values = some (among (some true ∷ []));
  reset_keys = some action;
}

abbrev interface : Text → Option (Option Text) → Option (Option Text) → Linked
interface id link adapter = record {
  id = some id;
  odata_id = some id;
  link = link;
  network_adapter = adapter;
}

abbrev port : Text → Member
port uri = record { id = none; odata_id = some uri }

abbrev host : Host (List Write) (Unit {0})
host = record {
  system = λ system_id s.
      returned
        (record {
          secure_boot = some (some (str "/sb"));
          network_interfaces = some (some (str "/ni"));
          memory_domains = none;
          memory = none;
        })
        s;
  secure_boot = λ uri s. returned boot s;
  action_info = λ uri s. returned [] s;
  patch = λ uri body s. returned tt (patched body.secure_boot_enable ∷ s);
  post = λ target reset_keys_type s. returned tt (posted reset_keys_type ∷ s);
  members = λ uri s.
      returned
        (interface (str "1") (some (some (str "/p"))) none
          ∷ interface (str "2") none (some (some (str "/na")))
          ∷ [])
        s;
  network_adapter = λ uri s. returned (some (some (str "/p"))) s;
  collection = λ uri s. returned (port (str "/p/1") ∷ port (str "/p/2") ∷ []) s;
  memory_metrics = λ uri s. returned tt s;
}

-- The ports of both interfaces are the same ones.
network_ports_test :
    (network_ports host none none [] ≡ returned (port (str "/p/1") ∷ port (str "/p/2") ∷ []) [])
    × (memory_chunks host none none [] ≡ raised not_found [])
unfolding computing
network_ports_test = (refl, refl)

update_secure_boot_test :
    (update_secure_boot host false none [] ≡ raised (validation_error unsupported_secure_boot) [])
    × (update_secure_boot host true none [] ≡ returned tt (patched true ∷ []))
    × (reset_secure_boot_keys host (str "DeletePK") none []
        ≡ returned tt (posted (str "DeletePK") ∷ []))
unfolding computing
update_secure_boot_test = (refl, refl, refl)

network_ports-AreBehind_example :
    Settles
      (AreBehind host (λ l. l.network_interfaces) (port_link host) (some (str "2")) none)
      (IsFailure host (port_link host) (some (str "2")) none)
      (network_ports host (some (str "2")) none [])
    × Settles
        (AreBehind host (λ l. l.memory_domains) (chunk_link host) (some (str "2")) none)
        (IsFailure host (chunk_link host) (some (str "2")) none)
        (memory_chunks host (some (str "2")) none [])
network_ports-AreBehind_example = network_ports-AreBehind host (some (str "2")) none []

abbrev IsFine : Write → Type 0
IsFine (patched enabled) = enabled ≡ true
IsFine (posted reset_keys_type) = reset_keys_type ≡ str "DeletePK"

abbrev AreFine : List Write → Type 0
AreFine = All IsFine

boot_of : (resource : SecureBoot) → IsSecureBoot host resource → boot ≡ resource
boot_of resource h = at_run h.was_read.before h.was_read.after h.was_read.given
  where
    at_run : (s s' : List Write) → returned boot s ≡ returned resource s' → boot ≡ resource
    at_run s s' e = cc e

state_of :
    (enabled : Bool) → is_allowed_state enabled (among (some true ∷ [])) ≡ ok true → enabled ≡ true
unfolding computing
state_of true h = refl
state_of false h = absurd (cc h)

key_of :
    (key : Text) (stated : Option (List (Option Text)))
    → IsStated host action stated
    → any (is_key key) (or_standard stated) ≡ true
    → key ≡ str "DeletePK"
unfolding any
key_of key _ (by_action values e) h = ground (arith, text_eq_iff key (str "DeletePK"))
key_of key _ (by_info parameters e given) h = absurd (cc e)
key_of key _ (by_none e f) h = absurd (cc e)

action_of : (a : ResetKeysAction) → boot.reset_keys ≡ some a → action ≡ a
action_of a e = cc e

patched_IsFine :
    (resource : SecureBoot) (enabled : Bool)
    → boot ≡ resource
    → IsAllowedState enabled resource.allowable_values
    → enabled ≡ true
patched_IsFine resource enabled same h = state_of enabled (rw (← same) at h)

posted_IsFine :
    (resource : SecureBoot) (a : ResetKeysAction) (stated : Option (List (Option Text)))
    (key : Text)
    → boot ≡ resource
    → resource.reset_keys ≡ some a
    → IsStated host a stated
    → any (is_key key) (or_standard stated) ≡ true
    → key ≡ str "DeletePK"
posted_IsFine resource a stated key same e h allowed =
    let own = action_of a (rw (← same) at e) in key_of key stated (rw (← own) at h) allowed

guard : Guard host AreFine
guard = record {
  system_keeps = λ system_id. record { at = λ s f. f };
  secure_boot_keeps = λ uri. record { at = λ s f. f };
  info_keeps = λ uri. record { at = λ s f. f };
  patch_keeps = λ uri body h. record {
    at = λ s f. (
      patched_IsFine h.resource body.secure_boot_enable (boot_of h.resource h.is_secure_boot)
          h.allowed,
      f,
    );
  };
  post_keeps = λ target key h. record {
    at = λ s f. (
      posted_IsFine h.resource h.action h.stated key (boot_of h.resource h.is_secure_boot)
          h.advertised h.is_stated h.allowed,
      f,
    );
  };
}

update_secure_boot-Guarded_example :
    AreFine (end_state (update_secure_boot host true none []))
    × AreFine (end_state (reset_secure_boot_keys host (str "DeletePK") none []))
update_secure_boot-Guarded_example =
    update_secure_boot-Guarded host AreFine guard true (str "DeletePK") none [] tt

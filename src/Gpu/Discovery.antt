-- ===== src/Gpu/Discovery.antt =====
-- The readers of redfish_sdk/managers/gpu_discovery.py, from `discover_gpus` down. A reader takes the
-- candidates of the inventory and gives them back with what it added; where one raises, so does
-- `discover_gpus`, and the inventory is lost.
use redfish_python_sdk.Prelude.{
  Bool, true, false, ◌||◌, Option, none, some, List, [], ◌∷◌, ◌++◌, Text, str, text_eq, is_empty,
  any, map, if◌then◌else◌,
}
use redfish_python_sdk.Exceptions.{attribute_error}
use redfish_python_sdk.Exec.{Exec, pure, raise, attempt, ◌>>=◌}
use redfish_python_sdk.HttpClient.Session.{truthy, or_else}
use redfish_python_sdk.Members.{Link, uri_of}
use redfish_python_sdk.Gpu.Signals.{PcieDevice, is_gpu_processor, gpu_from_pcie_device}
use redfish_python_sdk.Gpu.{Gpu, Candidate, add, result, sorted, set_add}
use redfish_python_sdk.Gpu.Sources.{
  Controller, Processor, PcieFunction, ChassisDevices, collection, listed, System, Host, link_ids,
  function_identities, linked_identities, gpu_from_processor, with_functions, put_device,
  put_devices, device_links, is_gpu, device_identities,
}

abbrev pub or_nothing {ℓ} : {A : Type ℓ} → Option (List A) → List A
or_nothing none = []
or_nothing (some members) = members

-- The collection behind a link: nothing where there is no link, and where a RedfishException was
-- raised.
abbrev pub tolerated {ℓ} :
    {S : Type ℓ} {A : Type 0} → (Text → Exec S (List A)) → Text → Exec S (List A)
tolerated read uri =
    if is_empty uri then pure [] else attempt (read uri) >>= λ members. pure (or_nothing members)

unfoldable pub add_controllers : List Controller → List Candidate → List Candidate
unfolding add linked_identities
add_controllers [] candidates = candidates
add_controllers (c ∷ controllers) candidates =
    add_controllers controllers
      (add c.gpu (str "GraphicsController") (linked_identities c.links) candidates)

abbrev pub with_reading : Option (Option Text) → Gpu → Gpu
with_reading (some (some reading)) gpu = record gpu { power_watts = some reading }
with_reading _ gpu = gpu

abbrev pub same_id : Option Text → Option Text → Bool
same_id none none = true
same_id (some s) (some t) = text_eq s t
same_id _ _ = false

-- if all(existing.odata_id != function.odata_id …): functions.append(function)
unfoldable pub append_new : PcieFunction → List PcieFunction → List PcieFunction
unfolding any
append_new function functions =
    if any (λ existing. same_id existing.odata_id function.odata_id) functions
    then functions
    else functions ++ (function ∷ [])

-- cache.get(path)
unfoldable pub cached_function : Text → List (Text × PcieFunction) → Option PcieFunction
unfolding text_eq
cached_function path [] = none
cached_function path ((key, function) ∷ cache) =
    let rest = cached_function path cache in if text_eq key path then some function else rest

abbrev pub with_device : Option PcieDevice → List (Text × PcieDevice) → List (Text × PcieDevice)
with_device none devices = devices
with_device (some device) devices = put_device device devices

-- The functions of a device so far, with `function_cache`.
abbrev pub Functions : Type 0
Functions = List PcieFunction × List (Text × PcieFunction)

abbrev pub with_fetched : Text → Option PcieFunction → Functions → Functions
with_fetched path none parts = parts
with_fetched path (some function) (functions, cache) =
    (append_new function functions, (path, function) ∷ cache)

module _ {ℓ} {S : Type ℓ} (host : Host S) where
  -- `_add_graphics_controllers`
  unfoldable pub add_graphics_controllers : System → List Candidate → Exec S (List Candidate)
  unfolding add_controllers attempt
  add_graphics_controllers system candidates =
      tolerated host.controllers (uri_of system.graphics_controllers) >>= λ controllers.
      pure (add_controllers controllers candidates)

  -- `_enrich_from_environment_metrics`
  unfoldable pub enrich_from_environment_metrics :
      Option Link → Gpu × List Text → Exec S (Gpu × List Text)
  unfolding set_add attempt
  enrich_from_environment_metrics link (gpu, identities) =
      if is_empty (uri_of link)
      then pure (gpu, identities)
      else attempt (host.power_reading (uri_of link)) >>= λ reading.
          pure (with_reading reading gpu, set_add (uri_of link) identities)

  -- `_enrich_from_acceleration_functions`
  unfoldable pub enrich_from_acceleration_functions :
      Processor → Gpu × List Text → Exec S (Gpu × List Text)
  unfolding with_functions attempt
  enrich_from_acceleration_functions processor parts =
      tolerated host.acceleration_functions (uri_of processor.acceleration_functions)
      >>= λ functions. pure (with_functions functions parts)

  -- One round of the loop over the processors.
  unfoldable pub add_processor : Processor → List Candidate → Exec S (List Candidate)
  unfolding is_gpu_processor function_identities gpu_from_processor enrich_from_environment_metrics
      enrich_from_acceleration_functions add
  add_processor processor candidates =
      if is_gpu_processor processor.processor_type processor.name processor.model
      then (enrich_from_environment_metrics processor.environment_metrics
            (gpu_from_processor processor, function_identities processor.links)
          >>= λ metered. enrich_from_acceleration_functions processor metered >>= λ parts.
              pure (add parts.0 (str "Processor") parts.1 candidates))
      else pure candidates

  unfoldable pub add_processors : List Processor → List Candidate → Exec S (List Candidate)
  unfolding add_processor
  add_processors [] candidates = pure candidates
  add_processors (processor ∷ processors) candidates =
      add_processor processor candidates >>= λ added. add_processors processors added

  -- `_add_processor_accelerators`
  unfoldable pub add_processor_accelerators : System → List Candidate → Exec S (List Candidate)
  unfolding add_processors attempt
  add_processor_accelerators system candidates =
      tolerated host.processors (uri_of system.processors) >>= λ processors.
      add_processors processors candidates

  -- The body of the first `try` of `_add_pcie_devices`; a list of links has no `odata_id`.
  abbrev pub members_of : Option ChassisDevices → Exec S (List PcieDevice)
  members_of none = pure []
  members_of (some (listed [])) = pure []
  members_of (some (listed (_ ∷ _))) = raise attribute_error
  members_of (some (collection link)) =
      if truthy link then host.devices (or_else link []) else pure []

  abbrev pub chassis_members : Exec S (List PcieDevice)
  chassis_members = host.chassis_devices >>= λ devices. members_of devices

  -- The devices that are linked by the system and not known yet.
  unfoldable pub fetch_devices :
      List Text → List (Text × PcieDevice) → Exec S (List (Text × PcieDevice))
  unfolding any text_eq put_device attempt
  fetch_devices [] devices = pure devices
  fetch_devices (uri ∷ links) devices =
      let rest = fetch_devices links devices in
      if is_empty uri || any (λ known. text_eq known.0 uri) devices
      then rest
      else attempt (host.device uri) >>= λ fetched.
          fetch_devices links (with_device fetched devices)

  -- One round of the loop over the paths of functions.
  abbrev pub fetch_function : Text → Functions → Exec S Functions
  fetch_function path (functions, cache) = elim (cached_function path cache) [
    | some function ↦ pure (append_new function functions, cache)
    | none ↦ attempt (host.function path) >>= λ fetched.
        pure (with_fetched path fetched (functions, cache))
  ]

  unfoldable pub fetch_functions : List Text → Functions → Exec S Functions
  unfolding append_new cached_function attempt
  fetch_functions [] parts = pure parts
  fetch_functions (path ∷ paths) parts =
      fetch_function path parts >>= λ fetched. fetch_functions paths fetched

  -- `_device_functions`
  unfoldable pub device_functions : PcieDevice → List (Text × PcieFunction) → Exec S Functions
  unfolding fetch_functions attempt sorted link_ids
  device_functions device cache =
      tolerated host.functions (uri_of device.pcie_functions) >>= λ functions.
      fetch_functions (sorted (link_ids device.function_links)) (functions, cache)

  -- The rest of a round of the loop over the devices.
  unfoldable pub add_device :
      PcieDevice → List PcieFunction → List Candidate → Exec S (List Candidate)
  unfolding is_gpu gpu_from_pcie_device device_identities enrich_from_environment_metrics add
  add_device device functions candidates =
      if is_gpu device functions
      then (enrich_from_environment_metrics device.environment_metrics
            (gpu_from_pcie_device device, device_identities device functions)
          >>= λ parts. pure (add parts.0 (str "PCIeDevice") parts.1 candidates))
      else pure candidates

  unfoldable pub add_devices :
      List PcieDevice → List (Text × PcieFunction) → List Candidate → Exec S (List Candidate)
  unfolding device_functions add_device
  add_devices [] cache candidates = pure candidates
  add_devices (device ∷ devices) cache candidates = device_functions device cache >>= λ parts.
      add_device device parts.0 candidates >>= λ added. add_devices devices parts.1 added

  -- `_add_pcie_devices`
  unfoldable pub add_pcie_devices : System → List Candidate → Exec S (List Candidate)
  unfolding put_devices fetch_devices device_links add_devices attempt
  add_pcie_devices system candidates = attempt chassis_members >>= λ members.
      fetch_devices (device_links system) (put_devices (or_nothing members) []) >>= λ devices.
      add_devices (map (λ entry. entry.1) devices) [] candidates

  unfoldable pub add_systems : List System → List Candidate → Exec S (List Candidate)
  unfolding add_graphics_controllers add_processor_accelerators add_pcie_devices
  add_systems [] candidates = pure candidates
  add_systems (system ∷ systems) candidates =
      add_graphics_controllers system candidates >>= λ with_controllers.
      add_processor_accelerators system with_controllers >>= λ with_processors.
      add_pcie_devices system with_processors >>= λ with_devices. add_systems systems with_devices

  -- `discover_gpus`
  unfoldable pub discover_gpus : List System → Exec S (List Gpu)
  unfolding add_systems result
  discover_gpus systems = add_systems systems [] >>= λ candidates. pure (result candidates)

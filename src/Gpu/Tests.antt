-- ===== src/Gpu/Tests.antt =====
-- redfish_sdk/managers/gpu_discovery.py on three resources, the third of which joins the others.
mod Discovered
use redfish_python_sdk.Prelude.{
  ◌≡◌, refl, true, false, Option, none, some, List, [], ◌∷◌, map, Text, str, text_eq, lower, strip,
  starts_with, contains, any, filter_by, mem,
}
use redfish_python_sdk.Gpu.Signals.{is_gpu_processor, is_gpu_device}
use redfish_python_sdk.Gpu.{
  Gpu, Resource, set_add, set_update, meets, sorted, public_ids, identities_of, merge, absorb,
  replace_first, add_candidate, add, add_all, result,
}
use redfish_python_sdk.Exceptions.{not_found, attribute_error, is_redfish, status_code}
use redfish_python_sdk.Exec.{returned, raised, attempt}
use redfish_python_sdk.Exec.Settles.{with_value, with_error}
use redfish_python_sdk.Gpu.Sources.{
  Processor, ChassisDevices, collection, listed, System, Host, link_ids, function_identities,
  linked_identities, gpu_from_processor, with_function, with_functions, put_device, put_devices,
  device_links, is_gpu, device_identities,
}
use redfish_python_sdk.Gpu.Discovery.{
  add_controllers, append_new, cached_function, add_graphics_controllers,
  enrich_from_environment_metrics, enrich_from_acceleration_functions, add_processor,
  add_processors, add_processor_accelerators, fetch_devices, fetch_functions, device_functions,
  add_device, add_devices, add_pcie_devices, add_systems, discover_gpus,
}
use redfish_python_sdk.Gpu.Tolerant.{AreTolerable}
use redfish_python_sdk.Gpu.Systems.{IsForeign, discover_gpus-AreFound, discover_gpus_returns}
use redfish_python_sdk.Gpu.Found.{AreFound}
use redfish_python_sdk.Exec.Settles.{Settles}
use redfish_python_sdk.Gpu.Signals.{PcieDevice, gpu_from_pcie_device}
use redfish_python_sdk.Gpu.{unique, set_add}
use redfish_python_sdk.Gpu.Components.{AreComponents, identities_added, add_all-AreComponents}

pub computing : Unit {0}
unfolding text_eq lower strip starts_with contains any filter_by mem set_add set_update meets sorted
    public_ids identities_of merge absorb replace_first add_candidate add add_all result
    is_gpu_processor is_gpu_device attempt is_redfish status_code unique link_ids
    function_identities linked_identities gpu_from_processor with_function with_functions put_device
    put_devices device_links is_gpu device_identities add_controllers append_new cached_function
    add_graphics_controllers enrich_from_environment_metrics enrich_from_acceleration_functions
    add_processor add_processors add_processor_accelerators fetch_devices fetch_functions
    device_functions add_device add_devices add_pcie_devices add_systems discover_gpus
    gpu_from_pcie_device
computing = tt

abbrev pub gpu : Text → Option Text → Option Text → Gpu
gpu odata_id serial model = record {
  odata_id = some odata_id;
  id = none;
  name = none;
  manufacturer = none;
  model = model;
  version = none;
  power_watts = none;
  oem = some serial;
  source_types = [];
  source_odata_ids = [];
  related_resource_odata_ids = [];
}

abbrev controller : Resource
controller = record {
  gpu = gpu (str "/g") (some (str "n/a")) none;
  source_type = str "GraphicsController";
  identities = str "/d" ∷ [];
}

abbrev processor : Resource
processor = record {
  gpu = gpu (str "/p") (some (str " S1 ")) (some (str "A"));
  source_type = str "Processor";
  identities = [];
}

abbrev device : Resource
device = record {
  gpu = gpu (str "/d") (some (str "s1")) (some (str "B"));
  source_type = str "PCIeDevice";
  identities = [];
}

abbrev resources : List Resource
resources = controller ∷ processor ∷ device ∷ []

-- The device shares its own link with the controller and its serial number with the processor.
add_all_test :
    result (add_all resources [])
    ≡ record (gpu (str "/g") (some (str "n/a")) (some (str "B"))) {
      source_types = str "GraphicsController" ∷ str "PCIeDevice" ∷ str "Processor" ∷ [];
      source_odata_ids = str "/g" ∷ str "/d" ∷ str "/p" ∷ [];
      related_resource_odata_ids = str "/d" ∷ str "/g" ∷ str "/p" ∷ [];
    }
      ∷ []
unfolding computing
add_all_test = refl

abbrev blank : Text → Resource
blank odata_id = record {
  gpu = gpu odata_id (some (str " ")) none;
  source_type = str "Processor";
  identities = [];
}

-- Two processors whose serial number is a blank are one GPU.
blank_serial_test :
    map
      (λ (g : Gpu). g.source_odata_ids)
      (result (add_all (blank (str "/1") ∷ blank (str "/2") ∷ []) []))
    ≡ (str "/1" ∷ str "/2" ∷ []) ∷ []
unfolding computing
blank_serial_test = refl

is_gpu_test :
    (is_gpu_processor (some (str "Accelerator")) none (some (str "GPU-A")) ≡ true)
    × (is_gpu_device (some (str "NetworkController") ∷ []) none none ≡ false)
    × (is_gpu_device (some (str "Display Controller") ∷ []) none none ≡ true)
unfolding computing
is_gpu_test = (refl, refl, refl)

add_all-AreComponents_example :
    AreComponents (map identities_added resources) (add_all resources [])
add_all-AreComponents_example = add_all-AreComponents resources

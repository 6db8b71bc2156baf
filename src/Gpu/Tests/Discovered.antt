-- ===== src/Gpu/Tests/Discovered.antt =====
-- `discover_gpus` of redfish_sdk/managers/gpu_discovery.py on a service that has little to give.
use redfish_python_sdk.Prelude.{◌≡◌, refl, Option, none, some, List, [], ◌∷◌, str}
use redfish_python_sdk.Gpu.{Gpu}
use redfish_python_sdk.Exceptions.{not_found, attribute_error}
use redfish_python_sdk.Exec.{returned, raised}
use redfish_python_sdk.Exec.Settles.{with_value, with_error}
use redfish_python_sdk.Gpu.Sources.{Processor, ChassisDevices, collection, listed, System, Host}
use redfish_python_sdk.Gpu.Discovery.{discover_gpus}
use redfish_python_sdk.Gpu.Tolerant.{AreTolerable}
use redfish_python_sdk.Gpu.Systems.{IsForeign, discover_gpus-AreFound, discover_gpus_returns}
use redfish_python_sdk.Gpu.Found.{AreFound}
use redfish_python_sdk.Exec.Settles.{Settles}
use redfish_python_sdk.Gpu.Signals.{PcieDevice}
use redfish_python_sdk.Gpu.Tests.{gpu, computing}

abbrev accelerator : Processor
accelerator = record {
  odata_id = some (str "/p");
  id = none;
  name = some (str "GPU 1");
  manufacturer = none;
  model = none;
  firmware_version = none;
  tdp_watts = none;
  serial_number = some (str "S1");
  processor_type = some (str "Accelerator");
  links = none;
  environment_metrics = some (some (str "/m"));
  acceleration_functions = some (some (str "/a"));
}

abbrev linked_device : PcieDevice
linked_device = record {
  odata_id = some (str "/d");
  id = none;
  name = some (str "Gpu card");
  manufacturer = none;
  model = none;
  firmware_version = none;
  card_model = none;
  part_number = none;
  serial_number = some (str "s1");
  power_watts = none;
  device_type = none;
  environment_metrics = none;
  pcie_functions = none;
  function_links = some (str "/f") ∷ [];
  processor_links = [];
}

-- A service without graphics controllers, metrics, a collection of devices and functions; the state
-- is unchanged.
abbrev service : Option ChassisDevices → Host (Unit {0})
service chassis = record {
  controllers = λ uri s. raised not_found s;
  processors = λ uri s. returned (accelerator ∷ []) s;
  acceleration_functions = λ uri s.
      returned
        (record {
          odata_id = some (str "/a1");
          manufacturer = some (str "M");
          version = none;
          power_watts = some (str "70");
          pcie_functions = [];
        }
          ∷ [])
        s;
  power_reading = λ uri s. raised not_found s;
  chassis_devices = λ s. returned chassis s;
  devices = λ uri s. raised not_found s;
  device = λ uri s. returned linked_device s;
  functions = λ uri s. raised not_found s;
  function = λ path s. raised not_found s;
}

abbrev system : System
system = record {
  graphics_controllers = some (some (str "/g"));
  processors = some (some (str "/ps"));
  pcie_devices = some (str "/d") ∷ [];
  linked_devices = none ∷ some (str "/d") ∷ [];
}

abbrev found : Gpu
found = record (gpu (str "/p") (some (str "S1")) none) {
  name = some (str "GPU 1");
  manufacturer = some (str "M");
  power_watts = some (str "70");
  source_types = str "Processor" ∷ str "PCIeDevice" ∷ [];
  source_odata_ids = str "/p" ∷ str "/d" ∷ [];
  related_resource_odata_ids = str "/a1" ∷ str "/d" ∷ str "/m" ∷ str "/p" ∷ [];
}

discover_gpus_test :
    discover_gpus (service (some (collection (some (str "/c"))))) (system ∷ []) tt
    ≡ returned (found ∷ []) tt
unfolding computing
discover_gpus_test = refl

-- A chassis that lists its devices stops discovery.
listed_devices_test :
    discover_gpus (service (some (listed (some (str "/d") ∷ [])))) (system ∷ []) tt
    ≡ raised attribute_error tt
unfolding computing
listed_devices_test = refl

discover_gpus-AreFound_example :
    Settles
      (AreFound (service (some (listed (some (str "/d") ∷ [])))))
      IsForeign
      (discover_gpus (service (some (listed (some (str "/d") ∷ [])))) (system ∷ []) tt)
discover_gpus-AreFound_example =
    discover_gpus-AreFound (service (some (listed (some (str "/d") ∷ [])))) (system ∷ []) tt

service-AreTolerable : AreTolerable (service (some (collection (some (str "/c"))))) (λ _. ⊥)
unfolding computing
service-AreTolerable = record {
  controllers = λ uri s. with_error (λ f. absurd (cc f));
  processors = λ uri s. with_value tt;
  acceleration_functions = λ uri s. with_value tt;
  power_reading = λ uri s. with_error (λ f. absurd (cc f));
  chassis = λ s. with_error (λ f. absurd (cc f));
  device = λ uri s. with_value tt;
  functions = λ uri s. with_error (λ f. absurd (cc f));
  function = λ path s. with_error (λ f. absurd (cc f));
}

discover_gpus_returns_example :
    (gpus : List Gpu) × (s : Unit {0}) × (discover_gpus
        (service (some (collection (some (str "/c")))))
        (system ∷ [])
        tt
      ≡ returned gpus s)
discover_gpus_returns_example =
    discover_gpus_returns (service (some (collection (some (str "/c"))))) (system ∷ []) tt
      service-AreTolerable

-- ===== src/Gpu/Sources.antt =====
-- The resources that redfish_sdk/managers/gpu_discovery.py reads, with redfish_sdk/models/gpu.py,
-- and what it makes of them without a call of the service.
use redfish_python_sdk.Prelude.{
  Bool, not, ◌&&◌, Option, none, some, List, [], ◌∷◌, ◌++◌, map, Text, text_eq, is_empty, filter_by,
  if◌then◌else◌,
}
use redfish_python_sdk.Exec.{Exec}
use redfish_python_sdk.HttpClient.Session.{truthy, or_else}
use redfish_python_sdk.Members.{Link, uri_of}
use redfish_python_sdk.Gpu.Signals.{PcieDevice, or_if_false, is_gpu_device}
use redfish_python_sdk.Gpu.{Gpu, set_add, set_update, unique, sorted, or_other}

-- `GpuLinks`; the `Links` of a processor have the first two.
pub record Links : Type 0 where
  pub pcie_device : Option Link
  pub pcie_functions : List Link
  pub processors : List Link

-- A member of GraphicsControllers: a `Gpu` with its `Links`.
pub record Controller : Type 0 where
  pub gpu : Gpu
  pub links : Option Links

-- The parts of a `Processor` that are read; `tdp_watts` is the text of the number.
pub record Processor : Type 0 where
  pub odata_id : Option Text
  pub id : Option Text
  pub name : Option Text
  pub manufacturer : Option Text
  pub model : Option Text
  pub firmware_version : Option Text
  pub tdp_watts : Option Text
  pub serial_number : Option Text
  pub processor_type : Option Text
  pub links : Option Links
  pub environment_metrics : Option Link
  pub acceleration_functions : Option Link

-- The parts of an `AccelerationFunction` that are read.
pub record AccelerationFunction : Type 0 where
  pub odata_id : Option Text
  pub manufacturer : Option Text
  pub version : Option Text
  pub power_watts : Option Text
  pub pcie_functions : List Link

-- The parts of a `PCIeFunction` that are read.
pub record PcieFunction : Type 0 where
  pub odata_id : Option Text
  pub device_class : Option Text

-- `Chassis.pcie_devices`, a `Union[Link, List[Link]]`
pub data ChassisDevices : Type 0 where
  collection : Link → ChassisDevices
  listed : List Link → ChassisDevices

-- The parts of a `System` that are read; `linked_devices` is in its `Links`.
pub record System : Type 0 where
  pub graphics_controllers : Option Link
  pub processors : Option Link
  pub pcie_devices : List Link
  pub linked_devices : List Link

-- What discovery asks of the client: collections, single resources, and `ChassisManager.get`.
pub record Host {ℓ} (S : Type ℓ) : Type ℓ where
  pub controllers : Text → Exec S (List Controller)
  pub processors : Text → Exec S (List Processor)
  pub acceleration_functions : Text → Exec S (List AccelerationFunction)
  pub power_reading : Text → Exec S (Option Text)
  pub chassis_devices : Exec S (Option ChassisDevices)
  pub devices : Text → Exec S (List PcieDevice)
  pub device : Text → Exec S PcieDevice
  pub functions : Text → Exec S (List PcieFunction)
  pub function : Text → Exec S PcieFunction

-- `_link_ids`
unfoldable pub link_ids : List Link → List Text
unfolding filter_by unique
link_ids links = unique (filter_by (λ s. not (is_empty s)) (map (λ link. or_else link []) links))

abbrev pub add_uri : Text → List Text → List Text
add_uri uri identities = if is_empty uri then identities else set_add uri identities

-- The identities that the `Links` of a processor give.
unfoldable pub function_identities : Option Links → List Text
unfolding link_ids set_add set_update
function_identities none = []
function_identities (some links) =
    set_update (add_uri (uri_of links.pcie_device) []) (link_ids links.pcie_functions)

-- The identities that the `Links` of a controller give.
unfoldable pub linked_identities : Option Links → List Text
unfolding function_identities link_ids set_update
linked_identities none = []
linked_identities (some links) =
    set_update (function_identities (some links)) (link_ids links.processors)

-- `Gpu.model_construct(…)` of a processor
unfoldable pub gpu_from_processor : Processor → Gpu
gpu_from_processor processor = record {
  odata_id = processor.odata_id;
  id = processor.id;
  name = processor.name;
  manufacturer = processor.manufacturer;
  model = processor.model;
  version = processor.firmware_version;
  power_watts = processor.tdp_watts;
  oem = if truthy processor.serial_number then some processor.serial_number else none;
  source_types = [];
  source_odata_ids = [];
  related_resource_odata_ids = [];
}

-- One round of the loop over the acceleration functions.
unfoldable pub with_function : AccelerationFunction → Gpu × List Text → Gpu × List Text
unfolding link_ids set_add set_update
with_function function (gpu, identities) = (
  record gpu {
    manufacturer = or_if_false gpu.manufacturer function.manufacturer;
    version = or_if_false gpu.version function.version;
    power_watts = or_other gpu.power_watts function.power_watts;
  },
  set_update (add_uri (or_else function.odata_id []) identities) (link_ids function.pcie_functions),
)

unfoldable pub with_functions : List AccelerationFunction → Gpu × List Text → Gpu × List Text
unfolding with_function
with_functions [] parts = parts
with_functions (function ∷ functions) parts =
    with_functions functions (with_function function parts)

-- if device.odata_id: devices[device.odata_id] = device
unfoldable pub put_device : PcieDevice → List (Text × PcieDevice) → List (Text × PcieDevice)
unfolding text_eq
put_device device [] =
    if truthy device.odata_id then (or_else device.odata_id [], device) ∷ [] else []
put_device device ((uri, other) ∷ devices) =
    let rest = put_device device devices in
    if truthy device.odata_id && text_eq uri (or_else device.odata_id [])
    then (uri, device) ∷ devices
    else (uri, other) ∷ rest

unfoldable pub put_devices : List PcieDevice → List (Text × PcieDevice) → List (Text × PcieDevice)
unfolding put_device
put_devices [] devices = devices
put_devices (device ∷ members) devices = put_devices members (put_device device devices)

-- sorted(links, key=…), by the `@odata.id` in them
unfoldable pub device_links : System → List Text
unfolding sorted
device_links system =
    sorted (map (λ link. or_else link []) (system.pcie_devices ++ system.linked_devices))

-- The test of the three signals.
unfoldable pub is_gpu : PcieDevice → List PcieFunction → Bool
unfolding is_gpu_device
is_gpu device functions =
    is_gpu_device (map (λ f. f.device_class) functions) device.name device.device_type

-- {device.odata_id}, with those of the functions and of the processors
unfoldable pub device_identities : PcieDevice → List PcieFunction → List Text
unfolding link_ids set_update filter_by
device_identities device functions =
    set_update
      (set_update (add_uri (or_else device.odata_id []) [])
        (link_ids (map (λ f. f.odata_id) functions)))
      (link_ids device.processor_links)

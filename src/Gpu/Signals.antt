-- ===== src/Gpu/Signals.antt =====
-- The tests by which a processor or a PCIe device counts as a GPU, and `_gpu_from_pcie_device`, of
-- redfish_sdk/managers/gpu_discovery.py.
use redfish_python_sdk.Prelude.{
  Bool, not, ◌&&◌, ◌||◌, ◌==◌, Option, none, some, List, [], ◌∷◌, ◌++◌, Text, str, text_eq, lower,
  contains, any, filter_by, mem, if◌then◌else◌,
}
use redfish_python_sdk.HttpClient.Session.{truthy, or_else}
use redfish_python_sdk.Gpu.{Gpu}

-- The part of a `Processor` that `_add_processor_accelerators` tests.
unfoldable pub is_gpu_processor : Option Text → Option Text → Option Text → Bool
unfolding lower contains
is_gpu_processor processor_type name model =
    let kind = lower (or_else processor_type []) in
    let label =
      if truthy name && truthy model
      then or_else name [] ++ (b' ' ∷ or_else model [])
      else if truthy name
      then or_else name []
      else or_else model [] in
    text_eq kind (str "gpu")
    || (text_eq kind (str "accelerator") && contains (lower label) (str "gpu"))

-- `_GPU_PCIE_FUNCTION_CLASSES`
abbrev pub gpu_pcie_function_classes : List Text
gpu_pcie_function_classes =
    str "displaycontroller" ∷ str "processingaccelerators" ∷ str "coprocessor" ∷ []

-- The three signals of `_add_pcie_devices`, of the classes of the device's functions, its name and
-- its type.
unfoldable pub is_gpu_device : List (Option Text) → Option Text → Option Text → Bool
unfolding any filter_by lower contains mem
is_gpu_device classes name device_type =
    any
      (λ device_class.
        mem (lower (filter_by (λ c. not (c == b' ')) (or_else device_class [])))
          gpu_pcie_function_classes)
      classes
    || contains (lower (or_else name [])) (str "gpu")
    || text_eq (lower (or_else device_type [])) (str "gpu")

-- The parts of a `PCIeDevice` that are read: the power is the text of a positive number of watts, a
-- link is the `@odata.id` in it, and `function_links` and `processor_links` are its `Links`.
pub record PcieDevice : Type 0 where
  pub odata_id : Option Text
  pub id : Option Text
  pub name : Option Text
  pub manufacturer : Option Text
  pub model : Option Text
  pub firmware_version : Option Text
  pub card_model : Option Text
  pub part_number : Option Text
  pub serial_number : Option Text
  pub power_watts : Option Text
  pub device_type : Option Text
  pub environment_metrics : Option (Option Text)
  pub pcie_functions : Option (Option Text)
  pub function_links : List (Option Text)
  pub processor_links : List (Option Text)

abbrev pub or_if_false : Option Text → Option Text → Option Text
or_if_false value other = if truthy value then value else other

-- `_gpu_from_pcie_device`
unfoldable pub gpu_from_pcie_device : PcieDevice → Gpu
gpu_from_pcie_device device = record {
  odata_id = device.odata_id;
  id = device.id;
  name = device.name;
  manufacturer = device.manufacturer;
  model = device.model;
  version = or_if_false device.firmware_version (or_if_false device.card_model device.part_number);
  power_watts = device.power_watts;
  oem = if truthy device.serial_number then some device.serial_number else none;
  source_types = [];
  source_odata_ids = [];
  related_resource_odata_ids = [];
}

-- ===== src/Gpu/Tolerant.antt =====
-- How the readers of redfish_sdk/managers/gpu_discovery.py end, whatever the service answers.
use redfish_python_sdk.Prelude.{
  ◌≡◌, refl, true, Option, none, some, List, [], ◌∷◌, Text, str, is_empty, mem, All, inl, inr,
  arith, Bool-cases,
}
use redfish_python_sdk.Exceptions.{Exc}
use redfish_python_sdk.Exec.{Exec, pure, attempt}
use redfish_python_sdk.Exec.Settles.{
  Settles, with_value, Attempted, failed, succeeded, Fails, attempt-Settles, Settles-bind,
  Settles-weaken,
}
use redfish_python_sdk.HttpClient.Session.{or_else}
use redfish_python_sdk.Members.{Link, uri_of}
use redfish_python_sdk.Gpu.Signals.{is_gpu_processor}
use redfish_python_sdk.Gpu.{Gpu, Candidate, add, set_add}
use redfish_python_sdk.Gpu.Groups.{mem-set_add, mem-set_update}
use redfish_python_sdk.Gpu.Sources.{
  Controller, Processor, AccelerationFunction, System, Host, link_ids, add_uri, function_identities,
  linked_identities, gpu_from_processor, with_function, with_functions,
}
use redfish_python_sdk.Gpu.Discovery.{
  or_nothing, tolerated, add_controllers, with_reading, add_graphics_controllers,
  enrich_from_environment_metrics, enrich_from_acceleration_functions, add_processor,
  add_processors, add_processor_accelerators, chassis_members,
}
use redfish_python_sdk.Gpu.Found.{
  IsRead, given-IsRead, Enriches, Enriches-refl, Enriches-trans, of_controller, of_processor, Grows,
  Grows-refl, Grows-add, Grows-trans,
}

with_reading-Enriches :
    (reading : Option (Option Text)) (uri : Text) (parts : Gpu × List Text)
    → Enriches parts (with_reading reading parts.0, set_add uri parts.1)
with_reading-Enriches none uri (gpu, identities) = record {
  same_odata_id = refl;
  same_id = refl;
  same_name = refl;
  same_model = refl;
  same_oem = refl;
  kept = λ x m. ground (arith, mem-set_add x uri identities);
}
with_reading-Enriches (some none) uri (gpu, identities) = record {
  same_odata_id = refl;
  same_id = refl;
  same_name = refl;
  same_model = refl;
  same_oem = refl;
  kept = λ x m. ground (arith, mem-set_add x uri identities);
}
with_reading-Enriches (some (some reading)) uri (gpu, identities) = record {
  same_odata_id = refl;
  same_id = refl;
  same_name = refl;
  same_model = refl;
  same_oem = refl;
  kept = λ x m. ground (arith, mem-set_add x uri identities);
}

add_uri-kept :
    (x uri : Text) (identities : List Text)
    → mem x identities ≡ true
    → mem x (add_uri uri identities) ≡ true
add_uri-kept x uri identities m = elim (Bool-cases (is_empty uri)) [
  | inl t ↦ rw t m
  | inr f ↦ rw f (ground (arith, mem-set_add x uri identities))
]

with_functions-Enriches :
    (functions : List AccelerationFunction) (parts : Gpu × List Text)
    → Enriches parts (with_functions functions parts)
unfolding with_functions with_function
with_functions-Enriches [] parts = Enriches-refl parts
with_functions-Enriches (f ∷ functions) (gpu, identities) =
    Enriches-trans
      (record {
        same_odata_id = refl;
        same_id = refl;
        same_name = refl;
        same_model = refl;
        same_oem = refl;
        kept = λ x m. ground (
          arith,
          add_uri-kept x (or_else f.odata_id []) identities m,
          mem-set_update x (add_uri (or_else f.odata_id []) identities) (link_ids f.pcie_functions),
        );
      })
      (with_functions-Enriches functions (with_function f (gpu, identities)))

module _ {ℓ} {S : Type ℓ} (host : Host S) (E : Exc → Type 0) where
  -- Every exception that a call of the service raises is a RedfishException or has the property.
  pub record AreTolerable : Type ℓ where
    pub controllers : (uri : Text) → Fails E (host.controllers uri)
    pub processors : (uri : Text) → Fails E (host.processors uri)
    pub acceleration_functions : (uri : Text) → Fails E (host.acceleration_functions uri)
    pub power_reading : (uri : Text) → Fails E (host.power_reading uri)
    pub chassis : Fails E (chassis_members host)
    pub device : (uri : Text) → Fails E (host.device uri)
    pub functions : (uri : Text) → Fails E (host.functions uri)
    pub function : (path : Text) → Fails E (host.function path)

  pub tolerated-Settles :
      {A : Type 0} (read : Text → Exec S (List A)) (uri : Text) (s : S)
      → ((uri : Text) → Fails E (read uri))
      → Settles (All (IsRead read)) E (tolerated read uri s)
  tolerated-Settles {A} read uri s fails = elim (Bool-cases (is_empty uri)) [
    | inl t ↦ rw t (with_value tt)
    | inr f ↦ rw f (
        Settles-bind (attempt (read uri)) (λ members. pure (or_nothing members)) s
          (attempt-Settles E (read uri) s (fails uri))
          (λ members s' given. with_value (at_attempt members given)))
  ]
    where
      at_attempt :
          (members : Option (List A))
          → Attempted (read uri) members
          → All (IsRead read) (or_nothing members)
      at_attempt none failed = tt
      at_attempt (some members) (succeeded given) = given-IsRead read uri members given

  module _ (tolerable : AreTolerable) where
    add_controllers-Grows :
        (controllers : List Controller) (candidates : List Candidate)
        → All (IsRead host.controllers) controllers
        → Grows host candidates (add_controllers controllers candidates)
    unfolding add_controllers
    add_controllers-Grows [] candidates h = Grows-refl host candidates
    add_controllers-Grows (c ∷ controllers) candidates (read, h) =
        let first =
          Grows-add host
            (record {
              gpu = c.gpu;
              source_type = str "GraphicsController";
              identities = linked_identities c.links;
            })
            candidates (of_controller c read) in
        Grows-trans host first (
          add_controllers-Grows controllers
            (add c.gpu (str "GraphicsController") (linked_identities c.links) candidates) h)

    pub add_graphics_controllers-Settles :
        (system : System) (candidates : List Candidate) (s : S)
        → Settles (Grows host candidates) E (add_graphics_controllers host system candidates s)
    unfolding add_graphics_controllers
    add_graphics_controllers-Settles system candidates s =
        Settles-bind (tolerated host.controllers (uri_of system.graphics_controllers)) _ s
          (tolerated-Settles host.controllers (uri_of system.graphics_controllers) s
            tolerable.controllers)
          (λ controllers s' read. with_value (add_controllers-Grows controllers candidates read))

    pub enrich_from_environment_metrics-Settles :
        (link : Option Link) (parts : Gpu × List Text) (s : S)
        → Settles (Enriches parts) E (enrich_from_environment_metrics host link parts s)
    unfolding enrich_from_environment_metrics
    enrich_from_environment_metrics-Settles link (gpu, identities) s =
        elim (Bool-cases (is_empty (uri_of link))) [
          | inl t ↦ rw t (with_value (Enriches-refl (gpu, identities)))
          | inr f ↦ rw f (
              Settles-bind (attempt (host.power_reading (uri_of link))) _ s
                (attempt-Settles E (host.power_reading (uri_of link)) s
                  (tolerable.power_reading (uri_of link)))
                (λ reading s' _.
                  with_value (with_reading-Enriches reading (uri_of link) (gpu, identities))))
        ]

    enrich_from_acceleration_functions-Settles :
        (p : Processor) (parts : Gpu × List Text) (s : S)
        → Settles (Enriches parts) E (enrich_from_acceleration_functions host p parts s)
    unfolding enrich_from_acceleration_functions
    enrich_from_acceleration_functions-Settles p parts s =
        Settles-bind (tolerated host.acceleration_functions (uri_of p.acceleration_functions)) _ s
          (tolerated-Settles host.acceleration_functions (uri_of p.acceleration_functions) s
            tolerable.acceleration_functions)
          (λ functions s' _. with_value (with_functions-Enriches functions parts))

    add_processor-Settles :
        (p : Processor) (candidates : List Candidate) (s : S)
        → IsRead host.processors p
        → Settles (Grows host candidates) E (add_processor host p candidates s)
    unfolding add_processor
    add_processor-Settles p candidates s read =
        elim (Bool-cases (is_gpu_processor p.processor_type p.name p.model)) [
          | inr f ↦ rw f (with_value (Grows-refl host candidates))
          | inl t ↦ rw t (
              let base : Gpu × List Text = (gpu_from_processor p, function_identities p.links) in
              Settles-bind (enrich_from_environment_metrics host p.environment_metrics base) _ s
                (enrich_from_environment_metrics-Settles p.environment_metrics base s)
                (λ metered s' first.
                  Settles-bind (enrich_from_acceleration_functions host p metered) _ s'
                    (enrich_from_acceleration_functions-Settles p metered s')
                    (λ parts s'' then_. with_value (
                      Grows-add host
                        (record {
                          gpu = parts.0;
                          source_type = str "Processor";
                          identities = parts.1;
                        })
                        candidates (of_processor p parts read t (Enriches-trans first then_))))))
        ]

    add_processors-Settles :
        (processors : List Processor) (candidates : List Candidate) (s : S)
        → All (IsRead host.processors) processors
        → Settles (Grows host candidates) E (add_processors host processors candidates s)
    unfolding add_processors
    add_processors-Settles [] candidates s h = with_value (Grows-refl host candidates)
    add_processors-Settles (p ∷ processors) candidates s (read, h) =
        Settles-bind (add_processor host p candidates) _ s
          (add_processor-Settles p candidates s read)
          (λ added s' first.
            Settles-weaken (add_processors host processors added s')
              (add_processors-Settles processors added s' h)
              (λ after rest. Grows-trans host first rest))

    pub add_processor_accelerators-Settles :
        (system : System) (candidates : List Candidate) (s : S)
        → Settles (Grows host candidates) E (add_processor_accelerators host system candidates s)
    unfolding add_processor_accelerators
    add_processor_accelerators-Settles system candidates s =
        Settles-bind (tolerated host.processors (uri_of system.processors)) _ s
          (tolerated-Settles host.processors (uri_of system.processors) s tolerable.processors)
          (λ processors s' read. add_processors-Settles processors candidates s' read)

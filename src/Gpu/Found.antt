-- ===== src/Gpu/Found.antt =====
-- Where the GPUs that redfish_sdk/managers/gpu_discovery.py reports come from: resources that the
-- service gave and that count as GPUs.
use redfish_python_sdk.Prelude.{
  ◌≡◌, refl, ◌∙◌, true, List, [], ◌∷◌, ◌++◌, map, Text, str, mem, All, All-append, IsMember, inl,
  inr,
}
use redfish_python_sdk.Exec.{Exec}
use redfish_python_sdk.Exec.Answers.{HasGiven}
use redfish_python_sdk.Gpu.Signals.{PcieDevice, is_gpu_processor, gpu_from_pcie_device}
use redfish_python_sdk.Gpu.{Gpu, Candidate, Resource, add, add_all, result}
use redfish_python_sdk.Gpu.Components.{AreComponents, identities_added, add_all-AreComponents}
use redfish_python_sdk.Gpu.Sources.{
  Controller, Processor, PcieFunction, Host, function_identities, linked_identities,
  gpu_from_processor, is_gpu, device_identities,
}

module _ {ℓ} {S : Type ℓ} where
  -- A member of a list that the call gave.
  pub record IsRead {A : Type 0} (read : Text → Exec S (List A)) (x : A) : Type ℓ where
    pub uri : Text
    pub members : List A
    pub was_read : HasGiven (read uri) members
    pub member : IsMember x members

  members-IsRead :
      {A : Type 0} (read : Text → Exec S (List A)) (uri : Text) (members xs : List A)
      → HasGiven (read uri) members
      → ((x : A) → IsMember x xs → IsMember x members)
      → All (IsRead read) xs
  members-IsRead read uri members [] given inside = tt
  members-IsRead read uri members (x ∷ xs) given inside = (
    record { uri = uri; members = members; was_read = given; member = inside x (inl refl) },
    members-IsRead read uri members xs given (λ y m. inside y (inr m)),
  )

  pub given-IsRead :
      {A : Type 0} (read : Text → Exec S (List A)) (uri : Text) (members : List A)
      → HasGiven (read uri) members
      → All (IsRead read) members
  given-IsRead read uri members given = members-IsRead read uri members members given (λ _ m. m)

-- The GPU is the one it was made as, with more identities: what is read of it later gives its
-- manufacturer, its version and its power only.
pub record Enriches (base enriched : Gpu × List Text) : Type 0 where
  pub same_odata_id : enriched.0.odata_id ≡ base.0.odata_id
  pub same_id : enriched.0.id ≡ base.0.id
  pub same_name : enriched.0.name ≡ base.0.name
  pub same_model : enriched.0.model ≡ base.0.model
  pub same_oem : enriched.0.oem ≡ base.0.oem
  pub kept : (x : Text) → mem x base.1 ≡ true → mem x enriched.1 ≡ true

pub Enriches-refl : (parts : Gpu × List Text) → Enriches parts parts
Enriches-refl parts = record {
  same_odata_id = refl;
  same_id = refl;
  same_name = refl;
  same_model = refl;
  same_oem = refl;
  kept = λ _ m. m;
}

pub Enriches-trans : {a b c : Gpu × List Text} → Enriches a b → Enriches b c → Enriches a c
Enriches-trans f g = record {
  same_odata_id = g.same_odata_id ∙ f.same_odata_id;
  same_id = g.same_id ∙ f.same_id;
  same_name = g.same_name ∙ f.same_name;
  same_model = g.same_model ∙ f.same_model;
  same_oem = g.same_oem ∙ f.same_oem;
  kept = λ x m. g.kept x (f.kept x m);
}

add_all-append :
    (first rest : List Resource) (candidates : List Candidate)
    → add_all (first ++ rest) candidates ≡ add_all rest (add_all first candidates)
unfolding add_all
add_all-append [] rest candidates = refl
add_all-append (r ∷ first) rest candidates =
    add_all-append first rest (add r.gpu r.source_type r.identities candidates)

module _ {ℓ} {S : Type ℓ} (host : Host S) where
  -- A device is a member of a collection that the service gave, or what it gave for a link.
  pub data IsDevice (device : PcieDevice) : Type ℓ where
    as_member : IsRead host.devices device → IsDevice device
    as_linked : (uri : Text) → HasGiven (host.device uri) device → IsDevice device

  pub data IsFunction (function : PcieFunction) : Type ℓ where
    as_member : IsRead host.functions function → IsFunction function
    as_linked : (path : Text) → HasGiven (host.function path) function → IsFunction function

  -- A resource that counts as a GPU: a graphics controller, a processor whose type or label says
  -- so, or a PCIe device of which a function that was read, its name or its type says so.
  pub data IsSource : Resource → Type ℓ where
    of_controller :
        (c : Controller)
        → IsRead host.controllers c
        → IsSource (record {
          gpu = c.gpu;
          source_type = str "GraphicsController";
          identities = linked_identities c.links;
        })
    of_processor :
        (p : Processor) (parts : Gpu × List Text)
        → IsRead host.processors p
        → is_gpu_processor p.processor_type p.name p.model ≡ true
        → Enriches (gpu_from_processor p, function_identities p.links) parts
        → IsSource (record { gpu = parts.0; source_type = str "Processor"; identities = parts.1 })
    of_device :
        (d : PcieDevice) (functions : List PcieFunction) (parts : Gpu × List Text)
        → IsDevice d
        → All IsFunction functions
        → is_gpu d functions ≡ true
        → Enriches (gpu_from_pcie_device d, device_identities d functions) parts
        → IsSource (record { gpu = parts.0; source_type = str "PCIeDevice"; identities = parts.1 })

  -- The candidates after some resources that count as GPUs were added.
  pub record Grows (before after : List Candidate) : Type ℓ where
    pub resources : List Resource
    pub sources : All IsSource resources
    pub added : after ≡ add_all resources before

  pub Grows-refl : (candidates : List Candidate) → Grows candidates candidates
  unfolding add_all
  Grows-refl candidates = record { resources = []; sources = tt; added = refl }

  pub Grows-add :
      (r : Resource) (candidates : List Candidate)
      → IsSource r
      → Grows candidates (add r.gpu r.source_type r.identities candidates)
  unfolding add_all
  Grows-add r candidates source = record {
    resources = r ∷ [];
    sources = (source, tt);
    added = refl;
  }

  pub Grows-trans : {a b c : List Candidate} → Grows a b → Grows b c → Grows a c
  Grows-trans {a} {b} {c} f g = record {
    resources = f.resources ++ g.resources;
    sources = All-append IsSource f.resources g.resources f.sources g.sources;
    added = rw (add_all-append f.resources g.resources a, ← f.added) g.added;
  }

  -- The GPUs are the connected components, by shared identities, of resources that count as GPUs.
  pub record AreFound (gpus : List Gpu) : Type ℓ where
    pub resources : List Resource
    pub sources : All IsSource resources
    pub merged : gpus ≡ result (add_all resources [])
    pub grouped : AreComponents (map identities_added resources) (add_all resources [])

  pub Grows-AreFound :
      (candidates : List Candidate) → Grows [] candidates → AreFound (result candidates)
  Grows-AreFound candidates g = record {
    resources = g.resources;
    sources = g.sources;
    merged = rw g.added refl;
    grouped = add_all-AreComponents g.resources;
  }

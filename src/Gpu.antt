-- ===== src/Gpu.antt =====
-- The merge of GPU resources in redfish_sdk/managers/gpu_discovery.py, `_GpuInventory`, with the
-- `Gpu` of redfish_sdk/models/gpu.py.
pub mod Signals
pub mod Groups
pub mod Disjoint
pub mod Chains
pub mod Components
pub mod Sources
pub mod Discovery
pub mod Found
pub mod Tolerant
pub mod Devices
pub mod Systems
mod Tests
use redfish_python_sdk.Prelude.{
  ℕ, Bool, true, false, not, ◌&&◌, ◌||◌, ◌==◌, ltb, Option, none, some, List, [], ◌∷◌, ◌++◌, map,
  Text, str, text_eq, lower, strip, starts_with, contains, is_empty, any, filter_by, mem,
  if◌then◌else◌,
}
use redfish_python_sdk.HttpClient.Session.{truthy, or_else}

-- `Gpu`; `oem` is its serial number, where it has an OEM part.
pub record Gpu : Type 0 where
  pub odata_id : Option Text
  pub id : Option Text
  pub name : Option Text
  pub manufacturer : Option Text
  pub model : Option Text
  pub version : Option Text
  pub power_watts : Option Text
  pub oem : Option (Option Text)
  pub source_types : List Text
  pub source_odata_ids : List Text
  pub related_resource_odata_ids : List Text

-- An entry of `candidates`: a GPU and the set of its identities.
pub record Candidate : Type 0 where
  pub gpu : Gpu
  pub identities : List Text

-- s.add(x), of a set
unfoldable pub set_add : Text → List Text → List Text
unfolding mem
set_add x s = if mem x s then s else s ++ (x ∷ [])

-- s.update(t), of sets
unfoldable pub set_update : List Text → List Text → List Text
set_update s [] = s
set_update s (x ∷ t) = set_update (set_add x s) t

-- bool(s & t), of sets
unfoldable pub meets : List Text → List Text → Bool
unfolding any mem
meets s t = any (λ x. mem x t) s

-- list(dict.fromkeys(s))
unfoldable pub unique : List Text → List Text
unfolding set_update
unique s = set_update [] s

-- s <= t, of texts
unfoldable pub text_le : Text → Text → Bool
text_le [] t = true
text_le (c ∷ s) [] = false
text_le (c ∷ s) (d ∷ t) = ltb c d || (c == d && text_le s t)

unfoldable pub insert : Text → List Text → List Text
unfolding text_le
insert s [] = s ∷ []
insert s (t ∷ ts) = if text_le s t then s ∷ t ∷ ts else t ∷ insert s ts

-- sorted(s)
unfoldable pub sorted : List Text → List Text
unfolding insert
sorted [] = []
sorted (s ∷ ts) = insert s (sorted ts)

-- `_public_ids`
unfoldable pub public_ids : List Text → List Text
unfolding filter_by starts_with sorted
public_ids identities =
    sorted (filter_by (λ item. not (starts_with item (str "serial:"))) identities)

abbrev pub serial_of : Option (Option Text) → Option Text
serial_of none = none
serial_of (some serial) = serial

-- the identities of the arguments, with those that the GPU itself has
unfoldable pub identities_of : Gpu → List Text → List Text
unfolding set_add strip lower
identities_of gpu identities =
    let with_id =
      if truthy gpu.odata_id then set_add (or_else gpu.odata_id []) identities else identities in
    let serial = lower (strip (or_else (serial_of gpu.oem) [])) in
    if truthy (serial_of gpu.oem)
      && not (text_eq serial (str "n/a") || text_eq serial (str "not available"))
    then set_add (str "serial:" ++ serial) with_id
    else with_id

abbrev pub or_other : {A : Type 0} → Option A → Option A → Option A
or_other none other = other
or_other (some value) _ = some value

-- `_merge`
unfoldable pub merge : Gpu → Gpu → Gpu
unfolding unique
merge primary other = record primary {
  name = or_other primary.name other.name;
  manufacturer = or_other primary.manufacturer other.manufacturer;
  model = or_other primary.model other.model;
  version = or_other primary.version other.version;
  power_watts = or_other primary.power_watts other.power_watts;
  oem = or_other primary.oem other.oem;
  source_types = unique (primary.source_types ++ other.source_types);
  source_odata_ids = unique (primary.source_odata_ids ++ other.source_odata_ids);
}

-- One round of the loop over the duplicates.
unfoldable pub absorb : Candidate → List Candidate → Candidate
unfolding merge set_update
absorb primary [] = primary
absorb primary (other ∷ others) =
    absorb
      (record {
        gpu = merge primary.gpu other.gpu;
        identities = set_update primary.identities other.identities;
      })
      others

-- The candidates, the first that meets the identities replaced and the others removed. `remove`
-- takes out the entry that is meant, since entries that meet a set are not empty and disjoint.
unfoldable pub replace_first : List Text → Candidate → List Candidate → List Candidate
unfolding meets filter_by
replace_first identities merged [] = []
replace_first identities merged (c ∷ candidates) =
    let rest = replace_first identities merged candidates in
    if meets c.identities identities
    then merged ∷ filter_by (λ c. not (meets c.identities identities)) candidates
    else c ∷ rest

abbrev pub hits : List Text → List Candidate → List Candidate
hits identities candidates = filter_by (λ c. meets c.identities identities) candidates

abbrev pub labelled : Gpu → Text → List Text → Gpu
labelled gpu source_type identities = record gpu {
  source_types = source_type ∷ [];
  source_odata_ids = if truthy gpu.odata_id then or_else gpu.odata_id [] ∷ [] else [];
  related_resource_odata_ids = public_ids identities;
}

abbrev pub relabelled : Candidate → Candidate
relabelled c = record c {
  gpu = record c.gpu { related_resource_odata_ids = public_ids c.identities };
}

unfoldable pub add_candidate : Candidate → List Candidate → List Candidate
unfolding filter_by meets absorb replace_first public_ids
add_candidate c candidates = elim (hits c.identities candidates) [
  | [] ↦ candidates ++ (c ∷ [])
  | primary ∷ duplicates ↦
      replace_first c.identities (relabelled (absorb primary (c ∷ duplicates))) candidates
]

-- `add`
unfoldable pub add : Gpu → Text → List Text → List Candidate → List Candidate
unfolding identities_of add_candidate public_ids
add gpu source_type identities candidates =
    let all_identities = identities_of gpu identities in
    add_candidate
      (record { gpu = labelled gpu source_type all_identities; identities = all_identities })
      candidates

-- What a call of `add` is given.
pub record Resource : Type 0 where
  pub gpu : Gpu
  pub source_type : Text
  pub identities : List Text

-- The calls of `add` of a discovery, in order.
unfoldable pub add_all : List Resource → List Candidate → List Candidate
unfolding add
add_all [] candidates = candidates
add_all (r ∷ resources) candidates =
    add_all resources (add r.gpu r.source_type r.identities candidates)

-- `result`
unfoldable pub result : List Candidate → List Gpu
result = map (λ c. c.gpu)

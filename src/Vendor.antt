-- ===== src/Vendor.antt =====
-- redfish_sdk/managers/update_strategies/vendor_detect.py.
pub mod Laws
mod Tests
use redfish_python_sdk.Prelude.{
  ℕ, Bool, true, false, ◌||◌, not, ◌==◌, Option, none, some, List, [], ◌∷◌, Text, str, text_eq,
  lower, strip, contains, any, is_empty, mem, map, if◌then◌else◌,
}
use redfish_python_sdk.Exceptions.{Exc}
use redfish_python_sdk.Exec.{Exec, Run, returned, raised}
use redfish_python_sdk.HttpClient.Session.{or_else}

-- What is read of the System resource: the keys of its Oem block, where it has one.
pub record System : Type 0 where
  pub manufacturer : Option Text
  pub oem_keys : List Text

abbrev pub generic : Text
generic = str "generic"

-- `_VENDOR_KEYWORDS`
unfoldable pub vendor_keywords : List (Text × List Text)
vendor_keywords =
    (str "enginetech", str "enginetech" ∷ (0x5b89 ∷ 0x64ce ∷ []) ∷ [])
    ∷ (str "inspur", str "inspur" ∷ (0x6d6a ∷ 0x6f6e ∷ []) ∷ str "maginfra" ∷ [])
    ∷ (str "ieit", str "ieit systems" ∷ [])
    ∷ (str "zte", str "zte" ∷ (0x4e2d ∷ 0x5174 ∷ []) ∷ [])
    ∷ (str "h3c", str "h3c" ∷ (0x65b0 ∷ 0x534e ∷ 0x4e09 ∷ []) ∷ str "h3c servers" ∷ [])
    ∷ (str "nettrix", str "nettrix" ∷ (0x5b81 ∷ 0x7545 ∷ []) ∷ [])
    ∷ (str "xfusion", str "xfusion" ∷ (0x8d85 ∷ 0x805a ∷ 0x53d8 ∷ []) ∷ str "huawei" ∷ [])
    ∷ (str "lenovo", str "lenovo" ∷ (0x8054 ∷ 0x60f3 ∷ []) ∷ [])
    ∷ (str "smoothcompute", str "smoothcompute" ∷ (0x987a ∷ 0x7b97 ∷ []) ∷ [])
    ∷ []

-- The two loops over `_VENDOR_KEYWORDS`.
unfoldable pub vendor_of : List (Text × List Text) → Text → Option Text
unfolding any contains lower
vendor_of [] manufacturer = none
vendor_of ((vendor_key, keywords) ∷ rest) manufacturer =
    if any (λ keyword. contains manufacturer (lower keyword)) keywords
    then some vendor_key
    else vendor_of rest manufacturer

unfoldable pub vendor_of_oem : List Text → Text
unfolding mem lower
vendor_of_oem keys =
    let extra_keys = map lower keys in
    if mem (str "lenovo") extra_keys
    then str "lenovo"
    else if mem (str "xfusion") extra_keys
    then str "xfusion"
    else generic

abbrev pub by_manufacturer : Text → Option Text
by_manufacturer manufacturer =
    if is_empty manufacturer then none else vendor_of vendor_keywords manufacturer

module _ {ℓ} {S : Type ℓ} (get_system : Exec S System) where
  -- `_detect_from_oem_keys`
  unfoldable pub detect_from_oem_keys : Exec S Text
  unfolding vendor_of_oem
  detect_from_oem_keys s = elim (get_system s) [
    | returned system s' ↦ returned (vendor_of_oem system.oem_keys) s'
    | raised e s' ↦ returned generic s'
  ]

  abbrev pub or_oem_keys : Option Text → Exec S Text
  or_oem_keys none s = detect_from_oem_keys s
  or_oem_keys (some vendor) s = returned vendor s

  -- `_detect_from_system`
  unfoldable pub detect_from_system : Exec S Text
  unfolding detect_from_oem_keys vendor_of vendor_keywords lower strip
  detect_from_system s = elim (get_system s) [
    | returned system s' ↦
        or_oem_keys (by_manufacturer (strip (lower (or_else system.manufacturer [])))) s'
    | raised e s' ↦ detect_from_oem_keys s'
  ]

  -- The cache of the class, by the identity of the client.
  abbrev pub VendorCache : Type 0
  VendorCache = List (ℕ × Text)

  unfoldable pub cached : ℕ → VendorCache → Option Text
  cached client_id [] = none
  cached client_id ((key, vendor) ∷ cache) =
      if key == client_id then some vendor else cached client_id cache

  abbrev pub remembered : ℕ → VendorCache → Run S Text → Run (S × VendorCache) Text
  remembered client_id cache (returned vendor s) = returned vendor (s, (client_id, vendor) ∷ cache)
  remembered client_id cache (raised e s) = raised e (s, cache)

  -- `detect`
  unfoldable pub detect : ℕ → Exec (S × VendorCache) Text
  unfolding cached detect_from_system
  detect client_id (s, cache) = elim (cached client_id cache) [
    | some vendor ↦ returned vendor (s, cache)
    | none ↦ remembered client_id cache (detect_from_system s)
  ]

  -- `clear_cache`
  unfoldable pub clear_cache : Exec (S × VendorCache) (Unit {0})
  clear_cache (s, cache) = returned tt (s, [])

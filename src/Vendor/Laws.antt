-- ===== src/Vendor/Laws.antt =====
-- What `VendorDetector` of redfish_sdk/managers/update_strategies/vendor_detect.py promises.
use redfish_python_sdk.Prelude.{
  ℕ, ◌≡◌, refl, ap, ◌∙◌, true, Option, none, some, List, [], ◌∷◌, Text, str, text_eq, text_eq_self,
  lower, strip, mem, map, arith, Bool-cases, inl, inr,
}
use redfish_python_sdk.Exec.{Exec, Run, returned, raised}
use redfish_python_sdk.HttpClient.Session.{or_else}
use redfish_python_sdk.Vendor.{
  System, generic, vendor_keywords, vendor_of, vendor_of_oem, by_manufacturer, detect_from_oem_keys,
  or_oem_keys, detect_from_system, VendorCache, cached, remembered, detect,
}

-- The keys of `_VENDOR_KEYWORDS`, and "generic".
unfoldable pub known_vendors : List Text
unfolding vendor_keywords
known_vendors = generic ∷ map (λ entry. entry.0) vendor_keywords

abbrev pub IsKnown : Text → Type 0
IsKnown vendor = mem vendor known_vendors ≡ true

generic-IsKnown : IsKnown generic
unfolding known_vendors mem text_eq
generic-IsKnown = refl

vendor_of-key :
    (keywords : List (Text × List Text)) (manufacturer vendor : Text)
    → vendor_of keywords manufacturer ≡ some vendor
    → mem vendor (map (λ entry. entry.0) keywords) ≡ true
unfolding vendor_of mem
vendor_of-key [] manufacturer vendor h = absurd (cc h)
vendor_of-key ((key, words) ∷ rest) manufacturer vendor h =
    ground (arith, vendor_of-key rest manufacturer vendor, text_eq_self vendor)

vendor_of_oem-IsKnown : (keys : List Text) → IsKnown (vendor_of_oem keys)
unfolding vendor_of_oem known_vendors mem text_eq
vendor_of_oem-IsKnown keys = elim (Bool-cases (mem (str "lenovo") (map lower keys))) [
  | inl t ↦ rw t refl
  | inr f ↦ elim (Bool-cases (mem (str "xfusion") (map lower keys))) [
    | inl t ↦ rw (f, t) refl
    | inr g ↦ rw (f, g) refl
  ]
]

by_manufacturer-IsKnown :
    (manufacturer vendor : Text) → by_manufacturer manufacturer ≡ some vendor → IsKnown vendor
unfolding known_vendors mem
by_manufacturer-IsKnown [] vendor h = absurd (cc h)
by_manufacturer-IsKnown (x ∷ xs) vendor h =
    ground (arith, vendor_of-key vendor_keywords (x ∷ xs) vendor h)

module _ {ℓ} {S : Type ℓ} (get_system : Exec S System) where
  -- A run that returned a known vendor.
  abbrev Names : Run S Text → Type ℓ
  Names r = (vendor : Text) × (s : S) × (r ≡ returned vendor s) × IsKnown vendor

  detect_from_oem_keys-Names : (s : S) → Names (detect_from_oem_keys get_system s)
  unfolding detect_from_oem_keys
  detect_from_oem_keys-Names s = go (get_system s)
    where
      go :
          (r : Run S System)
          → Names (elim r [
            | returned system s' ↦ returned (vendor_of_oem system.oem_keys) s'
            | raised e s' ↦ returned generic s'
          ])
      go (returned system s') =
          (vendor_of_oem system.oem_keys, s', refl, vendor_of_oem-IsKnown system.oem_keys)
      go (raised e s') = (generic, s', refl, generic-IsKnown)

  or_oem_keys-Names :
      (o : Option Text) (s : S)
      → ((vendor : Text) → o ≡ some vendor → IsKnown vendor)
      → Names (or_oem_keys get_system o s)
  or_oem_keys-Names none s h = detect_from_oem_keys-Names s
  or_oem_keys-Names (some vendor) s h = (vendor, s, refl, h vendor refl)

  detect_from_system-Names : (s : S) → Names (detect_from_system get_system s)
  unfolding detect_from_system
  detect_from_system-Names s = go (get_system s)
    where
      go :
          (r : Run S System)
          → Names (elim r [
            | returned system s' ↦
                or_oem_keys get_system
                  (by_manufacturer (strip (lower (or_else system.manufacturer []))))
                  s'
            | raised e s' ↦ detect_from_oem_keys get_system s'
          ])
      go (returned system s') =
          or_oem_keys-Names (by_manufacturer (strip (lower (or_else system.manufacturer [])))) s'
            (by_manufacturer-IsKnown (strip (lower (or_else system.manufacturer []))))
      go (raised e s') = detect_from_oem_keys-Names s'

  detect-found :
      (client_id : ℕ) (s : S) (cache : VendorCache get_system) (o : Option Text)
      → cached get_system client_id cache ≡ o
      → detect get_system client_id (s, cache) ≡ (elim o [
        | some vendor ↦ returned vendor (s, cache)
        | none ↦ remembered get_system client_id cache (detect_from_system get_system s)
      ])
  unfolding detect
  detect-found client_id s cache o h = rw (← h) refl

  cached-head :
      (client_id : ℕ) (vendor : Text) (cache : VendorCache get_system)
      → cached get_system client_id ((client_id, vendor) ∷ cache) ≡ some vendor
  unfolding cached
  cached-head client_id vendor cache = ground arith

  -- For a client that is not in the cache, `detect` names one of the known vendors or "generic",
  -- whatever reading the System resource does, a raise included; it stores the vendor, and finds it
  -- again in any later state without reading anything.
  pub detect_lem :
      (client_id : ℕ) (s later : S) (cache : VendorCache get_system)
      → cached get_system client_id cache ≡ none
      → (vendor : Text) × (s' : S) × (detect get_system client_id (s, cache)
          ≡ returned vendor (s', (client_id, vendor) ∷ cache))
        × IsKnown vendor
        × (detect get_system client_id (later, (client_id, vendor) ∷ cache)
            ≡ returned vendor (later, (client_id, vendor) ∷ cache))
  detect_lem client_id s later cache h =
      let (vendor, s', e, k) = detect_from_system-Names s in
      (
        vendor,
        s',
        detect-found client_id s cache none h ∙ ap (remembered get_system client_id cache) e,
        k,
        detect-found client_id later ((client_id, vendor) ∷ cache) (some vendor)
            (cached-head client_id vendor cache),
      )

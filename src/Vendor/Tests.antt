-- ===== src/Vendor/Tests.antt =====
-- `VendorDetector` of redfish_sdk/managers/update_strategies/vendor_detect.py on two systems.
use redfish_python_sdk.Prelude.{
  ℕ, suc, ◌≡◌, refl, some, [], ◌∷◌, Text, str, text_eq, lower, strip, contains, any, mem,
}
use redfish_python_sdk.Exec.{Exec, returned, ◌>>◌}
use redfish_python_sdk.Vendor.{
  System, vendor_of_oem, vendor_keywords, vendor_of, cached, detect, clear_cache,
}
use redfish_python_sdk.Vendor.Laws.{IsKnown, detect_lem}

computing : Unit {0}
unfolding detect clear_cache cached vendor_of vendor_keywords vendor_of_oem text_eq lower strip
    contains any mem
computing = tt

-- The system says what it is, and how often it was read.
abbrev get_system : Exec ℕ System
get_system n =
    returned (record { manufacturer = some (str " Huawei Ltd"); oem_keys = str "HPE" ∷ [] }) (suc n)

detect_test : detect get_system 7 (0, []) ≡ returned (str "xfusion") (1, (7, str "xfusion") ∷ [])
unfolding computing
detect_test = refl

-- The identity of a client that is gone may be that of a new one.
stale_test :
    detect
      (λ n. returned (record { manufacturer = some (str "ZTE"); oem_keys = [] }) (suc n))
      7
      (1, (7, str "xfusion") ∷ [])
    ≡ returned (str "xfusion") (1, (7, str "xfusion") ∷ [])
unfolding computing
stale_test = refl

-- After clear_cache the System resource is read again.
clear_cache_test :
    (clear_cache get_system >> detect get_system 7) (1, (7, str "generic") ∷ [])
    ≡ returned (str "xfusion") (2, (7, str "xfusion") ∷ [])
unfolding computing
clear_cache_test = refl

detect_lem_example :
    (vendor : Text) × (n : ℕ) × (detect get_system 7 (0, [])
      ≡ returned vendor (n, (7, vendor) ∷ []))
    × IsKnown vendor
    × (detect get_system 7 (5, (7, vendor) ∷ []) ≡ returned vendor (5, (7, vendor) ∷ []))
unfolding computing
detect_lem_example = detect_lem get_system 7 0 5 [] refl

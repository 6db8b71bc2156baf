-- ===== src/Gpu/Devices.antt =====
-- How `_add_pcie_devices` and `discover_gpus` of redfish_sdk/managers/gpu_discovery.py end.
use redfish_python_sdk.Prelude.{
  ◌≡◌, refl, Bool, true, false, ◌&&◌, ◌||◌, Option, none, some, List, [], ◌∷◌, ◌++◌, map, Text, str,
  is_empty, text_eq, any, All, All-append, inl, inr, Bool-cases, if◌then◌else◌,
}
use redfish_python_sdk.Exceptions.{Exc}
use redfish_python_sdk.Exec.{Exec, pure, attempt, ◌>>=◌}
use redfish_python_sdk.Exec.Settles.{
  Settles, with_value, Attempted, failed, succeeded, attempt-Settles, Settles-bind, Settles-weaken,
}
use redfish_python_sdk.HttpClient.Session.{truthy, or_else}
use redfish_python_sdk.Members.{uri_of}
use redfish_python_sdk.Gpu.Signals.{PcieDevice, gpu_from_pcie_device}
use redfish_python_sdk.Gpu.{Gpu, Candidate, sorted}
use redfish_python_sdk.Gpu.Sources.{
  PcieFunction, Host, link_ids, put_device, put_devices, is_gpu, device_identities,
}
use redfish_python_sdk.Gpu.Discovery.{
  tolerated, append_new, cached_function, Functions, with_fetched, with_device,
  enrich_from_environment_metrics, fetch_devices, fetch_function, fetch_functions, device_functions,
  add_device, add_devices,
}
use redfish_python_sdk.Gpu.Found.{
  IsRead, IsDevice, as_member, as_linked, IsFunction, of_device, Grows, Grows-refl, Grows-add,
  Grows-trans,
}
use redfish_python_sdk.Gpu.Tolerant.{
  AreTolerable, tolerated-Settles, enrich_from_environment_metrics-Settles,
}

module _ {ℓ} {A B : Type 0} (P : B → Type ℓ) (Q : A → Type ℓ) where
  pub All-map : (f : A → B) (xs : List A) → ((x : A) → Q x → P (f x)) → All Q xs → All P (map f xs)
  All-map f [] k h = tt
  All-map f (x ∷ xs) k (q, h) = (k x q, All-map f xs k h)

module _ {ℓ} {S : Type ℓ} (host : Host S) where
  -- The entries of `devices`: each is a device that was read.
  abbrev pub AreDevices : List (Text × PcieDevice) → Type ℓ
  AreDevices = All (λ entry. IsDevice host entry.1)

  put_device-AreDevices :
      (device : PcieDevice) (devices : List (Text × PcieDevice))
      → IsDevice host device
      → AreDevices devices
      → AreDevices (put_device device devices)
  unfolding put_device
  put_device-AreDevices device [] d h = elim (Bool-cases (truthy device.odata_id)) [
    | inl t ↦ rw t (d, tt)
    | inr f ↦ rw f tt
  ]
  put_device-AreDevices device ((uri, other) ∷ devices) d (o, h) =
      elim (Bool-cases (truthy device.odata_id && text_eq uri (or_else device.odata_id []))) [
        | inl t ↦ rw t (d, h)
        | inr f ↦ rw f (o, put_device-AreDevices device devices d h)
      ]

  pub put_devices-AreDevices :
      (members : List PcieDevice) (devices : List (Text × PcieDevice))
      → All (IsDevice host) members
      → AreDevices devices
      → AreDevices (put_devices members devices)
  unfolding put_devices
  put_devices-AreDevices [] devices m h = h
  put_devices-AreDevices (d ∷ members) devices (p, m) h =
      put_devices-AreDevices members (put_device d devices) m (put_device-AreDevices d devices p h)

  with_device-AreDevices :
      (uri : Text) (fetched : Option PcieDevice) (devices : List (Text × PcieDevice))
      → Attempted (host.device uri) fetched
      → AreDevices devices
      → AreDevices (with_device fetched devices)
  with_device-AreDevices uri none devices failed h = h
  with_device-AreDevices uri (some d) devices (succeeded given) h =
      put_device-AreDevices d devices (as_linked uri given) h

  -- The functions of a device and those in the cache: each was read.
  abbrev AreFunctions : Functions → Type ℓ
  AreFunctions (functions, cache) =
      All (IsFunction host) functions × All (λ entry. IsFunction host entry.1) cache

  append_new-All :
      (f : PcieFunction) (functions : List PcieFunction)
      → IsFunction host f
      → All (IsFunction host) functions
      → All (IsFunction host) (append_new f functions)
  unfolding append_new
  append_new-All f functions p h = at_test (any _ functions)
    where
      at_test : (b : Bool) → All (IsFunction host) (if b then functions else functions ++ (f ∷ []))
      at_test true = h
      at_test false = All-append (IsFunction host) functions (f ∷ []) h (p, tt)

  cached_function-IsFunction :
      (path : Text) (cache : List (Text × PcieFunction)) (f : PcieFunction)
      → All (λ entry. IsFunction host entry.1) cache
      → cached_function path cache ≡ some f
      → IsFunction host f
  unfolding cached_function
  cached_function-IsFunction path [] f h e = absurd (cc e)
  cached_function-IsFunction path ((key, g) ∷ cache) f (p, h) e =
      elim (Bool-cases (text_eq key path)) [
        | inl t ↦ let same : some g ≡ some f = rw t at e in same_function (cc same)
        | inr k ↦ cached_function-IsFunction path cache f h (rw k at e)
      ]
    where
      same_function : g ≡ f → IsFunction host f
      same_function q = rw (← q) p

  module _ (E : Exc → Type 0) (tolerable : AreTolerable host E) where
    pub fetch_devices-Settles :
        (links : List Text) (devices : List (Text × PcieDevice)) (s : S)
        → AreDevices devices
        → Settles AreDevices E (fetch_devices host links devices s)
    unfolding fetch_devices
    fetch_devices-Settles [] devices s h = with_value h
    fetch_devices-Settles (uri ∷ links) devices s h =
        elim (Bool-cases (is_empty uri || any (λ known. text_eq known.0 uri) devices)) [
          | inl t ↦ rw t (fetch_devices-Settles links devices s h)
          | inr f ↦ rw f (
              Settles-bind (attempt (host.device uri)) _ s
                (attempt-Settles E (host.device uri) s (tolerable.device uri))
                (λ fetched s' given.
                  fetch_devices-Settles links (with_device fetched devices) s'
                    (with_device-AreDevices uri fetched devices given h)))
        ]

    fetch_function-Settles :
        (path : Text) (parts : Functions) (s : S)
        → AreFunctions parts
        → Settles AreFunctions E (fetch_function host path parts s)
    fetch_function-Settles path (functions, cache) s (f, c) =
        at_cached (cached_function path cache) refl
      where
        at_attempt :
            (fetched : Option PcieFunction)
            → Attempted (host.function path) fetched
            → AreFunctions (with_fetched path fetched (functions, cache))
        at_attempt none failed = (f, c)
        at_attempt (some g) (succeeded given) =
            let read : IsFunction host g = as_linked path given in
            (append_new-All g functions read f, (read, c))

        at_cached :
            (found : Option PcieFunction)
            → cached_function path cache ≡ found
            → Settles AreFunctions E (
                elim found as (λ _. Exec S Functions) [
                  | some function ↦ pure (append_new function functions, cache)
                  | none ↦ attempt (host.function path) >>= λ fetched.
                      pure (with_fetched path fetched (functions, cache))
                ]
                  s)
        at_cached (some g) e =
            with_value
              (append_new-All g functions (cached_function-IsFunction path cache g c e) f, c)
        at_cached none e =
            Settles-bind (attempt (host.function path)) _ s
              (attempt-Settles E (host.function path) s (tolerable.function path))
              (λ fetched s' given. with_value (at_attempt fetched given))

    fetch_functions-Settles :
        (paths : List Text) (parts : Functions) (s : S)
        → AreFunctions parts
        → Settles AreFunctions E (fetch_functions host paths parts s)
    unfolding fetch_functions
    fetch_functions-Settles [] parts s h = with_value h
    fetch_functions-Settles (path ∷ paths) parts s h =
        Settles-bind (fetch_function host path parts) _ s (fetch_function-Settles path parts s h)
          (λ fetched s' k. fetch_functions-Settles paths fetched s' k)

    device_functions-Settles :
        (d : PcieDevice) (cache : List (Text × PcieFunction)) (s : S)
        → All (λ entry. IsFunction host entry.1) cache
        → Settles AreFunctions E (device_functions host d cache s)
    unfolding device_functions
    device_functions-Settles d cache s c =
        Settles-bind (tolerated host.functions (uri_of d.pcie_functions)) _ s
          (tolerated-Settles host E host.functions (uri_of d.pcie_functions) s tolerable.functions)
          (λ functions s' read.
            fetch_functions-Settles (sorted (link_ids d.function_links)) (functions, cache) s'
              (as_members functions read, c))
      where
        as_members :
            (functions : List PcieFunction)
            → All (IsRead host.functions) functions
            → All (IsFunction host) functions
        as_members [] h = tt
        as_members (f ∷ functions) (p, h) = (as_member p, as_members functions h)

    add_device-Settles :
        (d : PcieDevice) (functions : List PcieFunction) (candidates : List Candidate) (s : S)
        → IsDevice host d
        → All (IsFunction host) functions
        → Settles (Grows host candidates) E (add_device host d functions candidates s)
    unfolding add_device
    add_device-Settles d functions candidates s device read =
        elim (Bool-cases (is_gpu d functions)) [
          | inr f ↦ rw f (with_value (Grows-refl host candidates))
          | inl t ↦ rw t (
              let base : Gpu × List Text =
                (gpu_from_pcie_device d, device_identities d functions) in
              Settles-bind (enrich_from_environment_metrics host d.environment_metrics base) _ s
                (enrich_from_environment_metrics-Settles host E tolerable d.environment_metrics base
                  s)
                (λ parts s' enriched. with_value (
                  Grows-add host
                    (record { gpu = parts.0; source_type = str "PCIeDevice"; identities = parts.1 })
                    candidates (of_device d functions parts device read t enriched))))
        ]

    pub add_devices-Settles :
        (devices : List PcieDevice) (cache : List (Text × PcieFunction))
        (candidates : List Candidate) (s : S)
        → All (IsDevice host) devices
        → All (λ entry. IsFunction host entry.1) cache
        → Settles (Grows host candidates) E (add_devices host devices cache candidates s)
    unfolding add_devices
    add_devices-Settles [] cache candidates s h c = with_value (Grows-refl host candidates)
    add_devices-Settles (d ∷ devices) cache candidates s (p, h) c =
        Settles-bind (device_functions host d cache) _ s (device_functions-Settles d cache s c)
          (λ parts s' (read, cached).
            Settles-bind (add_device host d parts.0 candidates) _ s'
              (add_device-Settles d parts.0 candidates s' p read)
              (λ added s'' first.
                Settles-weaken (add_devices host devices parts.1 added s'')
                  (add_devices-Settles devices parts.1 added s'' h cached)
                  (λ after rest. Grows-trans host first rest)))

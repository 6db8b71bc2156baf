-- ===== src/Gpu/Systems.antt =====
-- How `discover_gpus` of redfish_sdk/managers/gpu_discovery.py ends, whatever the service answers.
use redfish_python_sdk.Prelude.{
  ◌≡◌, refl, false, Option, none, some, List, [], ◌∷◌, map, Text, All, inl, inr, Bool-cases,
}
use redfish_python_sdk.Exceptions.{Exc, is_redfish}
use redfish_python_sdk.Exec.{Exec, Run, returned, raised, attempt}
use redfish_python_sdk.Exec.Settles.{
  Settles, with_value, with_error, Attempted, failed, succeeded, Fails, attempt-Settles,
  Settles-bind, Settles-weaken,
}
use redfish_python_sdk.HttpClient.Session.{truthy, or_else}
use redfish_python_sdk.Gpu.Signals.{PcieDevice}
use redfish_python_sdk.Gpu.{Gpu, Candidate}
use redfish_python_sdk.Gpu.Sources.{
  ChassisDevices, collection, listed, System, Host, put_devices, device_links,
}
use redfish_python_sdk.Gpu.Discovery.{
  or_nothing, members_of, chassis_members, fetch_devices, add_graphics_controllers,
  add_processor_accelerators, add_pcie_devices, add_systems, discover_gpus,
}
use redfish_python_sdk.Gpu.Found.{
  IsRead, given-IsRead, IsDevice, as_member, Grows, Grows-refl, Grows-trans, AreFound,
  Grows-AreFound,
}
use redfish_python_sdk.Gpu.Tolerant.{
  AreTolerable, add_graphics_controllers-Settles, add_processor_accelerators-Settles,
}
use redfish_python_sdk.Gpu.Devices.{
  All-map, put_devices-AreDevices, fetch_devices-Settles, add_devices-Settles,
}

-- An exception outside the hierarchy.
abbrev pub IsForeign : Exc → Type 0
IsForeign e = is_redfish e ≡ false

module _ {ℓ} {S : Type ℓ} (host : Host S) where
  devices-AreRead :
      (uri : Text) (s : S) (members : List PcieDevice) (s' : S)
      → host.devices uri s ≡ returned members s'
      → All (IsDevice host) members
  devices-AreRead uri s members s' e =
      each members
        (given-IsRead host.devices uri members (record { before = s; after = s'; given = e }))
    where
      each :
          (devices : List PcieDevice)
          → All (IsRead host.devices) devices
          → All (IsDevice host) devices
      each [] h = tt
      each (d ∷ devices) (p, h) = (as_member p, each devices h)

  same_value :
      {A : Type 0} (P : A → Type ℓ) (a b : A) {s s' : S} → returned a s ≡ returned b s' → P a → P b
  same_value P a b e p = let same : a ≡ b = cc e in rw (← same) p

  members_of-AreRead :
      (advertised : Option ChassisDevices) (s : S) (members : List PcieDevice) (s' : S)
      → members_of host advertised s ≡ returned members s'
      → All (IsDevice host) members
  members_of-AreRead none s members s' e = same_value (All (IsDevice host)) [] members e tt
  members_of-AreRead (some (listed [])) s members s' e =
      same_value (All (IsDevice host)) [] members e tt
  members_of-AreRead (some (listed (_ ∷ _))) s members s' e = absurd (cc e)
  members_of-AreRead (some (collection link)) s members s' e = elim (Bool-cases (truthy link)) [
    | inl t ↦ devices-AreRead (or_else link []) s members s' (rw t at e)
    | inr f ↦ same_value (All (IsDevice host)) [] members (rw f at e) tt
  ]

  chassis_members-AreRead :
      (s : S) (members : List PcieDevice) (s' : S)
      → chassis_members host s ≡ returned members s'
      → All (IsDevice host) members
  chassis_members-AreRead s members s' e = at_run (host.chassis_devices s) e
    where
      at_run :
          (r : Run S (Option ChassisDevices))
          → elim r as (λ _. Run S (List PcieDevice)) [
            | returned advertised s'' ↦ members_of host advertised s''
            | raised x s'' ↦ raised x s''
          ]
            ≡ returned members s'
          → All (IsDevice host) members
      at_run (returned advertised s'') q = members_of-AreRead advertised s'' members s' q
      at_run (raised x s'') q = absurd (cc q)

  module _ (E : Exc → Type 0) (tolerable : AreTolerable host E) where
    add_pcie_devices-Settles :
        (system : System) (candidates : List Candidate) (s : S)
        → Settles (Grows host candidates) E (add_pcie_devices host system candidates s)
    unfolding add_pcie_devices
    add_pcie_devices-Settles system candidates s =
        Settles-bind (attempt (chassis_members host)) _ s
          (attempt-Settles E (chassis_members host) s tolerable.chassis)
          (λ members s' given.
            Settles-bind
              (fetch_devices host (device_links system) (put_devices (or_nothing members) [])) _ s'
              (fetch_devices-Settles host E tolerable (device_links system)
                (put_devices (or_nothing members) []) s'
                (put_devices-AreDevices host (or_nothing members) [] (at_attempt members given) tt))
              (λ devices s'' read.
                add_devices-Settles host E tolerable (map (λ entry. entry.1) devices) [] candidates
                  s''
                  (All-map (IsDevice host) (λ entry. IsDevice host entry.1) (λ entry. entry.1)
                    devices (λ _ p. p) read)
                  tt))
      where
        at_attempt :
            (members : Option (List PcieDevice))
            → Attempted (chassis_members host) members
            → All (IsDevice host) (or_nothing members)
        at_attempt none failed = tt
        at_attempt (some members) (succeeded h) =
            chassis_members-AreRead h.before members h.after h.given

    add_systems-Settles :
        (systems : List System) (candidates : List Candidate) (s : S)
        → Settles (Grows host candidates) E (add_systems host systems candidates s)
    unfolding add_systems
    add_systems-Settles [] candidates s = with_value (Grows-refl host candidates)
    add_systems-Settles (system ∷ systems) candidates s =
        Settles-bind (add_graphics_controllers host system candidates) _ s
          (add_graphics_controllers-Settles host E tolerable system candidates s)
          (λ c s1 first.
            Settles-bind (add_processor_accelerators host system c) _ s1
              (add_processor_accelerators-Settles host E tolerable system c s1)
              (λ c' s2 second.
                Settles-bind (add_pcie_devices host system c') _ s2
                  (add_pcie_devices-Settles system c' s2)
                  (λ c'' s3 third.
                    Settles-weaken (add_systems host systems c'' s3)
                      (add_systems-Settles systems c'' s3)
                      (λ after rest.
                        Grows-trans host first
                          (Grows-trans host second (Grows-trans host third rest))))))

    discover_gpus-Settles :
        (systems : List System) (s : S) → Settles (AreFound host) E (discover_gpus host systems s)
    unfolding discover_gpus
    discover_gpus-Settles systems s =
        Settles-bind (add_systems host systems []) _ s (add_systems-Settles systems [] s)
          (λ candidates s' grown. with_value (Grows-AreFound host candidates grown))

  any_call : {A : Type 0} (call : Exec S A) → Fails IsForeign call
  any_call call s = at_run (call s)
    where
      at_run :
          {A : Type 0} (r : Run S A)
          → Settles (λ (_ : A). Unit {0}) (λ e. is_redfish e ≡ false → IsForeign e) r
      at_run (returned a s') = with_value tt
      at_run (raised e s') = with_error (λ f. f)

  -- Whatever the service answers, and whatever it raises: discover_gpus returns GPUs that are the
  -- connected components, by shared identities, of resources that the service gave and that count
  -- as GPUs, or it raises an exception that is no RedfishException.
  pub discover_gpus-AreFound :
      (systems : List System) (s : S)
      → Settles (AreFound host) IsForeign (discover_gpus host systems s)
  discover_gpus-AreFound systems s =
      discover_gpus-Settles IsForeign
        (record {
          controllers = λ uri. any_call (host.controllers uri);
          processors = λ uri. any_call (host.processors uri);
          acceleration_functions = λ uri. any_call (host.acceleration_functions uri);
          power_reading = λ uri. any_call (host.power_reading uri);
          chassis = any_call (chassis_members host);
          device = λ uri. any_call (host.device uri);
          functions = λ uri. any_call (host.functions uri);
          function = λ path. any_call (host.function path);
        })
        systems s

  -- Where the calls of the service, that for the chassis's devices included, return or raise a
  -- RedfishException, discover_gpus returns a list of GPUs.
  pub discover_gpus_returns :
      (systems : List System) (s : S)
      → AreTolerable host (λ _. ⊥)
      → (gpus : List Gpu) × (s' : S) × (discover_gpus host systems s ≡ returned gpus s')
  discover_gpus_returns systems s tolerable =
      at_run (discover_gpus host systems s) refl
        (discover_gpus-Settles (λ _. ⊥) tolerable systems s)
    where
      at_run :
          (r : Run S (List Gpu))
          → discover_gpus host systems s ≡ r
          → Settles (AreFound host) (λ _. ⊥) r
          → (gpus : List Gpu) × (s' : S) × (discover_gpus host systems s ≡ returned gpus s')
      at_run (returned gpus s') e h = (gpus, s', e)
      at_run (raised x s') e (with_error h) = absurd h

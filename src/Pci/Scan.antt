-- ===== src/Pci/Scan.antt =====
-- What the scan of the buses finds.
use os_from_zero.Base.{
  ℕ, ◌≤◌, ◌≡◌, refl, true, List, [], ◌∷◌, ◌++◌, arith, ltb, length, Bool-cases, inl, inr,
  fold_up_inv, test_bit, length-append, ltb→lt, ◌/◌, ◌%◌, ◌^◌,
}
use os_from_zero.Pci.{
  PciDevice, max_pci_devices, pci_read_config, pci_device_exists, read_device, store_device,
  scan_function, scan_functions, scan_device, pci_enumerate,
}

module _ (port : ℕ → ℕ) where
  -- An entry is what is read of a device that is there.
  abbrev pub IsFound : PciDevice → Type 0
  IsFound d =
      (pci_device_exists port d.bus d.device d.function ≡ true)
      × (d ≡ read_device port d.bus d.device d.function)

  abbrev pub AllFound : List PciDevice → Type 0
  AllFound [] = Unit {0}
  AllFound (d ∷ devs) = IsFound d × AllFound devs

  pub record IsTable (devs : List PciDevice) : Type 0 where
    pub few : length devs ≤ max_pci_devices
    pub all_found : AllFound devs

  AllFound-append :
      (devs : List PciDevice) (d : PciDevice)
      → AllFound devs
      → IsFound d
      → AllFound (devs ++ (d ∷ []))
  AllFound-append [] d h f = (f, tt)
  AllFound-append (e ∷ devs) d h f = (h.0, AllFound-append devs d h.1 f)

  store_device-IsTable :
      (bus device function : ℕ) (devs : List PciDevice)
      → pci_device_exists port bus device function ≡ true
      → IsTable devs
      → IsTable (store_device port bus device function devs)
  unfolding store_device read_device
  store_device-IsTable bus device function devs there t =
      elim (Bool-cases (ltb (length devs) max_pci_devices)) [
        | inl room ↦ rw room (record {
          few = omega (
            arith,
            length-append devs (read_device port bus device function ∷ []),
            ltb→lt (length devs) max_pci_devices room,
          );
          all_found =
              AllFound-append devs (read_device port bus device function) t.all_found (there, refl);
        })
        | inr full ↦ rw full t
      ]

  scan_function-IsTable :
      (bus device function : ℕ) (devs : List PciDevice)
      → IsTable devs
      → IsTable (scan_function port bus device function devs)
  unfolding scan_function
  scan_function-IsTable bus device function devs t =
      elim (Bool-cases (pci_device_exists port bus device function)) [
        | inl there ↦ rw there (store_device-IsTable bus device function devs there t)
        | inr absent ↦ rw absent t
      ]

  scan_functions-IsTable :
      (bus device : ℕ) (devs : List PciDevice)
      → IsTable devs
      → IsTable (scan_functions port bus device devs)
  unfolding scan_functions
  scan_functions-IsTable bus device devs t =
      elim (Bool-cases (test_bit (pci_read_config port bus device 0 0x0E / 2 ^ 16 % 2 ^ 8) 7)) [
        | inl several ↦ rw several (
            fold_up_inv IsTable 7 1 (scan_function port bus device) devs
              (scan_function-IsTable bus device) t)
        | inr single ↦ rw single t
      ]

  scan_device-IsTable :
      (bus device : ℕ) (devs : List PciDevice)
      → IsTable devs
      → IsTable (scan_device port bus device devs)
  unfolding scan_device
  scan_device-IsTable bus device devs t = elim (Bool-cases (pci_device_exists port bus device 0)) [
    | inl there ↦ rw there (
        scan_functions-IsTable bus device (store_device port bus device 0 devs)
          (store_device-IsTable bus device 0 devs there t))
    | inr absent ↦ rw absent t
  ]

  -- The table has at most 32 entries, and each of them is what is read of a device that is there.
  pub pci_enumerate-IsTable : IsTable (pci_enumerate port)
  unfolding pci_enumerate
  pci_enumerate-IsTable =
      fold_up_inv IsTable 256 0 _ []
        (λ bus devs t.
          fold_up_inv IsTable 32 0 (scan_device port bus) devs (scan_device-IsTable bus) t)
        (record { few = omega arith; all_found = tt })

-- ===== src/Pci/Complete.antt =====
-- No device is left out while the table has room.
use os_from_zero.Base.{
  ℕ, zero, suc, ◌<◌, ◌≡◌, refl, true, some, List, [], ◌∷◌, ◌++◌, arith, ltb, length, get_elem?,
  Bool-cases, inl, inr, fold_up_inv, fold_up_reaches, test_bit, ltb→lt, ◌/◌, ◌%◌, ◌^◌,
}
use os_from_zero.Pci.{
  PciDevice, max_pci_devices, pci_read_config, pci_device_exists, read_device, store_device,
  scan_function, scan_functions, scan_device, pci_enumerate,
}

-- If the table is not full, it has the device.
abbrev pub Listed : PciDevice → List PciDevice → Type 0
Listed d devs = length devs < max_pci_devices → (i : ℕ) × (get_elem? devs i ≡ some d)

get_elem?-append :
    (devs more : List PciDevice) (i : ℕ) (d : PciDevice)
    → get_elem? devs i ≡ some d
    → get_elem? (devs ++ more) i ≡ some d
get_elem?-append [] more i d e = cc
get_elem?-append (c ∷ devs) more zero d e = e
get_elem?-append (c ∷ devs) more (suc i) d e = get_elem?-append devs more i d e

get_elem?-last :
    (devs : List PciDevice) (d : PciDevice) → get_elem? (devs ++ (d ∷ [])) (length devs) ≡ some d
get_elem?-last [] d = refl
get_elem?-last (c ∷ devs) d = get_elem?-last devs d

module _ (port : ℕ → ℕ) (found : PciDevice) where
  store_device-Listed :
      (bus device function : ℕ) (devs : List PciDevice)
      → Listed found devs
      → Listed found (store_device port bus device function devs)
  unfolding store_device
  store_device-Listed bus device function devs h =
      elim (Bool-cases (ltb (length devs) max_pci_devices)) [
        | inl room ↦ rw room λ _.
            let (i, at) = h (ltb→lt (length devs) max_pci_devices room) in
            (i, get_elem?-append devs (read_device port bus device function ∷ []) i found at)
        | inr full ↦ rw full h
      ]

  scan_function-Listed :
      (bus device function : ℕ) (devs : List PciDevice)
      → Listed found devs
      → Listed found (scan_function port bus device function devs)
  unfolding scan_function
  scan_function-Listed bus device function devs h =
      elim (Bool-cases (pci_device_exists port bus device function)) [
        | inl there ↦ rw there (store_device-Listed bus device function devs h)
        | inr absent ↦ rw absent h
      ]

  scan_functions-Listed :
      (bus device : ℕ) (devs : List PciDevice)
      → Listed found devs
      → Listed found (scan_functions port bus device devs)
  unfolding scan_functions
  scan_functions-Listed bus device devs h =
      elim (Bool-cases (test_bit (pci_read_config port bus device 0 0x0E / 2 ^ 16 % 2 ^ 8) 7)) [
        | inl several ↦ rw several (
            fold_up_inv (Listed found) 7 1 (scan_function port bus device) devs
              (scan_function-Listed bus device) h)
        | inr single ↦ rw single h
      ]

  scan_device-Listed :
      (bus device : ℕ) (devs : List PciDevice)
      → Listed found devs
      → Listed found (scan_device port bus device devs)
  unfolding scan_device
  scan_device-Listed bus device devs h = elim (Bool-cases (pci_device_exists port bus device 0)) [
    | inl there ↦ rw there (
        scan_functions-Listed bus device (store_device port bus device 0 devs)
          (store_device-Listed bus device 0 devs h))
    | inr absent ↦ rw absent h
  ]

module _ (port : ℕ → ℕ) where
  stored :
      (bus device function : ℕ) (devs : List PciDevice)
      → Listed (read_device port bus device function) (store_device port bus device function devs)
  unfolding store_device
  stored bus device function devs = elim (Bool-cases (ltb (length devs) max_pci_devices)) [
    | inl room ↦
        rw room λ _. (length devs, get_elem?-last devs (read_device port bus device function))
    | inr full ↦ rw full λ few. absurd (ground (arith, few))
  ]

  scanned :
      (bus device : ℕ) (devs : List PciDevice)
      → pci_device_exists port bus device 0 ≡ true
      → Listed (read_device port bus device 0) (scan_device port bus device devs)
  unfolding scan_device
  scanned bus device devs there = rw there (
      scan_functions-Listed port (read_device port bus device 0) bus device
        (store_device port bus device 0 devs) (stored bus device 0 devs))

  -- If the table is not full after the scan, it has an entry for function 0 of every device that
  -- is there, on each of the 256 buses.
  pub pci_enumerate-Listed :
      (bus device : ℕ)
      → bus < 256
      → device < 32
      → pci_device_exists port bus device 0 ≡ true
      → Listed (read_device port bus device 0) (pci_enumerate port)
  unfolding pci_enumerate
  pci_enumerate-Listed bus device b d there =
      let found = read_device port bus device 0 in
      fold_up_reaches (Listed found) 256 0 bus _ [] (omega arith) b
        (λ devs.
          fold_up_reaches (Listed found) 32 0 device (scan_device port bus) devs (omega arith) d
            (λ t. scanned bus device t there) (scan_device-Listed port found bus))
        (λ other devs.
          fold_up_inv (Listed found) 32 0 (scan_device port other) devs
            (scan_device-Listed port found other))

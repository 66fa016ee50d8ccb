-- ===== src/Pci.antt =====
-- kernel/src/pci.c and pci.h: the scan of the PCI buses and the table of the devices found. What
-- the data port answers for each address is an argument.
mod Tests
pub mod Scan
pub mod Complete
pub mod Classes
use Prim.Native.Nat.{bit_and, bit_or}
use os_from_zero.Base.{
  ℕ, ◌+◌, ◌-◌, ◌*◌, ◌/◌, ◌%◌, ◌^◌, ◌&&◌, Bool, not, Option, none, some, List, [], ◌∷◌, ◌++◌, ◌==◌,
  ltb, if◌then◌else◌, length, get_elem?, test_bit, fold_up,
}
use os_from_zero.Base.Int.{ℤ, pos, negsuc}

-- struct pci_device
pub record PciDevice : Type 0 where
  pub bus : ℕ
  pub device : ℕ
  pub function : ℕ
  pub vendor_id : ℕ
  pub device_id : ℕ
  pub class_code : ℕ
  pub subclass : ℕ
  pub bar0 : ℕ
  pub is_vga : Bool

abbrev pub max_pci_devices : ℕ
max_pci_devices = 32

-- The address that is written to PCI_CONFIG_ADDRESS.
unfoldable pub pci_address : ℕ → ℕ → ℕ → ℕ → ℕ
pci_address bus device function offset =
    bit_or (bus * 2 ^ 16) (
      bit_or (device * 2 ^ 11)
        (bit_or (function * 2 ^ 8) (bit_or (bit_and offset 0xFC) 0x80000000)))

-- The first `pci_device_count` entries of pci_devices are the list.
module _ (port : ℕ → ℕ) where
  unfoldable pub pci_read_config : ℕ → ℕ → ℕ → ℕ → ℕ
  pci_read_config bus device function offset =
      port (pci_address bus device function offset) % 2 ^ 32

  unfoldable pub pci_device_exists : ℕ → ℕ → ℕ → Bool
  pci_device_exists bus device function =
      not (pci_read_config bus device function 0x00 % 2 ^ 16 == 0xFFFF)

  -- The fields that are read for a device.
  unfoldable pub read_device : ℕ → ℕ → ℕ → PciDevice
  read_device bus device function =
      let vendor_device = pci_read_config bus device function 0x00 in
      let class_reg = pci_read_config bus device function 0x0B in
      let class_code = class_reg / 2 ^ 16 % 2 ^ 8 in
      let subclass = class_reg / 2 ^ 24 % 2 ^ 8 in
      record {
        bus = bus;
        device = device;
        function = function;
        vendor_id = vendor_device % 2 ^ 16;
        device_id = vendor_device / 2 ^ 16 % 2 ^ 16;
        class_code = class_code;
        subclass = subclass;
        bar0 = pci_read_config bus device function 0x10;
        is_vga = class_code == 0x03 && subclass == 0x00;
      }

  -- The device is stored if there is space.
  unfoldable pub store_device : ℕ → ℕ → ℕ → List PciDevice → List PciDevice
  store_device bus device function devs =
      if ltb (length devs) max_pci_devices
      then devs ++ (read_device bus device function ∷ [])
      else devs

  -- One function of a device that has several.
  unfoldable pub scan_function : ℕ → ℕ → ℕ → List PciDevice → List PciDevice
  unfolding store_device
  scan_function bus device function devs =
      if pci_device_exists bus device function then store_device bus device function devs else devs

  unfoldable pub scan_functions : ℕ → ℕ → List PciDevice → List PciDevice
  unfolding scan_function fold_up
  scan_functions bus device devs =
      if test_bit (pci_read_config bus device 0 0x0E / 2 ^ 16 % 2 ^ 8) 7
      then fold_up 7 1 (scan_function bus device) devs
      else devs

  unfoldable pub scan_device : ℕ → ℕ → List PciDevice → List PciDevice
  unfolding scan_functions store_device
  scan_device bus device devs =
      if pci_device_exists bus device 0
      then scan_functions bus device (store_device bus device 0 devs)
      else devs

  unfoldable pub pci_enumerate : List PciDevice
  unfolding scan_device fold_up
  pci_enumerate = fold_up 256 0 (λ bus. fold_up 32 0 (scan_device bus)) []

-- The first device that passes a test, as an index.
unfoldable pub find_first : (PciDevice → Bool) → List PciDevice → ℕ → Option ℕ
find_first test [] i = none
find_first test (d ∷ devs) i = if test d then some i else find_first test devs (i + 1)

unfoldable pub pci_find_device : List PciDevice → ℕ → ℕ → Option ℕ
unfolding find_first
pci_find_device devs vendor_id device_id =
    find_first (λ d. d.vendor_id == vendor_id && d.device_id == device_id) devs 0

unfoldable pub pci_find_class : List PciDevice → ℕ → ℕ → Option ℕ
unfolding find_first
pci_find_class devs class_code subclass =
    find_first (λ d. d.class_code == class_code && d.subclass == subclass) devs 0

abbrev pub pci_get_device_count : List PciDevice → ℕ
pci_get_device_count devs = length devs

abbrev pub pci_get_device : List PciDevice → ℤ → Option PciDevice
pci_get_device devs (pos i) = get_elem? devs i
pci_get_device devs (negsuc i) = none

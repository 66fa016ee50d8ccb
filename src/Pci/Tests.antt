-- ===== src/Pci/Tests.antt =====
-- Buses with no device, and with a VGA adapter at every address.
use os_from_zero.Base.{ℕ, ◌≡◌, refl, true, ◌↔◌, arith}
use os_from_zero.Pci.{pci_read_config, pci_device_exists, read_device, pci_enumerate}
use os_from_zero.Pci.Scan.{IsTable, pci_enumerate-IsTable}
use os_from_zero.Pci.Complete.{Listed, pci_enumerate-Listed}
use os_from_zero.Pci.Classes.{class_register, read_device-swaps}

abbrev display : ℕ
display = 3

abbrev vga : ℕ
vga = 0

-- Every register reads as one of class 3 and subclass 0.
abbrev vga_everywhere : ℕ → ℕ
vga_everywhere address = class_register display vga 0

pci_enumerate-IsTable_example : IsTable vga_everywhere (pci_enumerate vga_everywhere)
pci_enumerate-IsTable_example = pci_enumerate-IsTable vga_everywhere

vga_exists : pci_device_exists vga_everywhere 1 2 0 ≡ true
unfolding pci_device_exists pci_read_config
vga_exists = refl

pci_enumerate-Listed_example :
    Listed (read_device vga_everywhere 1 2 0) (pci_enumerate vga_everywhere)
pci_enumerate-Listed_example =
    pci_enumerate-Listed vga_everywhere 1 2 (omega arith) (omega arith) vga_exists

vga_class : pci_read_config vga_everywhere 1 2 0 0x0B ≡ class_register display vga 0
unfolding pci_read_config
vga_class = refl

read_device-swaps_example :
    ((read_device vga_everywhere 1 2 0).class_code ≡ vga)
    × ((read_device vga_everywhere 1 2 0).subclass ≡ display)
    × (((read_device vga_everywhere 1 2 0).is_vga ≡ true) ↔ ((display ≡ 0) × (vga ≡ 3)))
read_device-swaps_example =
    read_device-swaps vga_everywhere 1 2 0 display vga 0 (omega arith) (omega arith) (omega arith)
      vga_class

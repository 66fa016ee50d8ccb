-- ===== src/Pci/Classes.antt =====
-- The class of a device, as the table records it.
use os_from_zero.Base.{ℕ, ◌+◌, ◌*◌, ◌/◌, ◌%◌, ◌^◌, ◌<◌, ◌≡◌, ◌↔◌, true, arith}
use os_from_zero.Pci.{pci_read_config, read_device}

-- The register at 0x08 holds the class in its top byte and the subclass below it; below these
-- stand the programming interface and the revision.
abbrev pub class_register : ℕ → ℕ → ℕ → ℕ
class_register class_code subclass rest = class_code * 2 ^ 24 + subclass * 2 ^ 16 + rest

-- A device is recorded with its class and its subclass exchanged. So it counts as a VGA adapter
-- exactly when its class is 0 and its subclass 3, which is not the class of display adapters.
pub read_device-swaps :
    (port : ℕ → ℕ) (bus device function class_code subclass rest : ℕ)
    → class_code < 2 ^ 8
    → subclass < 2 ^ 8
    → rest < 2 ^ 16
    → pci_read_config port bus device function 0x0B ≡ class_register class_code subclass rest
    → ((read_device port bus device function).class_code ≡ subclass)
      × ((read_device port bus device function).subclass ≡ class_code)
      × (((read_device port bus device function).is_vga ≡ true)
          ↔ ((class_code ≡ 0) × (subclass ≡ 3)))
unfolding read_device
read_device-swaps port bus device function class_code subclass rest c s r e =
    let low : pci_read_config port bus device function 0x0B / 2 ^ 16 % 2 ^ 8 ≡ subclass =
      omega (arith, e) in
    let high : pci_read_config port bus device function 0x0B / 2 ^ 24 % 2 ^ 8 ≡ class_code =
      omega (arith, e) in
    (low, high, (λ t. ground (arith, low, high), λ h. ground (arith, low, high)))

-- ===== src/SystemMonitor/Format.antt =====
-- sysmon_format_bytes of kernel/src/system_monitor.c.
use os_from_zero.Base.{
  ℕ, zero, suc, ◌+◌, ◌-◌, ◌/◌, ◌%◌, ◌^◌, ◌<◌, ◌≤◌, ◌≡◌, Option, none, some, List, [], ◌∷◌, ◌++◌,
  ◌==◌, ltb, if◌then◌else◌, length, codes, ◌>>=◌,
}
use os_from_zero.Decimal.{print_number}
use os_from_zero.Decimal.Value.{value, AllDigits}

-- The first loop, with the units that are left: the value and the index of its unit.
unfoldable pub scale : ℕ → ℕ → ℕ → ℕ × ℕ
scale zero bytes unit_index = (bytes, unit_index)
scale (suc units) bytes unit_index =
    let smaller = scale units (bytes / 1024) (unit_index + 1) in
    if ltb bytes 1024 then (bytes, unit_index) else smaller

abbrev pub unit_text : ℕ → List ℕ
unit_text unit_index =
    if unit_index == 0
    then codes "B"
    else if unit_index == 1
    then codes "KB"
    else if unit_index == 2
    then codes "MB"
    else codes "GB"

-- A loop that copies a text behind what stands in the buffer, while there is room.
unfoldable pub copy_within : ℕ → List ℕ → List ℕ → List ℕ
copy_within room out [] = out
copy_within room out (c ∷ s) =
    let rest = copy_within room (out ++ (c ∷ [])) s in if ltb (length out) room then rest else out

-- `(int)buffer_size - 1`, 0 where it is negative: then no position is below it. For the least
-- `int` the subtraction overflows, which is a fault.
unfoldable pub int_room : ℕ → Option ℕ
int_room buffer_size =
    let low = buffer_size % 2 ^ 32 in
    if ltb low (2 ^ 31) then some (low - 1) else if low == 2 ^ 31 then none else some 0

-- The text in a buffer of this size that is not NULL; nothing is written for the size 0. num_str
-- has room for 31 digits and the 0.
unfoldable pub sysmon_format_bytes : ℕ → ℕ → Option (List ℕ)
unfolding scale copy_within int_room
sysmon_format_bytes bytes buffer_size = if buffer_size == 0 then some [] else (do
  let (scaled, unit_index) = scale 3 bytes 0
  num_str ← print_number 31 scaled
  room ← int_room buffer_size
  let number = copy_within room [] num_str
  let spaced = copy_within room number (b' ' ∷ [])
  some (copy_within room spaced (unit_text unit_index)))

-- What `scale` finds for `bytes`, from a value and a unit.
pub record IsScaled (bytes scaled unit_index : ℕ) : Type 0 where
  pub known : unit_index ≤ 3
  pub quotient : scaled ≡ bytes / 1024 ^ unit_index
  pub small : unit_index < 3 → scaled < 1024
  pub large : 0 < unit_index → 0 < scaled

-- What is written for a number of bytes: the number that `digits` spells, a blank and the unit.
pub record Formatted (bytes : ℕ) (text : List ℕ) : Type 0 where
  pub digits : List ℕ
  pub unit_index : ℕ
  pub written : text ≡ digits ++ (b' ' ∷ unit_text unit_index)
  pub all_digits : AllDigits digits
  pub scaled : IsScaled bytes (value 0 digits) unit_index

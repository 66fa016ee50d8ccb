-- ===== src/Memory/Tests.antt =====
-- Blocks that overlap, in a memory of 16 bytes that holds its own addresses.
use os_from_zero.Base.{◌≡◌, some, arith}
use os_from_zero.Memory.{Bytes, memmove}
use os_from_zero.Memory.Move.{IsMoved, memmove_lem}

abbrev addresses : Bytes
addresses i = i

memmove_lem_example :
    (m' : Bytes) × (memmove 16 addresses 3 1 8 ≡ some m') × IsMoved addresses m' 3 1 8
memmove_lem_example = memmove_lem 16 addresses 3 1 8 (omega arith) (omega arith)

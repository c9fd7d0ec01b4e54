-- ===== src/Mem/Memory/Tests.antt =====
-- kernel/mem/memory.c: overlapping copies.
use valecium.Prelude.{◌+◌, ◌-◌, ◌≡◌, refl, if◌then◌else◌}
use valecium.Mem.Memory.{
  Memory, within, memmove, copy_forwards, copy_backwards, memcpy, copy_up, copy_down, dwords_up,
  dwords_down, bytes_down, move_dword,
}
use valecium.Mem.Memory.Move.{memmove_lem}

-- Each byte holds its address.
abbrev pub numbered : Memory
numbered = λ a. a

up :
    (memmove 3 1 4 numbered 3 ≡ 1) × (memmove 3 1 4 numbered 6 ≡ 4) × (memmove 3 1 4 numbered 7 ≡ 7)
unfolding memmove copy_forwards copy_backwards
up = (refl, refl, refl)

down :
    (memmove 1 3 4 numbered 1 ≡ 3) × (memmove 1 3 4 numbered 4 ≡ 6) × (memmove 1 3 4 numbered 5 ≡ 5)
unfolding memmove copy_forwards copy_backwards
down = (refl, refl, refl)

-- `memcpy` of 8 bytes to 4 bytes further up, where the last bytes are at multiples of 4: the dwords
-- begin at the last byte instead of ending there, so the first 3 bytes stay as they were and 3 bytes
-- behind the area are overwritten.
overlap_up :
    (memcpy 13 9 8 numbered 13 ≡ 13)
    × (memcpy 13 9 8 numbered 20 ≡ 16)
    × (memcpy 13 9 8 numbered 23 ≡ 19)
unfolding memcpy copy_up copy_down copy_forwards dwords_up dwords_down bytes_down move_dword
overlap_up = (refl, refl, refl)

memmove_lem_example :
    memmove 3 1 4 numbered 5 ≡ (if within 3 4 5 then numbered (1 + (5 - 3)) else numbered 5)
memmove_lem_example = memmove_lem 3 1 4 numbered 5

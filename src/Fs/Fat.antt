-- ===== src/Fs/Fat.antt =====
-- kernel/fs/fat/fat.c: the file allocation table of a volume, its cache and its copies on the disk,
-- for entries of 12, 16 and 32 bits. The partition's sectors are the interface `Sectors`. The
-- processor reads and writes words with the lowest byte first. The instance and the partition are
-- not null.
pub mod Codec
pub mod Disk
pub mod Copies
pub mod Cache
pub mod Mirror
pub mod Files
pub mod Read
pub mod Seek
pub mod Tests
use valecium.Prelude.{
  ℕ, zero, suc, ◌+◌, ◌-◌, ◌*◌, ◌/◌, ◌%◌, ◌^◌, ◌≤◌, ◌<◌, ◌≡◌, ◌≢◌, refl, sym, ap, ◌∙◌, Bool, true,
  false, not, ◌&&◌, ◌||◌, arith, ◌==◌, ==_iff, if◌then◌else◌, inl, inr, ◌⊎◌, Bool-cases,
  Option-cases, Option, none, some, ltb, leb, u8, u32, update, List, [], ◌∷◌, ◌++◌, fun_ext,
  has_bit, length, length-append, get_or, take, drop, replicate, map, bit_and, bit_or, passes,
  passes→true, length-map, length-replicate,
}

-- `Partition_ReadSectors` and `Partition_WriteSectors`, on what the disk holds. A read gives the
-- bytes of some sectors, or fails and leaves the buffer as it was; it changes nothing on the disk.
-- A write of one sector may fail.
pub record Sectors (S : Type 0) : Type 0 where
  pub read : ℕ → ℕ → S → Option (ℕ → ℕ)
  pub write : ℕ → (ℕ → ℕ) → S → Bool × S

-- `FAT_Instance`, the fields that the table needs.
pub record Instance : Type 0 where
  pub reserved_sectors : ℕ
  pub fat_count : ℕ
  pub sectors_per_cluster : ℕ
  pub bpb_sectors_per_fat : ℕ
  pub fat_cache : ℕ → ℕ
  pub fat_cache_pos : ℕ
  pub data_section_lba : ℕ
  pub fat_type : ℕ
  pub total_sectors : ℕ
  pub sectors_per_fat : ℕ

abbrev pub cache_size : ℕ
cache_size = 5

-- The position of an invalid cache.
abbrev pub no_position : ℕ
no_position = 0xffffffff

unfoldable pub detect : Instance → Instance
detect inst =
    let data_clusters =
      (inst.total_sectors + 2 ^ 32 - inst.data_section_lba) % 2 ^ 32 / inst.sectors_per_cluster in
    if ltb data_clusters 0xff5
    then record inst { fat_type = 12 }
    else if not (inst.bpb_sectors_per_fat == 0)
    then record inst { fat_type = 16 }
    else record inst { fat_type = 32 }

unfoldable pub cluster_to_lba : Instance → ℕ → ℕ
cluster_to_lba inst cluster =
    u32 (inst.data_section_lba + u32 (cluster + 2 ^ 32 - 2) * inst.sectors_per_cluster)

-- Where the entry of a cluster is in the table.
unfoldable pub entry_offset : ℕ → ℕ → ℕ
entry_offset fat_type cluster =
    if fat_type == 12
    then u32 (cluster * 3) / 2
    else if fat_type == 16
    then u32 (cluster * 2)
    else u32 (cluster * 4)

abbrev pub load16 : (ℕ → ℕ) → ℕ → ℕ
load16 b i = b i + 256 * b (i + 1)

abbrev pub load32 : (ℕ → ℕ) → ℕ → ℕ
load32 b i = load16 b i + 65536 * load16 b (i + 2)

abbrev pub store16 : (ℕ → ℕ) → ℕ → ℕ → ℕ → ℕ
store16 b i w = update (update b i (w % 256)) (i + 1) (w / 256 % 256)

abbrev pub store32 : (ℕ → ℕ) → ℕ → ℕ → ℕ → ℕ
store32 b i w = store16 (store16 b i w) (i + 2) (w / 65536)

unfoldable pub entry12 : ℕ → ℕ → ℕ → ℕ
entry12 cluster old value =
    if cluster % 2 == 0
    then bit_or (bit_and old 0xf000) (bit_and value 0xfff)
    else bit_or (bit_and old 0xf) (bit_and value 0xfff * 16)

unfoldable pub entry32 : ℕ → ℕ → ℕ
entry32 old value = bit_or (bit_and old 0xf0000000) (bit_and value 0xfffffff)

-- The entry at `i` in some bytes is set.
unfoldable pub put_entry : ℕ → ℕ → ℕ → (ℕ → ℕ) → ℕ → ℕ → ℕ
put_entry fat_type cluster value b i =
    if fat_type == 12
    then store16 b i (entry12 cluster (load16 b i) value)
    else if fat_type == 16
    then store16 b i (value % 2 ^ 16)
    else store32 b i (entry32 (load32 b i) value)

-- The value of the entry at `i`; the ends of a chain are the same number for the three types.
unfoldable pub get_entry : ℕ → ℕ → (ℕ → ℕ) → ℕ → ℕ
get_entry fat_type cluster b i =
    if fat_type == 12
    then (let next = if cluster % 2 == 0 then bit_and (load16 b i) 0xfff else load16 b i / 16 in
        if leb 0xff8 next then bit_or next 0xfffff000 else next)
    else if fat_type == 16
    then (let next = load16 b i in if leb 0xfff8 next then bit_or next 0xffff0000 else next)
    else bit_and (load32 b i) 0xfffffff

abbrev pub joined : (ℕ → ℕ) → (ℕ → ℕ) → ℕ → ℕ
joined first second i = if ltb i 512 then first i else second (i - 512)

-- Whether an entry of 12 bits goes on in the next sector.
abbrev pub crosses : ℕ → ℕ → Bool
crosses fat_type off = fat_type == 12 && off == 511

-- The cache as the code reads it: behind it is its position.
abbrev pub cached_byte : Instance → ℕ → ℕ
cached_byte inst i =
    if ltb i 2560 then inst.fat_cache i else inst.fat_cache_pos / 256 ^ (i - 2560) % 256

-- The end of `FAT_WriteFatEntry`.
unfoldable pub update_cache : Instance → ℕ → ℕ → Instance
update_cache inst cluster value =
    let offset = entry_offset inst.fat_type cluster in
    let sector = offset / 512 in
    let pos = inst.fat_cache_pos in
    if pos == no_position
    then inst
    else if inst.fat_type == 12
    then record inst { fat_cache_pos = no_position }
    else if leb pos sector && ltb sector (u32 (pos + cache_size))
    then record inst {
      fat_cache =
          put_entry inst.fat_type cluster value inst.fat_cache
            ((sector - pos) * 512 + offset % 512);
    }
    else inst

module _ {S : Type 0} (sectors : Sectors S) where
  unfoldable pub read_fat : Instance → ℕ → S → Option (ℕ → ℕ)
  read_fat inst lba_index s = sectors.read (u32 (inst.reserved_sectors + lba_index)) cache_size s

  -- One copy of the table; `stack` is what the buffer held before.
  unfoldable pub write_sectors : ℕ → Bool → (ℕ → ℕ) → S → Bool × S
  write_sectors lba cross b s =
      let (fine, s1) = sectors.write lba b s in
      if not fine
      then (false, s1)
      else if cross
      then sectors.write (u32 (lba + 1)) (λ i. b (512 + i)) s1
      else (true, s1)

  unfoldable pub write_copy_at : Instance → ℕ → ℕ → (ℕ → ℕ) → ℕ → S → Bool × S
  write_copy_at inst cluster value stack lba s =
      let off = entry_offset inst.fat_type cluster % 512 in
      let cross = crosses inst.fat_type off in
      elim (sectors.read lba 1 s) [
        | none ↦ (false, s)
        | some first ↦ elim (if cross then sectors.read (u32 (lba + 1)) 1 s else some stack) [
          | none ↦ (false, s)
          | some second ↦
              write_sectors lba cross
                (put_entry inst.fat_type cluster value (joined first second) off) s
        ]
      ]

  unfoldable pub write_copy : Instance → ℕ → ℕ → (ℕ → ℕ) → ℕ → S → Bool × S
  write_copy inst cluster value stack k s =
      let sector = entry_offset inst.fat_type cluster / 512 in
      write_copy_at inst cluster value stack
        (u32 (inst.reserved_sectors + k * inst.sectors_per_fat + sector)) s

  -- The loop over the copies, with `n` left from the `k`th on.
  unfoldable pub write_copies : Instance → ℕ → ℕ → (ℕ → ℕ) → ℕ → ℕ → S → Bool × S
  write_copies inst cluster value stack zero k s = (true, s)
  write_copies inst cluster value stack (suc n) k s =
      let (fine, s1) = write_copy inst cluster value stack k s in
      let rest = write_copies inst cluster value stack n (k + 1) s1 in
      if fine then rest else (false, s1)

  unfoldable pub write_fat_entry : ℕ → ℕ → (ℕ → ℕ) → Instance × S → Bool × (Instance × S)
  write_fat_entry cluster value stack (inst, s) =
      let (fine, s1) = write_copies inst cluster value stack inst.fat_count 0 s in
      if fine then (true, (update_cache inst cluster value, s1)) else (false, (inst, s1))

  -- The cache with the sectors from one on; `none`: they cannot be read.
  unfoldable pub load_cache : Instance → ℕ → S → Option Instance
  load_cache inst sector s =
      if ltb sector inst.fat_cache_pos || leb (u32 (inst.fat_cache_pos + cache_size)) sector
      then elim (read_fat inst sector s) [
        | none ↦ none
        | some b ↦ some (record inst { fat_cache = b; fat_cache_pos = sector })
      ]
      else some inst

  unfoldable pub next_cluster : ℕ → Instance × S → ℕ × Instance
  next_cluster cluster (inst, s) =
      let offset = entry_offset inst.fat_type cluster in
      elim (load_cache inst (offset / 512) s) [
        | none ↦ (0xffffffff, inst)
        | some inst' ↦ (
          get_entry inst.fat_type cluster (cached_byte inst') (offset - inst'.fat_cache_pos * 512),
          inst',
        )
      ]

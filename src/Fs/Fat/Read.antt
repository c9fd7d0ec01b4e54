-- ===== src/Fs/Fat/Read.antt =====
-- kernel/fs/fat/fat.c: FAT_Read and FAT_ReadEntry. A read from a file gives bytes, and changes the
-- file and the cache of the table; the disk stays. The loop has fuel, and `none` means that it still
-- runs when the fuel is used up. A disk that fails leaves the buffer as it was.
pub mod Chain
pub mod Content
pub mod Position
pub mod Rounds
pub mod Loop
pub mod Opened
pub mod Tests
use valecium.Prelude.{
  ℕ, zero, suc, ◌+◌, ◌-◌, ◌*◌, ◌/◌, ◌%◌, ◌^◌, ◌≤◌, ◌<◌, ◌≡◌, ◌≢◌, refl, sym, ap, ◌∙◌, Bool, true,
  false, not, ◌&&◌, ◌||◌, arith, ◌==◌, ==_iff, if◌then◌else◌, inl, inr, ◌⊎◌, Bool-cases,
  Option-cases, Option, none, some, ltb, leb, u8, u32, update, List, [], ◌∷◌, ◌++◌, fun_ext,
  has_bit, length, length-append, get_or, take, drop, replicate, map, bit_and, bit_or, passes,
  passes→true, length-map, length-replicate,
}
use valecium.Fs.Fat.{Sectors, Instance, cluster_to_lba, next_cluster}
use valecium.Fs.Fat.Files.{
  FileData, Volume, Handle, root, handle, Code, success, enoent, is_root, is_valid, file_of,
  set_file,
}

-- From which number on a cluster is the end of a chain.
unfoldable pub eof_marker : ℕ → ℕ
eof_marker fat_type = if fat_type == 12 then 0xff8 else if fat_type == 16 then 0xfff8 else 0xffffff8

-- The bytes of `memcpy` from the buffer.
abbrev pub bytes_from : (ℕ → ℕ) → ℕ → ℕ → List ℕ
bytes_from b i zero = []
bytes_from b i (suc n) = b i ∷ bytes_from b (i + 1) n

-- The end of the file is where it is.
abbrev pub end_here : FileData → FileData
end_here fd = record fd { size = fd.position }

-- How many bytes are to be read; `none`: the file is empty or at its end.
unfoldable pub read_limit : Volume → Handle → ℕ → Option ℕ
read_limit vol h byte_count =
    let fd = file_of vol h in
    if fd.size == 0 && not fd.is_directory
    then none
    else if ltb 0 fd.size && leb fd.size fd.position
    then none
    else (let n =
          if ltb 0 fd.size && ltb (fd.size - fd.position) byte_count
          then fd.size - fd.position
          else byte_count in
        let left = u32 (0x1000000 + 2 ^ 32 - fd.position) in
        some (
          if is_root h && vol.inst.fat_type == 32 && ltb 0x1000000 (u32 (fd.position + n))
          then (if ltb left n then left else n)
          else n))

module _ {S : Type 0} (sectors : Sectors S) (s : S) where
  -- A sector is read into the buffer; whether the reading goes on.
  unfoldable pub load_sector : ℕ → FileData → Bool × FileData
  load_sector lba fd = elim (sectors.read lba 1 s) [
    | none ↦ (false, fd)
    | some b ↦ (true, record fd { buffer = b })
  ]

  unfoldable pub load_current : ℕ → Instance → FileData → Bool × (Instance × FileData)
  load_current marker inst fd =
      let (fine, fd') =
        load_sector (u32 (cluster_to_lba inst fd.current_cluster + fd.current_sector_in_cluster))
          fd in
      if leb marker fd.current_cluster then (false, (inst, end_here fd)) else (fine, (inst, fd'))

  -- The next sector of a chain that ends at the clusters from `marker` on.
  unfoldable pub next_in_chain : ℕ → Instance → FileData → Bool × (Instance × FileData)
  next_in_chain marker inst fd =
      let sector = fd.current_sector_in_cluster + 1 in
      let (next, inst') = next_cluster sectors fd.current_cluster (inst, s) in
      let fd0 = record fd { current_sector_in_cluster = 0 } in
      if ltb sector inst.sectors_per_cluster
      then load_current marker inst (record fd { current_sector_in_cluster = sector })
      else if ltb next 2
      then (false, (inst', end_here fd0))
      else load_current marker inst' (record fd0 { current_cluster = next })

  -- The next sector of a root directory outside of the clusters.
  unfoldable pub next_in_root : ℕ → FileData → Bool × FileData
  next_in_root end fd =
      let fd1 = record fd { current_cluster = u32 (fd.current_cluster + 1) } in
      if leb end fd1.current_cluster
      then (false, end_here fd1)
      else load_sector fd1.current_cluster fd1

  unfoldable pub next_sector : Volume → Handle → Instance → FileData → Bool × (Instance × FileData)
  next_sector vol (handle h) inst fd = next_in_chain (eof_marker inst.fat_type) inst fd
  next_sector vol root inst fd =
      if inst.fat_type == 32
      then next_in_chain 0xfffffff8 inst fd
      else (let (fine, fd') = next_in_root (u32 (vol.root_dir_lba + vol.root_dir_sectors)) fd in
          (fine, (inst, fd')))

  -- The bytes that are read so far are `out`, and `rounds` sectors have been left.
  unfoldable pub read_loop :
      ℕ
      → Volume
      → Handle
      → ℕ
      → ℕ
      → List ℕ
      → Instance × FileData
      → Option (List ℕ × (Instance × FileData))
  read_loop zero vol h byte_count rounds out (inst, fd) = none
  read_loop (suc fuel) vol h byte_count rounds out (inst, fd) =
      let off = fd.position % 512 in
      let left = 512 - off in
      let now = if ltb byte_count left then byte_count else left in
      let out' = out ++ bytes_from fd.buffer off now in
      let fd' = record fd { position = u32 (fd.position + now) } in
      let rest = byte_count - now in
      elim (ltb 0 byte_count) [
        | false ↦ some (out, (inst, fd))
        | true ↦ elim (left == now || (ltb 0 fd'.position && fd'.position % 512 == 0)) [
          | false ↦ read_loop fuel vol h rest rounds out' (inst, fd')
          | true ↦ elim (ltb 10000 (rounds + 1)) [
            | true ↦ some (out', (inst, fd'))
            | false ↦
                let (fine, st) = next_sector vol h inst fd' in
                elim fine [
                  | true ↦ read_loop fuel vol h rest (rounds + 1) out' st
                  | false ↦ some (out', st)
                ]
          ]
        ]
      ]

  -- FAT_Read: the bytes and the volume after it.
  unfoldable pub read : ℕ → Volume → Handle → ℕ → Option (List ℕ × Volume)
  read fuel vol h byte_count =
      if not (is_valid h) then some ([], vol) else elim (read_limit vol h byte_count) [
        | none ↦ some ([], vol)
        | some n ↦ elim (read_loop fuel vol h n 0 [] (vol.inst, file_of vol h)) [
          | none ↦ none
          | some (bytes, (inst, fd)) ↦ some (bytes, record (set_file vol h fd) { inst = inst })
        ]
      ]

  unfoldable pub read_entry : ℕ → Volume → Handle → Option (Code × (List ℕ × Volume))
  read_entry fuel vol h = elim (read fuel vol h 32) [
    | none ↦ none
    | some (bytes, vol') ↦ some (if length bytes == 32 then success else enoent, (bytes, vol'))
  ]

-- ===== src/Fs/Fat/Seek.antt =====
-- kernel/fs/fat/fat.c: FAT_Seek. The disk and the file are not null, and the disk has an instance.
pub mod Place
use valecium.Prelude.{
  ℕ, zero, suc, ◌+◌, ◌-◌, ◌*◌, ◌/◌, ◌%◌, ◌^◌, ◌≤◌, ◌<◌, ◌≡◌, ◌≢◌, refl, sym, ap, ◌∙◌, Bool, true,
  false, not, ◌&&◌, ◌||◌, arith, ◌==◌, ==_iff, if◌then◌else◌, inl, inr, ◌⊎◌, Bool-cases,
  Option-cases, Option, none, some, ltb, leb, u8, u32, update, List, [], ◌∷◌, ◌++◌, fun_ext,
  has_bit, length, length-append, get_or, take, drop, replicate, map, bit_and, bit_or, passes,
  passes→true, length-map, length-replicate,
}
use valecium.Fs.Fat.{Sectors, Instance, cluster_to_lba, next_cluster}
use valecium.Fs.Fat.Files.{
  FileData, Volume, Handle, root, handle, Code, success, estate, einval, eio, is_valid, file_of,
  set_file,
}
use valecium.Fs.Fat.Read.{eof_marker, end_here}

module _ {S : Type 0} (sectors : Sectors S) (s : S) where
  -- The loop along the chain; `none`: its end was reached.
  unfoldable pub walk : ℕ → ℕ → ℕ → Instance → Option ℕ × Instance
  walk zero marker cluster inst = (some cluster, inst)
  walk (suc n) marker cluster inst =
      let (next, inst') = next_cluster sectors cluster (inst, s) in
      let rest = walk n marker next inst' in if leb marker next then (none, inst') else rest

  unfoldable pub seek_sector : ℕ → FileData → Code × FileData
  seek_sector lba fd = elim (sectors.read lba 1 s) [
    | none ↦ (eio, fd)
    | some b ↦ (success, record fd { buffer = b })
  ]

  -- A file in clusters whose position has been set.
  unfoldable pub seek_chain : ℕ → ℕ → Instance → FileData → Code × (Instance × FileData)
  seek_chain marker bytes_per_sector inst fd =
      let cluster_bytes = bytes_per_sector * inst.sectors_per_cluster in
      let (found, inst') = walk (fd.position / cluster_bytes) marker fd.first_cluster inst in
      elim found [
        | none ↦ (eio, (inst', end_here fd))
        | some c ↦
            let fd' = record fd {
              current_cluster = c;
              current_sector_in_cluster = fd.position % cluster_bytes / bytes_per_sector;
            } in
            let (code, fd'') =
              seek_sector (u32 (cluster_to_lba inst' c + fd'.current_sector_in_cluster)) fd' in
            (code, (inst', fd''))
      ]

  -- A root directory outside of the clusters.
  unfoldable pub seek_root : ℕ → FileData → Code × FileData
  seek_root bytes_per_sector fd =
      let cluster = u32 (fd.first_cluster + fd.position / bytes_per_sector) in
      let fd' = record fd { current_cluster = cluster; current_sector_in_cluster = 0 } in
      if fd.current_cluster == cluster then (success, fd') else seek_sector cluster fd'

  unfoldable pub seek_placed : Volume → Handle → FileData → Code × (Instance × FileData)
  seek_placed vol root fd =
      let (code, fd') = seek_root vol.bytes_per_sector fd in
      if vol.inst.fat_type == 32
      then seek_chain 0xfffffff8 vol.bytes_per_sector vol.inst fd
      else (code, (vol.inst, fd'))
  seek_placed vol (handle h) fd =
      if fd.size == 0 && not fd.is_directory
      then (if fd.position == 0 then success else einval, (vol.inst, fd))
      else if fd.first_cluster == 0
      then (estate, (vol.inst, fd))
      else seek_chain (eof_marker vol.inst.fat_type) vol.bytes_per_sector vol.inst fd

  unfoldable pub seek : Volume → Handle → ℕ → Code × Volume
  seek vol h position =
      let fd = file_of vol h in
      let fd' = record fd { position = position } in
      let (code, (inst, fd'')) = seek_placed vol h fd' in
      if not (is_valid h)
      then (einval, vol)
      else if not fd.is_directory && ltb fd.size position
      then (einval, vol)
      else if vol.bytes_per_sector == 0 || vol.inst.sectors_per_cluster == 0
      then (estate, set_file vol h fd')
      else (code, record (set_file vol h fd'') { inst = inst })

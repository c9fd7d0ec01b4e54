-- ===== src/Fs/Fat/Mirror.antt =====
-- kernel/fs/fat/fat.c: the cache mirrors the first copy of the table.
use valecium.Prelude.{
  ℕ, ◌+◌, ◌-◌, ◌*◌, ◌/◌, ◌%◌, ◌^◌, ◌≤◌, ◌<◌, ◌≡◌, ◌≢◌, refl, sym, ap, ◌∙◌, true, false, ◌&&◌, arith,
  ◌==◌, if◌then◌else◌, inl, inr, ◌⊎◌, Bool-cases, some, ltb, leb, u32,
}
use valecium.Fs.Fat.{
  Sectors, Instance, cache_size, no_position, entry_offset, get_entry, put_entry, crosses,
  cached_byte, update_cache, write_copies, write_fat_entry, next_cluster,
}
use valecium.Fs.Fat.Codec.{width, get_congr, put_outside}
use valecium.Fs.Fat.Disk.{Lawful}
use valecium.Fs.Fat.Copies.{HasEntry, entry_fits, put_moved, write_copies_lem}
use valecium.Fs.Fat.Cache.{entry_address, misses, next_cluster-cached, next_cluster-content}

module _ {S : Type 0} (sectors : Sectors S) (disk : Lawful sectors) where
  -- What the cache holds of the table is what the disk holds, or the cache is invalid.
  abbrev pub Mirrors : Instance → S → Type 0
  Mirrors inst s =
      (inst.fat_cache_pos ≡ no_position)
      ⊎ ((inst.fat_cache_pos + cache_size < 2 ^ 32)
          × ((i : ℕ)
              → i < 2560
              → inst.fat_cache_pos * 512 + i < inst.sectors_per_fat * 512
              → inst.fat_cache i
                ≡ disk.content s ((inst.reserved_sectors + inst.fat_cache_pos) * 512 + i)))

  -- `FAT_NextCluster` gives the entry that the disk holds, if the cache mirrors the table and the
  -- sectors from the entry on can be read, but for an entry of 12 bits that crosses the cache's end.
  pub next_cluster_lem :
      (inst : Instance) (cluster : ℕ) (s : S) (b : ℕ → ℕ)
      → HasEntry inst cluster
      → Mirrors inst s
      → sectors.read (inst.reserved_sectors + entry_offset inst.fat_type cluster / 512) cache_size s
        ≡ some b
      → (crosses inst.fat_type (entry_offset inst.fat_type cluster % 512) ≡ true
          → entry_offset inst.fat_type cluster / 512 ≢ inst.fat_cache_pos + 4)
      → (next_cluster sectors cluster (inst, s)).0
        ≡ get_entry inst.fat_type cluster (disk.content s) (entry_address inst cluster)
  next_cluster_lem inst cluster s b h m readable uncut =
      let t = inst.fat_type in
      let offset = entry_offset t cluster in
      let sector = offset / 512 in
      let pos = inst.fat_cache_pos in
      let table = h.tables 0 h.some_copy in
      let inside = h.inside in
      let positive : (2 ≤ width t) × (width t ≤ 4) = ground arith in
      elim (Bool-cases (misses inst sector)) [
        | inl miss ↦ next_cluster-content sectors disk inst cluster s b h readable miss
        | inr hit ↦ elim m [
          | inl invalid ↦ absurd (ground arith)
          | inr (small, mirror) ↦
              let fits : offset - pos * 512 + width t ≤ 2560 =
                elim (Bool-cases (crosses t (offset % 512))) [
                  | inl cross ↦ let last = uncut cross in ground arith
                  | inr whole ↦ let one = entry_fits inst cluster h whole in ground arith
                ] in
              let behind : pos * 512 ≤ offset = ground arith in
              let bytes : (e : ℕ)
                  → e < width t
                  → cached_byte inst (offset - pos * 512 + e)
                    ≡ disk.content s (entry_address inst cluster + e) =
                λ e lt.
                  let near : ltb (offset - pos * 512 + e) 2560 ≡ true = ground arith in
                  rw near (
                    mirror (offset - pos * 512 + e) (omega arith) (omega arith)
                    ∙ ap (disk.content s) (omega arith)) in
              next_cluster-cached sectors disk inst cluster s hit
              ∙ get_congr t cluster (cached_byte inst) (disk.content s) (offset - pos * 512)
                  (entry_address inst cluster) bytes
        ]
      ]

  -- An entry that is put into the cache and into the table leaves them the same.
  put-mirrored :
      (inst : Instance) (cluster value : ℕ) (s s1 : S)
      → HasEntry inst cluster
      → crosses inst.fat_type (entry_offset inst.fat_type cluster % 512) ≡ false
      → inst.fat_cache_pos ≤ entry_offset inst.fat_type cluster / 512
      → entry_offset inst.fat_type cluster / 512 < inst.fat_cache_pos + cache_size
      → ((i : ℕ)
          → i < 2560
          → inst.fat_cache_pos * 512 + i < inst.sectors_per_fat * 512
          → inst.fat_cache i
            ≡ disk.content s ((inst.reserved_sectors + inst.fat_cache_pos) * 512 + i))
      → ((j : ℕ)
          → j < (inst.reserved_sectors + inst.sectors_per_fat) * 512
          → disk.content s1 j
            ≡ put_entry inst.fat_type cluster value (disk.content s) (entry_address inst cluster) j)
      → (i : ℕ) → i < 2560
      → inst.fat_cache_pos * 512 + i < inst.sectors_per_fat * 512
      → let offset = entry_offset inst.fat_type cluster in
        let pos = inst.fat_cache_pos in
        put_entry inst.fat_type cluster value inst.fat_cache
          ((offset / 512 - pos) * 512 + offset % 512)
          i
        ≡ disk.content s1 ((inst.reserved_sectors + pos) * 512 + i)
  put-mirrored inst cluster value s s1 h whole behind before mirror after i lt within =
      let t = inst.fat_type in
      let offset = entry_offset t cluster in
      let pos = inst.fat_cache_pos in
      let off = (offset / 512 - pos) * 512 + offset % 512 in
      let base = (inst.reserved_sectors + pos) * 512 in
      let fits = entry_fits inst cluster h whole in
      let inside = h.inside in
      let n =
        if ltb (inst.sectors_per_fat * 512 - pos * 512) 2560
        then inst.sectors_per_fat * 512 - pos * 512
        else 2560 in
      let place : base + off ≡ entry_address inst cluster = omega arith in
      let room : off + width t ≤ n = ground arith in
      let same : (k : ℕ) → k < n → inst.fat_cache k ≡ disk.content s (base + k) =
        λ k le. mirror k (ground arith) (ground arith) in
      put_moved t cluster value n base off inst.fat_cache (disk.content s) room same i
        (ground arith)
      ∙ ap (λ p. put_entry t cluster value (disk.content s) p (base + i)) place
      ∙ sym (after (base + i) (omega arith))

  update_cache-Mirrors :
      (inst : Instance) (cluster value : ℕ) (s s1 : S)
      → HasEntry inst cluster
      → Mirrors inst s
      → ((j : ℕ)
          → j < (inst.reserved_sectors + inst.sectors_per_fat) * 512
          → disk.content s1 j
            ≡ put_entry inst.fat_type cluster value (disk.content s) (entry_address inst cluster) j)
      → Mirrors (update_cache inst cluster value) s1
  unfolding update_cache
  update_cache-Mirrors inst cluster value s s1 h m after =
      let t = inst.fat_type in
      let offset = entry_offset t cluster in
      let sector = offset / 512 in
      let pos = inst.fat_cache_pos in
      elim (Bool-cases (pos == no_position)) [
        | inl invalid ↦ rw (update_cache, invalid) (inl (ground arith))
        | inr valid ↦ elim (Bool-cases (t == 12)) [
          | inl twelve ↦ rw (update_cache, valid, twelve) (inl refl)
          | inr wide ↦ elim m [
            | inl gone ↦ absurd (ground arith)
            | inr (small, mirror) ↦
                let whole : crosses t (offset % 512) ≡ false = ground arith in
                let window : u32 (pos + cache_size) ≡ pos + cache_size = omega arith in
                elim (Bool-cases (leb pos sector && ltb sector (u32 (pos + cache_size)))) [
                  | inl hit ↦
                      rw (update_cache, valid, wide, hit)
                        (inr (
                          small,
                          put-mirrored inst cluster value s s1 h whole (ground arith) (ground arith)
                              mirror after,
                        ))
                  | inr miss ↦
                      rw (update_cache, valid, wide, miss)
                        (inr (
                          small,
                          λ i lt within.
                              let fits = entry_fits inst cluster h whole in
                              let base = (inst.reserved_sectors + pos) * 512 in
                              mirror i lt within
                              ∙ sym (
                                  after (base + i) (omega arith)
                                  ∙ put_outside t cluster value (disk.content s)
                                      (entry_address inst cluster) (base + i) (ground arith)),
                        ))
                ]
          ]
        ]
      ]

  -- After `FAT_WriteFatEntry` has succeeded for a cluster whose entry lies inside the tables, the
  -- cache still mirrors the table on the disk or is invalid.
  pub write-Mirrors :
      (inst : Instance) (cluster value : ℕ) (stack : ℕ → ℕ) (s : S)
      → HasEntry inst cluster
      → Mirrors inst s
      → (write_fat_entry sectors cluster value stack (inst, s)).0 ≡ true
      → let after = (write_fat_entry sectors cluster value stack (inst, s)).1 in
        Mirrors after.0 after.1
  unfolding write_fat_entry
  write-Mirrors inst cluster value stack s h m fine =
      elim (Bool-cases (write_copies sectors inst cluster value stack inst.fat_count 0 s).0) [
        | inl wrote ↦
            let s1 = (write_copies sectors inst cluster value stack inst.fat_count 0 s).1 in
            rw (write_fat_entry, wrote)
              (update_cache-Mirrors inst cluster value s s1 h m
                (write_copies_lem sectors disk inst cluster value stack s h wrote))
        | inr failed ↦ absurd (let bad = rw (write_fat_entry, failed) at fine in ground arith)
      ]

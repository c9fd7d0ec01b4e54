-- ===== src/Fs/Fat/Cache.antt =====
-- kernel/fs/fat/fat.c: the cache shows the table, and what `FAT_WriteFatEntry` sets is what
-- `FAT_NextCluster` gives.
use valecium.Prelude.{
  ℕ, ◌+◌, ◌-◌, ◌*◌, ◌/◌, ◌%◌, ◌≤◌, ◌<◌, ◌≡◌, ◌≢◌, refl, ap, ◌∙◌, Bool, true, false, ◌&&◌, ◌||◌,
  arith, ◌==◌, inl, inr, Bool-cases, some, ltb, leb, u32,
}
use valecium.Fs.Fat.{
  Sectors, Instance, cache_size, no_position, entry_offset, get_entry, put_entry, cached_byte,
  update_cache, read_fat, write_copies, write_fat_entry, load_cache, next_cluster,
}
use valecium.Fs.Fat.Codec.{width, normal, get-put, get_congr}
use valecium.Fs.Fat.Disk.{Lawful}
use valecium.Fs.Fat.Copies.{HasEntry, entry_fits, write_copies_lem}

-- Where the entry of a cluster is on the disk.
abbrev pub entry_address : Instance → ℕ → ℕ
entry_address inst cluster = inst.reserved_sectors * 512 + entry_offset inst.fat_type cluster

-- The sectors of the cache have to be read again.
abbrev pub misses : Instance → ℕ → Bool
misses inst sector =
    ltb sector inst.fat_cache_pos || leb (u32 (inst.fat_cache_pos + cache_size)) sector

module _ {S : Type 0} (sectors : Sectors S) (disk : Lawful sectors) where
  pub next_cluster-cached :
      (inst : Instance) (cluster : ℕ) (s : S)
      → misses inst (entry_offset inst.fat_type cluster / 512) ≡ false
      → (next_cluster sectors cluster (inst, s)).0
        ≡ get_entry inst.fat_type cluster
            (cached_byte inst)
            (entry_offset inst.fat_type cluster - inst.fat_cache_pos * 512)
  unfolding next_cluster load_cache
  next_cluster-cached inst cluster s hit = rw (next_cluster, load_cache, hit) refl

  -- If the sectors are read again, the entry is what the disk holds.
  pub next_cluster-content :
      (inst : Instance) (cluster : ℕ) (s : S) (b : ℕ → ℕ)
      → HasEntry inst cluster
      → sectors.read (inst.reserved_sectors + entry_offset inst.fat_type cluster / 512) cache_size s
        ≡ some b
      → misses inst (entry_offset inst.fat_type cluster / 512) ≡ true
      → (next_cluster sectors cluster (inst, s)).0
        ≡ get_entry inst.fat_type cluster (disk.content s) (entry_address inst cluster)
  unfolding next_cluster load_cache read_fat
  next_cluster-content inst cluster s b h readable miss =
      let t = inst.fat_type in
      let offset = entry_offset t cluster in
      let sector = offset / 512 in
      let lba = inst.reserved_sectors + sector in
      let table = h.tables 0 h.some_copy in
      let inside = h.inside in
      let positive : (2 ≤ width t) × (width t ≤ 4) = ground arith in
      let small : u32 lba ≡ lba = omega arith in
      let loaded : Instance = record inst { fat_cache = b; fat_cache_pos = sector } in
      let bytes : (e : ℕ)
          → e < width t
          → cached_byte loaded (offset - sector * 512 + e)
            ≡ disk.content s (entry_address inst cluster + e) =
        λ e lt.
          let near : ltb (offset - sector * 512 + e) 2560 ≡ true = ground arith in
          rw near (
            disk.shown lba 5 s b readable (offset - sector * 512 + e) (omega arith)
            ∙ ap (disk.content s) (omega arith)) in
      rw (next_cluster, load_cache, miss, read_fat, small, readable)
        (get_congr t cluster (cached_byte loaded) (disk.content s) (offset - sector * 512)
          (entry_address inst cluster) bytes)

  -- What the disk holds after the copies were written.
  written-normal :
      (inst : Instance) (cluster value : ℕ) (stack : ℕ → ℕ) (s : S)
      → HasEntry inst cluster
      → (write_copies sectors inst cluster value stack inst.fat_count 0 s).0 ≡ true
      → get_entry inst.fat_type cluster
          (disk.content (write_copies sectors inst cluster value stack inst.fat_count 0 s).1)
          (entry_address inst cluster)
        ≡ normal inst.fat_type value
  written-normal inst cluster value stack s h fine =
      let t = inst.fat_type in
      let p = entry_address inst cluster in
      let s1 = (write_copies sectors inst cluster value stack inst.fat_count 0 s).1 in
      let inside = h.inside in
      get_congr t cluster (disk.content s1) (put_entry t cluster value (disk.content s) p) p p
        (λ e lt.
          write_copies_lem sectors disk inst cluster value stack s h fine (p + e) (omega arith))
      ∙ get-put t cluster value (disk.content s) p

  -- With the entry in the cache.
  hit-normal :
      (inst : Instance) (cluster value : ℕ) (s : S)
      → HasEntry inst cluster
      → inst.fat_type ≢ 12
      → misses inst (entry_offset inst.fat_type cluster / 512) ≡ false
      → let offset = entry_offset inst.fat_type cluster in
        let pos = inst.fat_cache_pos in
        let cache =
          put_entry inst.fat_type cluster value inst.fat_cache
            ((offset / 512 - pos) * 512 + offset % 512) in
        (next_cluster sectors cluster (record inst { fat_cache = cache }, s)).0
        ≡ normal inst.fat_type value
  hit-normal inst cluster value s h wide hit =
      let t = inst.fat_type in
      let offset = entry_offset t cluster in
      let pos = inst.fat_cache_pos in
      let p = (offset / 512 - pos) * 512 + offset % 512 in
      let cache = put_entry t cluster value inst.fat_cache p in
      let updated : Instance = record inst { fat_cache = cache } in
      let fits = entry_fits inst cluster h (ground arith) in
      let behind : pos ≤ offset / 512 = ground arith in
      let window : u32 (pos + 5) ≤ pos + 5 = omega arith in
      let before : offset / 512 < pos + 5 = ground arith in
      let bytes : (e : ℕ)
          → e < width t
          → cached_byte updated (offset - pos * 512 + e) ≡ cache (p + e) =
        λ e lt.
          let near : ltb (offset - pos * 512 + e) 2560 ≡ true = ground arith in
          rw near (ap cache (omega arith)) in
      next_cluster-cached updated cluster s hit
      ∙ get_congr t cluster (cached_byte updated) cache (offset - pos * 512) p bytes
      ∙ get-put t cluster value inst.fat_cache p

  -- The cache after `FAT_WriteFatEntry` gives the entry that the disk holds.
  update_cache-normal :
      (inst : Instance) (cluster value : ℕ) (s : S) (b : ℕ → ℕ)
      → HasEntry inst cluster
      → sectors.read (inst.reserved_sectors + entry_offset inst.fat_type cluster / 512) cache_size s
        ≡ some b
      → get_entry inst.fat_type cluster (disk.content s) (entry_address inst cluster)
        ≡ normal inst.fat_type value
      → (next_cluster sectors cluster (update_cache inst cluster value, s)).0
        ≡ normal inst.fat_type value
  unfolding update_cache
  update_cache-normal inst cluster value s b h readable held =
      let t = inst.fat_type in
      let sector = entry_offset t cluster / 512 in
      let pos = inst.fat_cache_pos in
      let table = h.tables 0 h.some_copy in
      let inside = h.inside in
      let early : sector < no_position = ground arith in
      elim (Bool-cases (pos == no_position)) [
        | inl invalid ↦
            rw (update_cache, invalid)
              (next_cluster-content inst cluster s b h readable (ground arith) ∙ held)
        | inr valid ↦ elim (Bool-cases (t == 12)) [
          | inl twelve ↦
              let emptied : Instance = record inst { fat_cache_pos = no_position } in
              let h' : HasEntry emptied cluster = record {
                kind = h.kind;
                cluster_small = h.cluster_small;
                inside = h.inside;
                tables = h.tables;
                some_copy = h.some_copy;
              } in
              rw (update_cache, valid, twelve)
                (next_cluster-content emptied cluster s b h' readable (ground arith) ∙ held)
          | inr wide ↦ elim (Bool-cases (leb pos sector && ltb sector (u32 (pos + cache_size)))) [
            | inl hit ↦
                rw (update_cache, valid, wide, hit)
                  (hit-normal inst cluster value s h (λ e. ground arith) (ground arith))
            | inr miss ↦
                rw (update_cache, valid, wide, miss)
                  (next_cluster-content inst cluster s b h readable (ground arith) ∙ held)
          ]
        ]
      ]

  -- If `FAT_WriteFatEntry` succeeds for a cluster whose entry lies inside the tables, then
  -- `FAT_NextCluster` gives the value, cut to the bits of an entry and with an end of chain
  -- extended to 32 bits, whatever the cache held, if the sectors from the entry on can be read.
  pub write-next :
      (inst : Instance) (cluster value : ℕ) (stack : ℕ → ℕ) (s : S) (b : ℕ → ℕ)
      → HasEntry inst cluster
      → (write_fat_entry sectors cluster value stack (inst, s)).0 ≡ true
      → sectors.read
          (inst.reserved_sectors + entry_offset inst.fat_type cluster / 512)
          cache_size
          (write_fat_entry sectors cluster value stack (inst, s)).1.1
        ≡ some b
      → (next_cluster sectors cluster (write_fat_entry sectors cluster value stack (inst, s)).1).0
        ≡ normal inst.fat_type value
  unfolding write_fat_entry
  write-next inst cluster value stack s b h fine readable =
      elim (Bool-cases (write_copies sectors inst cluster value stack inst.fat_count 0 s).0) [
        | inl wrote ↦
            let s1 = (write_copies sectors inst cluster value stack inst.fat_count 0 s).1 in
            let readable' = rw (write_fat_entry, wrote) at readable in
            rw (write_fat_entry, wrote)
              (update_cache-normal inst cluster value s1 b h readable'
                (written-normal inst cluster value stack s h wrote))
        | inr failed ↦ absurd (let bad = rw (write_fat_entry, failed) at fine in ground arith)
      ]

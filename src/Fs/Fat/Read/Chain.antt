-- ===== src/Fs/Fat/Read/Chain.antt =====
-- kernel/fs/fat/fat.c: the chain of clusters that the table on the disk holds, and that the driver
-- follows it.
use valecium.Prelude.{
  ℕ, zero, suc, ◌+◌, ◌-◌, ◌*◌, ◌/◌, ◌%◌, ◌^◌, ◌≤◌, ◌<◌, ◌≡◌, refl, ap, ◌∙◌, false, arith, inl, inr,
  Bool-cases, some, u32, List, [], ◌∷◌,
}
use valecium.Fs.Fat.{
  Sectors, Instance, cache_size, entry_offset, get_entry, crosses, read_fat, load_cache,
  next_cluster,
}
use valecium.Fs.Fat.Codec.{width}
use valecium.Fs.Fat.Disk.{Lawful}
use valecium.Fs.Fat.Copies.{HasEntry}
use valecium.Fs.Fat.Cache.{entry_address, misses}
use valecium.Fs.Fat.Mirror.{Mirrors, next_cluster_lem}
use valecium.Fs.Fat.Read.{eof_marker}

-- The cluster at an index of the chain that begins with `first`.
unfoldable pub chain : Instance → (ℕ → ℕ) → ℕ → ℕ → ℕ
chain inst content first zero = first
chain inst content first (suc k) =
    let cluster = chain inst content first k in
    get_entry inst.fat_type cluster content (entry_address inst cluster)

-- The sector of the disk that holds the sector `q` of a file.
abbrev pub sector_at : Instance → (ℕ → ℕ) → ℕ → ℕ → ℕ
sector_at inst content first q =
    inst.data_section_lba
    + (chain inst content first (q / inst.sectors_per_cluster) - 2) * inst.sectors_per_cluster
    + q % inst.sectors_per_cluster

-- The byte of a file at a position.
abbrev pub file_byte : Instance → (ℕ → ℕ) → ℕ → ℕ → ℕ
file_byte inst content first p = content (sector_at inst content first (p / 512) * 512 + p % 512)

abbrev pub file_bytes : Instance → (ℕ → ℕ) → ℕ → ℕ → ℕ → List ℕ
file_bytes inst content first p zero = []
file_bytes inst content first p (suc n) =
    file_byte inst content first p ∷ file_bytes inst content first (p + 1) n

-- A chain that is long enough for a file of some size and that the driver can follow: each of its
-- clusters is a cluster of data that lies in the first 2 TiB and whose entry is inside the tables
-- and, in a 12-bit table, not cut by the end of a sector, as those of the clusters 341 and 682 and of
-- every 1024th behind each of them are. An entry that is cut may lie at the end of the cache, where
-- the driver reads a wrong byte.
pub record Chained (inst : Instance) (content : ℕ → ℕ) (first size : ℕ) : Type 0 where
  pub positive : 0 < inst.sectors_per_cluster
  pub small : inst.sectors_per_fat + 5 < 2 ^ 32
  pub entries :
      (q : ℕ)
      → q * 512 < size
      → HasEntry inst (chain inst content first (q / inst.sectors_per_cluster))
  pub whole :
      (q : ℕ)
      → q * 512 < size
      → crosses inst.fat_type (
          entry_offset inst.fat_type (chain inst content first (q / inst.sectors_per_cluster))
          % 512)
        ≡ false
  pub linked :
      (q : ℕ)
      → q * 512 < size
      → (2 ≤ chain inst content first (q / inst.sectors_per_cluster))
        × (chain inst content first (q / inst.sectors_per_cluster) < eof_marker inst.fat_type)
  pub placed : (q : ℕ) → q * 512 < size → sector_at inst content first q < 2 ^ 32

-- An instance with another cache.
abbrev pub cached : Instance → (ℕ → ℕ) → ℕ → Instance
cached inst c pos = record inst { fat_cache = c; fat_cache_pos = pos }

pair_eq : {A B : Type 0} {a : A} {b : B} (p : A × B) → p.0 ≡ a → p.1 ≡ b → p ≡ (a, b)
pair_eq p e f = rw (← e, ← f) refl

module _ {S : Type 0} (sectors : Sectors S) (disk : Lawful sectors) (s : S) where
  -- What is read when the sectors are missed.
  loaded-Mirrors :
      (inst : Instance) (cluster : ℕ) (b : ℕ → ℕ)
      → HasEntry inst cluster
      → inst.sectors_per_fat + 5 < 2 ^ 32
      → read_fat sectors inst (entry_offset inst.fat_type cluster / 512) s ≡ some b
      → Mirrors sectors disk (cached inst b (entry_offset inst.fat_type cluster / 512)) s
  unfolding read_fat
  loaded-Mirrors inst cluster b h small e =
      let sector = entry_offset inst.fat_type cluster / 512 in
      let inside = h.inside in
      let table = h.tables 0 h.some_copy in
      let positive : 2 ≤ width inst.fat_type = ground arith in
      let near : u32 (inst.reserved_sectors + sector) ≡ inst.reserved_sectors + sector =
        omega arith in
      inr (
        omega arith,
        λ i lt within.
            disk.shown (u32 (inst.reserved_sectors + sector)) cache_size s b e i lt
            ∙ ap (λ n. disk.content s (n * 512 + i)) near,
      )

  -- `FAT_NextCluster` on a chain: the next cluster, and the cache still mirrors the table.
  pub next_cluster-chain :
      (inst : Instance) (cluster : ℕ) (c : ℕ → ℕ) (pos : ℕ)
      → ((lba n : ℕ) → (b : ℕ → ℕ) × (sectors.read lba n s ≡ some b))
      → HasEntry inst cluster
      → crosses inst.fat_type (entry_offset inst.fat_type cluster % 512) ≡ false
      → inst.sectors_per_fat + 5 < 2 ^ 32
      → Mirrors sectors disk (cached inst c pos) s
      → (c' : ℕ → ℕ) × (pos' : ℕ) × (next_cluster sectors cluster (cached inst c pos, s) ≡ (
        get_entry inst.fat_type cluster (disk.content s) (entry_address inst cluster),
        cached inst c' pos',
      ))
        × Mirrors sectors disk (cached inst c' pos') s
  unfolding read_fat next_cluster load_cache
  next_cluster-chain inst cluster c pos reads h whole small m =
      let now = cached inst c pos in
      let sector = entry_offset inst.fat_type cluster / 512 in
      let h' : HasEntry now cluster = record {
        kind = h.kind;
        cluster_small = h.cluster_small;
        inside = h.inside;
        tables = h.tables;
        some_copy = h.some_copy;
      } in
      let (b, e) = reads (inst.reserved_sectors + sector) cache_size in
      let value =
        next_cluster_lem sectors disk now cluster s b h' m e
          (λ cross. λ last. absurd (ground arith)) in
      let inside = h.inside in
      let table = h.tables 0 h.some_copy in
      let positive : 2 ≤ width inst.fat_type = ground arith in
      let near : u32 (inst.reserved_sectors + sector) ≡ inst.reserved_sectors + sector =
        omega arith in
      elim (Bool-cases (misses now sector)) [
        | inl miss ↦
            let read : read_fat sectors now sector s ≡ some b = rw (read_fat, near) e in
            let second : (next_cluster sectors cluster (now, s)).1 ≡ cached inst b sector =
              rw (next_cluster, load_cache, miss, read) refl in
            (
              b,
              sector,
              pair_eq (next_cluster sectors cluster (now, s)) value second,
              loaded-Mirrors inst cluster b h small read,
            )
        | inr hit ↦
            let second : (next_cluster sectors cluster (now, s)).1 ≡ now =
              rw (next_cluster, load_cache, hit) refl in
            (c, pos, pair_eq (next_cluster sectors cluster (now, s)) value second, m)
      ]

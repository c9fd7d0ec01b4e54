-- ===== src/Fs/Fat/Read/Content.antt =====
-- kernel/fs/fat/fat.c: FAT_Read gives the bytes of the file, which lie along its chain of clusters.
use valecium.Prelude.{
  ℕ, zero, suc, ◌+◌, ◌-◌, ◌*◌, ◌/◌, ◌%◌, ◌^◌, ◌≤◌, ◌<◌, ◌≡◌, refl, sym, ap, ◌∙◌, true, false, arith,
  inl, inr, Bool-cases, some, ltb, leb, u32, ◌++◌,
}
use valecium.Fs.Fat.{Sectors, Instance, get_entry, cluster_to_lba, next_cluster}
use valecium.Fs.Fat.Disk.{Lawful}
use valecium.Fs.Fat.Cache.{entry_address}
use valecium.Fs.Fat.Mirror.{Mirrors}
use valecium.Fs.Fat.Files.{FileData}
use valecium.Fs.Fat.Read.{eof_marker, bytes_from, load_sector, load_current, next_in_chain}
use valecium.Fs.Fat.Read.Chain.{chain, sector_at, file_bytes, Chained, cached, next_cluster-chain}
use native.Mathlib.Nat.{div-add-mod, mod-lt, div-eq_of_lt-le}

-- The next sector lies in the same cluster or is the first one of the next.
same_cluster : (q n : ℕ) → 0 < n → q % n + 1 < n → ((q + 1) / n ≡ q / n) × ((q + 1) % n ≡ q % n + 1)
same_cluster q n positive more =
    let whole : n * (q / n) + q % n ≡ q = div-add-mod q n in
    let index : (q + 1) / n ≡ q / n =
      div-eq_of_lt-le n (omega (arith, whole)) (omega (arith, whole)) in
    let whole' : n * ((q + 1) / n) + (q + 1) % n ≡ q + 1 = div-add-mod (q + 1) n in
    (index, omega (arith, whole, rw index at whole'))

next_one : (q n : ℕ) → 0 < n → n ≤ q % n + 1 → ((q + 1) / n ≡ q / n + 1) × ((q + 1) % n ≡ 0)
next_one q n positive last =
    let whole : n * (q / n) + q % n ≡ q = div-add-mod q n in
    let under : q % n < n = mod-lt q positive in
    let index : (q + 1) / n ≡ q / n + 1 =
      div-eq_of_lt-le n (omega (arith, whole)) (omega (arith, whole)) in
    let whole' : n * ((q + 1) / n) + (q + 1) % n ≡ q + 1 = div-add-mod (q + 1) n in
    (index, omega (arith, whole, rw index at whole'))

pub bytes_from-file_bytes :
    (inst : Instance) (content : ℕ → ℕ) (first q off n : ℕ) (b : ℕ → ℕ)
    → ((i : ℕ) → i < 512 → b i ≡ content (sector_at inst content first q * 512 + i))
    → off + n ≤ 512
    → bytes_from b off n ≡ file_bytes inst content first (q * 512 + off) n
bytes_from-file_bytes inst content first q off zero b same fits = refl
bytes_from-file_bytes inst content first q off (suc n) b same fits =
    let sector : (q * 512 + off) / 512 ≡ q = omega arith in
    let place : (q * 512 + off) % 512 ≡ off = omega arith in
    let next : q * 512 + off + 1 ≡ q * 512 + (off + 1) = omega arith in
    rw (sector, place, next, same off (omega arith))
      (rw (bytes_from-file_bytes inst content first q (off + 1) n b same (omega arith)) refl)

pub file_bytes-append :
    (inst : Instance) (content : ℕ → ℕ) (first p a b : ℕ)
    → file_bytes inst content first p a ++ file_bytes inst content first (p + a) b
      ≡ file_bytes inst content first p (a + b)
file_bytes-append inst content first p zero b =
    let here : p + 0 ≡ p = omega arith in let rest : 0 + b ≡ b = omega arith in rw (here, rest) refl
file_bytes-append inst content first p (suc a) b =
    let next : p + suc a ≡ p + 1 + a = omega arith in
    let sum : suc a + b ≡ suc (a + b) = omega arith in
    rw (next, sum) (rw (file_bytes-append inst content first (p + 1) a b) refl)

pub marker_small : (t : ℕ) → eof_marker t < 2 ^ 32
unfolding eof_marker
marker_small t = ground arith

pub lba_lem :
    (inst : Instance) (cluster j : ℕ)
    → 2 ≤ cluster
    → cluster < 2 ^ 32
    → inst.data_section_lba + (cluster - 2) * inst.sectors_per_cluster + j < 2 ^ 32
    → u32 (cluster_to_lba inst cluster + j)
      ≡ inst.data_section_lba + (cluster - 2) * inst.sectors_per_cluster + j
unfolding cluster_to_lba
lba_lem inst cluster j low high small =
    let index : u32 (cluster + 2 ^ 32 - 2) ≡ cluster - 2 = omega arith in rw index (omega arith)

module _ {S : Type 0} (sectors : Sectors S) (disk : Lawful sectors) (s : S) where
  -- The disk does not fail.
  abbrev pub Reads : Type 0
  Reads = (lba n : ℕ) → (b : ℕ → ℕ) × (sectors.read lba n s ≡ some b)

  load_lem :
      (inst : Instance) (fd : FileData) (lba : ℕ)
      → Reads
      → 2 ≤ fd.current_cluster
      → fd.current_cluster < eof_marker inst.fat_type
      → inst.data_section_lba
          + (fd.current_cluster - 2) * inst.sectors_per_cluster
          + fd.current_sector_in_cluster
        ≡ lba
      → lba < 2 ^ 32
      → (b : ℕ → ℕ) × (load_current sectors s (eof_marker inst.fat_type) inst fd
          ≡ (true, (inst, record fd { buffer = b })))
        × ((i : ℕ) → i < 512 → b i ≡ disk.content s (lba * 512 + i))
  unfolding load_current load_sector
  load_lem inst fd lba reads low high place small =
      let (b, e) = reads lba 1 in
      let in_chain : leb (eof_marker inst.fat_type) fd.current_cluster ≡ false = ground arith in
      let known =
        lba_lem inst fd.current_cluster fd.current_sector_in_cluster low
          (omega (arith, high, marker_small inst.fat_type)) (omega (arith, place, small))
        ∙ place in
      (
        b,
        rw (load_current, load_sector, in_chain, known, e) refl,
        λ i lt. disk.shown lba 1 s b e i (omega arith),
      )

  pub chain_next :
      (inst : Instance) (content : ℕ → ℕ) (first k k' : ℕ)
      → k' ≡ k + 1
      → chain inst content first k'
        ≡ get_entry inst.fat_type
            (chain inst content first k)
            content
            (entry_address inst (chain inst content first k))
  unfolding chain
  chain_next inst content first k k' e = let same : k' ≡ suc k = omega arith in rw same refl

  -- A file at another sector.
  abbrev moved : FileData → ℕ → ℕ → FileData
  moved fd j cluster = record fd { current_sector_in_cluster = j; current_cluster = cluster }

  next_in_same :
      (marker : ℕ) (inst : Instance) (fd : FileData) (j cluster : ℕ)
      → fd.current_sector_in_cluster + 1 < inst.sectors_per_cluster
      → fd.current_sector_in_cluster + 1 ≡ j
      → fd.current_cluster ≡ cluster
      → next_in_chain sectors s marker inst fd
        ≡ load_current sectors s marker inst (moved fd j cluster)
  unfolding next_in_chain
  next_in_same marker inst fd j cluster more e e' =
      let inside : ltb (fd.current_sector_in_cluster + 1) inst.sectors_per_cluster ≡ true =
        ground arith in
      rw (next_in_chain, inside, ← e, ← e') refl

  next_in_other :
      (marker : ℕ) (inst inst' : Instance) (fd : FileData) (next : ℕ)
      → inst.sectors_per_cluster ≤ fd.current_sector_in_cluster + 1
      → next_cluster sectors fd.current_cluster (inst, s) ≡ (next, inst')
      → 2 ≤ next
      → next_in_chain sectors s marker inst fd
        ≡ load_current sectors s marker inst' (moved fd 0 next)
  unfolding next_in_chain
  next_in_other marker inst inst' fd next last e good =
      let over : ltb (fd.current_sector_in_cluster + 1) inst.sectors_per_cluster ≡ false =
        ground arith in
      let real : ltb next 2 ≡ false = ground arith in rw (next_in_chain, over, e, real) refl

  -- The next sector that a file is to show, and the cache.
  abbrev Next : Instance → (ℕ → ℕ) → ℕ → ℕ → FileData → Type 0
  Next inst c pos q fd =
      (c' : ℕ → ℕ) × (pos' : ℕ) × (next_in_chain sectors s (eof_marker inst.fat_type)
          (cached inst c pos) fd
        ≡ load_current sectors s (eof_marker inst.fat_type) (cached inst c' pos') (
            moved fd ((q + 1) % inst.sectors_per_cluster)
              (chain inst (disk.content s) fd.first_cluster ((q + 1) / inst.sectors_per_cluster))))
      × Mirrors sectors disk (cached inst c' pos') s

  next_lem :
      (inst : Instance) (c : ℕ → ℕ) (pos size q : ℕ) (fd : FileData)
      → Reads
      → Chained inst (disk.content s) fd.first_cluster size
      → Mirrors sectors disk (cached inst c pos) s
      → (q + 1) * 512 < size
      → fd.current_cluster
        ≡ chain inst (disk.content s) fd.first_cluster (q / inst.sectors_per_cluster)
      → fd.current_sector_in_cluster ≡ q % inst.sectors_per_cluster
      → Next inst c pos q fd
  next_lem inst c pos size q fd reads linked m more cluster sector =
      let spc = inst.sectors_per_cluster in
      let content = disk.content s in
      let first = fd.first_cluster in
      let marker = eof_marker inst.fat_type in
      elim (Bool-cases (ltb (q % spc + 1) spc)) [
        | inl inside ↦
            let (index, place) = same_cluster q spc linked.positive (ground arith) in
            (
              c,
              pos,
              next_in_same marker (cached inst c pos) fd ((q + 1) % spc)
                  (chain inst content first ((q + 1) / spc)) (ground arith) (omega arith)
                  (cluster ∙ ap (chain inst content first) (sym index)),
              m,
            )
        | inr over ↦
            let (index, place) = next_one q spc linked.positive (ground arith) in
            let current = chain inst content first (q / spc) in
            let (c', pos', e, m') =
              next_cluster-chain sectors disk s inst current c pos reads
                (linked.entries q (omega arith)) (linked.whole q (omega arith)) linked.small m in
            let same = chain_next inst content first (q / spc) ((q + 1) / spc) index in
            let good = (linked.linked (q + 1) more).0 in
            (
              c',
              pos',
              rw (place, same)
                  (next_in_other marker (cached inst c pos) (cached inst c' pos') fd
                    (get_entry inst.fat_type current content (entry_address inst current))
                    (ground arith) (rw cluster e) (rw same at good)),
              m',
            )
      ]

  -- From one sector of a chain to the next.
  pub step_lem :
      (inst : Instance) (c : ℕ → ℕ) (pos size q : ℕ) (fd : FileData)
      → Reads
      → Chained inst (disk.content s) fd.first_cluster size
      → Mirrors sectors disk (cached inst c pos) s
      → (q + 1) * 512 < size
      → fd.current_cluster
        ≡ chain inst (disk.content s) fd.first_cluster (q / inst.sectors_per_cluster)
      → fd.current_sector_in_cluster ≡ q % inst.sectors_per_cluster
      → (c' : ℕ → ℕ) × (pos' : ℕ) × (b : ℕ → ℕ) × (next_in_chain sectors s
            (eof_marker inst.fat_type)
            (cached inst c pos)
            fd
          ≡ (
            true,
            (
              cached inst c' pos',
              record fd {
                current_sector_in_cluster = (q + 1) % inst.sectors_per_cluster;
                current_cluster =
                    chain inst
                      (disk.content s)
                      fd.first_cluster
                      ((q + 1) / inst.sectors_per_cluster);
                buffer = b;
              },
            ),
          ))
        × ((i : ℕ)
            → i < 512
            → b i
              ≡ disk.content s (sector_at inst (disk.content s) fd.first_cluster (q + 1) * 512 + i))
        × Mirrors sectors disk (cached inst c' pos') s
  step_lem inst c pos size q fd reads linked m more cluster sector =
      let spc = inst.sectors_per_cluster in
      let content = disk.content s in
      let first = fd.first_cluster in
      let (c', pos', e, m') = next_lem inst c pos size q fd reads linked m more cluster sector in
      let there = moved fd ((q + 1) % spc) (chain inst content first ((q + 1) / spc)) in
      let (low, high) = linked.linked (q + 1) more in
      let (b, e', bytes) =
        load_lem (cached inst c' pos') there (sector_at inst content first (q + 1)) reads low high
          refl (linked.placed (q + 1) more) in
      (c', pos', b, e ∙ e', bytes, m')

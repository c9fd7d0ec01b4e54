-- ===== src/Fs/Fat/Seek/Place.antt =====
-- kernel/fs/fat/fat.c: FAT_Seek places a file so that FAT_Read goes on there.
use valecium.Prelude.{
  ℕ, zero, suc, ◌+◌, ◌*◌, ◌/◌, ◌%◌, ◌^◌, ◌≤◌, ◌<◌, ◌≡◌, refl, sym, ap, ◌∙◌, true, false, not, ◌&&◌,
  arith, ◌==◌, some, ltb, leb, u32,
}
use valecium.Fs.Fat.{Sectors, Instance, cluster_to_lba}
use valecium.Fs.Fat.Disk.{Lawful}
use valecium.Fs.Fat.Mirror.{Mirrors}
use valecium.Fs.Fat.Files.{FileData, Volume, handle, success, set_file, max_file_handles}
use valecium.Fs.Fat.Read.{eof_marker, read}
use valecium.Fs.Fat.Read.Chain.{chain, sector_at, file_bytes, Chained, cached, next_cluster-chain}
use valecium.Fs.Fat.Read.Content.{Reads, marker_small, lba_lem, chain_next}
use valecium.Fs.Fat.Read.Position.{At}
use valecium.Fs.Fat.Read.Opened.{OpenAt, available, read_lem, update_here, first_sector}
use valecium.Fs.Fat.Seek.{walk, seek_sector, seek_chain, seek_placed, seek}
use native.Mathlib.Nat.{
  div-add-mod, div-div-eq-div-mul, mul-div_cancel, div-mul-le_self, mul-le-mul_right,
}

-- The sector of a cluster at a position, as the code finds it.
sector_in_cluster : (x n : ℕ) → 0 < n → x % (512 * n) / 512 ≡ x / 512 % n
sector_in_cluster x n positive =
    let index : x / 512 / n ≡ x / (512 * n) = div-div-eq-div-mul x 512 n in
    let whole : 512 * n * (x / (512 * n)) + x % (512 * n) ≡ x = div-add-mod x (512 * n) in
    let inner : n * (x / 512 / n) + x / 512 % n ≡ x / 512 = div-add-mod (x / 512) n in
    let whole' = rw (sym index) at whole in
    let same : 512 * n * (x / 512 / n) ≡ 512 * (n * (x / 512 / n)) = omega arith in
    omega (arith, whole', inner, same)

module _ {S : Type 0} (sectors : Sectors S) (disk : Lawful sectors) (s : S) where
  index_lem :
      (inst : Instance) (q k size : ℕ)
      → 0 < inst.sectors_per_cluster
      → q * 512 < size
      → k ≤ q / inst.sectors_per_cluster
      → (k * inst.sectors_per_cluster * 512 < size)
        × (k * inst.sectors_per_cluster / inst.sectors_per_cluster ≡ k)
  index_lem inst q k size positive inside le =
      let spc = inst.sectors_per_cluster in
      let under : q / spc * spc ≤ q = div-mul-le_self q spc in
      let below : k * spc ≤ q / spc * spc = mul-le-mul_right spc le in
      (omega (arith, under, below), mul-div_cancel k positive)

  walk_lem :
      (n k : ℕ) (inst : Instance) (first size q : ℕ) (c : ℕ → ℕ) (pos : ℕ)
      → Reads sectors disk s
      → Chained inst (disk.content s) first size
      → Mirrors sectors disk (cached inst c pos) s
      → q * 512 < size
      → k + n ≡ q / inst.sectors_per_cluster
      → (c' : ℕ → ℕ) × (pos' : ℕ) × (walk sectors s n
            (eof_marker inst.fat_type)
            (chain inst (disk.content s) first k)
            (cached inst c pos)
          ≡ (
            some (chain inst (disk.content s) first (q / inst.sectors_per_cluster)),
            cached inst c' pos',
          ))
        × Mirrors sectors disk (cached inst c' pos') s
  unfolding walk
  walk_lem zero k inst first size q c pos reads linked m inside e =
      let there : k ≡ q / inst.sectors_per_cluster = omega (arith, e) in
      (
        c,
        pos,
        ap (λ (i : ℕ). (some (chain inst (disk.content s) first i), cached inst c pos)) there,
        m,
      )
  walk_lem (suc n) k inst first size q c pos reads linked m inside e =
      let content = disk.content s in
      let marker = eof_marker inst.fat_type in
      let spc = inst.sectors_per_cluster in
      let (near, index) = index_lem inst q k size linked.positive inside (omega (arith, e)) in
      let (near', index') =
        index_lem inst q (k + 1) size linked.positive inside (omega (arith, e)) in
      let (c', pos', step, m') =
        next_cluster-chain sectors disk s inst (chain inst content first k) c pos reads
          (rw index at (linked.entries (k * spc) near)) (rw index at (linked.whole (k * spc) near))
          linked.small m in
      let next = chain_next sectors disk s inst content first k (k + 1) refl in
      let high = (rw index' at (linked.linked ((k + 1) * spc) near')).1 in
      let goes_on : leb marker (chain inst content first (k + 1)) ≡ false = ground arith in
      let (c'', pos'', rest, m'') =
        walk_lem n (k + 1) inst first size q c' pos' reads linked m' inside (omega (arith, e)) in
      (c'', pos'', rw (walk, rw (sym next) at step, goes_on) rest, m'')

  seek_chain_result :
      (marker : ℕ) (inst inst' : Instance) (fd : FileData) (k cluster j lba : ℕ) (b : ℕ → ℕ)
      → fd.position / (512 * inst.sectors_per_cluster) ≡ k
      → fd.position % (512 * inst.sectors_per_cluster) / 512 ≡ j
      → walk sectors s k marker fd.first_cluster inst ≡ (some cluster, inst')
      → u32 (cluster_to_lba inst' cluster + j) ≡ lba
      → sectors.read lba 1 s ≡ some b
      → seek_chain sectors s marker 512 inst fd ≡ (
        success,
        (inst', record fd { current_cluster = cluster; current_sector_in_cluster = j; buffer = b }),
      )
  unfolding seek_chain seek_sector
  seek_chain_result marker inst inst' fd k cluster j lba b rounds sector walked known read =
      rw (seek_chain, rounds, walked, rounds, walked, sector, seek_sector, known, read)
        (rw sector refl)

  seek_chain_lem :
      (inst : Instance) (size p : ℕ) (c : ℕ → ℕ) (pos : ℕ) (fd : FileData)
      → Reads sectors disk s
      → Chained inst (disk.content s) fd.first_cluster size
      → Mirrors sectors disk (cached inst c pos) s
      → fd.size ≡ size
      → fd.position ≡ p
      → p < size
      → (c' : ℕ → ℕ) × (pos' : ℕ) × (fd' : FileData) × (seek_chain sectors s
            (eof_marker inst.fat_type)
            512
            (cached inst c pos)
            fd
          ≡ (success, (cached inst c' pos', fd')))
        × Mirrors sectors disk (cached inst c' pos') s
        × (fd'.first_cluster ≡ fd.first_cluster)
        × At inst (disk.content s) size p fd'
  unfolding seek_chain seek_sector chain
  seek_chain_lem inst size p c pos fd reads linked m extent place inside =
      let content = disk.content s in
      let spc = inst.sectors_per_cluster in
      let first = fd.first_cluster in
      let q = p / 512 in
      let in_file : q * 512 < size = omega arith in
      let rounds : fd.position / (512 * spc) ≡ q / spc =
        ap (λ (x : ℕ). x / (512 * spc)) place ∙ sym (div-div-eq-div-mul p 512 spc) in
      let (c', pos', walked, m') =
        walk_lem (q / spc) 0 inst first size q c pos reads linked m in_file (omega arith) in
      let lba = sector_at inst content first q in
      let cluster = chain inst content first (q / spc) in
      let sector : fd.position % (512 * spc) / 512 ≡ q % spc =
        ap (λ (x : ℕ). x % (512 * spc) / 512) place ∙ sector_in_cluster p spc linked.positive in
      let (low, high) = linked.linked q in_file in
      let known =
        lba_lem (cached inst c' pos') cluster (q % spc) low
          (omega (arith, high, marker_small inst.fat_type)) (linked.placed q in_file) in
      let (b, read) = reads lba 1 in
      (
        c',
        pos',
        record fd { current_cluster = cluster; current_sector_in_cluster = q % spc; buffer = b },
        seek_chain_result (eof_marker inst.fat_type) (cached inst c pos) (cached inst c' pos') fd
            (q / spc) cluster (q % spc) lba b rounds sector walked known read,
        m',
        refl,
        record {
          extent = extent;
          place = place;
          cluster = refl;
          sector = refl;
          shown = λ i lt. disk.shown lba 1 s b read i (omega arith);
        },
      )

  placed_result :
      (vol : Volume) (h : ℕ) (fd fd' : FileData) (inst' : Instance)
      → 0 < fd.size
      → 0 < fd.first_cluster
      → vol.bytes_per_sector ≡ 512
      → seek_chain sectors s (eof_marker vol.inst.fat_type) 512 vol.inst fd
        ≡ (success, (inst', fd'))
      → seek_placed sectors s vol (handle h) fd ≡ (success, (inst', fd'))
  unfolding seek_placed
  placed_result vol h fd fd' inst' some_size used bytes found =
      let sized : (fd.size == 0) ≡ false = ground arith in
      let real : (fd.first_cluster == 0) ≡ false = ground arith in
      rw (seek_placed, sized, real, bytes, found) refl

  seek_result :
      (vol : Volume) (h position : ℕ) (fd' : FileData) (inst' : Instance)
      → h < 10
      → position < (vol.opened_files h).size
      → vol.bytes_per_sector ≡ 512
      → 0 < vol.inst.sectors_per_cluster
      → seek_placed sectors s vol (handle h) (record (vol.opened_files h) { position = position })
        ≡ (success, (inst', fd'))
      → seek sectors s vol (handle h) position
        ≡ (success, record (set_file vol (handle h) fd') { inst = inst' })
  unfolding seek
  seek_result vol h position fd' inst' real inside bytes positive found =
      let valid : ltb h max_file_handles ≡ true = ground arith in
      let within : ltb (vol.opened_files h).size position ≡ false = ground arith in
      let within' : (not (vol.opened_files h).is_directory
            && ltb (vol.opened_files h).size position)
          ≡ false =
        ground arith in
      let sectors_fine : (vol.bytes_per_sector == 0) ≡ false = ground arith in
      let clusters_fine : (vol.inst.sectors_per_cluster == 0) ≡ false = ground arith in
      rw (seek, valid, within', sectors_fine, clusters_fine, found) refl

  -- FAT_Seek to a position inside of an open file whose chain of clusters is `Chained`, from a disk
  -- that does not fail, succeeds, and the
  -- file is at this position then: its cluster, its sector and its buffer are those that the position
  -- has along the file's chain of clusters.
  pub seek_lem :
      (h p position size first : ℕ) (base : Instance) (vol : Volume)
      → h < 10
      → vol.bytes_per_sector ≡ 512
      → Reads sectors disk s
      → Chained base (disk.content s) first size
      → OpenAt sectors disk s h base first size p vol
      → position < size
      → (vol' : Volume) × (seek sectors s vol (handle h) position ≡ (success, vol'))
        × OpenAt sectors disk s h base first size position vol'
  seek_lem h p position size first base vol real bytes reads linked o inside =
      let fd = vol.opened_files h in
      let there : FileData = record fd { position = position } in
      let linked' : Chained base (disk.content s) fd.first_cluster size = rw (o.begins) linked in
      let used =
        (first_sector sectors disk s h base (disk.content s) fd.first_cluster size linked'
          (omega arith)).3 in
      let per_cluster = ap (λ (i : Instance). i.sectors_per_cluster) o.same in
      let (c', pos', fd', found, m', same, at') =
        seek_chain_lem base size position o.cache o.cache_pos there reads linked' o.mirrors
          o.at.extent refl inside in
      let found' =
        ap (λ (i : Instance). seek_chain sectors s (eof_marker i.fat_type) 512 i there) o.same
        ∙ found in
      let here = update_here sectors disk s h vol.opened_files fd' in
      (
        record (set_file vol (handle h) fd') { inst = cached base c' pos' },
        seek_result vol h position fd' (cached base c' pos') real (omega (arith, o.at.extent)) bytes
            (omega (arith, per_cluster, linked.positive))
            (placed_result vol h there fd' (cached base c' pos') (omega (arith, o.at.extent))
              (omega (arith, used)) bytes found'),
        record {
          cache = c';
          cache_pos = pos';
          same = refl;
          mirrors = m';
          begins = ap (λ (g : FileData). g.first_cluster) here ∙ same ∙ o.begins;
          at = rw here at';
        },
      )

  -- FAT_Seek to a position inside of an open file, then FAT_Read, where the chain of clusters is long
  -- enough for the file's size and each cluster of it has its entry inside the tables and, in a
  -- 12-bit table, not cut by the end of a sector: from a disk with sectors of 512 bytes that does not
  -- fail, the read gives the bytes of the file from this position on, as many as are wanted or are
  -- left. The fuel is greater than the number of bytes wanted, which are less than 5 119 000.
  pub seek-read :
      (h p position size first fuel byte_count : ℕ) (base : Instance) (vol : Volume)
      → h < 10
      → vol.bytes_per_sector ≡ 512
      → Reads sectors disk s
      → Chained base (disk.content s) first size
      → OpenAt sectors disk s h base first size p vol
      → position < size
      → size < 2 ^ 32
      → byte_count < fuel
      → byte_count < 5119000
      → (vol' vol'' : Volume) × (seek sectors s vol (handle h) position ≡ (success, vol'))
        × (read sectors s fuel vol' (handle h) byte_count
            ≡ some (
              file_bytes base (disk.content s) first position (available size position byte_count),
              vol'',
            ))
  seek-read h p position size first fuel byte_count base vol real bytes reads linked o inside small
        enough few =
      let (vol', sought, o') =
        seek_lem h p position size first base vol real bytes reads linked o inside in
      let (vol'', got, moved, further) =
        read_lem sectors disk s h fuel byte_count position size first base vol' real reads linked o'
          inside small enough few in
      (vol', vol'', sought, got)

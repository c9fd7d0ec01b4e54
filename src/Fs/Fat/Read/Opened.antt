-- ===== src/Fs/Fat/Read/Opened.antt =====
-- kernel/fs/fat/fat.c: FAT_Read on a file that FAT_OpenEntry opened.
use valecium.Prelude.{
  ℕ, zero, suc, ◌+◌, ◌-◌, ◌*◌, ◌/◌, ◌%◌, ◌^◌, ◌≤◌, ◌<◌, ◌≡◌, refl, sym, ap, ◌∙◌, true, false, not,
  ◌&&◌, ◌||◌, arith, ◌==◌, if◌then◌else◌, inl, inr, Bool-cases, Option, none, some, ltb, leb, u32,
  update, List, [],
}
use valecium.Fs.Fat.{Sectors, Instance, cluster_to_lba}
use valecium.Fs.Fat.Disk.{Lawful}
use valecium.Fs.Fat.Mirror.{Mirrors}
use valecium.Fs.Fat.Files.{
  FileData, Volume, Handle, handle, DirectoryEntry, max_file_handles, set_file, find_handle,
  max_clusters, file_from_entry, set_parent, open_first, open_handle, open_entry,
}
use valecium.Fs.Fat.Read.{read_limit, read_loop, read}
use valecium.Fs.Fat.Read.Chain.{chain, sector_at, file_bytes, Chained, cached}
use valecium.Fs.Fat.Read.Content.{Reads, marker_small, lba_lem}
use valecium.Fs.Fat.Read.Position.{At}
use valecium.Fs.Fat.Read.Loop.{loop_lem}
use native.Mathlib.Nat.{zero-div, zero-mod}

-- How many bytes a read gives, of a file of some size at a position.
abbrev pub available : ℕ → ℕ → ℕ → ℕ
available size p byte_count = if ltb (size - p) byte_count then size - p else byte_count

module _ {S : Type 0} (sectors : Sectors S) (disk : Lawful sectors) (s : S) (h : ℕ) where
  -- The file of the handle is at a position, the cache mirrors the table, and the geometry of the
  -- volume is that of `base`.
  pub record OpenAt (base : Instance) (first size p : ℕ) (vol : Volume) : Type 0 where
    pub cache : ℕ → ℕ
    pub cache_pos : ℕ
    pub same : vol.inst ≡ cached base cache cache_pos
    pub mirrors : Mirrors sectors disk (cached base cache cache_pos) s
    pub begins : (vol.opened_files h).first_cluster ≡ first
    pub at : At base (disk.content s) size p (vol.opened_files h)

  limit_lem :
      (vol : Volume) (size p byte_count : ℕ)
      → (vol.opened_files h).size ≡ size
      → (vol.opened_files h).position ≡ p
      → p < size
      → read_limit vol (handle h) byte_count ≡ some (available size p byte_count)
  unfolding read_limit
  limit_lem vol size p byte_count e e' inside =
      let full : (size == 0) ≡ false = ground arith in
      let some_size : ltb 0 size ≡ true = ground arith in
      let before_end : leb size p ≡ false = ground arith in
      rw (read_limit, e, e', full, some_size, before_end) refl

  pub update_here : (f : ℕ → FileData) (fd : FileData) → update f h fd h ≡ fd
  update_here f fd = let here : (h == h) ≡ true = ground arith in rw here refl

  read_result :
      (fuel byte_count n : ℕ) (vol : Volume) (inst : Instance) (bytes : List ℕ)
      (st : Instance × FileData)
      → ltb h max_file_handles ≡ true
      → read_limit vol (handle h) byte_count ≡ some n
      → vol.inst ≡ inst
      → read_loop sectors s fuel vol (handle h) n 0 [] (inst, vol.opened_files h) ≡ some (bytes, st)
      → read sectors s fuel vol (handle h) byte_count
        ≡ some (bytes, record (set_file vol (handle h) (st.1)) { inst = st.0 })
  unfolding read
  read_result fuel byte_count n vol inst bytes st valid limit same loop =
      let loop' =
        ap
          (λ (i : Instance). read_loop sectors s fuel vol (handle h) n 0 [] (i, vol.opened_files h))
          same
        ∙ loop in
      rw (read, valid, limit, loop') refl

  -- FAT_Read of an open file at a position inside of it, where the chain of clusters is long enough
  -- for the file's size and each cluster of it has its entry inside the tables and, in a 12-bit
  -- table, not cut by the end of a sector, from a disk that does not fail, gives the bytes that lie
  -- there along the chain, as many as are wanted or are left; the file is behind them then, and if
  -- it is not at its end, it can be read on. The fuel is greater than the number of bytes wanted,
  -- which are less than 5 119 000.
  pub read_lem :
      (fuel byte_count p size first : ℕ) (base : Instance) (vol : Volume)
      → h < 10
      → Reads sectors disk s
      → Chained base (disk.content s) first size
      → OpenAt base first size p vol
      → p < size
      → size < 2 ^ 32
      → byte_count < fuel
      → byte_count < 5119000
      → (vol' : Volume) × (read sectors s fuel vol (handle h) byte_count
          ≡ some (file_bytes base (disk.content s) first p (available size p byte_count), vol'))
        × ((vol'.opened_files h).position ≡ p + available size p byte_count)
        × (p + available size p byte_count < size
            → OpenAt base first size (p + available size p byte_count) vol')
  read_lem fuel byte_count p size first base vol real reads linked o inside small enough few =
      let fd = vol.opened_files h in
      let n = available size p byte_count in
      let valid : ltb h max_file_handles ≡ true = ground arith in
      let limit = limit_lem vol size p byte_count o.at.extent o.at.place inside in
      let linked' : Chained base (disk.content s) fd.first_cluster size = rw (o.begins) linked in
      let r =
        loop_lem sectors disk s vol h fuel n 0 p size [] base o.cache o.cache_pos fd reads linked'
          o.mirrors o.at (ground arith) small (ground arith) (ground arith) in
      let st = r.state in
      let vol' : Volume = record (set_file vol (handle h) (st.1)) { inst = st.0 } in
      let here = update_here vol.opened_files st.1 in
      (
        vol',
        read_result fuel byte_count n vol _ _ st valid limit o.same
            (r.bytes ∙ ap (λ (f : ℕ). some (file_bytes base (disk.content s) f p n, st)) o.begins),
        ap (λ (g : FileData). g.position) here ∙ r.moved,
        λ more.
            let (c', pos', e, m', f', at') = r.further more in
            record {
              cache = c';
              cache_pos = pos';
              same = e;
              mirrors = m';
              begins = ap (λ (g : FileData). g.first_cluster) here ∙ f' ∙ o.begins;
              at = rw here at';
            },
      )

  pub first_sector :
      (inst : Instance) (content : ℕ → ℕ) (first size : ℕ)
      → Chained inst content first size
      → 0 < size
      → (chain inst content first (0 / 512 / inst.sectors_per_cluster) ≡ first)
        × (0 / 512 % inst.sectors_per_cluster ≡ 0)
        × (cluster_to_lba inst first ≡ sector_at inst content first (0 / 512))
        × (2 ≤ first)
  unfolding chain cluster_to_lba
  first_sector inst content first size linked some_size =
      let spc = inst.sectors_per_cluster in
      let index : 0 / spc ≡ 0 = zero-div spc in
      let offset : 0 % spc ≡ 0 = zero-mod spc in
      let begin : chain inst content first (0 / spc) ≡ first = rw index refl in
      let (low, high) = rw begin at (linked.linked 0 some_size) in
      let placed = rw (begin, offset) at (linked.placed 0 some_size) in
      let number = lba_lem inst first 0 low (omega (arith, marker_small inst.fat_type)) placed in
      (begin, offset, rw (begin, offset) (omega (arith, number)), low)

  open_first_lem :
      (inst : Instance) (fd : FileData) (size : ℕ)
      → Reads sectors disk s
      → Chained inst (disk.content s) fd.first_cluster size
      → fd.size ≡ size
      → fd.position ≡ 0
      → 0 < size
      → (fd' : FileData) × (open_first sectors inst fd s ≡ (true, fd'))
        × (fd'.first_cluster ≡ fd.first_cluster)
        × At inst (disk.content s) size 0 fd'
  unfolding open_first
  open_first_lem inst fd size reads linked e e' some_size =
      let (begin, offset, number, low) =
        first_sector inst (disk.content s) fd.first_cluster size linked some_size in
      let (b, read) = reads (cluster_to_lba inst fd.first_cluster) 1 in
      let used : (fd.first_cluster == 0) ≡ false = ground arith in
      let real : ltb fd.first_cluster 2 ≡ false = ground arith in
      (
        record fd {
          current_cluster = fd.first_cluster;
          current_sector_in_cluster = 0;
          buffer = b;
          opened = true;
        },
        rw (open_first, used, real, read) refl,
        refl,
        record {
          extent = e;
          place = e';
          cluster = sym begin;
          sector = sym offset;
          shown = λ i lt.
              disk.shown (cluster_to_lba inst fd.first_cluster) 1 s b read i (omega arith)
              ∙ ap (λ (n : ℕ). disk.content s (n * 512 + i)) number;
        },
      )

  set_parent_lem :
      (vol : Volume) (parent : Option Handle) (fd : FileData)
      → ((set_parent vol parent fd).first_cluster ≡ fd.first_cluster)
        × ((set_parent vol parent fd).size ≡ fd.size)
        × ((set_parent vol parent fd).position ≡ fd.position)
  unfolding set_parent
  set_parent_lem vol none fd = (refl, refl, refl)
  set_parent_lem vol (some p) fd = (refl, refl, refl)

  open_handle_result :
      (vol : Volume) (entry : DirectoryEntry) (parent : Option Handle) (fd' : FileData) (first : ℕ)
      → (file_from_entry vol entry parent (vol.opened_files h)).first_cluster ≡ first
      → 2 ≤ first
      → first < u32 (max_clusters vol.inst + 2)
      → open_first sectors vol.inst
          (set_parent vol parent (file_from_entry vol entry parent (vol.opened_files h)))
          s
        ≡ (true, fd')
      → open_handle sectors vol entry parent h s ≡ (some (handle h), set_file vol (handle h) fd')
  unfolding open_handle
  open_handle_result vol entry parent fd' first e low high opened =
      let fd = file_from_entry vol entry parent (vol.opened_files h) in
      let real : ltb fd.first_cluster 2 ≡ false = ground arith in
      let bounded : leb (u32 (max_clusters vol.inst + 2)) fd.first_cluster ≡ false = ground arith in
      let accepted : (not (fd.first_cluster == 0)
            && ltb 0 fd.size
            && (ltb fd.first_cluster 2 || leb (u32 (max_clusters vol.inst + 2)) fd.first_cluster))
          ≡ false =
        ground arith in
      rw (open_handle, accepted, opened) refl

  -- A file that is opened is at its beginning.
  opened_lem :
      (vol : Volume) (entry : DirectoryEntry) (parent : Option Handle) (first : ℕ)
      → Reads sectors disk s
      → u32 (entry.first_cluster_low + u32 (entry.first_cluster_high * 2 ^ 16)) ≡ first
      → Chained vol.inst (disk.content s) first entry.size
      → Mirrors sectors disk vol.inst s
      → 0 < entry.size
      → first < u32 (max_clusters vol.inst + 2)
      → (vol' : Volume) × (open_handle sectors vol entry parent h s ≡ (some (handle h), vol'))
        × OpenAt vol.inst first entry.size 0 vol'
  unfolding open_handle file_from_entry
  opened_lem vol entry parent first reads e linked m some_size inside =
      let fd = file_from_entry vol entry parent (vol.opened_files h) in
      let (e0, e1, e2) = set_parent_lem vol parent fd in
      let begin = e0 ∙ e in
      let linked' : Chained vol.inst (disk.content s) (set_parent vol parent fd).first_cluster
          entry.size =
        rw begin linked in
      let (fd', opened, same, at) =
        open_first_lem vol.inst (set_parent vol parent fd) entry.size reads linked' e1 e2
          some_size in
      let low = (first_sector vol.inst (disk.content s) first entry.size linked some_size).3 in
      let here = update_here vol.opened_files fd' in
      (
        set_file vol (handle h) fd',
        open_handle_result vol entry parent fd' first e low inside opened,
        record {
          cache = vol.inst.fat_cache;
          cache_pos = vol.inst.fat_cache_pos;
          same = refl;
          mirrors = m;
          begins = ap (λ (g : FileData). g.first_cluster) here ∙ same ∙ begin;
          at = rw here at;
        },
      )

find_handle_below : (n i h : ℕ) (files : ℕ → FileData) → find_handle n i files ≡ some h → h < i + n
unfolding find_handle
find_handle_below zero i h files e = cc
find_handle_below (suc n) i h files e = elim (Bool-cases (files i).opened) [
  | inl busy ↦ omega (arith, find_handle_below n (i + 1) h files (rw busy at e))
  | inr free ↦
      let here : i ≡ h = ap (λ (o : Option ℕ). elim o [ none ↦ 0 | some x ↦ x ]) (rw free at e) in
      omega arith
]

-- FAT_OpenEntry of an entry of a file that is not empty, then FAT_Read, where the chain of clusters
-- is long enough for the file's size and each cluster of it has its entry inside the tables and, in a
-- 12-bit table, not cut by the end of a sector: if a handle is free, the cache mirrors the table and
-- the disk does not fail, the file is opened with the first free handle, and the read gives the first
-- bytes that lie along the chain, as many as are wanted or as there are. The fuel is greater than the
-- number of bytes wanted, which are less than 5 119 000.
pub open_entry-read :
    {S : Type 0}
    → (sectors : Sectors S) (disk : Lawful sectors) (s : S) (h : ℕ) (vol : Volume)
      (entry : DirectoryEntry) (parent : Option Handle) (first fuel byte_count : ℕ)
    → find_handle max_file_handles 0 vol.opened_files ≡ some h
    → Reads sectors disk s
    → u32 (entry.first_cluster_low + u32 (entry.first_cluster_high * 2 ^ 16)) ≡ first
    → Chained vol.inst (disk.content s) first entry.size
    → Mirrors sectors disk vol.inst s
    → first < u32 (max_clusters vol.inst + 2)
    → 0 < entry.size
    → entry.size < 2 ^ 32
    → byte_count < fuel
    → byte_count < 5119000
    → (vol' vol'' : Volume) × (open_entry sectors vol entry parent s ≡ (some (handle h), vol'))
      × (read sectors s fuel vol' (handle h) byte_count
          ≡ some (
            file_bytes vol.inst (disk.content s) first 0 (available entry.size 0 byte_count),
            vol'',
          ))
unfolding open_entry
open_entry-read sectors disk s h vol entry parent first fuel byte_count free reads e linked m inside
      some_size small enough few =
    let real = find_handle_below max_file_handles 0 h vol.opened_files free in
    let (vol', opened, o) =
      opened_lem sectors disk s h vol entry parent first reads e linked m some_size inside in
    let (vol'', bytes, moved, further) =
      read_lem sectors disk s h fuel byte_count 0 entry.size first vol.inst vol' real reads linked o
        some_size small enough few in
    (vol', vol'', rw (open_entry, free) opened, bytes)

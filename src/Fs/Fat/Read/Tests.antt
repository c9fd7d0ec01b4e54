-- ===== src/Fs/Fat/Read/Tests.antt =====
-- kernel/fs/fat/fat.c: reading, concrete runs, and the theorems at concrete inputs.
use valecium.Prelude.{
  ℕ, zero, suc, ◌+◌, ◌-◌, ◌*◌, ◌/◌, ◌%◌, ◌^◌, ◌≤◌, ◌<◌, ◌≡◌, refl, sym, ap, true, false, ◌&&◌, ◌||◌,
  arith, ◌==◌, if◌then◌else◌, inl, inr, Option, none, some, ltb, leb, u32, [],
}
use valecium.Fs.Fat.{
  Sectors, Instance, entry_offset, get_entry, cluster_to_lba, load_cache, next_cluster, read_fat,
}
use valecium.Fs.Fat.Disk.{Lawful}
use valecium.Fs.Fat.Copies.{HasEntry}
use valecium.Fs.Fat.Files.{
  FileData, Volume, root, handle, DirectoryEntry, max_file_handles, find_handle, max_clusters,
  open_entry, close, invalidate_cache, close_all,
}
use valecium.Fs.Fat.Read.{eof_marker, read, load_current, load_sector, next_in_chain, next_sector}
use valecium.Fs.Fat.Read.Chain.{chain, file_bytes, Chained}
use valecium.Fs.Fat.Files.{success}
use valecium.Fs.Fat.Seek.{seek}
use valecium.Fs.Fat.Seek.Place.{seek-read}
use valecium.Fs.Fat.Read.Opened.{OpenAt, read_lem, open_entry-read}

-- A disk that never fails.
abbrev sectors : Sectors (ℕ → ℕ)
sectors = record {
  read = λ lba n s. some (λ i. s (lba * 512 + i));
  write = λ lba b s.
      (true, λ j. if leb (lba * 512) j && ltb j (lba * 512 + 512) then b (j - lba * 512) else s j);
}

abbrev disk : Lawful sectors
disk = record {
  content = λ s. s;
  shown = λ lba n s b same i lt.
      ap (λ (o : Option (ℕ → ℕ)). elim o [ none ↦ 0 | some f ↦ f i ]) (sym same);
  written = λ lba b s fine j. refl;
}

-- In the table, which is sector 1, cluster 3 follows cluster 2 and is the last; each byte of data is
-- the number of its sector.
abbrev two_clusters : ℕ → ℕ
two_clusters j =
    if j == 516 then 3 else if j == 518 || j == 519 then 255 else if ltb j 1024 then 0 else j / 512

abbrev volume16 : Instance
volume16 = record {
  reserved_sectors = 1;
  fat_count = 1;
  sectors_per_cluster = 1;
  bpb_sectors_per_fat = 1;
  fat_cache = λ i. 0;
  fat_cache_pos = 0xffffffff;
  data_section_lba = 7;
  fat_type = 16;
  total_sectors = 5000;
  sectors_per_fat = 1;
}

abbrev closed : FileData
closed = record {
  buffer = λ i. 0;
  is_directory = false;
  position = 0;
  size = 0;
  name = [];
  opened = false;
  truncated = false;
  first_cluster = 0;
  current_cluster = 0;
  current_sector_in_cluster = 0;
  parent_cluster = 0;
  parent_is_root = false;
}

abbrev vol : Volume
vol = record {
  inst = volume16;
  root_directory = closed;
  opened_files = λ i. closed;
  bytes_per_sector = 512;
  root_dir_lba = 3;
  root_dir_sectors = 4;
}

abbrev entry : DirectoryEntry
entry = record {
  name = [];
  attributes = 0x20;
  first_cluster_high = 0;
  first_cluster_low = 2;
  size = 514;
}

has_entry : (q : ℕ) → q * 512 < 514 → HasEntry volume16 (chain volume16 two_clusters 2 (q / 1))
unfolding chain get_entry entry_offset
has_entry zero lt = record {
  kind = inr (inl refl);
  cluster_small = omega arith;
  inside = omega arith;
  tables = λ k lt. omega arith;
  some_copy = omega arith;
}
has_entry (suc zero) lt = record {
  kind = inr (inl refl);
  cluster_small = omega arith;
  inside = omega arith;
  tables = λ k lt. omega arith;
  some_copy = omega arith;
}
has_entry (suc (suc q)) lt = absurd (omega arith)

linked_at :
    (q : ℕ)
    → q * 512 < 514
    → (2 ≤ chain volume16 two_clusters 2 (q / 1))
      × (chain volume16 two_clusters 2 (q / 1) < eof_marker 16)
unfolding chain get_entry entry_offset eof_marker
linked_at zero lt = (omega arith, omega arith)
linked_at (suc zero) lt = (omega arith, omega arith)
linked_at (suc (suc q)) lt = absurd (omega arith)

placed_at :
    (q : ℕ) → q * 512 < 514 → 7 + (chain volume16 two_clusters 2 (q / 1) - 2) * 1 + q % 1 < 2 ^ 32
unfolding chain get_entry entry_offset
placed_at zero lt = omega arith
placed_at (suc zero) lt = omega arith
placed_at (suc (suc q)) lt = absurd (omega arith)

linked : Chained volume16 two_clusters 2 514
linked = record {
  positive = omega arith;
  small = omega arith;
  entries = has_entry;
  whole = λ q lt. refl;
  linked = linked_at;
  placed = placed_at;
}

-- 514 bytes of 600 wanted: 512 of the first cluster, 2 of the second.
open_entry-read_example :
    (vol' vol'' : Volume) × (open_entry sectors vol entry (some root) two_clusters
      ≡ (some (handle 0), vol'))
    × (read sectors two_clusters 700 vol' (handle 0) 600
        ≡ some (file_bytes volume16 two_clusters 2 0 514, vol''))
open_entry-read_example =
    open_entry-read sectors disk two_clusters 0 vol entry (some root) 2 700 600 free
      (λ lba n. (λ i. two_clusters (lba * 512 + i), refl)) refl linked (inl refl) first_small
      (omega arith) (omega arith) (omega arith) (omega arith)
  where
    free : find_handle max_file_handles 0 (λ i. closed) ≡ some 0
    free = unfold find_handle in refl

    first_small : 2 < u32 (max_clusters volume16 + 2)
    first_small = unfold max_clusters in omega arith

-- The file behind its first byte.
abbrev behind_one : Volume
behind_one = record vol {
  opened_files = λ i. record closed {
    buffer = λ j. two_clusters (7 * 512 + j);
    position = 1;
    size = 514;
    opened = true;
    first_cluster = 2;
    current_cluster = 2;
  };
}

behind_one-OpenAt : OpenAt sectors disk two_clusters 0 volume16 2 514 1 behind_one
unfolding chain
behind_one-OpenAt = record {
  cache = λ i. 0;
  cache_pos = 0xffffffff;
  same = refl;
  mirrors = inl refl;
  begins = refl;
  at = record { extent = refl; place = refl; cluster = refl; sector = refl; shown = λ i lt. refl };
}

read_lem_example :
    (vol' : Volume) × (read sectors two_clusters 4 behind_one (handle 0) 3
      ≡ some (file_bytes volume16 two_clusters 2 1 3, vol'))
    × ((vol'.opened_files 0).position ≡ 4)
    × (4 < 514 → OpenAt sectors disk two_clusters 0 volume16 2 514 4 vol')
read_lem_example =
    read_lem sectors disk two_clusters 0 4 3 1 514 2 volume16 behind_one (omega arith)
      (λ lba n. (λ i. two_clusters (lba * 512 + i), refl)) linked behind_one-OpenAt (omega arith)
      (omega arith) (omega arith) (omega arith)

-- The clusters of a FAT32 root directory: the end of its chain, 0x0fffffff, is not taken for one,
-- and a sector far behind is read.
abbrev root32 : FileData
root32 = record closed {
  is_directory = true;
  first_cluster = 2;
  current_cluster = 2;
  position = 512;
}

abbrev volume32 : Instance
volume32 = record volume16 { fat_type = 32 }

root_end_missed :
    let (goes_on, st) =
      next_sector sectors (λ j. if ltb j 1024 then 255 else 0) vol root volume32 root32 in
    (goes_on ≡ true) × (st.1.current_cluster ≡ 0xfffffff)
unfolding next_sector next_in_chain next_cluster load_cache read_fat entry_offset get_entry
    load_current load_sector cluster_to_lba
root_end_missed = (refl, refl)

closing :
    let after = invalidate_cache (close behind_one (handle 3)) in
    ((after.opened_files 0).opened ≡ false) × (after.inst.fat_cache_pos ≡ 0xffffffff)
unfolding close invalidate_cache close_all
closing = (refl, refl)

seek-read_example :
    (vol' vol'' : Volume) × (seek sectors two_clusters behind_one (handle 0) 512 ≡ (success, vol'))
    × (read sectors two_clusters 10 vol' (handle 0) 9
        ≡ some (file_bytes volume16 two_clusters 2 512 2, vol''))
seek-read_example =
    seek-read sectors disk two_clusters 0 1 512 514 2 10 9 volume16 behind_one (omega arith) refl
      (λ lba n. (λ i. two_clusters (lba * 512 + i), refl)) linked behind_one-OpenAt (omega arith)
      (omega arith) (omega arith) (omega arith)

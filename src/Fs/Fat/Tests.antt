-- ===== src/Fs/Fat/Tests.antt =====
-- Runs of `Fs.Fat`, and the theorems about it at concrete inputs.
use valecium.Prelude.{
  ℕ, ◌+◌, ◌-◌, ◌*◌, ◌≡◌, refl, sym, ap, true, ◌&&◌, arith, if◌then◌else◌, inl, inr, Option, none,
  some, ltb, leb,
}
use valecium.Fs.Fat.{
  Sectors, Instance, detect, cluster_to_lba, entry_offset, entry12, put_entry, get_entry,
  update_cache, read_fat, write_sectors, write_copy_at, write_copy, write_copies, write_fat_entry,
  load_cache, next_cluster,
}
use valecium.Fs.Fat.Codec.{normal}
use valecium.Fs.Fat.Disk.{Lawful}
use valecium.Fs.Fat.Copies.{HasEntry}
use valecium.Fs.Fat.Cache.{entry_address, write-next}
use valecium.Fs.Fat.Mirror.{Mirrors, next_cluster_lem, write-Mirrors}

-- A disk that never fails.
abbrev sectors : Sectors (ℕ → ℕ)
sectors = record {
  read = λ lba n s. some (λ i. s (lba * 512 + i));
  write = λ lba b s.
      (true, λ j. if leb (lba * 512) j && ltb j (lba * 512 + 512) then b (j - lba * 512) else s j);
}

abbrev disk : Lawful sectors
disk = record {
  content = λ s. s;
  shown = λ lba n s b same i lt.
      ap (λ (o : Option (ℕ → ℕ)). elim o [ none ↦ 0 | some f ↦ f i ]) (sym same);
  written = λ lba b s fine j. refl;
}

abbrev full : ℕ → ℕ
full j = 0xff

-- Two tables of 9 sectors behind one reserved sector, as on a floppy disk.
abbrev floppy : ℕ → Instance
floppy pos = record {
  reserved_sectors = 1;
  fat_count = 2;
  sectors_per_cluster = 1;
  bpb_sectors_per_fat = 9;
  fat_cache = λ i. 0xff;
  fat_cache_pos = pos;
  data_section_lba = 33;
  fat_type = 12;
  total_sectors = 2880;
  sectors_per_fat = 9;
}

geometry : ((detect (floppy 0)).fat_type ≡ 12) × (cluster_to_lba (floppy 0) 2 ≡ 33)
unfolding detect cluster_to_lba
geometry = (refl, refl)

-- The entry of cluster 341 crosses the end of a sector.
crossing_entry :
    (next_cluster sectors 341 (write_fat_entry sectors 341 0xabc full (floppy 0, full)).1).0 ≡ 0xabc
unfolding entry_offset entry12 put_entry get_entry update_cache read_fat write_sectors write_copy_at
    write_copy write_copies write_fat_entry load_cache next_cluster
crossing_entry = refl

-- The entry of cluster 1706 crosses the end of the cache: the table says that the chain ends, but
-- the code takes the lowest byte of the cache's position for the entry's second byte.
cut_entry :
    ((next_cluster sectors 1706 (floppy 0, full)).0 ≡ 0xff)
    × (get_entry 12 1706 full (entry_address (floppy 0) 1706) ≡ 0xffffffff)
unfolding entry_offset get_entry load_cache next_cluster
cut_entry = (refl, refl)

floppy-HasEntry : (pos : ℕ) → HasEntry (floppy pos) 341
unfolding entry_offset
floppy-HasEntry pos = record {
  kind = inl refl;
  cluster_small = omega arith;
  inside = omega arith;
  tables = λ k lt. omega arith;
  some_copy = omega arith;
}

mirrored : Mirrors sectors disk (floppy 0) full
mirrored = inr (omega arith, λ i lt within. refl)

write-next_example :
    (next_cluster sectors 341 (write_fat_entry sectors 341 0xff8 full (floppy 0, full)).1).0
    ≡ 0xfffffff8
unfolding normal write_fat_entry write_copies write_copy write_copy_at write_sectors entry_offset
write-next_example =
    write-next sectors disk (floppy 0) 341 0xff8 full full
      (λ i. (write_fat_entry sectors 341 0xff8 full (floppy 0, full)).1.1 (512 + i))
      (floppy-HasEntry 0) refl refl

next_cluster_lem_example :
    (next_cluster sectors 341 (floppy 0, full)).0
    ≡ get_entry 12 341 full (entry_address (floppy 0) 341)
unfolding entry_offset
next_cluster_lem_example =
    next_cluster_lem sectors disk (floppy 0) 341 full full (floppy-HasEntry 0) mirrored refl
      (λ cross. λ same. absurd (omega arith))

write-Mirrors_example :
    let after = (write_fat_entry sectors 341 0xabc full (floppy 0, full)).1 in
    Mirrors sectors disk after.0 after.1
unfolding write_fat_entry write_copies write_copy write_copy_at write_sectors entry_offset
write-Mirrors_example =
    write-Mirrors sectors disk (floppy 0) 341 0xabc full full (floppy-HasEntry 0) mirrored refl

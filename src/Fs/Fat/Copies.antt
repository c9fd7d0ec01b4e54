-- ===== src/Fs/Fat/Copies.antt =====
-- kernel/fs/fat/fat.c: `FAT_WriteFatEntry` sets the entry in the first copy of the table.
use valecium.Prelude.{
  ℕ, zero, suc, ◌+◌, ◌-◌, ◌*◌, ◌/◌, ◌%◌, ◌^◌, ◌≤◌, ◌<◌, ◌≡◌, refl, sym, ap, ◌∙◌, true, false, arith,
  inl, inr, ◌⊎◌, Bool-cases, Option-cases, some, ltb, u32,
}
use valecium.Fs.Fat.{
  Sectors, Instance, entry_offset, put_entry, joined, crosses, write_copy_at, write_copy,
  write_copies,
}
use valecium.Fs.Fat.Disk.{Lawful, sector_cases, write_sector_lem, write_crossing_lem}
use valecium.Fs.Fat.Codec.{width, put_inside, put_outside}

-- A cluster whose entry lies inside the tables, which lie in the first 2 TiB.
pub record HasEntry (inst : Instance) (cluster : ℕ) : Type 0 where
  pub kind : (inst.fat_type ≡ 12) ⊎ ((inst.fat_type ≡ 16) ⊎ (inst.fat_type ≡ 32))
  pub cluster_small : cluster * 4 < 2 ^ 32
  pub inside : entry_offset inst.fat_type cluster + width inst.fat_type ≤ inst.sectors_per_fat * 512
  pub tables :
      (k : ℕ)
      → k < inst.fat_count
      → inst.reserved_sectors + k * inst.sectors_per_fat + inst.sectors_per_fat < 2 ^ 32
  pub some_copy : 0 < inst.fat_count

-- An entry is not cut by the end of its sector, but for the 12-bit one that crosses it.
pub entry_fits :
    (inst : Instance) (cluster : ℕ)
    → HasEntry inst cluster
    → crosses inst.fat_type (entry_offset inst.fat_type cluster % 512) ≡ false
    → entry_offset inst.fat_type cluster % 512 + width inst.fat_type ≤ 512
unfolding entry_offset
entry_fits inst cluster h whole = ground (arith, h.kind)

-- An entry that is put into a copy of some bytes is put into these bytes.
pub put_moved :
    (fat_type cluster value n base off : ℕ) (b g : ℕ → ℕ)
    → off + width fat_type ≤ n
    → ((i : ℕ) → i < n → b i ≡ g (base + i))
    → (i : ℕ) → i < n
    → put_entry fat_type cluster value b off i
      ≡ put_entry fat_type cluster value g (base + off) (base + i)
put_moved fat_type cluster value n base off b g fits same i lt =
    elim (sector_cases off (width fat_type) i) [
      | inl (d, small, here) ↦
          let index : base + off + d ≡ base + i = omega arith in
          let bytes : (e : ℕ) → e < width fat_type → b (off + e) ≡ g (base + off + e) =
            λ e le. same (off + e) (omega arith) ∙ ap g (omega arith) in
          ap (put_entry fat_type cluster value b off) (sym here)
          ∙ put_inside fat_type cluster value b g off (base + off) d small bytes
          ∙ ap (put_entry fat_type cluster value g (base + off)) index
      | inr out ↦
          put_outside fat_type cluster value b off i out
          ∙ same i lt
          ∙ sym (put_outside fat_type cluster value g (base + off) (base + i) (ground arith))
    ]

crossing_fits : (fat_type off : ℕ) → crosses fat_type off ≡ true → off + width fat_type ≤ 1024
crossing_fits fat_type off cross = ground arith

entry_away :
    (base off size n i : ℕ)
    → off + size ≤ n
    → (i < base) ⊎ (base + n ≤ i)
    → (i < base + off) ⊎ (base + off + size ≤ i)
entry_away base off size n i fits away = ground arith

multiple : (k n : ℕ) → 0 < k → n ≤ k * n
multiple zero n pos = absurd (omega arith)
multiple (suc k) n pos = omega arith

joined-first : (first second : ℕ → ℕ) (i : ℕ) → i < 512 → joined first second i ≡ first i
joined-first first second i lt = ground arith

module _ {S : Type 0} (sectors : Sectors S) (disk : Lawful sectors) where
  joined-content :
      (lba : ℕ) (s : S) (first second : ℕ → ℕ)
      → sectors.read lba 1 s ≡ some first
      → sectors.read (lba + 1) 1 s ≡ some second
      → (i : ℕ) → i < 1024
      → joined first second i ≡ disk.content s (lba * 512 + i)
  joined-content lba s first second one two i lt = elim (Bool-cases (ltb i 512)) [
    | inl low_half ↦ rw low_half (disk.shown lba 1 s first one i (ground arith))
    | inr high_half ↦ rw high_half (
        disk.shown (lba + 1) 1 s second two (i - 512) (ground arith)
        ∙ ap (disk.content s) (ground arith))
  ]

  -- A sector, or two, that are written without an error have the entry; nothing else has changed.
  write_copy_at_lem :
      (inst : Instance) (cluster value : ℕ) (stack : ℕ → ℕ) (lba : ℕ) (s : S)
      → HasEntry inst cluster
      → lba + 1 < 2 ^ 32
      → (write_copy_at sectors inst cluster value stack lba s).0 ≡ true
      → (j : ℕ)
      → disk.content (write_copy_at sectors inst cluster value stack lba s).1 j
        ≡ put_entry inst.fat_type cluster value
            (disk.content s)
            (lba * 512 + entry_offset inst.fat_type cluster % 512)
            j
  unfolding write_copy_at
  write_copy_at_lem inst cluster value stack lba s h low_lba fine j =
      let t = inst.fat_type in
      let off = entry_offset t cluster % 512 in
      let f = put_entry t cluster value (disk.content s) (lba * 512 + off) in
      let next : u32 (lba + 1) ≡ lba + 1 = omega arith in
      elim (Option-cases (sectors.read lba 1 s)) [
        | inl failed ↦ absurd (let bad = rw (write_copy_at, failed) at fine in ground arith)
        | inr (first, one) ↦ elim (Bool-cases (crosses t off)) [
          | inl cross ↦ elim (Option-cases (sectors.read (lba + 1) 1 s)) [
            | inl failed ↦
                absurd
                  (let bad = rw (write_copy_at, one, cross, next, failed) at fine in ground arith)
            | inr (second, two) ↦
                let b = joined first second in
                let two_bytes : off + width t ≤ 1024 = crossing_fits t off cross in
                let new =
                  put_moved t cluster value 1024 (lba * 512) off b (disk.content s) two_bytes
                    (joined-content lba s first second one two) in
                let fine' = rw (write_copy_at, one, cross, next, two, cross) at fine in
                let out = λ (i : ℕ) (away : (i < lba * 512) ⊎ (lba * 512 + 1024 ≤ i)).
                  put_outside t cluster value (disk.content s) (lba * 512 + off) i
                    (entry_away (lba * 512) off (width t) 1024 i two_bytes away) in
                rw (write_copy_at, one, cross, next, two, cross)
                  (write_crossing_lem sectors disk lba (put_entry t cluster value b off) f s j
                    low_lba fine' new out)
          ]
          | inr whole ↦
              let b = joined first stack in
              let fits = entry_fits inst cluster h whole in
              let seen : (i : ℕ) → i < 512 → b i ≡ disk.content s (lba * 512 + i) = λ i lt.
                joined-first first stack i lt ∙ disk.shown lba 1 s first one i (omega arith) in
              let new =
                put_moved t cluster value 512 (lba * 512) off b (disk.content s) fits seen in
              let fine' = rw (write_copy_at, one, whole, whole) at fine in
              let out = λ (i : ℕ) (away : (i < lba * 512) ⊎ (lba * 512 + 512 ≤ i)).
                put_outside t cluster value (disk.content s) (lba * 512 + off) i
                  (entry_away (lba * 512) off (width t) 512 i fits away) in
              rw (write_copy_at, one, whole, whole)
                (write_sector_lem sectors disk lba (put_entry t cluster value b off) f s j fine' new
                  out)
        ]
      ]

  -- A copy that is written without an error has the entry, and nothing else has changed.
  write_copy_lem :
      (inst : Instance) (cluster value : ℕ) (stack : ℕ → ℕ) (k : ℕ) (s : S)
      → HasEntry inst cluster
      → k < inst.fat_count
      → (write_copy sectors inst cluster value stack k s).0 ≡ true
      → (j : ℕ)
      → disk.content (write_copy sectors inst cluster value stack k s).1 j
        ≡ put_entry inst.fat_type cluster value
            (disk.content s)
            ((inst.reserved_sectors + k * inst.sectors_per_fat) * 512
              + entry_offset inst.fat_type cluster)
            j
  unfolding write_copy
  write_copy_lem inst cluster value stack k s h below fine j =
      let t = inst.fat_type in
      let offset = entry_offset t cluster in
      let lba = inst.reserved_sectors + k * inst.sectors_per_fat + offset / 512 in
      let table = h.tables k below in
      let inside = h.inside in
      let positive : 2 ≤ width t = ground arith in
      let sector : offset / 512 < inst.sectors_per_fat = omega arith in
      let small : u32 lba ≡ lba = omega arith in
      let place : lba * 512 + offset % 512
          ≡ (inst.reserved_sectors + k * inst.sectors_per_fat) * 512 + offset =
        omega arith in
      let fine' = rw (write_copy, small) at fine in
      rw (write_copy, small)
        (write_copy_at_lem inst cluster value stack lba s h (omega arith) fine' j
          ∙ ap (λ p. put_entry t cluster value (disk.content s) p j) place)

  -- The other copies lie behind the first.
  write_copies_behind :
      (inst : Instance) (cluster value : ℕ) (stack : ℕ → ℕ) (n k : ℕ) (s : S)
      → HasEntry inst cluster
      → 0 < k
      → k + n ≤ inst.fat_count
      → (write_copies sectors inst cluster value stack n k s).0 ≡ true
      → (j : ℕ) → j < (inst.reserved_sectors + inst.sectors_per_fat) * 512
      → disk.content (write_copies sectors inst cluster value stack n k s).1 j ≡ disk.content s j
  unfolding write_copies
  write_copies_behind inst cluster value stack zero k s h pos last fine j lt = refl
  write_copies_behind inst cluster value stack (suc n) k s h pos last fine j lt =
      let t = inst.fat_type in
      let s1 = (write_copy sectors inst cluster value stack k s).1 in
      elim (Bool-cases (write_copy sectors inst cluster value stack k s).0) [
        | inl wrote ↦
            let apart = multiple k inst.sectors_per_fat pos in
            let base = (inst.reserved_sectors + k * inst.sectors_per_fat) * 512 in
            let fine' = rw (write_copies, wrote) at fine in
            rw wrote (
              write_copies_behind inst cluster value stack n (k + 1) s1 h (omega arith)
                (omega arith) fine' j lt
              ∙ write_copy_lem inst cluster value stack k s h (omega arith) wrote j
              ∙ put_outside t cluster value (disk.content s) (base + entry_offset t cluster) j
                  (inl (omega arith)))
        | inr failed ↦ absurd (let bad = rw (write_copies, failed) at fine in ground arith)
      ]

  -- If all copies are written without an error, the first has the entry, and up to its end nothing
  -- else has changed.
  pub write_copies_lem :
      (inst : Instance) (cluster value : ℕ) (stack : ℕ → ℕ) (s : S)
      → HasEntry inst cluster
      → (write_copies sectors inst cluster value stack inst.fat_count 0 s).0 ≡ true
      → (j : ℕ) → j < (inst.reserved_sectors + inst.sectors_per_fat) * 512
      → disk.content (write_copies sectors inst cluster value stack inst.fat_count 0 s).1 j
        ≡ put_entry inst.fat_type cluster value
            (disk.content s)
            (inst.reserved_sectors * 512 + entry_offset inst.fat_type cluster)
            j
  unfolding write_copies
  write_copies_lem inst cluster value stack s h fine j lt = first_copy inst.fat_count refl fine
    where
      first_copy :
          (n : ℕ)
          → n ≡ inst.fat_count
          → (write_copies sectors inst cluster value stack n 0 s).0 ≡ true
          → disk.content (write_copies sectors inst cluster value stack n 0 s).1 j
            ≡ put_entry inst.fat_type cluster value
                (disk.content s)
                (inst.reserved_sectors * 512 + entry_offset inst.fat_type cluster)
                j
      first_copy zero count good = absurd (let some_copy = h.some_copy in omega arith)
      first_copy (suc n) count good =
          elim (Bool-cases (write_copy sectors inst cluster value stack 0 s).0) [
            | inl wrote ↦
                let good' = rw (write_copies, wrote) at good in
                let s1 = (write_copy sectors inst cluster value stack 0 s).1 in
                rw wrote (
                  write_copies_behind inst cluster value stack n 1 s1 h (omega arith) (omega arith)
                    good' j lt
                  ∙ write_copy_lem inst cluster value stack 0 s h (omega arith) wrote j
                  ∙ ap (λ p. put_entry inst.fat_type cluster value (disk.content s) p j)
                      (omega arith))
            | inr failed ↦ absurd (let bad = rw (write_copies, failed) at good in ground arith)
          ]

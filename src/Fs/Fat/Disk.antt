-- ===== src/Fs/Fat/Disk.antt =====
-- kernel/fs/fat/fat.c: what the disk below promises, and what the sectors that are written then hold.
use valecium.Prelude.{
  ℕ, ◌+◌, ◌-◌, ◌*◌, ◌^◌, ◌≤◌, ◌<◌, ◌≡◌, refl, sym, ap, ◌∙◌, true, false, ◌&&◌, arith, if◌then◌else◌,
  inl, inr, ◌⊎◌, Bool-cases, some, ltb, leb, u32,
}
use valecium.Fs.Fat.{Sectors, write_sectors}

-- What the documented behaviour of a disk is: `content` gives its bytes, a read shows them, and a
-- write that does not fail sets the bytes of one sector.
pub record Lawful {S : Type 0} (sectors : Sectors S) : Type 0 where
  pub content : S → ℕ → ℕ
  pub shown :
      (lba n : ℕ) (s : S) (b : ℕ → ℕ)
      → sectors.read lba n s ≡ some b
      → (i : ℕ) → i < n * 512
      → b i ≡ content s (lba * 512 + i)
  pub written :
      (lba : ℕ) (b : ℕ → ℕ) (s : S)
      → (sectors.write lba b s).0 ≡ true
      → (j : ℕ)
      → content (sectors.write lba b s).1 j
        ≡ (if leb (lba * 512) j && ltb j (lba * 512 + 512) then b (j - lba * 512) else content s j)

-- A byte inside a sector or outside of it.
pub sector_cases :
    (base size j : ℕ) → ((i : ℕ) × (i < size) × (base + i ≡ j)) ⊎ ((j < base) ⊎ (base + size ≤ j))
sector_cases base size j = elim (Bool-cases (leb base j && ltb j (base + size))) [
  | inl here ↦ inl (j - base, ground arith, ground arith)
  | inr away ↦ inr (ground arith)
]

module _ {S : Type 0} (sectors : Sectors S) (disk : Lawful sectors) where
  written_inside :
      (lba i : ℕ) (b : ℕ → ℕ) (s : S)
      → (sectors.write lba b s).0 ≡ true
      → i < 512
      → disk.content (sectors.write lba b s).1 (lba * 512 + i) ≡ b i
  written_inside lba i b s fine lt =
      let here : (leb (lba * 512) (lba * 512 + i) && ltb (lba * 512 + i) (lba * 512 + 512)) ≡ true =
        ground arith in
      let same : lba * 512 + i - lba * 512 ≡ i = omega arith in
      disk.written lba b s fine (lba * 512 + i) ∙ rw here (ap b same)

  written_outside :
      (lba j : ℕ) (b : ℕ → ℕ) (s : S)
      → (sectors.write lba b s).0 ≡ true
      → (j < lba * 512) ⊎ (lba * 512 + 512 ≤ j)
      → disk.content (sectors.write lba b s).1 j ≡ disk.content s j
  written_outside lba j b s fine out =
      let away : (leb (lba * 512) j && ltb j (lba * 512 + 512)) ≡ false = ground arith in
      disk.written lba b s fine j ∙ rw away refl

  -- Sectors that are written so that the disk then holds `f`.
  pub write_sector_lem :
      (lba : ℕ) (b f : ℕ → ℕ) (s : S) (j : ℕ)
      → (write_sectors sectors lba false b s).0 ≡ true
      → ((i : ℕ) → i < 512 → b i ≡ f (lba * 512 + i))
      → ((i : ℕ) → (i < lba * 512) ⊎ (lba * 512 + 512 ≤ i) → f i ≡ disk.content s i)
      → disk.content (write_sectors sectors lba false b s).1 j ≡ f j
  unfolding write_sectors
  write_sector_lem lba b f s j fine new old = elim (Bool-cases (sectors.write lba b s).0) [
    | inl wrote ↦ rw wrote (elim (sector_cases (lba * 512) 512 j) [
      | inl (i, lt, here) ↦
          ap (disk.content (sectors.write lba b s).1) (sym here)
          ∙ written_inside lba i b s wrote lt
          ∙ new i lt
          ∙ ap f here
      | inr out ↦ written_outside lba j b s wrote out ∙ sym (old j out)
    ])
    | inr failed ↦ absurd (ground arith)
  ]

  pub write_crossing_lem :
      (lba : ℕ) (b f : ℕ → ℕ) (s : S) (j : ℕ)
      → lba + 1 < 2 ^ 32
      → (write_sectors sectors lba true b s).0 ≡ true
      → ((i : ℕ) → i < 1024 → b i ≡ f (lba * 512 + i))
      → ((i : ℕ) → (i < lba * 512) ⊎ (lba * 512 + 1024 ≤ i) → f i ≡ disk.content s i)
      → disk.content (write_sectors sectors lba true b s).1 j ≡ f j
  unfolding write_sectors
  write_crossing_lem lba b f s j small fine new old = elim (Bool-cases (sectors.write lba b s).0) [
    | inl wrote ↦
        let next : u32 (lba + 1) ≡ lba + 1 = omega arith in
        let s1 = (sectors.write lba b s).1 in
        let second = λ (i : ℕ). b (512 + i) in
        let fine' : (sectors.write (lba + 1) second s1).0 ≡ true = rw (wrote, next) at fine in
        rw (wrote, next)
          (elim (sector_cases ((lba + 1) * 512) 512 j) [
            | inl (i, lt, here) ↦
                ap (disk.content (sectors.write (lba + 1) second s1).1) (sym here)
                ∙ written_inside (lba + 1) i second s1 fine' lt
                ∙ new (512 + i) (omega arith)
                ∙ ap f (omega arith)
            | inr away ↦
                written_outside (lba + 1) j second s1 fine' away
                ∙ elim (sector_cases (lba * 512) 512 j) [
                  | inl (i, lt, here) ↦
                      ap (disk.content s1) (sym here)
                      ∙ written_inside lba i b s wrote lt
                      ∙ new i (omega arith)
                      ∙ ap f here
                  | inr out ↦ written_outside lba j b s wrote out ∙ sym (old j (ground arith))
                ]
          ])
    | inr failed ↦ absurd (ground arith)
  ]

-- ===== src/Sys/Elf/Segments.antt =====
-- kernel/sys/elf.c: ELF_Load puts one segment into memory.
use valecium.Prelude.{
  ℕ, ◌+◌, ◌-◌, ◌^◌, ◌≤◌, ◌<◌, ◌≡◌, refl, ap, ◌∙◌, Bool, true, false, arith, ◌==◌, if◌then◌else◌,
  inl, inr, Bool-cases, Option, some, ltb, fun_ext,
}
use valecium.Mem.Memory.{Memory, within, memset}
use valecium.Mem.Memory.Move.{memset_lem}
use valecium.Sys.Elf.{File, Segment, load_file, load_segment}
use valecium.Sys.Elf.Bytes.{Sound, placed, zeroed}
use valecium.Sys.Elf.Data.{load_data_lem}

-- Where a segment goes, and memory with a segment in it: its data, then zeros.
abbrev pub destination : Segment → ℕ
destination seg = if seg.paddr == 0 then seg.vaddr else seg.paddr

abbrev pub segment_in : (ℕ → ℕ) → Segment → Memory → Memory
segment_in content seg m =
    let dest = destination seg in
    zeroed (placed content m dest seg.offset seg.filesz) (dest + seg.filesz)
      (seg.memsz - seg.filesz)

-- A segment whose data is in the file, and whose place is not at 0 and does not reach the end of the
-- address space.
pub record SegmentFits (size : ℕ) (seg : Segment) : Type 0 where
  pub inside : seg.offset + seg.filesz ≤ size
  pub room : destination seg + seg.filesz + seg.memsz < 2 ^ 32
  pub real : 0 < destination seg

bss_lem :
    (m : Memory) (dest filesz memsz : ℕ)
    → 0 < dest
    → dest + filesz + memsz < 2 ^ 32
    → (if ltb filesz memsz then memset (dest + filesz) 0 (memsz - filesz) m else m)
      ≡ zeroed m (dest + filesz) (memsz - filesz)
bss_lem m dest filesz memsz real room = elim (Bool-cases (ltb filesz memsz)) [
  | inl more ↦
      let cleared =
        λ (a : ℕ). memset_lem (dest + filesz) 0 (memsz - filesz) m a (omega arith) (omega arith) in
      rw more (fun_ext cleared)
  | inr no_more ↦ rw no_more (
      fun_ext (λ a.
        let away : within (dest + filesz) (memsz - filesz) a ≡ false = ground arith in
        rw away refl))
]

module _ {F : Type 0} (file : File F) (sound : Sound file) where
  load_file_lem :
      (fuel dest : ℕ) (seg : Segment) (m : Memory) (f : F)
      → seg.offset + seg.filesz ≤ sound.size
      → dest + seg.filesz < 2 ^ 32
      → seg.filesz < fuel
      → (f' : F) × (load_file file fuel seg dest m f
          ≡ some
              (some (dest + seg.filesz), (placed sound.content m dest seg.offset seg.filesz, f')))
  unfolding load_file
  load_file_lem fuel dest seg m f inside fits enough = elim (Bool-cases (seg.filesz == 0)) [
    | inl empty ↦
        let none_there : seg.filesz ≡ 0 = ground arith in
        let same : placed sound.content m dest seg.offset 0 ≡ m =
          fun_ext (λ a. let away : within dest 0 a ≡ false = ground arith in rw away refl) in
        let start : dest + 0 ≡ dest = omega arith in
        (f, rw (load_file, none_there, same, start) refl)
    | inr some_there ↦
        let (sought, there) = sound.sought seg.offset f (omega arith) in
        let (f', e) =
          load_data_lem file fuel seg.filesz dest seg.offset m (file.seek seg.offset f).1 sound
            there inside fits enough in
        (f', rw (load_file, some_there, sought) e)
  ]

  load_segment_result :
      (fuel : ℕ) (seg : Segment) (m m1 : Memory) (f f1 : F) (dest : ℕ)
      → load_file file fuel seg (destination seg) m f ≡ some (some dest, (m1, f1))
      → load_segment file fuel seg m f
        ≡ some (
          true,
          (if ltb seg.filesz seg.memsz then memset dest 0 (seg.memsz - seg.filesz) m1 else m1, f1),
        )
  unfolding load_segment
  load_segment_result fuel seg m m1 f f1 dest e = rw (load_segment, e) refl

  pub load_segment_lem :
      (fuel : ℕ) (seg : Segment) (m : Memory) (f : F)
      → SegmentFits sound.size seg
      → seg.filesz < fuel
      → (f' : F) × (load_segment file fuel seg m f
          ≡ some (true, (segment_in sound.content seg m, f')))
  load_segment_lem fuel seg m f fits enough =
      let room = fits.room in
      let real = fits.real in
      let (f', e) = load_file_lem fuel (destination seg) seg m f fits.inside (omega arith) enough in
      let bss =
        bss_lem (placed sound.content m (destination seg) seg.offset seg.filesz) (destination seg)
          seg.filesz seg.memsz real room in
      (
        f',
        load_segment_result fuel seg m _ f f' (destination seg + seg.filesz) e
            ∙ ap {B = Option (Bool × (Memory × F))} (λ (m1 : Memory). some (true, (m1, f'))) bss,
      )

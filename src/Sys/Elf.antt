-- ===== src/Sys/Elf.antt =====
-- kernel/sys/elf.c: ELF_Load and the first stack of a user process. The file, with the file system
-- and the heap below it, is a state that the interface `File` works on; what a read puts into memory
-- is the list of the bytes that it gives. The user's memory is a function of the address. A loop that
-- still runs when its fuel is used up gives `none`.
pub mod Bytes
pub mod Data
pub mod Segments
pub mod Layout
pub mod Load
pub mod Stack
pub mod Tests
use valecium.Prelude.{
  ℕ, zero, suc, ◌+◌, ◌-◌, ◌*◌, ◌/◌, ◌%◌, ◌^◌, ◌≤◌, ◌<◌, ◌≡◌, ◌≢◌, refl, sym, ap, ◌∙◌, Bool, true,
  false, not, ◌&&◌, ◌||◌, arith, ◌==◌, ==_iff, if◌then◌else◌, inl, inr, ◌⊎◌, Bool-cases,
  Option-cases, Option, none, some, ltb, leb, u8, u32, update, List, [], ◌∷◌, ◌++◌, fun_ext,
  has_bit, length, length-append, get_or, take, drop, replicate, map, bit_and, bit_or, passes,
  passes→true, length-map, length-replicate,
}
use valecium.Prelude.{sub32}
use valecium.Mem.Memory.{Memory, memset}

-- `VFS_Seek`, `VFS_Read`, `kmalloc` and `free`: whether a seek or an allocation succeeds, and the
-- bytes that are read, from where the file is, at most as many as are asked for.
pub record File (F : Type 0) : Type 0 where
  pub seek : ℕ → F → Bool × F
  pub read : ℕ → F → List ℕ × F
  pub allocate : ℕ → F → Bool × F
  pub free : F → F

-- The results: SUCCESS with the entry point, -EIO, -ENOENT.
pub data Loaded : Type 0 where
  entry_point : ℕ → Loaded
  eio enoent : Loaded

abbrev pub byte_at : List ℕ → ℕ → ℕ
byte_at bytes i = get_or bytes i 0

abbrev pub half_at : List ℕ → ℕ → ℕ
half_at bytes i = byte_at bytes i + 256 * byte_at bytes (i + 1)

abbrev pub word_at : List ℕ → ℕ → ℕ
word_at bytes i = half_at bytes i + 65536 * half_at bytes (i + 2)

-- `Elf32_Ehdr`, the fields that are read, and how they lie in its 52 bytes.
pub record Header : Type 0 where
  pub ident : List ℕ
  pub machine : ℕ
  pub entry : ℕ
  pub phoff : ℕ
  pub phentsize : ℕ
  pub phnum : ℕ

unfoldable pub header_of : List ℕ → Header
header_of bytes = record {
  ident = take 16 bytes;
  machine = half_at bytes 18;
  entry = word_at bytes 24;
  phoff = word_at bytes 28;
  phentsize = half_at bytes 42;
  phnum = half_at bytes 44;
}

-- `Elf32_Phdr`, the fields that are read, and how they lie in its 32 bytes.
pub record Segment : Type 0 where
  pub kind : ℕ
  pub offset : ℕ
  pub vaddr : ℕ
  pub paddr : ℕ
  pub filesz : ℕ
  pub memsz : ℕ

unfoldable pub segment_of : List ℕ → Segment
segment_of bytes = record {
  kind = word_at bytes 0;
  offset = word_at bytes 4;
  vaddr = word_at bytes 8;
  paddr = word_at bytes 12;
  filesz = word_at bytes 16;
  memsz = word_at bytes 20;
}

-- The checks of the header.
unfoldable pub is_loadable : Header → Bool
is_loadable h =
    byte_at h.ident 0 == 0x7f
    && byte_at h.ident 1 == 69
    && byte_at h.ident 2 == 76
    && byte_at h.ident 3 == 70
    && byte_at h.ident 4 == 1
    && byte_at h.ident 5 == 1
    && h.machine == 3
    && not (h.phnum == 0)
    && h.phentsize == 32

-- Bytes that are written from an address on.
unfoldable pub store : Memory → ℕ → List ℕ → Memory
store m dest [] = m
store m dest (c ∷ cs) = store (update m dest c) (dest + 1) cs

module _ {F : Type 0} (file : File F) where
  -- A read through a buffer of the heap; `none`: it failed.
  unfoldable pub read_exact : ℕ → F → Option (List ℕ) × F
  read_exact n f =
      let (fine, f1) = file.allocate n f in
      let (bytes, f2) = file.read n f1 in
      if not fine
      then (none, f1)
      else if length bytes == n
      then (some bytes, file.free f2)
      else (none, file.free f2)

  -- The data of a segment in chunks of 512 bytes; `some none`: a read gave nothing. The destination
  -- behind the data is returned.
  unfoldable pub load_data : ℕ → ℕ → ℕ → Memory → F → Option (Option ℕ × (Memory × F))
  load_data zero remaining dest m f = none
  load_data (suc fuel) remaining dest m f =
      let (bytes, f1) = file.read (if ltb 512 remaining then 512 else remaining) f in
      let got = length bytes in
      let rest = load_data fuel (sub32 remaining got) (u32 (dest + got)) (store m dest bytes) f1 in
      if remaining == 0
      then some (some dest, (m, f))
      else if got == 0
      then some (none, (m, f1))
      else rest

  -- The data of a segment, if there is any.
  unfoldable pub load_file : ℕ → Segment → ℕ → Memory → F → Option (Option ℕ × (Memory × F))
  load_file fuel seg dest m f =
      let (fine, f1) = file.seek seg.offset f in
      let data_loaded = load_data fuel seg.filesz dest m f1 in
      if seg.filesz == 0
      then some (some dest, (m, f))
      else if not fine
      then some (none, (m, f1))
      else data_loaded

  unfoldable pub load_segment : ℕ → Segment → Memory → F → Option (Bool × (Memory × F))
  load_segment fuel seg m f =
      elim (load_file fuel seg (if seg.paddr == 0 then seg.vaddr else seg.paddr) m f) [
        | none ↦ none
        | some (none, (m1, f1)) ↦ some (false, (m1, f1))
        | some (some dest, (m1, f1)) ↦ some (
          true,
          (if ltb seg.filesz seg.memsz then memset dest 0 (seg.memsz - seg.filesz) m1 else m1, f1),
        )
      ]

  unfoldable pub load_header : ℕ → Header → ℕ → Memory → F → Option (Bool × (Memory × F))
  load_header fuel h i m f =
      let (fine, f1) = file.seek (u32 (h.phoff + i * h.phentsize)) f in
      let (bytes, f2) = read_exact 32 f1 in
      if not fine then some (false, (m, f1)) else elim bytes [
        | none ↦ some (false, (m, f2))
        | some b ↦
            let seg = segment_of b in
            if seg.kind == 1 then load_segment fuel seg m f2 else some (true, (m, f2))
      ]

  -- The loop over the headers, with `n` left from the `i`th on.
  unfoldable pub load_headers : ℕ → Header → ℕ → ℕ → Memory → F → Option (Bool × (Memory × F))
  load_headers fuel h zero i m f = some (true, (m, f))
  load_headers fuel h (suc n) i m f = elim (load_header fuel h i m f) [
    | none ↦ none
    | some (false, st) ↦ some (false, st)
    | some (true, (m1, f1)) ↦ load_headers fuel h n (i + 1) m1 f1
  ]

  unfoldable pub load : ℕ → Memory → F → Option (Loaded × (Memory × F))
  load fuel m f =
      let (fine, f1) = file.seek 0 f in
      let (bytes, f2) = read_exact 52 f1 in
      if not fine then some (eio, (m, f1)) else elim bytes [
        | none ↦ some (eio, (m, f2))
        | some b ↦
            let h = header_of b in
            if not (is_loadable h)
            then some (enoent, (m, f2))
            else elim (load_headers fuel h h.phnum 0 m f2) [
              | none ↦ none
              | some (fine', st) ↦ some (if fine' then entry_point h.entry else eio, st)
            ]
      ]

-- ===== src/Sys/Elf/Load.antt =====
-- kernel/sys/elf.c: ELF_Load puts the segments of a file into memory.
use valecium.Prelude.{
  ℕ, suc, ◌+◌, ◌*◌, ◌^◌, ◌≤◌, ◌<◌, ◌≡◌, refl, ap, ◌∙◌, true, not, arith, ◌==◌, if◌then◌else◌, inl,
  inr, Bool-cases, none, some, u32, List, length, zero,
}
use valecium.Mem.Memory.{Memory}
use valecium.Sys.Elf.{
  File, entry_point, eio, enoent, Header, header_of, Segment, segment_of, is_loadable, read_exact,
  load_segment, load_header, load_headers, load,
}
use valecium.Sys.Elf.Bytes.{bytes_of, Sound, length-bytes_of}
use valecium.Sys.Elf.Segments.{segment_in, SegmentFits, load_segment_lem}
use valecium.Sys.Elf.Layout.{
  half, word, is_program, place_of, segment_at, segment_of-bytes, Reads, header_at-Reads,
  is_loadable-is_program,
}

module _ {F : Type 0} (file : File F) (sound : Sound file) where
  read_exact_lem :
      (n p : ℕ) (f : F)
      → sound.position f ≡ p
      → p + n ≤ sound.size
      → (read_exact file n f).0 ≡ some (bytes_of sound.content p n)
  unfolding read_exact
  read_exact_lem n p f at inside =
      let (fine, same) = sound.allocated n f in
      let f1 = (file.allocate n f).1 in
      let (bytes, there) = sound.given n f1 (omega (arith, at, same)) in
      let bytes' : (file.read n f1).0 ≡ bytes_of sound.content p n =
        bytes ∙ ap (λ (x : ℕ). bytes_of sound.content x n) (same ∙ at) in
      let whole : (length (bytes_of sound.content p n) == n) ≡ true =
        ground (arith, length-bytes_of sound.content p n) in
      rw (read_exact, fine, bytes', whole) refl

-- Memory after the headers from the `i`th on, with `n` left: the segments of kind 1 in their order.
unfoldable pub segments_in : (ℕ → ℕ) → ℕ → ℕ → Memory → Memory
segments_in content zero i m = m
segments_in content (suc n) i m =
    let seg = segment_at content i in
    segments_in content n (i + 1) (if seg.kind == 1 then segment_in content seg m else m)

-- The headers are in the file, and the segments of kind 1 fit.
pub record HeadersFit (content : ℕ → ℕ) (size fuel : ℕ) : Type 0 where
  pub small : size < 2 ^ 32
  pub inside : (i : ℕ) → i < half content 44 → place_of content i + 32 ≤ size
  pub fits :
      (i : ℕ)
      → i < half content 44
      → (segment_at content i).kind ≡ 1
      → SegmentFits size (segment_at content i)
  pub enough :
      (i : ℕ)
      → i < half content 44
      → (segment_at content i).kind ≡ 1
      → (segment_at content i).filesz < fuel

module _ {F : Type 0} (file : File F) (sound : Sound file) where
  load_header_result :
      (fuel : ℕ) (h : Header) (i : ℕ) (m : Memory) (f : F) (b : List ℕ) (seg : Segment)
      → let place = u32 (h.phoff + i * h.phentsize) in
        (file.seek place f).0 ≡ true
        → (read_exact file 32 (file.seek place f).1).0 ≡ some b
        → segment_of b ≡ seg
        → load_header file fuel h i m f ≡ (
            let f' = (read_exact file 32 (file.seek place f).1).1 in
            if seg.kind == 1 then load_segment file fuel seg m f' else some (true, (m, f')))
  unfolding load_header
  load_header_result fuel h i m f b seg fine e same = rw (load_header, fine, e, same) refl

  load_header_lem :
      (fuel : ℕ) (h : Header) (i : ℕ) (m : Memory) (f : F)
      → HeadersFit sound.content sound.size fuel
      → Reads sound.content h
      → i < h.phnum
      → (f' : F) × (load_header file fuel h i m f
          ≡ some (
            true,
            (
              if (segment_at sound.content i).kind == 1
                  then segment_in sound.content (segment_at sound.content i) m
                  else m,
              f',
            ),
          ))
  load_header_lem fuel h i m f fit reads below =
      let lt : i < half sound.content 44 = omega (arith, below, reads.phnum) in
      let place = h.phoff + i * h.phentsize in
      let here : place ≡ place_of sound.content i =
        ap (λ k. k + i * h.phentsize) reads.phoff
        ∙ ap (λ k. word sound.content 28 + i * k) reads.phentsize in
      let seg = segment_at sound.content i in
      let inside : place + 32 ≤ sound.size = omega (arith, here, fit.inside i lt) in
      let small = fit.small in
      let near : u32 place ≡ place = omega arith in
      let (fine, there) = sound.sought (u32 place) f (omega arith) in
      let header =
        read_exact_lem file sound 32 place (file.seek (u32 place) f).1 (there ∙ near) inside in
      let read_seg : segment_of (bytes_of sound.content place 32) ≡ seg =
        ap (λ p. segment_of (bytes_of sound.content p 32)) here
        ∙ segment_of-bytes sound.content i in
      let result =
        load_header_result fuel h i m f (bytes_of sound.content place 32) seg fine header
          read_seg in
      let f1 = (read_exact file 32 (file.seek (u32 place) f).1).1 in
      elim (Bool-cases (seg.kind == 1)) [
        | inl load_it ↦
            let kind : seg.kind ≡ 1 = ground arith in
            let (f', e) =
              load_segment_lem file sound fuel seg m f1 (fit.fits i lt kind)
                (fit.enough i lt kind) in
            (f', result ∙ rw load_it e)
        | inr other ↦ (f1, result ∙ rw other refl)
      ]

  load_headers_lem :
      (fuel n i : ℕ) (h : Header) (m : Memory) (f : F)
      → HeadersFit sound.content sound.size fuel
      → Reads sound.content h
      → i + n ≤ h.phnum
      → (f' : F) × (load_headers file fuel h n i m f
          ≡ some (true, (segments_in sound.content n i m, f')))
  unfolding load_headers segments_in
  load_headers_lem fuel zero i h m f fit reads le = (f, refl)
  load_headers_lem fuel (suc n) i h m f fit reads le =
      let (f1, e) = load_header_lem fuel h i m f fit reads (omega arith) in
      let (f', rest) =
        load_headers_lem fuel n (i + 1) h
          (if (segment_at sound.content i).kind == 1
            then segment_in sound.content (segment_at sound.content i) m
            else m)
          f1 fit reads (omega arith) in
      (f', rw (load_headers, e) rest)

  load_result :
      (fuel : ℕ) (m : Memory) (f : F) (b : List ℕ)
      → (file.seek 0 f).0 ≡ true
      → (read_exact file 52 (file.seek 0 f).1).0 ≡ some b
      → load file fuel m f ≡ (
          let h = header_of b in
          let f' = (read_exact file 52 (file.seek 0 f).1).1 in
          if not (is_loadable h)
          then some (enoent, (m, f'))
          else elim (load_headers file fuel h h.phnum 0 m f') [
            | none ↦ none
            | some (fine, st) ↦ some (if fine then entry_point h.entry else eio, st)
          ])
  unfolding load
  load_result fuel m f b fine e = rw (load, fine, e) refl

  -- ELF_Load of a file that is read without failures: if its bytes do not begin like a program of
  -- 32 bits for the 386, with headers of 32 bytes and at least one, the result is -ENOENT and memory
  -- is as before; else, if the program headers and the data are in the file and the segments have
  -- room, the entry point, the word at 24, is returned, and memory has the segments of type PT_LOAD
  -- in their order, each with its data and zeros behind it, and is as before elsewhere. The fuel is
  -- greater than the size of each segment's data.
  pub load-segments_in :
      (fuel : ℕ) (m : Memory) (f : F)
      → 52 ≤ sound.size
      → (is_program sound.content ≡ true → HeadersFit sound.content sound.size fuel)
      → let c = sound.content in
        (f' : F) × (load file fuel m f
          ≡ some (
            if is_program c then entry_point (word c 24) else enoent,
            (if is_program c then segments_in c (half c 44) 0 m else m, f'),
          ))
  load-segments_in fuel m f room fit =
      let b = bytes_of sound.content 0 52 in
      let h = header_of b in
      let reads = header_at-Reads sound.content in
      let (fine, there) = sound.sought 0 f (omega arith) in
      let header = read_exact_lem file sound 52 0 (file.seek 0 f).1 there room in
      let result = load_result fuel m f b fine header in
      let f1 = (read_exact file 52 (file.seek 0 f).1).1 in
      let agree = is_loadable-is_program sound.content in
      elim (Bool-cases (is_program sound.content)) [
        | inl good ↦
            let (f', e) = load_headers_lem fuel h.phnum 0 h m f1 (fit good) reads (omega arith) in
            (f', result ∙ rw (agree, good, e, reads.entry, reads.phnum) refl)
        | inr bad ↦ (f1, result ∙ rw (agree, bad) refl)
      ]

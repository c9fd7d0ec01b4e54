-- ===== src/Sys/Elf/Layout.antt =====
-- kernel/sys/elf.c: the layout of a program, as the format has it, and that the header and the
-- segments that are read are those.
use valecium.Prelude.{
  ℕ, suc, ◌+◌, ◌*◌, ◌^◌, ◌<◌, ◌≡◌, refl, ap, ◌∙◌, not, arith, ◌==◌, Bool, ◌&&◌, get_or, zero,
}
use valecium.Sys.Elf.{half_at, word_at, Header, header_of, Segment, segment_of, is_loadable}
use valecium.Sys.Elf.Bytes.{bytes_of}

-- Numbers of 16 and 32 bits in a file, the low byte first.
abbrev pub half : (ℕ → ℕ) → ℕ → ℕ
half content p = content p + 2 ^ 8 * content (p + 1)

abbrev pub word : (ℕ → ℕ) → ℕ → ℕ
word content p =
    content p + 2 ^ 8 * content (p + 1) + 2 ^ 16 * content (p + 2) + 2 ^ 24 * content (p + 3)

-- Whether a file begins like a program of 32 bits for the 386 with headers of 32 bytes: 0x7f, ELF,
-- class 1, data 1, the machine 3 at 18, the size of a program header at 42, their number at 44.
abbrev pub is_program : (ℕ → ℕ) → Bool
is_program content =
    content 0 == 0x7f
    && content 1 == b'E'
    && content 2 == b'L'
    && content 3 == b'F'
    && content 4 == 1
    && content 5 == 1
    && half content 18 == 3
    && not (half content 44 == 0)
    && half content 42 == 32

-- The place of a program header, by the words at 28 and 42, and what it says by the layout of the
-- format: the type, the offset, both addresses and both sizes.
abbrev pub place_of : (ℕ → ℕ) → ℕ → ℕ
place_of content i = word content 28 + i * half content 42

abbrev pub segment_at : (ℕ → ℕ) → ℕ → Segment
segment_at content i =
    let p = place_of content i in
    record {
      kind = word content p;
      offset = word content (p + 4);
      vaddr = word content (p + 8);
      paddr = word content (p + 12);
      filesz = word content (p + 16);
      memsz = word content (p + 20);
    }

get_or-bytes_of :
    (content : ℕ → ℕ) (p n i : ℕ) → i < n → get_or (bytes_of content p n) i 0 ≡ content (p + i)
get_or-bytes_of content p zero i lt = absurd (omega arith)
get_or-bytes_of content p (suc n) zero lt = ap content (omega arith)
get_or-bytes_of content p (suc n) (suc i) lt =
    get_or-bytes_of content (p + 1) n i (omega arith) ∙ ap content (omega arith)

half_lem :
    (content : ℕ → ℕ) (p n i : ℕ)
    → i + 1 < n
    → half_at (bytes_of content p n) i ≡ half content (p + i)
half_lem content p n i lt =
    let next : p + (i + 1) ≡ p + i + 1 = omega arith in
    let low = get_or-bytes_of content p n i (omega arith) in
    let high = get_or-bytes_of content p n (i + 1) (omega arith) ∙ ap content next in
    rw (low, high) refl

word_lem :
    (content : ℕ → ℕ) (p n i : ℕ)
    → i + 3 < n
    → word_at (bytes_of content p n) i ≡ word content (p + i)
word_lem content p n i lt =
    let low = half_lem content p n i (omega arith) in
    let high = half_lem content p n (i + 2) (omega arith) in
    let third : p + (i + 2) ≡ p + i + 2 = omega arith in
    let fourth : p + i + 2 + 1 ≡ p + i + 3 = omega arith in
    let third' = ap content third in
    let fourth' = ap (λ k. content (k + 1)) third ∙ ap content fourth in
    omega (arith, low, high, third', fourth')

pub segment_of-bytes :
    (content : ℕ → ℕ) (i : ℕ)
    → segment_of (bytes_of content (place_of content i) 32) ≡ segment_at content i
unfolding segment_of
segment_of-bytes content i =
    let p = place_of content i in
    let first : p + 0 ≡ p = omega arith in
    rw
      (
        word_lem content p 32 0 (omega arith) ∙ ap (word content) first,
        word_lem content p 32 4 (omega arith),
        word_lem content p 32 8 (omega arith),
        word_lem content p 32 12 (omega arith),
        word_lem content p 32 16 (omega arith),
        word_lem content p 32 20 (omega arith),
      )
      refl

-- The header that is read, by the bytes of the file.
abbrev pub header_at : (ℕ → ℕ) → Header
header_at content = header_of (bytes_of content 0 52)

pub record Reads (content : ℕ → ℕ) (h : Header) : Type 0 where
  pub entry : h.entry ≡ word content 24
  pub phoff : h.phoff ≡ word content 28
  pub phentsize : h.phentsize ≡ half content 42
  pub phnum : h.phnum ≡ half content 44
  pub machine : h.machine ≡ half content 18

pub header_at-Reads : (content : ℕ → ℕ) → Reads content (header_at content)
unfolding header_of
header_at-Reads content = record {
  entry = word_lem content 0 52 24 (omega arith);
  phoff = word_lem content 0 52 28 (omega arith);
  phentsize = half_lem content 0 52 42 (omega arith);
  phnum = half_lem content 0 52 44 (omega arith);
  machine = half_lem content 0 52 18 (omega arith);
}

pub is_loadable-is_program :
    (content : ℕ → ℕ) → is_loadable (header_at content) ≡ is_program content
unfolding is_loadable header_of
is_loadable-is_program content =
    rw
      (
        half_lem content 0 52 42 (omega arith),
        half_lem content 0 52 44 (omega arith),
        half_lem content 0 52 18 (omega arith),
      )
      refl

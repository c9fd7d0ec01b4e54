-- ===== src/Sys/Elf/Tests.antt =====
-- kernel/sys/elf.c: concrete runs, and the theorems at concrete inputs.
use valecium.Prelude.{
  ℕ, ◌+◌, ◌≤◌, ◌<◌, ◌≡◌, refl, true, false, arith, if◌then◌else◌, ◌⊎◌, none, some, List, [], ◌∷◌,
  ◌++◌, get_or, replicate,
}
use valecium.Mem.Memory.{Memory}
use valecium.Sys.Elf.{File, entry_point, enoent, Header, header_of, is_loadable, load}
use valecium.Sys.Elf.Bytes.{bytes_of, Sound}
use valecium.Sys.Elf.Segments.{SegmentFits}
use valecium.Sys.Elf.Load.{HeadersFit, segments_in, load-segments_in}
use valecium.Sys.Elf.Layout.{half, word, is_program, segment_at}
use valecium.Sys.Elf.Stack.{
  UserProcess, setup_initial_user_stack, FirstStack, setup_initial_user_stack-FirstStack,
}

-- A program with one segment of 3 bytes, which takes 5 in memory at 4096.
abbrev image : List ℕ
image =
    (127 ∷ 69 ∷ 76 ∷ 70 ∷ 1 ∷ 1 ∷ replicate 10 0)
    ++ (2 ∷ 0 ∷ 3 ∷ 0 ∷ 1 ∷ 0 ∷ 0 ∷ 0 ∷ 0 ∷ 16 ∷ 0 ∷ 0 ∷ 52 ∷ 0 ∷ 0 ∷ 0 ∷ replicate 8 0)
    ++ (52 ∷ 0 ∷ 32 ∷ 0 ∷ 1 ∷ 0 ∷ 0 ∷ 0 ∷ 0 ∷ 0 ∷ 0 ∷ 0 ∷ [])
    ++ (1 ∷ 0 ∷ 0 ∷ 0 ∷ 84 ∷ 0 ∷ 0 ∷ 0 ∷ 0 ∷ 16 ∷ 0 ∷ 0 ∷ 0 ∷ 0 ∷ 0 ∷ 0 ∷ [])
    ++ (3 ∷ 0 ∷ 0 ∷ 0 ∷ 5 ∷ 0 ∷ 0 ∷ 0 ∷ replicate 8 0)
    ++ (7 ∷ 8 ∷ 9 ∷ [])

abbrev bytes : ℕ → ℕ
bytes i = get_or image i 0

-- A file whose state is the position.
abbrev file : File ℕ
file = record {
  seek = λ p f. (true, p);
  read = λ n f. (bytes_of bytes f n, f + n);
  allocate = λ n f. (true, f);
  free = λ f. f;
}

abbrev sound : Sound file
sound = record {
  content = bytes;
  size = 87;
  position = λ f. f;
  sought = λ p f le. (refl, refl);
  given = λ n f le. (refl, refl);
  allocated = λ n f. (refl, refl);
  freed = λ f. refl;
}

abbrev empty : Memory
empty a = 255

abbrev header : Header
header = header_of (bytes_of bytes 0 52)

image_loadable : is_loadable header ≡ true
unfolding is_loadable header_of
image_loadable = refl

placed_bytes : (segments_in bytes 1 0 empty 4098 ≡ 9) × (segments_in bytes 1 0 empty 4099 ≡ 0)
unfolding segments_in
placed_bytes = (refl, refl)

segment_fits : SegmentFits 87 (segment_at bytes 0)
segment_fits = record { inside = omega arith; room = omega arith; real = omega arith }

image_fits : HeadersFit bytes 87 4
image_fits = record {
  small = omega arith;
  inside = λ i lt. omega arith;
  fits = λ i lt kind. rw (let first : i ≡ 0 = omega arith in first) segment_fits;
  enough = λ i lt kind. rw (let first : i ≡ 0 = omega arith in first) (omega arith);
}

load-segments_in_example :
    (f' : ℕ) × (load file 4 empty 0
      ≡ some (
        if is_program bytes then entry_point (word bytes 24) else enoent,
        (if is_program bytes then segments_in bytes (half bytes 44) 0 empty else empty, f'),
      ))
load-segments_in_example = load-segments_in file sound 4 empty 0 (omega arith) (λ good. image_fits)

abbrev process : UserProcess
process = record {
  page_directory = 1;
  stack_start = 8192;
  stack_end = 12288;
  esp = 0;
  ebp = 0;
  saved_regs = none;
}

setup_initial_user_stack-FirstStack_example :
    let r = setup_initial_user_stack (97 ∷ 98 ∷ []) process empty in
    ((12288 < 8192 + 2 + 89) × (r ≡ (false, (process, empty))))
    ⊎ ((8192 + 2 + 89 ≤ 12288)
        × (r.0 ≡ true)
        × (r.1.0.esp ≡ r.1.0.ebp)
        × FirstStack (97 ∷ 98 ∷ []) process empty r.1.1 (r.1.0.esp))
setup_initial_user_stack-FirstStack_example =
    setup_initial_user_stack-FirstStack (97 ∷ 98 ∷ []) process empty (λ e. absurd (omega arith))
      refl (omega arith) (omega arith)

-- ===== src/Mem/Heap/Header.antt =====
-- kernel/mem/heap.c: what is read from memory after a header was written.
use valecium.Prelude.{ℕ, ◌+◌, ◌^◌, ◌≤◌, ◌<◌, ◌≡◌, ◌∙◌, arith, ◌⊎◌}
use valecium.Mem.Memory.{Memory}
use valecium.Mem.Heap.{canary, store32, load32, write_header}

-- Other addresses keep their bytes.
store32-outside : (p v : ℕ) (m : Memory) (a : ℕ) → (a < p) ⊎ (p + 4 ≤ a) → store32 p v m a ≡ m a
unfolding store32
store32-outside p v m a off = ground arith

load32-store32_self : (p v : ℕ) (m : Memory) → v < 2 ^ 32 → load32 p (store32 p v m) ≡ v
unfolding store32 load32
load32-store32_self p v m h = ground arith

load32-eq :
    (p : ℕ) (m m' : Memory) → ((a : ℕ) → p ≤ a → a < p + 4 → m' a ≡ m a) → load32 p m' ≡ load32 p m
unfolding load32
load32-eq p m m' same = rw (
  same p (omega arith) (omega arith),
  same (p + 1) (omega arith) (omega arith),
  same (p + 2) (omega arith) (omega arith),
  same (p + 3) (omega arith) (omega arith),
)

load32-store32_ne :
    (p q v : ℕ) (m : Memory) → (q + 4 ≤ p) ⊎ (p + 4 ≤ q) → load32 q (store32 p v m) ≡ load32 q m
load32-store32_ne p q v m off =
    load32-eq q m (store32 p v m) (λ a lo hi. store32-outside p v m a (ground arith))

-- The three words of a header that was just written.
pub load32-write_header :
    (p size : ℕ) (m : Memory)
    → size < 2 ^ 32
    → (load32 p (write_header p size m) ≡ size)
      × (load32 (p + 4) (write_header p size m) ≡ canary)
      × (load32 (p + 8) (write_header p size m) ≡ canary)
unfolding write_header
load32-write_header p size m h =
    let one = store32 p size m in
    let two = store32 (p + 4) canary one in
    (
      load32-store32_ne (p + 8) p canary two (omega arith)
          ∙ load32-store32_ne (p + 4) p canary one (omega arith)
          ∙ load32-store32_self p size m h,
      load32-store32_ne (p + 8) (p + 4) canary two (omega arith)
          ∙ load32-store32_self (p + 4) canary one (omega arith),
      load32-store32_self (p + 8) canary two (omega arith),
    )

-- A header leaves the bytes outside it alone.
pub write_header-outside :
    (p size : ℕ) (m : Memory) (a : ℕ) → (a < p) ⊎ (p + 12 ≤ a) → write_header p size m a ≡ m a
unfolding write_header
write_header-outside p size m a off =
    store32-outside (p + 8) canary _ a (omega arith)
    ∙ store32-outside (p + 4) canary _ a (omega arith)
    ∙ store32-outside p size m a (omega arith)

pub load32-write_header_ne :
    (p q size : ℕ) (m : Memory)
    → (q + 4 ≤ p) ⊎ (p + 12 ≤ q)
    → load32 q (write_header p size m) ≡ load32 q m
load32-write_header_ne p q size m off =
    load32-eq q m (write_header p size m) (λ a lo hi. write_header-outside p size m a (omega arith))

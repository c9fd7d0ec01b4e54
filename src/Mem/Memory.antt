-- ===== src/Mem/Memory.antt =====
-- kernel/mem/memory.c: memory as a function from addresses to bytes, and `memmove`. The assembly
-- behind `memcpy` and `memset` is kernel/arch/i686/mem/memory_asm.S; a refused call changes nothing,
-- as `mem_fault_handler` does without the debug flag.
pub mod Move
pub mod Tests
use valecium.Prelude.{
  ℕ, zero, suc, ◌+◌, ◌-◌, ◌*◌, ◌/◌, ◌%◌, ◌^◌, ◌≤◌, ◌<◌, ◌≡◌, ◌≢◌, refl, sym, ap, ◌∙◌, Bool, true,
  false, not, ◌&&◌, ◌||◌, arith, ◌==◌, ==_iff, if◌then◌else◌, inl, inr, ◌⊎◌, Bool-cases,
  Option-cases, Option, none, some, ltb, leb, u32, update, List, [], ◌∷◌, ◌++◌, fun_ext, has_bit,
  length, length-append,
}

abbrev pub Memory : Type 0
Memory = ℕ → ℕ

-- Whether an address lies in the `n` bytes from `p` on.
abbrev pub within : ℕ → ℕ → ℕ → Bool
within p n a = leb p a && ltb a (p + n)

-- The loop that copies forwards, with the rounds that are left.
unfoldable pub copy_forwards : ℕ → ℕ → ℕ → ℕ → Memory → Memory
copy_forwards zero i d s m = m
copy_forwards (suc n) i d s m = copy_forwards n (i + 1) d s (update m (d + i) (m (s + i)))

-- The loop that copies backwards, from index `i` down.
unfoldable pub copy_backwards : ℕ → ℕ → ℕ → Memory → Memory
copy_backwards zero d s m = m
copy_backwards (suc i) d s m = copy_backwards i d s (update m (d + i) (m (s + i)))

unfoldable pub memmove : ℕ → ℕ → ℕ → Memory → Memory
memmove d s n m =
    if d == s || n == 0
    then m
    else if ltb d s
    then copy_forwards n 0 d s m
    else copy_backwards n d s m

-- `rep stosb`
unfoldable pub fill : ℕ → ℕ → ℕ → Memory → Memory
fill zero p value m = m
fill (suc n) p value m = fill n (p + 1) value (update m p value)

unfoldable pub memset : ℕ → ℕ → ℕ → Memory → Memory
memset p value n m =
    if n == 0
    then m
    else if p == 0
    then m
    else if ltb (u32 (p + n)) p
    then m
    else fill n p (value % 256) m

-- One step of `movsl`.
unfoldable pub move_dword : ℕ → ℕ → Memory → Memory
move_dword d s m =
    update (update (update (update m d (m s)) (d + 1) (m (s + 1))) (d + 2) (m (s + 2))) (d + 3)
      (m (s + 3))

-- `rep movsl` with the direction flag clear, from index `i` on.
unfoldable pub dwords_up : ℕ → ℕ → ℕ → ℕ → Memory → Memory
dwords_up zero i d s m = m
dwords_up (suc n) i d s m = dwords_up n (i + 4) d s (move_dword (d + i) (s + i) m)

-- `rep movsl` and `rep movsb` with the direction flag set.
unfoldable pub dwords_down : ℕ → ℕ → ℕ → Memory → Memory
dwords_down zero d s m = m
dwords_down (suc n) d s m = dwords_down n (d - 4) (s - 4) (move_dword d s m)

unfoldable pub bytes_down : ℕ → ℕ → ℕ → Memory → Memory
bytes_down zero d s m = m
bytes_down (suc n) d s m = bytes_down n (d - 1) (s - 1) (update m d (m s))

unfoldable pub copy_up : ℕ → ℕ → ℕ → Memory → Memory
copy_up d s n m =
    if s % 4 == 0 && d % 4 == 0
    then copy_forwards (n % 4) (n / 4 * 4) d s (dwords_up (n / 4) 0 d s m)
    else copy_forwards n 0 d s m

-- The arguments are the addresses of the last bytes.
unfoldable pub copy_down : ℕ → ℕ → ℕ → Memory → Memory
copy_down d s n m =
    if s % 4 == 0 && d % 4 == 0
    then bytes_down (n % 4) (d - n / 4 * 4) (s - n / 4 * 4) (dwords_down (n / 4) d s m)
    else bytes_down n d s m

unfoldable pub memcpy : ℕ → ℕ → ℕ → Memory → Memory
memcpy d s n m =
    if n == 0
    then m
    else if s == 0 || d == 0
    then m
    else if ltb (u32 (s + n)) s || ltb (u32 (d + n)) d
    then m
    else if ltb d s || leb (u32 (s + n)) d
    then copy_up d s n m
    else copy_down (d + n - 1) (s + n - 1) n m

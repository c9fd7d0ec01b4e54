-- ===== src/Mem/Memory/Move.antt =====
-- kernel/mem/memory.c: `memmove` copies, whether or not the areas overlap, and `memset` fills.
use valecium.Prelude.{ℕ, zero, suc, ◌+◌, ◌-◌, ◌<◌, ◌≡◌, ◌≢◌, ◌^◌, ◌%◌, arith, if◌then◌else◌, update}
use valecium.Mem.Memory.{Memory, within, copy_forwards, copy_backwards, memmove, fill, memset}

copy_forwards_lem :
    (n i d s : ℕ) (m : Memory) (a : ℕ)
    → d < s
    → copy_forwards n i d s m a ≡ (if within (d + i) n a then m (s + (a - d)) else m a)
unfolding copy_forwards
copy_forwards_lem zero i d s m a lt = ground arith
copy_forwards_lem (suc n) i d s m a lt =
    ground (arith, copy_forwards_lem n (i + 1) d s (update m (d + i) (m (s + i))) a lt)

copy_backwards_lem :
    (n d s : ℕ) (m : Memory) (a : ℕ)
    → s < d
    → copy_backwards n d s m a ≡ (if within d n a then m (s + (a - d)) else m a)
unfolding copy_backwards
copy_backwards_lem zero d s m a lt = ground arith
copy_backwards_lem (suc n) d s m a lt =
    ground (arith, copy_backwards_lem n d s (update m (d + n) (m (s + n))) a lt)

-- After `memmove` the `n` bytes from the destination on are the bytes that the source held before
-- the call, and no other byte has changed, also where the two areas overlap.
pub memmove_lem :
    (d s n : ℕ) (m : Memory) (a : ℕ)
    → memmove d s n m a ≡ (if within d n a then m (s + (a - d)) else m a)
unfolding memmove
memmove_lem d s n m a = ground (arith, copy_forwards_lem n 0 d s m a, copy_backwards_lem n d s m a)

fill_lem :
    (n p value : ℕ) (m : Memory) (a : ℕ)
    → fill n p value m a ≡ (if within p n a then value else m a)
unfolding fill
fill_lem zero p value m a = ground arith
fill_lem (suc n) p value m a = ground (arith, fill_lem n (p + 1) value (update m p value) a)

-- `memset` of an area that is not at the null pointer and ends in the address space.
pub memset_lem :
    (p value n : ℕ) (m : Memory) (a : ℕ)
    → p ≢ 0
    → p + n < 2 ^ 32
    → memset p value n m a ≡ (if within p n a then value % 256 else m a)
unfolding memset
memset_lem p value n m a ne fits = ground (arith, fill_lem n p (value % 256) m a)

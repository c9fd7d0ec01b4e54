-- ===== src/Mem/Pmm/Count.antt =====
-- kernel/mem/pmm.c: the invariant of the allocator, and the number of pages in use.
use valecium.Prelude.{
  ℕ, zero, suc, ◌+◌, ◌*◌, ◌/◌, ◌≤◌, ◌<◌, ◌≡◌, refl, Bool, true, false, ◌||◌, arith, ◌==◌, ==_iff,
  if◌then◌else◌, inl, inr, Bool-cases,
}
use valecium.Mem.Pmm.{Pmm, storage_bytes, bitmap_set, bitmap_clear, bitmap_is_set}
use valecium.Mem.Pmm.Bits.{AllBytes, set-AllBytes, clear-AllBytes, is_set-set, is_set-clear}

-- How many of the first `n` pages are in use.
unfoldable pub count_used : (ℕ → Bool) → ℕ → ℕ
count_used f zero = 0
count_used f (suc n) = (if f n then 1 else 0) + count_used f n

pub count_used-le : (f : ℕ → Bool) (n : ℕ) → count_used f n ≤ n
unfolding count_used
count_used-le f zero = omega arith
count_used-le f (suc n) = ground (arith, count_used-le f n)

pub count_used-eq :
    (f g : ℕ → Bool) (n : ℕ) → ((q : ℕ) → q < n → g q ≡ f q) → count_used g n ≡ count_used f n
unfolding count_used
count_used-eq f g zero h = refl
count_used-eq f g (suc n) h =
    rw (h n (omega arith), count_used-eq f g n (λ q lt. h q (omega arith)))

-- One more page counts for one.
pub count_used-add :
    (f g : ℕ → Bool) (p n : ℕ)
    → ((q : ℕ) → g q ≡ ((p == q) || f q))
    → f p ≡ false
    → p < n
    → count_used g n ≡ suc (count_used f n)
unfolding count_used
count_used-add f g p zero h e lt = absurd (omega arith)
count_used-add f g p (suc n) h e lt = elim (Bool-cases (p == n)) [
  | inl same ↦
      let at : g n ≡ true = ground (arith, h n) in
      let was : f n ≡ false = rw ((==_iff p n).0 same) at e in
      rw (at, was, count_used-eq f g n (λ q less. ground (arith, h q))) (omega arith)
  | inr other ↦ ground (arith, h n, count_used-add f g p n h e (ground arith))
]

-- No page counts for none.
pub count_used-none : (f : ℕ → Bool) (n : ℕ) → ((q : ℕ) → q < n → f q ≡ false) → count_used f n ≡ 0
unfolding count_used
count_used-none f zero h = refl
count_used-none f (suc n) h =
    rw (h n (omega arith), count_used-none f n (λ q lt. h q (omega arith))) (omega arith)

-- What holds of the allocator once it is initialised. The storage has `storage_bytes` bytes of
-- eight pages each.
pub record IsValid (s : Pmm) : Type 0 where
  pub ready : s.mapped ≡ true
  pub fits : s.total ≤ storage_bytes * 8
  pub bytes : AllBytes s
  pub counted : s.allocated ≡ count_used (bitmap_is_set s) s.total

pub allocated-le : {s : Pmm} → IsValid s → s.allocated ≤ s.total
allocated-le {s} v = omega (arith, v.counted, count_used-le (bitmap_is_set s) s.total)

-- The byte of every page that is managed lies inside the storage.
pub in_bounds : {s : Pmm} (p : ℕ) → IsValid s → p < s.total → p / 8 < storage_bytes
in_bounds p v lt = omega (arith, v.fits)

-- Taking a free page.
pub set-IsValid :
    {s : Pmm} (p : ℕ)
    → IsValid s
    → p < s.total
    → bitmap_is_set s p ≡ false
    → IsValid (bitmap_set s p)
unfolding bitmap_set
set-IsValid {s} p v lt free =
    let more =
      count_used-add (bitmap_is_set s) (bitmap_is_set (bitmap_set s p)) p s.total
        (λ q. is_set-set s p q v.bytes) free lt in
    let small = allocated-le v in
    record {
      ready = v.ready;
      fits = v.fits;
      bytes = set-AllBytes s p v.bytes;
      counted = omega (arith, more, small, v.counted, v.fits);
    }

-- The page that is released was counted.
pub allocated-clear :
    {s : Pmm} (p : ℕ)
    → IsValid s
    → p < s.total
    → bitmap_is_set s p ≡ true
    → ((bitmap_clear s p).allocated + 1 ≡ s.allocated)
      × ((bitmap_clear s p).allocated ≡ count_used (bitmap_is_set (bitmap_clear s p)) s.total)
unfolding bitmap_clear
allocated-clear {s} p v lt used =
    let less =
      count_used-add (bitmap_is_set (bitmap_clear s p)) (bitmap_is_set s) p s.total
        (λ q. ground (arith, is_set-clear s p q v.bytes))
        (ground (arith, is_set-clear s p p v.bytes)) lt in
    (ground (arith, less, v.counted), ground (arith, less, v.counted))

-- Releasing a page in use.
pub clear-IsValid :
    {s : Pmm} (p : ℕ)
    → IsValid s
    → p < s.total
    → bitmap_is_set s p ≡ true
    → IsValid (bitmap_clear s p)
unfolding bitmap_clear
clear-IsValid {s} p v lt used = record {
  ready = v.ready;
  fits = v.fits;
  bytes = clear-AllBytes s p v.bytes;
  counted = (allocated-clear p v lt used).1;
}

-- ===== src/Mem/Pmm/Run.antt =====
-- kernel/mem/pmm.c: sequences of calls.
use valecium.Prelude.{ℕ, ◌*◌, ◌/◌, ◌<◌, ◌≡◌, ◌≢◌, ◌∙◌, true, false, arith, inl, inr, List, [], ◌∷◌}
use valecium.Mem.Pmm.{Pmm, page_size, bitmap_is_set, allocate_page, free_page}
use valecium.Mem.Pmm.Count.{IsValid}
use valecium.Mem.Pmm.Alloc.{IsLowest, allocate_lem, allocate-IsValid}
use valecium.Mem.Pmm.Free.{free_page-IsValid, is_set-free_page, total-free_page}

-- A call that changes the allocator's state.
pub data Call : Type 0 where
  allocate : Call
  free : ℕ → Call

unfoldable pub call : Call → Pmm → Pmm
call allocate s = (allocate_page s).1
call (free addr) s = free_page addr s

unfoldable pub run : List Call → Pmm → Pmm
run [] s = s
run (c ∷ cs) s = run cs (call c s)

-- The calls free no address inside page `p`.
abbrev pub Spares : ℕ → List Call → Type 0
Spares p [] = Unit {0}
Spares p (allocate ∷ cs) = Spares p cs
Spares p (free addr ∷ cs) = (addr / page_size ≢ p) × Spares p cs

-- The invariant holds after any calls.
pub run-IsValid : (cs : List Call) {s : Pmm} → IsValid s → IsValid (run cs s)
unfolding run call
run-IsValid [] v = v
run-IsValid (allocate ∷ cs) v = run-IsValid cs (allocate-IsValid v)
run-IsValid (free addr ∷ cs) {s} v = run-IsValid cs (free_page-IsValid s addr v)

-- A page in use, among those managed.
abbrev pub IsHeld : ℕ → Pmm → Type 0
IsHeld p s = (p < s.total) × (bitmap_is_set s p ≡ true)

allocate-IsHeld : (p : ℕ) {s : Pmm} → IsValid s → IsHeld p s → IsHeld p (allocate_page s).1
allocate-IsHeld p {s} v held = elim (allocate_lem v) [
  | inl (q, low, addr, takes) ↦ (omega (arith, takes.total), ground (arith, takes.used p))
  | inr (full, e) ↦ rw e held
]

free-IsHeld :
    (p addr : ℕ) (s : Pmm)
    → addr / page_size ≢ p
    → IsValid s
    → IsHeld p s
    → IsHeld p (free_page addr s)
free-IsHeld p addr s other v held =
    (omega (arith, total-free_page s addr), is_set-free_page s addr p v.bytes other ∙ held.1)

run-IsHeld :
    (p : ℕ) (cs : List Call) {s : Pmm} → Spares p cs → IsValid s → IsHeld p s → IsHeld p (run cs s)
unfolding run call
run-IsHeld p [] spares v held = held
run-IsHeld p (allocate ∷ cs) spares v held =
    run-IsHeld p cs spares (allocate-IsValid v) (allocate-IsHeld p v held)
run-IsHeld p (free addr ∷ cs) {s} spares v held =
    run-IsHeld p cs spares.1 (free_page-IsValid s addr v) (free-IsHeld p addr s spares.0 v held)

-- A page other than page 0 that is in use is not handed out again by any later allocation, as long
-- as no call in between frees an address inside it.
pub allocate-run_ne :
    (p : ℕ) (cs : List Call) {s : Pmm}
    → IsValid s
    → IsHeld p s
    → p ≢ 0
    → Spares p cs
    → (allocate_page (run cs s)).0 ≢ p * page_size
allocate-run_ne p cs {s} v held ne spares =
    let (inside, used) = run-IsHeld p cs spares v held in
    elim (allocate_lem (run-IsValid cs v)) [
      | inl (q, low, addr, takes) ↦ λ e. absurd (clash q low (omega arith))
      | inr (full, e) ↦ rw e (λ z. ne (omega arith))
    ]
  where
    clash : (q : ℕ) → IsLowest (run cs s) q → q ≡ p → ⊥
    clash q low e =
        let free : bitmap_is_set (run cs s) p ≡ false = rw e at low.free in
        cc (run-IsHeld p cs spares v held).1

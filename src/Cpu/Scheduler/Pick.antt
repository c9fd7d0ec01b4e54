-- ===== src/Cpu/Scheduler/Pick.antt =====
-- kernel/cpu/scheduler.c: `Scheduler_GetNextRunnableProcess` takes the first runnable process from
-- the last index on, going round.
use valecium.Prelude.{
  ℕ, zero, suc, ◌+◌, ◌%◌, ◌≤◌, ◌<◌, ◌≡◌, refl, Bool, true, false, not, ◌&&◌, arith, ◌==◌, ==_iff,
  inl, inr, Bool-cases, Option, none, some,
}
use valecium.Cpu.Process.{Table, is_runnable}
use valecium.Cpu.Scheduler.{Scheduler, scan, get_next_runnable}

-- Whether the slot's process may run.
unfoldable pub is_good : Table → Scheduler → ℕ → Bool
is_good t s idx = not (s.slots idx == 0) && is_runnable (t.procs (s.slots idx)).state

-- The slot that is looked at in round `k`.
abbrev pub slot_at : Scheduler → ℕ → ℕ
slot_at s k = (s.last + k) % s.count

-- The rounds from `n` on before `k` find no process to run.
abbrev pub NoneBefore : Table → Scheduler → ℕ → ℕ → Type 0
NoneBefore t s n k = (j : ℕ) → n ≤ j → j < k → is_good t s (slot_at s j) ≡ false

data Scanned (t : Table) (s : Scheduler) (n left : ℕ) : Option ℕ → Type 0 where
  nobody : NoneBefore t s n (n + left) → Scanned t s n left none
  first :
      {idx : ℕ} (k : ℕ)
      → n ≤ k
      → k < n + left
      → is_good t s (slot_at s k) ≡ true
      → NoneBefore t s n k
      → idx ≡ slot_at s k
      → Scanned t s n left (some idx)

module _ (t : Table) (s : Scheduler) where
  NoneBefore-earlier :
      (n k : ℕ) → is_good t s (slot_at s n) ≡ false → NoneBefore t s (n + 1) k → NoneBefore t s n k
  NoneBefore-earlier n k bad rest j lo hi = elim (Bool-cases (n == j)) [
    | inl here ↦ let e : n ≡ j = (==_iff n j).0 here in rw (← e) bad
    | inr other ↦ rest j (ground arith) hi
  ]

  Scanned-earlier :
      {n left : ℕ} {o : Option ℕ}
      → is_good t s (slot_at s n) ≡ false
      → Scanned t s (n + 1) left o
      → Scanned t s n (suc left) o
  Scanned-earlier {n} {left} bad (nobody none_good) =
      let e : n + 1 + left ≡ n + suc left = omega arith in
      nobody (NoneBefore-earlier n (n + suc left) bad (rw e at none_good))
  Scanned-earlier {n} bad (first k lo hi good before e) =
      first k (omega arith) (omega arith) good (NoneBefore-earlier n k bad before) e

scan-Scanned : (t : Table) (s : Scheduler) (left n : ℕ) → Scanned t s n left (scan t s left n)
unfolding scan is_good
scan-Scanned t s zero n = nobody (λ j lo hi. absurd (omega arith))
scan-Scanned t s (suc left) n = elim (Bool-cases (s.slots (slot_at s n) == 0)) [
  | inl null ↦ rw null (Scanned-earlier t s (rw null) (scan-Scanned t s left (n + 1)))
  | inr real ↦ elim (Bool-cases (is_runnable (t.procs (s.slots (slot_at s n))).state)) [
    | inl good ↦
        rw (real, good)
          (first n (omega arith) (omega arith) (rw (real, good)) (λ j lo hi. absurd (omega arith))
            refl)
    | inr bad ↦
        rw (real, bad) (Scanned-earlier t s (rw (real, bad)) (scan-Scanned t s left (n + 1)))
  ]
]

-- What the call does to the run queue.
pub data Picked (t : Table) (s : Scheduler) : Scheduler → Type 0 where
  idle :
      ((k : ℕ) → k < s.count → is_good t s (slot_at s k) ≡ false)
      → Picked t s (record s { next = 0 })
  took :
      (k : ℕ)
      → k < s.count
      → is_good t s (slot_at s k) ≡ true
      → ((j : ℕ) → j < k → is_good t s (slot_at s j) ≡ false)
      → Picked t s (record s { next = s.slots (slot_at s k); last = (slot_at s k + 1) % s.count })

-- If no queued process may run, the next one is null; else it is the first that may run, in the
-- order of the queue from the last index on and round its end, and the last index moves behind it.
pub get_next_runnable-Picked : (t : Table) (s : Scheduler) → Picked t s (get_next_runnable t s)
unfolding get_next_runnable
get_next_runnable-Picked t s = elim (Bool-cases (s.count == 0)) [
  | inl empty ↦ rw empty (idle (λ k lt. absurd (ground arith)))
  | inr some_left ↦ rw some_left (picked (scan-Scanned t s s.count 0))
]
  where
    picked :
        {o : Option ℕ}
        → Scanned t s 0 s.count o
        → Picked t s (elim o [
          | none ↦ record s { next = 0 }
          | some idx ↦ record s { next = s.slots idx; last = (idx + 1) % s.count }
        ])
    picked (nobody none_good) = idle (λ k lt. none_good k (omega arith) (omega arith))
    picked (first k lo hi good before e) =
        rw e (took k (omega arith) good (λ j lt. before j (omega arith) lt))

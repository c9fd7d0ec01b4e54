-- ===== src/Cpu/Scheduler/Fair.antt =====
-- kernel/cpu/scheduler.c: `Scheduler_Schedule` is a fair round robin.
use valecium.Prelude.{
  ℕ, zero, suc, ◌+◌, ◌-◌, ◌%◌, ◌≤◌, ◌<◌, ◌≡◌, refl, ap, ◌∙◌, true, false, arith, ◌==◌, ==_iff, inl,
  inr, Bool-cases, ltb,
}
use mathlib.Core.Path.{ap₂}
use native.Mathlib.Decide.{dec_le}
use native.Mathlib.Nat.{mod-add-mod, mod-eq_of_lt}
use valecium.Cpu.Process.{Table, is_runnable}
use valecium.Cpu.Scheduler.{Scheduler, set_process_state, dispatch, schedule}
use valecium.Cpu.Scheduler.Queue.{IsValid, slot-ne-null}
use valecium.Cpu.Scheduler.Pick.{is_good, slot_at, Picked, idle, took, get_next_runnable-Picked}

-- Calls of `Scheduler_Schedule`, one after another.
unfoldable pub schedule_times : ℕ → Table × Scheduler → Table × Scheduler
schedule_times zero k = k
schedule_times (suc n) k = schedule_times n (schedule k)

-- Which processes may run is the same in both tables.
abbrev SameRunnable : Table → Table → Type 0
SameRunnable t u = (p : ℕ) → is_runnable (u.procs p).state ≡ is_runnable (t.procs p).state

set_process_state-same : (t : Table) → SameRunnable t (set_process_state t)
unfolding set_process_state
set_process_state-same t p = ground arith

-- A call of `Scheduler_Schedule`: the first good slot `k` is taken.
record Step (t : Table) (s : Scheduler) (k : ℕ) (u : Table) (r : Scheduler) : Type 0 where
  slots : r.slots ≡ s.slots
  count : r.count ≡ s.count
  last : r.last ≡ (slot_at s k + 1) % s.count
  current : u.current ≡ s.slots (slot_at s k)
  same : SameRunnable t u

is_good-same :
    (t u : Table) (s : Scheduler) (j : ℕ) → SameRunnable t u → is_good u s j ≡ is_good t s j
unfolding is_good
is_good-same t u s j same = rw (same (s.slots j))

real_of_good : (t : Table) (s : Scheduler) (j : ℕ) → is_good t s j ≡ true → (s.slots j == 0) ≡ false
unfolding is_good
real_of_good t s j good = ground arith

runnable_of_good :
    (t : Table) (s : Scheduler) (j : ℕ)
    → is_good t s j ≡ true
    → is_runnable (t.procs (s.slots j)).state ≡ true
unfolding is_good
runnable_of_good t s j good = ground arith

dispatch-Step :
    {t : Table} {s r : Scheduler} (d : ℕ)
    → Picked t s r
    → d < s.count
    → is_good t s (slot_at s d) ≡ true
    → (k : ℕ) × (k ≤ d) × Step t s k (dispatch t r).0 (dispatch t r).1
unfolding dispatch
dispatch-Step d (idle none_good) lt good = cc (none_good d lt)
dispatch-Step {t} {s} d (took k lt' good' before) lt good =
    let real = real_of_good t s (slot_at s k) good' in
    let may = runnable_of_good t s (slot_at s k) good' in
    (
      k,
      not_later,
      rw real (record {
        slots = refl;
        count = refl;
        last = refl;
        current = refl;
        same = λ p. ground (arith, may);
      }),
    )
  where
    not_later : k ≤ d
    not_later = elim (Bool-cases (ltb d k)) [
      | inl early ↦ cc (before d (ground arith))
      | inr late ↦ ground arith
    ]

schedule-Step :
    (t : Table) (s : Scheduler) (d : ℕ)
    → d < s.count
    → is_good t s (slot_at s d) ≡ true
    → (k : ℕ) × (k ≤ d) × Step t s k (schedule (t, s)).0 (schedule (t, s)).1
unfolding schedule
schedule-Step t s d lt good =
    let t' = set_process_state t in
    let still = set_process_state-same t in
    let (k, le, step) =
      dispatch-Step d (get_next_runnable-Picked t' s) lt
        (is_good-same t t' s (slot_at s d) still ∙ good) in
    (
      k,
      le,
      record {
        slots = step.slots;
        count = step.count;
        last = step.last;
        current = step.current;
        same = λ p. step.same p ∙ still p;
      },
    )

-- The slot that was due in round `d` is due `k + 1` rounds earlier after round `k` was taken.
slot_at-later :
    (last c d k : ℕ) → k < d → (((last + k) % c + 1) % c + (d - k - 1)) % c ≡ (last + d) % c
slot_at-later last c d k lt =
    let e : last + k + 1 + (d - k - 1) ≡ last + d = omega arith in
    let a : ((last + k) % c + 1) % c ≡ (last + k + 1) % c = mod-add-mod (last + k) c 1 in
    rw a (mod-add-mod (last + k + 1) c (d - k - 1) ∙ rw e)

good_after :
    {t u : Table} {s r : Scheduler} {k : ℕ} (j : ℕ)
    → Step t s k u r
    → is_good t s j ≡ true
    → is_good u r j ≡ true
unfolding is_good
good_after {t} {u} {s} {r} j step good =
    let slots : r.slots j ≡ s.slots j = ap (λ f. f j) step.slots in
    rw (slots, step.same (s.slots j)) good

fair_within :
    (fuel : ℕ) (t : Table) (s : Scheduler) (d : ℕ)
    → d < fuel
    → d < s.count
    → is_good t s (slot_at s d) ≡ true
    → (m : ℕ) × (m ≤ d) × ((schedule_times (suc m) (t, s)).0.current ≡ s.slots (slot_at s d))
unfolding schedule_times
fair_within zero t s d enough lt good = absurd (omega arith)
fair_within (suc fuel) t s d enough lt good =
    let (k, le, step) = schedule-Step t s d lt good in
    elim (Bool-cases (k == d)) [
      | inl now ↦
          (0, omega arith, step.current ∙ ap (λ j. s.slots (slot_at s j)) ((==_iff k d).0 now))
      | inr before ↦
          let u : Table = (schedule (t, s)).0 in
          let r : Scheduler = (schedule (t, s)).1 in
          let d' : ℕ = d - k - 1 in
          let due : slot_at r d' ≡ slot_at s d =
            ap₂ (λ l c. (l + d') % c) step.last step.count
            ∙ slot_at-later s.last s.count d k (ground arith) in
          let (m, le', got) =
            fair_within fuel u r d' (ground arith) (ground (arith, step.count))
              (rw due (good_after (slot_at s d) step good)) in
          (suc m, ground arith, got ∙ ap₂ (λ f j. f j) step.slots due)
    ]

-- The round in which a slot is due.
round_of :
    {s : Scheduler} (i : ℕ) → IsValid s → i < s.count → (d : ℕ) × (d < s.count) × (slot_at s d ≡ i)
round_of {s} i v lt = elim (dec_le s.last i) [
  | yes ahead ↦
      let e : s.last + (i - s.last) ≡ i = omega arith in
      (i - s.last, omega arith, rw e (mod-eq_of_lt lt))
  | no behind ↦
      let e : s.last + (i + s.count - s.last) ≡ i + s.count = omega (arith, v.last_in) in
      (i + s.count - s.last, omega (arith, v.last_in), rw e (grind arith))
]

-- Every queued process that may run gets the processor within as many calls of
-- `Scheduler_Schedule` as there are processes in the queue, whichever others may run.
pub schedule-fair :
    (t : Table) {s : Scheduler} (i : ℕ)
    → IsValid s
    → i < s.count
    → is_runnable (t.procs (s.slots i)).state ≡ true
    → (m : ℕ) × (m < s.count) × ((schedule_times (suc m) (t, s)).0.current ≡ s.slots i)
unfolding is_good
schedule-fair t {s} i v lt may =
    let (d, in_round, due) = round_of i v lt in
    let good : is_good t s (slot_at s d) ≡ true = rw (due, slot-ne-null i v lt) may in
    let (m, le, got) = fair_within (suc d) t s d (omega arith) in_round good in
    (m, omega arith, got ∙ ap s.slots due)

-- ===== src/Cpu/Scheduler.antt =====
-- kernel/cpu/scheduler.c: the run queue. Not modelled: what `Process_SetCurrent` does to the
-- page directory and the task segment.
pub mod Queue
pub mod Registry
pub mod Pick
pub mod Fair
use valecium.Prelude.{
  ℕ, zero, suc, ◌+◌, ◌-◌, ◌*◌, ◌/◌, ◌%◌, ◌^◌, ◌≤◌, ◌<◌, ◌≡◌, ◌≢◌, refl, sym, ap, ◌∙◌, Bool, true,
  false, not, ◌&&◌, ◌||◌, arith, ◌==◌, ==_iff, if◌then◌else◌, inl, inr, ◌⊎◌, Bool-cases,
  Option-cases, Option, none, some, ltb, leb, u32, update, List, [], ◌∷◌, ◌++◌, fun_ext, has_bit,
  length, length-append,
}
use valecium.Cpu.Process.{State, Process, Table, ready, running, is_running, is_runnable, set_state}

-- `s_Processes`, `s_ProcessCount`, `s_LastIndex` and `s_NextRunnable`.
pub record Scheduler : Type 0 where
  pub slots : ℕ → ℕ
  pub count : ℕ
  pub last : ℕ
  pub next : ℕ

abbrev pub max_processes : ℕ
max_processes = 128

unfoldable pub initialize : Scheduler
initialize = record { slots = λ i. 0; count = 0; last = 0; next = 0 }

-- The search for a pointer from slot `i` on, with the slots that are left.
unfoldable pub find_slot : (ℕ → ℕ) → ℕ → ℕ → ℕ → Option ℕ
find_slot slots p zero i = none
find_slot slots p (suc n) i =
    let rest = find_slot slots p n (i + 1) in if slots i == p then some i else rest

unfoldable pub register : ℕ → Scheduler → Scheduler
register p s = if p == 0 then s else elim (find_slot s.slots p s.count 0) [
  | some i ↦ s
  | none ↦
      if leb max_processes s.count
      then s
      else record s { slots = update s.slots s.count p; count = s.count + 1 }
]

-- `for (j = i; j + 1 < s_ProcessCount; ++j)`, with the rounds that are left.
unfoldable pub shift_down : ℕ → ℕ → (ℕ → ℕ) → ℕ → ℕ
shift_down zero j slots = slots
shift_down (suc n) j slots = shift_down n (j + 1) (update slots j (slots (j + 1)))

-- The body of the loop of `Scheduler_UnregisterProcess` at the slot `i` that holds the process.
unfoldable pub remove_slot : ℕ → Scheduler → Scheduler
remove_slot i s =
    let count = s.count - 1 in
    record s {
      slots = update (shift_down (count - i) i s.slots) count 0;
      count = count;
      last = if count == 0 then 0 else if leb count s.last then 0 else s.last;
    }

unfoldable pub unregister : ℕ → Scheduler → Scheduler
unregister p s =
    if p == 0 || s.count == 0
    then s
    else elim (find_slot s.slots p s.count 0) [ none ↦ s | some i ↦ remove_slot i s ]

-- The loop of `Scheduler_GetNextRunnableProcess` from round `n` on, with the rounds that are
-- left: the index of the process that it takes.
unfoldable pub scan : Table → Scheduler → ℕ → ℕ → Option ℕ
scan t s zero n = none
scan t s (suc left) n =
    let idx = (s.last + n) % s.count in
    let rest = scan t s left (n + 1) in
    if s.slots idx == 0
    then rest
    else if is_runnable (t.procs (s.slots idx)).state
    then some idx
    else rest

unfoldable pub get_next_runnable : Table → Scheduler → Scheduler
get_next_runnable t s = if s.count == 0 then record s { next = 0 } else elim (scan t s s.count 0) [
  | none ↦ record s { next = 0 }
  | some idx ↦ record s { next = s.slots idx; last = (idx + 1) % s.count }
]

unfoldable pub set_process_state : Table → Table
set_process_state t =
    if t.current == 0
    then t
    else if is_running (t.procs t.current).state
    then set_state t t.current ready
    else t

-- The end of `Scheduler_Schedule`, once the next process is chosen.
unfoldable pub dispatch : Table → Scheduler → Table × Scheduler
dispatch t s =
    if s.next == 0 then (t, s) else (record (set_state t s.next running) { current = s.next }, s)

unfoldable pub schedule : Table × Scheduler → Table × Scheduler
schedule (t, s) = let t' = set_process_state t in dispatch t' (get_next_runnable t' s)

unfoldable pub get_process_count : Scheduler → ℕ
get_process_count s = s.count

unfoldable pub get_process_at : Scheduler → ℕ → ℕ
get_process_at s index = if leb s.count index then 0 else s.slots index

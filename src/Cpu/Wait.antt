-- ===== src/Cpu/Wait.antt =====
-- kernel/cpu/core.c: blocking and waking of processes, exit, and the search for a parent.
pub mod Wake
use valecium.Prelude.{
  ℕ, zero, suc, ◌+◌, ◌-◌, ◌*◌, ◌/◌, ◌%◌, ◌^◌, ◌≤◌, ◌<◌, ◌≡◌, ◌≢◌, refl, sym, ap, ◌∙◌, Bool, true,
  false, not, ◌&&◌, ◌||◌, arith, ◌==◌, ==_iff, if◌then◌else◌, inl, inr, ◌⊎◌, Bool-cases,
  Option-cases, Option, none, some, ltb, leb, u32, update, List, [], ◌∷◌, ◌++◌, fun_ext, has_bit,
  length, length-append,
}
use valecium.Cpu.Process.{
  State, Process, Table, ready, running, blocked, zombie, waiting, set_state,
}
use valecium.Cpu.Scheduler.{Scheduler, get_process_at, get_process_count}

abbrev pub is_blocked : State → Bool
is_blocked blocked = true
is_blocked _ = false

abbrev pub is_waiting : State → Bool
is_waiting waiting = true
is_waiting _ = false

-- `Process_AllocatePid`: the pid, and the next `s_NextPid`.
unfoldable pub allocate_pid : ℕ → ℕ × ℕ
allocate_pid next_pid = (next_pid, u32 (next_pid + 1))

-- The loop of `find_process_by_pid` from slot `i` on; 0 is the null pointer.
unfoldable pub find_pid_from : Table → Scheduler → ℕ → ℕ → ℕ → ℕ
find_pid_from t s pid zero i = 0
find_pid_from t s pid (suc n) i =
    let candidate = get_process_at s i in
    let rest = find_pid_from t s pid n (i + 1) in
    if not (candidate == 0) && (t.procs candidate).pid == pid then candidate else rest

unfoldable pub find_process_by_pid : Table → Scheduler → ℕ → ℕ
find_process_by_pid t s pid = find_pid_from t s pid (get_process_count s) 0

-- `process_matches_wait_target`: whether it returns 0. `any` says that `pid` is not positive.
unfoldable pub matches_wait_target : Table → ℕ → ℕ → Bool → ℕ → Bool
matches_wait_target t child parent_pid any pid =
    if child == 0
    then false
    else if not ((t.procs child).ppid == parent_pid)
    then false
    else if not any && not ((t.procs child).pid == pid)
    then false
    else true

unfoldable pub exit : ℕ → ℕ → Table → Scheduler → Table
exit p code t s =
    if p == 0
    then t
    else let t' : Table = record t {
      procs = update t.procs p (record (t.procs p) { exit_code = code; state = zombie });
    } in
      let parent = find_process_by_pid t' s (t'.procs p).ppid in
      if not (parent == 0) && is_waiting (t'.procs parent).state
      then set_state t' parent ready
      else t'

unfoldable pub block_on : ℕ → ℕ → Table → Table
block_on p channel t = if p == 0 then t else record t {
  procs = update t.procs p (record (t.procs p) { channel = channel; state = blocked });
}

-- What a process becomes when it is woken.
unfoldable pub woken : Table → ℕ → Process
woken t p = record (t.procs p) { channel = 0; state = if p == t.current then running else ready }

unfoldable pub unblock : ℕ → Table → Table
unblock p t =
    if p == 0
    then t
    else if is_blocked (t.procs p).state
    then record t { procs = update t.procs p (woken t p) }
    else record t { procs = update t.procs p (record (t.procs p) { channel = 0 }) }

-- One round of the loop of `Process_WakeByChannel`.
unfoldable pub wake_one : ℕ → ℕ → Table → Table
wake_one channel p t =
    if p == 0
    then t
    else if not (is_blocked (t.procs p).state)
    then t
    else if not ((t.procs p).channel == channel)
    then t
    else record t { procs = update t.procs p (woken t p) }

unfoldable pub wake_from : ℕ → Scheduler → ℕ → ℕ → Table → Table
wake_from channel s zero i t = t
wake_from channel s (suc n) i t =
    wake_from channel s n (i + 1) (wake_one channel (get_process_at s i) t)

unfoldable pub wake_by_channel : ℕ → Scheduler → Table → Table
wake_by_channel channel s t =
    if channel == 0 then t else wake_from channel s (get_process_count s) 0 t

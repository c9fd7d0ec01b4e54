-- ===== src/Cpu/Process.antt =====
-- kernel/cpu/process.h: the part of a process that the scheduler and the wait queues use. A
-- `Process *` is a number, 0 for NULL; the processes in memory are a function of the pointer.
use valecium.Prelude.{ℕ, Bool, true, false, update}

-- `ProcessState`
pub data State : Type 0 where
  ready running blocked zombie waiting : State

pub record Process : Type 0 where
  pub pid : ℕ
  pub ppid : ℕ
  pub state : State
  -- `wait_channel`, a pointer
  pub channel : ℕ
  pub exit_code : ℕ

-- `procs` is the memory, `current` is `s_CurrentProcess`.
pub record Table : Type 0 where
  pub procs : ℕ → Process
  pub current : ℕ

abbrev pub is_running : State → Bool
is_running running = true
is_running _ = false

-- Not blocked, zombie or waiting.
abbrev pub is_runnable : State → Bool
is_runnable ready = true
is_runnable running = true
is_runnable blocked = false
is_runnable zombie = false
is_runnable waiting = false

abbrev pub set_state : Table → ℕ → State → Table
set_state t p st = record t { procs = update t.procs p (record (t.procs p) { state = st }) }

-- ===== src/Cpu/Tests.antt =====
-- kernel/cpu: runs on a queue of three processes, and the theorems at it.
use valecium.Prelude.{
  ℕ, suc, ◌<◌, ◌≡◌, refl, true, false, not, ◌&&◌, arith, ◌==◌, if◌then◌else◌, inl, [], ◌∷◌,
}
use valecium.Cpu.Process.{State, Process, Table, running, ready, blocked, waiting}
use valecium.Cpu.Scheduler.{
  Scheduler, initialize, find_slot, register, unregister, scan, get_next_runnable,
  set_process_state, dispatch, schedule, get_process_at, get_process_count,
}
use valecium.Cpu.Scheduler.Queue.{IsValid, queue, slice, contains, erase}
use valecium.Cpu.Scheduler.Registry.{unregister-erase}
use valecium.Cpu.Scheduler.Fair.{schedule_times, schedule-fair}
use valecium.Cpu.Wait.{
  exit, find_process_by_pid, find_pid_from, wake_by_channel, woken, block_on, unblock,
  matches_wait_target,
}
use valecium.Cpu.Wait.Wake.{wake_by_channel_lem, sleeps_on}

abbrev process : ℕ → ℕ → State → ℕ → Process
process pid ppid state channel = record {
  pid = pid;
  ppid = ppid;
  state = state;
  channel = channel;
  exit_code = 0;
}

-- Pointers 100, 200 and 300: the shell waits for its child 200, which runs; 300 is blocked on 7.
abbrev table : Table
table = record {
  procs = λ p.
      if p == 100
      then process 1 0 waiting 0
      else if p == 200
      then process 2 1 running 0
      else process 3 1 blocked 7;
  current = 200;
}

abbrev three : Scheduler
three = record {
  slots = λ i. if i == 0 then 100 else if i == 1 then 200 else if i == 2 then 300 else 0;
  count = 3;
  last = 2;
  next = 200;
}

three-IsValid : IsValid three
unfolding queue slice contains
three-IsValid = record {
  fits = omega arith;
  last_in = inl (omega arith);
  no_null = refl;
  distinct = (refl, (refl, (refl, tt)));
}

registered : queue (register 200 (register 300 (register 200 initialize))) ≡ 200 ∷ 300 ∷ []
unfolding register initialize find_slot queue slice
registered = refl

-- The child exits, and the shell runs next.
exit_wakes_parent : (schedule (exit 200 5 table three, three)).0.current ≡ 100
unfolding exit find_process_by_pid find_pid_from get_process_at get_process_count schedule dispatch
    get_next_runnable scan set_process_state
exit_wakes_parent = refl

wait_targets :
    (matches_wait_target table 200 1 true 0 ≡ true)
    × (matches_wait_target table 200 1 false 3 ≡ false)
    × (matches_wait_target table 100 1 true 0 ≡ false)
unfolding matches_wait_target
wait_targets = (refl, refl, refl)

blocked_and_back : ((unblock 200 (block_on 200 9 table)).procs 200).state ≡ running
unfolding unblock block_on woken
blocked_and_back = refl

unregister-erase_example :
    IsValid (unregister 200 three) × (queue (unregister 200 three) ≡ erase (queue three) 200)
unregister-erase_example = unregister-erase 200 three three-IsValid

schedule-fair_example :
    (m : ℕ) × (m < 3) × ((schedule_times (suc m) (table, three)).0.current ≡ 200)
schedule-fair_example = schedule-fair table 1 three-IsValid (omega arith) refl

wake_by_channel_lem_example : (wake_by_channel 7 three table).procs 300 ≡ (
    if not (7 == 0) && contains (queue three) 300 && sleeps_on 7 (table.procs 300)
    then record (table.procs 300) {
      channel = 0;
      state = if 300 == table.current then running else ready;
    }
    else table.procs 300)
wake_by_channel_lem_example = wake_by_channel_lem 7 three table 300 (omega arith)

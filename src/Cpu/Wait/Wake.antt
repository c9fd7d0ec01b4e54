-- ===== src/Cpu/Wait/Wake.antt =====
-- kernel/cpu/core.c: `Process_WakeByChannel` wakes all that wait, and nobody else.
use valecium.Prelude.{
  ℕ, zero, suc, ◌+◌, ◌≤◌, ◌<◌, ◌≡◌, ◌≢◌, refl, ap, ◌∙◌, Bool, false, not, ◌&&◌, arith, ◌==◌, ==_iff,
  if◌then◌else◌, inl, inr, Bool-cases,
}
use valecium.Cpu.Process.{Process, Table, running, ready}
use valecium.Cpu.Scheduler.{Scheduler, get_process_at, get_process_count}
use valecium.Cpu.Scheduler.Queue.{queue, slice, contains}
use valecium.Cpu.Wait.{is_blocked, woken, wake_one, wake_from, wake_by_channel}

-- Whether the process sleeps on the channel.
abbrev pub sleeps_on : ℕ → Process → Bool
sleeps_on channel p = is_blocked p.state && p.channel == channel

slot-get_process_at : (s : Scheduler) (i : ℕ) → i < s.count → get_process_at s i ≡ s.slots i
unfolding get_process_at
slot-get_process_at s i lt = ground arith

woken_of_same :
    (t u : Table) (p : ℕ) → u.procs p ≡ t.procs p → u.current ≡ t.current → woken u p ≡ woken t p
unfolding woken
woken_of_same t u p same current = rw (same, current)

woken-awake : (t : Table) (p channel : ℕ) → sleeps_on channel (woken t p) ≡ false
unfolding woken
woken-awake t p channel = ground arith

module _ (channel : ℕ) (ne : (channel == 0) ≡ false) (p : ℕ) (real : (p == 0) ≡ false) where
  wake_one_self :
      (t : Table)
      → (wake_one channel p t).procs p
        ≡ (if sleeps_on channel (t.procs p) then woken t p else t.procs p)
  unfolding wake_one
  wake_one_self t = ground arith

  wake_one-other :
      (t : Table) (q : ℕ) → (q == p) ≡ false → (wake_one channel q t).procs p ≡ t.procs p
  unfolding wake_one
  wake_one-other t q other = ground arith

  current-wake_one : (t : Table) (q : ℕ) → (wake_one channel q t).current ≡ t.current
  unfolding wake_one
  current-wake_one t q = ground arith

  wake_from-at :
      (s : Scheduler) (n i : ℕ) (t : Table)
      → i + n ≤ s.count
      → (wake_from channel s n i t).procs p ≡ (
          if contains (slice s.slots i n) p && sleeps_on channel (t.procs p)
          then woken t p
          else t.procs p)
  unfolding wake_from contains slice
  wake_from-at s zero i t fits = refl
  wake_from-at s (suc n) i t fits =
      let q : ℕ = s.slots i in
      let u : Table = wake_one channel q t in
      let at : get_process_at s i ≡ q = slot-get_process_at s i (omega arith) in
      let rest = wake_from-at s n (i + 1) u (omega arith) in
      let current = current-wake_one t q in
      ap (λ r. (wake_from channel s n (i + 1) (wake_one channel r t)).procs p) at
      ∙ rest
      ∙ elim (Bool-cases (q == p)) [
        | inr other ↦
            let same = wake_one-other t q (ground arith) in
            rw (other, same, woken_of_same t u p same current)
        | inl here ↦
            let e : q ≡ p = (==_iff q p).0 here in
            let self : u.procs p
                ≡ (if sleeps_on channel (t.procs p) then woken t p else t.procs p) =
              ap (λ r. (wake_one channel r t).procs p) e ∙ wake_one_self t in
            elim (Bool-cases (sleeps_on channel (t.procs p))) [
              | inl asleep ↦
                  let now : u.procs p ≡ woken t p = rw asleep at self in
                  rw (here, asleep, now, woken-awake t p channel) (ground arith)
              | inr awake ↦
                  let now : u.procs p ≡ t.procs p = rw awake at self in
                  rw (here, now, awake) (ground arith)
            ]
      ]

-- After `Process_WakeByChannel` on a channel, each queued process that was blocked on it may run,
-- as running if it is the current one and as ready if not, and waits on no channel; every other
-- process is as it was.
pub wake_by_channel_lem :
    (channel : ℕ) (s : Scheduler) (t : Table) (p : ℕ)
    → p ≢ 0
    → (wake_by_channel channel s t).procs p ≡ (
        if not (channel == 0) && contains (queue s) p && sleeps_on channel (t.procs p)
        then record (t.procs p) { channel = 0; state = if p == t.current then running else ready }
        else t.procs p)
unfolding wake_by_channel get_process_count queue woken
wake_by_channel_lem channel s t p real = elim (Bool-cases (channel == 0)) [
  | inl null ↦ rw null
  | inr some_channel ↦
      rw some_channel
        (wake_from-at channel some_channel p (ground arith) s s.count 0 t (omega arith))
]

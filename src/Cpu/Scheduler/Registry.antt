-- ===== src/Cpu/Scheduler/Registry.antt =====
-- kernel/cpu/scheduler.c: taking processes into the queue and out of it.
use valecium.Prelude.{
  ℕ, suc, ◌+◌, ◌-◌, ◌<◌, ◌≡◌, refl, sym, ap, ◌∙◌, true, false, ◌||◌, arith, ◌==◌, ==_iff,
  if◌then◌else◌, inl, inr, ◌⊎◌, Bool-cases, Option, none, some, leb, update, [], ◌∷◌, ◌++◌, length,
}
use valecium.Cpu.Scheduler.{Scheduler, max_processes, register, remove_slot, unregister}
use valecium.Cpu.Scheduler.Queue.{
  Found, IsValid, contains, contains-erase, contains-snoc, erase, erase-AllDistinct, erase-none,
  find_slot-Found, length-slice, queue, queue-remove_slot, slice, slice-snoc, slice-update,
  snoc-AllDistinct, Found, absent, at,
}

abbrev Erased : ℕ → Scheduler → Scheduler → Type 0
Erased p s s' = IsValid s' × (queue s' ≡ erase (queue s) p)

remove_slot-counts :
    (k : ℕ) (s : Scheduler)
    → k < s.count
    → ((remove_slot k s).count ≡ s.count - 1)
      × (((remove_slot k s).last < (remove_slot k s).count) ⊎ ((remove_slot k s).last ≡ 0))
unfolding remove_slot
remove_slot-counts k s lt = ground arith

remove-Found :
    (p : ℕ) (s : Scheduler) {o : Option ℕ}
    → Found s.slots p 0 s.count o
    → IsValid s
    → Erased p s (elim o [ none ↦ s | some i ↦ remove_slot i s ])
unfolding queue
remove-Found p s (absent h) v = (v, sym (erase-none (queue s) p h))
remove-Found p s (at {j} k e lt there cut) v =
    let at_k : 0 + k ≡ k = omega arith in
    let after : 0 + suc k ≡ suc k = omega arith in
    let here : j ≡ k = e ∙ at_k in
    let same : queue (remove_slot j s) ≡ erase (queue s) p =
      ap (λ i. queue (remove_slot i s)) here ∙ queue-remove_slot k s lt ∙ sym (rw after at cut) in
    let counts = remove_slot-counts j s (omega arith) in
    (
      record {
        fits = omega (arith, counts.0, v.fits);
        last_in = counts.1;
        no_null = rw same (contains-erase (queue s) p 0 v.no_null);
        distinct = rw same (erase-AllDistinct (queue s) p v.distinct);
      },
      same,
    )

contains-empty : (p : ℕ) (s : Scheduler) → s.count ≡ 0 → contains (queue s) p ≡ false
unfolding queue slice contains
contains-empty p s e = ap (λ n. contains (slice s.slots 0 n) p) e

contains-nothing :
    (p : ℕ) (s : Scheduler)
    → IsValid s
    → (p == 0 || s.count == 0) ≡ true
    → contains (queue s) p ≡ false
contains-nothing p s v h = elim (Bool-cases (p == 0)) [
  | inl null ↦ let e : p ≡ 0 = (==_iff p 0).0 null in rw e v.no_null
  | inr other ↦ contains-empty p s (ground arith)
]

-- `Scheduler_UnregisterProcess` takes the process out of the queue, keeps the order of the others
-- and the invariant; a process that is not queued, or a null pointer, changes nothing.
pub unregister-erase :
    (p : ℕ) (s : Scheduler)
    → IsValid s
    → IsValid (unregister p s) × (queue (unregister p s) ≡ erase (queue s) p)
unfolding unregister
unregister-erase p s v = elim (Bool-cases (p == 0 || s.count == 0)) [
  | inl none_to_do ↦
      rw none_to_do (v, sym (erase-none (queue s) p (contains-nothing p s v none_to_do)))
  | inr go ↦ rw go (remove-Found p s (find_slot-Found s.slots p s.count 0) v)
]

-- The new pointer goes behind the others.
queue-add :
    (p : ℕ) (s : Scheduler)
    → queue (record s { slots = update s.slots s.count p; count = s.count + 1 }) ≡ queue s ++ p ∷ []
unfolding queue
queue-add p s =
    let next : s.count + 1 ≡ suc s.count = omega arith in
    let end : 0 + s.count ≡ s.count = omega arith in
    let here : (s.count == s.count) ≡ true = ground arith in
    ap (slice (update s.slots s.count p) 0) next
    ∙ slice-snoc (update s.slots s.count p) 0 s.count
    ∙ rw (end, here, slice-update s.slots 0 s.count s.count p (inr (omega arith)))

add-IsValid :
    (p : ℕ) (s : Scheduler)
    → (p == 0) ≡ false
    → contains (queue s) p ≡ false
    → IsValid s
    → s.count < max_processes
    → IsValid (record s { slots = update s.slots s.count p; count = s.count + 1 })
add-IsValid p s ne h v room = record {
  fits = omega arith;
  last_in = ground (arith, v.last_in);
  no_null = rw (queue-add p s, contains-snoc (queue s) p 0, ne) (ground (arith, v.no_null));
  distinct = rw (queue-add p s) (snoc-AllDistinct (queue s) p v.distinct h);
}

add-Found :
    (p : ℕ) (s : Scheduler) {o : Option ℕ}
    → (p == 0) ≡ false
    → Found s.slots p 0 s.count o
    → IsValid s
    → let s' : Scheduler = elim o [
      | some i ↦ s
      | none ↦
          if leb max_processes s.count
          then s
          else record s { slots = update s.slots s.count p; count = s.count + 1 }
    ] in
      IsValid s'
      × (queue s' ≡ (
          if contains (queue s) p || leb max_processes (length (queue s))
          then queue s
          else queue s ++ p ∷ []))
unfolding queue
add-Found p s ne (at k e lt there cut) v =
    let there' : contains (queue s) p ≡ true = there in rw there' (v, refl)
add-Found p s ne (absent h) v =
    let h' : contains (queue s) p ≡ false = h in
    let size : length (queue s) ≡ s.count = length-slice s.slots 0 s.count in
    rw (h', size)
      (elim (Bool-cases (leb max_processes s.count)) [
        | inl full ↦ rw full (v, refl)
        | inr room ↦ rw room (add-IsValid p s ne h v (ground arith), queue-add p s)
      ])

-- `Scheduler_RegisterProcess` puts the process behind the others and keeps the invariant; if it is
-- null or queued already, or the queue has 128 processes, nothing changes.
pub register_lem :
    (p : ℕ) (s : Scheduler)
    → IsValid s
    → IsValid (register p s)
      × (queue (register p s) ≡ (
          if p == 0 || contains (queue s) p || leb max_processes (length (queue s))
          then queue s
          else queue s ++ p ∷ []))
unfolding register
register_lem p s v = elim (Bool-cases (p == 0)) [
  | inl null ↦ rw null (v, refl)
  | inr go ↦ rw go (add-Found p s go (find_slot-Found s.slots p s.count 0) v)
]

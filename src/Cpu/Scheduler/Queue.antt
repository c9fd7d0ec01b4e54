-- ===== src/Cpu/Scheduler/Queue.antt =====
-- kernel/cpu/scheduler.c: the run queue is a list of distinct processes.
use valecium.Prelude.{
  ℕ, zero, suc, ◌+◌, ◌-◌, ◌≤◌, ◌<◌, ◌≡◌, refl, ap, ◌∙◌, Bool, true, false, ◌||◌, arith, ◌==◌,
  ==_iff, if◌then◌else◌, inl, inr, ◌⊎◌, Bool-cases, Option, none, some, ltb, update, List, [], ◌∷◌,
  ◌++◌, length,
}
use mathlib.Core.Path.{ap₂}
use valecium.Cpu.Scheduler.{Scheduler, max_processes, find_slot, shift_down, remove_slot}

-- The slots from `i` on, as many as `n`.
unfoldable pub slice : (ℕ → ℕ) → ℕ → ℕ → List ℕ
slice slots i zero = []
slice slots i (suc n) = slots i ∷ slice slots (i + 1) n

unfoldable pub queue : Scheduler → List ℕ
queue s = slice s.slots 0 s.count

unfoldable pub contains : List ℕ → ℕ → Bool
contains [] p = false
contains (q ∷ qs) p = q == p || contains qs p

-- Without the first occurrence.
unfoldable pub erase : List ℕ → ℕ → List ℕ
erase [] p = []
erase (q ∷ qs) p = if q == p then qs else q ∷ erase qs p

abbrev pub AllDistinct : List ℕ → Type 0
AllDistinct [] = Unit {0}
AllDistinct (q ∷ qs) = (contains qs q ≡ false) × AllDistinct qs

pub record IsValid (s : Scheduler) : Type 0 where
  pub fits : s.count ≤ max_processes
  pub last_in : (s.last < s.count) ⊎ (s.last ≡ 0)
  pub no_null : contains (queue s) 0 ≡ false
  pub distinct : AllDistinct (queue s)

-- Two ranges of slots that hold the same pointers.
pub slice-eq :
    (f g : ℕ → ℕ) (i j n : ℕ)
    → ((k : ℕ) → k < n → f (i + k) ≡ g (j + k))
    → slice f i n ≡ slice g j n
unfolding slice
slice-eq f g i j zero same = refl
slice-eq f g i j (suc n) same =
    let head : f i ≡ g j = first (same 0 (omega arith)) in
    rw (head, slice-eq f g (i + 1) (j + 1) n rest)
  where
    first : f (i + 0) ≡ g (j + 0) → f i ≡ g j
    first e = let a : i + 0 ≡ i = omega arith in let b : j + 0 ≡ j = omega arith in rw (a, b) at e

    rest : (k : ℕ) → k < n → f (i + 1 + k) ≡ g (j + 1 + k)
    rest k lt =
        let a : i + 1 + k ≡ i + suc k = omega arith in
        let b : j + 1 + k ≡ j + suc k = omega arith in rw (a, b) (same (suc k) (omega arith))

pub slice-append : (f : ℕ → ℕ) (i a b : ℕ) → slice f i (a + b) ≡ slice f i a ++ slice f (i + a) b
unfolding slice
slice-append f i zero b =
    let e : zero + b ≡ b = omega arith in let e' : i + zero ≡ i = omega arith in rw (e, e')
slice-append f i (suc a) b =
    let e : suc a + b ≡ suc (a + b) = omega arith in
    let e' : i + suc a ≡ i + 1 + a = omega arith in rw (e, e', slice-append f (i + 1) a b)

pub slice-snoc : (f : ℕ → ℕ) (i n : ℕ) → slice f i (suc n) ≡ slice f i n ++ f (i + n) ∷ []
unfolding slice
slice-snoc f i n = let e : suc n ≡ n + 1 = omega arith in ap (slice f i) e ∙ slice-append f i n 1

pub slice-update :
    (f : ℕ → ℕ) (i n j p : ℕ) → (j < i) ⊎ (i + n ≤ j) → slice (update f j p) i n ≡ slice f i n
slice-update f i n j p off = slice-eq (update f j p) f i i n (λ k lt. ground arith)

-- What a search finds: nothing if the list lacks the pointer, or its first place.
pub data Found (slots : ℕ → ℕ) (p i n : ℕ) : Option ℕ → Type 0 where
  absent : contains (slice slots i n) p ≡ false → Found slots p i n none
  at :
      {j : ℕ} (k : ℕ)
      → j ≡ i + k
      → k < n
      → contains (slice slots i n) p ≡ true
      → erase (slice slots i n) p ≡ slice slots i k ++ slice slots (i + suc k) (n - suc k)
      → Found slots p i n (some j)

Found-later :
    {slots : ℕ → ℕ} {p i n : ℕ} {o : Option ℕ}
    → (slots i == p) ≡ false
    → Found slots p (i + 1) n o
    → Found slots p i (suc n) o
unfolding slice contains erase
Found-later other (absent none_there) = absent (rw (other, none_there))
Found-later {slots} {i} {n} other (at k e lt there cut) =
    let a : i + 1 + suc k ≡ i + suc (suc k) = omega arith in
    let b : n - suc k ≡ suc n - suc (suc k) = omega arith in
    at (suc k) (omega arith) (omega arith) (rw (other, there))
      (rw (other, cut) (ap (λ l. slots i ∷ slice slots (i + 1) k ++ l) (cc (a, b))))

pub find_slot-Found : (slots : ℕ → ℕ) (p n i : ℕ) → Found slots p i n (find_slot slots p n i)
unfolding find_slot slice contains erase
find_slot-Found slots p zero i = absent refl
find_slot-Found slots p (suc n) i = elim (Bool-cases (slots i == p)) [
  | inl here ↦
      let a : i + 1 ≡ i + suc 0 = refl in
      let b : n ≡ suc n - 1 = omega arith in
      rw here (at 0 (omega arith) (omega arith) (rw here) (rw here (ap (slice slots (i + 1)) b)))
  | inr other ↦ rw other (Found-later other (find_slot-Found slots p n (i + 1)))
]

shift_down_lem :
    (n j : ℕ) (slots : ℕ → ℕ) (q : ℕ)
    → shift_down n j slots q
      ≡ (if ltb q j then slots q else if ltb q (j + n) then slots (q + 1) else slots q)
unfolding shift_down
shift_down_lem zero j slots q = ground arith
shift_down_lem (suc n) j slots q =
    ground (arith, shift_down_lem n (j + 1) (update slots j (slots (j + 1))) q)

-- Removing slot `k` takes one place out of the list.
pub queue-remove_slot :
    (k : ℕ) (s : Scheduler)
    → k < s.count
    → queue (remove_slot k s) ≡ slice s.slots 0 k ++ slice s.slots (suc k) (s.count - suc k)
unfolding queue remove_slot
queue-remove_slot k s lt =
    let r : ℕ = s.count - suc k in
    let gone : ℕ → ℕ = update (shift_down (s.count - 1 - k) k s.slots) (s.count - 1) 0 in
    let moved = shift_down_lem (s.count - 1 - k) k s.slots in
    let size : s.count - 1 ≡ k + r = omega arith in
    ap (slice gone 0) size
    ∙ slice-append gone 0 k r
    ∙ ap₂ ◌++◌ (slice-eq gone s.slots 0 0 k (λ x less. ground (arith, moved (0 + x))))
        (slice-eq gone s.slots (0 + k) (suc k) r (λ x less. ground (arith, moved (0 + k + x))))

pub contains-erase :
    (qs : List ℕ) (p q : ℕ) → contains qs q ≡ false → contains (erase qs p) q ≡ false
unfolding contains erase
contains-erase [] p q h = refl
contains-erase (x ∷ qs) p q h = ground (arith, contains-erase qs p q)

pub erase-AllDistinct : (qs : List ℕ) (p : ℕ) → AllDistinct qs → AllDistinct (erase qs p)
unfolding erase
erase-AllDistinct [] p d = d
erase-AllDistinct (x ∷ qs) p d = elim (Bool-cases (x == p)) [
  | inl here ↦ rw here d.1
  | inr other ↦ rw other (contains-erase qs p x d.0, erase-AllDistinct qs p d.1)
]

pub erase-none : (qs : List ℕ) (p : ℕ) → contains qs p ≡ false → erase qs p ≡ qs
unfolding contains erase
erase-none [] p h = refl
erase-none (x ∷ qs) p h = ground (arith, erase-none qs p)

pub contains-snoc : (qs : List ℕ) (p q : ℕ) → contains (qs ++ p ∷ []) q ≡ (contains qs q || p == q)
unfolding contains
contains-snoc [] p q = ground arith
contains-snoc (x ∷ qs) p q = ground (arith, contains-snoc qs p q)

pub snoc-AllDistinct :
    (qs : List ℕ) (p : ℕ) → AllDistinct qs → contains qs p ≡ false → AllDistinct (qs ++ p ∷ [])
unfolding contains
snoc-AllDistinct [] p d h = (refl, tt)
snoc-AllDistinct (x ∷ qs) p d h =
    (ground (arith, contains-snoc qs p x), snoc-AllDistinct qs p d.1 (ground arith))

pub length-slice : (slots : ℕ → ℕ) (i n : ℕ) → length (slice slots i n) ≡ n
unfolding slice
length-slice slots i zero = refl
length-slice slots i (suc n) = ap suc (length-slice slots (i + 1) n)

slot-absent :
    (f : ℕ → ℕ) (p i n j : ℕ)
    → contains (slice f i n) p ≡ false
    → i ≤ j
    → j < i + n
    → (f j == p) ≡ false
unfolding slice contains
slot-absent f p i zero j h lo hi = absurd (omega arith)
slot-absent f p i (suc n) j h lo hi = elim (Bool-cases (i == j)) [
  | inl here ↦ let e : i ≡ j = (==_iff i j).0 here in rw (← e) (ground arith)
  | inr other ↦ slot-absent f p (i + 1) n j (ground arith) (ground arith) (omega arith)
]

-- No slot in use is null.
pub slot-ne-null : {s : Scheduler} (j : ℕ) → IsValid s → j < s.count → (s.slots j == 0) ≡ false
unfolding queue
slot-ne-null {s} j v lt = slot-absent s.slots 0 0 s.count j v.no_null (omega arith) (omega arith)

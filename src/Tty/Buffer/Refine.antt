-- ===== src/Tty/Buffer/Refine.antt =====
-- kernel/drivers/tty/tty.c: the input buffer holds a queue of bytes.
use valecium.Prelude.{
  ℕ, zero, suc, ◌+◌, ◌-◌, ◌%◌, ◌≤◌, ◌<◌, ◌≡◌, refl, ap, ◌∙◌, true, false, arith, ◌==◌, none, some,
  leb, u32, update, List, [], ◌∷◌, length, ◌++◌,
}
use valecium.Tty.Buffer.{Buffer, input_size, init, push, pop, clear}

-- The bytes held from index `h` on, going round at the end of the storage.
unfoldable pub window : (ℕ → ℕ) → ℕ → ℕ → List ℕ
window cells h zero = []
window cells h (suc n) = cells h ∷ window cells ((h + 1) % input_size) n

unfoldable pub contents : Buffer → List ℕ
unfolding window
contents b = window b.cells b.head b.count

pub record IsRing (b : Buffer) : Type 0 where
  pub size : b.size ≡ input_size
  pub head : b.head < input_size
  pub count : b.count ≤ input_size
  pub tail : b.tail ≡ (b.head + b.count) % input_size

window-update :
    (cells : ℕ → ℕ) (x n h i : ℕ)
    → h < input_size
    → n < input_size
    → i ≡ (h + n) % input_size
    → window (update cells i x) h n ≡ window cells h n
unfolding window
window-update cells x zero h i hh hn e = refl
window-update cells x (suc n) h i hh hn e =
    let off : (i == h) ≡ false = ground arith in
    rw (
      off,
      window-update cells x n ((h + 1) % input_size) i (omega arith) (omega arith) (omega arith),
    )

window-snoc :
    (cells : ℕ → ℕ) (n h : ℕ)
    → h < input_size
    → window cells h (suc n) ≡ window cells h n ++ cells ((h + n) % input_size) ∷ []
unfolding window
window-snoc cells zero h hh = let at : (h + zero) % input_size ≡ h = omega arith in rw at
window-snoc cells (suc n) h hh =
    let at : ((h + 1) % input_size + n) % input_size ≡ (h + suc n) % input_size = omega arith in
    ap (λ l. cells h ∷ l) (window-snoc cells n ((h + 1) % input_size) (omega arith) ∙ rw at)

-- The length of the queue is the counter.
pub length-window : (cells : ℕ → ℕ) (h n : ℕ) → length (window cells h n) ≡ n
unfolding window
length-window cells h zero = refl
length-window cells h (suc n) = ap suc (length-window cells ((h + 1) % input_size) n)

pub init-contents :
    (storage : ℕ → ℕ) → IsRing (init storage input_size) × (contents (init storage input_size) ≡ [])
unfolding init contents
init-contents storage = (omega arith, refl)

pub clear-contents : {b : Buffer} → IsRing b → IsRing (clear b) × (contents (clear b) ≡ [])
unfolding clear contents
clear-contents r = (omega arith, refl)

pub length-contents : (b : Buffer) → length (contents b) ≡ b.count
unfolding contents
length-contents b = length-window b.cells b.head b.count

pub push-IsRing : (b : Buffer) (c : ℕ) → IsRing b → IsRing (push b c).1
unfolding push
push-IsRing b c r = ground arith

pub push_full : (b : Buffer) (c : ℕ) → IsRing b → b.count ≡ input_size → push b c ≡ (false, b)
unfolding push
push_full b c r full = ground arith

pub push_room :
    (b : Buffer) (c : ℕ)
    → IsRing b
    → b.count < input_size
    → ((push b c).0 ≡ true) × (contents (push b c).1 ≡ contents b ++ c ∷ [])
unfolding push contents
push_room b c r room =
    let at = window-snoc (update b.cells b.tail c) b.count b.head r.head in
    let old = window-update b.cells c b.count b.head b.tail r.head room r.tail in
    let next : u32 (b.count + 1) ≡ suc b.count = omega arith in
    let same : (b.tail == (b.head + b.count) % input_size) ≡ true = ground (arith, r.tail) in
    let test : leb b.size b.count ≡ false = ground (arith, r.size) in
    simp (test, next) (refl, at ∙ rw (old, same))

pub pop-IsRing : (b : Buffer) → IsRing b → IsRing (pop b).1
unfolding pop
pop-IsRing b r = ground arith

pub pop_empty : (b : Buffer) → b.count ≡ 0 → (pop b ≡ (none, b)) × (contents b ≡ [])
unfolding pop contents window
pop_empty b e = (ground arith, ap (window b.cells b.head) e)

window_of_pos :
    (cells : ℕ → ℕ) (h n : ℕ)
    → 0 < n
    → window cells h n ≡ cells h ∷ window cells ((h + 1) % input_size) (n - 1)
unfolding window
window_of_pos cells h zero lt = absurd (omega arith)
window_of_pos cells h (suc n) lt =
    let e : n ≡ suc n - 1 = omega arith in
    ap (λ k. cells h ∷ window cells ((h + 1) % input_size) k) e

pub pop-some :
    (b : Buffer)
    → IsRing b
    → 0 < b.count
    → (x : ℕ) × ((pop b).0 ≡ some x) × (contents b ≡ x ∷ contents (pop b).1)
unfolding pop contents
pop-some b r some_left = (
  b.cells b.head,
  ground arith,
  window_of_pos b.cells b.head b.count some_left ∙ simp (test, next),
)
  where
    test : (b.count == 0) ≡ false
    test = ground arith

    next : u32 (b.head + 1) % b.size ≡ (b.head + 1) % input_size
    next = rw r.size (omega (arith, r.head))

-- ===== src/Tty/Buffer.antt =====
-- kernel/drivers/tty/tty.c: the circular input buffer, `TTY_Buffer`. The storage that `data`
-- points at is a function of the index; a `char` is a number below 256.
pub mod Refine
use valecium.Prelude.{
  ℕ, zero, suc, ◌+◌, ◌-◌, ◌*◌, ◌/◌, ◌%◌, ◌^◌, ◌≤◌, ◌<◌, ◌≡◌, ◌≢◌, refl, sym, ap, ◌∙◌, Bool, true,
  false, not, ◌&&◌, ◌||◌, arith, ◌==◌, ==_iff, if◌then◌else◌, inl, inr, ◌⊎◌, Bool-cases,
  Option-cases, Option, none, some, ltb, leb, u32, update, List, [], ◌∷◌, ◌++◌, fun_ext,
}

pub record Buffer : Type 0 where
  pub cells : ℕ → ℕ
  pub size : ℕ
  pub head : ℕ
  pub tail : ℕ
  pub count : ℕ

-- `TTY_INPUT_SIZE`
abbrev pub input_size : ℕ
input_size = 4096

unfoldable pub init : (ℕ → ℕ) → ℕ → Buffer
init storage size = record { cells = storage; size = size; head = 0; tail = 0; count = 0 }

-- The Boolean is whether 0 is returned, and not -1.
unfoldable pub push : Buffer → ℕ → Bool × Buffer
push b c = if leb b.size b.count then (false, b) else (
  true,
  record b {
    cells = update b.cells b.tail c;
    tail = u32 (b.tail + 1) % b.size;
    count = u32 (b.count + 1);
  },
)

-- `none` is the -1 of an empty buffer.
unfoldable pub pop : Buffer → Option ℕ × Buffer
pop b =
    if b.count == 0
    then (none, b)
    else (some (b.cells b.head), record b { head = u32 (b.head + 1) % b.size; count = b.count - 1 })

unfoldable pub clear : Buffer → Buffer
clear b = record b { head = 0; tail = 0; count = 0 }

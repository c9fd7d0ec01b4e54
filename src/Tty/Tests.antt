-- ===== src/Tty/Tests.antt =====
-- kernel/drivers/tty/tty.c: runs on a terminal whose display records what is written, and the
-- theorems at it.
use valecium.Prelude.{
  Bool-cases, inl, inr, ==_iff, sym, ◌==◌, if◌then◌else◌, ℕ, ◌/◌, ◌%◌, ◌≡◌, refl, true, false,
  arith, some, List, [], ◌∷◌, length,
}
use mathlib.Core.Option
use valecium.Tty.Buffer
use valecium.Tty.Buffer.Refine.{contents}
use valecium.Tty.Device.{
  Backend, Tty, Console, sync_cursor, emit_to_display, write_char, write, echo, wake_readers,
  is_echo, is_canonical,
}
use valecium.Tty.Line.{push_input, flush_from, line_flush, line_erase_char, line_add_char}
use valecium.Tty.Input.{
  input_raw, input_canonical, input_translated, input_char, input_chars, input_arrow, input_noecho,
}
use valecium.Tty.Read.{has_pending_read, read_loop, read_pending, read, devfs_read, set_flags}
use valecium.Tty.Spec
use valecium.Tty.Refine.{view, Shows}
use valecium.Tty.Refine.Input.{input_chars-Shows}
use valecium.Tty.Refine.Read.{IsIdle}
use valecium.Tty.Refine.Waits.{arrived, with_end, read_typed}
use valecium.Tty.Table.{initialize, Devices, IsValid, destroying, create, destroy, Change-IsValid}

-- The display is the list of what was put on it, last first.
abbrev pub recorder : Backend (List ℕ)
recorder = record {
  has_put_char = true;
  has_get_cursor = true;
  put_char = λ c color out. c ∷ out;
  get_cursor = λ out. (length out % 80, length out / 80);
  wake = λ out. out;
}

-- `TTY_Create`, with the default flags.
abbrev pub fresh : Tty
unfolding Buffer.init
fresh = record {
  input = Buffer.init (λ i. 0) 4096;
  line_buf = λ i. 0;
  line_pos = 0;
  line_len = 0;
  line_ready = false;
  eof_pending = false;
  cursor = (0, 0);
  color = 7;
  flags = 0x3f;
  bytes_read = 0;
  bytes_written = 0;
}

abbrev pub console : Console (List ℕ)
console = record { tty = fresh; focused = true; world = [] }

-- "ab", a delete, "c" and the return key.
abbrev keys : List ℕ
keys = b'a' ∷ b'b' ∷ 0x7f ∷ b'c' ∷ 13 ∷ []

edited_line :
    Option.map (λ p. p.0) (read recorder true (keys ∷ []) console 10) ≡ some (b'a' ∷ b'c' ∷ 10 ∷ [])
unfolding Buffer.init read has_pending_read read_pending read_loop input_chars input_char
    input_translated input_canonical line_add_char line_flush line_erase_char flush_from push_input
    wake_readers echo write write_char emit_to_display sync_cursor is_echo is_canonical Buffer.push
    Buffer.pop
edited_line = refl

-- An arrow key passes the line by.
arrow_key : contents (input_arrow recorder console b'A').tty.input ≡ 0x1b ∷ b'[' ∷ b'A' ∷ []
unfolding Buffer.init input_arrow input_noecho push_input wake_readers Buffer.push contents
arrow_key = refl

pub fresh-IsIdle : IsIdle fresh
unfolding Buffer.init is_canonical
fresh-IsIdle = record {
  valid = record { ring = omega arith; short = omega arith; at_end = refl };
  canonical = refl;
  no_line = refl;
  no_input = refl;
  not_ready = refl;
  no_eof = refl;
}

input_chars-Shows_example :
    Shows (input_chars recorder console keys).tty (Spec.inputs (view fresh) keys)
input_chars-Shows_example = input_chars-Shows recorder console fresh-IsIdle.valid keys

abbrev typed : Tty
typed = (input_chars recorder console keys).tty

read_typed_example :
    Option.map (λ p. p.0) (read recorder true ((b'l' ∷ []) ∷ (b's' ∷ 10 ∷ []) ∷ []) console 80)
    ≡ some (b'l' ∷ b's' ∷ 10 ∷ [])
unfolding arrived with_end
read_typed_example =
    read_typed recorder console ((b'l' ∷ []) ∷ []) (b's' ∷ []) 80 fresh-IsIdle (refl, (refl, tt))
      (omega arith) (omega arith)

-- Terminals 0 and 3, of which 3 is active.
abbrev two_terminals : Devices
two_terminals = record {
  devices = λ i. if i == 0 then 100 else if i == 3 then 200 else 0;
  active = 200;
  ids = λ p. if p == 200 then 3 else 0;
}

two_terminals-IsValid : IsValid two_terminals
two_terminals-IsValid = record {
  own = λ i lt ne. elim (Bool-cases (i == 0)) [
    | inl first ↦ rw first (sym ((==_iff i 0).0 first))
    | inr other ↦ elim (Bool-cases (i == 3)) [
      | inl last ↦ rw (other, last) (sym ((==_iff i 3).0 last))
      | inr none_such ↦ absurd (ne (rw (other, none_such) refl))
    ]
  ];
  live = inr (omega arith, refl);
}

set_up : (initialize 500 (false, two_terminals)).1.active ≡ 500
unfolding initialize create
set_up = refl

-- The flags are 0 for a raw terminal, which is read without a line's end.
raw_read :
    Option.map
      (λ p. p.0)
      (devfs_read recorder true ((b'x' ∷ []) ∷ []) (record console { tty = set_flags 0 fresh }) 10)
    ≡ some (b'x' ∷ [])
unfolding devfs_read set_flags Buffer.init read has_pending_read read_pending read_loop input_chars
    input_char input_translated input_canonical wake_readers echo is_echo is_canonical Buffer.push
    Buffer.pop push_input input_raw
raw_read = refl

destroyed : ((destroy 200 two_terminals).active ≡ 100) × ((create 300 3 two_terminals).0 ≡ 200)
unfolding destroy create
destroyed = (refl, refl)

Change-IsValid_example : IsValid (destroy 200 two_terminals)
Change-IsValid_example =
    Change-IsValid {t = two_terminals} {t' = destroy 200 two_terminals}
      (destroying 200 (omega arith, refl)) two_terminals-IsValid

-- ===== src/Tty/Input.antt =====
-- kernel/drivers/tty/tty.c: what a character from the keyboard does (`TTY_InputChar`,
-- `TTY_InputEscape`, `TTY_InputArrow`).
use valecium.Prelude.{ℕ, true, ◌&&◌, ◌||◌, ◌==◌, if◌then◌else◌, List, [], ◌∷◌, has_bit}
use valecium.Tty.Device.{
  Backend, Console, is_canonical, echo, wake_readers, flag_isig, flag_icrnl, char_eof, char_intr,
  char_erase, char_kill, char_susp,
}
use valecium.Tty.Line.{push_input, line_flush, line_erase_char, line_kill, line_add_char}

module _ {S : Type 0} (backend : Backend S) where
  unfoldable pub input_noecho : Console S → ℕ → Console S
  input_noecho k c = wake_readers backend (push_input k c)

  unfoldable pub input_intr : Console S → Console S
  input_intr k =
      let k' = echo backend k (b'^' ∷ b'C' ∷ 10 ∷ []) in
      record k' { tty = record (k'.tty) { line_len = 0; line_pos = 0 } }

  unfoldable pub input_eof : Console S → Console S
  input_eof k =
      if k.tty.line_len == 0
      then wake_readers backend
          (record k { tty = record (k.tty) { eof_pending = true; line_ready = true } })
      else line_flush backend k

  unfoldable pub input_susp : Console S → Console S
  input_susp k = echo backend k (b'^' ∷ b'Z' ∷ 10 ∷ [])

  unfoldable pub input_canonical : Console S → ℕ → Console S
  input_canonical k c =
      if c == 8 || c == char_erase
      then line_erase_char backend k
      else if c == char_kill
      then line_kill backend k
      else if c == 10
      then line_flush backend (echo backend k (10 ∷ []))
      else line_add_char backend k c

  unfoldable pub input_raw : Console S → ℕ → Console S
  input_raw k c = echo backend (wake_readers backend (push_input k c)) (c ∷ [])

  -- `TTY_InputChar` behind the translation of a carriage return.
  unfoldable pub input_translated : Console S → ℕ → Console S
  input_translated k c =
      if has_bit k.tty.flags flag_isig && c == char_intr
      then input_intr k
      else if has_bit k.tty.flags flag_isig && c == char_eof
      then input_eof k
      else if has_bit k.tty.flags flag_isig && c == char_susp
      then input_susp k
      else if is_canonical k.tty
      then input_canonical k c
      else input_raw k c

  unfoldable pub input_char : Console S → ℕ → Console S
  input_char k c = input_translated k (if has_bit k.tty.flags flag_icrnl && c == 13 then 10 else c)

  unfoldable pub input_chars : Console S → List ℕ → Console S
  input_chars k [] = k
  input_chars k (c ∷ cs) = input_chars (input_char k c) cs

  unfoldable pub input_escape : Console S → List ℕ → Console S
  input_escape k [] = k
  input_escape k (c ∷ cs) = input_escape (input_noecho k c) cs

  unfoldable pub input_arrow : Console S → ℕ → Console S
  input_arrow k direction =
      if direction == b'A' || direction == b'B' || direction == b'C' || direction == b'D'
      then input_noecho (input_noecho (input_noecho k 0x1b) b'[') direction
      else k

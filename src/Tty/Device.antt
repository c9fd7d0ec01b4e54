-- ===== src/Tty/Device.antt =====
-- kernel/drivers/tty/tty.c and tty.h: a terminal device and its line discipline. The display
-- driver and the process table, which the terminal calls, are an interface, `Backend`; a
-- `Console` is a device with the state behind that interface. The pointer to the device is never
-- null here: every entry point returns at once if it is.
use valecium.Prelude.{ℕ, ◌+◌, Bool, ◌&&◌, ◌==◌, if◌then◌else◌, u32, List, [], ◌∷◌, has_bit}
use valecium.Tty.Buffer.{Buffer}

-- What the terminal calls: the operations of `g_HalVideoOperations` that are set, and
-- `Process_WakeByChannel` on the device. `S` is the state behind them; a cursor is two `int`s,
-- as their bit patterns.
pub record Backend (S : Type 0) : Type 0 where
  pub has_put_char : Bool
  pub has_get_cursor : Bool
  pub put_char : ℕ → ℕ → S → S
  pub get_cursor : S → ℕ × ℕ
  pub wake : S → S

-- `TTY_Device`, but for `id`, `active` and the text mode's size, which no operation here changes.
pub record Tty : Type 0 where
  pub input : Buffer
  pub line_buf : ℕ → ℕ
  pub line_pos : ℕ
  pub line_len : ℕ
  pub line_ready : Bool
  pub eof_pending : Bool
  pub cursor : ℕ × ℕ
  pub color : ℕ
  pub flags : ℕ
  pub bytes_read : ℕ
  pub bytes_written : ℕ

-- `focused` says whether the device is `s_ActiveTTY`.
pub record Console (S : Type 0) : Type 0 where
  pub tty : Tty
  pub focused : Bool
  pub world : S

abbrev pub line_size : ℕ
line_size = 256

-- The flags, and the characters with a meaning.
abbrev pub flag_echo : ℕ
flag_echo = 0x0001

abbrev pub flag_icanon : ℕ
flag_icanon = 0x0002

abbrev pub flag_isig : ℕ
flag_isig = 0x0004

abbrev pub flag_icrnl : ℕ
flag_icrnl = 0x0008

abbrev pub flag_onlcr : ℕ
flag_onlcr = 0x0010

abbrev pub flag_opost : ℕ
flag_opost = 0x0020

abbrev pub char_eof : ℕ
char_eof = 0x04

abbrev pub char_intr : ℕ
char_intr = 0x03

abbrev pub char_erase : ℕ
char_erase = 0x7f

abbrev pub char_kill : ℕ
char_kill = 0x15

abbrev pub char_susp : ℕ
char_susp = 0x1a

unfoldable pub is_canonical : Tty → Bool
is_canonical t = has_bit t.flags flag_icanon

unfoldable pub is_echo : Tty → Bool
is_echo t = has_bit t.flags flag_echo

module _ {S : Type 0} (backend : Backend S) where
  unfoldable pub sync_cursor : Console S → Console S
  sync_cursor k =
      if k.focused && backend.has_get_cursor
      then record k { tty = record (k.tty) { cursor = backend.get_cursor k.world } }
      else k

  unfoldable pub emit_to_display : Console S → ℕ → Console S
  emit_to_display k c =
      if k.focused && backend.has_put_char
      then sync_cursor (record k { world = backend.put_char c k.tty.color k.world })
      else k

  unfoldable pub write_char : Console S → ℕ → Console S
  write_char k c =
      let crlf = has_bit k.tty.flags flag_opost && has_bit k.tty.flags flag_onlcr && c == 10 in
      let k' = emit_to_display (if crlf then emit_to_display k 13 else k) c in
      record k' { tty = record (k'.tty) { bytes_written = u32 (k'.tty.bytes_written + 1) } }

  unfoldable pub write : Console S → List ℕ → Console S
  write k [] = k
  write k (c ∷ cs) = write (write_char k c) cs

  -- The characters echoed if the echo is on.
  unfoldable pub echo : Console S → List ℕ → Console S
  echo k cs = if is_echo k.tty then write k cs else k

  unfoldable pub wake_readers : Console S → Console S
  wake_readers k = record k { world = backend.wake k.world }

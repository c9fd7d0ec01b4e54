-- ===== src/Tty/Read.antt =====
-- kernel/drivers/tty/tty.c: `TTY_Read` and the flush of the input.
use valecium.Prelude.{
  ℕ, zero, suc, ◌+◌, Bool, true, false, ◌&&◌, ◌||◌, ◌==◌, if◌then◌else◌, Option, none, some, ltb,
  u32, List, [], ◌∷◌, length,
}
use valecium.Tty.Buffer
use valecium.Tty.Device.{Backend, Tty, Console, is_canonical, write}
use valecium.Tty.Input.{input_chars}

-- `tty_has_pending_read`: whether it returns 0.
unfoldable pub has_pending_read : Tty → Bool
has_pending_read t =
    if t.eof_pending && t.input.count == 0
    then true
    else if is_canonical t
    then t.line_ready || ltb 0 t.input.count
    else ltb 0 t.input.count

-- The loop that takes characters out of the buffer, with the room that is left.
unfoldable pub read_loop : ℕ → Tty → List ℕ × Tty
read_loop zero t = ([], t)
read_loop (suc room) t =
    let (got, rest) = Buffer.pop t.input in
    elim got [
      | none ↦ ([], t)
      | some c ↦
          let t' = record t { input = rest } in
          let (more, last) = read_loop room t' in
          if is_canonical t && c == 10 then (c ∷ [], t') else (c ∷ more, last)
    ]

-- `TTY_Read` once there is something to read.
unfoldable pub read_pending : Tty → ℕ → List ℕ × Tty
read_pending t count =
    if t.eof_pending && t.input.count == 0
    then ([], record t { eof_pending = false; line_ready = false })
    else let (bytes, t') = read_loop count t in
      (
        bytes,
        record t' {
          line_ready = if t'.input.count == 0 then false else t'.line_ready;
          bytes_read = u32 (t'.bytes_read + length bytes);
        },
      )

module _ {S : Type 0} (backend : Backend S) where
  -- `TTY_Read`. While nothing is pending it waits for interrupts; `arrivals` holds the characters
  -- that come in during each wait. `none`: it still waits when they are used up. `can_wait` says
  -- whether the operations for waiting are there.
  unfoldable pub read : Bool → List (List ℕ) → Console S → ℕ → Option (List ℕ × Console S)
  read can_wait [] k count =
      if count == 0
      then some ([], k)
      else if has_pending_read k.tty
      then (let (bytes, t) = read_pending k.tty count in some (bytes, record k { tty = t }))
      else if can_wait
      then none
      else some ([], k)
  read can_wait (cs ∷ arrivals) k count =
      let later = read can_wait arrivals (input_chars backend k cs) count in
      if count == 0
      then some ([], k)
      else if has_pending_read k.tty
      then (let (bytes, t) = read_pending k.tty count in some (bytes, record k { tty = t }))
      else if can_wait
      then later
      else some ([], k)

-- The case `TTY_IOCTL_FLUSH` of `TTY_DevfsIoctl`.
unfoldable pub ioctl_flush : Tty → Tty
ioctl_flush t = record t {
  input = Buffer.clear t.input;
  line_len = 0;
  line_pos = 0;
  line_ready = false;
}

unfoldable pub set_flags : ℕ → Tty → Tty
set_flags flags t = record t { flags = flags }

unfoldable pub get_flags : Tty → ℕ
get_flags t = t.flags

-- `TTY_DevfsWrite` on the terminal that is found.
unfoldable pub devfs_write : {S : Type 0} → Backend S → List ℕ → Console S → ℕ × Console S
devfs_write backend bytes k =
    if length bytes == 0 then (0, k) else (length bytes, write backend k bytes)

-- `TTY_DevfsRead` on the terminal that is found.
unfoldable pub devfs_read :
    {S : Type 0} → Backend S → Bool → List (List ℕ) → Console S → ℕ → Option (List ℕ × Console S)
devfs_read backend can_wait arrivals k size =
    if size == 0 then some ([], k) else read backend can_wait arrivals k size

-- ===== src/Tty/Line.antt =====
-- kernel/drivers/tty/tty.c: the line under edit, and its way into the input buffer.
use valecium.Prelude.{ℕ, zero, suc, ◌+◌, ◌-◌, true, ◌==◌, if◌then◌else◌, ltb, leb, update, [], ◌∷◌}
use valecium.Tty.Buffer
use valecium.Tty.Device.{Backend, Console, line_size, echo, wake_readers}

-- `buffer_push` with its result dropped.
unfoldable pub push_input : {S : Type 0} → Console S → ℕ → Console S
push_input k c = record k { tty = record (k.tty) { input = (Buffer.push k.tty.input c).1 } }

-- `for (i = 0; i < tty->line_len; i++)`, with the rounds that are left.
unfoldable pub flush_from : {S : Type 0} → ℕ → ℕ → Console S → Console S
flush_from zero i k = k
flush_from (suc n) i k = flush_from n (i + 1) (push_input k (k.tty.line_buf i))

module _ {S : Type 0} (backend : Backend S) where
  unfoldable pub line_flush : Console S → Console S
  line_flush k =
      let k' = push_input (flush_from k.tty.line_len 0 k) 10 in
      wake_readers backend
        (record k' { tty = record (k'.tty) { line_len = 0; line_pos = 0; line_ready = true } })

  unfoldable pub line_erase_char : Console S → Console S
  line_erase_char k =
      if k.tty.line_len == 0
      then k
      else let len = k.tty.line_len - 1 in
        echo backend
          (record k {
            tty = record (k.tty) {
              line_len = len;
              line_pos = if ltb len k.tty.line_pos then len else k.tty.line_pos;
            };
          })
          (8 ∷ 32 ∷ 8 ∷ [])

  -- `while (tty->line_len > 0)`, with as many rounds as the line has characters.
  unfoldable pub line_kill_loop : ℕ → Console S → Console S
  line_kill_loop zero k = k
  line_kill_loop (suc n) k =
      let rest = line_kill_loop n (line_erase_char k) in if ltb 0 k.tty.line_len then rest else k

  unfoldable pub line_kill : Console S → Console S
  line_kill k = line_kill_loop k.tty.line_len k

  unfoldable pub line_add_char : Console S → ℕ → Console S
  line_add_char k c =
      if leb (line_size - 1) k.tty.line_len
      then k
      else echo backend
          (record k {
            tty = record (k.tty) {
              line_buf = update k.tty.line_buf k.tty.line_len c;
              line_len = k.tty.line_len + 1;
              line_pos = k.tty.line_len + 1;
            };
          })
          (c ∷ [])

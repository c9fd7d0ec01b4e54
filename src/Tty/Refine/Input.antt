-- ===== src/Tty/Refine/Input.antt =====
-- kernel/drivers/tty/tty.c: `TTY_InputChar` implements `Tty.Spec`.
use valecium.Prelude.{
  ℕ, refl, ap, ◌∙◌, Bool, true, false, ◌&&◌, ◌||◌, arith, ◌==◌, if◌then◌else◌, inl, inr, Bool-cases,
  List, [], ◌∷◌, has_bit,
}
use valecium.Tty.Buffer.Refine.{contents}
use valecium.Tty.Device.{
  Backend, Console, char_erase, char_kill, char_intr, char_eof, char_susp, flag_isig, flag_icanon,
  flag_icrnl, echo, wake_readers, is_canonical,
}
use valecium.Tty.Line.{push_input, line_flush}
use valecium.Tty.Input.{
  input_intr, input_eof, input_susp, input_canonical, input_raw, input_translated, input_char,
  input_chars,
}
use valecium.Tty.Spec
use valecium.Tty.Spec.{Edit, enqueue, enqueue_all, drop_last}
use valecium.Tty.Refine.{
  prefix, view, IsValid, Shows, Shows-SameLine, push_input-Shows, echo-SameLine, IsValid-SameLine,
  view-SameLine,
}
use valecium.Tty.Refine.Line.{
  line_flush-Shows, line_add_char-Shows, line_erase_char-Shows, line_kill-Shows, length-prefix,
}

Shows-if :
    {S : Type 0} (b : Bool) (x y : Console S) {e f : Edit}
    → Shows x.tty e
    → Shows y.tty f
    → Shows (if b then x else y).tty (if b then e else f)
Shows-if true x y p q = p
Shows-if false x y p q = q

module _ {S : Type 0} (backend : Backend S) (k : Console S) (v : IsValid k.tty) where
  intr-Shows : Shows (input_intr backend k).tty (record (view k.tty) { line = [] })
  unfolding input_intr prefix
  intr-Shows =
      let same = echo-SameLine backend k (b'^' ∷ b'C' ∷ 10 ∷ []) in
      record {
        valid = record { ring = rw same.input v.ring; short = omega arith; at_end = refl };
        seen = cc (same.input, same.ready, same.eof, same.flags);
      }

  eof-Shows : Shows (input_eof backend k).tty (Spec.end_of_file (view k.tty))
  unfolding input_eof Spec.end_of_file wake_readers
  eof-Shows = elim (Bool-cases (k.tty.line_len == 0)) [
    | inl empty ↦
        rw (length-prefix k.tty.line_buf k.tty.line_len, empty)
          (record {
            valid = record { ring = v.ring; short = v.short; at_end = v.at_end };
            seen = refl;
          })
    | inr some_left ↦
        rw (length-prefix k.tty.line_buf k.tty.line_len, some_left) (line_flush-Shows backend k v)
  ]

  canonical-Shows :
      (c : ℕ) → Shows (input_canonical backend k c).tty (Spec.input_canonical (view k.tty) c)
  unfolding input_canonical Spec.input_canonical
  canonical-Shows c =
      let after = echo-SameLine backend k (10 ∷ []) in
      let shown = line_flush-Shows backend (echo backend k (10 ∷ [])) (IsValid-SameLine after v) in
      let flushed : Shows (line_flush backend (echo backend k (10 ∷ []))).tty
          (Spec.flush (view k.tty)) =
        record { valid = shown.valid; seen = shown.seen ∙ ap Spec.flush (view-SameLine after) } in
      Shows-if (c == 8 || c == char_erase) _ _ (line_erase_char-Shows backend k v) (
        Shows-if (c == char_kill) _ _ (line_kill-Shows backend k v)
          (Shows-if (c == 10) _ _ flushed (line_add_char-Shows backend k c v)))

  raw-Shows :
      (c : ℕ)
      → Shows
          (input_raw backend k c).tty
          (record (view k.tty) { queue = enqueue (contents k.tty.input) c })
  unfolding input_raw wake_readers
  raw-Shows c =
      Shows-SameLine (echo-SameLine backend (wake_readers backend (push_input k c)) (c ∷ []))
        (push_input-Shows k c v)

  translated-Shows :
      (c : ℕ) → Shows (input_translated backend k c).tty (Spec.input_translated (view k.tty) c)
  unfolding input_translated input_susp Spec.input_translated is_canonical
  translated-Shows c = Shows-if (has_bit k.tty.flags flag_isig && c == char_intr) _ _ intr-Shows (
      Shows-if (has_bit k.tty.flags flag_isig && c == char_eof) _ _ eof-Shows (
        Shows-if (has_bit k.tty.flags flag_isig && c == char_susp) _ _
          (Shows-SameLine (echo-SameLine backend k (b'^' ∷ b'Z' ∷ 10 ∷ []))
            (record { valid = v; seen = refl }))
          (Shows-if (has_bit k.tty.flags flag_icanon) _ _ (canonical-Shows c) (raw-Shows c))))

  -- One character from the keyboard, in any mode and whatever it is, does to the line, the queue
  -- and the flags of a valid device what the specification says, and leaves the device valid.
  pub input_char-Shows : (c : ℕ) → Shows (input_char backend k c).tty (Spec.input (view k.tty) c)
  unfolding input_char Spec.input
  input_char-Shows c =
      translated-Shows (if has_bit k.tty.flags flag_icrnl && c == 13 then 10 else c)

-- Any sequence of characters from the keyboard, in any mode, does to the line, the input queue and
-- the flags of a valid terminal what the specification on lists says, and leaves the terminal valid.
-- In the specification, as in the code, CTRL+W is a character like any other and does not erase a
-- word.
pub input_chars-Shows :
    {S : Type 0} (backend : Backend S) (k : Console S)
    → IsValid k.tty
    → (cs : List ℕ) → Shows (input_chars backend k cs).tty (Spec.inputs (view k.tty) cs)
unfolding input_chars Spec.inputs
input_chars-Shows backend k v [] = record { valid = v; seen = refl }
input_chars-Shows backend k v (c ∷ cs) =
    let once = input_char-Shows backend k v c in
    let rest = input_chars-Shows backend (input_char backend k c) once.valid cs in
    record { valid = rest.valid; seen = rest.seen ∙ ap (λ e. Spec.inputs e cs) once.seen }

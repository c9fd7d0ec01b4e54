-- ===== src/Tty/Refine.antt =====
-- kernel/drivers/tty/tty.c: the device and its line discipline implement `Tty.Spec`.
pub mod Line
pub mod Input
pub mod Read
pub mod Waits
use valecium.Prelude.{
  ℕ, zero, suc, ◌+◌, ◌-◌, ◌*◌, ◌/◌, ◌%◌, ◌^◌, ◌≤◌, ◌<◌, ◌≡◌, ◌≢◌, refl, sym, ap, ◌∙◌, Bool, true,
  false, not, ◌&&◌, ◌||◌, arith, ◌==◌, ==_iff, if◌then◌else◌, inl, inr, ◌⊎◌, Bool-cases,
  Option-cases, Option, none, some, ltb, leb, u32, update, List, [], ◌∷◌, ◌++◌, fun_ext, has_bit,
  length, length-append,
}
use native.Mathlib.Nat.{le_refl}
use mathlib.Core.Path.{subst}
use valecium.Tty.Buffer
use valecium.Tty.Buffer.{Buffer, input_size}
use valecium.Tty.Buffer.Refine.{
  IsRing, contents, push-IsRing, push_full, push_room, length-contents,
}
use valecium.Tty.Device.{
  Backend, Tty, Console, line_size, flag_opost, flag_onlcr, sync_cursor, emit_to_display,
  write_char, write, echo, wake_readers, is_echo, is_canonical,
}
use valecium.Tty.Line.{
  push_input, flush_from, line_flush, line_erase_char, line_kill_loop, line_kill, line_add_char,
}
use valecium.Tty.Input.{
  input_intr, input_eof, input_susp, input_canonical, input_raw, input_translated, input_char,
  input_chars,
}
use valecium.Tty.Spec
use valecium.Tty.Spec.{Edit, enqueue, enqueue_all, drop_last}

-- The first characters of the line buffer.
pub prefix : (ℕ → ℕ) → ℕ → List ℕ
prefix buf zero = []
prefix buf (suc n) = prefix buf n ++ buf n ∷ []

abbrev pub view : Tty → Edit
view t = record {
  line = prefix t.line_buf t.line_len;
  queue = contents t.input;
  ready = t.line_ready;
  eof = t.eof_pending;
  flags = t.flags;
}

-- The line fits its buffer, with the cursor at its end, and the input buffer is a ring.
pub record IsValid (t : Tty) : Type 0 where
  pub ring : IsRing t.input
  pub short : t.line_len < line_size
  pub at_end : t.line_pos ≡ t.line_len

-- The parts of a device that output leaves alone.
pub record SameLine (t u : Tty) : Type 0 where
  pub input : u.input ≡ t.input
  pub line_buf : u.line_buf ≡ t.line_buf
  pub line_pos : u.line_pos ≡ t.line_pos
  pub line_len : u.line_len ≡ t.line_len
  pub ready : u.line_ready ≡ t.line_ready
  pub eof : u.eof_pending ≡ t.eof_pending
  pub flags : u.flags ≡ t.flags

pub SameLine-refl : (t : Tty) → SameLine t t
SameLine-refl t = record {
  input = refl;
  line_buf = refl;
  line_pos = refl;
  line_len = refl;
  ready = refl;
  eof = refl;
  flags = refl;
}

pub SameLine-trans : {t u v : Tty} → SameLine t u → SameLine u v → SameLine t v
SameLine-trans p q = record {
  input = q.input ∙ p.input;
  line_buf = q.line_buf ∙ p.line_buf;
  line_pos = q.line_pos ∙ p.line_pos;
  line_len = q.line_len ∙ p.line_len;
  ready = q.ready ∙ p.ready;
  eof = q.eof ∙ p.eof;
  flags = q.flags ∙ p.flags;
}

pub view-SameLine : {t u : Tty} → SameLine t u → view u ≡ view t
view-SameLine same = cc

pub IsValid-SameLine : {t u : Tty} → SameLine t u → IsValid t → IsValid u
IsValid-SameLine {t} {u} same v = record {
  ring = rw same.input v.ring;
  short = omega (arith, same.line_len, v.short);
  at_end = omega (arith, same.line_len, same.line_pos, v.at_end);
}

module _ {S : Type 0} (backend : Backend S) where
  emit-SameLine : (k : Console S) (c : ℕ) → SameLine k.tty (emit_to_display backend k c).tty
  unfolding emit_to_display sync_cursor
  emit-SameLine k c = ground arith

  crlf-SameLine :
      (b : Bool) (k : Console S) (c : ℕ)
      → SameLine k.tty
          (emit_to_display backend (if b then emit_to_display backend k 13 else k) c).tty
  crlf-SameLine true k c =
      SameLine-trans (emit-SameLine k 13) (emit-SameLine (emit_to_display backend k 13) c)
  crlf-SameLine false k c = emit-SameLine k c

  write_char-SameLine : (k : Console S) (c : ℕ) → SameLine k.tty (write_char backend k c).tty
  unfolding write_char
  write_char-SameLine k c =
      let crlf = has_bit k.tty.flags flag_opost && has_bit k.tty.flags flag_onlcr && c == 10 in
      let same = crlf-SameLine crlf k c in
      record {
        input = same.input;
        line_buf = same.line_buf;
        line_pos = same.line_pos;
        line_len = same.line_len;
        ready = same.ready;
        eof = same.eof;
        flags = same.flags;
      }

  write-SameLine : (k : Console S) (cs : List ℕ) → SameLine k.tty (write backend k cs).tty
  unfolding write
  write-SameLine k [] = SameLine-refl k.tty
  write-SameLine k (c ∷ cs) =
      SameLine-trans (write_char-SameLine k c) (write-SameLine (write_char backend k c) cs)

  pub echo-SameLine : (k : Console S) (cs : List ℕ) → SameLine k.tty (echo backend k cs).tty
  unfolding echo
  echo-SameLine k cs = elim (Bool-cases (is_echo k.tty)) [
    | inl on ↦ rw on (write-SameLine k cs)
    | inr off ↦ rw off (SameLine-refl k.tty)
  ]

-- The device is valid and shows what the specification says.
pub record Shows (t : Tty) (e : Edit) : Type 0 where
  pub valid : IsValid t
  pub seen : view t ≡ e

pub Shows-SameLine : {t u : Tty} {e : Edit} → SameLine t u → Shows t e → Shows u e
Shows-SameLine same shows = record {
  valid = IsValid-SameLine same shows.valid;
  seen = view-SameLine same ∙ shows.seen;
}

pub contents-push :
    (b : Buffer) (c : ℕ) → IsRing b → contents (Buffer.push b c).1 ≡ enqueue (contents b) c
unfolding enqueue
contents-push b c r = elim (Bool-cases (ltb b.count input_size)) [
  | inl room ↦ rw (length-contents b, room) (push_room b c r (ground arith)).1
  | inr full ↦
      rw (length-contents b, full)
        (ap (λ p. contents p.1) (push_full b c r (ground (arith, r.count))))
]

pub push_input-Shows :
    {S : Type 0} (k : Console S) (c : ℕ)
    → IsValid k.tty
    → Shows (push_input k c).tty (record (view k.tty) { queue = enqueue (contents k.tty.input) c })
unfolding push_input
push_input-Shows k c v = record {
  valid = record { ring = push-IsRing k.tty.input c v.ring; short = v.short; at_end = v.at_end };
  seen = rw (contents-push k.tty.input c v.ring);
}

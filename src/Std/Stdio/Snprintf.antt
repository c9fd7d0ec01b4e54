-- ===== src/Std/Stdio/Snprintf.antt =====
-- kernel/std/stdio.c: `vsnprintf`. The bytes from the buffer on are a function of the distance from
-- its start; `buf_size` and the result are words of 32 bits.
pub mod Items
pub mod Numbers
pub mod Written
pub mod Texts
pub mod Shown
use valecium.Prelude.{
  ℕ, zero, suc, ◌+◌, ◌-◌, ◌*◌, ◌/◌, ◌%◌, ◌^◌, ◌≤◌, ◌<◌, ◌≡◌, ◌≢◌, refl, sym, ap, ◌∙◌, Bool, true,
  false, not, ◌&&◌, ◌||◌, arith, ◌==◌, ==_iff, if◌then◌else◌, inl, inr, ◌⊎◌, Bool-cases,
  Option-cases, Option, none, some, ltb, leb, u8, u32, update, List, [], ◌∷◌, ◌++◌, fun_ext,
  has_bit, length, length-append, get_or, take, drop, replicate, map, bit_and, bit_or, passes,
  passes→true, length-map, length-replicate,
}
use valecium.Std.Stdio.{hex_char, sign_extend}
use mathlib.Core.List.{reverse}

pub record Output : Type 0 where
  pub buffer : ℕ → ℕ
  pub out_idx : ℕ
  pub would_have : ℕ

-- EMIT_CH
unfoldable pub emit : ℕ → ℕ → Output → Output
emit buf_size c o =
    if ltb (o.out_idx + 1) buf_size
    then record o {
      buffer = update o.buffer o.out_idx c;
      out_idx = o.out_idx + 1;
      would_have = u32 (o.would_have + 1);
    }
    else record o { would_have = u32 (o.would_have + 1) }

-- EMIT_STR, and the loop that emits the digits.
unfoldable pub emit_all : ℕ → List ℕ → Output → Output
emit_all buf_size [] o = o
emit_all buf_size (c ∷ cs) o = emit_all buf_size cs (emit buf_size c o)

-- The loop that fills `tmp`, with `room` characters left in it.
unfoldable pub fill : (ℕ → ℕ) → ℕ → ℕ → ℕ → List ℕ
fill digit radix zero val = []
fill digit radix (suc room) val =
    let rest = fill digit radix room (val / radix) in
    if ltb 0 val then digit (val % radix) ∷ rest else []

abbrev pub tmp_size : ℕ
tmp_size = 32

unfoldable pub tmp_digits : (ℕ → ℕ) → ℕ → ℕ → List ℕ
tmp_digits digit radix val = if val == 0 then 48 ∷ [] else fill digit radix tmp_size val

unfoldable pub emit_number : ℕ → (ℕ → ℕ) → ℕ → ℕ → Output → Output
emit_number buf_size digit radix val o = emit_all buf_size (reverse (tmp_digits digit radix val)) o

abbrev pub decimal_char : ℕ → ℕ
decimal_char d = 48 + d

-- "0123456789ABCDEF"
abbrev pub upper_char : ℕ → ℕ
upper_char d = if ltb d 10 then 48 + d else 55 + d

-- "(null)"
abbrev pub null_chars : List ℕ
null_chars = 40 ∷ 110 ∷ 117 ∷ 108 ∷ 108 ∷ 41 ∷ []

unfoldable pub emit_signed : ℕ → ℕ → Output → Output
emit_signed buf_size val o =
    if leb (2 ^ 63) val
    then emit_number buf_size decimal_char 10 (2 ^ 64 - val) (emit buf_size 45 o)
    else emit_number buf_size decimal_char 10 val o

module _ (args : ℕ → ℕ) (strings : ℕ → List ℕ) (buf_size : ℕ) where
  -- A specifier, `%` included, with the next argument; the argument behind is returned.
  unfoldable pub directive : ℕ → ℕ → Output → ℕ × Output
  directive s next o =
      if s == 37
      then (next, emit buf_size 37 o)
      else if s == 99
      then (next + 1, emit buf_size (u8 (args next)) o)
      else if s == 115
      then (
        next + 1,
        emit_all buf_size (if args next == 0 then null_chars else strings (args next)) o,
      )
      else if s == 100 || s == 105
      then (next + 1, emit_signed buf_size (sign_extend (args next)) o)
      else if s == 117
      then (next + 1, emit_number buf_size decimal_char 10 (args next) o)
      else if s == 120 || s == 88 || s == 112
      then (
        next + 2,
        emit_number buf_size (if s == 88 then upper_char else hex_char) 16
            (args next + 2 ^ 32 * args (next + 1)) o,
      )
      else if s == 111
      then (next + 1, emit_number buf_size decimal_char 8 (args next) o)
      else (next, emit buf_size s (emit buf_size 37 o))

  -- The loop over the format; a `%` at its end stops it.
  unfoldable pub format_loop : List ℕ → ℕ → Output → Output
  format_loop [] next o = o
  format_loop (c ∷ []) next o = if c == 37 then o else emit buf_size c o
  format_loop (c ∷ s ∷ fmt) next o = elim (c == 37) [
    | false ↦ format_loop (s ∷ fmt) next (emit buf_size c o)
    | true ↦ let (next', o') = directive s next o in format_loop fmt next' o'
  ]

  unfoldable pub terminate : Output → ℕ → ℕ
  terminate o =
      if ltb 0 buf_size
      then (if ltb o.out_idx buf_size
          then update o.buffer o.out_idx 0
          else update o.buffer (buf_size - 1) 0)
      else o.buffer

  -- The result and what then is in the buffer.
  unfoldable pub vsnprintf : List ℕ → (ℕ → ℕ) → ℕ × (ℕ → ℕ)
  vsnprintf format buffer =
      let o = format_loop format 0 (record { buffer = buffer; out_idx = 0; would_have = 0 }) in
      (o.would_have, terminate o)

-- ===== src/Std/Stdio.antt =====
-- kernel/std/stdio.c: `printf`, `logfmt` and `print_buffer`. What is printed is the list of the
-- characters that `putc` is called with, in this order; `putc` passes each of them to the debug port
-- and to the terminal. A format is the list of its characters before the terminating 0. The
-- arguments are the words of 32 bits on the stack, as on i686: `va_arg` takes the next one, and two
-- for a `long long`, the low one first. `strings` gives the characters of the string at an address.
-- A number of 64 bits is given by its bits, and so is the `int` of the width, which wraps around when
-- it overflows.
pub mod Digits
pub mod Pieces
pub mod Fields
pub mod Printf
pub mod Log
pub mod Snprintf
pub mod Tests
use valecium.Prelude.{
  ℕ, zero, suc, ◌+◌, ◌-◌, ◌*◌, ◌/◌, ◌%◌, ◌^◌, ◌≤◌, ◌<◌, ◌≡◌, ◌≢◌, refl, sym, ap, ◌∙◌, Bool, true,
  false, not, ◌&&◌, ◌||◌, arith, ◌==◌, ==_iff, if◌then◌else◌, inl, inr, ◌⊎◌, Bool-cases,
  Option-cases, Option, none, some, ltb, leb, u8, u32, update, List, [], ◌∷◌, ◌++◌, fun_ext,
  has_bit, length, length-append, get_or, take, drop, replicate, map, bit_and, bit_or, passes,
  passes→true, length-map, length-replicate,
}
use mathlib.Core.List.{reverse}

-- `g_HexChars`, on a digit below 16.
abbrev pub hex_char : ℕ → ℕ
hex_char d = if ltb d 10 then 48 + d else 87 + d

-- The first loop of `printf_unsigned`: the digits, the last one first, with `room` characters left
-- in the buffer.
unfoldable pub convert : ℕ → ℕ → ℕ → List ℕ
convert radix zero number = []
convert radix (suc room) number =
    let rest = convert radix room (number / radix) in
    hex_char (number % radix) ∷ (if number / radix == 0 then [] else rest)

abbrev pub buffer_room : ℕ
buffer_room = 31

unfoldable pub printf_unsigned : ℕ → ℕ → ℕ → Bool → List ℕ
printf_unsigned number radix width zero_pad =
    let limited = if ltb 31 width then 31 else width in
    let digits = convert radix buffer_room number in
    reverse (digits ++ replicate (limited - length digits) (if zero_pad then 48 else 32))

unfoldable pub printf_signed : ℕ → ℕ → ℕ → Bool → List ℕ
printf_signed number radix width zero_pad =
    if leb (2 ^ 63) number
    then 45
      ∷ printf_unsigned (2 ^ 64 - number) radix (if ltb 0 width then width - 1 else 0) zero_pad
    else printf_unsigned number radix width zero_pad

-- PRINTF_STATE_..., then PRINTF_LENGTH_...
pub data State : Type 0 where
  normal length_mark length_short length_long spec : State

pub data Size : Type 0 where
  default_size short_short short long long_long : Size

-- The variables of `printf_vimpl`; `next` is the next argument.
pub record Printing : Type 0 where
  pub state : State
  pub size : Size
  pub radix : ℕ
  pub sign : Bool
  pub number : Bool
  pub width : ℕ
  pub zero_pad : Bool
  pub next : ℕ
  pub out : List ℕ

abbrev pub start : ℕ → List ℕ → Printing
start next out = record {
  state = normal;
  size = default_size;
  radix = 10;
  sign = false;
  number = false;
  width = 0;
  zero_pad = false;
  next = next;
  out = out;
}

-- Conversion of an `int` to `long long`.
abbrev pub sign_extend : ℕ → ℕ
sign_extend w = if ltb w (2 ^ 31) then w else w + (2 ^ 64 - 2 ^ 32)

-- The width that an `int` asks for: none if it is negative.
abbrev pub asked_width : ℕ → ℕ
asked_width w = if ltb w (2 ^ 31) then w else 0

module _ (args : ℕ → ℕ) where
  -- A number of the given size from the arguments, extended with its sign or with zeros, and how
  -- many words it takes.
  unfoldable pub take_number : Size → Bool → ℕ → ℕ × ℕ
  take_number long_long sign next = (args next + 2 ^ 32 * args (next + 1), 2)
  take_number default_size sign next = (if sign then sign_extend (args next) else args next, 1)
  take_number short_short sign next = (if sign then sign_extend (args next) else args next, 1)
  take_number short sign next = (if sign then sign_extend (args next) else args next, 1)
  take_number long sign next = (if sign then sign_extend (args next) else args next, 1)

  unfoldable pub print_number : Printing → Printing
  print_number st =
      let (n, words) = take_number st.size st.sign st.next in
      if not st.number then st else record st {
        next = st.next + words;
        out =
            st.out
            ++ (if st.sign
                then printf_signed n st.radix (asked_width st.width) st.zero_pad
                else printf_unsigned n st.radix (asked_width st.width) st.zero_pad);
      }

module _ (args : ℕ → ℕ) (strings : ℕ → List ℕ) where
  unfoldable pub select_spec : ℕ → Printing → Printing
  select_spec c st =
      if c == 99
      then record st { out = st.out ++ (u8 (args st.next) ∷ []); next = st.next + 1 }
      else if c == 115
      then record st { out = st.out ++ strings (args st.next); next = st.next + 1 }
      else if c == 37
      then record st { out = st.out ++ (37 ∷ []) }
      else if c == 100 || c == 105
      then record st { radix = 10; sign = true; number = true }
      else if c == 117
      then record st { radix = 10; sign = false; number = true }
      else if c == 88 || c == 120 || c == 112
      then record st { radix = 16; sign = false; number = true }
      else if c == 111
      then record st { radix = 8; sign = false; number = true }
      else st

  unfoldable pub spec_step : ℕ → Printing → Printing
  spec_step c st =
      let printed = print_number args (select_spec c st) in start printed.next printed.out

  unfoldable pub length_step : ℕ → Printing → Printing
  length_step c st =
      if c == 48
      then record st { zero_pad = true }
      else if leb 49 c && leb c 57
      then record st { width = u32 (st.width * 10 + (c - 48)) }
      else if c == 104
      then record st { size = short; state = length_short }
      else if c == 108
      then record st { size = long; state = length_long }
      else spec_step c st

  unfoldable pub step_in : State → ℕ → Printing → Printing
  step_in normal c st =
      if c == 37
      then record st { state = length_mark; width = 0; zero_pad = false }
      else record st { out = st.out ++ (c ∷ []) }
  step_in length_mark c st = length_step c st
  step_in length_short c st =
      if c == 104 then record st { size = short_short; state = spec } else spec_step c st
  step_in length_long c st =
      if c == 108 then record st { size = long_long; state = spec } else spec_step c st
  step_in spec c st = spec_step c st

  unfoldable pub printf_loop : List ℕ → Printing → Printing
  printf_loop [] st = st
  printf_loop (c ∷ fmt) st = printf_loop fmt (step_in st.state c st)

  -- What is printed.
  unfoldable pub printf_vimpl : List ℕ → List ℕ
  printf_vimpl fmt = (printf_loop fmt (start 0 [])).out

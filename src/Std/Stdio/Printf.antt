-- ===== src/Std/Stdio/Printf.antt =====
-- kernel/std/stdio.c: `printf` shows the pieces of its format.
use valecium.Prelude.{
  ℕ, ◌+◌, ◌-◌, ◌*◌, ◌^◌, ◌<◌, u32, ◌≤◌, ◌≡◌, refl, sym, ap, ◌∙◌, Bool, true, false, ◌&&◌, arith,
  ◌==◌, if◌then◌else◌, leb, List, [], ◌∷◌, ◌++◌, map,
}
use valecium.Std.Stdio.{
  asked_width, State, length_mark, length_short, length_long, spec, Size, default_size, short_short,
  short, long, long_long, Printing, start, print_number, select_spec, spec_step, length_step,
  step_in, printf_loop, printf_vimpl,
}
use valecium.Std.Stdio.Pieces.{
  Conversion, decimal, integer, unsigned, lower_hex, upper_hex, pointer, octal, Field, Piece,
  literal, percent, character, string, field, conversion_char, size_chars, spelled, format_of,
  WidthDigits, IsPiece, ArePieces, width_from, base, is_signed, words, number_text, shown,
  all_shown,
}
use mathlib.Core.List.{append_assoc, append-nil}
use valecium.Std.Stdio.Fields.{taken_lem, text_lem}

printf_loop-append :
    (args : ℕ → ℕ) (strings : ℕ → List ℕ) (xs ys : List ℕ) (st : Printing)
    → printf_loop args strings (xs ++ ys) st
      ≡ printf_loop args strings ys (printf_loop args strings xs st)
unfolding printf_loop
printf_loop-append args strings [] ys st = refl
printf_loop-append args strings (x ∷ xs) ys st =
    printf_loop-append args strings xs ys (step_in args strings st.state x st)

-- In a field, behind its width.
abbrev marked : Bool → ℕ → ℕ → List ℕ → Printing
marked zeros width next out = record (start next out) {
  state = length_mark;
  zero_pad = zeros;
  width = width;
}

module _ (args : ℕ → ℕ) (strings : ℕ → List ℕ) where
  digit_step :
      (d : ℕ) (st : Printing)
      → 1 ≤ d
      → d ≤ 9
      → length_step args strings (48 + d) st ≡ record st { width = u32 (st.width * 10 + d) }
  unfolding length_step
  digit_step d st low high =
      let other : (48 + d == 48) ≡ false = ground arith in
      let digit : (leb 49 (48 + d) && leb (48 + d) 57) ≡ true = ground arith in
      let same : 48 + d - 48 ≡ d = omega arith in rw (other, digit, same) refl

  width_grows : (ds : List ℕ) (w : ℕ) → w ≤ width_from w ds
  unfolding width_from
  width_grows [] w = omega arith
  width_grows (d ∷ ds) w = omega (arith, width_grows ds (w * 10 + d))

  width_lem :
      (ds : List ℕ) (zeros : Bool) (w next : ℕ) (out : List ℕ)
      → WidthDigits ds
      → width_from w ds < 2 ^ 31
      → printf_loop args strings (map (λ d. 48 + d) ds) (marked zeros w next out)
        ≡ marked zeros (width_from w ds) next out
  unfolding printf_loop step_in width_from
  width_lem [] zeros w next out good fits = refl
  width_lem (d ∷ ds) zeros w next out good fits =
      let more = width_grows ds (w * 10 + d) in
      let small : u32 (w * 10 + d) ≡ w * 10 + d = omega arith in
      ap (printf_loop args strings (map (λ d'. 48 + d') ds)) (
        digit_step d (marked zeros w next out) good.0 good.1
        ∙ ap (λ v. marked zeros v next out) small)
      ∙ width_lem ds zeros (w * 10 + d) next out good.2 fits

  -- A number in a field is printed.
  printed_lem :
      (size : Size) (c : Conversion) (zeros : Bool) (width next : ℕ) (out : List ℕ) (state : State)
      → width < 2 ^ 31
      → print_number args (record {
        state = state;
        size = size;
        radix = base c;
        sign = is_signed c;
        number = true;
        width = width;
        zero_pad = zeros;
        next = next;
        out = out;
      })
        ≡ record {
          state = state;
          size = size;
          radix = base c;
          sign = is_signed c;
          number = true;
          width = width;
          zero_pad = zeros;
          next = next + words size;
          out = out ++ number_text args size c zeros width next;
        }
  unfolding print_number
  printed_lem size c zeros width next out state fits =
      let asked : asked_width width ≡ width = ground arith in
      rw (asked, taken_lem args size (is_signed c) next, text_lem args size c zeros width next) refl

  selected :
      (c : Conversion) (st : Printing)
      → select_spec args strings (conversion_char c) st
        ≡ record st { radix = base c; sign = is_signed c; number = true }
  unfolding select_spec conversion_char base is_signed
  selected decimal st = refl
  selected integer st = refl
  selected unsigned st = refl
  selected lower_hex st = refl
  selected upper_hex st = refl
  selected pointer st = refl
  selected octal st = refl

  -- A field's conversion, behind its width and its size.
  spec_lem :
      (size : Size) (c : Conversion) (zeros : Bool) (width next : ℕ) (out : List ℕ) (state : State)
      → width < 2 ^ 31
      → spec_step args strings
          (conversion_char c)
          (record (start next out) { state = state; size = size; width = width; zero_pad = zeros })
        ≡ start (next + words size) (out ++ number_text args size c zeros width next)
  unfolding spec_step
  spec_lem size c zeros width next out state fits =
      let st : Printing = record (start next out) {
        state = state;
        size = size;
        width = width;
        zero_pad = zeros;
      } in
      ap (λ (p : Printing). start (print_number args p).next (print_number args p).out)
        (selected c st)
      ∙ ap (λ (p : Printing). start p.next p.out)
          (printed_lem size c zeros width next out state fits)

  length_step-conversion_char :
      (c : Conversion) (st : Printing)
      → length_step args strings (conversion_char c) st
        ≡ spec_step args strings (conversion_char c) st
  unfolding length_step conversion_char
  length_step-conversion_char decimal st = refl
  length_step-conversion_char integer st = refl
  length_step-conversion_char unsigned st = refl
  length_step-conversion_char lower_hex st = refl
  length_step-conversion_char upper_hex st = refl
  length_step-conversion_char pointer st = refl
  length_step-conversion_char octal st = refl

  conversion_char_other :
      (c : Conversion) → ((conversion_char c == 104) ≡ false) × ((conversion_char c == 108) ≡ false)
  unfolding conversion_char
  conversion_char_other decimal = (refl, refl)
  conversion_char_other integer = (refl, refl)
  conversion_char_other unsigned = (refl, refl)
  conversion_char_other lower_hex = (refl, refl)
  conversion_char_other upper_hex = (refl, refl)
  conversion_char_other pointer = (refl, refl)
  conversion_char_other octal = (refl, refl)

  conversion_lem :
      (size : Size) (c : Conversion) (zeros : Bool) (width next : ℕ) (out : List ℕ)
      → width < 2 ^ 31
      → printf_loop args strings
          (size_chars size ++ (conversion_char c ∷ []))
          (marked zeros width next out)
        ≡ start (next + words size) (out ++ number_text args size c zeros width next)
  unfolding printf_loop step_in length_step size_chars
  conversion_lem default_size c zeros width next out fits =
      length_step-conversion_char c (marked zeros width next out)
      ∙ spec_lem default_size c zeros width next out length_mark fits
  conversion_lem short_short c zeros width next out fits =
      spec_lem short_short c zeros width next out spec fits
  conversion_lem short c zeros width next out fits =
      rw ((conversion_char_other c).0) (spec_lem short c zeros width next out length_short fits)
  conversion_lem long c zeros width next out fits =
      rw ((conversion_char_other c).1) (spec_lem long c zeros width next out length_long fits)
  conversion_lem long_long c zeros width next out fits =
      spec_lem long_long c zeros width next out spec fits

  -- A field that may ask for zeros, from the `%` on.
  zeros_lem :
      (zeros : Bool) (next : ℕ) (out : List ℕ)
      → printf_loop args strings (37 ∷ (if zeros then 48 ∷ [] else [])) (start next out)
        ≡ marked zeros 0 next out
  unfolding printf_loop step_in length_step
  zeros_lem true next out = refl
  zeros_lem false next out = refl

  field_lem :
      (f : Field) (next : ℕ) (out : List ℕ)
      → WidthDigits f.digits
      → width_from 0 f.digits < 2 ^ 31
      → printf_loop args strings (spelled (field f)) (start next out)
        ≡ start
            (next + words f.size)
            (out ++ number_text args f.size f.conversion f.zeros (width_from 0 f.digits) next)
  unfolding spelled
  field_lem f next out good fits =
      let digits = map (λ d. 48 + d) f.digits in
      let behind = size_chars f.size ++ (conversion_char f.conversion ∷ []) in
      printf_loop-append args strings (37 ∷ (if f.zeros then 48 ∷ [] else [])) (digits ++ behind)
        (start next out)
      ∙ ap (printf_loop args strings (digits ++ behind)) (zeros_lem f.zeros next out)
      ∙ printf_loop-append args strings digits behind (marked f.zeros 0 next out)
      ∙ ap (printf_loop args strings behind) (width_lem f.digits f.zeros 0 next out good fits)
      ∙ conversion_lem f.size f.conversion f.zeros (width_from 0 f.digits) next out fits

  piece_lem :
      (p : Piece) (next : ℕ) (out : List ℕ)
      → IsPiece p
      → printf_loop args strings (spelled p) (start next out)
        ≡ start (shown args strings p next).1 (out ++ (shown args strings p next).0)
  unfolding printf_loop step_in length_step spec_step select_spec print_number spelled shown
  piece_lem (literal c) next out good =
      let other : (c == 37) ≡ false = ground arith in rw other refl
  piece_lem percent next out good = refl
  piece_lem character next out good = refl
  piece_lem string next out good = refl
  piece_lem (field f) next out good = field_lem f next out good.0 good.1

  pieces_lem :
      (ps : List Piece) (next : ℕ) (out : List ℕ)
      → ArePieces ps
      → (printf_loop args strings (format_of ps) (start next out)).out
        ≡ out ++ all_shown args strings ps next
  unfolding format_of all_shown
  pieces_lem [] next out good = unfold printf_loop in sym (append-nil out)
  pieces_lem (p ∷ ps) next out good =
      let (text, next') = shown args strings p next in
      ap (λ (st : Printing). st.out)
        (printf_loop-append args strings (spelled p) (format_of ps) (start next out)
          ∙ ap (printf_loop args strings (format_of ps)) (piece_lem p next out good.0))
      ∙ pieces_lem ps next' (out ++ text) good.1
      ∙ append_assoc out text (all_shown args strings ps next')

  -- `printf` with a format that spells literal characters, %%, %c, %s and numbers with their zeros,
  -- widths of the digits 1 to 9 that are below 2^31, sizes and conversions prints what these pieces
  -- show one after the other, each with the arguments that those before it leave.
  pub printf_vimpl-all_shown :
      (ps : List Piece)
      → ArePieces ps
      → printf_vimpl args strings (format_of ps) ≡ all_shown args strings ps 0
  unfolding printf_vimpl
  printf_vimpl-all_shown ps good = pieces_lem ps 0 [] good

-- ===== src/Std/Stdio/Tests.antt =====
-- kernel/std/stdio.c: concrete runs, and the theorems at concrete inputs.
use valecium.Prelude.{
  ℕ, ◌+◌, ◌-◌, ◌^◌, ◌<◌, ◌≡◌, refl, true, false, arith, ◌==◌, if◌then◌else◌, some, u32, List, [],
  ◌∷◌, ◌++◌, length,
}
use valecium.Std.Stdio.{
  convert, printf_unsigned, printf_signed, take_number, print_number, select_spec, spec_step,
  length_step, step_in, printf_loop, printf_vimpl, long_long,
}
use valecium.Std.Stdio.Pieces.{
  width_from, Piece, literal, field, string, decimal, upper_hex, lower_hex, format_of, all_shown,
}
use valecium.Std.Stdio.Digits.{value, printf_unsigned-value}
use valecium.Std.Stdio.Printf.{printf_vimpl-all_shown}
use valecium.Std.Stdio.Log.{
  log_emitters, disable_info, logfmt_impl, prefix_of, reset_chars, logfmt_impl-prefix_of,
  print_buffer, hex_bytes, print_buffer-hex_bytes,
}
use valecium.Std.Stdio.Snprintf.{vsnprintf}
use valecium.Std.Stdio.Snprintf.Items.{Item, number, items_format, item_chars, text_of}
use valecium.Std.Stdio.Snprintf.Shown.{stored, vsnprintf-text_of}
use valecium.Std.Stdio.Snprintf.Items

-- Two words, and one string.
abbrev two_args : ℕ → ℕ
two_args i = if i == 0 then 2 ^ 32 - 5 else if i == 1 then 255 else 0

abbrev hello : ℕ → List ℕ
hello a = 104 ∷ 105 ∷ []

abbrev some_pieces : List Piece
some_pieces =
    literal 61
    ∷ field (record {
      zeros = true;
      digits = 4 ∷ [];
      size = valecium.Std.Stdio.short;
      conversion = decimal;
    })
    ∷ field (record {
      zeros = false;
      digits = 6 ∷ [];
      size = valecium.Std.Stdio.default_size;
      conversion = upper_hex;
    })
    ∷ string
    ∷ []

-- printf("=%04hd%6X%s", -5, 255, "hi")
printf_pieces :
    printf_vimpl two_args hello (61 ∷ 37 ∷ 48 ∷ 52 ∷ 104 ∷ 100 ∷ 37 ∷ 54 ∷ 88 ∷ 37 ∷ 115 ∷ [])
    ≡ 61 ∷ 45 ∷ 48 ∷ 48 ∷ 53 ∷ 32 ∷ 32 ∷ 32 ∷ 32 ∷ 102 ∷ 102 ∷ 104 ∷ 105 ∷ []
unfolding printf_vimpl printf_loop step_in length_step spec_step select_spec print_number
    take_number printf_signed printf_unsigned convert
printf_pieces = refl

-- printf("%10u", 255): the 0 of the width asks for zeros, and the width is 1.
printf_width_ten : printf_vimpl (λ i. 255) hello (37 ∷ 49 ∷ 48 ∷ 117 ∷ []) ≡ 50 ∷ 53 ∷ 53 ∷ []
unfolding printf_vimpl printf_loop step_in length_step spec_step select_spec print_number
    take_number printf_signed printf_unsigned convert
printf_width_ten = refl

printf_vimpl-all_shown_example :
    printf_vimpl two_args hello (format_of some_pieces) ≡ all_shown two_args hello some_pieces 0
unfolding width_from
printf_vimpl-all_shown_example = printf_vimpl-all_shown two_args hello some_pieces (
  (λ e. absurd (omega arith)),
  (
    ((omega arith, omega arith, tt), omega arith),
    (((omega arith, omega arith, tt), omega arith), (tt, tt)),
  ),
)

printf_unsigned-value_example : value 16 (printf_unsigned 48879 16 8 true) ≡ 48879
printf_unsigned-value_example =
    printf_unsigned-value 48879 16 8 (omega arith) (omega arith) (omega arith)

logfmt_impl-prefix_of_example :
    logfmt_impl two_args hello (disable_info log_emitters) 1 (111 ∷ 107 ∷ [])
    ≡ prefix_of 1 ++ (printf_vimpl two_args hello (111 ∷ 107 ∷ []) ++ reset_chars)
logfmt_impl-prefix_of_example = logfmt_impl-prefix_of two_args hello true 1 (111 ∷ 107 ∷ [])

print_buffer-hex_bytes_example :
    print_buffer 3 (58 ∷ []) (λ i. 10 + i) 2
    ≡ some (58 ∷ (hex_bytes (λ i. 10 + i) 2 0 ++ (10 ∷ [])))
print_buffer-hex_bytes_example = print_buffer-hex_bytes 3 (58 ∷ []) (λ i. 10 + i) 2 (omega arith)

abbrev two_items : List Item
two_items = number decimal ∷ Items.Item.literal 44 ∷ number lower_hex ∷ []

two_args_fit : (i : ℕ) → two_args i < 2 ^ 32
two_args_fit i = ground arith

-- snprintf(buffer, 4, "%d,%x", -5, 255): %x takes 64 bits.
vsnprintf-text_of_example :
    ((vsnprintf two_args hello 4 (items_format two_items) (λ i. 90)).0
      ≡ u32 (length (text_of two_args hello two_items 0)))
    × ((i : ℕ)
        → (vsnprintf two_args hello 4 (items_format two_items) (λ i. 90)).1 i
          ≡ stored 4 (λ i. 90) (text_of two_args hello two_items 0) i)
vsnprintf-text_of_example =
    vsnprintf-text_of two_args hello two_args_fit 4 (λ i. 90) two_items
      (tt, ((λ e. absurd (omega arith)), (tt, tt)))

-- ===== src/Std/Stdio/Fields.antt =====
-- kernel/std/stdio.c: the numbers that `printf` prints, as they stand in their fields.
use valecium.Prelude.{
  ℕ, zero, suc, ◌+◌, ◌-◌, ◌*◌, ◌^◌, ◌≡◌, refl, ◌∙◌, Bool, true, false, ◌&&◌, arith, if◌then◌else◌,
  inl, inr, Bool-cases, ltb, leb, List, [], ◌∷◌, ◌++◌, length, length-append, replicate,
}
use valecium.Std.Stdio.{
  Size, default_size, short_short, short, long, long_long, convert, buffer_room, printf_unsigned,
  printf_signed, sign_extend, take_number,
}
use valecium.Std.Stdio.Pieces.{
  Conversion, numeral, padded, base, is_signed, words, argument, number_text,
}
use mathlib.Core.List.{reverse, reverse-cons, reverse-append}

replicate_snoc : (k c : ℕ) → replicate k c ++ (c ∷ []) ≡ c ∷ replicate k c
replicate_snoc zero c = refl
replicate_snoc (suc k) c = rw (replicate_snoc k c)

reverse-replicate : (k c : ℕ) → reverse (replicate k c) ≡ replicate k c
reverse-replicate zero c = refl
reverse-replicate (suc k) c =
    rw (reverse-cons c (replicate k c), reverse-replicate k c) (replicate_snoc k c)

length-reverse : (xs : List ℕ) → length (reverse xs) ≡ length xs
length-reverse [] = refl
length-reverse (x ∷ xs) =
    rw (reverse-cons x xs, length-append (reverse xs) (x ∷ []), length-reverse xs) (omega arith)

printf_unsigned-padded :
    (n radix width : ℕ) (zeros : Bool)
    → printf_unsigned n radix width zeros ≡ padded zeros width (numeral radix n)
unfolding printf_unsigned padded
printf_unsigned-padded n radix width zeros =
    let digits = convert radix buffer_room n in
    let limited : ℕ = if ltb 31 width then 31 else width in
    let pad : ℕ = if zeros then 48 else 32 in
    rw (
      length-reverse digits,
      reverse-append digits (replicate (limited - length digits) pad),
      reverse-replicate (limited - length digits) pad,
    )

module _ (args : ℕ → ℕ) where
  negative_width : (width : ℕ) → (if ltb 0 width then width - 1 else 0) ≡ width - 1
  negative_width width = ground arith

  signed_wide :
      (n : ℕ) (radix width : ℕ) (zeros : Bool)
      → printf_signed n radix width zeros ≡ (
          if leb (2 ^ 64) (2 * n)
          then 45 ∷ padded zeros (width - 1) (numeral radix (2 ^ 64 - n))
          else padded zeros width (numeral radix n))
  unfolding printf_signed
  signed_wide n radix width zeros =
      let same : leb (2 ^ 63) n ≡ leb (2 ^ 64) (2 * n) = ground arith in
      rw (
        same,
        negative_width width,
        printf_unsigned-padded (2 ^ 64 - n) radix (width - 1) zeros,
        printf_unsigned-padded n radix width zeros,
      )

  signed_word :
      (w : ℕ) (radix width : ℕ) (zeros : Bool)
      → printf_signed (sign_extend w) radix width zeros ≡ (
          if leb (2 ^ 32) (2 * w)
          then 45 ∷ padded zeros (width - 1) (numeral radix (2 ^ 32 - w))
          else padded zeros width (numeral radix w))
  signed_word w radix width zeros = elim (Bool-cases (ltb w (2 ^ 31))) [
    | inl small ↦
        let positive : leb (2 ^ 32) (2 * w) ≡ false = ground arith in
        let positive' : leb (2 ^ 64) (2 * w) ≡ false = ground arith in
        rw (small, positive) (signed_wide w radix width zeros ∙ rw positive' refl)
    | inr big ↦
        let negative : leb (2 ^ 32) (2 * w) ≡ true = ground arith in
        let negative' : leb (2 ^ 64) (2 * (w + (2 ^ 64 - 2 ^ 32))) ≡ true = ground arith in
        let same : 2 ^ 64 - (w + (2 ^ 64 - 2 ^ 32)) ≡ 2 ^ 32 - w = omega arith in
        rw (big, negative)
          (signed_wide (w + (2 ^ 64 - 2 ^ 32)) radix width zeros ∙ rw (negative', same) refl)
  ]

  argument_one : (next : ℕ) → argument args 1 next ≡ args next
  unfolding argument
  argument_one next = omega arith

  argument_two : (next : ℕ) → argument args 2 next ≡ args next + 2 ^ 32 * args (next + 1)
  unfolding argument
  argument_two next = omega arith

  pub taken_lem :
      (size : Size) (sign : Bool) (next : ℕ) → (take_number args size sign next).1 ≡ words size
  unfolding take_number words
  taken_lem default_size sign next = refl
  taken_lem short_short sign next = refl
  taken_lem short sign next = refl
  taken_lem long sign next = refl
  taken_lem long_long sign next = refl

  word_text :
      (sign : Bool) (w radix width : ℕ) (zeros : Bool)
      → (if sign
          then printf_signed (if sign then sign_extend w else w) radix width zeros
          else printf_unsigned (if sign then sign_extend w else w) radix width zeros)
        ≡ (if sign && leb (2 ^ 32) (2 * w)
            then 45 ∷ padded zeros (width - 1) (numeral radix (2 ^ 32 - w))
            else padded zeros width (numeral radix w))
  word_text true w radix width zeros = signed_word w radix width zeros
  word_text false w radix width zeros = printf_unsigned-padded w radix width zeros

  wide_text :
      (sign : Bool) (n radix width : ℕ) (zeros : Bool)
      → (if sign then printf_signed n radix width zeros else printf_unsigned n radix width zeros)
        ≡ (if sign && leb (2 ^ 64) (2 * n)
            then 45 ∷ padded zeros (width - 1) (numeral radix (2 ^ 64 - n))
            else padded zeros width (numeral radix n))
  wide_text true n radix width zeros = signed_wide n radix width zeros
  wide_text false n radix width zeros = printf_unsigned-padded n radix width zeros

  pub text_lem :
      (size : Size) (c : Conversion) (zeros : Bool) (width next : ℕ)
      → (if is_signed c
          then printf_signed (take_number args size (is_signed c) next).0 (base c) width zeros
          else printf_unsigned (take_number args size (is_signed c) next).0 (base c) width zeros)
        ≡ number_text args size c zeros width next
  unfolding take_number number_text words
  text_lem default_size c zeros width next =
      rw (argument_one next) (word_text (is_signed c) (args next) (base c) width zeros)
  text_lem short_short c zeros width next =
      rw (argument_one next) (word_text (is_signed c) (args next) (base c) width zeros)
  text_lem short c zeros width next =
      rw (argument_one next) (word_text (is_signed c) (args next) (base c) width zeros)
  text_lem long c zeros width next =
      rw (argument_one next) (word_text (is_signed c) (args next) (base c) width zeros)
  text_lem long_long c zeros width next =
      rw (argument_two next)
        (wide_text (is_signed c) (args next + 2 ^ 32 * args (next + 1)) (base c) width zeros)

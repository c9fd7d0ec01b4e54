-- ===== src/Std/Stdio/Snprintf/Texts.antt =====
-- kernel/std/stdio.c: the numbers that `vsnprintf` shows.
use valecium.Prelude.{
  ℕ, ◌+◌, ◌-◌, ◌*◌, ◌^◌, ◌≡◌, refl, Bool, false, arith, if◌then◌else◌, inl, inr, Bool-cases, leb,
  List, ◌∷◌, length, map,
}
use valecium.Std.Stdio.Pieces.{
  Conversion, decimal, integer, unsigned, lower_hex, upper_hex, pointer, octal, words, number_text,
  argument, numeral, padded, base, is_signed,
}
use valecium.Std.Stdio.Snprintf.Items.{number_size, upper, letters}

padded_zero : (zeros : Bool) (digits : List ℕ) → padded zeros 0 digits ≡ digits
unfolding padded
padded_zero zeros digits = let gone : 0 - length digits ≡ 0 = omega arith in rw gone refl

pub upper_nought : upper 48 ≡ 48
unfolding upper
upper_nought = refl

module _ (args : ℕ → ℕ) where
  abbrev pub text_at : Conversion → ℕ → List ℕ
  text_at c next = map (letters c) (number_text args (number_size c) c false 0 next)

  word_lem : (next : ℕ) → argument args 1 next ≡ args next
  unfolding argument
  word_lem next = omega arith

  wide_lem : (next : ℕ) → argument args 2 next ≡ args next + 2 ^ 32 * args (next + 1)
  unfolding argument
  wide_lem next = omega arith

  pub unsigned_text : (next : ℕ) → text_at unsigned next ≡ map (λ c. c) (numeral 10 (args next))
  unfolding number_text is_signed letters number_size words base
  unsigned_text next = rw (word_lem next, padded_zero false (numeral 10 (args next))) refl

  pub octal_text : (next : ℕ) → text_at octal next ≡ map (λ c. c) (numeral 8 (args next))
  unfolding number_text is_signed letters number_size words base
  octal_text next = rw (word_lem next, padded_zero false (numeral 8 (args next))) refl

  pub signed_text :
      (next : ℕ)
      → text_at decimal next ≡ (
          if leb (2 ^ 32) (2 * args next)
          then 45 ∷ map (λ c. c) (numeral 10 (2 ^ 32 - args next))
          else map (λ c. c) (numeral 10 (args next)))
  unfolding number_text is_signed letters number_size words base
  signed_text next = elim (Bool-cases (leb (2 ^ 32) (2 * args next))) [
    | inl negative ↦
        rw (word_lem next, negative, padded_zero false (numeral 10 (2 ^ 32 - args next))) refl
    | inr positive ↦ rw (word_lem next, positive, padded_zero false (numeral 10 (args next))) refl
  ]

  pub hex_text :
      (next : ℕ)
      → text_at lower_hex next ≡ map (λ c. c) (numeral 16 (args next + 2 ^ 32 * args (next + 1)))
  unfolding number_text is_signed letters number_size words base
  hex_text next =
      rw (wide_lem next, padded_zero false (numeral 16 (args next + 2 ^ 32 * args (next + 1)))) refl

  pub upper_text :
      (next : ℕ)
      → text_at upper_hex next ≡ map upper (numeral 16 (args next + 2 ^ 32 * args (next + 1)))
  unfolding number_text is_signed letters number_size words base
  upper_text next =
      rw (wide_lem next, padded_zero false (numeral 16 (args next + 2 ^ 32 * args (next + 1)))) refl

  pub integer_text : (next : ℕ) → text_at integer next ≡ text_at decimal next
  unfolding number_text is_signed letters number_size words base
  integer_text next = refl

  pub pointer_text : (next : ℕ) → text_at pointer next ≡ text_at lower_hex next
  unfolding number_text is_signed letters number_size words base
  pointer_text next = refl

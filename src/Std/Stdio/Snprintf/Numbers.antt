-- ===== src/Std/Stdio/Snprintf/Numbers.antt =====
-- kernel/std/stdio.c: `vsnprintf` has the digits of a number as `printf` has them.
use valecium.Prelude.{
  ℕ, zero, suc, ◌/◌, ◌%◌, ◌^◌, ◌≤◌, ◌<◌, ◌≡◌, refl, sym, ap, true, false, arith, ◌==◌, inl, inr,
  Bool-cases, ltb, List, [], ◌∷◌, map,
}
use valecium.Std.Stdio.{hex_char, convert, buffer_room}
use valecium.Std.Stdio.Digits.{fewer_digits}
use valecium.Std.Stdio.Pieces.{numeral}
use valecium.Std.Stdio.Snprintf.{fill, tmp_size, tmp_digits, decimal_char, upper_char}
use valecium.Std.Stdio.Snprintf.Items.{upper}
use mathlib.Core.List.{reverse, reverse-cons, map-append}
use native.Mathlib.Nat.{mod-lt, pow-zero, zero-div, zero-mod}

map-reverse : (f : ℕ → ℕ) (xs : List ℕ) → map f (reverse xs) ≡ reverse (map f xs)
map-reverse f [] = refl
map-reverse f (x ∷ xs) = rw (
  reverse-cons x xs,
  reverse-cons (f x) (map f xs),
  map-append f (reverse xs) (x ∷ []),
  map-reverse f xs,
)

-- One more character of room changes nothing for a number that fits.
convert_room :
    (radix room n : ℕ)
    → 2 ≤ radix
    → n < radix ^ suc room
    → convert radix (suc (suc room)) n ≡ convert radix (suc room) n
unfolding convert
convert_room radix zero n low fits =
    let small : n / radix < 1 = rw (pow-zero radix) at (fewer_digits radix zero n low fits) in
    let last : (n / radix == 0) ≡ true = ground arith in rw last refl
convert_room radix (suc room) n low fits = elim (Bool-cases (n / radix == 0)) [
  | inl last ↦ rw last refl
  | inr more ↦
      let rest =
        convert_room radix room (n / radix) low (fewer_digits radix (suc room) n low fits) in
      rw more (ap (◌∷◌ (hex_char (n % radix))) rest)
]

fill_zero : (digit : ℕ → ℕ) (radix room n : ℕ) → n ≡ 0 → fill digit radix room n ≡ []
unfolding fill
fill_zero digit radix zero n gone = refl
fill_zero digit radix (suc room) n gone = let stop : ltb 0 n ≡ false = ground arith in rw stop refl

convert_zero : (radix room : ℕ) → 2 ≤ radix → convert radix (suc room) 0 ≡ 48 ∷ []
unfolding convert
convert_zero radix room low =
    let last : 0 / radix ≡ 0 = zero-div radix in
    let digit : 0 % radix ≡ 0 = zero-mod radix in rw (last, digit) refl

-- The digits of the two loops, if the digit characters agree up to a change `f`.
fill-convert :
    (digit f : ℕ → ℕ) (radix room n : ℕ)
    → 2 ≤ radix
    → ((d : ℕ) → d < radix → digit d ≡ f (hex_char d))
    → 0 < n
    → fill digit radix room n ≡ map f (convert radix room n)
unfolding fill convert
fill-convert digit f radix zero n low same positive = refl
fill-convert digit f radix (suc room) n low same positive =
    let going : ltb 0 n ≡ true = ground arith in
    let here = same (n % radix) (mod-lt n (omega arith)) in
    elim (Bool-cases (n / radix == 0)) [
      | inl last ↦
          let gone = fill_zero digit radix room (n / radix) (ground arith) in
          rw (going, last, here, gone) refl
      | inr more ↦
          let rest = fill-convert digit f radix room (n / radix) low same (ground arith) in
          rw (going, more, here, rest) refl
    ]

-- The digits that `vsnprintf` emits.
pub tmp_digits-numeral :
    (digit f : ℕ → ℕ) (radix n : ℕ)
    → 2 ≤ radix
    → ((d : ℕ) → d < radix → digit d ≡ f (hex_char d))
    → f 48 ≡ 48
    → n < radix ^ 31
    → reverse (tmp_digits digit radix n) ≡ map f (numeral radix n)
unfolding tmp_digits
tmp_digits-numeral digit f radix n low same keeps fits = elim (Bool-cases (n == 0)) [
  | inl nought ↦ let gone : n ≡ 0 = ground arith in rw (gone, convert_zero radix 30 low, keeps) refl
  | inr more ↦
      let filled = fill-convert digit f radix tmp_size n low same (ground arith) in
      rw (more, filled, convert_room radix 30 n low fits)
        (sym (map-reverse f (convert radix buffer_room n)))
]

pub decimal_lem : (d : ℕ) → d < 10 → decimal_char d ≡ hex_char d
decimal_lem d small = ground arith

pub upper_lem : (d : ℕ) → d < 16 → upper_char d ≡ upper (hex_char d)
unfolding upper
upper_lem d small = ground arith

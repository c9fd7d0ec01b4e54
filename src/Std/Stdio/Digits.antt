-- ===== src/Std/Stdio/Digits.antt =====
-- kernel/std/stdio.c: the digits that are printed read back as the number.
use valecium.Prelude.{
  ℕ, zero, suc, ◌+◌, ◌-◌, ◌*◌, ◌/◌, ◌%◌, ◌^◌, ◌≤◌, ◌<◌, ◌≡◌, refl, ◌∙◌, true, arith, ◌==◌,
  if◌then◌else◌, inl, inr, Bool-cases, ltb, List, [], ◌∷◌, ◌++◌, length, replicate,
}
use valecium.Std.Stdio.{hex_char, convert, buffer_room, printf_unsigned}
use mathlib.Core.List.{reverse, reverse-cons}
use native.Mathlib.Nat.{div-add-mod, mod-lt, div-lt_iff_lt-mul, pow-zero, pow-suc}

-- The value of a digit.
unfoldable pub char_value : ℕ → ℕ
char_value c = if ltb c 58 then c - 48 else if ltb c 71 then c - 55 else c - 87

-- The number that digits spell, the first one first.
unfoldable pub value_from : ℕ → ℕ → List ℕ → ℕ
value_from radix acc [] = acc
value_from radix acc (c ∷ cs) = value_from radix (acc * radix + char_value c) cs

abbrev pub value : ℕ → List ℕ → ℕ
value radix cs = value_from radix 0 cs

-- The number of digits with the last one first.
unfoldable pub reversed_value : ℕ → List ℕ → ℕ
reversed_value radix [] = 0
reversed_value radix (c ∷ cs) = char_value c + radix * reversed_value radix cs

value_from-append :
    (radix acc : ℕ) (cs ds : List ℕ)
    → value_from radix acc (cs ++ ds) ≡ value_from radix (value_from radix acc cs) ds
unfolding value_from
value_from-append radix acc [] ds = refl
value_from-append radix acc (c ∷ cs) ds = value_from-append radix (acc * radix + char_value c) cs ds

pub value-reverse : (radix : ℕ) (cs : List ℕ) → value radix (reverse cs) ≡ reversed_value radix cs
unfolding value_from reversed_value
value-reverse radix [] = refl
value-reverse radix (c ∷ cs) =
    rw (reverse-cons c cs, value_from-append radix 0 (reverse cs) (c ∷ []), value-reverse radix cs)
      (omega arith)

-- Zeros in front of a number.
reversed_value-zeros :
    (radix k : ℕ) (cs : List ℕ)
    → reversed_value radix (cs ++ replicate k 48) ≡ reversed_value radix cs
unfolding reversed_value char_value
reversed_value-zeros radix zero [] = refl
reversed_value-zeros radix (suc k) [] = rw (reversed_value-zeros radix k []) (omega arith)
reversed_value-zeros radix k (c ∷ cs) = rw (reversed_value-zeros radix k cs)

char_value-hex_char : (d : ℕ) → d < 16 → char_value (hex_char d) ≡ d
unfolding char_value
char_value-hex_char d small = ground arith

-- A number below `radix ^ (room + 1)` without its last digit.
pub fewer_digits : (radix room n : ℕ) → 2 ≤ radix → n < radix ^ suc room → n / radix < radix ^ room
fewer_digits radix room n base fits =
    (div-lt_iff_lt-mul {k = radix} (omega arith)).1 (omega (arith, pow-suc radix room))

last_digit : (radix n : ℕ) → 2 ≤ radix → radix ≤ 16 → char_value (hex_char (n % radix)) ≡ n % radix
last_digit radix n low high =
    let small : n % radix < radix = mod-lt n (omega arith) in
    char_value-hex_char (n % radix) (omega arith)

pub reversed_value-convert :
    (radix room n : ℕ)
    → 2 ≤ radix
    → radix ≤ 16
    → n < radix ^ suc room
    → reversed_value radix (convert radix (suc room) n) ≡ n
unfolding convert reversed_value
reversed_value-convert radix zero n low high fits =
    let small : n / radix < 1 = rw (pow-zero radix) at (fewer_digits radix zero n low fits) in
    let last : n / radix ≡ 0 = omega arith in
    rw (last, last_digit radix n low high) (omega (arith, rw last at (div-add-mod n radix)))
reversed_value-convert radix (suc room) n low high fits =
    let fits' = fewer_digits radix (suc room) n low fits in
    let rest = reversed_value-convert radix room (n / radix) low high fits' in
    elim (Bool-cases (n / radix == 0)) [
      | inl last ↦ ground (arith, last_digit radix n low high, div-add-mod n radix)
      | inr more ↦
          rw (more, last_digit radix n low high) (rw rest (omega (arith, div-add-mod n radix)))
    ]

-- `printf_unsigned` prints a number that fits the buffer such that its digits, with the zeros in
-- front, read back as the number, whatever the width.
pub printf_unsigned-value :
    (n radix width : ℕ)
    → 2 ≤ radix
    → radix ≤ 16
    → n < radix ^ 31
    → value radix (printf_unsigned n radix width true) ≡ n
unfolding printf_unsigned
printf_unsigned-value n radix width low high fits =
    let digits = convert radix buffer_room n in
    let zeros = (if ltb 31 width then 31 else width) - length digits in
    value-reverse radix (digits ++ replicate zeros 48)
    ∙ reversed_value-zeros radix zeros digits
    ∙ reversed_value-convert radix 30 n low high fits

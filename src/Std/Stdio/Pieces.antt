-- ===== src/Std/Stdio/Pieces.antt =====
-- kernel/std/stdio.c: what a format of `printf` says, as the pieces that it spells.
use valecium.Prelude.{
  ℕ, zero, suc, ◌+◌, ◌-◌, ◌*◌, ◌^◌, ◌≤◌, ◌<◌, ◌≢◌, Bool, true, false, ◌&&◌, if◌then◌else◌, ltb, leb,
  u8, List, [], ◌∷◌, ◌++◌, length, replicate, map,
}
use valecium.Std.Stdio.{
  Size, default_size, short_short, short, long, long_long, convert, buffer_room,
}
use mathlib.Core.List.{reverse}

pub data Conversion : Type 0 where
  decimal integer unsigned lower_hex upper_hex pointer octal : Conversion

-- A number in a field: `%`, perhaps a 0 that asks for zeros, the digits of the width, the size, and
-- the conversion.
pub record Field : Type 0 where
  pub zeros : Bool
  pub digits : List ℕ
  pub size : Size
  pub conversion : Conversion

pub data Piece : Type 0 where
  literal : ℕ → Piece
  percent character string : Piece
  field : Field → Piece

unfoldable pub conversion_char : Conversion → ℕ
conversion_char decimal = 100
conversion_char integer = 105
conversion_char unsigned = 117
conversion_char lower_hex = 120
conversion_char upper_hex = 88
conversion_char pointer = 112
conversion_char octal = 111

unfoldable pub size_chars : Size → List ℕ
size_chars default_size = []
size_chars short_short = 104 ∷ 104 ∷ []
size_chars short = 104 ∷ []
size_chars long = 108 ∷ []
size_chars long_long = 108 ∷ 108 ∷ []

-- How a piece is written in a format.
unfoldable pub spelled : Piece → List ℕ
spelled (literal c) = c ∷ []
spelled percent = 37 ∷ 37 ∷ []
spelled character = 37 ∷ 99 ∷ []
spelled string = 37 ∷ 115 ∷ []
spelled (field f) =
    37
    ∷ ((if f.zeros then 48 ∷ [] else [])
        ++ (map (λ d. 48 + d) f.digits
            ++ (size_chars f.size ++ (conversion_char f.conversion ∷ []))))

unfoldable pub format_of : List Piece → List ℕ
format_of [] = []
format_of (p ∷ ps) = spelled p ++ format_of ps

-- The digits of a width are 1 to 9.
abbrev pub WidthDigits : List ℕ → Type 0
WidthDigits [] = Unit
WidthDigits (d ∷ ds) = (1 ≤ d) × (d ≤ 9) × WidthDigits ds

unfoldable pub width_from : ℕ → List ℕ → ℕ
width_from w [] = w
width_from w (d ∷ ds) = width_from (w * 10 + d) ds

-- A literal is no `%`, and the width of a field fits in an `int`.
abbrev pub IsPiece : Piece → Type 0
IsPiece (literal c) = c ≢ 37
IsPiece (field f) = WidthDigits f.digits × (width_from 0 f.digits < 2 ^ 31)
IsPiece percent = Unit
IsPiece character = Unit
IsPiece string = Unit

abbrev pub ArePieces : List Piece → Type 0
ArePieces [] = Unit
ArePieces (p ∷ ps) = IsPiece p × ArePieces ps

-- The digits of a number, the first one first.
abbrev pub numeral : ℕ → ℕ → List ℕ
numeral radix n = reverse (convert radix buffer_room n)

-- Some digits at the right end of a field, which is cut to 31 characters.
unfoldable pub padded : Bool → ℕ → List ℕ → List ℕ
padded zeros width digits =
    replicate ((if ltb 31 width then 31 else width) - length digits) (if zeros then 48 else 32)
    ++ digits

unfoldable pub base : Conversion → ℕ
base decimal = 10
base integer = 10
base unsigned = 10
base lower_hex = 16
base upper_hex = 16
base pointer = 16
base octal = 8

unfoldable pub is_signed : Conversion → Bool
is_signed decimal = true
is_signed integer = true
is_signed unsigned = false
is_signed lower_hex = false
is_signed upper_hex = false
is_signed pointer = false
is_signed octal = false

-- How many words an argument takes.
unfoldable pub words : Size → ℕ
words long_long = 2
words default_size = 1
words short_short = 1
words short = 1
words long = 1

module _ (args : ℕ → ℕ) where
  -- An argument of some words, without a sign.
  unfoldable pub argument : ℕ → ℕ → ℕ
  argument zero next = 0
  argument (suc k) next = args next + 2 ^ 32 * argument k (next + 1)

  -- The text of a number in a field of some width.
  unfoldable pub number_text : Size → Conversion → Bool → ℕ → ℕ → List ℕ
  number_text size conversion zeros width next =
      let n = argument (words size) next in
      let full = 2 ^ (32 * words size) in
      if is_signed conversion && leb full (2 * n)
      then 45 ∷ padded zeros (width - 1) (numeral (base conversion) (full - n))
      else padded zeros width (numeral (base conversion) n)

module _ (args : ℕ → ℕ) (strings : ℕ → List ℕ) where
  -- What a piece shows, and where the next argument is.
  unfoldable pub shown : Piece → ℕ → List ℕ × ℕ
  shown (literal c) next = (c ∷ [], next)
  shown percent next = (37 ∷ [], next)
  shown character next = (u8 (args next) ∷ [], next + 1)
  shown string next = (strings (args next), next + 1)
  shown (field f) next = (
    number_text args f.size f.conversion f.zeros (width_from 0 f.digits) next,
    next + words f.size,
  )

  unfoldable pub all_shown : List Piece → ℕ → List ℕ
  all_shown [] next = []
  all_shown (p ∷ ps) next = let (text, next') = shown p next in text ++ all_shown ps next'

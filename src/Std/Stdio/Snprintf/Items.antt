-- ===== src/Std/Stdio/Snprintf/Items.antt =====
-- kernel/std/stdio.c: what a format of `vsnprintf` says, as the items that it spells.
use valecium.Prelude.{
  ℕ, ◌+◌, ◌-◌, ◌≡◌, ◌≢◌, Bool, false, ◌||◌, ◌==◌, if◌then◌else◌, leb, u8, List, [], ◌∷◌, ◌++◌, map,
}
use valecium.Std.Stdio.{Size, default_size, long_long}
use valecium.Std.Stdio.Snprintf.{null_chars}
use valecium.Std.Stdio.Pieces.{
  Conversion, decimal, integer, unsigned, lower_hex, upper_hex, pointer, octal, conversion_char,
  words, number_text,
}

pub data Item : Type 0 where
  literal : ℕ → Item
  percent character string : Item
  number : Conversion → Item
  unsupported : ℕ → Item

-- How an item is written in a format.
unfoldable pub item_chars : Item → List ℕ
item_chars (literal c) = c ∷ []
item_chars percent = 37 ∷ 37 ∷ []
item_chars character = 37 ∷ 99 ∷ []
item_chars string = 37 ∷ 115 ∷ []
item_chars (number c) = 37 ∷ conversion_char c ∷ []
item_chars (unsupported s) = 37 ∷ s ∷ []

unfoldable pub items_format : List Item → List ℕ
items_format [] = []
items_format (i ∷ is) = item_chars i ++ items_format is

-- The characters that `vsnprintf` gives a meaning to behind a `%`.
abbrev pub has_meaning : ℕ → Bool
has_meaning s =
    s == 37
    || s == 99
    || s == 115
    || (s == 100 || s == 105)
    || s == 117
    || (s == 120 || s == 88 || s == 112)
    || s == 111

-- A literal is no `%`.
abbrev pub IsItem : Item → Type 0
IsItem (literal c) = c ≢ 37
IsItem (unsupported s) = has_meaning s ≡ false
IsItem percent = Unit
IsItem character = Unit
IsItem string = Unit
IsItem (number c) = Unit

abbrev pub AreItems : List Item → Type 0
AreItems [] = Unit
AreItems (i ∷ is) = IsItem i × AreItems is

-- Hexadecimal numbers are `long long`, whatever is passed.
unfoldable pub number_size : Conversion → Size
number_size decimal = default_size
number_size integer = default_size
number_size unsigned = default_size
number_size lower_hex = long_long
number_size upper_hex = long_long
number_size pointer = long_long
number_size octal = default_size

unfoldable pub upper : ℕ → ℕ
upper c = if leb 97 c then c - 32 else c

unfoldable pub letters : Conversion → ℕ → ℕ
letters decimal c = c
letters integer c = c
letters unsigned c = c
letters lower_hex c = c
letters upper_hex c = upper c
letters pointer c = c
letters octal c = c

module _ (args : ℕ → ℕ) (strings : ℕ → List ℕ) where
  -- What an item shows, and where the next argument is; a number is shown as `printf` shows it
  -- without a width, but that `%X` has capital letters.
  unfoldable pub item_text : Item → ℕ → List ℕ × ℕ
  item_text (literal c) next = (c ∷ [], next)
  item_text percent next = (37 ∷ [], next)
  item_text character next = (u8 (args next) ∷ [], next + 1)
  item_text string next = (if args next == 0 then null_chars else strings (args next), next + 1)
  item_text (number c) next = (
    map (letters c) (number_text args (number_size c) c false 0 next),
    next + words (number_size c),
  )
  item_text (unsupported s) next = (37 ∷ s ∷ [], next)

  unfoldable pub text_of : List Item → ℕ → List ℕ
  text_of [] next = []
  text_of (i ∷ is) next = let (text, next') = item_text i next in text ++ text_of is next'

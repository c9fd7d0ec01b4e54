-- ===== src/Keyboard/Layout.antt =====
-- kernel/drivers/keyboard/keyboard.c: the characters of the keys on a keyboard of the United States,
-- and what strokes of keys type.
use valecium.Prelude.{
  ℕ, ◌+◌, ◌<◌, ◌≡◌, refl, Bool, true, false, not, leb, if◌then◌else◌, ==_iff, ◌&&◌, ◌||◌, arith,
  ◌==◌, ltb, List, [], ◌∷◌, ◌++◌, has_bit, get_or, bit_and, passes, passes→true,
}
use valecium.Keyboard.{Modifiers, scancode_map, shift_char, find_symbol}

-- The letter keys: the rows from 'q', 'a' and 'z' on.
abbrev pub is_letter : ℕ → Bool
is_letter c = (leb 0x10 c && leb c 0x19) || (leb 0x1e c && leb c 0x26) || (leb 0x2c c && leb c 0x32)

-- The characters of a keyboard of the United States by scancode, without shift; 0: none.
abbrev pub lower_layout : List ℕ
lower_layout =
    (0 ∷ 27 ∷ b'1' ∷ b'2' ∷ b'3' ∷ b'4' ∷ b'5' ∷ b'6' ∷ b'7' ∷ b'8' ∷ b'9' ∷ b'0' ∷ b'-' ∷ b'='
      ∷ [])
    ++ (8 ∷ 9 ∷ b'q' ∷ b'w' ∷ b'e' ∷ b'r' ∷ b't' ∷ b'y' ∷ b'u' ∷ b'i' ∷ b'o' ∷ b'p' ∷ b'[' ∷ [])
    ++ (b']' ∷ 10 ∷ 0 ∷ b'a' ∷ b's' ∷ b'd' ∷ b'f' ∷ b'g' ∷ b'h' ∷ b'j' ∷ b'k' ∷ b'l' ∷ b';' ∷ [])
    ++ (39 ∷ b'`' ∷ 0 ∷ 92 ∷ b'z' ∷ b'x' ∷ b'c' ∷ b'v' ∷ b'b' ∷ b'n' ∷ b'm' ∷ b',' ∷ b'.' ∷ [])
    ++ (b'/' ∷ 0 ∷ b'*' ∷ 0 ∷ b' ' ∷ [])

-- With shift.
abbrev pub upper_layout : List ℕ
upper_layout =
    (0 ∷ 27 ∷ b'!' ∷ b'@' ∷ b'#' ∷ b'$' ∷ b'%' ∷ b'^' ∷ b'&' ∷ b'*' ∷ b'(' ∷ b')' ∷ b'_' ∷ b'+'
      ∷ [])
    ++ (8 ∷ 9 ∷ b'Q' ∷ b'W' ∷ b'E' ∷ b'R' ∷ b'T' ∷ b'Y' ∷ b'U' ∷ b'I' ∷ b'O' ∷ b'P' ∷ b'{' ∷ [])
    ++ (b'}' ∷ 10 ∷ 0 ∷ b'A' ∷ b'S' ∷ b'D' ∷ b'F' ∷ b'G' ∷ b'H' ∷ b'J' ∷ b'K' ∷ b'L' ∷ b':' ∷ [])
    ++ (b'"' ∷ b'~' ∷ 0 ∷ b'|' ∷ b'Z' ∷ b'X' ∷ b'C' ∷ b'V' ∷ b'B' ∷ b'N' ∷ b'M' ∷ b'<' ∷ b'>' ∷ [])
    ++ (b'?' ∷ 0 ∷ b'*' ∷ 0 ∷ b' ' ∷ [])

-- The character of a key: caps lock turns shift over for the letters.
abbrev pub key_char : Bool → Bool → ℕ → ℕ
key_char caps shift c =
    let upper = if is_letter c && caps then not shift else shift in
    get_or (if upper then upper_layout else lower_layout) c 0

-- A key with a character.
abbrev pub is_key : ℕ → Bool
is_key c = ltb c 128 && not (get_or lower_layout c 0 == 0)

-- What a user does: presses and releases a key, perhaps while shift is held, or caps lock.
pub data Stroke : Type 0 where
  key : ℕ → Stroke
  shifted : ℕ → Stroke
  caps_lock : Stroke

abbrev pub AllKeys : List Stroke → Type 0
AllKeys [] = Unit {0}
AllKeys (key c ∷ strokes) = (is_key c ≡ true) × AllKeys strokes
AllKeys (shifted c ∷ strokes) = (is_key c ≡ true) × AllKeys strokes
AllKeys (caps_lock ∷ strokes) = AllKeys strokes

-- The scancodes of a stroke.
unfoldable pub codes : Stroke → List ℕ
codes (key c) = c ∷ (c + 128) ∷ []
codes (shifted c) = 0x2a ∷ c ∷ (c + 128) ∷ 0xaa ∷ []
codes caps_lock = 0x3a ∷ 0xba ∷ []

unfoldable pub all_codes : List Stroke → List ℕ
all_codes [] = []
all_codes (s ∷ strokes) = codes s ++ all_codes strokes

-- What strokes type, and whether caps lock is on behind them.
unfoldable pub typed : Bool → List Stroke → List ℕ
typed caps [] = []
typed caps (key c ∷ strokes) = key_char caps false c ∷ typed caps strokes
typed caps (shifted c ∷ strokes) = key_char caps true c ∷ typed caps strokes
typed caps (caps_lock ∷ strokes) = typed (not caps) strokes

unfoldable pub caps_behind : Bool → List Stroke → Bool
caps_behind caps [] = caps
caps_behind caps (key c ∷ strokes) = caps_behind caps strokes
caps_behind caps (shifted c ∷ strokes) = caps_behind caps strokes
caps_behind caps (caps_lock ∷ strokes) = caps_behind (not caps) strokes

-- The modifiers when no extended code is awaited.
abbrev pub modifiers : Bool → Bool → Modifiers
modifiers caps shift = record { shift = shift; caps = caps; extended = false }

-- By evaluation for every scancode: what the code does with a key that is pressed or released.
abbrev char_row : Bool → Bool → ℕ → Bool
char_row caps shift c =
    get_or scancode_map c 0 == 0
    || shift_char (modifiers caps shift) (get_or scancode_map c 0) == key_char caps shift c

abbrev pub press_row : ℕ → Bool
press_row c =
    not (c == 0xe0)
    && not (has_bit c 0x80)
    && not (c == 0x2a || c == 0x36)
    && not (c == 0x3a)
    && not (get_or scancode_map c 0 == 0)

abbrev pub release_row : ℕ → Bool
release_row c =
    not (c + 128 == 0xe0)
    && has_bit (c + 128) 0x80
    && not (bit_and (c + 128) 0x7f == 0x2a || bit_and (c + 128) 0x7f == 0x36)

abbrev key_row : ℕ → Bool
key_row c = not (is_key c) || (press_row c && release_row c)

key_table : passes key_row 128 ≡ true
unfolding passes
key_table = refl

char_table : (caps shift : Bool) → passes (char_row caps shift) 128 ≡ true
unfolding passes shift_char find_symbol
char_table true true = refl
char_table true false = refl
char_table false true = refl
char_table false false = refl

pub is_key-small : (c : ℕ) → is_key c ≡ true → c < 128
is_key-small c known = ground arith

both : (a b c : Bool) → a ≡ true → (not a || (b && c)) ≡ true → (b ≡ true) × (c ≡ true)
both true b c holds all = (ground (arith, all), ground (arith, all))
both false b c holds all = absurd (ground (arith, holds))

pub key_rows : (c : ℕ) → is_key c ≡ true → (press_row c ≡ true) × (release_row c ≡ true)
key_rows c known =
    both (is_key c) (press_row c) (release_row c) known
      (passes→true key_row 128 key_table c (is_key-small c known))

pub char_lem :
    (caps shift : Bool) (c : ℕ)
    → c < 128
    → (get_or scancode_map c 0 == 0) ≡ false
    → shift_char (modifiers caps shift) (get_or scancode_map c 0) ≡ key_char caps shift c
char_lem caps shift c below mapped =
    let row = passes→true (char_row caps shift) 128 (char_table caps shift) c below in
    (==_iff (shift_char (modifiers caps shift) (get_or scancode_map c 0)) (key_char caps shift c)).0
      (rw mapped at row)

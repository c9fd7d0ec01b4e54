-- ===== src/Keyboard.antt =====
-- kernel/drivers/keyboard/keyboard.c: what a scancode does to the modifiers and to the active
-- terminal, of `Tty`.
pub mod Layout
pub mod Strokes
pub mod Tests
use valecium.Prelude.{
  ℕ, zero, suc, ◌+◌, ◌-◌, ◌*◌, ◌/◌, ◌%◌, ◌^◌, ◌≤◌, ◌<◌, ◌≡◌, ◌≢◌, refl, sym, ap, ◌∙◌, Bool, true,
  false, not, ◌&&◌, ◌||◌, arith, ◌==◌, ==_iff, if◌then◌else◌, inl, inr, ◌⊎◌, Bool-cases,
  Option-cases, Option, none, some, ltb, leb, u8, u32, update, List, [], ◌∷◌, ◌++◌, fun_ext,
  has_bit, length, length-append, get_or, take, drop, replicate, map, bit_and, bit_or, length-map,
  length-replicate,
}
use mathlib.Core.Option
use valecium.Tty.Device.{Backend, Console}
use valecium.Tty.Input.{input_char, input_arrow}

-- `s_Shift`, `s_Caps` and `s_Extended`.
pub record Modifiers : Type 0 where
  pub shift : Bool
  pub caps : Bool
  pub extended : Bool

unfoldable pub initialize : Modifiers
initialize = record { shift = false; caps = false; extended = false }

-- `s_ScancodeMap`; the entries behind these are 0.
abbrev pub scancode_map : List ℕ
scancode_map =
    0 ∷ 27 ∷ b'1' ∷ b'2' ∷ b'3' ∷ b'4' ∷ b'5' ∷ b'6' ∷ b'7' ∷ b'8' ∷ b'9' ∷ b'0' ∷ b'-' ∷ b'=' ∷ 8
    ∷ 9 ∷ b'q' ∷ b'w' ∷ b'e' ∷ b'r' ∷ b't' ∷ b'y' ∷ b'u' ∷ b'i' ∷ b'o' ∷ b'p' ∷ b'[' ∷ b']' ∷ 10 ∷ 0
    ∷ b'a' ∷ b's' ∷ b'd' ∷ b'f' ∷ b'g' ∷ b'h' ∷ b'j' ∷ b'k' ∷ b'l' ∷ b';' ∷ 39 ∷ b'`' ∷ 0 ∷ 92
    ∷ b'z' ∷ b'x' ∷ b'c' ∷ b'v' ∷ b'b' ∷ b'n' ∷ b'm' ∷ b',' ∷ b'.' ∷ b'/' ∷ 0 ∷ b'*' ∷ 0 ∷ b' ' ∷ []

-- The cases for a character with shift, and the character that stands for each.
abbrev pub shifted_symbols : List (ℕ × ℕ)
shifted_symbols =
    (b'1', b'!')
    ∷ (b'2', b'@')
    ∷ (b'3', b'#')
    ∷ (b'4', b'$')
    ∷ (b'5', b'%')
    ∷ (b'6', b'^')
    ∷ (b'7', b'&')
    ∷ (b'8', b'*')
    ∷ (b'9', b'(')
    ∷ (b'0', b')')
    ∷ (b'-', b'_')
    ∷ (b'=', b'+')
    ∷ (92, b'|')
    ∷ (b';', b':')
    ∷ (39, b'"')
    ∷ (b',', b'<')
    ∷ (b'.', b'>')
    ∷ (b'/', b'?')
    ∷ (b'`', b'~')
    ∷ (b'[', b'{')
    ∷ (b']', b'}')
    ∷ []

unfoldable pub find_symbol : ℕ → List (ℕ × ℕ) → ℕ
find_symbol c [] = c
find_symbol c ((plain, shifted) ∷ rest) = if c == plain then shifted else find_symbol c rest

-- The character that is passed on for a key, by the modifiers.
unfoldable pub shift_char : Modifiers → ℕ → ℕ
shift_char k base =
    if leb b'a' base && leb base b'z'
    then (if (k.caps && not k.shift) || (k.shift && not k.caps) then base - 32 else base)
    else if k.shift
    then find_symbol base shifted_symbols
    else base

module _ {S : Type 0} (backend : Backend S) where
  unfoldable pub extended_key : ℕ → Console S → Console S
  extended_key scancode con =
      if scancode == 0x48
      then input_arrow backend con b'A'
      else if scancode == 0x50
      then input_arrow backend con b'B'
      else if scancode == 0x4d
      then input_arrow backend con b'C'
      else if scancode == 0x4b
      then input_arrow backend con b'D'
      else con

  -- `none`: no terminal is active.
  unfoldable pub handle_scancode :
      ℕ → Modifiers × Option (Console S) → Modifiers × Option (Console S)
  handle_scancode scancode (k, dev) =
      let key = bit_and scancode 0x7f in
      let base = get_or scancode_map scancode 0 in
      if scancode == 0xe0
      then (record k { extended = true }, dev)
      else if has_bit scancode 0x80
      then (let k' = if key == 0x2a || key == 0x36 then record k { shift = false } else k in
          if k.extended then (record k' { extended = false }, dev) else (k', dev))
      else if scancode == 0x2a || scancode == 0x36
      then (record k { shift = true }, dev)
      else if scancode == 0x3a
      then (record k { caps = not k.caps }, dev)
      else if k.extended
      then (record k { extended = false }, Option.map (extended_key scancode) dev)
      else if ltb scancode 128
      then (if base == 0
          then (k, dev)
          else (k, Option.map (λ con. input_char backend con (shift_char k base)) dev))
      else (k, dev)

  unfoldable pub handle_all :
      List ℕ → Modifiers × Option (Console S) → Modifiers × Option (Console S)
  handle_all [] s = s
  handle_all (c ∷ cs) s = handle_all cs (handle_scancode c s)

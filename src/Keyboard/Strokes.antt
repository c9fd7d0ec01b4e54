-- ===== src/Keyboard/Strokes.antt =====
-- kernel/drivers/keyboard/keyboard.c and tty.c: keys that are pressed and released become the
-- characters that a reader of the terminal gets.
use valecium.Prelude.{
  ℕ, ◌+◌, ◌<◌, ◌≡◌, refl, ap, ◌∙◌, Bool, true, false, not, ◌||◌, arith, ◌==◌, Option, none, some,
  ltb, List, [], ◌∷◌, ◌++◌, has_bit, length, get_or, bit_and,
}
use mathlib.Core.Option
use valecium.Tty.Device.{Backend, Console, line_size}
use valecium.Tty.Input.{input_char, input_chars}
use valecium.Tty.Read.{read}
use valecium.Tty.Refine.Read.{IsIdle, AllPlain}
use valecium.Tty.Refine.Waits.{read_after}
use valecium.Keyboard.{Modifiers, scancode_map, shift_char, handle_scancode, handle_all}
use valecium.Keyboard.Layout.{
  key_char, is_key, Stroke, key, shifted, caps_lock, AllKeys, codes, all_codes, typed, caps_behind,
  modifiers, press_row, release_row, is_key-small, key_rows, char_lem,
}

module _ {S : Type 0} (backend : Backend S) where
  pressed :
      (caps shift : Bool) (c : ℕ) (con : Console S)
      → press_row c ≡ true
      → ltb c 128 ≡ true
      → handle_scancode backend c (modifiers caps shift, some con) ≡ (
        modifiers caps shift,
        some (input_char backend con (shift_char (modifiers caps shift) (get_or scancode_map c 0))),
      )
  unfolding handle_scancode
  pressed caps shift c con row small =
      let not_prefix : (c == 0xe0) ≡ false = ground arith in
      let down : has_bit c 0x80 ≡ false = ground arith in
      let no_shift : (c == 0x2a || c == 0x36) ≡ false = ground arith in
      let no_caps : (c == 0x3a) ≡ false = ground arith in
      let mapped : (get_or scancode_map c 0 == 0) ≡ false = ground arith in
      rw (not_prefix, down, no_shift, no_caps, small, mapped)

  released :
      (caps shift : Bool) (c : ℕ) (dev : Option (Console S))
      → release_row c ≡ true
      → handle_scancode backend (c + 128) (modifiers caps shift, dev) ≡ (modifiers caps shift, dev)
  unfolding handle_scancode
  released caps shift c dev row =
      let not_prefix : (c + 128 == 0xe0) ≡ false = ground arith in
      let up : has_bit (c + 128) 0x80 ≡ true = ground arith in
      let no_shift : (bit_and (c + 128) 0x7f == 0x2a || bit_and (c + 128) 0x7f == 0x36) ≡ false =
        ground arith in
      rw (not_prefix, up, no_shift)

  -- A key that is pressed and released.
  stroke :
      (caps shift : Bool) (c : ℕ) (con : Console S)
      → is_key c ≡ true
      → handle_scancode backend
          (c + 128)
          (handle_scancode backend c (modifiers caps shift, some con))
        ≡ (modifiers caps shift, some (input_char backend con (key_char caps shift c)))
  stroke caps shift c con known =
      let (down, up) = key_rows c known in
      let below = is_key-small c known in
      let small : ltb c 128 ≡ true = ground (arith, below) in
      let mapped : (get_or scancode_map c 0 == 0) ≡ false = ground (arith, down) in
      let char = char_lem caps shift c below mapped in
      ap (handle_scancode backend (c + 128)) (
        pressed caps shift c con down small
        ∙ ap (λ x. (modifiers caps shift, some (input_char backend con x))) char)
      ∙ released caps shift c (some (input_char backend con (key_char caps shift c))) up

  hold_shift :
      (caps : Bool) (dev : Option (Console S))
      → handle_scancode backend 0x2a (modifiers caps false, dev) ≡ (modifiers caps true, dev)
  unfolding handle_scancode
  hold_shift caps dev = refl

  leave_shift :
      (caps : Bool) (dev : Option (Console S))
      → handle_scancode backend 0xaa (modifiers caps true, dev) ≡ (modifiers caps false, dev)
  unfolding handle_scancode
  leave_shift caps dev = refl

  caps_toggle :
      (caps : Bool) (dev : Option (Console S))
      → handle_scancode backend 0xba (handle_scancode backend 0x3a (modifiers caps false, dev))
        ≡ (modifiers (not caps) false, dev)
  unfolding handle_scancode
  caps_toggle caps dev = refl

  -- Strokes give the terminal what they type.
  handle_strokes :
      (caps : Bool) (strokes : List Stroke) (con : Console S)
      → AllKeys strokes
      → handle_all backend (all_codes strokes) (modifiers caps false, some con) ≡ (
        modifiers (caps_behind caps strokes) false,
        some (input_chars backend con (typed caps strokes)),
      )
  unfolding handle_all all_codes codes input_chars typed caps_behind
  handle_strokes caps [] con keys = refl
  handle_strokes caps (key c ∷ strokes) con keys =
      ap (handle_all backend (all_codes strokes)) (stroke caps false c con keys.0)
      ∙ handle_strokes caps strokes (input_char backend con (key_char caps false c)) keys.1
  handle_strokes caps (shifted c ∷ strokes) con keys =
      let con' = input_char backend con (key_char caps true c) in
      ap
        (λ s. handle_all backend (all_codes strokes) (
          handle_scancode backend 0xaa
            (handle_scancode backend (c + 128) (handle_scancode backend c s))))
        (hold_shift caps (some con))
      ∙ ap (λ s. handle_all backend (all_codes strokes) (handle_scancode backend 0xaa s))
          (stroke caps true c con keys.0)
      ∙ ap (handle_all backend (all_codes strokes)) (leave_shift caps (some con'))
      ∙ handle_strokes caps strokes con' keys.1
  handle_strokes caps (caps_lock ∷ strokes) con keys =
      ap (handle_all backend (all_codes strokes)) (caps_toggle caps (some con))
      ∙ handle_strokes (not caps) strokes con keys

AllKeys-snoc :
    (strokes : List Stroke) (c : ℕ)
    → AllKeys strokes
    → is_key c ≡ true
    → AllKeys (strokes ++ key c ∷ [])
AllKeys-snoc [] c keys good = (good, tt)
AllKeys-snoc (key x ∷ strokes) c keys good = (keys.0, AllKeys-snoc strokes c keys.1 good)
AllKeys-snoc (shifted x ∷ strokes) c keys good = (keys.0, AllKeys-snoc strokes c keys.1 good)
AllKeys-snoc (caps_lock ∷ strokes) c keys good = AllKeys-snoc strokes c keys good

enter_char : (caps : Bool) → key_char caps false 0x1c ≡ 10
enter_char true = refl
enter_char false = refl

typed-enter :
    (caps : Bool) (strokes : List Stroke)
    → typed caps (strokes ++ key 0x1c ∷ []) ≡ typed caps strokes ++ 10 ∷ []
unfolding typed
typed-enter caps [] = ap (λ c. c ∷ []) (enter_char caps)
typed-enter caps (key c ∷ strokes) = ap (λ l. key_char caps false c ∷ l) (typed-enter caps strokes)
typed-enter caps (shifted c ∷ strokes) =
    ap (λ l. key_char caps true c ∷ l) (typed-enter caps strokes)
typed-enter caps (caps_lock ∷ strokes) = typed-enter (not caps) strokes

-- What a reader of the active terminal gets.
unfoldable pub read_active :
    {S : Type 0} → Backend S → Bool → Modifiers × Option (Console S) → ℕ → Option (List ℕ)
read_active backend can_wait (k, none) count = none
read_active backend can_wait (k, some con) count =
    Option.map (λ p. p.0) (read backend can_wait [] con count)

-- When keys are pressed and released, some while the left shift key is held, and caps lock at any
-- time between, and then Enter, while before that shift is not held, no extended code is awaited
-- and the active terminal is idle and in canonical mode, then a reader gets exactly the characters
-- that the keys have on a keyboard of the United States, where caps lock turns shift over for the
-- letters, and the line's end, if the characters are plain, less than 256 and fewer than the reader
-- takes.
pub read_keys :
    {S : Type 0} (backend : Backend S) (caps : Bool) (con : Console S) (strokes : List Stroke)
    (count : ℕ) (can_wait : Bool)
    → IsIdle con.tty
    → AllKeys strokes
    → AllPlain (typed caps strokes)
    → length (typed caps strokes) < line_size
    → length (typed caps strokes) < count
    → read_active backend can_wait
        (handle_all backend (all_codes (strokes ++ key 0x1c ∷ [])) (modifiers caps false, some con))
        count
      ≡ some (typed caps strokes ++ 10 ∷ [])
unfolding read_active
read_keys backend caps con strokes count can_wait idle known plain short room =
    ap (λ s. read_active backend can_wait s count)
      (handle_strokes backend caps (strokes ++ key 0x1c ∷ []) con
        (AllKeys-snoc strokes 0x1c known refl))
    ∙ ap (λ l. Option.map (λ p. p.0) (read backend can_wait [] (input_chars backend con l) count))
        (typed-enter caps strokes)
    ∙ read_after backend con (typed caps strokes) count can_wait idle plain short room

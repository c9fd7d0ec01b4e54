-- ===== src/Keyboard/Tests.antt =====
-- Runs of `Keyboard`, and the theorems about it at concrete inputs.
use valecium.Prelude.{ℕ, ◌≡◌, refl, true, false, arith, none, some, List, [], ◌∷◌, ◌++◌}
use valecium.Tty.Tests.{recorder, console, fresh-IsIdle}
use valecium.Keyboard.{initialize, shift_char, find_symbol, handle_scancode, handle_all}
use valecium.Keyboard.Layout.{Stroke, key, shifted, caps_lock, all_codes, modifiers, typed}
use valecium.Keyboard.Strokes.{read_active, read_keys}

-- Shift is pressed, then 'a', and both are released.
abbrev shift_a : List ℕ
shift_a = 0x2a ∷ 0x1e ∷ 0x9e ∷ 0xaa ∷ []

shift_a_char :
    (shift_char (record initialize { shift = true }) 97 ≡ 65)
    × (shift_char (record initialize { shift = true }) 49 ≡ 33)
unfolding shift_char find_symbol initialize
shift_a_char = (refl, refl)

modifiers_back : (handle_all recorder shift_a (initialize, none)).0 ≡ initialize
unfolding handle_all handle_scancode initialize
modifiers_back = refl

-- 'L' with shift, caps lock, 's' and '1'.
abbrev some_strokes : List Stroke
some_strokes = shifted 0x26 ∷ caps_lock ∷ key 0x1f ∷ key 2 ∷ []

read_keys_example :
    read_active recorder false
      (handle_all recorder
        (all_codes (some_strokes ++ key 0x1c ∷ []))
        (modifiers false false, some console))
      80
    ≡ some (b'L' ∷ b'S' ∷ b'1' ∷ 10 ∷ [])
unfolding typed
read_keys_example =
    read_keys recorder false console some_strokes 80 false fresh-IsIdle (refl, (refl, (refl, tt)))
      (refl, (refl, (refl, tt))) (omega arith) (omega arith)

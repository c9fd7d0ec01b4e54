-- ===== src/Std/Strings/Tests.antt =====
-- kernel/std/string.c: runs on strings in memory, and the theorems at them.
use valecium.Prelude.{
  ℕ, ◌≡◌, refl, Bool, true, ◌||◌, arith, ◌==◌, if◌then◌else◌, some, List, [], ◌∷◌,
}
use mathlib.Core.Logic.{◌↔◌}
use valecium.Mem.Memory.{Memory}
use valecium.Std.Strings.{
  StringAt, strlen, strlen_from, strchr, strchr_from, strrchr, strrchr_loop, strcmp, strcmp_loop,
  str_eq, Order, below, same, above,
}
use valecium.Std.Strings.Compare.{AllBytes, strcmp-str_eq}

-- "tty" at 100, "tt" at 200, and a string with a byte above 127 at 300.
abbrev strings : Memory
strings = λ a.
    if a == 100 || a == 101 || a == 200 || a == 201
    then 116
    else if a == 102
    then 121
    else if a == 300
    then 233
    else 0

abbrev tty : List ℕ
tty = 116 ∷ 116 ∷ 121 ∷ []

abbrev tt_chars : List ℕ
tt_chars = 116 ∷ 116 ∷ []

tty_at : StringAt strings 100 tty
tty_at = (refl, omega arith, (refl, omega arith, (refl, omega arith, refl)))

tt_at : StringAt strings 200 tt_chars
tt_at = (refl, omega arith, (refl, omega arith, refl))

orders :
    (strcmp 9 100 200 strings ≡ some above)
    × (strcmp 9 200 100 strings ≡ some below)
    × (strcmp 9 300 100 strings ≡ some below)
    × (strcmp 9 0 100 strings ≡ some below)
unfolding strcmp strcmp_loop
orders = (refl, refl, refl, refl)

found :
    (strlen 9 100 strings ≡ some 3)
    × (strchr 9 100 116 strings ≡ some 100)
    × (strrchr 9 100 116 strings ≡ some 101)
    × (strchr 9 100 0 strings ≡ some 0)
    × (strrchr 9 100 0 strings ≡ some 103)
unfolding strlen strlen_from strchr strchr_from strrchr strrchr_loop
found = (refl, refl, refl, refl, refl)

tty_bytes : AllBytes tty
tty_bytes = (omega arith, (omega arith, (omega arith, tt)))

tt_bytes : AllBytes tt_chars
tt_bytes = (omega arith, (omega arith, tt))

strcmp-str_eq_example :
    ((strcmp 4 100 200 strings ≡ some same) ↔ (tty ≡ tt_chars))
    × ((str_eq 4 100 200 strings ≡ some true) ↔ (tty ≡ tt_chars))
    × ((o : Order) × (strcmp 4 100 200 strings ≡ some o))
    × ((e : Bool) × (str_eq 4 100 200 strings ≡ some e))
strcmp-str_eq_example =
    strcmp-str_eq tty tt_chars 4 100 200 strings tty_bytes tt_bytes (omega arith) (omega arith)
      tty_at tt_at (omega arith)

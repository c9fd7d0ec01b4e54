-- ===== src/Std/Strings/Compare.antt =====
-- kernel/std/string.c: `strcmp` and `str_eq`.
use valecium.Prelude.{
  ℕ, zero, suc, ◌+◌, ◌<◌, ◌≡◌, ◌≢◌, refl, ap, Bool, true, false, ◌&&◌, ◌||◌, arith, ◌==◌,
  if◌then◌else◌, some, List, [], ◌∷◌, length,
}
use mathlib.Core.Logic.{◌↔◌}
use valecium.Mem.Memory.{Memory}
use valecium.Std.Strings.{
  StringAt, Order, below, same, above, char_lt, strcmp_loop, strcmp, str_eq_loop, str_eq,
}

-- The lexicographic order of two lists of characters; the end counts as the character 0.
unfoldable pub compare_chars : List ℕ → List ℕ → Order
compare_chars [] [] = same
compare_chars [] (d ∷ ds) = if char_lt 0 d then below else above
compare_chars (c ∷ cs) [] = if char_lt c 0 then below else above
compare_chars (c ∷ cs) (d ∷ ds) =
    if char_lt c d then below else if char_lt d c then above else compare_chars cs ds

unfoldable pub equal_chars : List ℕ → List ℕ → Bool
equal_chars [] [] = true
equal_chars [] (d ∷ ds) = false
equal_chars (c ∷ cs) [] = false
equal_chars (c ∷ cs) (d ∷ ds) = c == d && equal_chars cs ds

-- Every character is a byte.
abbrev pub AllBytes : List ℕ → Type 0
AllBytes [] = Unit {0}
AllBytes (c ∷ cs) = (c < 256) × AllBytes cs

equal_chars_iff : (cs ds : List ℕ) → (equal_chars cs ds ≡ true) ↔ (cs ≡ ds)
unfolding equal_chars
equal_chars_iff [] [] = ground arith
equal_chars_iff [] (d ∷ ds) = ground arith
equal_chars_iff (c ∷ cs) [] = ground arith
equal_chars_iff (c ∷ cs) (d ∷ ds) = ground (arith, equal_chars_iff cs ds)

-- Two strings compare as the same only if they are equal.
compare_chars-same :
    (cs ds : List ℕ)
    → AllBytes cs
    → AllBytes ds
    → (compare_chars cs ds ≡ same) ↔ (equal_chars cs ds ≡ true)
unfolding compare_chars equal_chars
compare_chars-same [] [] bytes bytes' = (λ e. refl, λ e. refl)
compare_chars-same [] (d ∷ ds) bytes bytes' = ground arith
compare_chars-same (c ∷ cs) [] bytes bytes' = ground arith
compare_chars-same (c ∷ cs) (d ∷ ds) bytes bytes' =
    ground (arith, compare_chars-same cs ds bytes.1 bytes'.1, bytes.0, bytes'.0)

strcmp_loop_lem :
    (cs ds : List ℕ) (fuel a b : ℕ) (m : Memory)
    → StringAt m a cs
    → StringAt m b ds
    → length cs < fuel
    → strcmp_loop fuel a b m ≡ some (compare_chars cs ds)
unfolding strcmp_loop compare_chars
strcmp_loop_lem cs ds zero a b m left right enough = absurd (omega arith)
strcmp_loop_lem [] [] (suc fuel) a b m left right enough = rw (left, right)
strcmp_loop_lem [] (d ∷ ds) (suc fuel) a b m left right enough =
    let more : (0 == d) ≡ false = ground (arith, right.1) in rw (left, right.0, more)
strcmp_loop_lem (c ∷ cs) [] (suc fuel) a b m left right enough =
    let more : (c == 0) ≡ false = ground (arith, left.1) in rw (right, left.0, more)
strcmp_loop_lem (c ∷ cs) (d ∷ ds) (suc fuel) a b m left right enough =
    let more : (c == 0) ≡ false = ground (arith, left.1) in
    let more' : (d == 0) ≡ false = ground (arith, right.1) in
    rw
      (
        left.0,
        right.0,
        more,
        more',
        strcmp_loop_lem cs ds fuel (a + 1) (b + 1) m left.2 right.2 (omega arith),
      )
      (ground arith)

str_eq_loop_lem :
    (cs ds : List ℕ) (fuel a b : ℕ) (m : Memory)
    → StringAt m a cs
    → StringAt m b ds
    → length cs < fuel
    → str_eq_loop fuel a b m ≡ some (equal_chars cs ds)
unfolding str_eq_loop equal_chars
str_eq_loop_lem cs ds zero a b m left right enough = absurd (omega arith)
str_eq_loop_lem [] [] (suc fuel) a b m left right enough = rw (left, right)
str_eq_loop_lem [] (d ∷ ds) (suc fuel) a b m left right enough =
    let more : (0 == d) ≡ false = ground (arith, right.1) in rw (left, right.0, more)
str_eq_loop_lem (c ∷ cs) [] (suc fuel) a b m left right enough =
    let more : (c == 0) ≡ false = ground (arith, left.1) in rw (right, left.0, more)
str_eq_loop_lem (c ∷ cs) (d ∷ ds) (suc fuel) a b m left right enough =
    let more : (c == 0) ≡ false = ground (arith, left.1) in
    let more' : (d == 0) ≡ false = ground (arith, right.1) in
    rw
      (
        left.0,
        right.0,
        more,
        more',
        str_eq_loop_lem cs ds fuel (a + 1) (b + 1) m left.2 right.2 (omega arith),
      )
      (ground arith)

-- `strcmp` gives the lexicographic order of two strings, where the characters are compared as
-- signed bytes; fuel greater than the number of characters of the first is enough.
pub strcmp_lem :
    (cs ds : List ℕ) (fuel a b : ℕ) (m : Memory)
    → a ≢ 0
    → b ≢ 0
    → StringAt m a cs
    → StringAt m b ds
    → length cs < fuel
    → strcmp fuel a b m ≡ some (compare_chars cs ds)
unfolding strcmp
strcmp_lem cs ds fuel a b m real real' left right enough =
    let go : (a == 0) ≡ false = ground arith in
    let go' : (b == 0) ≡ false = ground arith in
    rw (go, go') (strcmp_loop_lem cs ds fuel a b m left right enough)

-- For two strings of bytes `strcmp` and `str_eq` both return, and each says that they are the same
-- exactly if they have the same characters; fuel greater than the number of characters of the first
-- is enough.
pub strcmp-str_eq :
    (cs ds : List ℕ) (fuel a b : ℕ) (m : Memory)
    → AllBytes cs
    → AllBytes ds
    → a ≢ 0
    → b ≢ 0
    → StringAt m a cs
    → StringAt m b ds
    → length cs < fuel
    → ((strcmp fuel a b m ≡ some same) ↔ (cs ≡ ds))
      × ((str_eq fuel a b m ≡ some true) ↔ (cs ≡ ds))
      × ((o : Order) × (strcmp fuel a b m ≡ some o))
      × ((e : Bool) × (str_eq fuel a b m ≡ some e))
unfolding str_eq
strcmp-str_eq cs ds fuel a b m bytes bytes' real real' left right enough =
    let compared = strcmp_lem cs ds fuel a b m real real' left right enough in
    let null : (a == 0 || b == 0) ≡ false = ground arith in
    let equal = str_eq_loop_lem cs ds fuel a b m left right enough in
    let agree = compare_chars-same cs ds bytes bytes' in
    let exact = equal_chars_iff cs ds in
    rw (compared, null, equal)
      (
        (λ e. exact.0 (agree.0 (ground arith)), λ e. ap some (agree.1 (exact.1 e))),
        (λ e. exact.0 (ground arith), λ e. ap some (exact.1 e)),
        (compare_chars cs ds, refl),
        (equal_chars cs ds, refl),
      )

-- ===== src/Std/Strings.antt =====
-- kernel/std/string.c: strings in memory. A function that runs until it meets the terminating 0 has
-- fuel; `none` means that it still runs when the fuel is used up. 0 is the null pointer, and the
-- addresses do not wrap around. `char` is signed, as on i686.
pub mod Search
pub mod Copy
pub mod Compare
pub mod Tests
use valecium.Prelude.{
  ℕ, zero, suc, ◌+◌, ◌-◌, ◌*◌, ◌/◌, ◌%◌, ◌^◌, ◌≤◌, ◌<◌, ◌≡◌, ◌≢◌, refl, sym, ap, ◌∙◌, Bool, true,
  false, not, ◌&&◌, ◌||◌, arith, ◌==◌, ==_iff, if◌then◌else◌, inl, inr, ◌⊎◌, Bool-cases,
  Option-cases, Option, none, some, ltb, leb, u32, update, List, [], ◌∷◌, ◌++◌, fun_ext, has_bit,
  length, length-append,
}
use valecium.Mem.Memory.{Memory}

unfoldable pub strchr_from : ℕ → ℕ → ℕ → Memory → Option ℕ
strchr_from zero str chr m = none
strchr_from (suc fuel) str chr m =
    let rest = strchr_from fuel (str + 1) chr m in
    if m str == 0 then some 0 else if m str == chr then some str else rest

unfoldable pub strchr : ℕ → ℕ → ℕ → Memory → Option ℕ
strchr fuel str chr m = if str == 0 then some 0 else strchr_from fuel str chr m

unfoldable pub strcpy_loop : ℕ → ℕ → ℕ → Memory → Option Memory
strcpy_loop zero dst src m = none
strcpy_loop (suc fuel) dst src m =
    let rest = strcpy_loop fuel (dst + 1) (src + 1) (update m dst (m src)) in
    if m src == 0 then some (update m dst 0) else rest

unfoldable pub strcpy : ℕ → ℕ → ℕ → Memory → Option (ℕ × Memory)
strcpy fuel dst src m =
    if dst == 0
    then some (0, m)
    else if src == 0
    then some (dst, update m dst 0)
    else elim (strcpy_loop fuel dst src m) [ none ↦ none | some m' ↦ some (dst, m') ]

unfoldable pub strlen_from : ℕ → ℕ → ℕ → Memory → Option ℕ
strlen_from zero len str m = none
strlen_from (suc fuel) len str m =
    let rest = strlen_from fuel (u32 (len + 1)) (str + 1) m in if m str == 0 then some len else rest

unfoldable pub strlen : ℕ → ℕ → Memory → Option ℕ
strlen fuel str m = strlen_from fuel 0 str m

-- What remains after the loop is whether both have ended.
unfoldable pub str_eq_loop : ℕ → ℕ → ℕ → Memory → Option Bool
str_eq_loop zero a b m = none
str_eq_loop (suc fuel) a b m =
    let rest = str_eq_loop fuel (a + 1) (b + 1) m in
    if m a == 0 || m b == 0
    then some (m a == m b)
    else if not (m a == m b)
    then some false
    else rest

unfoldable pub str_eq : ℕ → ℕ → ℕ → Memory → Option Bool
str_eq fuel a b m = if a == 0 || b == 0 then some false else str_eq_loop fuel a b m

-- The second loop of `strncpy`, also the loop for a source that is null.
unfoldable pub pad : ℕ → ℕ → Memory → Memory
pad zero dst m = m
pad (suc n) dst m = pad n (dst + 1) (update m dst 0)

unfoldable pub strncpy_loop : ℕ → ℕ → ℕ → Memory → Memory
strncpy_loop zero dst src m = m
strncpy_loop (suc n) dst src m =
    let rest = strncpy_loop n (dst + 1) (src + 1) (update m dst (m src)) in
    if m src == 0 then pad (suc n) dst m else rest

unfoldable pub strncpy : ℕ → ℕ → ℕ → Memory → ℕ × Memory
strncpy dst src n m =
    if dst == 0
    then (0, m)
    else if src == 0
    then (dst, pad n dst m)
    else (dst, strncpy_loop n dst src m)

-- The results -1, 0 and 1.
pub data Order : Type 0 where
  below same above : Order

-- `a < b` for two bytes read as `char`.
abbrev pub char_lt : ℕ → ℕ → Bool
char_lt a b = ltb ((a + 128) % 256) ((b + 128) % 256)

unfoldable pub strcmp_loop : ℕ → ℕ → ℕ → Memory → Option Order
strcmp_loop zero a b m = none
strcmp_loop (suc fuel) a b m =
    let rest = strcmp_loop fuel (a + 1) (b + 1) m in
    if m a == 0 || m b == 0
    then some (if m a == m b then same else if char_lt (m a) (m b) then below else above)
    else if char_lt (m a) (m b)
    then some below
    else if char_lt (m b) (m a)
    then some above
    else rest

unfoldable pub strcmp : ℕ → ℕ → ℕ → Memory → Option Order
strcmp fuel a b m =
    if a == 0 && b == 0
    then some same
    else if a == 0
    then some below
    else if b == 0
    then some above
    else strcmp_loop fuel a b m

unfoldable pub strrchr_loop : ℕ → ℕ → ℕ → ℕ → Memory → Option ℕ
strrchr_loop zero s c last m = none
strrchr_loop (suc fuel) s c last m =
    let rest = strrchr_loop fuel (s + 1) c (if m s == c then s else last) m in
    if m s == 0 then some (if c == 0 then s else last) else rest

-- The `int` is given by its bits; its low byte is searched.
unfoldable pub strrchr : ℕ → ℕ → ℕ → Memory → Option ℕ
strrchr fuel s c m = strrchr_loop fuel s (c % 256) 0 m

-- A string at an address: its characters, none of them 0, with a 0 behind.
abbrev pub StringAt : Memory → ℕ → List ℕ → Type 0
StringAt m p [] = m p ≡ 0
StringAt m p (c ∷ cs) = (m p ≡ c) × (c ≢ 0) × StringAt m (p + 1) cs

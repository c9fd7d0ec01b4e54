-- ===== src/Std/Strings/Search.antt =====
-- kernel/std/string.c: `strlen`, `strchr` and `strrchr`.
use valecium.Prelude.{
  ℕ, zero, suc, ◌+◌, ◌%◌, ◌^◌, ◌<◌, ◌≡◌, ◌≢◌, refl, ap, ◌∙◌, false, arith, ◌==◌, if◌then◌else◌,
  some, u32, List, [], ◌∷◌, length,
}
use valecium.Mem.Memory.{Memory}
use valecium.Std.Strings.{StringAt, strchr_from, strchr, strlen_from, strlen, strrchr_loop, strrchr}

strlen_from_lem :
    (cs : List ℕ) (fuel len p : ℕ) (m : Memory)
    → StringAt m p cs
    → length cs < fuel
    → len + length cs < 2 ^ 32
    → strlen_from fuel len p m ≡ some (len + length cs)
unfolding strlen_from
strlen_from_lem cs zero len p m str enough small = absurd (omega arith)
strlen_from_lem [] (suc fuel) len p m str enough small = ground arith
strlen_from_lem (c ∷ cs) (suc fuel) len p m str enough small =
    let more : u32 (len + 1) ≡ len + 1 = omega arith in
    let going : (m p == 0) ≡ false = ground (arith, str.0, str.1) in
    rw (going, more)
      (strlen_from_lem cs fuel (len + 1) (p + 1) m str.2 (omega arith) (omega arith)
        ∙ ap some (omega arith))

-- `strlen` of a string is the number of its characters, if that fits in 32 bits; fuel greater than
-- this number is enough.
pub strlen_lem :
    (cs : List ℕ) (fuel p : ℕ) (m : Memory)
    → StringAt m p cs
    → length cs < fuel
    → length cs < 2 ^ 32
    → strlen fuel p m ≡ some (length cs)
unfolding strlen
strlen_lem cs fuel p m str enough small =
    strlen_from_lem cs fuel 0 p m str enough (omega arith) ∙ ap some (omega arith)

-- The address of the first character that is `chr`, for characters that stand from `p` on.
unfoldable pub first_of : List ℕ → ℕ → ℕ → ℕ
first_of [] chr p = 0
first_of (c ∷ cs) chr p = if c == chr then p else first_of cs chr (p + 1)

-- The address of the last one, or else `last`.
unfoldable pub last_of : List ℕ → ℕ → ℕ → ℕ → ℕ
last_of [] chr p last = last
last_of (c ∷ cs) chr p last = last_of cs chr (p + 1) (if c == chr then p else last)

strchr_from_lem :
    (cs : List ℕ) (fuel chr p : ℕ) (m : Memory)
    → StringAt m p cs
    → length cs < fuel
    → strchr_from fuel p chr m ≡ some (first_of cs chr p)
unfolding strchr_from first_of
strchr_from_lem cs zero chr p m str enough = absurd (omega arith)
strchr_from_lem [] (suc fuel) chr p m str enough = ground arith
strchr_from_lem (c ∷ cs) (suc fuel) chr p m str enough =
    ground (arith, str.0, str.1, strchr_from_lem cs fuel chr (p + 1) m str.2 (omega arith))

strrchr_loop_lem :
    (cs : List ℕ) (fuel c p last : ℕ) (m : Memory)
    → StringAt m p cs
    → length cs < fuel
    → strrchr_loop fuel p c last m ≡ some (if c == 0 then p + length cs else last_of cs c p last)
unfolding strrchr_loop last_of
strrchr_loop_lem cs zero c p last m str enough = absurd (omega arith)
strrchr_loop_lem [] (suc fuel) c p last m str enough = ground arith
strrchr_loop_lem (x ∷ cs) (suc fuel) c p last m str enough =
    let going : (m p == 0) ≡ false = ground (arith, str.0, str.1) in
    let there : p + 1 + length cs ≡ p + suc (length cs) = omega arith in
    rw (going, str.0)
      (strrchr_loop_lem cs fuel c (p + 1) (if x == c then p else last) m str.2 (omega arith)
        ∙ rw there refl)

-- `strchr` finds the first occurrence of a character in a string and gives its address, or null if
-- there is none; fuel greater than the number of characters is enough.
pub strchr_lem :
    (cs : List ℕ) (fuel chr p : ℕ) (m : Memory)
    → p ≢ 0
    → StringAt m p cs
    → length cs < fuel
    → strchr fuel p chr m ≡ some (first_of cs chr p)
unfolding strchr
strchr_lem cs fuel chr p m real str enough =
    let go : (p == 0) ≡ false = ground arith in rw go (strchr_from_lem cs fuel chr p m str enough)

-- `strrchr` finds the last occurrence of a character in a string and gives its address, or null if
-- there is none, and for the character 0 the address of the string's end; fuel greater than the
-- number of characters is enough.
pub strrchr_lem :
    (cs : List ℕ) (fuel c p : ℕ) (m : Memory)
    → StringAt m p cs
    → length cs < fuel
    → strrchr fuel p c m ≡ some (if c % 256 == 0 then p + length cs else last_of cs (c % 256) p 0)
unfolding strrchr
strrchr_lem cs fuel c p m str enough = strrchr_loop_lem cs fuel (c % 256) p 0 m str enough

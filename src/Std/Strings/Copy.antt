-- ===== src/Std/Strings/Copy.antt =====
-- kernel/std/string.c: `strcpy` and `strncpy`.
use valecium.Prelude.{
  ℕ, zero, suc, ◌+◌, ◌-◌, ◌≤◌, ◌<◌, ◌≡◌, ◌≢◌, refl, ◌∙◌, false, arith, ◌==◌, if◌then◌else◌, inl,
  ◌⊎◌, some, update, List, [], ◌∷◌, length,
}
use valecium.Mem.Memory.{Memory, within}
use valecium.Std.Strings.{StringAt, strcpy_loop, strcpy, pad, strncpy_loop, strncpy}

-- A string stays where the bytes it takes are the same.
StringAt-same :
    (cs : List ℕ) (p : ℕ) (m m' : Memory)
    → ((a : ℕ) → p ≤ a → a ≤ p + length cs → m' a ≡ m a)
    → StringAt m p cs
    → StringAt m' p cs
StringAt-same [] p m m' same str = same p (omega arith) (omega arith) ∙ str
StringAt-same (c ∷ cs) p m m' same str = (
  same p (omega arith) (omega arith) ∙ str.0,
  str.1,
  StringAt-same cs (p + 1) m m' (λ a lo hi. same a (omega arith) (omega arith)) str.2,
)

-- The two areas of a string and its copy do not overlap.
abbrev pub Apart : ℕ → ℕ → List ℕ → Type 0
Apart dst src cs = (dst + length cs < src) ⊎ (src + length cs < dst)

-- The string is at the address now, and the bytes around it are as before.
pub record CopiedTo (cs : List ℕ) (dst : ℕ) (m m' : Memory) : Type 0 where
  pub copy : StringAt m' dst cs
  pub kept : (a : ℕ) → (a < dst) ⊎ (dst + length cs < a) → m' a ≡ m a

strcpy_loop-CopiedTo :
    (cs : List ℕ) (fuel dst src : ℕ) (m : Memory)
    → StringAt m src cs
    → Apart dst src cs
    → length cs < fuel
    → (m' : Memory) × (strcpy_loop fuel dst src m ≡ some m') × CopiedTo cs dst m m'
unfolding strcpy_loop
strcpy_loop-CopiedTo cs zero dst src m str apart enough = absurd (omega arith)
strcpy_loop-CopiedTo [] (suc fuel) dst src m str apart enough =
    (update m dst 0, ground arith, record { copy = ground arith; kept = λ a off. ground arith })
strcpy_loop-CopiedTo (c ∷ cs) (suc fuel) dst src m str apart enough =
    let m1 = update m dst (m src) in
    let rest : StringAt m1 (src + 1) cs =
      StringAt-same cs (src + 1) m m1 (λ a lo hi. ground (arith, apart)) str.2 in
    let (m', e, copied) =
      strcpy_loop-CopiedTo cs fuel (dst + 1) (src + 1) m1 rest (ground (arith, apart))
        (omega arith) in
    let going : (m src == 0) ≡ false = ground (arith, str.0, str.1) in
    (
      m',
      rw going e,
      record {
        copy = (copied.kept dst (inl (omega arith)) ∙ ground (arith, str.0), str.1, copied.copy);
        kept = λ a off. copied.kept a (ground (arith, off)) ∙ ground (arith, off);
      },
    )

-- `strcpy` of a string to an area that does not overlap it: the string is there, everything around
-- it is as before, and the destination is returned; fuel greater than the number of characters is
-- enough.
pub strcpy-CopiedTo :
    (cs : List ℕ) (fuel dst src : ℕ) (m : Memory)
    → dst ≢ 0
    → src ≢ 0
    → StringAt m src cs
    → Apart dst src cs
    → length cs < fuel
    → (m' : Memory) × (strcpy fuel dst src m ≡ some (dst, m')) × CopiedTo cs dst m m'
unfolding strcpy
strcpy-CopiedTo cs fuel dst src m real real' str apart enough =
    let (m', e, copied) = strcpy_loop-CopiedTo cs fuel dst src m str apart enough in
    let go : (dst == 0) ≡ false = ground arith in
    let go' : (src == 0) ≡ false = ground arith in (m', rw (go, go', e) refl, copied)

-- The characters of a list by index, and 0 behind its end.
unfoldable pub char_at : List ℕ → ℕ → ℕ
char_at [] i = 0
char_at (c ∷ cs) i = if i == 0 then c else char_at cs (i - 1)

pad_lem : (n dst : ℕ) (m : Memory) (a : ℕ) → pad n dst m a ≡ (if within dst n a then 0 else m a)
unfolding pad
pad_lem zero dst m a = ground arith
pad_lem (suc n) dst m a = ground (arith, pad_lem n (dst + 1) (update m dst 0) a)

strncpy_loop_lem :
    (n : ℕ) (cs : List ℕ) (dst src : ℕ) (m : Memory) (a : ℕ)
    → StringAt m src cs
    → (dst + n ≤ src) ⊎ (src + length cs < dst)
    → strncpy_loop n dst src m a ≡ (if within dst n a then char_at cs (a - dst) else m a)
unfolding strncpy_loop char_at
strncpy_loop_lem zero cs dst src m a str apart = ground arith
strncpy_loop_lem (suc n) [] dst src m a str apart = ground (arith, pad_lem (suc n) dst m a)
strncpy_loop_lem (suc n) (c ∷ cs) dst src m a str apart =
    let m1 = update m dst (m src) in
    let rest : StringAt m1 (src + 1) cs =
      StringAt-same cs (src + 1) m m1 (λ b lo hi. ground (arith, apart)) str.2 in
    let going : (m src == 0) ≡ false = ground (arith, str.0, str.1) in
    let index : a - (dst + 1) ≡ a - dst - 1 = omega arith in
    let later = strncpy_loop_lem n cs (dst + 1) (src + 1) m1 a rest (omega arith) in
    rw going (later ∙ rw index (ground (arith, str.0)))

-- `strncpy` of a string with `n` bytes to an area that does not overlap it: the area holds the
-- string's first `n` characters, and zeros where the string is shorter; no other byte changes, and
-- the destination is returned.
pub strncpy_lem :
    (cs : List ℕ) (dst src n : ℕ) (m : Memory)
    → dst ≢ 0
    → src ≢ 0
    → StringAt m src cs
    → (dst + n ≤ src) ⊎ (src + length cs < dst)
    → ((strncpy dst src n m).0 ≡ dst)
      × ((a : ℕ)
          → (strncpy dst src n m).1 a ≡ (if within dst n a then char_at cs (a - dst) else m a))
unfolding strncpy
strncpy_lem cs dst src n m real real' str apart =
    let go : (dst == 0) ≡ false = ground arith in
    let go' : (src == 0) ≡ false = ground arith in
    rw (go, go') (refl, λ a. strncpy_loop_lem n cs dst src m a str apart)

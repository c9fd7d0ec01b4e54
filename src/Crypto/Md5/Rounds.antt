-- ===== src/Crypto/Md5/Rounds.antt =====
-- kernel/crypto/md5.c: the 64 steps of a block by their numbers, as RFC 1321 has them, and that
-- `MD5_Transform` takes these steps.
use valecium.Prelude.{
  ℕ, zero, suc, ◌+◌, ◌*◌, ◌%◌, ◌≤◌, ◌<◌, ◌≡◌, refl, sym, ap, ◌∙◌, Bool, true, false, ◌&&◌, arith,
  ◌==◌, ==_iff, if◌then◌else◌, ltb, u32, List, [], ◌∷◌, ◌++◌, length, get_or, bit_and, bit_or,
}
use Prim.Native.Nat.{bit_xor}
use valecium.Crypto.Md5.{
  Words, Step, step, complement, rotl, md5_f, md5_g, md5_h, md5_i, md5_step, md5_steps, steps_f,
  steps_g, steps_h, steps_i, md5_rounds,
}

-- The function of a step, by its round.
unfoldable pub step_function : ℕ → ℕ → ℕ → ℕ → ℕ
step_function i x y z =
    if ltb i 16
    then bit_or (bit_and x y) (bit_and (complement x) z)
    else if ltb i 32
    then bit_or (bit_and x z) (bit_and y (complement z))
    else if ltb i 48
    then bit_xor (bit_xor x y) z
    else bit_xor y (bit_or x (complement z))

-- The word of the block that a step adds.
unfoldable pub index : ℕ → ℕ
index i =
    if ltb i 16
    then i
    else if ltb i 32
    then (5 * i + 1) % 16
    else if ltb i 48
    then (3 * i + 5) % 16
    else 7 * i % 16

-- How far a step rotates.
unfoldable pub amount : ℕ → ℕ
amount i =
    let row =
      if ltb i 16
      then 7 ∷ 12 ∷ 17 ∷ 22 ∷ []
      else if ltb i 32
      then 5 ∷ 9 ∷ 14 ∷ 20 ∷ []
      else if ltb i 48
      then 4 ∷ 11 ∷ 16 ∷ 23 ∷ []
      else 6 ∷ 10 ∷ 15 ∷ 21 ∷ [] in
    get_or row (i % 4) 0

-- The whole parts of 2^32 times the absolute values of the sines of 1, 2 and so on to 64.
abbrev pub sines : List ℕ
sines =
    (0xd76aa478 ∷ 0xe8c7b756 ∷ 0x242070db ∷ 0xc1bdceee ∷ 0xf57c0faf ∷ 0x4787c62a ∷ 0xa8304613
      ∷ 0xfd469501 ∷ [])
    ++ (0x698098d8 ∷ 0x8b44f7af ∷ 0xffff5bb1 ∷ 0x895cd7be ∷ 0x6b901122 ∷ 0xfd987193 ∷ 0xa679438e
        ∷ 0x49b40821 ∷ [])
    ++ (0xf61e2562 ∷ 0xc040b340 ∷ 0x265e5a51 ∷ 0xe9b6c7aa ∷ 0xd62f105d ∷ 0x02441453 ∷ 0xd8a1e681
        ∷ 0xe7d3fbc8 ∷ [])
    ++ (0x21e1cde6 ∷ 0xc33707d6 ∷ 0xf4d50d87 ∷ 0x455a14ed ∷ 0xa9e3e905 ∷ 0xfcefa3f8 ∷ 0x676f02d9
        ∷ 0x8d2a4c8a ∷ [])
    ++ (0xfffa3942 ∷ 0x8771f681 ∷ 0x6d9d6122 ∷ 0xfde5380c ∷ 0xa4beea44 ∷ 0x4bdecfa9 ∷ 0xf6bb4b60
        ∷ 0xbebfbc70 ∷ [])
    ++ (0x289b7ec6 ∷ 0xeaa127fa ∷ 0xd4ef3085 ∷ 0x04881d05 ∷ 0xd9d4d039 ∷ 0xe6db99e5 ∷ 0x1fa27cf8
        ∷ 0xc4ac5665 ∷ [])
    ++ (0xf4292244 ∷ 0x432aff97 ∷ 0xab9423a7 ∷ 0xfc93a039 ∷ 0x655b59c3 ∷ 0x8f0ccc92 ∷ 0xffeff47d
        ∷ 0x85845dd1 ∷ [])
    ++ (0x6fa87e4f ∷ 0xfe2ce6e0 ∷ 0xa3014314 ∷ 0x4e0811a1 ∷ 0xf7537e82 ∷ 0xbd3af235 ∷ 0x2ad7d2bb
        ∷ 0xeb86d391 ∷ [])

-- A step.
unfoldable pub round : ℕ → (ℕ → ℕ) → Words → Words
round i x w = record {
  a = w.d;
  b = u32 (
      rotl (u32 (w.a + step_function i w.b w.c w.d + x (index i) + get_or sines i 0)) (amount i)
      + w.b);
  c = w.b;
  d = w.c;
}

-- `n` steps from the `i`th on.
unfoldable pub rounds : ℕ → ℕ → (ℕ → ℕ) → Words → Words
rounds zero i x w = w
rounds (suc n) i x w = rounds n (i + 1) x (round i x w)

-- Whether calls of `MD5_STEP` are the steps from the `i`th on.
unfoldable pub are_steps : ℕ → List Step → Bool
are_steps i [] = true
are_steps i (step k s t ∷ sts) =
    k == index i && s == amount i && t == get_or sines i 0 && are_steps (i + 1) sts

rounds-more :
    (m n i : ℕ) (x : ℕ → ℕ) (w : Words) → rounds n (i + m) x (rounds m i x w) ≡ rounds (m + n) i x w
unfolding rounds
rounds-more zero n i x w =
    let here : i + 0 ≡ i = omega arith in
    let all : 0 + n ≡ n = omega arith in
    ap (λ j. rounds n j x w) here ∙ ap (λ m. rounds m i x w) (sym all)
rounds-more (suc m) n i x w =
    let there : i + suc m ≡ i + 1 + m = omega arith in
    let all : suc (m + n) ≡ suc m + n = omega arith in
    ap (λ j. rounds n j x (rounds m (i + 1) x (round i x w))) there
    ∙ rounds-more m n (i + 1) x (round i x w)
    ∙ ap (λ k. rounds k i x w) all

md5_step-round :
    (f : ℕ → ℕ → ℕ → ℕ) (i k s t : ℕ) (x : ℕ → ℕ) (w : Words)
    → f w.b w.c w.d ≡ step_function i w.b w.c w.d
    → k ≡ index i
    → s ≡ amount i
    → t ≡ get_or sines i 0
    → md5_step f x (step k s t) w ≡ round i x w
unfolding md5_step round
md5_step-round f i k s t x w same word far added = rw (same, word, far, added) refl

md5_steps-rounds :
    (f : ℕ → ℕ → ℕ → ℕ) (x : ℕ → ℕ) (sts : List Step) (i : ℕ) (w : Words)
    → ((j : ℕ) → i ≤ j → j < i + length sts → (a b c : ℕ) → f a b c ≡ step_function j a b c)
    → are_steps i sts ≡ true
    → md5_steps f x sts w ≡ rounds (length sts) i x w
unfolding md5_steps rounds are_steps
md5_steps-rounds f x [] i w same good = refl
md5_steps-rounds f x (step k s t ∷ sts) i w same good =
    let word : k ≡ index i = (==_iff k (index i)).0 (ground arith) in
    let far : s ≡ amount i = (==_iff s (amount i)).0 (ground arith) in
    let added : t ≡ get_or sines i 0 = (==_iff t (get_or sines i 0)).0 (ground arith) in
    let rest : are_steps (i + 1) sts ≡ true = ground arith in
    ap (md5_steps f x sts)
      (md5_step-round f i k s t x w (same i (omega arith) (omega arith) w.b w.c w.d) word far added)
    ∙ md5_steps-rounds f x sts (i + 1) (round i x w) (λ j le lt. same j (omega arith) (omega arith))
        rest

f_mix : (j : ℕ) → 0 ≤ j → j < 16 → (a b c : ℕ) → md5_f a b c ≡ step_function j a b c
unfolding md5_f step_function
f_mix j le lt a b c = let e : ltb j 16 ≡ true = ground arith in rw e refl

g_mix : (j : ℕ) → 16 ≤ j → j < 32 → (a b c : ℕ) → md5_g a b c ≡ step_function j a b c
unfolding md5_g step_function
g_mix j le lt a b c =
    let e : ltb j 16 ≡ false = ground arith in
    let e' : ltb j 32 ≡ true = ground arith in rw (e, e') refl

h_mix : (j : ℕ) → 32 ≤ j → j < 48 → (a b c : ℕ) → md5_h a b c ≡ step_function j a b c
unfolding md5_h step_function
h_mix j le lt a b c =
    let e : ltb j 16 ≡ false = ground arith in
    let e' : ltb j 32 ≡ false = ground arith in
    let e'' : ltb j 48 ≡ true = ground arith in rw (e, e', e'') refl

i_mix : (j : ℕ) → 48 ≤ j → j < 64 → (a b c : ℕ) → md5_i a b c ≡ step_function j a b c
unfolding md5_i step_function
i_mix j le lt a b c =
    let e : ltb j 16 ≡ false = ground arith in
    let e' : ltb j 32 ≡ false = ground arith in
    let e'' : ltb j 48 ≡ false = ground arith in rw (e, e', e'') refl

steps_table :
    (are_steps 0 steps_f ≡ true)
    × (are_steps 16 steps_g ≡ true)
    × (are_steps 32 steps_h ≡ true)
    × (are_steps 48 steps_i ≡ true)
unfolding are_steps index amount
steps_table = (refl, refl, refl, refl)

-- The 64 calls of `MD5_STEP` are the 64 steps.
pub md5_rounds-rounds : (x : ℕ → ℕ) (w : Words) → md5_rounds x w ≡ rounds 64 0 x w
unfolding md5_rounds
md5_rounds-rounds x w =
    let (fs, gs, hs, is) = steps_table in
    let one = md5_steps-rounds md5_f x steps_f 0 w f_mix fs in
    let two = md5_steps-rounds md5_g x steps_g 16 (rounds 16 0 x w) g_mix gs in
    let three = md5_steps-rounds md5_h x steps_h 32 (rounds 32 0 x w) h_mix hs in
    let four = md5_steps-rounds md5_i x steps_i 48 (rounds 48 0 x w) i_mix is in
    ap (λ v. md5_steps md5_i x steps_i (md5_steps md5_h x steps_h (md5_steps md5_g x steps_g v)))
      one
    ∙ ap (λ v. md5_steps md5_i x steps_i (md5_steps md5_h x steps_h v))
        (two ∙ rounds-more 16 16 0 x w)
    ∙ ap (λ v. md5_steps md5_i x steps_i v) (three ∙ rounds-more 32 16 0 x w)
    ∙ four
    ∙ rounds-more 48 16 0 x w

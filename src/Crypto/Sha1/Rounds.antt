-- ===== src/Crypto/Sha1/Rounds.antt =====
-- kernel/crypto/sha1.c: the words and the 80 steps of a block by their numbers, as FIPS 180 has them,
-- and that the code takes these steps.
use valecium.Prelude.{
  ℕ, zero, suc, ◌+◌, ◌-◌, ◌/◌, ◌≤◌, ◌<◌, ◌≡◌, refl, ap, ◌∙◌, true, false, arith, if◌then◌else◌, ltb,
  u32, List, [], ◌∷◌, ◌++◌, length, length-append, get_or, bit_and, bit_or, inl, inr, Bool-cases,
}
use Prim.Native.Nat.{bit_xor}
use mathlib.Core.List.{reverse, reverse-cons}
use valecium.Crypto.Blocks.Digest.{get_or-append-left, get_or-append-right}
use valecium.Crypto.Md5.{complement, rotl}
use valecium.Crypto.Sha1.{
  Words, mix, constant, load32_be, load_words, extend_words, sha1_round, sha1_rounds,
  schedule_words,
}

-- The word of a step: one of the sixteen of the block, or made of four before it. `n` is greater than
-- the number of the step.
unfoldable pub word : (ℕ → ℕ) → ℕ → ℕ → ℕ
word block zero t = 0
word block (suc n) t =
    let a = word block n (t - 3) in
    let b = word block n (t - 8) in
    let c = word block n (t - 14) in
    let d = word block n (t - 16) in
    if ltb t 16 then load32_be block t else rotl (bit_xor (bit_xor (bit_xor a b) c) d) 1

abbrev pub step_word : (ℕ → ℕ) → ℕ → ℕ
step_word block t = word block (suc t) t

-- The function and the constant of a step.
unfoldable pub function : ℕ → ℕ → ℕ → ℕ → ℕ
function t b c d =
    if ltb t 20
    then bit_or (bit_and b c) (bit_and (complement b) d)
    else if ltb t 40
    then bit_xor (bit_xor b c) d
    else if ltb t 60
    then bit_or (bit_or (bit_and b c) (bit_and b d)) (bit_and c d)
    else bit_xor (bit_xor b c) d

unfoldable pub added : ℕ → ℕ
added t = get_or (0x5a827999 ∷ 0x6ed9eba1 ∷ 0x8f1bbcdc ∷ 0xca62c1d6 ∷ []) (t / 20) 0

-- `n` steps from the `t`th on, with the words `ws`.
unfoldable pub rounds : ℕ → ℕ → (ℕ → ℕ) → Words → Words
rounds zero t ws w = w
rounds (suc n) t ws w = rounds n (t + 1) ws (record {
  a = u32 (rotl w.a 5 + function t w.b w.c w.d + w.e + added t + ws t);
  b = w.a;
  c = rotl w.b 30;
  d = w.c;
  e = w.d;
})

word_enough : (block : ℕ → ℕ) (n m t : ℕ) → t < n → t < m → word block n t ≡ word block m t
unfolding word
word_enough block zero m t lt lt' = absurd (omega arith)
word_enough block (suc n) zero t lt lt' = absurd (omega arith)
word_enough block (suc n) (suc m) t lt lt' = elim (Bool-cases (ltb t 16)) [
  | inl early ↦ rw early refl
  | inr late ↦
      let far : 16 ≤ t = ground arith in
      let e3 = word_enough block n m (t - 3) (omega arith) (omega arith) in
      let e8 = word_enough block n m (t - 8) (omega arith) (omega arith) in
      let e14 = word_enough block n m (t - 14) (omega arith) (omega arith) in
      let e16 = word_enough block n m (t - 16) (omega arith) (omega arith) in
      rw (late, e3, e8, e14, e16) refl
]

-- The words so far, the last one first.
record IsReversed (block : ℕ → ℕ) (n : ℕ) (ws : List ℕ) : Type 0 where
  size : length ws ≡ n
  words : (i : ℕ) → i < n → get_or ws i 0 ≡ step_word block (n - 1 - i)

one_more :
    (block : ℕ → ℕ) (n x : ℕ) (ws : List ℕ)
    → IsReversed block n ws
    → x ≡ step_word block n
    → IsReversed block (suc n) (x ∷ ws)
one_more block n x ws r same = record { size = ap suc r.size; words = words }
  where
    words : (i : ℕ) → i < suc n → get_or (x ∷ ws) i 0 ≡ step_word block (suc n - 1 - i)
    words zero lt = same ∙ ap (step_word block) (let e : n ≡ suc n - 1 - 0 = omega arith in e)
    words (suc i) lt =
        r.words i (omega arith)
        ∙ ap (step_word block) (let e : n - 1 - i ≡ suc n - 1 - suc i = omega arith in e)

load_words-IsReversed :
    (n t : ℕ) (block : ℕ → ℕ) (ws : List ℕ)
    → t + n ≤ 16
    → IsReversed block t ws
    → IsReversed block (t + n) (load_words n t block ws)
unfolding load_words
load_words-IsReversed zero t block ws fits r = let e : t + 0 ≡ t = omega arith in rw e r
load_words-IsReversed (suc n) t block ws fits r =
    let e : suc t + n ≡ t + suc n = omega arith in
    let e' : suc t ≡ t + 1 = omega arith in
    let early : ltb t 16 ≡ true = ground arith in
    let here : load32_be block t ≡ step_word block t = unfold word in rw early refl in
    let next = one_more block t (load32_be block t) ws r here in
    let rest = load_words-IsReversed n (suc t) block (load32_be block t ∷ ws) (omega arith) next in
    rw (← e, ← e') rest

extend_words-IsReversed :
    (n t : ℕ) (block : ℕ → ℕ) (ws : List ℕ)
    → 16 ≤ t
    → IsReversed block t ws
    → IsReversed block (t + n) (extend_words n ws)
unfolding extend_words
extend_words-IsReversed zero t block ws far r = let e : t + 0 ≡ t = omega arith in rw e r
extend_words-IsReversed (suc n) t block ws far r =
    let e : suc t + n ≡ t + suc n = omega arith in
    let late : ltb t 16 ≡ false = ground arith in
    let at = λ (k j : ℕ) (lt : k < t) (place : t - 1 - k ≡ j) (less : j < t).
      r.words k lt
      ∙ ap (step_word block) place
      ∙ word_enough block (suc j) t j (omega arith) less in
    let e3 = at 2 (t - 3) (omega arith) (omega arith) (omega arith) in
    let e8 = at 7 (t - 8) (omega arith) (omega arith) (omega arith) in
    let e14 = at 13 (t - 14) (omega arith) (omega arith) (omega arith) in
    let e16 = at 15 (t - 16) (omega arith) (omega arith) (omega arith) in
    let x =
      rotl
        (bit_xor (bit_xor (bit_xor (get_or ws 2 0) (get_or ws 7 0)) (get_or ws 13 0))
          (get_or ws 15 0))
        1 in
    let here : x ≡ step_word block t = unfold word in rw (late, e3, e8, e14, e16) refl in
    let rest =
      extend_words-IsReversed n (suc t) block (x ∷ ws) (omega arith)
        (one_more block t x ws r here) in
    rw (← e) rest

sha1_round-words :
    (t x : ℕ) (ws : ℕ → ℕ) (w : Words) → t < 80 → x ≡ ws t → sha1_round t x w ≡ rounds 1 t ws w
unfolding sha1_round rounds mix constant function added
sha1_round-words t x ws w lt same = rw same (elim (Bool-cases (ltb t 20)) [
  | inl one ↦ let e : t / 20 ≡ 0 = ground arith in rw (one, e) refl
  | inr one ↦ elim (Bool-cases (ltb t 40)) [
    | inl two ↦ let e : t / 20 ≡ 1 = ground arith in rw (one, two, e) refl
    | inr two ↦ elim (Bool-cases (ltb t 60)) [
      | inl three ↦ let e : t / 20 ≡ 2 = ground arith in rw (one, two, three, e) refl
      | inr three ↦ let e : t / 20 ≡ 3 = ground arith in rw (one, two, three, e) refl
    ]
  ]
])

sha1_rounds-rounds :
    (xs : List ℕ) (t : ℕ) (ws : ℕ → ℕ) (w : Words)
    → t + length xs ≤ 80
    → ((i : ℕ) → i < length xs → get_or xs i 0 ≡ ws (t + i))
    → sha1_rounds t xs w ≡ rounds (length xs) t ws w
unfolding sha1_rounds rounds
sha1_rounds-rounds [] t ws w fits same = refl
sha1_rounds-rounds (x ∷ xs) t ws w fits same =
    let here : t + 0 ≡ t = omega arith in
    let one = sha1_round-words t x ws w (omega arith) (same 0 (omega arith) ∙ ap ws here) in
    ap (sha1_rounds (t + 1) xs) one
    ∙ sha1_rounds-rounds xs (t + 1) ws _ (omega arith) (λ i lt.
      same (suc i) (omega arith) ∙ ap ws (let e : t + suc i ≡ t + 1 + i = omega arith in e))

-- The words in their order.
record IsForward (block : ℕ → ℕ) (n : ℕ) (xs : List ℕ) : Type 0 where
  size : length xs ≡ n
  words : (i : ℕ) → i < n → get_or xs i 0 ≡ step_word block i

reverse-IsForward :
    (block : ℕ → ℕ) (n : ℕ) (ws : List ℕ) → IsReversed block n ws → IsForward block n (reverse ws)
reverse-IsForward block n [] r = record {
  size = r.size;
  words = λ i lt. absurd (let none : 0 ≡ n = r.size in omega arith);
}
reverse-IsForward block zero (x ∷ ws) r =
    absurd (let some : suc (length ws) ≡ 0 = r.size in omega arith)
reverse-IsForward block (suc n) (x ∷ ws) r =
    let size : length ws ≡ n = let all : suc (length ws) ≡ suc n = r.size in omega arith in
    let before : IsReversed block n ws = record {
      size = size;
      words = λ i lt.
          r.words (suc i) (omega arith)
          ∙ ap (step_word block) (let e : suc n - 1 - suc i ≡ n - 1 - i = omega arith in e);
    } in
    let front = reverse-IsForward block n ws before in
    let whole = reverse-cons x ws in
    let size' = length-append (reverse ws) (x ∷ []) in
    rw whole (record {
      size = size' ∙ (let e : length (reverse ws) + 1 ≡ suc n = omega (arith, front.size) in e);
      words = λ i lt. elim (Bool-cases (ltb i n)) [
        | inl early ↦
            get_or-append-left (reverse ws) (x ∷ []) i (ground (arith, front.size))
            ∙ front.words i (ground arith)
        | inr late ↦
            let here : i ≡ length (reverse ws) + 0 = ground (arith, front.size) in
            let last : suc n - 1 - 0 ≡ i = ground arith in
            ap (λ j. get_or (reverse ws ++ x ∷ []) j 0) here
            ∙ get_or-append-right (reverse ws) (x ∷ []) 0
            ∙ r.words 0 (omega arith)
            ∙ ap (step_word block) last
      ];
    })

-- The code's 80 rounds on the words of a block are the 80 steps.
pub sha1_rounds-words :
    (block : ℕ → ℕ) (w : Words)
    → sha1_rounds 0 (schedule_words block) w ≡ rounds 80 0 (step_word block) w
unfolding schedule_words
sha1_rounds-words block w =
    let nothing : IsReversed block 0 [] = record {
      size = refl;
      words = λ i lt. absurd (omega arith);
    } in
    let loaded = load_words-IsReversed 16 0 block [] (omega arith) nothing in
    let extended =
      extend_words-IsReversed 64 16 block (load_words 16 0 block []) (omega arith) loaded in
    let ws = extend_words 64 (load_words 16 0 block []) in
    let forward = reverse-IsForward block 80 ws extended in
    sha1_rounds-rounds (reverse ws) 0 (step_word block) w (omega (arith, forward.size)) (λ i lt.
      forward.words i (omega (arith, lt, forward.size))
      ∙ ap (step_word block) (let e : i ≡ 0 + i = omega arith in e))
    ∙ ap (λ n. rounds n 0 (step_word block) w) forward.size

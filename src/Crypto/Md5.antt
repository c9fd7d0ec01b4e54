-- ===== src/Crypto/Md5.antt =====
-- kernel/crypto/md5.c: MD5, on the blocks of `Blocks`. A word is a number below 2^32.
pub mod Reference
pub mod Rounds
use valecium.Prelude.{
  ℕ, zero, suc, ◌+◌, ◌-◌, ◌*◌, ◌/◌, ◌%◌, ◌^◌, ◌≤◌, ◌<◌, ◌≡◌, ◌≢◌, refl, sym, ap, ◌∙◌, Bool, true,
  false, not, ◌&&◌, ◌||◌, arith, ◌==◌, ==_iff, if◌then◌else◌, inl, inr, ◌⊎◌, Bool-cases,
  Option-cases, Option, none, some, ltb, leb, u8, u32, update, List, [], ◌∷◌, ◌++◌, fun_ext,
  has_bit, length, length-append, get_or, take, drop, replicate, map, bit_and, bit_or, length-map,
  length-replicate,
}
use Prim.Native.Nat.{bit_xor}
use valecium.Crypto.Blocks.{Context, update_context, finish}

abbrev pub complement : ℕ → ℕ
complement x = bit_xor x 0xffffffff

-- `x << s | x >> (32 - s)` on 32 bits.
abbrev pub rotl : ℕ → ℕ → ℕ
rotl x s = bit_or (u32 (x * 2 ^ s)) (x / 2 ^ (32 - s))

unfoldable pub md5_f : ℕ → ℕ → ℕ → ℕ
md5_f x y z = bit_or (bit_and x y) (bit_and (complement x) z)

unfoldable pub md5_g : ℕ → ℕ → ℕ → ℕ
md5_g x y z = bit_or (bit_and x z) (bit_and y (complement z))

unfoldable pub md5_h : ℕ → ℕ → ℕ → ℕ
md5_h x y z = bit_xor (bit_xor x y) z

unfoldable pub md5_i : ℕ → ℕ → ℕ → ℕ
md5_i x y z = bit_xor y (bit_or x (complement z))

-- The four words of the state, also the variables `a` to `d`.
pub record Words : Type 0 where
  pub a : ℕ
  pub b : ℕ
  pub c : ℕ
  pub d : ℕ

-- A call of `MD5_STEP`: the index of the word, the shift and the constant.
pub data Step : Type 0 where
  step : ℕ → ℕ → ℕ → Step

-- `MD5_STEP`. The next call names the variables one place further, so the result is turned.
unfoldable pub md5_step : (ℕ → ℕ → ℕ → ℕ) → (ℕ → ℕ) → Step → Words → Words
md5_step f x (step k s t) w =
    let sum = u32 (w.a + f w.b w.c w.d + x k + t) in
    record { a = w.d; b = u32 (rotl sum s + w.b); c = w.b; d = w.c }

unfoldable pub md5_steps : (ℕ → ℕ → ℕ → ℕ) → (ℕ → ℕ) → List Step → Words → Words
md5_steps f x [] w = w
md5_steps f x (st ∷ sts) w = md5_steps f x sts (md5_step f x st w)

abbrev steps_f : List Step
steps_f =
    step 0 7 0xd76aa478
    ∷ step 1 12 0xe8c7b756
    ∷ step 2 17 0x242070db
    ∷ step 3 22 0xc1bdceee
    ∷ step 4 7 0xf57c0faf
    ∷ step 5 12 0x4787c62a
    ∷ step 6 17 0xa8304613
    ∷ step 7 22 0xfd469501
    ∷ step 8 7 0x698098d8
    ∷ step 9 12 0x8b44f7af
    ∷ step 10 17 0xffff5bb1
    ∷ step 11 22 0x895cd7be
    ∷ step 12 7 0x6b901122
    ∷ step 13 12 0xfd987193
    ∷ step 14 17 0xa679438e
    ∷ step 15 22 0x49b40821
    ∷ []

abbrev steps_g : List Step
steps_g =
    step 1 5 0xf61e2562
    ∷ step 6 9 0xc040b340
    ∷ step 11 14 0x265e5a51
    ∷ step 0 20 0xe9b6c7aa
    ∷ step 5 5 0xd62f105d
    ∷ step 10 9 0x02441453
    ∷ step 15 14 0xd8a1e681
    ∷ step 4 20 0xe7d3fbc8
    ∷ step 9 5 0x21e1cde6
    ∷ step 14 9 0xc33707d6
    ∷ step 3 14 0xf4d50d87
    ∷ step 8 20 0x455a14ed
    ∷ step 13 5 0xa9e3e905
    ∷ step 2 9 0xfcefa3f8
    ∷ step 7 14 0x676f02d9
    ∷ step 12 20 0x8d2a4c8a
    ∷ []

abbrev steps_h : List Step
steps_h =
    step 5 4 0xfffa3942
    ∷ step 8 11 0x8771f681
    ∷ step 11 16 0x6d9d6122
    ∷ step 14 23 0xfde5380c
    ∷ step 1 4 0xa4beea44
    ∷ step 4 11 0x4bdecfa9
    ∷ step 7 16 0xf6bb4b60
    ∷ step 10 23 0xbebfbc70
    ∷ step 13 4 0x289b7ec6
    ∷ step 0 11 0xeaa127fa
    ∷ step 3 16 0xd4ef3085
    ∷ step 6 23 0x04881d05
    ∷ step 9 4 0xd9d4d039
    ∷ step 12 11 0xe6db99e5
    ∷ step 15 16 0x1fa27cf8
    ∷ step 2 23 0xc4ac5665
    ∷ []

abbrev steps_i : List Step
steps_i =
    step 0 6 0xf4292244
    ∷ step 7 10 0x432aff97
    ∷ step 14 15 0xab9423a7
    ∷ step 5 21 0xfc93a039
    ∷ step 12 6 0x655b59c3
    ∷ step 3 10 0x8f0ccc92
    ∷ step 10 15 0xffeff47d
    ∷ step 1 21 0x85845dd1
    ∷ step 8 6 0x6fa87e4f
    ∷ step 15 10 0xfe2ce6e0
    ∷ step 6 15 0xa3014314
    ∷ step 13 21 0x4e0811a1
    ∷ step 4 6 0xf7537e82
    ∷ step 11 10 0xbd3af235
    ∷ step 2 15 0x2ad7d2bb
    ∷ step 9 21 0xeb86d391
    ∷ []

-- `MD5_Decode32` of a block, a word at a time.
unfoldable pub decode32 : (ℕ → ℕ) → ℕ → ℕ
decode32 input i =
    bit_or
      (bit_or (bit_or (input (4 * i)) (u32 (input (4 * i + 1) * 2 ^ 8)))
        (u32 (input (4 * i + 2) * 2 ^ 16)))
      (u32 (input (4 * i + 3) * 2 ^ 24))

-- `MD5_Encode32` of words, a byte at a time.
unfoldable pub encode32 : (ℕ → ℕ) → ℕ → ℕ
encode32 words j = words (j / 4) / 2 ^ (8 * (j % 4)) % 256

-- The 64 calls of `MD5_STEP`.
unfoldable pub md5_rounds : (ℕ → ℕ) → Words → Words
md5_rounds x w =
    md5_steps md5_i x steps_i
      (md5_steps md5_h x steps_h (md5_steps md5_g x steps_g (md5_steps md5_f x steps_f w)))

unfoldable pub add_words : Words → Words → Words
add_words v w = record {
  a = u32 (v.a + w.a);
  b = u32 (v.b + w.b);
  c = u32 (v.c + w.c);
  d = u32 (v.d + w.d);
}

unfoldable pub transform : Words → (ℕ → ℕ) → Words
transform st block = add_words st (md5_rounds (decode32 block) st)

unfoldable pub init : Context Words
init = record {
  state = record { a = 0x67452301; b = 0xefcdab89; c = 0x98badcfe; d = 0x10325476 };
  bit_count = 0;
  buffer = λ i. 0;
}

unfoldable pub update_md5 : Context Words → (ℕ → ℕ) → ℕ → Context Words
update_md5 = update_context transform

-- `bit_count_words`, as bytes.
unfoldable pub count_bytes : ℕ → ℕ → ℕ
count_bytes bits = encode32 (λ i. if i == 0 then bits % 2 ^ 32 else bits / 2 ^ 32 % 2 ^ 32)

abbrev pub word_of : Words → ℕ → ℕ
word_of w i = if i == 0 then w.a else if i == 1 then w.b else if i == 2 then w.c else w.d

-- The bytes of the digest.
unfoldable pub final : Context Words → ℕ → ℕ
final ctx = encode32 (word_of (finish transform count_bytes ctx))

unfoldable pub calculate : (ℕ → ℕ) → ℕ → ℕ → ℕ
calculate input len = final (update_md5 init input len)

abbrev pub hex_char : ℕ → ℕ
hex_char v = if ltb v 10 then b'0' + v else b'a' + (v - 10)

-- `MD5_ToHex`: the characters for the bytes from `i` on, without the 0 at the end.
unfoldable pub to_hex : ℕ → ℕ → (ℕ → ℕ) → List ℕ
to_hex zero i digest = []
to_hex (suc n) i digest =
    hex_char (bit_and (digest i / 2 ^ 4) 15)
    ∷ hex_char (bit_and (digest i) 15)
    ∷ to_hex n (i + 1) digest

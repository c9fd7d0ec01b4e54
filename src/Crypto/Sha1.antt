-- ===== src/Crypto/Sha1.antt =====
-- kernel/crypto/sha1.c: SHA-1, on the blocks of `Blocks`. A word is a number below 2^32.
pub mod Reference
pub mod Rounds
use valecium.Prelude.{
  ℕ, zero, suc, ◌+◌, ◌-◌, ◌*◌, ◌/◌, ◌%◌, ◌^◌, ◌≤◌, ◌<◌, ◌≡◌, ◌≢◌, refl, sym, ap, ◌∙◌, Bool, true,
  false, not, ◌&&◌, ◌||◌, arith, ◌==◌, ==_iff, if◌then◌else◌, inl, inr, ◌⊎◌, Bool-cases,
  Option-cases, Option, none, some, ltb, leb, u8, u32, update, List, [], ◌∷◌, ◌++◌, fun_ext,
  has_bit, length, length-append, get_or, take, drop, replicate, map, bit_and, bit_or, length-map,
  length-replicate,
}
use Prim.Native.Nat.{bit_xor}
use valecium.Crypto.Blocks.{Context, update_context, finish}
use mathlib.Core.List.{reverse}
use valecium.Crypto.Md5.{complement, rotl, hex_char}

-- The five words of the state, also the variables `a` to `e`.
pub record Words : Type 0 where
  pub a : ℕ
  pub b : ℕ
  pub c : ℕ
  pub d : ℕ
  pub e : ℕ

-- The value of `f` in round `t`.
unfoldable pub mix : ℕ → Words → ℕ
mix t w =
    if ltb t 20
    then bit_or (bit_and w.b w.c) (bit_and (complement w.b) w.d)
    else if ltb t 40
    then bit_xor (bit_xor w.b w.c) w.d
    else if ltb t 60
    then bit_or (bit_or (bit_and w.b w.c) (bit_and w.b w.d)) (bit_and w.c w.d)
    else bit_xor (bit_xor w.b w.c) w.d

-- The constant `k` of round `t`.
unfoldable pub constant : ℕ → ℕ
constant t =
    if ltb t 20
    then 0x5a827999
    else if ltb t 40
    then 0x6ed9eba1
    else if ltb t 60
    then 0x8f1bbcdc
    else 0xca62c1d6

-- A word of the block, the highest byte first.
unfoldable pub load32_be : (ℕ → ℕ) → ℕ → ℕ
load32_be block t =
    bit_or
      (bit_or (bit_or (u32 (block (4 * t) * 2 ^ 24)) (u32 (block (4 * t + 1) * 2 ^ 16)))
        (u32 (block (4 * t + 2) * 2 ^ 8)))
      (block (4 * t + 3))

-- The first loop: the words from `t` on are put before those that are there.
unfoldable pub load_words : ℕ → ℕ → (ℕ → ℕ) → List ℕ → List ℕ
load_words zero t block ws = ws
load_words (suc n) t block ws = load_words n (t + 1) block (load32_be block t ∷ ws)

-- The second loop. The words so far are in reverse, so that `w[t - 3]` has index 2.
unfoldable pub extend_words : ℕ → List ℕ → List ℕ
extend_words zero ws = ws
extend_words (suc n) ws = extend_words n (
    rotl
      (bit_xor (bit_xor (bit_xor (get_or ws 2 0) (get_or ws 7 0)) (get_or ws 13 0))
        (get_or ws 15 0))
      1
    ∷ ws)

unfoldable pub sha1_round : ℕ → ℕ → Words → Words
sha1_round t word w = record {
  a = u32 (rotl w.a 5 + mix t w + w.e + constant t + word);
  b = w.a;
  c = rotl w.b 30;
  d = w.c;
  e = w.d;
}

-- The third loop, over the words from `t` on.
unfoldable pub sha1_rounds : ℕ → List ℕ → Words → Words
sha1_rounds t [] w = w
sha1_rounds t (x ∷ xs) w = sha1_rounds (t + 1) xs (sha1_round t x w)

-- The array `w`.
unfoldable pub schedule_words : (ℕ → ℕ) → List ℕ
schedule_words block = reverse (extend_words 64 (load_words 16 0 block []))

unfoldable pub add_words : Words → Words → Words
add_words v w = record {
  a = u32 (v.a + w.a);
  b = u32 (v.b + w.b);
  c = u32 (v.c + w.c);
  d = u32 (v.d + w.d);
  e = u32 (v.e + w.e);
}

unfoldable pub transform : Words → (ℕ → ℕ) → Words
transform st block = add_words st (sha1_rounds 0 (schedule_words block) st)

unfoldable pub init : Context Words
init = record {
  state = record { a = 0x67452301; b = 0xefcdab89; c = 0x98badcfe; d = 0x10325476; e = 0xc3d2e1f0 };
  bit_count = 0;
  buffer = λ i. 0;
}

unfoldable pub update_sha1 : Context Words → (ℕ → ℕ) → ℕ → Context Words
update_sha1 = update_context transform

-- `SHA1_Encode32BE`, a byte at a time.
unfoldable pub encode32_be : (ℕ → ℕ) → ℕ → ℕ
encode32_be words j = words (j / 4) / 2 ^ (24 - 8 * (j % 4)) % 256

unfoldable pub count_bytes : ℕ → ℕ → ℕ
count_bytes bits = encode32_be (λ i. if i == 0 then bits / 2 ^ 32 % 2 ^ 32 else bits % 2 ^ 32)

abbrev pub word_of : Words → ℕ → ℕ
word_of w i =
    if i == 0
    then w.a
    else if i == 1
    then w.b
    else if i == 2
    then w.c
    else if i == 3
    then w.d
    else w.e

-- The bytes of the digest.
unfoldable pub final : Context Words → ℕ → ℕ
final ctx = encode32_be (word_of (finish transform count_bytes ctx))

unfoldable pub calculate : (ℕ → ℕ) → ℕ → ℕ → ℕ
calculate input len = final (update_sha1 init input len)

-- `SHA1_ToHex`: the characters for the bytes from `i` on, without the 0 at the end.
unfoldable pub to_hex : ℕ → ℕ → (ℕ → ℕ) → List ℕ
to_hex zero i digest = []
to_hex (suc n) i digest =
    hex_char (bit_and (digest i / 2 ^ 4) 15)
    ∷ hex_char (bit_and (digest i) 15)
    ∷ to_hex n (i + 1) digest

-- ===== src/Crypto/Sha1/Reference.antt =====
-- kernel/crypto/sha1.c: the digest is that of the padded message.
use valecium.Prelude.{
  ℕ, zero, suc, ◌+◌, ◌*◌, ◌≤◌, ◌<◌, ◌≡◌, refl, ap, ◌∙◌, arith, List, [], ◌∷◌, length,
}
use valecium.Prelude.{zero, suc, ◌-◌, ◌/◌, ◌%◌, ◌^◌, fun_ext}
use mathlib.Core.List.{append-nil, reverse}
use valecium.Crypto.Blocks.Absorb.{fold_blocks, ReadsBlock}
use valecium.Crypto.Blocks.Digest.{
  bytes_of, padded, block_count, AllShort, Agree, update_all, concat, finish-update_all,
}
use valecium.Crypto.Sha1.Rounds.{rounds, step_word, sha1_rounds-words}
use valecium.Crypto.Sha1.{
  Words, load32_be, load_words, extend_words, schedule_words, sha1_rounds, add_words, encode32_be,
  transform, init, update_sha1, count_bytes, word_of, final, calculate,
}

load_words-eq :
    (n t : ℕ) (f g : ℕ → ℕ) (ws : List ℕ)
    → t + n ≤ 16
    → ((i : ℕ) → i < 64 → f i ≡ g i)
    → load_words n t f ws ≡ load_words n t g ws
unfolding load_words load32_be
load_words-eq zero t f g ws fits same = refl
load_words-eq (suc n) t f g ws fits same =
    rw
      (
        same (4 * t) (omega arith),
        same (4 * t + 1) (omega arith),
        same (4 * t + 2) (omega arith),
        same (4 * t + 3) (omega arith),
      )
      (load_words-eq n (t + 1) f g _ (omega arith) same)

transform-ReadsBlock : ReadsBlock transform
unfolding transform schedule_words
transform-ReadsBlock st f g same =
    ap (λ ws. add_words st (sha1_rounds 0 (reverse (extend_words 64 ws)) st))
      (load_words-eq 16 0 f g [] (omega arith) same)

-- The bytes of the bit count at the end of the padded message, the high one first.
abbrev count_byte : ℕ → ℕ → ℕ
count_byte bits i = bits / 2 ^ (8 * (7 - i)) % 256

-- The state that SHA-1 begins with.
abbrev first_state : Words
first_state = record {
  a = 0x67452301;
  b = 0xefcdab89;
  c = 0x98badcfe;
  d = 0x10325476;
  e = 0xc3d2e1f0;
}

-- The transformation by a block: the 80 steps of FIPS 180 on its words, whose values are added.
abbrev block_step : Words → (ℕ → ℕ) → Words
block_step st block = add_words st (rounds 80 0 (step_word block) st)

-- The digest of a message: the state that SHA-1 begins with is transformed by each block of the
-- padded message, and the bytes of its words are put down, the high one first.
unfoldable pub sha1 : List ℕ → ℕ → ℕ
sha1 message j =
    let last =
      fold_blocks block_step (block_count (length message)) (padded count_byte message)
        first_state in
    word_of last (j / 4) / 2 ^ (8 * (3 - j % 4)) % 256

transform_lem : transform ≡ block_step
unfolding transform
transform_lem = fun_ext (λ st. fun_ext (λ block. ap (add_words st) (sha1_rounds-words block st)))

count_bytes-Agree : Agree count_bytes count_byte
unfolding count_bytes encode32_be
count_bytes-Agree bits zero fits lt = omega (arith, fits)
count_bytes-Agree bits (suc zero) fits lt = omega (arith, fits)
count_bytes-Agree bits (suc (suc zero)) fits lt = omega (arith, fits)
count_bytes-Agree bits (suc (suc (suc zero))) fits lt = omega (arith, fits)
count_bytes-Agree bits (suc (suc (suc (suc zero)))) fits lt = omega (arith, fits)
count_bytes-Agree bits (suc (suc (suc (suc (suc zero))))) fits lt = omega (arith, fits)
count_bytes-Agree bits (suc (suc (suc (suc (suc (suc zero)))))) fits lt = omega (arith, fits)
count_bytes-Agree bits (suc (suc (suc (suc (suc (suc (suc zero))))))) fits lt = omega (arith, fits)
count_bytes-Agree bits (suc (suc (suc (suc (suc (suc (suc (suc i)))))))) fits lt =
    absurd (omega (arith, lt))

finished :
    (w : Words) (j : ℕ)
    → encode32_be (word_of w) j ≡ word_of w (j / 4) / 2 ^ (8 * (3 - j % 4)) % 256
unfolding encode32_be
finished w j =
    let place : 24 - 8 * (j % 4) ≡ 8 * (3 - j % 4) = omega arith in
    ap (λ k. word_of w (j / 4) / 2 ^ k % 256) place

-- However a message is cut into parts of less than 2^32 - 63 bytes that are passed to `SHA1_Update`,
-- the digest is made of the initial state, transformed by the blocks of the padded message: it is
-- followed by a byte 0x80, zeros up to 8 bytes before the end of a block, and the count of its bits
-- modulo 2^64. The same holds of `SHA1_Calculate` for a message in one piece of that length. The
-- transformation by a block is that of FIPS 180: 80 steps, each with its function, its constant and
-- its word, which is one of the block or made of four earlier ones; the words are read from the
-- block, and added to the state at the end, as in the code.
pub update_all-sha1 :
    (parts : List (List ℕ)) (message : List ℕ)
    → AllShort parts
    → length message + 63 < 2 ^ 32
    → (final (update_all transform parts init) ≡ sha1 (concat parts))
      × (calculate (bytes_of message) (length message) ≡ sha1 message)
unfolding final sha1 calculate update_sha1 init update_all concat
update_all-sha1 parts message short whole_short =
    let digest = λ (parts' : List (List ℕ)).
      finish-update_all transform transform-ReadsBlock count_bytes count_byte first_state parts'
        init count_bytes-Agree refl refl
      ∙ ap
          (λ (t : Words → (ℕ → ℕ) → Words).
            fold_blocks t (block_count (length (concat parts'))) (padded count_byte (concat parts'))
              first_state)
          transform_lem in
    (
      fun_ext (λ j. ap (λ w. encode32_be (word_of w) j) (digest parts) ∙ finished _ j),
      fun_ext (λ j. ap (λ w. encode32_be (word_of w) j) (digest (message ∷ [])) ∙ finished _ j)
          ∙ ap sha1 (append-nil message),
    )

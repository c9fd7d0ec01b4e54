-- ===== src/Crypto/Md5/Reference.antt =====
-- kernel/crypto/md5.c: the digest is that of the padded message.
use valecium.Prelude.{ℕ, ◌+◌, ◌*◌, ◌<◌, ◌≡◌, refl, ap, ◌∙◌, arith, u32, List, [], ◌∷◌, length}
use valecium.Prelude.{zero, suc, ◌/◌, ◌%◌, ◌^◌, fun_ext}
use mathlib.Core.List.{append-nil}
use valecium.Crypto.Blocks.Absorb.{fold_blocks, ReadsBlock}
use valecium.Crypto.Blocks.Digest.{
  bytes_of, padded, block_count, AllShort, Agree, update_all, concat, finish-update_all,
}
use valecium.Crypto.Md5.Rounds.{rounds, md5_rounds-rounds}
use valecium.Crypto.Md5.{
  Words, Step, step, md5_f, md5_g, md5_h, md5_i, md5_step, md5_steps, steps_f, steps_g, steps_h,
  steps_i, decode32, encode32, transform, init, update_md5, count_bytes, word_of, final, rotl,
  md5_rounds, add_words, calculate,
}

-- The steps use the sixteen words of the block.
abbrev AllInBlock : List Step → Type 0
AllInBlock [] = Unit {0}
AllInBlock (step k s t ∷ sts) = (k < 16) × AllInBlock sts

md5_steps-eq :
    (f : ℕ → ℕ → ℕ → ℕ) (x y : ℕ → ℕ)
    → ((k : ℕ) → k < 16 → x k ≡ y k)
    → (sts : List Step) → AllInBlock sts
    → (w : Words) → md5_steps f x sts w ≡ md5_steps f y sts w
unfolding md5_steps md5_step
md5_steps-eq f x y same [] inside w = refl
md5_steps-eq f x y same (step k s t ∷ sts) inside w =
    md5_steps-eq f x y same sts inside.1 (md5_step f x (step k s t) w)
    ∙ ap
        (λ (v : ℕ). md5_steps f y sts (record {
          a = w.d;
          b = u32 (rotl (u32 (w.a + f w.b w.c w.d + v + t)) s + w.b);
          c = w.b;
          d = w.c;
        }))
        (same k inside.0)

md5_rounds-eq :
    (x y : ℕ → ℕ) → ((k : ℕ) → k < 16 → x k ≡ y k) → (w : Words) → md5_rounds x w ≡ md5_rounds y w
unfolding md5_rounds
md5_rounds-eq x y same w =
    let w1 = md5_steps md5_f x steps_f w in
    let w2 = md5_steps md5_g x steps_g w1 in
    let w3 = md5_steps md5_h x steps_h w2 in
    md5_steps-eq md5_i x y same steps_i (omega arith) w3
    ∙ ap (md5_steps md5_i y steps_i) (md5_steps-eq md5_h x y same steps_h (omega arith) w2)
    ∙ ap (λ v. md5_steps md5_i y steps_i (md5_steps md5_h y steps_h v))
        (md5_steps-eq md5_g x y same steps_g (omega arith) w1)
    ∙ ap (λ v. md5_steps md5_i y steps_i (md5_steps md5_h y steps_h (md5_steps md5_g y steps_g v)))
        (md5_steps-eq md5_f x y same steps_f (omega arith) w)

decode32-eq :
    (f g : ℕ → ℕ) → ((i : ℕ) → i < 64 → f i ≡ g i) → (k : ℕ) → k < 16 → decode32 f k ≡ decode32 g k
unfolding decode32
decode32-eq f g same k lt =
    rw
      (
        same (4 * k) (omega arith),
        same (4 * k + 1) (omega arith),
        same (4 * k + 2) (omega arith),
        same (4 * k + 3) (omega arith),
      )
      refl

transform-ReadsBlock : ReadsBlock transform
unfolding transform
transform-ReadsBlock st f g same =
    ap (add_words st) (md5_rounds-eq (decode32 f) (decode32 g) (decode32-eq f g same) st)

-- The bytes of the bit count at the end of the padded message, the low one first.
abbrev count_byte : ℕ → ℕ → ℕ
count_byte bits i = bits / 2 ^ (8 * i) % 256

-- The state that MD5 begins with.
abbrev first_state : Words
first_state = record { a = 0x67452301; b = 0xefcdab89; c = 0x98badcfe; d = 0x10325476 }

-- The transformation by a block: the 64 steps of RFC 1321 on its words, whose values are added.
abbrev block_step : Words → (ℕ → ℕ) → Words
block_step st block = add_words st (rounds 64 0 (decode32 block) st)

-- The digest of a message: the state that MD5 begins with is transformed by each block of the padded
-- message, and the bytes of its words are put down, the low one first.
unfoldable pub md5 : List ℕ → ℕ → ℕ
md5 message j =
    let last =
      fold_blocks block_step (block_count (length message)) (padded count_byte message)
        first_state in
    word_of last (j / 4) / 2 ^ (8 * (j % 4)) % 256

transform_lem : transform ≡ block_step
unfolding transform
transform_lem =
    fun_ext (λ st. fun_ext (λ block. ap (add_words st) (md5_rounds-rounds (decode32 block) st)))

count_bytes-Agree : Agree count_bytes count_byte
unfolding count_bytes encode32
count_bytes-Agree bits zero fits lt = omega (arith, fits)
count_bytes-Agree bits (suc zero) fits lt = omega (arith, fits)
count_bytes-Agree bits (suc (suc zero)) fits lt = omega (arith, fits)
count_bytes-Agree bits (suc (suc (suc zero))) fits lt = omega (arith, fits)
count_bytes-Agree bits (suc (suc (suc (suc zero)))) fits lt = omega (arith, fits)
count_bytes-Agree bits (suc (suc (suc (suc (suc zero))))) fits lt = omega (arith, fits)
count_bytes-Agree bits (suc (suc (suc (suc (suc (suc zero)))))) fits lt = omega (arith, fits)
count_bytes-Agree bits (suc (suc (suc (suc (suc (suc (suc zero))))))) fits lt = omega (arith, fits)
count_bytes-Agree bits (suc (suc (suc (suc (suc (suc (suc (suc i)))))))) fits lt =
    absurd (omega (arith, lt))

finished :
    (w : Words) (j : ℕ) → encode32 (word_of w) j ≡ word_of w (j / 4) / 2 ^ (8 * (j % 4)) % 256
unfolding encode32
finished w j = refl

-- However a message is cut into parts of less than 2^32 - 63 bytes that are passed to `MD5_Update`,
-- the digest is made of the initial state, transformed by the blocks of the padded message: it is
-- followed by a byte 0x80, zeros up to 8 bytes before the end of a block, and the count of its bits
-- modulo 2^64. The same holds of `MD5_Calculate` for a message in one piece of that length. The
-- transformation by a block is that of RFC 1321: 64 steps, each with its function, its word of the
-- block, its rotation and its constant; the words are read from the block, and added to the state at
-- the end, as in the code.
pub update_all-md5 :
    (parts : List (List ℕ)) (message : List ℕ)
    → AllShort parts
    → length message + 63 < 2 ^ 32
    → (final (update_all transform parts init) ≡ md5 (concat parts))
      × (calculate (bytes_of message) (length message) ≡ md5 message)
unfolding final md5 calculate update_md5 init update_all concat
update_all-md5 parts message short whole_short =
    let digest = λ (parts' : List (List ℕ)).
      finish-update_all transform transform-ReadsBlock count_bytes count_byte first_state parts'
        init count_bytes-Agree refl refl
      ∙ ap
          (λ (t : Words → (ℕ → ℕ) → Words).
            fold_blocks t (block_count (length (concat parts'))) (padded count_byte (concat parts'))
              first_state)
          transform_lem in
    (
      fun_ext (λ j. ap (λ w. encode32 (word_of w) j) (digest parts) ∙ finished _ j),
      fun_ext (λ j. ap (λ w. encode32 (word_of w) j) (digest (message ∷ [])) ∙ finished _ j)
          ∙ ap md5 (append-nil message),
    )

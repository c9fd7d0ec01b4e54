-- ===== src/Crypto/Tests.antt =====
-- kernel/crypto/md5.c and sha1.c: the vectors of MD5_SelfTest and SHA1_SelfTest, and the theorems
-- at a message.
use valecium.Prelude.{ℕ, ◌≡◌, refl, arith, List, [], ◌∷◌}
use valecium.Crypto.Blocks.{copy_at, padding, whole_blocks, update_context, finish}
use valecium.Crypto.Blocks.Digest.{bytes_of, update_all, concat}
use valecium.Crypto.Md5
use valecium.Crypto.Md5.{
  md5_f, md5_g, md5_h, md5_i, md5_step, md5_steps, md5_rounds, decode32, encode32, update_md5,
}
use valecium.Crypto.Md5.Reference.{md5, update_all-md5}
use valecium.Crypto.Sha1
use valecium.Crypto.Sha1.{
  mix, constant, load32_be, load_words, extend_words, schedule_words, sha1_round, sha1_rounds,
  encode32_be, update_sha1,
}
use valecium.Crypto.Sha1.Reference.{sha1, update_all-sha1}

abbrev abc : List ℕ
abc = b'a' ∷ b'b' ∷ b'c' ∷ []

md5_of_nothing :
    Md5.to_hex 16 0 (Md5.calculate (bytes_of []) 0)
    ≡ b'd' ∷ b'4' ∷ b'1' ∷ b'd' ∷ b'8' ∷ b'c' ∷ b'd' ∷ b'9' ∷ b'8' ∷ b'f' ∷ b'0' ∷ b'0' ∷ b'b'
      ∷ b'2' ∷ b'0' ∷ b'4' ∷ b'e' ∷ b'9' ∷ b'8' ∷ b'0' ∷ b'0' ∷ b'9' ∷ b'9' ∷ b'8' ∷ b'e' ∷ b'c'
      ∷ b'f' ∷ b'8' ∷ b'4' ∷ b'2' ∷ b'7' ∷ b'e' ∷ []
unfolding Md5.to_hex Md5.calculate Md5.final Md5.init Md5.transform Md5.add_words Md5.count_bytes
    update_md5 update_context finish copy_at padding whole_blocks md5_f md5_g md5_h md5_i md5_step
    md5_steps md5_rounds decode32 encode32
md5_of_nothing = refl

md5_of_abc :
    Md5.to_hex 16 0 (Md5.calculate (bytes_of abc) 3)
    ≡ b'9' ∷ b'0' ∷ b'0' ∷ b'1' ∷ b'5' ∷ b'0' ∷ b'9' ∷ b'8' ∷ b'3' ∷ b'c' ∷ b'd' ∷ b'2' ∷ b'4'
      ∷ b'f' ∷ b'b' ∷ b'0' ∷ b'd' ∷ b'6' ∷ b'9' ∷ b'6' ∷ b'3' ∷ b'f' ∷ b'7' ∷ b'd' ∷ b'2' ∷ b'8'
      ∷ b'e' ∷ b'1' ∷ b'7' ∷ b'f' ∷ b'7' ∷ b'2' ∷ []
unfolding Md5.to_hex Md5.calculate Md5.final Md5.init Md5.transform Md5.add_words Md5.count_bytes
    update_md5 update_context finish copy_at padding whole_blocks md5_f md5_g md5_h md5_i md5_step
    md5_steps md5_rounds decode32 encode32
md5_of_abc = refl

sha1_of_nothing :
    Sha1.to_hex 20 0 (Sha1.calculate (bytes_of []) 0)
    ≡ b'd' ∷ b'a' ∷ b'3' ∷ b'9' ∷ b'a' ∷ b'3' ∷ b'e' ∷ b'e' ∷ b'5' ∷ b'e' ∷ b'6' ∷ b'b' ∷ b'4'
      ∷ b'b' ∷ b'0' ∷ b'd' ∷ b'3' ∷ b'2' ∷ b'5' ∷ b'5' ∷ b'b' ∷ b'f' ∷ b'e' ∷ b'f' ∷ b'9' ∷ b'5'
      ∷ b'6' ∷ b'0' ∷ b'1' ∷ b'8' ∷ b'9' ∷ b'0' ∷ b'a' ∷ b'f' ∷ b'd' ∷ b'8' ∷ b'0' ∷ b'7' ∷ b'0'
      ∷ b'9' ∷ []
unfolding Sha1.to_hex Sha1.calculate Sha1.final Sha1.init Sha1.transform Sha1.add_words
    Sha1.count_bytes update_sha1 update_context finish copy_at padding whole_blocks mix constant
    load32_be load_words extend_words schedule_words sha1_round sha1_rounds encode32_be
sha1_of_nothing = refl

sha1_of_abc :
    Sha1.to_hex 20 0 (Sha1.calculate (bytes_of abc) 3)
    ≡ b'a' ∷ b'9' ∷ b'9' ∷ b'9' ∷ b'3' ∷ b'e' ∷ b'3' ∷ b'6' ∷ b'4' ∷ b'7' ∷ b'0' ∷ b'6' ∷ b'8'
      ∷ b'1' ∷ b'6' ∷ b'a' ∷ b'b' ∷ b'a' ∷ b'3' ∷ b'e' ∷ b'2' ∷ b'5' ∷ b'7' ∷ b'1' ∷ b'7' ∷ b'8'
      ∷ b'5' ∷ b'0' ∷ b'c' ∷ b'2' ∷ b'6' ∷ b'c' ∷ b'9' ∷ b'c' ∷ b'd' ∷ b'0' ∷ b'd' ∷ b'8' ∷ b'9'
      ∷ b'd' ∷ []
unfolding Sha1.to_hex Sha1.calculate Sha1.final Sha1.init Sha1.transform Sha1.add_words
    Sha1.count_bytes update_sha1 update_context finish copy_at padding whole_blocks mix constant
    load32_be load_words extend_words schedule_words sha1_round sha1_rounds encode32_be
sha1_of_abc = refl

-- "abc" in two parts.
abbrev cut_abc : List (List ℕ)
cut_abc = (b'a' ∷ []) ∷ (b'b' ∷ b'c' ∷ []) ∷ []

update_all-md5_example :
    (Md5.final (update_all Md5.transform cut_abc Md5.init) ≡ md5 (concat cut_abc))
    × (Md5.calculate (bytes_of abc) 3 ≡ md5 abc)
update_all-md5_example = update_all-md5 cut_abc abc (omega arith, (omega arith, tt)) (omega arith)

update_all-sha1_example :
    (Sha1.final (update_all Sha1.transform cut_abc Sha1.init) ≡ sha1 (concat cut_abc))
    × (Sha1.calculate (bytes_of abc) 3 ≡ sha1 abc)
update_all-sha1_example = update_all-sha1 cut_abc abc (omega arith, (omega arith, tt)) (omega arith)

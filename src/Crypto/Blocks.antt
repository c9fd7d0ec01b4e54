-- ===== src/Crypto/Blocks.antt =====
-- kernel/crypto/md5.c and sha1.c: the handling of blocks, which is the same in both. An array of
-- bytes is a function of the index. The state `St` and the transformation of it by a block of 64
-- bytes are parameters, which `Md5` and `Sha1` fill. The pointers are not null, and a length is below
-- 2^32 - 63, so that no index wraps around.
pub mod Absorb
pub mod Digest
use valecium.Prelude.{
  ℕ, zero, suc, ◌+◌, ◌-◌, ◌*◌, ◌/◌, ◌%◌, ◌^◌, ◌≤◌, ◌<◌, ◌≡◌, ◌≢◌, refl, sym, ap, ◌∙◌, Bool, true,
  false, not, ◌&&◌, ◌||◌, arith, ◌==◌, ==_iff, if◌then◌else◌, inl, inr, ◌⊎◌, Bool-cases,
  Option-cases, Option, none, some, ltb, leb, u8, u32, update, List, [], ◌∷◌, ◌++◌, fun_ext,
  has_bit, length, length-append, get_or, take, drop, replicate, map, bit_and, bit_or, length-map,
  length-replicate,
}

-- The context: `State`, `BitCount` and `Buffer`.
pub record Context (St : Type 0) : Type 0 where
  pub state : St
  pub bit_count : ℕ
  pub buffer : ℕ → ℕ

-- `memcpy(&dst[at], src, n)`
unfoldable pub copy_at : (ℕ → ℕ) → ℕ → (ℕ → ℕ) → ℕ → ℕ → ℕ
copy_at dst at src n i = if leb at i && ltb i (at + n) then src (i - at) else dst i

-- The bytes of `padding`.
unfoldable pub padding : ℕ → ℕ
padding i = if i == 0 then 0x80 else 0

abbrev pub part_of : (ℕ → ℕ) → ℕ → ℕ → ℕ
part_of input i k = input (i + k)

abbrev pub pad_len : ℕ → ℕ
pad_len index = if ltb index 56 then 56 - index else 120 - index

module _ {St : Type 0} (transform : St → (ℕ → ℕ) → St) where
  -- `for (i = part_len; i + BLOCK_SIZE - 1 < len; i += BLOCK_SIZE)`, with the rounds that are left:
  -- the state and the last `i`.
  unfoldable pub whole_blocks : ℕ → ℕ → (ℕ → ℕ) → St → St × ℕ
  whole_blocks zero i input st = (st, i)
  whole_blocks (suc n) i input st = whole_blocks n (i + 64) input (transform st (part_of input i))

  unfoldable pub update_context : Context St → (ℕ → ℕ) → ℕ → Context St
  update_context c input len =
      let index = c.bit_count / 8 % 64 in
      let part_len = 64 - index in
      let bit_count = (c.bit_count + len * 8) % 2 ^ 64 in
      if leb part_len len
      then (let first = copy_at c.buffer index input part_len in
          let (st, i) =
            whole_blocks ((len - part_len) / 64) part_len input (transform c.state first) in
          record {
            state = st;
            bit_count = bit_count;
            buffer = copy_at first 0 (part_of input i) (len - i);
          })
      else record {
        state = c.state;
        bit_count = bit_count;
        buffer = copy_at c.buffer index input len;
      }

  -- The state that the digest is made of; `encode` gives the bytes of the bit count.
  unfoldable pub finish : (ℕ → ℕ → ℕ) → Context St → St
  finish encode c =
      let bits = encode c.bit_count in
      let c1 = update_context c padding (pad_len (c.bit_count / 8 % 64)) in
      (update_context c1 bits 8).state

-- ===== src/Crypto/Blocks/Absorb.antt =====
-- kernel/crypto/md5.c and sha1.c: after any calls of the update the context stands for the bytes
-- that were passed, however they were cut.
use valecium.Prelude.{
  ℕ, zero, suc, ◌+◌, ◌-◌, ◌*◌, ◌/◌, ◌%◌, ◌^◌, ◌≤◌, ◌<◌, ◌≡◌, refl, ap, ◌∙◌, true, arith, inl, inr,
  Bool-cases, ltb, leb,
}
use valecium.Crypto.Blocks.{Context, copy_at, part_of, whole_blocks, update_context}

module _ {St : Type 0} (transform : St → (ℕ → ℕ) → St) where
  -- The state after the first `k` blocks of a message.
  unfoldable pub fold_blocks : ℕ → (ℕ → ℕ) → St → St
  fold_blocks zero f st = st
  fold_blocks (suc k) f st = transform (fold_blocks k f st) (part_of f (64 * k))

  -- The first `n` bytes of the message `f` have been passed to a context that began with `start`.
  pub record Absorbed (f : ℕ → ℕ) (start : St) (n : ℕ) (c : Context St) : Type 0 where
    pub bits : c.bit_count ≡ n * 8 % 2 ^ 64
    pub state : c.state ≡ fold_blocks (n / 64) f start
    pub tail : (i : ℕ) → i < n % 64 → c.buffer i ≡ f (64 * (n / 64) + i)

copy_at-start : (dst src : ℕ → ℕ) (n i : ℕ) → i < n → copy_at dst 0 src n i ≡ src i
unfolding copy_at
copy_at-start dst src n i lt = ground arith

-- The transformation reads the 64 bytes of its block.
abbrev pub ReadsBlock : {St : Type 0} → (St → (ℕ → ℕ) → St) → Type 0
ReadsBlock {St} transform =
    (st : St) (f g : ℕ → ℕ) → ((i : ℕ) → i < 64 → f i ≡ g i) → transform st f ≡ transform st g

module _ {St : Type 0} (transform : St → (ℕ → ℕ) → St) (reads : ReadsBlock transform) where
  whole_blocks_lem :
      (n k i : ℕ) (f input : ℕ → ℕ) (start : St)
      → ((j : ℕ) → j < 64 * n → input (i + j) ≡ f (64 * k + j))
      → whole_blocks transform n i input (fold_blocks transform k f start)
        ≡ (fold_blocks transform (k + n) f start, i + 64 * n)
  unfolding whole_blocks fold_blocks
  whole_blocks_lem zero k i f input start same =
      let none_more : k + 0 ≡ k = omega arith in
      let stays : i + 64 * 0 ≡ i = omega arith in rw (none_more, stays) refl
  whole_blocks_lem (suc n) k i f input start same =
      let here = fold_blocks transform k f start in
      let one : transform here (part_of input i) ≡ fold_blocks transform (suc k) f start =
        reads here (part_of input i) (part_of f (64 * k)) (λ j lt. same j (omega arith)) in
      let later =
        whole_blocks_lem n (suc k) (i + 64) f input start
          (λ j lt. ap input (omega arith) ∙ same (64 + j) (omega arith) ∙ ap f (omega arith)) in
      let count : suc k + n ≡ k + suc n = omega arith in
      let place : i + 64 + 64 * n ≡ i + 64 * suc n = omega arith in
      ap (whole_blocks transform n (i + 64) input) one ∙ later ∙ rw (count, place) refl

  -- A short input goes into the buffer.
  short-Absorbed :
      (f : ℕ → ℕ) (start : St) (n : ℕ) (c : Context St) (input : ℕ → ℕ) (len : ℕ)
      → Absorbed transform f start n c
      → ((i : ℕ) → i < len → input i ≡ f (n + i))
      → len < 64 - n % 64
      → Absorbed transform f start (n + len) (record {
        state = c.state;
        bit_count = (c.bit_count + len * 8) % 2 ^ 64;
        buffer = copy_at c.buffer (n % 64) input len;
      })
  unfolding copy_at
  short-Absorbed f start n c input len a same short =
      let blocks : (n + len) / 64 ≡ n / 64 = omega arith in
      record {
        bits = omega (arith, a.bits);
        state = rw blocks a.state;
        tail = λ i lt. rw blocks (elim (Bool-cases (leb (n % 64) i)) [
          | inl new ↦
              let inside : ltb i (n % 64 + len) ≡ true = ground arith in
              rw (new, inside) (same (i - n % 64) (ground arith) ∙ ap f (ground arith))
          | inr old ↦ rw old (a.tail i (ground arith))
        ]);
      }

  -- The buffer when it has been filled.
  filled :
      (f : ℕ → ℕ) (start : St) (n : ℕ) (c : Context St) (input : ℕ → ℕ) (len : ℕ)
      → Absorbed transform f start n c
      → ((i : ℕ) → i < len → input i ≡ f (n + i))
      → 64 - n % 64 ≤ len
      → (i : ℕ) → i < 64
      → copy_at c.buffer (n % 64) input (64 - n % 64) i ≡ f (64 * (n / 64) + i)
  unfolding copy_at
  filled f start n c input len a same long i lt = elim (Bool-cases (leb (n % 64) i)) [
    | inl new ↦
        let inside : ltb i (n % 64 + (64 - n % 64)) ≡ true = ground arith in
        rw (new, inside) (same (i - n % 64) (ground arith) ∙ ap f (ground arith))
    | inr old ↦ rw old (a.tail i (ground arith))
  ]

  -- A long one fills it, passes whole blocks and leaves the rest there.
  long-Absorbed :
      (f : ℕ → ℕ) (start : St) (n : ℕ) (c : Context St) (input : ℕ → ℕ) (len : ℕ)
      → Absorbed transform f start n c
      → ((i : ℕ) → i < len → input i ≡ f (n + i))
      → 64 - n % 64 ≤ len
      → let part_len = 64 - n % 64 in
        let first = copy_at c.buffer (n % 64) input part_len in
        let (st, i) =
          whole_blocks transform ((len - part_len) / 64) part_len input (transform c.state first) in
        Absorbed transform f start (n + len) (record {
          state = st;
          bit_count = (c.bit_count + len * 8) % 2 ^ 64;
          buffer = copy_at first 0 (part_of input i) (len - i);
        })
  unfolding fold_blocks
  long-Absorbed f start n c input len a same long =
      let r = n % 64 in
      let part_len = 64 - r in
      let m = (len - part_len) / 64 in
      let first = copy_at c.buffer r input part_len in
      let one : transform c.state first ≡ fold_blocks transform (suc (n / 64)) f start =
        ap (λ st. transform st first) a.state
        ∙ reads (fold_blocks transform (n / 64) f start) first (part_of f (64 * (n / 64)))
            (filled f start n c input len a same long) in
      let loop =
        ap (whole_blocks transform m part_len input) one
        ∙ whole_blocks_lem m (suc (n / 64)) part_len f input start
            (λ j lt. same (part_len + j) (omega arith) ∙ ap f (omega arith)) in
      let blocks : suc (n / 64) + m ≡ (n + len) / 64 = omega arith in
      rw (loop, blocks)
        (record {
          bits = omega (arith, a.bits);
          state = refl;
          tail = λ i lt.
              copy_at-start first (part_of input (part_len + 64 * m)) (len - (part_len + 64 * m)) i
                (omega arith)
              ∙ same (part_len + 64 * m + i) (omega arith)
              ∙ ap f (omega arith);
        })

  pub update_context-Absorbed :
      (f : ℕ → ℕ) (start : St) (n : ℕ) (c : Context St) (input : ℕ → ℕ) (len : ℕ)
      → Absorbed transform f start n c
      → ((i : ℕ) → i < len → input i ≡ f (n + i))
      → Absorbed transform f start (n + len) (update_context transform c input len)
  unfolding update_context
  update_context-Absorbed f start n c input len a same =
      let index : c.bit_count / 8 % 64 ≡ n % 64 = omega (arith, a.bits) in
      rw index (elim (Bool-cases (leb (64 - n % 64) len)) [
        | inl long ↦ rw long (long-Absorbed f start n c input len a same (ground arith))
        | inr short ↦ rw short (short-Absorbed f start n c input len a same (ground arith))
      ])

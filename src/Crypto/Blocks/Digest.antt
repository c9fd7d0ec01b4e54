-- ===== src/Crypto/Blocks/Digest.antt =====
-- kernel/crypto/md5.c and sha1.c: the state at the end is that of the padded message.
use valecium.Prelude.{
  ℕ, zero, suc, ◌+◌, ◌-◌, ◌*◌, ◌/◌, ◌%◌, ◌^◌, ◌<◌, ◌≡◌, refl, sym, ap, ◌∙◌, true, false, arith,
  if◌then◌else◌, ltb, ◌==◌, inl, inr, Bool-cases, List, [], ◌∷◌, ◌++◌, length, length-append,
  get_or,
}
use valecium.Crypto.Blocks.{Context, padding, pad_len, update_context, finish}
use valecium.Crypto.Blocks.Absorb.{fold_blocks, Absorbed, ReadsBlock, update_context-Absorbed}

-- The bytes of a list, and 0 behind its end.
abbrev pub bytes_of : List ℕ → ℕ → ℕ
bytes_of xs i = get_or xs i 0

-- The number of blocks of a padded message of `n` bytes: the least with room for them, a byte 0x80
-- and the 8 bytes of the bit count.
abbrev pub block_count : ℕ → ℕ
block_count n = (n + 72) / 64

-- The padded message: the bytes, a byte 0x80, zeros, and in the last 8 bytes of the last block the
-- bit count, whose bytes are `count_byte`.
unfoldable pub padded : (ℕ → ℕ → ℕ) → List ℕ → ℕ → ℕ
padded count_byte message i =
    let n = length message in
    let end = 64 * block_count n in
    if ltb i n
    then bytes_of message i
    else if i == n
    then 0x80
    else if ltb (i + 8) end
    then 0
    else count_byte (n * 8 % 2 ^ 64) (i + 8 - end)

-- Each part has a length that fits in a `size_t`, with room for the last block.
abbrev pub AllShort : List (List ℕ) → Type 0
AllShort [] = Unit {0}
AllShort (part ∷ parts) = (length part + 63 < 2 ^ 32) × AllShort parts

module _ {St : Type 0} (transform : St → (ℕ → ℕ) → St) where
  -- Calls of the update, one for each part of the message.
  unfoldable pub update_all : List (List ℕ) → Context St → Context St
  update_all [] c = c
  update_all (part ∷ parts) c =
      update_all parts (update_context transform c (bytes_of part) (length part))

unfoldable pub concat : List (List ℕ) → List ℕ
concat [] = []
concat (part ∷ parts) = part ++ concat parts

pub get_or-append-left :
    (xs ys : List ℕ) (i : ℕ) → i < length xs → get_or (xs ++ ys) i 0 ≡ get_or xs i 0
get_or-append-left [] ys i lt = elim lt [ ]
get_or-append-left (x ∷ xs) ys zero lt = refl
get_or-append-left (x ∷ xs) ys (suc i) lt = get_or-append-left xs ys i (omega arith)

pub get_or-append-right :
    (xs ys : List ℕ) (i : ℕ) → get_or (xs ++ ys) (length xs + i) 0 ≡ get_or ys i 0
get_or-append-right [] ys i = let e : 0 + i ≡ i = omega arith in ap (λ j. get_or ys j 0) e
get_or-append-right (x ∷ xs) ys i =
    let e : suc (length xs) + i ≡ suc (length xs + i) = omega arith in
    ap (λ j. get_or (x ∷ xs ++ ys) j 0) e ∙ get_or-append-right xs ys i

padded-message :
    (encode : ℕ → ℕ → ℕ) (message : List ℕ) (i : ℕ)
    → i < length message
    → bytes_of message i ≡ padded encode message i
unfolding padded
padded-message encode message i lt =
    let e : ltb i (length message) ≡ true = ground arith in rw e refl

padding_end : (n : ℕ) → n + pad_len (n % 64) + 8 ≡ 64 * block_count n
padding_end n = ground arith

padded-padding :
    (encode : ℕ → ℕ → ℕ) (message : List ℕ) (i : ℕ)
    → i < pad_len (length message % 64)
    → padding i ≡ padded encode message (length message + i)
unfolding padded padding
padded-padding encode message i lt =
    let n = length message in
    let end = padding_end n in
    let e : ltb (n + i) n ≡ false = ground arith in
    let e' : ltb (n + i + 8) (64 * block_count n) ≡ true = ground arith in
    elim (Bool-cases (i == 0)) [
      | inl first ↦ let here : (n + i == n) ≡ true = ground arith in rw (e, first, here)
      | inr later ↦ let there : (n + i == n) ≡ false = ground arith in rw (e, later, there, e')
    ]

-- The bytes of the bit count that the code appends are those of the padded message.
abbrev pub Agree : (ℕ → ℕ → ℕ) → (ℕ → ℕ → ℕ) → Type 0
Agree encode count_byte = (bits i : ℕ) → bits < 2 ^ 64 → i < 8 → encode bits i ≡ count_byte bits i

padded-count :
    (count_byte : ℕ → ℕ → ℕ) (message : List ℕ) (i : ℕ)
    → count_byte (length message * 8 % 2 ^ 64) i
      ≡ padded count_byte message (length message + pad_len (length message % 64) + i)
unfolding padded
padded-count count_byte message i =
    let n = length message in
    let end = padding_end n in
    let some_padding : 0 < pad_len (n % 64) = ground arith in
    let e : ltb (n + pad_len (n % 64) + i) n ≡ false = ground arith in
    let e0 : (n + pad_len (n % 64) + i == n) ≡ false = ground arith in
    let e' : ltb (n + pad_len (n % 64) + i + 8) (64 * block_count n) ≡ false = ground arith in
    let e'' : n + pad_len (n % 64) + i + 8 - 64 * block_count n ≡ i = omega (arith, end) in
    rw (e, e0, e', e'') refl

module _ {St : Type 0} (transform : St → (ℕ → ℕ) → St) (reads : ReadsBlock transform) where
  update_all-Absorbed :
      (f : ℕ → ℕ) (start : St) (n : ℕ) (parts : List (List ℕ)) (c : Context St)
      → Absorbed transform f start n c
      → ((i : ℕ) → i < length (concat parts) → bytes_of (concat parts) i ≡ f (n + i))
      → Absorbed transform f start (n + length (concat parts)) (update_all transform parts c)
  unfolding update_all concat
  update_all-Absorbed f start n [] c a same = let e : n + 0 ≡ n = omega arith in rw e a
  update_all-Absorbed f start n (part ∷ parts) c a same =
      let size = length-append part (concat parts) in
      let e : n + length part + length (concat parts) ≡ n + length (part ++ concat parts) =
        omega (arith, size) in
      let first =
        update_context-Absorbed transform reads f start n c (bytes_of part) (length part) a (λ i lt.
          sym (get_or-append-left part (concat parts) i lt) ∙ same i (omega (arith, size))) in
      let rest =
        update_all-Absorbed f start (n + length part) parts
          (update_context transform c (bytes_of part) (length part)) first
          (λ i lt.
            sym (get_or-append-right part (concat parts) i)
            ∙ same (length part + i) (omega (arith, size))
            ∙ ap f (omega arith)) in
      rw (← e) rest

  -- The end of the hash.
  pub finish-fold_blocks :
      (encode count_byte : ℕ → ℕ → ℕ) (start : St) (message : List ℕ) (c : Context St)
      → Agree encode count_byte
      → Absorbed transform (padded count_byte message) start (length message) c
      → finish transform encode c
        ≡ fold_blocks transform (block_count (length message)) (padded count_byte message) start
  unfolding finish
  finish-fold_blocks encode count_byte start message c agree a =
      let n = length message in
      let f = padded count_byte message in
      let pad = pad_len (n % 64) in
      let c1 = update_context transform c padding pad in
      let index : c.bit_count / 8 % 64 ≡ n % 64 = omega (arith, a.bits) in
      let one =
        update_context-Absorbed transform reads f start n c padding pad a
          (padded-padding count_byte message) in
      let two =
        update_context-Absorbed transform reads f start (n + pad) c1 (encode (n * 8 % 2 ^ 64)) 8 one
          (λ i lt. agree (n * 8 % 2 ^ 64) i (omega arith) lt ∙ padded-count count_byte message i) in
      let count : (n + pad + 8) / 64 ≡ block_count n = ground arith in
      ap
        (λ (j : ℕ).
          (update_context transform (update_context transform c padding (pad_len j))
            (encode c.bit_count) 8).state)
        index
      ∙ ap (λ (b : ℕ). (update_context transform c1 (encode b) 8).state) a.bits
      ∙ two.state
      ∙ ap (λ k. fold_blocks transform k f start) count

  -- The digest's state for a message that is passed in parts.
  pub finish-update_all :
      (encode count_byte : ℕ → ℕ → ℕ) (start : St) (parts : List (List ℕ)) (c : Context St)
      → Agree encode count_byte
      → c.state ≡ start
      → c.bit_count ≡ 0
      → finish transform encode (update_all transform parts c)
        ≡ fold_blocks transform
            (block_count (length (concat parts)))
            (padded count_byte (concat parts))
            start
  unfolding fold_blocks
  finish-update_all encode count_byte start parts c agree st bits =
      let message = concat parts in
      let begun : Absorbed transform (padded count_byte message) start 0 c = record {
        bits = bits;
        state = st;
        tail = λ i lt. absurd (omega arith);
      } in
      let all = update_all-Absorbed (padded count_byte message) start 0 parts c begun (λ i lt.
        padded-message count_byte message i lt ∙ ap (padded count_byte message) (omega arith)) in
      let size : 0 + length message ≡ length message = omega arith in
      finish-fold_blocks encode count_byte start message (update_all transform parts c) agree
        (rw size at all)

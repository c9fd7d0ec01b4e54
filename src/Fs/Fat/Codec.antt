-- ===== src/Fs/Fat/Codec.antt =====
-- kernel/fs/fat/fat.c: what is put into an entry is what is read from it.
use valecium.Prelude.{
  ℕ, ◌+◌, ◌*◌, ◌/◌, ◌%◌, ◌^◌, ◌≤◌, ◌<◌, ◌≡◌, refl, sym, ap, ◌∙◌, ◌||◌, arith, ◌==◌, if◌then◌else◌,
  inl, inr, ◌⊎◌, Bool-cases, leb, bit_and, bit_or,
}
use valecium.Prelude.{
  low, up, down, bit_and-ones, bit_and-up, bit_or-up-low, bit_or-low-up, bit_or_congr,
}
use valecium.Fs.Fat.{load16, load32, store16, store32, entry12, entry32, put_entry, get_entry}

-- The value that an entry stands for: 12, 16 or 28 bits, where the ends of a chain are the numbers
-- from 0xfffffff8 on for the first two types.
unfoldable pub normal : ℕ → ℕ → ℕ
normal fat_type value =
    if fat_type == 12
    then (if leb 0xff8 (value % 2 ^ 12) then 0xfffff000 + value % 2 ^ 12 else value % 2 ^ 12)
    else if fat_type == 16
    then (if leb 0xfff8 (value % 2 ^ 16) then 0xffff0000 + value % 2 ^ 16 else value % 2 ^ 16)
    else value % 2 ^ 28

load16-store16 : (b : ℕ → ℕ) (i w : ℕ) → load16 (store16 b i w) i ≡ w % 2 ^ 16
load16-store16 b i w = ground arith

load32-store32 : (b : ℕ → ℕ) (i w : ℕ) → load32 (store32 b i w) i ≡ w % 2 ^ 32
load32-store32 b i w =
    let first = load16-store16 b i w in
    let last = load16-store16 (store16 b i w) (i + 2) (w / 65536) in
    let kept : load16 (store32 b i w) i ≡ load16 (store16 b i w) i = ground arith in
    omega (arith, first, last, kept)

-- The low bits of a word with another's high bits.
low_12 : (a : ℕ) → bit_and a 0xfff ≡ a % 2 ^ 12
low_12 a = omega (arith, bit_and-ones 12 a)

low_28 : (a : ℕ) → bit_and a 0xfffffff ≡ a % 2 ^ 28
low_28 a = omega (arith, bit_and-ones 28 a)

even_lem :
    (old value : ℕ)
    → bit_or (bit_and old 0xf000) (bit_and value 0xfff)
      ≡ old / 2 ^ 12 % 16 * 2 ^ 12 + value % 2 ^ 12
even_lem old value =
    let high = bit_and (down 12 old) 15 in
    bit_or_congr (bit_and-up 12 old 15) (bit_and-ones 12 value)
    ∙ bit_or-up-low 12 high value
    ∙ omega (arith, bit_and-ones 4 (down 12 old))

odd_lem :
    (old value : ℕ)
    → bit_or (bit_and old 0xf) (bit_and value 0xfff * 16) ≡ old % 16 + value % 2 ^ 12 * 16
odd_lem old value =
    let shifted : bit_and value 0xfff * 16 ≡ up 4 (bit_and value 0xfff) = omega arith in
    bit_or_congr (bit_and-ones 4 old) shifted
    ∙ bit_or-low-up 4 (bit_and value 0xfff) old
    ∙ omega (arith, low_12 value)

entry32_lem : (old value : ℕ) → entry32 old value ≡ old / 2 ^ 28 % 16 * 2 ^ 28 + value % 2 ^ 28
unfolding entry32
entry32_lem old value =
    let high = bit_and (down 28 old) 15 in
    bit_or_congr (bit_and-up 28 old 15) (bit_and-ones 28 value)
    ∙ bit_or-up-low 28 high value
    ∙ omega (arith, bit_and-ones 4 (down 28 old))

-- The ends of a chain.
end_12 : (n : ℕ) → n < 2 ^ 12 → bit_or n 0xfffff000 ≡ 0xfffff000 + n
end_12 n small =
    let same : n ≡ low 12 n = omega arith in
    bit_or_congr same refl ∙ bit_or-low-up 12 0xfffff n ∙ omega (arith, same)

end_16 : (n : ℕ) → n < 2 ^ 16 → bit_or n 0xffff0000 ≡ 0xffff0000 + n
end_16 n small =
    let same : n ≡ low 16 n = omega arith in
    bit_or_congr same refl ∙ bit_or-low-up 16 0xffff n ∙ omega (arith, same)

marked_12 :
    (n : ℕ)
    → n < 2 ^ 12
    → (if leb 0xff8 n then bit_or n 0xfffff000 else n) ≡ (if leb 0xff8 n then 0xfffff000 + n else n)
marked_12 n small = ground (arith, end_12 n small)

marked_16 :
    (n : ℕ)
    → n < 2 ^ 16
    → (if leb 0xfff8 n then bit_or n 0xffff0000 else n)
      ≡ (if leb 0xfff8 n then 0xffff0000 + n else n)
marked_16 n small = ground (arith, end_16 n small)

-- The 12 bits of an entry that was put there.
bits_12 :
    (cluster value : ℕ) (b : ℕ → ℕ) (i : ℕ)
    → let w = load16 (store16 b i (entry12 cluster (load16 b i) value)) i in
      (if cluster % 2 == 0 then bit_and w 0xfff else w / 16) ≡ value % 2 ^ 12
unfolding entry12
bits_12 cluster value b i =
    let old = load16 b i in
    let back = load16-store16 b i (entry12 cluster old value) in
    elim (Bool-cases (cluster % 2 == 0)) [
      | inl even ↦
          let whole = rw even at back in
          rw even (low_12 _ ∙ omega (arith, whole, even_lem old value))
      | inr odd ↦ let whole = rw odd at back in rw odd (omega (arith, whole, odd_lem old value))
    ]

-- What `FAT_WriteFatEntry` puts into an entry is what `FAT_NextCluster` gets from it.
pub get-put :
    (fat_type cluster value : ℕ) (b : ℕ → ℕ) (i : ℕ)
    → get_entry fat_type cluster (put_entry fat_type cluster value b i) i ≡ normal fat_type value
unfolding get_entry put_entry normal
get-put fat_type cluster value b i = elim (Bool-cases (fat_type == 12)) [
  | inl twelve ↦ rw twelve (
      ap (λ n. if leb 0xff8 n then bit_or n 0xfffff000 else n) (bits_12 cluster value b i)
      ∙ marked_12 (value % 2 ^ 12) (omega arith))
  | inr other ↦ elim (Bool-cases (fat_type == 16)) [
    | inl sixteen ↦
        let back : load16 (store16 b i (value % 2 ^ 16)) i ≡ value % 2 ^ 16 =
          omega (arith, load16-store16 b i (value % 2 ^ 16)) in
        rw (other, sixteen)
          (ap (λ n. if leb 0xfff8 n then bit_or n 0xffff0000 else n) back
            ∙ marked_16 (value % 2 ^ 16) (omega arith))
    | inr else_32 ↦
        rw (other, else_32)
          (low_28 _
            ∙ omega (
              arith,
              load32-store32 b i (entry32 (load32 b i) value),
              entry32_lem (load32 b i) value,
            ))
  ]
]

-- The bytes of an entry.
abbrev pub width : ℕ → ℕ
width fat_type = if fat_type == 12 || fat_type == 16 then 2 else 4

-- The bytes of a word, the lowest first.
abbrev byte_of : ℕ → ℕ → ℕ
byte_of w d =
    if d == 0
    then w % 256
    else if d == 1
    then w / 256 % 256
    else if d == 2
    then w / 65536 % 256
    else w / 65536 / 256 % 256

store16_at : (b : ℕ → ℕ) (i w d : ℕ) → d < 2 → store16 b i w (i + d) ≡ byte_of w d
store16_at b i w d lt = ground arith

store32_at : (b : ℕ → ℕ) (i w d : ℕ) → d < 4 → store32 b i w (i + d) ≡ byte_of w d
store32_at b i w d lt = ground arith

moved : (f g : ℕ → ℕ) {p q x y : ℕ} → f p ≡ g q → p ≡ x → q ≡ y → f x ≡ g y
moved f g same left right = ap f (sym left) ∙ same ∙ ap g right

load16_congr :
    (f g : ℕ → ℕ) (p q : ℕ) → ((e : ℕ) → e < 2 → f (p + e) ≡ g (q + e)) → load16 f p ≡ load16 g q
load16_congr f g p q same =
    let first : f p ≡ g q = moved f g (same 0 (omega arith)) (omega arith) (omega arith) in
    omega (arith, first, same 1 (omega arith))

load32_congr :
    (f g : ℕ → ℕ) (p q : ℕ) → ((e : ℕ) → e < 4 → f (p + e) ≡ g (q + e)) → load32 f p ≡ load32 g q
load32_congr f g p q same =
    let low_half = load16_congr f g p q (λ e lt. same e (omega arith)) in
    let above : (e : ℕ) → e < 2 → f (p + 2 + e) ≡ g (q + 2 + e) =
      λ e lt. moved f g (same (2 + e) (omega arith)) (omega arith) (omega arith) in
    let high_half = load16_congr f g (p + 2) (q + 2) above in omega (arith, low_half, high_half)

-- The bytes that are put depend on the old ones alone.
pub put_inside :
    (fat_type cluster value : ℕ) (f g : ℕ → ℕ) (p q d : ℕ)
    → d < width fat_type
    → ((e : ℕ) → e < width fat_type → f (p + e) ≡ g (q + e))
    → put_entry fat_type cluster value f p (p + d) ≡ put_entry fat_type cluster value g q (q + d)
unfolding put_entry
put_inside fat_type cluster value f g p q d lt same = elim (Bool-cases (fat_type == 12)) [
  | inl twelve ↦
      let two : width fat_type ≡ 2 = ground arith in
      let word : load16 f p ≡ load16 g q =
        load16_congr f g p q (λ e small. same e (omega (arith, two))) in
      rw twelve (
        store16_at f p (entry12 cluster (load16 f p) value) d (omega (arith, two))
        ∙ ap (λ v. byte_of (entry12 cluster v value) d) word
        ∙ sym (store16_at g q (entry12 cluster (load16 g q) value) d (omega (arith, two))))
  | inr other ↦ elim (Bool-cases (fat_type == 16)) [
    | inl sixteen ↦
        let two : width fat_type ≡ 2 = ground arith in
        rw (other, sixteen)
          (store16_at f p (value % 2 ^ 16) d (omega (arith, two))
            ∙ sym (store16_at g q (value % 2 ^ 16) d (omega (arith, two))))
    | inr else_32 ↦
        let four : width fat_type ≡ 4 = ground arith in
        let word : load32 f p ≡ load32 g q =
          load32_congr f g p q (λ e small. same e (omega (arith, four))) in
        rw (other, else_32)
          (store32_at f p (entry32 (load32 f p) value) d (omega (arith, four))
            ∙ ap (λ v. byte_of (entry32 v value) d) word
            ∙ sym (store32_at g q (entry32 (load32 g q) value) d (omega (arith, four))))
  ]
]

-- Around the entry nothing changes.
pub put_outside :
    (fat_type cluster value : ℕ) (f : ℕ → ℕ) (p j : ℕ)
    → (j < p) ⊎ (p + width fat_type ≤ j)
    → put_entry fat_type cluster value f p j ≡ f j
unfolding put_entry
put_outside fat_type cluster value f p j out = ground arith

-- What is read depends on the entry's bytes alone.
pub get_congr :
    (fat_type cluster : ℕ) (f g : ℕ → ℕ) (p q : ℕ)
    → ((e : ℕ) → e < width fat_type → f (p + e) ≡ g (q + e))
    → get_entry fat_type cluster f p ≡ get_entry fat_type cluster g q
unfolding get_entry
get_congr fat_type cluster f g p q same =
    let positive : 2 ≤ width fat_type = ground arith in
    let word : load16 f p ≡ load16 g q = load16_congr f g p q (λ e small. same e (omega arith)) in
    elim (Bool-cases (fat_type == 12)) [
      | inl twelve ↦ rw (twelve, word) refl
      | inr other ↦ elim (Bool-cases (fat_type == 16)) [
        | inl sixteen ↦ rw (other, sixteen, word) refl
        | inr else_32 ↦
            let four : width fat_type ≡ 4 = ground arith in
            let long : load32 f p ≡ load32 g q =
              load32_congr f g p q (λ e small. same e (omega (arith, four))) in
            rw (other, else_32) (ap (λ w. bit_and w 0xfffffff) long)
      ]
    ]

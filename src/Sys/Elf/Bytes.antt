-- ===== src/Sys/Elf/Bytes.antt =====
-- kernel/sys/elf.c: the bytes of a file, and memory in which they lie.
use valecium.Prelude.{
  ℕ, zero, suc, ◌+◌, ◌-◌, ◌≤◌, ◌<◌, ◌≡◌, refl, ap, ◌∙◌, true, false, arith, ◌==◌, if◌then◌else◌,
  inl, inr, Bool-cases, update, List, [], ◌∷◌, fun_ext, length,
}
use valecium.Mem.Memory.{Memory, within}
use valecium.Sys.Elf.{File, store}

-- The bytes of a file from a position on.
abbrev pub bytes_of : (ℕ → ℕ) → ℕ → ℕ → List ℕ
bytes_of content p zero = []
bytes_of content p (suc n) = content p ∷ bytes_of content (p + 1) n

-- What the documented behaviour of a file is when nothing fails: it has `size` bytes, a seek sets the
-- position, a read gives the bytes from there on that are wanted, if there are as many, and goes
-- behind them; the heap leaves the file alone.
pub record Sound {F : Type 0} (file : File F) : Type 0 where
  pub content : ℕ → ℕ
  pub size : ℕ
  pub position : F → ℕ
  pub sought :
      (p : ℕ) (f : F) → p ≤ size → ((file.seek p f).0 ≡ true) × (position (file.seek p f).1 ≡ p)
  pub given :
      (n : ℕ) (f : F)
      → position f + n ≤ size
      → ((file.read n f).0 ≡ bytes_of content (position f) n)
        × (position (file.read n f).1 ≡ position f + n)
  pub allocated :
      (n : ℕ) (f : F)
      → ((file.allocate n f).0 ≡ true) × (position (file.allocate n f).1 ≡ position f)
  pub freed : (f : F) → position (file.free f) ≡ position f

-- Memory in which `n` bytes of a file from `p` on lie at an address, or zeros.
abbrev pub placed : (ℕ → ℕ) → Memory → ℕ → ℕ → ℕ → Memory
placed content m dest p n a = if within dest n a then content (p + (a - dest)) else m a

abbrev pub zeroed : Memory → ℕ → ℕ → Memory
zeroed m dest n a = if within dest n a then 0 else m a

pub length-bytes_of : (content : ℕ → ℕ) (p n : ℕ) → length (bytes_of content p n) ≡ n
length-bytes_of content p zero = refl
length-bytes_of content p (suc n) = ap suc (length-bytes_of content (p + 1) n)

placed-first :
    (content : ℕ → ℕ) (m : Memory) (dest p n a : ℕ)
    → placed content (update m dest (content p)) (dest + 1) (p + 1) n a
      ≡ placed content m dest p (suc n) a
placed-first content m dest p n a =
    let later : dest < a → p + 1 + (a - (dest + 1)) ≡ p + (a - dest) = λ lt. omega arith in
    let here : a ≡ dest → p + (a - dest) ≡ p = λ e. omega arith in
    elim (Bool-cases (dest == a)) [
      | inl same ↦
          let in_all : within dest (suc n) a ≡ true = ground arith in
          let in_rest : within (dest + 1) n a ≡ false = ground arith in
          rw (in_all, in_rest, same, here (ground arith)) refl
      | inr other ↦ elim (Bool-cases (within (dest + 1) n a)) [
        | inl inside ↦
            let in_all : within dest (suc n) a ≡ true = ground arith in
            rw (in_all, inside, later (ground arith)) refl
        | inr outside ↦
            let in_none : within dest (suc n) a ≡ false = ground arith in
            rw (in_none, outside, other) refl
      ]
    ]

pub store-placed :
    (content : ℕ → ℕ) (m : Memory) (dest p n : ℕ)
    → store m dest (bytes_of content p n) ≡ placed content m dest p n
unfolding store
store-placed content m dest p zero =
    fun_ext (λ a. let away : within dest 0 a ≡ false = ground arith in rw away refl)
store-placed content m dest p (suc n) =
    store-placed content (update m dest (content p)) (dest + 1) (p + 1) n
    ∙ fun_ext (placed-first content m dest p n)

pub placed-placed :
    (content : ℕ → ℕ) (m : Memory) (dest p k n : ℕ)
    → placed content (placed content m dest p k) (dest + k) (p + k) n
      ≡ placed content m dest p (k + n)
placed-placed content m dest p k n = fun_ext (λ a.
    let later : dest + k ≤ a → p + k + (a - (dest + k)) ≡ p + (a - dest) = λ le. omega arith in
    elim (Bool-cases (within (dest + k) n a)) [
      | inl inside ↦
          let in_all : within dest (k + n) a ≡ true = ground arith in
          rw (in_all, inside, later (ground arith)) refl
      | inr outside ↦
          let same : within dest k a ≡ within dest (k + n) a = ground arith in
          rw (outside, same) refl
    ])

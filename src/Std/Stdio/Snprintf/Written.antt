-- ===== src/Std/Stdio/Snprintf/Written.antt =====
-- kernel/std/stdio.c: what `vsnprintf` leaves in the buffer.
use valecium.Prelude.{
  ℕ, ◌+◌, ◌-◌, ◌^◌, ◌≤◌, ◌<◌, ◌≡◌, refl, arith, ◌==◌, if◌then◌else◌, ltb, u32, List, [], ◌∷◌, ◌++◌,
  length, length-append, map,
}
use valecium.Std.Strings.Copy.{char_at}
use valecium.Std.Stdio.{hex_char}
use valecium.Std.Stdio.Pieces.{numeral}
use valecium.Std.Stdio.Snprintf.{Output, emit, emit_all, emit_number, decimal_char}
use valecium.Std.Stdio.Snprintf.Numbers.{tmp_digits-numeral, decimal_lem}
use mathlib.Core.List.{append_assoc, append-nil}

-- How much of a text goes into a buffer of some size, which holds the terminating 0 too.
abbrev pub taken : ℕ → List ℕ → ℕ
taken buf_size text = if ltb (length text) (buf_size - 1) then length text else buf_size - 1

-- The text so far is in the buffer, as much as it takes, and counted.
pub record Wrote (buf_size : ℕ) (b : ℕ → ℕ) (text : List ℕ) (o : Output) : Type 0 where
  pub index : o.out_idx ≡ taken buf_size text
  pub count : o.would_have ≡ u32 (length text)
  pub bytes : (i : ℕ) → o.buffer i ≡ (if ltb i (taken buf_size text) then char_at text i else b i)

char_at-snoc :
    (text : List ℕ) (c i : ℕ)
    → char_at (text ++ (c ∷ [])) i ≡ (if i == length text then c else char_at text i)
unfolding char_at
char_at-snoc [] c i = ground arith
char_at-snoc (x ∷ text) c i = ground (arith, char_at-snoc text c (i - 1))

length-snoc : (text : List ℕ) (c : ℕ) → length (text ++ (c ∷ [])) ≡ length text + 1
length-snoc text c = length-append text (c ∷ [])

module _ (buf_size : ℕ) (b : ℕ → ℕ) where
  pub emit-Wrote :
      (text : List ℕ) (c : ℕ) (o : Output)
      → Wrote buf_size b text o
      → Wrote buf_size b (text ++ (c ∷ [])) (emit buf_size c o)
  unfolding emit
  emit-Wrote text c o w = record {
    index = ground (arith, length-snoc text c, w.index);
    count = ground (arith, length-snoc text c, w.count);
    bytes = λ i. ground (arith, length-snoc text c, char_at-snoc text c i, w.bytes i, w.index);
  }

  pub emit_all-Wrote :
      (cs text : List ℕ) (o : Output)
      → Wrote buf_size b text o
      → Wrote buf_size b (text ++ cs) (emit_all buf_size cs o)
  unfolding emit_all
  emit_all-Wrote [] text o w = rw (append-nil text) w
  emit_all-Wrote (c ∷ cs) text o w =
      rw (append_assoc text (c ∷ []) cs) at
        (emit_all-Wrote cs (text ++ (c ∷ [])) (emit buf_size c o) (emit-Wrote text c o w))

  pub emit_number-Wrote :
      (digit f : ℕ → ℕ) (radix n : ℕ) (text : List ℕ) (o : Output)
      → 2 ≤ radix
      → ((d : ℕ) → d < radix → digit d ≡ f (hex_char d))
      → f 48 ≡ 48
      → n < radix ^ 31
      → Wrote buf_size b text o
      → Wrote buf_size b (text ++ map f (numeral radix n)) (emit_number buf_size digit radix n o)
  unfolding emit_number
  emit_number-Wrote digit f radix n text o low same keeps fits w =
      rw (tmp_digits-numeral digit f radix n low same keeps fits)
        (emit_all-Wrote (map f (numeral radix n)) text o w)

  pub emit_decimal-Wrote :
      (radix n : ℕ) (text : List ℕ) (o : Output)
      → 2 ≤ radix
      → radix ≤ 10
      → n < radix ^ 31
      → Wrote buf_size b text o
      → Wrote buf_size b
          (text ++ map (λ c. c) (numeral radix n))
          (emit_number buf_size decimal_char radix n o)
  emit_decimal-Wrote radix n text o low high fits w =
      emit_number-Wrote decimal_char (λ c. c) radix n text o low
        (λ d small. decimal_lem d (omega arith)) refl fits w

-- ===== src/Std/Stdio/Snprintf/Shown.antt =====
-- kernel/std/stdio.c: `vsnprintf` shows the items of its format, as much as the buffer takes.
use valecium.Prelude.{
  ℕ, ◌+◌, ◌-◌, ◌*◌, ◌^◌, ◌≤◌, ◌<◌, ◌≡◌, ◌≢◌, refl, true, false, ◌&&◌, arith, ◌==◌, if◌then◌else◌,
  inl, inr, Bool-cases, ltb, leb, u8, u32, List, [], ◌∷◌, ◌++◌, length, map,
}
use valecium.Std.Strings.Copy.{char_at}
use valecium.Std.Stdio.{hex_char, sign_extend}
use valecium.Std.Stdio.Pieces.{
  Conversion, decimal, integer, unsigned, lower_hex, upper_hex, pointer, octal, conversion_char,
  words, numeral,
}
use valecium.Std.Stdio.Snprintf.{
  Output, emit, emit_number, decimal_char, upper_char, emit_signed, directive, format_loop,
  terminate, vsnprintf, null_chars,
}
use valecium.Std.Stdio.Snprintf.Items.{
  Item, literal, percent, character, string, number, unsupported, item_chars, items_format,
  AreItems, number_size, upper, item_text, text_of, has_meaning,
}
use valecium.Std.Stdio.Snprintf.Numbers.{upper_lem}
use mathlib.Core.List.{append_assoc, append-nil}
use mathlib.Core.Path.{subst}
use valecium.Std.Stdio.Snprintf.Written.{
  taken, Wrote, emit-Wrote, emit_all-Wrote, emit_number-Wrote, emit_decimal-Wrote,
}
use valecium.Std.Stdio.Snprintf.Texts.{
  text_at, unsigned_text, octal_text, signed_text, hex_text, upper_text, integer_text, pointer_text,
  upper_nought,
}

-- What the buffer holds when a text has been put into it that held `b`.
abbrev pub stored : ℕ → (ℕ → ℕ) → List ℕ → ℕ → ℕ
stored buf_size b text i =
    if ltb i (taken buf_size text)
    then char_at text i
    else if i == taken buf_size text && ltb 0 buf_size
    then 0
    else b i

module _ (args : ℕ → ℕ) (strings : ℕ → List ℕ) where
  abbrev Shows : ℕ → (ℕ → ℕ) → Item → ℕ → ℕ → List ℕ → Output → Type 0
  Shows buf_size b i s next text o =
      ((directive args strings buf_size s next o).0 ≡ (item_text args strings i next).1)
      × Wrote buf_size b (text ++ (item_text args strings i next).0)
          (directive args strings buf_size s next o).1

  module _ (buf_size : ℕ) (b : ℕ → ℕ) (text : List ℕ) (o : Output) (w : Wrote buf_size b text o)
      (words_fit : (i : ℕ) → args i < 2 ^ 32) where
    signed_lem :
        (next : ℕ)
        → Wrote buf_size b
            (text ++ text_at args decimal next)
            (emit_signed buf_size (sign_extend (args next)) o)
    unfolding emit_signed
    signed_lem next =
        let v = args next in
        let small : v < 2 ^ 32 = words_fit next in
        elim (Bool-cases (ltb v (2 ^ 31))) [
          | inl low ↦
              let positive : leb (2 ^ 32) (2 * v) ≡ false = ground arith in
              let positive' : leb (2 ^ 63) v ≡ false = ground arith in
              rw (low, positive', signed_text args next, positive)
                (emit_decimal-Wrote buf_size b 10 v text o (omega arith) (omega arith) (omega arith)
                  w)
          | inr high ↦
              let negative : leb (2 ^ 32) (2 * v) ≡ true = ground arith in
              let negative' : leb (2 ^ 63) (v + (2 ^ 64 - 2 ^ 32)) ≡ true = ground arith in
              let same : 2 ^ 64 - (v + (2 ^ 64 - 2 ^ 32)) ≡ 2 ^ 32 - v = omega arith in
              let minus = emit-Wrote buf_size b text 45 o w in
              rw (high, negative', same, signed_text args next, negative)
                (rw (append_assoc text (45 ∷ []) (map (λ c. c) (numeral 10 (2 ^ 32 - v)))) at (
                  emit_decimal-Wrote buf_size b 10 (2 ^ 32 - v) (text ++ (45 ∷ []))
                    (emit buf_size 45 o) (omega arith) (omega arith) (omega arith) minus))
        ]

    unsigned_lem :
        (radix next : ℕ)
        → 8 ≤ radix
        → radix ≤ 10
        → args next < radix ^ 31
        → Wrote buf_size b
            (text ++ map (λ c. c) (numeral radix (args next)))
            (emit_number buf_size decimal_char radix (args next) o)
    unsigned_lem radix next low high fits =
        emit_decimal-Wrote buf_size b radix (args next) text o (omega arith) high fits w

    hex_lem :
        (digit f : ℕ → ℕ) (next : ℕ)
        → ((d : ℕ) → d < 16 → digit d ≡ f (hex_char d))
        → f 48 ≡ 48
        → Wrote buf_size b
            (text ++ map f (numeral 16 (args next + 2 ^ 32 * args (next + 1))))
            (emit_number buf_size digit 16 (args next + 2 ^ 32 * args (next + 1)) o)
    hex_lem digit f next same keeps =
        emit_number-Wrote buf_size b digit f 16 (args next + 2 ^ 32 * args (next + 1)) text o
          (omega arith) same keeps (omega (arith, words_fit next, words_fit (next + 1))) w

    number_lem :
        (c : Conversion) (next : ℕ) → Shows buf_size b (number c) (conversion_char c) next text o
    unfolding directive conversion_char item_text number_size words
    number_lem decimal next = (refl, signed_lem next)
    number_lem integer next = (refl, rw (integer_text args next) (signed_lem next))
    number_lem unsigned next = (
      refl,
      rw (unsigned_text args next)
          (unsigned_lem 10 next (omega arith) (omega arith) (omega (arith, words_fit next))),
    )
    number_lem octal next = (
      refl,
      rw (octal_text args next)
          (unsigned_lem 8 next (omega arith) (omega arith) (omega (arith, words_fit next))),
    )
    number_lem lower_hex next =
        (refl, rw (hex_text args next) (hex_lem hex_char (λ c. c) next (λ d small. refl) refl))
    number_lem upper_hex next =
        (refl, rw (upper_text args next) (hex_lem upper_char upper next upper_lem upper_nought))
    number_lem pointer next = (
      refl,
      rw (pointer_text args next, hex_text args next)
          (hex_lem hex_char (λ c. c) next (λ d small. refl) refl),
    )

literal_step :
    (args : ℕ → ℕ) (strings : ℕ → List ℕ) (buf_size c : ℕ) (fmt : List ℕ) (next : ℕ) (o : Output)
    → c ≢ 37
    → format_loop args strings buf_size (c ∷ fmt) next o
      ≡ format_loop args strings buf_size fmt next (emit buf_size c o)
unfolding format_loop
literal_step args strings buf_size c [] next o other =
    let no_mark : (c == 37) ≡ false = ground arith in rw no_mark refl
literal_step args strings buf_size c (s ∷ fmt) next o other =
    let no_mark : (c == 37) ≡ false = ground arith in rw (format_loop, no_mark) refl

module _ (args : ℕ → ℕ) (strings : ℕ → List ℕ) (words_fit : (i : ℕ) → args i < 2 ^ 32)
    (buf_size : ℕ) (b : ℕ → ℕ) where
  directive-unsupported :
      (s next : ℕ) (o : Output)
      → has_meaning s ≡ false
      → directive args strings buf_size s next o ≡ (next, emit buf_size s (emit buf_size 37 o))
  unfolding directive
  directive-unsupported s next o good = ground arith

  unsupported_lem :
      (s next : ℕ) (text : List ℕ) (o : Output)
      → has_meaning s ≡ false
      → Wrote buf_size b text o
      → Shows args strings buf_size b (unsupported s) s next text o
  unfolding item_text
  unsupported_lem s next text o good w =
      let both = rw (append_assoc text (37 ∷ []) (s ∷ [])) at (
        emit-Wrote buf_size b (text ++ (37 ∷ [])) s (emit buf_size 37 o)
          (emit-Wrote buf_size b text 37 o w)) in
      rw (directive-unsupported s next o good) (refl, both)

  percent_lem :
      (next : ℕ) (text : List ℕ) (o : Output)
      → Wrote buf_size b text o
      → Shows args strings buf_size b percent 37 next text o
  unfolding directive item_text
  percent_lem next text o w = (refl, emit-Wrote buf_size b text 37 o w)

  character_lem :
      (next : ℕ) (text : List ℕ) (o : Output)
      → Wrote buf_size b text o
      → Shows args strings buf_size b character 99 next text o
  unfolding directive item_text
  character_lem next text o w = (refl, emit-Wrote buf_size b text (u8 (args next)) o w)

  string_lem :
      (next : ℕ) (text : List ℕ) (o : Output)
      → Wrote buf_size b text o
      → Shows args strings buf_size b string 115 next text o
  unfolding directive item_text
  string_lem next text o w = (
    refl,
    emit_all-Wrote buf_size b (if args next == 0 then null_chars else strings (args next)) text o w,
  )

  -- An item that begins with a `%`, before the rest of a format.
  marked_lem :
      (i : Item) (s next : ℕ) (is : List Item) (text : List ℕ) (o : Output)
      → Shows args strings buf_size b i s next text o
      → ((next' : ℕ) (text' : List ℕ) (o' : Output)
          → Wrote buf_size b text' o'
          → Wrote buf_size b
              (text' ++ text_of args strings is next')
              (format_loop args strings buf_size (items_format is) next' o'))
      → Wrote buf_size b
          (text
            ++ ((item_text args strings i next).0
                ++ text_of args strings is (item_text args strings i next).1))
          (format_loop args strings buf_size (37 ∷ s ∷ items_format is) next o)
  unfolding format_loop
  marked_lem i s next is text o (same, shown) later =
      let more = (item_text args strings i next).0 in
      let (next', o') = directive args strings buf_size s next o in
      let rest = text_of args strings is next' in
      subst
        (λ (n : ℕ).
          Wrote buf_size b (text ++ (more ++ text_of args strings is n))
            (format_loop args strings buf_size (items_format is) next' o'))
        same (rw (append_assoc text more rest) at (later next' (text ++ more) o' shown))

  loop_lem :
      (is : List Item) (next : ℕ) (text : List ℕ) (o : Output)
      → AreItems is
      → Wrote buf_size b text o
      → Wrote buf_size b
          (text ++ text_of args strings is next)
          (format_loop args strings buf_size (items_format is) next o)
  unfolding items_format text_of item_chars item_text
  loop_lem [] next text o good w = unfold format_loop in rw (append-nil text) w
  loop_lem (literal c ∷ is) next text o good w =
      let later =
        loop_lem is next (text ++ (c ∷ [])) (emit buf_size c o) good.1
          (emit-Wrote buf_size b text c o w) in
      rw (literal_step args strings buf_size c (items_format is) next o good.0)
        (rw (append_assoc text (c ∷ []) (text_of args strings is next)) at later)
  loop_lem (percent ∷ is) next text o good w =
      marked_lem percent 37 next is text o (percent_lem next text o w)
        (λ next' text' o'. loop_lem is next' text' o' good.1)
  loop_lem (character ∷ is) next text o good w =
      marked_lem character 99 next is text o (character_lem next text o w)
        (λ next' text' o'. loop_lem is next' text' o' good.1)
  loop_lem (string ∷ is) next text o good w =
      marked_lem string 115 next is text o (string_lem next text o w)
        (λ next' text' o'. loop_lem is next' text' o' good.1)
  loop_lem (number c ∷ is) next text o good w =
      marked_lem (number c) (conversion_char c) next is text o
        (number_lem args strings buf_size b text o w words_fit c next)
        (λ next' text' o'. loop_lem is next' text' o' good.1)
  loop_lem (unsupported s ∷ is) next text o good w =
      marked_lem (unsupported s) s next is text o (unsupported_lem s next text o good.0 w)
        (λ next' text' o'. loop_lem is next' text' o' good.1)

  -- `vsnprintf` with a format that spells some items puts the text that they show into the buffer,
  -- as much as goes in before a terminating 0, changes no other byte, and returns the length of the
  -- whole text; nothing is written to a buffer of size 0. The arguments are words of 32 bits.
  pub vsnprintf-text_of :
      (is : List Item)
      → AreItems is
      → ((vsnprintf args strings buf_size (items_format is) b).0
          ≡ u32 (length (text_of args strings is 0)))
        × ((i : ℕ)
            → (vsnprintf args strings buf_size (items_format is) b).1 i
              ≡ stored buf_size b (text_of args strings is 0) i)
  unfolding vsnprintf terminate
  vsnprintf-text_of is good =
      let o : Output = record { buffer = b; out_idx = 0; would_have = 0 } in
      let first : Wrote buf_size b [] o = record {
        index = ground arith;
        count = refl;
        bytes = λ i. ground arith;
      } in
      let w = loop_lem is 0 [] o good first in (w.count, λ i. ground (arith, w.index, w.bytes i))

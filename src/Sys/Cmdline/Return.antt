-- ===== src/Sys/Cmdline/Return.antt =====
-- kernel/sys/cmdline.c: the parser returns for every command line.
use valecium.Prelude.{
  ℕ, zero, suc, ◌≤◌, ◌<◌, ◌≡◌, refl, Bool, true, false, ◌||◌, arith, ◌==◌, inl, inr, ◌⊎◌,
  Bool-cases, none, some, leb, List, [], ◌∷◌, ◌++◌, length,
}
use valecium.Sys.Cmdline.{
  Allocator, space, equals, max_args, skip_spaces, take_key, take_value, value_of, Token, token_at,
  next_token, copy_token, parse, initialize,
}

skip_shorter : (src : List ℕ) → length (skip_spaces src) ≤ length src
unfolding skip_spaces
skip_shorter [] = omega arith
skip_shorter (c ∷ src) = ground (arith, skip_shorter src)

key_shorter : (room : ℕ) (src : List ℕ) → length (take_key room src).1 ≤ length src
unfolding take_key
key_shorter zero src = omega arith
key_shorter (suc room) [] = omega arith
key_shorter (suc room) (c ∷ src) = elim (Bool-cases (c == space || c == equals)) [
  | inl ends ↦ rw ends (omega arith)
  | inr more ↦ rw more (omega (arith, key_shorter room src))
]

value_shorter : (room : ℕ) (src : List ℕ) → length (take_value room src).1 ≤ length src
unfolding take_value
value_shorter zero src = omega arith
value_shorter (suc room) [] = omega arith
value_shorter (suc room) (c ∷ src) = elim (Bool-cases (c == space)) [
  | inl ends ↦ rw ends (omega arith)
  | inr more ↦ rw more (omega (arith, value_shorter room src))
]

value_of_shorter : (src : List ℕ) → length (value_of src).1 ≤ length src
unfolding value_of
value_of_shorter [] = omega arith
value_of_shorter (c ∷ src) = elim (Bool-cases (c == equals)) [
  | inl sign ↦ rw sign (omega (arith, value_shorter 191 src))
  | inr letter ↦ rw letter (omega arith)
]

value_of-equals :
    (c : ℕ) (src : List ℕ) → (c == equals) ≡ true → length (value_of (c ∷ src)).1 ≤ length src
unfolding value_of
value_of-equals c src sign = rw (value_of, sign) (omega (arith, value_shorter 191 src))

-- A character that is no space is taken, as a part of the key or as the equals sign.
taken :
    (room c : ℕ) (src : List ℕ)
    → (c == space) ≡ false
    → length (value_of (take_key (suc room) (c ∷ src)).1).1 ≤ length src
unfolding take_key
taken room c src other = elim (Bool-cases (c == equals)) [
  | inl sign ↦ rw (take_key, other, sign) (value_of-equals c src sign)
  | inr letter ↦
      rw (take_key, other, letter)
        (omega (arith, value_of_shorter (take_key room src).1, key_shorter room src))
]

token_shorter :
    (c : ℕ) (src : List ℕ) → (c == space) ≡ false → length (token_at (c ∷ src)).0 ≤ length src
token_shorter c src other =
    let after = (value_of (take_key 63 (c ∷ src)).1).1 in
    omega (arith, skip_shorter after, taken 62 c src other)

skip_cases :
    (src : List ℕ)
    → (skip_spaces src ≡ [])
      ⊎ ((c : ℕ) × (rest : List ℕ) × (skip_spaces src ≡ c ∷ rest)
          × ((c == space) ≡ false)
          × (length (c ∷ rest) ≤ length src))
unfolding skip_spaces
skip_cases [] = inl refl
skip_cases (c ∷ src) = elim (Bool-cases (c == space)) [
  | inl blank ↦ rw blank (elim (skip_cases src) [
    | inl empty ↦ inl empty
    | inr (d, rest, same, other, fits) ↦ inr (d, rest, same, other, omega arith)
  ])
  | inr other ↦ rw other (inr (c, src, refl, other, omega arith))
]

-- Each token takes something from the line.
next_token-shorter :
    (src : List ℕ)
    → (next_token src ≡ none)
      ⊎ ((t : Token) × (next_token src ≡ some t) × (length t.0 < length src))
unfolding next_token
next_token-shorter src = elim (skip_cases src) [
  | inl empty ↦ rw (next_token, empty) (inl refl)
  | inr (c, rest, same, other, fits) ↦
      let less = token_shorter c rest other in
      rw (next_token, same) (inr (token_at (c ∷ rest), refl, omega arith))
]

module _ {S : Type 0} (allocator : Allocator S) where
  -- The loop ends within as many rounds as the line has characters, and one.
  parse-some :
      (fuel : ℕ) (p : List ℕ) (args : List (List ℕ × List ℕ)) (s : S)
      → length p < fuel
      → (r : List (List ℕ × List ℕ) × S) × (parse allocator fuel p args s ≡ some r)
  unfolding parse
  parse-some zero p args s enough = absurd (omega arith)
  parse-some (suc fuel) [] args s enough = ((args, s), refl)
  parse-some (suc fuel) (c ∷ p) args s enough = elim (Bool-cases (leb max_args (length args))) [
    | inl full ↦ rw full ((args, s), refl)
    | inr room ↦ elim (next_token-shorter (c ∷ p)) [
      | inl ended ↦ rw (room, ended) ((args, s), refl)
      | inr ((rest, key, value), found, less) ↦
          let (copied, s1) = copy_token allocator key value s in
          elim (Bool-cases (length key == 0)) [
            | inl empty ↦ rw (room, found, empty) (parse-some fuel rest args s (omega arith))
            | inr letters ↦ elim (Bool-cases copied) [
              | inl both ↦
                  rw (room, found, letters, both)
                    (parse-some fuel rest (args ++ (key, value) ∷ []) s1 (omega arith))
              | inr out_of_memory ↦ rw (room, found, letters, out_of_memory) ((args, s1), refl)
            ]
          ]
    ]
  ]

  -- `CmdLine_Initialize` returns: fuel greater than the number of characters of the line is enough.
  -- Afterwards the line counts as parsed, so that a second call changes nothing.
  pub initialize-some :
      (fuel : ℕ) (raw : List ℕ) (args : List (List ℕ × List ℕ)) (s : S)
      → length raw < fuel
      → (r : Bool × List (List ℕ × List ℕ) × S) × (initialize allocator fuel
            (some raw)
            (false, args, s)
          ≡ some r)
        × (initialize allocator fuel (some raw) r ≡ some r)
  unfolding initialize
  initialize-some fuel raw args s enough =
      let ((args', s'), done) = parse-some fuel raw [] s enough in
      ((true, args', s'), rw (initialize, done) refl, refl)

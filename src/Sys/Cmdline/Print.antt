-- ===== src/Sys/Cmdline/Print.antt =====
-- kernel/sys/cmdline.c: a line that is printed from keys and values is parsed back to them.
use valecium.Prelude.{
  ℕ, zero, suc, ◌+◌, ◌≤◌, ◌<◌, ◌≡◌, refl, sym, ap, ◌∙◌, true, false, arith, ◌==◌, some, leb, u32,
  List, [], ◌∷◌, ◌++◌, length, length-append,
}
use mathlib.Core.Option
use mathlib.Core.List.{append_assoc, append-nil}
use valecium.Sys.Cmdline.{
  Allocator, space, equals, max_args, max_key, max_value, skip_spaces, take_key, take_value,
  value_of, token_at, next_token, copy_token, parse,
}

-- The characters of keys and of values.
abbrev pub IsKey : List ℕ → Type 0
IsKey [] = Unit {0}
IsKey (c ∷ key) = ((c == space) ≡ false) × ((c == equals) ≡ false) × IsKey key

abbrev pub IsValue : List ℕ → Type 0
IsValue [] = Unit {0}
IsValue (c ∷ value) = ((c == space) ≡ false) × IsValue value

-- Keys and values that fit the buffers; a key is not empty.
abbrev pub AllArgs : List (List ℕ × List ℕ) → Type 0
AllArgs [] = Unit {0}
AllArgs ((key, value) ∷ args) =
    (0 < length key)
    × (length key < max_key)
    × (length value < max_value)
    × IsKey key
    × IsValue value
    × AllArgs args

-- `key=value`, with a space behind it.
unfoldable pub print : List (List ℕ × List ℕ) → List ℕ
print [] = []
print ((key, value) ∷ args) = key ++ (equals ∷ (value ++ (space ∷ print args)))

key_back :
    (room : ℕ) (key src : List ℕ)
    → length key ≤ room
    → IsKey key
    → take_key room (key ++ equals ∷ src) ≡ (key, equals ∷ src)
unfolding take_key
key_back zero [] src fits ok = refl
key_back (suc room) [] src fits ok = refl
key_back zero (c ∷ key) src fits ok = absurd (omega arith)
key_back (suc room) (c ∷ key) src fits (other, letter, rest) =
    let more = key_back room key src (omega arith) rest in rw (take_key, other, letter, more) refl

value_back :
    (room : ℕ) (value src : List ℕ)
    → length value ≤ room
    → IsValue value
    → take_value room (value ++ space ∷ src) ≡ (value, space ∷ src)
unfolding take_value
value_back zero [] src fits ok = refl
value_back (suc room) [] src fits ok = refl
value_back zero (c ∷ value) src fits ok = absurd (omega arith)
value_back (suc room) (c ∷ value) src fits (other, rest) =
    let more = value_back room value src (omega arith) rest in rw (take_value, other, more) refl

-- A printed line does not begin with a space.
skip_print : (args : List (List ℕ × List ℕ)) → AllArgs args → skip_spaces (print args) ≡ print args
unfolding print skip_spaces
skip_print [] ok = refl
skip_print (([], value) ∷ args) ok = absurd (omega (arith, ok.0))
skip_print ((c ∷ key, value) ∷ args) ok = rw (ok.3.0) refl

token_parts :
    (src key after value rest : List ℕ)
    → take_key 63 src ≡ (key, after)
    → value_of after ≡ (value, rest)
    → token_at src ≡ (skip_spaces rest, key, value)
token_parts src key after value rest first second = rw (first, second) refl

next_token_lem :
    (c : ℕ) (src : List ℕ) → (c == space) ≡ false → next_token (c ∷ src) ≡ some (token_at (c ∷ src))
unfolding next_token skip_spaces
next_token_lem c src other = rw (next_token, skip_spaces, other) refl

value_of-equals : (src : List ℕ) → value_of (equals ∷ src) ≡ take_value 191 src
unfolding value_of
value_of-equals src = refl

skip-space : (src : List ℕ) → skip_spaces (space ∷ src) ≡ skip_spaces src
unfolding skip_spaces
skip-space src = refl

token_print :
    (c : ℕ) (key value : List ℕ) (args : List (List ℕ × List ℕ))
    → AllArgs ((c ∷ key, value) ∷ args)
    → next_token (print ((c ∷ key, value) ∷ args)) ≡ some (print args, c ∷ key, value)
unfolding print
token_print c key value args (some_left, key_fits, value_fits, is_key, is_value, rest) =
    let line = print args in
    let src = key ++ (equals ∷ (value ++ (space ∷ line))) in
    let key_taken = key_back 63 (c ∷ key) (value ++ space ∷ line) (omega arith) is_key in
    let value_taken =
      value_of-equals (value ++ space ∷ line) ∙ value_back 191 value line (omega arith) is_value in
    let token =
      token_parts (c ∷ src) (c ∷ key) (equals ∷ (value ++ space ∷ line)) value (space ∷ line)
        key_taken value_taken in
    next_token_lem c src is_key.0
    ∙ ap some token
    ∙ ap (λ l. some (l, c ∷ key, value)) (skip-space line ∙ skip_print args rest)

module _ {S : Type 0} (allocator : Allocator S)
    (plenty : (size : ℕ) (s : S) → ((allocator.malloc size s).0 == 0) ≡ false) where
  copy_token_lem : (key value : List ℕ) (s : S) → (copy_token allocator key value s).0 ≡ true
  unfolding copy_token
  copy_token_lem key value s =
      let (kheap, s1) = allocator.malloc (u32 (length key + 1)) s in
      let first = plenty (u32 (length key + 1)) s in
      let second = plenty (u32 (length value + 1)) s1 in rw (copy_token, first, second) refl

  parse_step :
      (fuel c : ℕ) (p rest key value : List ℕ) (before : List (List ℕ × List ℕ)) (s : S)
      → leb max_args (length before) ≡ false
      → next_token (c ∷ p) ≡ some (rest, key, value)
      → 0 < length key
      → parse allocator (suc fuel) (c ∷ p) before s
        ≡ parse allocator fuel rest
            (before ++ (key, value) ∷ [])
            (copy_token allocator key value s).1
  unfolding parse
  parse_step fuel c p rest key value before s few found letters =
      let some_left : (length key == 0) ≡ false = ground arith in
      let copied = copy_token_lem key value s in rw (parse, few, found, some_left, copied) refl

  -- The loop after some arguments.
  parse_all :
      (fuel : ℕ) (args before : List (List ℕ × List ℕ)) (s : S)
      → length args < fuel
      → length before + length args ≤ max_args
      → AllArgs args
      → Option.map (λ r. r.0) (parse allocator fuel (print args) before s) ≡ some (before ++ args)
  unfolding parse print
  parse_all zero args before s enough room ok = absurd (omega arith)
  parse_all (suc fuel) [] before s enough room ok = ap some (sym (append-nil before))
  parse_all (suc fuel) (([], value) ∷ args) before s enough room ok = absurd (omega (arith, ok.0))
  parse_all (suc fuel) ((c ∷ key, value) ∷ args) before s enough room ok =
      let found = token_print c key value args ok in
      let few : leb max_args (length before) ≡ false = ground arith in
      let src = key ++ (equals ∷ (value ++ (space ∷ print args))) in
      let next = before ++ (c ∷ key, value) ∷ [] in
      let len = length-append before ((c ∷ key, value) ∷ []) in
      ap (Option.map (λ r. r.0))
        (parse_step fuel c src (print args) (c ∷ key) value before s few found (omega arith))
      ∙ parse_all fuel args next (copy_token allocator (c ∷ key) value s).1 (omega arith)
          (omega (arith, len)) ok.5
      ∙ ap some (append_assoc before ((c ∷ key, value) ∷ []) args)

  -- At most 16 keys and values, printed as `key=value` with a space behind each, are parsed back, if
  -- a key has 1 to 63 characters other than a space and an equals sign, a value has at most 191
  -- characters other than a space, there is memory, and the fuel is greater than their number.
  pub parse-print :
      (fuel : ℕ) (args : List (List ℕ × List ℕ)) (s : S)
      → length args < fuel
      → length args ≤ max_args
      → AllArgs args
      → Option.map (λ r. r.0) (parse allocator fuel (print args) [] s) ≡ some args
  parse-print fuel args s enough room ok = parse_all fuel args [] s enough (omega arith) ok

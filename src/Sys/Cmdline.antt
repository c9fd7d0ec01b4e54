-- ===== src/Sys/Cmdline.antt =====
-- kernel/sys/cmdline.c: the command line is cut into keys and values. A string is the list of its
-- characters before the terminating 0. The allocator is the interface `Allocator`; the copies of the
-- keys and values are given by their characters.
pub mod Return
pub mod Print
pub mod Tests
use valecium.Prelude.{
  ℕ, zero, suc, ◌+◌, ◌-◌, ◌*◌, ◌/◌, ◌%◌, ◌^◌, ◌≤◌, ◌<◌, ◌≡◌, ◌≢◌, refl, sym, ap, ◌∙◌, Bool, true,
  false, not, ◌&&◌, ◌||◌, arith, ◌==◌, ==_iff, if◌then◌else◌, inl, inr, ◌⊎◌, Bool-cases,
  Option-cases, Option, none, some, ltb, leb, u8, u32, update, List, [], ◌∷◌, ◌++◌, fun_ext,
  has_bit, length, length-append, get_or, take, drop, replicate, map, bit_and, bit_or, passes,
  passes→true, length-map, length-replicate,
}

pub record Allocator (S : Type 0) : Type 0 where
  pub malloc : ℕ → S → ℕ × S
  pub free : ℕ → S → S

abbrev pub space : ℕ
space = 32

abbrev pub equals : ℕ
equals = 61

abbrev pub max_args : ℕ
max_args = 16

abbrev pub max_key : ℕ
max_key = 64

abbrev pub max_value : ℕ
max_value = 192

unfoldable pub skip_spaces : List ℕ → List ℕ
skip_spaces [] = []
skip_spaces (c ∷ src) = let rest = skip_spaces src in if c == space then rest else c ∷ src

-- The loop that copies a key, with the room that is left: the key and the rest.
unfoldable pub take_key : ℕ → List ℕ → List ℕ × List ℕ
take_key zero src = ([], src)
take_key (suc room) [] = ([], [])
take_key (suc room) (c ∷ src) =
    let (key, rest) = take_key room src in
    if c == space || c == equals then ([], c ∷ src) else (c ∷ key, rest)

unfoldable pub take_value : ℕ → List ℕ → List ℕ × List ℕ
take_value zero src = ([], src)
take_value (suc room) [] = ([], [])
take_value (suc room) (c ∷ src) =
    let (value, rest) = take_value room src in
    if c == space then ([], c ∷ src) else (c ∷ value, rest)

-- What follows a key: its value and the rest.
unfoldable pub value_of : List ℕ → List ℕ × List ℕ
value_of [] = ([], [])
value_of (c ∷ src) = if c == equals then take_value (max_value - 1) src else ([], c ∷ src)

-- The rest, the key and the value.
abbrev pub Token : Type 0
Token = List ℕ × List ℕ × List ℕ

abbrev pub token_at : List ℕ → Token
token_at src =
    let (key, after) = take_key (max_key - 1) src in
    let (value, rest) = value_of after in (skip_spaces rest, key, value)

-- `none`: there is no more token.
unfoldable pub next_token : List ℕ → Option Token
next_token src = elim (skip_spaces src) [ [] ↦ none | c ∷ rest ↦ some (token_at (c ∷ rest)) ]

module _ {S : Type 0} (allocator : Allocator S) where
  -- The two copies of a token; the Boolean says whether there was memory for both.
  unfoldable pub copy_token : List ℕ → List ℕ → S → Bool × S
  copy_token key value s =
      let (kheap, s1) = allocator.malloc (u32 (length key + 1)) s in
      let (vheap, s2) = allocator.malloc (u32 (length value + 1)) s1 in
      if kheap == 0 || vheap == 0
      then (let s3 = if kheap == 0 then s2 else allocator.free kheap s2 in
          (false, if vheap == 0 then s3 else allocator.free vheap s3))
      else (true, s2)

  -- The loop of `CmdLine_Initialize`, from the arguments so far; `none` means that it still runs when
  -- the fuel is used up.
  unfoldable pub parse :
      ℕ → List ℕ → List (List ℕ × List ℕ) → S → Option (List (List ℕ × List ℕ) × S)
  parse zero p args s = none
  parse (suc fuel) [] args s = some (args, s)
  parse (suc fuel) (c ∷ p) args s =
      if leb max_args (length args) then some (args, s) else elim (next_token (c ∷ p)) [
        | none ↦ some (args, s)
        | some (rest, key, value) ↦
            let (copied, s1) = copy_token key value s in
            if length key == 0
            then parse fuel rest args s
            else if not copied
            then some (args, s1)
            else parse fuel rest (args ++ (key, value) ∷ []) s1
      ]

  -- `CmdLine_Initialize`, on whether the line was parsed, the table, and the allocator's state; a
  -- missing line is the null pointer.
  unfoldable pub initialize :
      ℕ
      → Option (List ℕ)
      → Bool × List (List ℕ × List ℕ) × S
      → Option (Bool × List (List ℕ × List ℕ) × S)
  initialize fuel line (true, args, s) = some (true, args, s)
  initialize fuel none (false, args, s) = some (true, args, s)
  initialize fuel (some raw) (false, args, s) = elim (parse fuel raw [] s) [
    | none ↦ none
    | some (args', s') ↦ some (true, args', s')
  ]

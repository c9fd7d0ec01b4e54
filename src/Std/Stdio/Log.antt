-- ===== src/Std/Stdio/Log.antt =====
-- kernel/std/stdio.c: `logfmt` and `print_buffer`. A type of message is its number, whatever it is;
-- the table of emitters is a function of the index.
use valecium.Prelude.{
  ℕ, zero, suc, ◌+◌, ◌/◌, ◌%◌, ◌^◌, ◌≤◌, ◌<◌, ◌≡◌, ◌≢◌, refl, ap, ◌∙◌, Bool, true, false, ◌&&◌,
  arith, ◌==◌, if◌then◌else◌, inl, inr, Bool-cases, Option, none, some, ltb, update, List, [], ◌∷◌,
  ◌++◌, bit_and,
}
use valecium.Prelude.{bit_and-ones}
use mathlib.Core.List.{append_assoc}
use valecium.Std.Stdio.{hex_char, printf_loop, printf_vimpl, step_in}

-- "\x1B[37mINFO: ", "\x1B[33mWARNING: ", "\x1B[31mERROR: ", "\x1B[1;41;37mFATAL: ", "UNKNOWN: " and
-- "\x1B[0m"
abbrev pub info_chars : List ℕ
info_chars = 27 ∷ 91 ∷ 51 ∷ 55 ∷ 109 ∷ 73 ∷ 78 ∷ 70 ∷ 79 ∷ 58 ∷ 32 ∷ []

abbrev pub warning_chars : List ℕ
warning_chars = 27 ∷ 91 ∷ 51 ∷ 51 ∷ 109 ∷ 87 ∷ 65 ∷ 82 ∷ 78 ∷ 73 ∷ 78 ∷ 71 ∷ 58 ∷ 32 ∷ []

abbrev pub error_chars : List ℕ
error_chars = 27 ∷ 91 ∷ 51 ∷ 49 ∷ 109 ∷ 69 ∷ 82 ∷ 82 ∷ 79 ∷ 82 ∷ 58 ∷ 32 ∷ []

abbrev pub fatal_chars : List ℕ
fatal_chars =
    27 ∷ 91 ∷ 49 ∷ 59 ∷ 52 ∷ 49 ∷ 59 ∷ 51 ∷ 55 ∷ 109 ∷ 70 ∷ 65 ∷ 84 ∷ 65 ∷ 76 ∷ 58 ∷ 32 ∷ []

abbrev pub unknown_chars : List ℕ
unknown_chars = 85 ∷ 78 ∷ 75 ∷ 78 ∷ 79 ∷ 87 ∷ 78 ∷ 58 ∷ 32 ∷ []

abbrev pub reset_chars : List ℕ
reset_chars = 27 ∷ 91 ∷ 48 ∷ 109 ∷ []

-- An emitter: the one that prints nothing, or one with a prefix.
pub data Emitter : Type 0 where
  info_disabled info warning error fatal unknown : Emitter

-- `s_LogEmitters`
unfoldable pub log_emitters : ℕ → Emitter
log_emitters i =
    if i == 0
    then info
    else if i == 1
    then warning
    else if i == 2
    then error
    else if i == 3
    then fatal
    else unknown

unfoldable pub disable_info : (ℕ → Emitter) → ℕ → Emitter
disable_info emitters = update emitters 0 info_disabled

-- What a type of message begins with.
unfoldable pub prefix_of : ℕ → List ℕ
prefix_of logtype =
    if logtype == 0
    then info_chars
    else if logtype == 1
    then warning_chars
    else if logtype == 2
    then error_chars
    else if logtype == 3
    then fatal_chars
    else unknown_chars

-- The prefix of an emitter.
emitter_chars : Emitter → List ℕ
emitter_chars info_disabled = []
emitter_chars info = info_chars
emitter_chars warning = warning_chars
emitter_chars error = error_chars
emitter_chars fatal = fatal_chars
emitter_chars unknown = unknown_chars

table_lem :
    (logtype : ℕ)
    → (log_emitters (if ltb 3 logtype then 4 else logtype) ≢ info_disabled)
      × (emitter_chars (log_emitters (if ltb 3 logtype then 4 else logtype)) ≡ prefix_of logtype)
unfolding log_emitters prefix_of emitter_chars
table_lem logtype = ground arith

module _ (args : ℕ → ℕ) (strings : ℕ → List ℕ) where
  unfoldable pub emit_with : List ℕ → List ℕ → List ℕ
  emit_with prefix fmt =
      printf_vimpl args strings prefix
      ++ (printf_vimpl args strings fmt ++ printf_vimpl args strings reset_chars)

  unfoldable pub log_emit : Emitter → List ℕ → List ℕ
  log_emit info_disabled fmt = []
  log_emit info fmt = emit_with info_chars fmt
  log_emit warning fmt = emit_with warning_chars fmt
  log_emit error fmt = emit_with error_chars fmt
  log_emit fatal fmt = emit_with fatal_chars fmt
  log_emit unknown fmt = emit_with unknown_chars fmt

  unfoldable pub logfmt_impl : (ℕ → Emitter) → ℕ → List ℕ → List ℕ
  logfmt_impl emitters logtype fmt = log_emit (emitters (if ltb 3 logtype then 4 else logtype)) fmt

  log_emit-emitter_chars :
      (e : Emitter) (fmt : List ℕ)
      → e ≢ info_disabled
      → log_emit e fmt ≡ emitter_chars e ++ (printf_vimpl args strings fmt ++ reset_chars)
  unfolding log_emit emit_with printf_vimpl printf_loop step_in emitter_chars
  log_emit-emitter_chars info_disabled fmt on = absurd (on refl)
  log_emit-emitter_chars info fmt on = refl
  log_emit-emitter_chars warning fmt on = refl
  log_emit-emitter_chars error fmt on = refl
  log_emit-emitter_chars fatal fmt on = refl
  log_emit-emitter_chars unknown fmt on = refl

  enabled_lem :
      (logtype : ℕ) (fmt : List ℕ)
      → logfmt_impl log_emitters logtype fmt
        ≡ prefix_of logtype ++ (printf_vimpl args strings fmt ++ reset_chars)
  unfolding logfmt_impl
  enabled_lem logtype fmt =
      let (on, chars) = table_lem logtype in
      log_emit-emitter_chars (log_emitters (if ltb 3 logtype then 4 else logtype)) fmt on
      ∙ ap (λ (cs : List ℕ). cs ++ (printf_vimpl args strings fmt ++ reset_chars)) chars

  other_lem :
      (logtype : ℕ) (fmt : List ℕ)
      → logtype ≢ 0
      → logfmt_impl (disable_info log_emitters) logtype fmt ≡ logfmt_impl log_emitters logtype fmt
  unfolding logfmt_impl disable_info
  other_lem logtype fmt other =
      let index : ℕ = if ltb 3 logtype then 4 else logtype in
      let same : update log_emitters 0 info_disabled index ≡ log_emitters index = ground arith in
      ap (λ (e : Emitter). log_emit e fmt) same

  -- `logfmt` prints the type of the message, the message, and what resets the colour, for every
  -- number that may stand for a type, but nothing for LOG_INFO after LOG_DisableInfo; an unknown type
  -- has no colour.
  pub logfmt_impl-prefix_of :
      (disabled : Bool) (logtype : ℕ) (fmt : List ℕ)
      → logfmt_impl (if disabled then disable_info log_emitters else log_emitters) logtype fmt ≡ (
          if disabled && logtype == 0
          then []
          else prefix_of logtype ++ (printf_vimpl args strings fmt ++ reset_chars))
  logfmt_impl-prefix_of false logtype fmt = enabled_lem logtype fmt
  logfmt_impl-prefix_of true logtype fmt = elim (Bool-cases (logtype == 0)) [
    | inl silent ↦
        let gone : logtype ≡ 0 = ground arith in
        rw gone (unfold logfmt_impl disable_info log_emit in refl)
    | inr other ↦
        let same : logfmt_impl (disable_info log_emitters) logtype fmt
            ≡ logfmt_impl log_emitters logtype fmt =
          other_lem logtype fmt (ground arith) in
        rw other (same ∙ enabled_lem logtype fmt)
  ]

-- The loop of `print_buffer`, whose index has 16 bits; `none`: it still runs when the fuel is used up.
unfoldable pub print_loop : ℕ → (ℕ → ℕ) → ℕ → ℕ → List ℕ → Option (List ℕ)
print_loop zero buffer count i out = none
print_loop (suc fuel) buffer count i out =
    let rest =
      print_loop fuel buffer count ((i + 1) % 2 ^ 16)
        (out ++ (hex_char (buffer i / 16) ∷ hex_char (bit_and (buffer i) 15) ∷ [])) in
    if ltb i count then rest else some (out ++ (10 ∷ []))

unfoldable pub print_buffer : ℕ → List ℕ → (ℕ → ℕ) → ℕ → Option (List ℕ)
print_buffer fuel msg buffer count = print_loop fuel buffer count 0 msg

-- Two digits for each of `n` bytes from the one at `i` on.
unfoldable pub hex_bytes : (ℕ → ℕ) → ℕ → ℕ → List ℕ
hex_bytes buffer zero i = []
hex_bytes buffer (suc n) i =
    hex_char (buffer i / 16) ∷ hex_char (buffer i % 16) ∷ hex_bytes buffer n (i + 1)

nibble : (x : ℕ) → bit_and x 15 ≡ x % 16
nibble x = bit_and-ones 4 x ∙ omega arith

print_loop-hex_bytes :
    (fuel n : ℕ) (buffer : ℕ → ℕ) (count i : ℕ) (out : List ℕ)
    → i + n ≡ count
    → count < 2 ^ 16
    → n < fuel
    → print_loop fuel buffer count i out ≡ some (out ++ (hex_bytes buffer n i ++ (10 ∷ [])))
unfolding print_loop hex_bytes
print_loop-hex_bytes zero n buffer count i out e small enough = absurd (omega arith)
print_loop-hex_bytes (suc fuel) zero buffer count i out e small enough =
    let stop : ltb i count ≡ false = ground arith in rw stop refl
print_loop-hex_bytes (suc fuel) (suc n) buffer count i out e small enough =
    let two : List ℕ = hex_char (buffer i / 16) ∷ hex_char (buffer i % 16) ∷ [] in
    let go : ltb i count ≡ true = ground arith in
    let next : (i + 1) % 2 ^ 16 ≡ i + 1 = omega arith in
    rw (go, next, nibble (buffer i))
      (print_loop-hex_bytes fuel n buffer count (i + 1) (out ++ two) (omega arith) small
          (omega arith)
        ∙ ap some (append_assoc out two (hex_bytes buffer n (i + 1) ++ (10 ∷ []))))

print_loop-none :
    (fuel : ℕ) (buffer : ℕ → ℕ) (count i : ℕ) (out : List ℕ)
    → 2 ^ 16 ≤ count
    → i < 2 ^ 16
    → print_loop fuel buffer count i out ≡ none
unfolding print_loop
print_loop-none zero buffer count i out big small = refl
print_loop-none (suc fuel) buffer count i out big small =
    let go : ltb i count ≡ true = ground arith in
    rw go (print_loop-none fuel buffer count ((i + 1) % 2 ^ 16) _ big (omega arith))

-- `print_buffer` prints the message, two hexadecimal digits for each byte and a line feed, if there
-- are fewer than 2 ^ 16 bytes, with fuel for one round more than bytes; with more bytes it never
-- ends.
pub print_buffer-hex_bytes :
    (fuel : ℕ) (msg : List ℕ) (buffer : ℕ → ℕ) (count : ℕ)
    → count < fuel
    → print_buffer fuel msg buffer count
      ≡ (if ltb count (2 ^ 16) then some (msg ++ (hex_bytes buffer count 0 ++ (10 ∷ []))) else none)
unfolding print_buffer
print_buffer-hex_bytes fuel msg buffer count enough = elim (Bool-cases (ltb count (2 ^ 16))) [
  | inl small ↦ rw small (
      print_loop-hex_bytes fuel count buffer count 0 msg (omega arith) (ground arith) (omega arith))
  | inr big ↦ rw big (print_loop-none fuel buffer count 0 msg (ground arith) (omega arith))
]

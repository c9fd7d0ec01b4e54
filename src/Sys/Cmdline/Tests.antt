-- ===== src/Sys/Cmdline/Tests.antt =====
-- Runs of `Sys.Cmdline`, and the theorems about it at concrete inputs.
use valecium.Prelude.{
  ℕ, ◌+◌, ◌≡◌, refl, Bool, true, false, arith, some, List, [], ◌∷◌, length, replicate, map,
}
use mathlib.Core.Option
use valecium.Sys.Cmdline.{
  Allocator, skip_spaces, take_key, take_value, value_of, next_token, copy_token, parse, initialize,
}
use valecium.Sys.Cmdline.Return.{initialize-some}
use valecium.Sys.Cmdline.Print.{print, parse-print}

-- Each block has the next number as its address.
abbrev allocator : Allocator ℕ
allocator = record { malloc = λ size n. (n + 1, n + 1); free = λ p n. n }

-- " root=sda  quiet "
abbrev line : List ℕ
line = 32 ∷ b'r' ∷ b'o' ∷ b'o' ∷ b't' ∷ 61 ∷ b's' ∷ b'd' ∷ b'a' ∷ 32 ∷ 32 ∷ b'q' ∷ 32 ∷ []

abbrev root : List ℕ
root = b'r' ∷ b'o' ∷ b'o' ∷ b't' ∷ []

abbrev sda : List ℕ
sda = b's' ∷ b'd' ∷ b'a' ∷ []

parsed :
    initialize allocator 20 (some line) (false, [], 0)
    ≡ some (true, (root, sda) ∷ (b'q' ∷ [], []) ∷ [], 4)
unfolding initialize parse copy_token next_token skip_spaces take_key take_value value_of
parsed = refl

-- An equals sign without a key is left out, with its value.
no_key :
    Option.map (λ r. r.0) (parse allocator 9 (61 ∷ b'x' ∷ 32 ∷ b'y' ∷ []) [] 0)
    ≡ some ((b'y' ∷ [], []) ∷ [])
unfolding parse copy_token next_token skip_spaces take_key take_value value_of
no_key = refl

abbrev sizes : List ℕ × List ℕ → ℕ × ℕ
sizes (key, value) = (length key, length value)

-- A value of 195 characters is cut, and its end becomes a key.
long_value :
    Option.map (λ r. map sizes r.0) (parse allocator 300 (b'k' ∷ 61 ∷ replicate 195 b'v') [] 0)
    ≡ some ((1, 191) ∷ (4, 0) ∷ [])
unfolding parse copy_token next_token skip_spaces take_key take_value value_of
long_value = refl

initialize-some_example :
    (r : Bool × List (List ℕ × List ℕ) × ℕ) × (initialize allocator 20 (some line) (false, [], 0)
      ≡ some r)
    × (initialize allocator 20 (some line) r ≡ some r)
initialize-some_example = initialize-some allocator 20 line [] 0 (omega arith)

abbrev two_args : List (List ℕ × List ℕ)
two_args = (root, sda) ∷ (b'q' ∷ [], []) ∷ []

parse-print_example :
    Option.map (λ r. r.0) (parse allocator 3 (print two_args) [] 0) ≡ some two_args
parse-print_example =
    parse-print allocator (λ size s. ground arith) 3 two_args 0 (omega arith) (omega arith)
      (
        omega arith,
        omega arith,
        omega arith,
        (refl, refl, (refl, refl, (refl, refl, (refl, refl, tt)))),
        (refl, (refl, (refl, tt))),
        (omega arith, omega arith, omega arith, (refl, refl, tt), tt, tt),
      )

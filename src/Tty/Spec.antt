-- ===== src/Tty/Spec.antt =====
-- What a terminal promises: the line under edit and the queue of the characters that a reader can
-- take, as lists. kernel/drivers/tty/tty.c is proved to behave so in `Tty.Refine`.
use valecium.Prelude.{
  ℕ, zero, suc, ◌-◌, Bool, true, ◌&&◌, ◌||◌, ◌==◌, if◌then◌else◌, ltb, List, [], ◌∷◌, ◌++◌, has_bit,
  length,
}
use valecium.Tty.Buffer.{input_size}
use valecium.Tty.Device.{
  line_size, flag_icanon, flag_isig, flag_icrnl, char_eof, char_intr, char_erase, char_kill,
  char_susp,
}

pub record Edit : Type 0 where
  pub line : List ℕ
  pub queue : List ℕ
  pub ready : Bool
  pub eof : Bool
  pub flags : ℕ

-- A full queue drops what comes.
unfoldable pub enqueue : List ℕ → ℕ → List ℕ
enqueue q c = if ltb (length q) input_size then q ++ c ∷ [] else q

unfoldable pub enqueue_all : List ℕ → List ℕ → List ℕ
enqueue_all q [] = q
enqueue_all q (c ∷ cs) = enqueue_all (enqueue q c) cs

unfoldable pub drop_last : List ℕ → List ℕ
drop_last [] = []
drop_last (x ∷ []) = []
drop_last (x ∷ y ∷ ys) = x ∷ drop_last (y ∷ ys)

unfoldable pub flush : Edit → Edit
flush e = record e { line = []; queue = enqueue (enqueue_all e.queue e.line) 10; ready = true }

unfoldable pub add : Edit → ℕ → Edit
add e c = if ltb (length e.line) (line_size - 1) then record e { line = e.line ++ c ∷ [] } else e

unfoldable pub end_of_file : Edit → Edit
end_of_file e = if length e.line == 0 then record e { eof = true; ready = true } else flush e

unfoldable pub input_canonical : Edit → ℕ → Edit
input_canonical e c =
    if c == 8 || c == char_erase
    then record e { line = drop_last e.line }
    else if c == char_kill
    then record e { line = [] }
    else if c == 10
    then flush e
    else add e c

unfoldable pub input_translated : Edit → ℕ → Edit
input_translated e c =
    if has_bit e.flags flag_isig && c == char_intr
    then record e { line = [] }
    else if has_bit e.flags flag_isig && c == char_eof
    then end_of_file e
    else if has_bit e.flags flag_isig && c == char_susp
    then e
    else if has_bit e.flags flag_icanon
    then input_canonical e c
    else record e { queue = enqueue e.queue c }

unfoldable pub input : Edit → ℕ → Edit
input e c = input_translated e (if has_bit e.flags flag_icrnl && c == 13 then 10 else c)

unfoldable pub inputs : Edit → List ℕ → Edit
inputs e [] = e
inputs e (c ∷ cs) = inputs (input e c) cs

-- What a read takes out of the queue: at most `room` characters, and in canonical mode no more
-- than the rest of one line.
unfoldable pub take_line : Bool → ℕ → List ℕ → List ℕ × List ℕ
take_line canonical zero q = ([], q)
take_line canonical (suc room) [] = ([], [])
take_line canonical (suc room) (c ∷ q) =
    let (more, rest) = take_line canonical room q in
    if canonical && c == 10 then (c ∷ [], q) else (c ∷ more, rest)

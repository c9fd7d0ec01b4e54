-- ===== src/Tty/Refine/Read.antt =====
-- kernel/drivers/tty/tty.c: `TTY_Read` implements `Tty.Spec`, and gives back what was typed.
use valecium.Prelude.{
  ℕ, zero, suc, ◌+◌, ◌-◌, ◌≤◌, ◌<◌, ◌≡◌, refl, sym, ap, ◌∙◌, Bool, true, false, not, ◌&&◌, arith,
  ◌==◌, inl, inr, Bool-cases, ltb, List, [], ◌∷◌, ◌++◌, has_bit, length, length-append,
}
use mathlib.Core.List.{append_assoc, append-nil}
use valecium.Tty.Buffer
use valecium.Tty.Buffer.{input_size}
use valecium.Tty.Buffer.Refine.{IsRing, contents, pop-IsRing, pop_empty, pop-some}
use valecium.Tty.Device.{Tty, is_canonical, flag_icanon, line_size}
use valecium.Tty.Read.{has_pending_read, read_loop, read_pending}
use valecium.Tty.Spec
use valecium.Tty.Spec.{Edit, enqueue, enqueue_all, take_line}
use valecium.Tty.Refine.{view, prefix, IsValid}

-- The loop takes what the specification takes.
pub record Takes (t : Tty) (room : ℕ) (result : List ℕ × Tty) : Type 0 where
  pub bytes : result.0 ≡ (take_line (is_canonical t) room (contents t.input)).0
  pub left : contents result.1.input ≡ (take_line (is_canonical t) room (contents t.input)).1
  pub ring : IsRing result.1.input

pub read_loop-Takes : (room : ℕ) (t : Tty) → IsRing t.input → Takes t room (read_loop room t)
unfolding read_loop take_line is_canonical
read_loop-Takes zero t r = record { bytes = refl; left = refl; ring = r }
read_loop-Takes (suc room) t r = elim (Bool-cases (t.input.count == 0)) [
  | inl empty ↦
      let (stuck, none_left) = pop_empty t.input (ground arith) in
      rw (ap (λ p. p.0) stuck, read_loop)
        (record { bytes = rw none_left; left = rw none_left; ring = r })
  | inr some_left ↦
      let (x, got, split) = pop-some t.input r (ground arith) in
      let t' : Tty = record t { input = (Buffer.pop t.input).1 } in
      let rest = read_loop-Takes room t' (pop-IsRing t.input r) in
      rw (got, read_loop)
        (elim (Bool-cases (is_canonical t && x == 10)) [
          | inl end ↦ rw end (record {
            bytes = rw (split, end);
            left = rw (split, end);
            ring = pop-IsRing t.input r;
          })
          | inr more ↦ rw more (record {
            bytes = rw (split, more) (ap (λ l. x ∷ l) rest.bytes);
            left = rw (split, more) rest.left;
            ring = rest.ring;
          })
        ])
]

-- A character with no meaning of its own.
abbrev pub is_plain : ℕ → Bool
is_plain c =
    not (c == 3)
    && not (c == 4)
    && not (c == 8)
    && not (c == 10)
    && not (c == 13)
    && not (c == 0x15)
    && not (c == 0x1a)
    && not (c == 0x7f)

abbrev pub AllPlain : List ℕ → Type 0
AllPlain [] = Unit {0}
AllPlain (c ∷ cs) = (is_plain c ≡ true) × AllPlain cs

input_plain :
    (e : Edit) (c : ℕ)
    → has_bit e.flags flag_icanon ≡ true
    → is_plain c ≡ true
    → length e.line < line_size - 1
    → Spec.input e c ≡ record e { line = e.line ++ c ∷ [] }
unfolding Spec.input Spec.input_translated Spec.input_canonical Spec.add
input_plain e c mode plain room = ground arith

pub inputs_plain :
    (e : Edit) (cs : List ℕ)
    → has_bit e.flags flag_icanon ≡ true
    → AllPlain cs
    → length e.line + length cs < line_size
    → Spec.inputs e cs ≡ record e { line = e.line ++ cs }
unfolding Spec.inputs
inputs_plain e [] mode plain room = ap (λ l. record e { line = l }) (sym (append-nil e.line))
inputs_plain e (c ∷ cs) mode plain room = rw (input_plain e c mode plain.0 (omega arith)) (
    inputs_plain (record e { line = e.line ++ c ∷ [] }) cs mode plain.1
      (omega (arith, length-append e.line (c ∷ [])))
    ∙ ap (λ l. record e { line = l }) (append_assoc e.line (c ∷ []) cs))

enqueue_all_lem : (q cs : List ℕ) → length q + length cs ≤ input_size → enqueue_all q cs ≡ q ++ cs
unfolding enqueue_all enqueue
enqueue_all_lem q [] fits = sym (append-nil q)
enqueue_all_lem q (c ∷ cs) fits =
    let room : ltb (length q) input_size ≡ true = ground arith in
    rw room (
      enqueue_all_lem (q ++ c ∷ []) cs (omega (arith, length-append q (c ∷ [])))
      ∙ append_assoc q (c ∷ []) cs)

take_line_lem :
    (cs : List ℕ) (room : ℕ)
    → AllPlain cs
    → length cs < room
    → take_line true room (cs ++ 10 ∷ []) ≡ (cs ++ 10 ∷ [], [])
unfolding take_line
take_line_lem cs zero plain lt = absurd (omega arith)
take_line_lem [] (suc room) plain lt = refl
take_line_lem (c ∷ cs) (suc room) plain lt =
    let rest = take_line_lem cs room plain.1 (omega arith) in
    let go : (c == 10) ≡ false = ground arith in rw (go, rest)

-- A terminal in canonical mode where nothing was typed since the last read.
pub record IsIdle (t : Tty) : Type 0 where
  pub valid : IsValid t
  pub canonical : is_canonical t ≡ true
  pub no_line : t.line_len ≡ 0
  pub no_input : t.input.count ≡ 0
  pub not_ready : t.line_ready ≡ false
  pub no_eof : t.eof_pending ≡ false

abbrev pub edit : List ℕ → List ℕ → Bool → ℕ → Edit
edit line queue ready flags = record {
  line = line;
  queue = queue;
  ready = ready;
  eof = false;
  flags = flags;
}

pub inputs-append :
    (e : Edit) (cs ds : List ℕ) → Spec.inputs e (cs ++ ds) ≡ Spec.inputs (Spec.inputs e cs) ds
unfolding Spec.inputs
inputs-append e [] ds = refl
inputs-append e (c ∷ cs) ds = inputs-append (Spec.input e c) cs ds

pub end_of_line :
    (cs : List ℕ) (flags : ℕ)
    → has_bit flags flag_icanon ≡ true
    → length cs < line_size
    → Spec.input (edit cs [] false flags) 10 ≡ edit [] (cs ++ 10 ∷ []) true flags
unfolding Spec.input Spec.input_translated Spec.input_canonical Spec.flush enqueue
end_of_line cs flags mode short =
    let all = enqueue_all_lem [] cs (omega arith) in
    let room : ltb (length cs) input_size ≡ true = ground arith in
    simp (all, room, mode) (ground arith)

pub view_idle : {t : Tty} → IsIdle t → view t ≡ edit [] [] false t.flags
unfolding prefix
view_idle {t} idle = cc (
  ap (prefix t.line_buf) idle.no_line,
  (pop_empty t.input idle.no_input).1,
  idle.not_ready,
  idle.no_eof,
)

-- A device that shows a whole line gives it to a reader with room.
pub read_line :
    (t : Tty) (cs : List ℕ) (count : ℕ)
    → IsRing t.input
    → view t ≡ edit [] (cs ++ 10 ∷ []) true t.flags
    → is_canonical t ≡ true
    → AllPlain cs
    → length cs < count
    → (has_pending_read t ≡ true) × ((read_pending t count).0 ≡ cs ++ 10 ∷ [])
unfolding has_pending_read read_pending
read_line t cs count ring seen canonical plain room =
    let no_eof : t.eof_pending ≡ false = ap (λ (e : Edit). e.eof) seen in
    let ready : t.line_ready ≡ true = ap (λ (e : Edit). e.ready) seen in
    let queue : contents t.input ≡ cs ++ 10 ∷ [] = ap (λ (e : Edit). e.queue) seen in
    let takes = read_loop-Takes count t ring in
    (
      simp (no_eof, ready, canonical),
      simp no_eof (takes.bytes ∙ rw (canonical, queue, take_line_lem cs count plain room)),
    )

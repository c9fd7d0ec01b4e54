-- ===== src/Tty/Refine/Waits.antt =====
-- kernel/drivers/tty/tty.c: a reader of a terminal gets the line that is typed, and waits for its end.
use valecium.Prelude.{
  ℕ, ◌+◌, ◌<◌, ◌≡◌, sym, ap, ◌∙◌, Bool, true, false, arith, ◌==◌, some, List, [], ◌∷◌, ◌++◌, length,
  length-append,
}
use mathlib.Core.Option
use mathlib.Core.Path.{subst}
use mathlib.Core.List.{append_assoc}
use valecium.Tty.Buffer.Refine.{contents, length-contents}
use valecium.Tty.Device.{Backend, Tty, Console, is_canonical, line_size}
use valecium.Tty.Input.{input_chars}
use valecium.Tty.Read.{has_pending_read, read_pending, read}
use valecium.Tty.Spec
use valecium.Tty.Spec.{Edit, enqueue, enqueue_all, take_line}
use valecium.Tty.Refine.{view, IsValid}
use valecium.Tty.Refine.Input.{input_chars-Shows}
use valecium.Tty.Refine.Read.{
  AllPlain, inputs_plain, IsIdle, edit, inputs-append, end_of_line, view_idle, read_line,
}

-- A terminal in canonical mode where part of a line was typed since the last read.
pub record IsTyping (t : Tty) (line : List ℕ) : Type 0 where
  pub valid : IsValid t
  pub canonical : is_canonical t ≡ true
  pub seen : view t ≡ edit line [] false t.flags

idle-IsTyping : {t : Tty} → IsIdle t → IsTyping t []
idle-IsTyping idle = record {
  valid = idle.valid;
  canonical = idle.canonical;
  seen = view_idle idle;
}

-- Part of a line is not given to a reader.
typing_waits : {t : Tty} {line : List ℕ} → IsTyping t line → has_pending_read t ≡ false
unfolding has_pending_read
typing_waits {t} {line} typing =
    let no_eof : t.eof_pending ≡ false = ap (λ (e : Edit). e.eof) typing.seen in
    let not_ready : t.line_ready ≡ false = ap (λ (e : Edit). e.ready) typing.seen in
    let queue : contents t.input ≡ [] = ap (λ (e : Edit). e.queue) typing.seen in
    let nothing : t.input.count ≡ 0 = sym (length-contents t.input) ∙ ap length queue in
    ground arith

AllPlain-append : (cs ds : List ℕ) → AllPlain cs → AllPlain ds → AllPlain (cs ++ ds)
AllPlain-append [] ds plain plain' = plain'
AllPlain-append (c ∷ cs) ds plain plain' = (plain.0, AllPlain-append cs ds plain.1 plain')

AllPlain-left : (cs ds : List ℕ) → AllPlain (cs ++ ds) → AllPlain cs
AllPlain-left [] ds plain = tt
AllPlain-left (c ∷ cs) ds plain = (plain.0, AllPlain-left cs ds plain.1)

AllPlain-right : (cs ds : List ℕ) → AllPlain (cs ++ ds) → AllPlain ds
AllPlain-right [] ds plain = plain
AllPlain-right (c ∷ cs) ds plain = AllPlain-right cs ds plain.1

-- What arrives in several waits.
unfoldable pub arrived : List (List ℕ) → List ℕ
arrived [] = []
arrived (cs ∷ arrivals) = cs ++ arrived arrivals

-- The last wait brings some characters and the end of the line.
unfoldable pub with_end : List (List ℕ) → List ℕ → List (List ℕ)
with_end [] last = (last ++ 10 ∷ []) ∷ []
with_end (cs ∷ arrivals) last = cs ∷ with_end arrivals last

module _ {S : Type 0} (backend : Backend S) where
  more-IsTyping :
      (k : Console S) (line cs : List ℕ)
      → IsTyping k.tty line
      → AllPlain cs
      → length line + length cs < line_size
      → IsTyping (input_chars backend k cs).tty (line ++ cs)
  unfolding is_canonical
  more-IsTyping k line cs typing plain short =
      let t : Tty = (input_chars backend k cs).tty in
      let shown = input_chars-Shows backend k typing.valid cs in
      let seen : view t ≡ edit (line ++ cs) [] false k.tty.flags =
        shown.seen
        ∙ ap (λ e. Spec.inputs e cs) typing.seen
        ∙ inputs_plain (edit line [] false k.tty.flags) cs typing.canonical plain short in
      let same : t.flags ≡ k.tty.flags = ap (λ (e : Edit). e.flags) seen in
      record {
        valid = shown.valid;
        canonical = rw same typing.canonical;
        seen = seen ∙ ap (edit (line ++ cs) [] false) (sym same);
      }

  -- After the end of the line was typed it is there to be read.
  typed_pending :
      (k : Console S) (line cs : List ℕ) (count : ℕ)
      → IsTyping k.tty line
      → AllPlain line
      → AllPlain cs
      → length line + length cs < line_size
      → length line + length cs < count
      → let t = (input_chars backend k (cs ++ 10 ∷ [])).tty in
        (has_pending_read t ≡ true) × ((read_pending t count).0 ≡ (line ++ cs) ++ 10 ∷ [])
  unfolding is_canonical Spec.inputs
  typed_pending k line cs count typing before plain short room =
      let t : Tty = (input_chars backend k (cs ++ 10 ∷ [])).tty in
      let all = line ++ cs in
      let size = length-append line cs in
      let start = edit line [] false k.tty.flags in
      let shown = input_chars-Shows backend k typing.valid (cs ++ 10 ∷ []) in
      let seen : view t ≡ edit [] (all ++ 10 ∷ []) true k.tty.flags =
        shown.seen
        ∙ ap (λ e. Spec.inputs e (cs ++ 10 ∷ [])) typing.seen
        ∙ inputs-append start cs (10 ∷ [])
        ∙ ap (λ e. Spec.input e 10) (inputs_plain start cs typing.canonical plain short)
        ∙ end_of_line all k.tty.flags typing.canonical (omega (arith, size)) in
      let same : t.flags ≡ k.tty.flags = ap (λ (e : Edit). e.flags) seen in
      read_line t all count shown.valid.ring (seen ∙ ap (edit [] (all ++ 10 ∷ []) true) (sym same))
        (rw same typing.canonical) (AllPlain-append line cs before plain) (omega (arith, size))

  reads_later :
      (arrivals : List (List ℕ)) (last line : List ℕ) (k : Console S) (count : ℕ)
      → IsTyping k.tty line
      → AllPlain line
      → AllPlain (arrived arrivals ++ last)
      → length line + length (arrived arrivals ++ last) < line_size
      → length line + length (arrived arrivals ++ last) < count
      → Option.map (λ p. p.0) (read backend true (with_end arrivals last) k count)
        ≡ some ((line ++ (arrived arrivals ++ last)) ++ 10 ∷ [])
  unfolding read arrived with_end
  reads_later [] last line k count typing before plain short room =
      let (pending, bytes) = typed_pending k line last count typing before plain short room in
      let waits = typing_waits typing in
      let some_room : (count == 0) ≡ false = ground arith in rw (some_room, waits, pending, bytes)
  reads_later (cs ∷ arrivals) last line k count typing before plain short room =
      let rest = arrived arrivals ++ last in
      let whole : (cs ++ arrived arrivals) ++ last ≡ cs ++ rest =
        append_assoc cs (arrived arrivals) last in
      let plain' : AllPlain (cs ++ rest) = subst AllPlain whole plain in
      let here = AllPlain-left cs rest plain' in
      let size = ap length whole ∙ length-append cs rest in
      let size' = length-append line cs in
      let typing' = more-IsTyping k line cs typing here (omega (arith, size)) in
      let later =
        reads_later arrivals last (line ++ cs) (input_chars backend k cs) count typing'
          (AllPlain-append line cs before here) (AllPlain-right cs rest plain')
          (omega (arith, size, size')) (omega (arith, size, size')) in
      let waits = typing_waits typing in
      let some_room : (count == 0) ≡ false = ground arith in
      let together : (line ++ cs) ++ rest ≡ line ++ ((cs ++ arrived arrivals) ++ last) =
        append_assoc line cs rest ∙ ap (λ l. line ++ l) (sym whole) in
      rw (some_room, waits) (later ∙ ap (λ l. some (l ++ 10 ∷ [])) together)

  -- A reader that waits on an idle terminal in canonical mode sleeps on while only part of a line
  -- has been typed, however the characters are spread over its waits, and gets exactly the line when
  -- its end is typed, the end included, if the line has less than 256 plain characters, the reader
  -- has room, and nothing arrives behind the end in the last wait.
  pub read_typed :
      (k : Console S) (arrivals : List (List ℕ)) (last : List ℕ) (count : ℕ)
      → IsIdle k.tty
      → AllPlain (arrived arrivals ++ last)
      → length (arrived arrivals ++ last) < line_size
      → length (arrived arrivals ++ last) < count
      → Option.map (λ p. p.0) (read backend true (with_end arrivals last) k count)
        ≡ some ((arrived arrivals ++ last) ++ 10 ∷ [])
  read_typed k arrivals last count idle plain short room =
      reads_later arrivals last [] k count (idle-IsTyping idle) tt plain (omega arith) (omega arith)

  -- A reader that comes after the line was typed gets it too.
  pub read_after :
      (k : Console S) (cs : List ℕ) (count : ℕ) (can_wait : Bool)
      → IsIdle k.tty
      → AllPlain cs
      → length cs < line_size
      → length cs < count
      → Option.map
          (λ p. p.0)
          (read backend can_wait [] (input_chars backend k (cs ++ 10 ∷ [])) count)
        ≡ some (cs ++ 10 ∷ [])
  unfolding read
  read_after k cs count can_wait idle plain short room =
      let (pending, bytes) =
        typed_pending k [] cs count (idle-IsTyping idle) tt plain (omega arith) (omega arith) in
      let some_room : (count == 0) ≡ false = ground arith in rw (some_room, pending, bytes)

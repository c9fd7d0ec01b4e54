-- ===== src/Tty/Refine/Line.antt =====
-- kernel/drivers/tty/tty.c: editing and flushing the line implement `Tty.Spec`.
use valecium.Prelude.{
  ℕ, zero, suc, ◌+◌, ◌-◌, ◌≤◌, ◌<◌, ◌≡◌, refl, sym, ap, ◌∙◌, true, false, arith, ◌==◌, inl, inr,
  Bool-cases, ltb, leb, update, List, [], ◌∷◌, ◌++◌, length, length-append,
}
use native.Mathlib.Nat.{le_refl}
use mathlib.Core.Path.{subst}
use valecium.Tty.Buffer.Refine.{contents}
use valecium.Tty.Device.{Backend, Console, line_size, wake_readers}
use valecium.Tty.Line.{
  push_input, flush_from, line_flush, line_erase_char, line_kill_loop, line_kill, line_add_char,
}
use valecium.Tty.Spec
use valecium.Tty.Spec.{Edit, enqueue, enqueue_all, drop_last}
use valecium.Tty.Refine.{
  prefix, view, IsValid, Shows, Shows-SameLine, contents-push, push_input-Shows, echo-SameLine,
}

-- The characters of a line from index `i` on, first one first.
slice : (ℕ → ℕ) → ℕ → ℕ → List ℕ
slice buf i zero = []
slice buf i (suc n) = buf i ∷ slice buf (i + 1) n

slice-snoc : (buf : ℕ → ℕ) (i n : ℕ) → slice buf i (suc n) ≡ slice buf i n ++ buf (i + n) ∷ []
unfolding slice
slice-snoc buf i zero = let e : i + zero ≡ i = omega arith in rw e
slice-snoc buf i (suc n) =
    let e : i + 1 + n ≡ i + suc n = omega arith in
    ap (λ l. buf i ∷ l) (slice-snoc buf (i + 1) n ∙ rw e)

prefix-eq-slice : (buf : ℕ → ℕ) (n : ℕ) → prefix buf n ≡ slice buf 0 n
unfolding prefix slice
prefix-eq-slice buf zero = refl
prefix-eq-slice buf (suc n) =
    let e : 0 + n ≡ n = omega arith in rw (prefix-eq-slice buf n, slice-snoc buf 0 n, e)

flush_from-Shows :
    {S : Type 0} (n i : ℕ) (k : Console S)
    → IsValid k.tty
    → Shows (flush_from n i k).tty (record (view k.tty) {
      queue = enqueue_all (contents k.tty.input) (slice k.tty.line_buf i n);
    })
unfolding flush_from slice enqueue_all push_input
flush_from-Shows zero i k v = record { valid = v; seen = refl }
flush_from-Shows (suc n) i k v =
    subst
      (λ q.
        Shows (flush_from n (i + 1) (push_input k (k.tty.line_buf i))).tty
          (record (view k.tty) { queue = enqueue_all q (slice k.tty.line_buf (i + 1) n) }))
      (contents-push k.tty.input (k.tty.line_buf i) v.ring)
      (flush_from-Shows n (i + 1) (push_input k (k.tty.line_buf i))
        (push_input-Shows k (k.tty.line_buf i) v).valid)

drop_last-snoc : (xs : List ℕ) (x : ℕ) → drop_last (xs ++ x ∷ []) ≡ xs
unfolding drop_last
drop_last-snoc [] x = refl
drop_last-snoc (y ∷ []) x = refl
drop_last-snoc (y ∷ z ∷ zs) x = ap (λ l. y ∷ l) (drop_last-snoc (z ∷ zs) x)

erased : (buf : ℕ → ℕ) (n : ℕ) → prefix buf (n - 1) ≡ drop_last (prefix buf n)
unfolding prefix drop_last
erased buf zero = refl
erased buf (suc n) =
    let e : suc n - 1 ≡ n = omega arith in
    ap (prefix buf) e ∙ sym (drop_last-snoc (prefix buf n) (buf n))

prefix-update : (buf : ℕ → ℕ) (n i c : ℕ) → n ≤ i → prefix (update buf i c) n ≡ prefix buf n
unfolding prefix
prefix-update buf zero i c le = refl
prefix-update buf (suc n) i c le =
    let off : (i == n) ≡ false = ground arith in rw (prefix-update buf n i c (omega arith), off)

pub length-prefix : (buf : ℕ → ℕ) (n : ℕ) → length (prefix buf n) ≡ n
unfolding prefix
length-prefix buf zero = refl
length-prefix buf (suc n) =
    omega (arith, length-append (prefix buf n) (buf n ∷ []), length-prefix buf n)

module _ {S : Type 0} (backend : Backend S) (k : Console S) where
  pub line_flush-Shows : IsValid k.tty → Shows (line_flush backend k).tty (Spec.flush (view k.tty))
  unfolding line_flush wake_readers Spec.flush push_input prefix
  line_flush-Shows v =
      let flushed = flush_from-Shows k.tty.line_len 0 k v in
      let last = push_input-Shows (flush_from k.tty.line_len 0 k) 10 flushed.valid in
      record {
        valid = record { ring = last.valid.ring; short = omega arith; at_end = refl };
        seen = cc (
          ap (λ (e : Edit). e.queue) last.seen,
          ap (λ (e : Edit). e.queue) flushed.seen,
          ap (λ (e : Edit). e.eof) flushed.seen,
          ap (λ (e : Edit). e.flags) flushed.seen,
          prefix-eq-slice k.tty.line_buf k.tty.line_len,
        );
      }

  pub inserted-Shows :
      (c : ℕ)
      → IsValid k.tty
      → k.tty.line_len < line_size - 1
      → Shows
          (record (k.tty) {
            line_buf = update k.tty.line_buf k.tty.line_len c;
            line_len = k.tty.line_len + 1;
            line_pos = k.tty.line_len + 1;
          })
          (record (view k.tty) { line = prefix k.tty.line_buf k.tty.line_len ++ c ∷ [] })
  unfolding prefix
  inserted-Shows c v room =
      let next : k.tty.line_len + 1 ≡ suc k.tty.line_len = omega arith in
      let here : (k.tty.line_len == k.tty.line_len) ≡ true = ground arith in
      record {
        valid = record { ring = v.ring; short = omega arith; at_end = refl };
        seen =
            simp (
              next,
              here,
              prefix-update k.tty.line_buf k.tty.line_len k.tty.line_len c (le_refl _),
            );
      }

  pub line_add_char-Shows :
      (c : ℕ) → IsValid k.tty → Shows (line_add_char backend k c).tty (Spec.add (view k.tty) c)
  unfolding line_add_char Spec.add
  line_add_char-Shows c v = elim (Bool-cases (leb (line_size - 1) k.tty.line_len)) [
    | inl full ↦
        let stop : ltb k.tty.line_len (line_size - 1) ≡ false = ground arith in
        rw (full, length-prefix k.tty.line_buf k.tty.line_len, stop)
          (record { valid = v; seen = refl })
    | inr room ↦
        let go : ltb k.tty.line_len (line_size - 1) ≡ true = ground arith in
        rw (room, length-prefix k.tty.line_buf k.tty.line_len, go)
          (Shows-SameLine (echo-SameLine backend _ (c ∷ [])) (inserted-Shows c v (ground arith)))
  ]

  pub line_erase_char-Shows :
      IsValid k.tty
      → Shows
          (line_erase_char backend k).tty
          (record (view k.tty) { line = drop_last (prefix k.tty.line_buf k.tty.line_len) })
  unfolding line_erase_char
  line_erase_char-Shows v = elim (Bool-cases (k.tty.line_len == 0)) [
    | inl empty ↦
        let none_left : prefix k.tty.line_buf k.tty.line_len
            ≡ drop_last (prefix k.tty.line_buf k.tty.line_len) =
          let e : k.tty.line_len ≡ k.tty.line_len - 1 = ground arith in
          ap (prefix k.tty.line_buf) e ∙ erased k.tty.line_buf k.tty.line_len in
        rw empty (record { valid = v; seen = ap (λ l. record (view k.tty) { line = l }) none_left })
    | inr some_left ↦ rw some_left (
        Shows-SameLine (echo-SameLine backend _ (8 ∷ 32 ∷ 8 ∷ [])) (record {
          valid = record { ring = v.ring; short = omega (arith, v.short); at_end = ground arith };
          seen = rw (erased k.tty.line_buf k.tty.line_len);
        }))
  ]

  line_len-erase : (line_erase_char backend k).tty.line_len ≡ k.tty.line_len - 1
  unfolding line_erase_char
  line_len-erase = elim (Bool-cases (k.tty.line_len == 0)) [
    | inl empty ↦ rw empty (ground arith)
    | inr some_left ↦ rw some_left (echo-SameLine backend _ (8 ∷ 32 ∷ 8 ∷ [])).line_len
  ]

module _ {S : Type 0} (backend : Backend S) where
  pub line_kill_loop-Shows :
      (n : ℕ) (k : Console S)
      → IsValid k.tty
      → k.tty.line_len ≤ n
      → Shows (line_kill_loop backend n k).tty (record (view k.tty) { line = [] })
  unfolding line_kill_loop prefix
  line_kill_loop-Shows zero k v le =
      let e : k.tty.line_len ≡ 0 = omega arith in
      record {
        valid = v;
        seen = ap (λ n. record (view k.tty) { line = prefix k.tty.line_buf n }) e;
      }
  line_kill_loop-Shows (suc n) k v le = elim (Bool-cases (ltb 0 k.tty.line_len)) [
    | inl more ↦
        let once = line_erase_char-Shows backend k v in
        let rest =
          line_kill_loop-Shows n (line_erase_char backend k) once.valid
            (omega (arith, line_len-erase backend k)) in
        rw more (record {
          valid = rest.valid;
          seen = rest.seen ∙ ap (λ (e : Edit). record e { line = [] }) once.seen;
        })
    | inr done ↦
        let e : k.tty.line_len ≡ 0 = ground arith in
        rw done (record {
          valid = v;
          seen = ap (λ n. record (view k.tty) { line = prefix k.tty.line_buf n }) e;
        })
  ]

  pub line_kill-Shows :
      (k : Console S)
      → IsValid k.tty
      → Shows (line_kill backend k).tty (record (view k.tty) { line = [] })
  unfolding line_kill
  line_kill-Shows k v = line_kill_loop-Shows k.tty.line_len k v (le_refl _)

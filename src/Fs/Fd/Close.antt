-- ===== src/Fs/Fd/Close.antt =====
-- kernel/fs/fd/fd.c: closing drops one reference for each descriptor.
use valecium.Prelude.{
  ℕ, zero, suc, ◌+◌, ◌-◌, ◌≤◌, ◌<◌, ◌≡◌, ◌≢◌, refl, ap, ◌∙◌, true, false, not, ◌&&◌, arith, ◌==◌,
  ==_iff, if◌then◌else◌, inl, inr, Bool-cases, ltb, leb, update,
}
use valecium.Fs.Fd.{
  File, Vfs, World, table_size, get, drop_reference, release, close, close_slot, close_from,
  close_all,
}

-- How many of the `n` descriptors from `i` on stand for the file at `p`.
unfoldable pub holders : ℕ → (ℕ → ℕ) → ℕ → ℕ → ℕ
holders p table zero i = 0
holders p table (suc n) i = (if table i == p then 1 else 0) + holders p table n (i + 1)

holders-update :
    (p : ℕ) (table : ℕ → ℕ) (n i j v : ℕ)
    → j < i
    → holders p (update table j v) n i ≡ holders p table n i
unfolding holders
holders-update p table zero i j v lt = refl
holders-update p table (suc n) i j v lt =
    let other : (j == i) ≡ false = ground arith in
    rw (other, holders-update p table n (i + 1) j v (omega arith))

drop_reference-ref_count : (f : File) → (drop_reference f).ref_count ≡ f.ref_count - 1
unfolding drop_reference
drop_reference-ref_count f = elim (Bool-cases (ltb 0 f.ref_count)) [
  | inl some_left ↦ rw some_left
  | inr none_left ↦ rw none_left (ground arith)
]

module _ {S : Type 0} (vfs : Vfs S) where
  dropped :
      (p q : ℕ) (w : World S)
      → (update w.files p (drop_reference (w.files p)) q).ref_count
        ≡ (w.files q).ref_count - (if p == q then 1 else 0)
  dropped p q w = elim (Bool-cases (p == q)) [
    | inl here ↦
        let e : p ≡ q = (==_iff p q).0 here in rw (here, e) (drop_reference-ref_count (w.files q))
    | inr other ↦ rw other (omega arith)
  ]

  release-table : (p : ℕ) (w : World S) → (release vfs p w).fd_table ≡ w.fd_table
  unfolding release
  release-table p w =
      elim (Bool-cases (
        (drop_reference (w.files p)).ref_count == 0
        && not ((drop_reference (w.files p)).inode == 0))) [
          | inl last ↦ rw last
          | inr more ↦ rw more
        ]

  release-ref_count :
      (p q : ℕ) (w : World S)
      → ((release vfs p w).files q).ref_count ≡ (w.files q).ref_count - (if p == q then 1 else 0)
  unfolding release
  release-ref_count p q w =
      elim (Bool-cases (
        (drop_reference (w.files p)).ref_count == 0
        && not ((drop_reference (w.files p)).inode == 0))) [
          | inl last ↦ rw last (dropped p q w)
          | inr more ↦ rw more (dropped p q w)
        ]

  close_slot-empty : (i : ℕ) (w : World S) → (w.fd_table i == 0) ≡ true → close_slot vfs i w ≡ w
  unfolding close_slot
  close_slot-empty i w empty = rw empty

  close_slot-used :
      (i : ℕ) (w : World S)
      → i < table_size
      → (w.fd_table i == 0) ≡ false
      → close_slot vfs i w
        ≡ release vfs (w.fd_table i) (record w { fd_table = update w.fd_table i 0 })
  unfolding close_slot close get
  close_slot-used i w lt used =
      let inside : leb 16 i ≡ false = ground arith in rw (used, inside, used)

  close_from_lem :
      (n i q j : ℕ) (w : World S)
      → q ≢ 0
      → i + n ≤ table_size
      → (((close_from vfs n i w).files q).ref_count
          ≡ (w.files q).ref_count - holders q w.fd_table n i)
        × ((close_from vfs n i w).fd_table j
            ≡ (if leb i j && ltb j (i + n) then 0 else w.fd_table j))
  unfolding close_from holders
  close_from_lem zero i q j w real fits = (omega arith, ground arith)
  close_from_lem (suc n) i q j w real fits = elim (Bool-cases (w.fd_table i == 0)) [
    | inl empty ↦
        let later = close_from_lem n (i + 1) q j w real (omega arith) in
        let other : (w.fd_table i == q) ≡ false = ground arith in
        let stays : close_slot vfs i w ≡ w = close_slot-empty i w empty in
        (
          ap (λ x. ((close_from vfs n (i + 1) x).files q).ref_count) stays
              ∙ later.0
              ∙ rw other (omega arith),
          ap (λ x. (close_from vfs n (i + 1) x).fd_table j) stays ∙ later.1 ∙ ground (arith, empty),
        )
    | inr used ↦
        let w' = record w { fd_table = update w.fd_table i 0 } in
        let r = release vfs (w.fd_table i) w' in
        let later = close_from_lem n (i + 1) q j r real (omega arith) in
        let table : r.fd_table ≡ update w.fd_table i 0 = release-table (w.fd_table i) w' in
        let count = release-ref_count (w.fd_table i) q w' in
        let moved = close_slot-used i w (omega arith) used in
        (
          ap (λ x. ((close_from vfs n (i + 1) x).files q).ref_count) moved
              ∙ later.0
              ∙ rw (table, holders-update q w.fd_table n (i + 1) i 0 (omega arith), count)
                  (omega arith),
          ap (λ x. (close_from vfs n (i + 1) x).fd_table j) moved
              ∙ later.1
              ∙ rw table (ground arith),
        )
  ]

  -- `FD_CloseAll` empties the table of a process and drops, for each file, as many references as
  -- there are descriptors in the table that stand for it; a count does not go below 0.
  pub close_all_lem :
      (w : World S) (p fd : ℕ)
      → p ≢ 0
      → fd < table_size
      → ((close_all vfs w).fd_table fd ≡ 0)
        × (((close_all vfs w).files p).ref_count
            ≡ (w.files p).ref_count - holders p w.fd_table table_size 0)
  unfolding close_all
  close_all_lem w p fd real lt =
      let (count, slot) = close_from_lem table_size 0 p fd w real (omega arith) in
      (slot ∙ ground arith, count)

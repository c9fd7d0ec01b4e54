-- ===== src/Fs/Fd/Open.antt =====
-- kernel/fs/fd/fd.c: what `FD_Open` does to the table.
use valecium.Prelude.{
  ℕ, ◌≤◌, ◌<◌, ◌≡◌, ◌≢◌, refl, ap, true, false, not, arith, ◌==◌, if◌then◌else◌, inl, inr,
  Bool-cases, Option, none, some, update, List, has_bit,
}
use valecium.Fs.Fd.{
  Vfs, World, Result, ok, error, table_size, initial_file, access_mask, set_file, store_file,
  set_inode, open_existing, open_new, open_at, fd_open,
}
use valecium.Fs.Fd.Slots.{Search, full, free, find_free-Search}

-- The new file at `p` in the world `w'`, with one reference, in the slot `fd` of the table.
pub record Opened {S : Type 0} (flags fd : ℕ) (w w' : World S) (p : ℕ) : Type 0 where
  pub real : p ≢ 0
  pub table : w'.fd_table ≡ update w.fd_table fd p
  pub one : (w'.files p).ref_count ≡ 1
  pub inode : (w'.files p).inode ≢ 0
  pub readable : (w'.files p).readable ≡ not (has_bit flags 1)
  pub writable : (w'.files p).writable ≡ has_bit flags 3
  pub kept : (q : ℕ) → (p == q) ≡ false → w'.files q ≡ w.files q

pub data Outcome {S : Type 0} (flags : ℕ) (w : World S) : Result × World S → Type 0 where
  failed : {e : ℕ} {w' : World S} → w'.fd_table ≡ w.fd_table → Outcome flags w (error e, w')
  opened :
      {fd p : ℕ} {w' : World S}
      → 3 ≤ fd
      → fd < table_size
      → w.fd_table fd ≡ 0
      → ((j : ℕ) → 3 ≤ j → j < fd → w.fd_table j ≢ 0)
      → Opened flags fd w w' p
      → Outcome flags w (ok fd, w')

-- Before the file is put into the table.
record Prepared {S : Type 0} (flags : ℕ) (w w' : World S) (p : ℕ) : Type 0 where
  pub table : w'.fd_table ≡ w.fd_table
  pub readable : (w'.files p).readable ≡ not (has_bit flags 1)
  pub writable : (w'.files p).writable ≡ has_bit flags 3
  pub kept : (q : ℕ) → (p == q) ≡ false → w'.files q ≡ w.files q

module _ {S : Type 0} (vfs : Vfs S) (flags : ℕ) (w : World S) where
  stored :
      (fd p : ℕ) (w' : World S)
      → p ≢ 0
      → (w'.files p).inode ≢ 0
      → Prepared flags w w' p
      → Opened flags fd w (store_file vfs fd p w').1 p
  unfolding store_file
  stored fd p w' real inode pre =
      let here : (p == p) ≡ true = ground arith in
      record {
        real = real;
        table = rw pre.table refl;
        one = rw here refl;
        inode = rw here inode;
        readable = rw here pre.readable;
        writable = rw here pre.writable;
        kept = λ q other. rw other (pre.kept q other);
      }

  module _ (fd p : ℕ) (lo : 3 ≤ fd) (hi : fd < table_size) (is_free : w.fd_table fd ≡ 0)
      (lowest : (j : ℕ) → 3 ≤ j → j < fd → w.fd_table j ≢ 0) (real : p ≢ 0) where
    put-Outcome :
        (w' : World S)
        → (w'.files p).inode ≢ 0
        → Prepared flags w w' p
        → Outcome flags w (store_file vfs fd p w')
    unfolding store_file
    put-Outcome w' inode pre = opened lo hi is_free lowest (stored fd p w' real inode pre)

    existing-Outcome :
        (path : List ℕ) (i : ℕ) (w' : World S)
        → (w'.files p).inode ≢ 0
        → Prepared flags w w' p
        → Outcome flags w (open_existing vfs path flags i fd p w')
    unfolding open_existing
    existing-Outcome path i w' inode pre =
        let (allowed, s) = vfs.access path w'.euid w'.egid (access_mask flags) w'.rest in
        elim (Bool-cases allowed) [
          | inl may ↦ rw may (
              put-Outcome (record w' { rest = s }) inode
                (record {
                  table = pre.table;
                  readable = pre.readable;
                  writable = pre.writable;
                  kept = pre.kept;
                }))
          | inr denied ↦ rw denied (failed pre.table)
        ]

    inode-Prepared :
        (i : ℕ) (s : S) (w' : World S)
        → Prepared flags w w' p
        → Prepared flags w (set_inode vfs p i s w') p
          × (((set_inode vfs p i s w').files p).inode ≡ i)
    inode-Prepared i s w' pre =
        let here : (p == p) ≡ true = ground arith in
        (
          record {
            table = pre.table;
            readable = rw here pre.readable;
            writable = rw here pre.writable;
            kept = λ q other. rw other (pre.kept q other);
          },
          rw here refl,
        )

    new-Outcome :
        (path : List ℕ) (mode : ℕ) (w' : World S)
        → Prepared flags w w' p
        → Outcome flags w (open_new vfs path flags mode fd p w')
    unfolding open_new
    new-Outcome path mode w' pre = elim (Bool-cases (has_bit flags 0x40)) [
      | inr absent ↦ rw absent (failed pre.table)
      | inl create ↦
          let (i, s) = vfs.create path mode w'.rest in
          let (pre', at) = inode-Prepared i s w' pre in
          elim (Bool-cases (i == 0)) [
            | inl null ↦ rw (create, null) (failed pre'.table)
            | inr found ↦
                rw (create, found)
                  (put-Outcome _ (rw at (ground arith)) (record {
                    table = pre'.table;
                    readable = pre'.readable;
                    writable = pre'.writable;
                    kept = pre'.kept;
                  }))
          ]
    ]

    at-Outcome :
        (path : List ℕ) (mode : ℕ) (w' : World S)
        → w'.fd_table ≡ w.fd_table
        → w'.files ≡ w.files
        → Outcome flags w (open_at vfs path flags mode fd p w')
    unfolding open_at initial_file
    at-Outcome path mode w' table files =
        let here : (p == p) ≡ true = ground arith in
        let w1 = set_file w' p (initial_file path flags (w'.files p)) in
        let pre : Prepared flags w w1 p = record {
          table = table;
          readable = rw here refl;
          writable = rw here refl;
          kept = λ q other. rw other (ap (λ f. f q) files);
        } in
        let (i, s) = vfs.vfs_open path w1.rest in
        let (pre', at) = inode-Prepared i s w1 pre in
        elim (Bool-cases (i == 0)) [
          | inl null ↦ rw null (new-Outcome path mode _ pre')
          | inr found ↦ rw found (existing-Outcome path i _ (rw at (ground arith)) pre')
        ]

-- `FD_Open` either returns an error and leaves the table as it was, or it puts a new file into the
-- lowest free descriptor from 3 on: with one reference, an inode that is not null, readable unless
-- it is opened for writing only, writable if it is opened for that, and with all other files as they
-- were.
pub fd_open-Outcome :
    {S : Type 0} (vfs : Vfs S) (path : List ℕ) (flags mode : ℕ) (w : World S)
    → Outcome flags w (fd_open vfs path flags mode w)
unfolding fd_open
fd_open-Outcome {S} vfs path flags mode w = go (find_free-Search w)
  where
    go :
        {o : Option ℕ}
        → Search w.fd_table 3 table_size o
        → Outcome flags w (elim o [
          | none ↦ (error 1, w)
          | some fd ↦
              let (p, s) = vfs.malloc w.rest in
              let w' : World S = record w { rest = s } in
              if p == 0 then (error 1, w') else open_at vfs path flags mode fd p w'
        ])
    go (full used) = failed refl
    go (free {i} lo hi empty lowest) =
        let (p, s) = vfs.malloc w.rest in
        elim (Bool-cases (p == 0)) [
          | inl null ↦ rw null (failed refl)
          | inr real ↦
              rw real
                (at-Outcome vfs flags w i p lo hi empty lowest (ground arith) path mode _ refl refl)
        ]

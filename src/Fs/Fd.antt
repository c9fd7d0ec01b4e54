-- ===== src/Fs/Fd.antt =====
-- kernel/fs/fd/fd.c: the table of open files of a process. The virtual file system, the terminal and
-- the allocator, which it calls, are the interface `Vfs`. Pointers to a process, a path or a buffer
-- are not null. A descriptor is given by its bits, so that a negative one is past the table.
pub mod Slots
pub mod Open
pub mod Close
pub mod Tests
use valecium.Prelude.{
  ℕ, zero, suc, ◌+◌, ◌-◌, ◌*◌, ◌/◌, ◌%◌, ◌^◌, ◌≤◌, ◌<◌, ◌≡◌, ◌≢◌, refl, sym, ap, ◌∙◌, Bool, true,
  false, not, ◌&&◌, ◌||◌, arith, ◌==◌, ==_iff, if◌then◌else◌, inl, inr, ◌⊎◌, Bool-cases,
  Option-cases, Option, none, some, ltb, leb, u32, update, List, [], ◌∷◌, ◌++◌, fun_ext, has_bit,
  length, length-append,
}
use Prim.Native.Nat.{bit_or}

-- `FileDescriptor`
pub record File : Type 0 where
  pub path : List ℕ
  pub offset : ℕ
  pub readable : Bool
  pub writable : Bool
  pub inode : ℕ
  pub flags : ℕ
  pub ref_count : ℕ

-- The functions that are called, on the state behind them. A Boolean says that the call's result is
-- not negative; 0 is the null pointer.
pub record Vfs (S : Type 0) : Type 0 where
  pub malloc : S → ℕ × S
  pub vfs_open : List ℕ → S → ℕ × S
  pub create : List ℕ → ℕ → S → ℕ × S
  pub close : ℕ → S → S
  pub access : List ℕ → ℕ → ℕ → ℕ → S → Bool × S
  pub chown : List ℕ → ℕ → ℕ → S → S
  pub chmod : List ℕ → ℕ → S → S
  pub seek : ℕ → ℕ → S → Bool × S
  pub read : ℕ → ℕ → S → List ℕ × S
  pub write : ℕ → List ℕ → S → ℕ × S
  pub tty_write : List ℕ → S → S

-- The memory with the `FileDescriptor`s, the table and the ids of the process, and the rest.
pub record World (S : Type 0) : Type 0 where
  pub files : ℕ → File
  pub fd_table : ℕ → ℕ
  pub euid : ℕ
  pub egid : ℕ
  pub rest : S

-- A result: a number, or an error with the sign turned.
pub data Result : Type 0 where
  ok : ℕ → Result
  error : ℕ → Result

abbrev pub table_size : ℕ
table_size = 16

abbrev pub set_file : {S : Type 0} → World S → ℕ → File → World S
set_file w p f = record w { files = update w.files p f }

unfoldable pub retain : {S : Type 0} → ℕ → World S → World S
retain p w =
    if p == 0
    then w
    else set_file w p (record (w.files p) { ref_count = u32 ((w.files p).ref_count + 1) })

unfoldable pub get : {S : Type 0} → World S → ℕ → ℕ
get w fd = if leb table_size fd then 0 else w.fd_table fd

unfoldable pub find_free_from : (ℕ → ℕ) → ℕ → ℕ → Option ℕ
find_free_from table zero i = none
find_free_from table (suc n) i =
    let rest = find_free_from table n (i + 1) in if table i == 0 then some i else rest

unfoldable pub find_free : {S : Type 0} → World S → Option ℕ
find_free w = find_free_from w.fd_table (table_size - 3) 3

-- `strncpy(file->path, path, 255)`, as the characters before the terminating 0.
unfoldable pub truncate : ℕ → List ℕ → List ℕ
truncate zero path = []
truncate (suc n) [] = []
truncate (suc n) (c ∷ cs) = c ∷ truncate n cs

-- The fields that are set before the file is opened.
unfoldable pub initial_file : List ℕ → ℕ → File → File
initial_file path flags f = record f {
  path = truncate 255 path;
  offset = if has_bit flags 0x400 then 0xffffffff else 0;
  flags = flags;
  readable = not (has_bit flags 1);
  writable = has_bit flags 3;
}

unfoldable pub access_mask : ℕ → ℕ
access_mask flags =
    let mask = if has_bit flags 1 then 2 else if has_bit flags 2 then 6 else 4 in
    if has_bit flags 0x200 then bit_or mask 2 else mask

unfoldable pub drop_reference : File → File
drop_reference f = if ltb 0 f.ref_count then record f { ref_count = f.ref_count - 1 } else f

module _ {S : Type 0} (vfs : Vfs S) where
  -- The end of `FD_Open`, once there is an inode.
  unfoldable pub store_file : ℕ → ℕ → World S → Result × World S
  store_file fd p w =
      let w' = set_file w p (record (w.files p) { ref_count = 1 }) in
      (ok fd, record w' { fd_table = update w'.fd_table fd p })

  abbrev pub set_inode : ℕ → ℕ → S → World S → World S
  set_inode p inode s w = record (set_file w p (record (w.files p) { inode = inode })) { rest = s }

  -- The branch for a file that exists.
  unfoldable pub open_existing : List ℕ → ℕ → ℕ → ℕ → ℕ → World S → Result × World S
  open_existing path flags inode fd p w =
      let (allowed, s) = vfs.access path w.euid w.egid (access_mask flags) w.rest in
      if not allowed
      then (error 13, record w { rest = vfs.close inode s })
      else store_file fd p (record w { rest = s })

  -- The branch for a file that does not exist.
  unfoldable pub open_new : List ℕ → ℕ → ℕ → ℕ → ℕ → World S → Result × World S
  open_new path flags mode fd p w =
      if has_bit flags 0x40
      then (let (inode, s) = vfs.create path mode w.rest in
          let w' = set_inode p inode s w in
          if inode == 0
          then (error 13, w')
          else store_file fd p
              (record w' { rest = vfs.chmod path mode (vfs.chown path w'.euid w'.egid w'.rest) }))
      else (error 2, w)

  -- `FD_Open` with a free descriptor and memory for the file.
  unfoldable pub open_at : List ℕ → ℕ → ℕ → ℕ → ℕ → World S → Result × World S
  open_at path flags mode fd p w =
      let w1 = set_file w p (initial_file path flags (w.files p)) in
      let (inode, s) = vfs.vfs_open path w1.rest in
      let w2 = set_inode p inode s w1 in
      if inode == 0
      then open_new path flags mode fd p w2
      else open_existing path flags inode fd p w2

  unfoldable pub fd_open : List ℕ → ℕ → ℕ → World S → Result × World S
  fd_open path flags mode w = elim (find_free w) [
    | none ↦ (error 1, w)
    | some fd ↦
        let (p, s) = vfs.malloc w.rest in
        let w' = record w { rest = s } in
        if p == 0 then (error 1, w') else open_at path flags mode fd p w'
  ]

  -- What `FD_Close` does once the slot is empty.
  unfoldable pub release : ℕ → World S → World S
  release p w =
      let f = drop_reference (w.files p) in
      let w' = set_file w p f in
      if f.ref_count == 0 && not (f.inode == 0)
      then record w' { rest = vfs.close f.inode w'.rest }
      else w'

  unfoldable pub close : ℕ → World S → Result × World S
  close fd w =
      let p = get w fd in
      if p == 0
      then (error 1, w)
      else (ok 0, release p (record w { fd_table = update w.fd_table fd 0 }))

  unfoldable pub close_slot : ℕ → World S → World S
  close_slot i w = if w.fd_table i == 0 then w else (close i w).1

  unfoldable pub close_from : ℕ → ℕ → World S → World S
  close_from zero i w = w
  close_from (suc n) i w = close_from n (i + 1) (close_slot i w)

  unfoldable pub close_all : World S → World S
  close_all w = close_from table_size 0 w

  -- `FD_Read`: the result and the bytes in the buffer.
  unfoldable pub read : ℕ → ℕ → World S → Result × List ℕ × World S
  read fd count w =
      let p = get w fd in
      if count == 0
      then (error 1, [], w)
      else if p == 0
      then (error 1, [], w)
      else if not (w.files p).readable
      then (error 1, [], w)
      else let f = w.files p in
        let (found, s) = vfs.seek f.inode f.offset w.rest in
        let (bytes, s') = vfs.read f.inode count s in
        if not found then (error 1, [], record w { rest = s }) else (
          ok (length bytes),
          bytes,
          record (set_file w p (record f { offset = u32 (f.offset + length bytes) })) { rest = s' },
        )

  unfoldable pub write : ℕ → List ℕ → World S → Result × World S
  write fd bytes w =
      let p = get w fd in
      if p == 0
      then (error 1, w)
      else if fd == 1 || fd == 2
      then (ok (length bytes), record w { rest = vfs.tty_write bytes w.rest })
      else if not (w.files p).writable
      then (error 1, w)
      else let f = w.files p in
        let (found, s) = vfs.seek f.inode f.offset w.rest in
        let (count, s') = vfs.write f.inode bytes s in
        if not found then (error 1, record w { rest = s }) else (
          ok count,
          record (set_file w p (record f { offset = u32 (f.offset + count) })) { rest = s' },
        )

  -- The new offset for `whence`, if there is one.
  unfoldable pub seek_to : ℕ → ℕ → ℕ → Option ℕ
  seek_to old offset whence =
      if whence == 0 then some offset else if whence == 1 then some (u32 (old + offset)) else none

  -- `FD_Lseek`; the offset is the bits of an `int32_t`, and so is the result.
  unfoldable pub lseek : ℕ → ℕ → ℕ → World S → Result × World S
  lseek fd offset whence w =
      let p = get w fd in
      if p == 0 then (error 1, w) else elim (seek_to (w.files p).offset offset whence) [
        | none ↦ (error 1, w)
        | some to ↦
            let w' = set_file w p (record (w.files p) { offset = to }) in
            let (found, s) = vfs.seek (w'.files p).inode to w'.rest in
            if not found then (error 1, record w' { rest = s }) else (ok to, record w' { rest = s })
      ]

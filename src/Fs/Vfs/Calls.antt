-- ===== src/Fs/Vfs/Calls.antt =====
-- kernel/fs/vfs/vfs.c: the calls on paths and open files, which go to the operations of the file
-- system that a path or a file belongs to. These are parameters; a missing one is a null pointer.
use valecium.Prelude.{
  ℕ, Bool, true, false, not, ◌||◌, ◌==◌, if◌then◌else◌, Option, none, some, List,
}
use valecium.Fs.Fd.{Result, ok, error}
use valecium.Fs.Vfs.{World, max_path, einval, eio, enotsup, resolve_path}
use valecium.Fs.Vfs.Mount.{Services, filesystem}

-- `VFS_Operations`. A partition, a file of the file system, a directory entry, a buffer and an open
-- file are given by their addresses.
pub record Operations (S : Type 0) : Type 0 where
  pub open_path : Option (ℕ → List ℕ → World S → ℕ × World S)
  pub create_path : Option (ℕ → List ℕ → ℕ → World S → ℕ × World S)
  pub readdir : Option (ℕ → ℕ → ℕ → World S → Result × World S)
  pub read : Option (ℕ → ℕ → ℕ → ℕ → World S → ℕ × World S)
  pub write : Option (ℕ → ℕ → ℕ → ℕ → World S → ℕ × World S)
  pub seek : Option (ℕ → ℕ → ℕ → World S → Result × World S)
  pub close : Option (ℕ → World S → World S)
  pub get_size : Option (ℕ → World S → ℕ × World S)
  pub delete : Option (ℕ → List ℕ → World S → Result × World S)
  pub access : Option (ℕ → List ℕ → ℕ → ℕ → ℕ → World S → Result × World S)
  pub chmod : Option (ℕ → List ℕ → ℕ → World S → Result × World S)
  pub chown : Option (ℕ → List ℕ → ℕ → ℕ → World S → Result × World S)

-- The call is made if there is a function.
abbrev pub call : {A B : Type 0} → Option A → B → (A → B) → B
call none missing use_it = missing
call (some f) missing use_it = use_it f

abbrev pub is_ok : Result → Bool
is_ok (ok n) = true
is_ok (error e) = false

module _ {S : Type 0} (services : Services S) (drivers : ℕ → Operations S) where
  -- The operations of a partition, if no pointer on the way is null.
  unfoldable pub get_operations : ℕ → World S → Option (Operations S)
  get_operations part w =
      if part == 0 || (w.partitions part).fs == 0 || (filesystem w part).ops == 0
      then none
      else some (drivers (filesystem w part).ops)

  -- The operation of a partition that `field` chooses.
  unfoldable pub get_operation : {A : Type 0} → (Operations S → Option A) → ℕ → World S → Option A
  get_operation field part w = call (get_operations part w) none field

  unfoldable pub free_path : {A : Type 0} → ℕ → A × World S → A × World S
  free_path buffer (result, w) = (result, record w { rest = services.free buffer w.rest })

  -- What the calls on paths share: a buffer is allocated, the path is resolved into it, `act` gets the
  -- partition and the path in it, and the buffer is freed. `no_memory` and `unresolved` are the
  -- results of the early returns.
  unfoldable pub on_path :
      {A : Type 0}
      → Option (List ℕ)
      → A
      → (Result → A)
      → (ℕ → List ℕ → World S → A × World S)
      → World S
      → A × World S
  on_path path no_memory unresolved act w =
      let (buffer, rest) = services.malloc max_path w.rest in
      let w' = record w { rest = rest } in
      let (result, (part, relative)) = resolve_path w.mounts path max_path in
      if buffer == 0
      then (no_memory, w')
      else if is_ok result
      then free_path buffer (act part relative w')
      else free_path buffer (unresolved result, w')

  unfoldable pub open_file : Option (List ℕ) → World S → ℕ × World S
  open_file path =
      on_path path 0 (λ r. 0)
        (λ part relative w.
          call (get_operation (λ o. o.open_path) part w) (0, w) (λ f. f part relative w))

  unfoldable pub create : Option (List ℕ) → ℕ → World S → ℕ × World S
  create path mode =
      on_path path 0 (λ r. 0)
        (λ part relative w.
          call (get_operation (λ o. o.create_path) part w) (0, w) (λ f. f part relative mode w))

  unfoldable pub delete : Option (List ℕ) → World S → Result × World S
  delete path =
      on_path path (error eio) (λ r. r)
        (λ part relative w.
          call (get_operation (λ o. o.delete) part w) (error enotsup, w) (λ f. f part relative w))

  unfoldable pub access : Option (List ℕ) → ℕ → ℕ → ℕ → World S → Result × World S
  access path uid gid mask =
      on_path path (error eio) (λ r. r)
        (λ part relative w.
          call (get_operations part w) (error einval, w)
            (λ o. call o.access (ok 0, w) (λ f. f part relative uid gid mask w)))

  unfoldable pub chmod : Option (List ℕ) → ℕ → World S → Result × World S
  chmod path mode =
      on_path path (error eio) (λ r. r)
        (λ part relative w.
          call (get_operation (λ o. o.chmod) part w) (error enotsup, w)
            (λ f. f part relative mode w))

  unfoldable pub chown : Option (List ℕ) → ℕ → ℕ → World S → Result × World S
  chown path uid gid =
      on_path path (error eio) (λ r. r)
        (λ part relative w.
          call (get_operation (λ o. o.chown) part w) (error enotsup, w)
            (λ f. f part relative uid gid w))

  -- The operation of an open file that `field` chooses.
  abbrev file_operation : {A : Type 0} → (Operations S → Option A) → ℕ → World S → Option A
  file_operation field file w = get_operation field (w.files file).partition w

  unfoldable pub readdir : ℕ → ℕ → World S → Result × World S
  readdir directory entry_out w =
      let d = w.files directory in
      if directory == 0 || entry_out == 0
      then (error einval, w)
      else if not d.is_directory
      then (error einval, w)
      else call (file_operation (λ o. o.readdir) directory w) (error einval, w)
          (λ f. f d.partition d.fs_file entry_out w)

  unfoldable pub read : ℕ → ℕ → ℕ → World S → ℕ × World S
  read file byte_count data_out w =
      if file == 0 || data_out == 0 || byte_count == 0
      then (0, w)
      else call (file_operation (λ o. o.read) file w) (0, w)
          (λ f. f (w.files file).partition (w.files file).fs_file byte_count data_out w)

  unfoldable pub write : ℕ → ℕ → ℕ → World S → ℕ × World S
  write file byte_count data_in w =
      if file == 0 || data_in == 0 || byte_count == 0
      then (0, w)
      else call (file_operation (λ o. o.write) file w) (0, w)
          (λ f. f (w.files file).partition (w.files file).fs_file byte_count data_in w)

  unfoldable pub seek : ℕ → ℕ → World S → Result × World S
  seek file position w =
      if file == 0
      then (error einval, w)
      else call (get_operations (w.files file).partition w) (error einval, w)
          (λ o.
            call o.seek (error enotsup, w)
              (λ f. f (w.files file).partition (w.files file).fs_file position w))

  unfoldable pub close : ℕ → World S → World S
  close file w =
      let f = w.files file in
      let w' =
        call (file_operation (λ o. o.close) file w) w
          (λ run. if f.fs_file == 0 then w else run f.fs_file w) in
      if file == 0 then w else record w' { rest = services.free file w'.rest }

  unfoldable pub get_size : ℕ → World S → ℕ × World S
  get_size file w =
      if file == 0
      then (0, w)
      else call (file_operation (λ o. o.get_size) file w) ((w.files file).size, w)
          (λ f. f (w.files file).fs_file w)

  unfoldable pub open_dir : Option (List ℕ) → World S → ℕ × World S
  open_dir path w =
      let (dir, w') = open_file path w in
      if dir == 0
      then (0, w')
      else if not (w'.files dir).is_directory
      then (0, close dir w')
      else (dir, w')

-- ===== src/Fs/Devfs/Files.antt =====
-- kernel/fs/devfs/devfs.c: the operations on open device files, and their wrappers for the virtual
-- file system. Files are in memory at addresses; 0 is the null pointer. The allocator and the
-- drivers' operations are parameters.
use valecium.Prelude.{
  ℕ, ◌+◌, Bool, true, false, ◌||◌, ◌==◌, if◌then◌else◌, Option, none, some, u32, update, List,
}
use valecium.Fs.Fd.{Result, ok, error}
use valecium.Fs.Vfs.{File, einval, enotsup}
use valecium.Fs.Devfs.{DeviceType, Nodes, find_device}

-- `DEVFS_File`
pub record DeviceFile : Type 0 where
  pub node : Option ℕ
  pub position : ℕ
  pub flags : ℕ

-- The table, the files of the two kinds, and what else there is.
pub record World (S : Type 0) : Type 0 where
  pub table : Nodes
  pub opened : ℕ → DeviceFile
  pub files : ℕ → File
  pub rest : S

-- `DEVFS_DeviceOps`, on the node, the position, the number of bytes and the buffer's address.
pub record DeviceOps (S : Type 0) : Type 0 where
  pub read : Option (ℕ → ℕ → ℕ → ℕ → World S → ℕ × World S)
  pub write : Option (ℕ → ℕ → ℕ → ℕ → World S → ℕ × World S)
  pub close : Option (ℕ → World S → World S)

-- The allocator, and the operations at an address other than 0.
pub record Kernel (S : Type 0) : Type 0 where
  pub malloc : World S → ℕ × World S
  pub free : ℕ → World S → World S
  pub operations : ℕ → DeviceOps S

abbrev pub call : {A B : Type 0} → Option A → B → (A → B) → B
call none missing use_it = missing
call (some f) missing use_it = use_it f

module _ {S : Type 0} (kernel : Kernel S) where
  -- The operation of a file's node that `field` chooses, with the node.
  unfoldable pub operation : {A : Type 0} → (DeviceOps S → Option A) → ℕ → World S → Option (ℕ × A)
  operation field file w = call (w.opened file).node none (λ i.
      if (w.table.nodes i).ops == 0
      then none
      else call (field (kernel.operations (w.table.nodes i).ops)) none (λ f. some (i, f)))

  unfoldable pub open_file : Option (List ℕ) → World S → ℕ × World S
  open_file path w = elim (find_device path w.table) [
    | none ↦ (0, w)
    | some i ↦
        let (file, w') = kernel.malloc w in
        if file == 0 then (0, w') else (
          file,
          record w' {
            opened = update w'.opened file (record { node = some i; position = 0; flags = 0 });
          },
        )
  ]

  unfoldable pub close : ℕ → World S → World S
  close file w =
      if file == 0
      then w
      else kernel.free file (call (operation (λ o. o.close) file w) w (λ (i, f). f i w))

  -- The file's position is moved by what was read or written.
  unfoldable pub advance : ℕ → ℕ × World S → ℕ × World S
  advance file (n, w) =
      let f = w.opened file in
      (n, record w { opened = update w.opened file (record f { position = u32 (f.position + n) }) })

  unfoldable pub read : ℕ → ℕ → ℕ → World S → ℕ × World S
  read file byte_count data_out w =
      if file == 0 || data_out == 0 || byte_count == 0
      then (0, w)
      else call (operation (λ o. o.read) file w) (0, w)
          (λ (i, f). advance file (f i (w.opened file).position byte_count data_out w))

  unfoldable pub write : ℕ → ℕ → ℕ → World S → ℕ × World S
  write file byte_count data_in w =
      if file == 0 || data_in == 0 || byte_count == 0
      then (0, w)
      else call (operation (λ o. o.write) file w) (0, w)
          (λ (i, f). advance file (f i (w.opened file).position byte_count data_in w))

  unfoldable pub seek : ℕ → ℕ → World S → Result × World S
  seek file position w = if file == 0 then (error einval, w) else (
    ok 0,
    record w { opened = update w.opened file (record (w.opened file) { position = position }) },
  )

  unfoldable pub get_size : ℕ → World S → ℕ
  get_size file w =
      if file == 0 then 0 else call (w.opened file).node 0 (λ i. (w.table.nodes i).size)

  abbrev is_dir : DeviceType → Bool
  is_dir DeviceType.dir = true
  is_dir _ = false

  -- The fields of the new `VFS_File`; the node is the one that the file was opened with.
  abbrev node_file : ℕ → ℕ → World S → File
  node_file partition file w =
      call (w.opened file).node
        (record { partition = partition; fs_file = file; is_directory = false; size = 0 })
        (λ i. record {
          partition = partition;
          fs_file = file;
          is_directory = is_dir (w.table.nodes i).kind;
          size = (w.table.nodes i).size;
        })

  unfoldable pub vfs_open : ℕ → Option (List ℕ) → World S → ℕ × World S
  vfs_open partition path w =
      let (file, w1) = open_file path w in
      let (vfs_file, w2) = kernel.malloc w1 in
      if file == 0
      then (0, w1)
      else if vfs_file == 0
      then (0, close file w2)
      else (vfs_file, record w2 { files = update w2.files vfs_file (node_file partition file w2) })

  unfoldable pub vfs_delete : ℕ → List ℕ → World S → Result × World S
  vfs_delete partition path w = (error enotsup, w)

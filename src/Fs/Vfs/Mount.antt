-- ===== src/Fs/Vfs/Mount.antt =====
-- kernel/fs/vfs/vfs.c: `FS_Mount` and `FS_Umount`. A Boolean result says that it is 0, not -1. The
-- allocator and the addresses of the file systems' operations are the interface `Services`.
use valecium.Prelude.{
  ℕ, zero, suc, ◌+◌, ◌-◌, Bool, true, false, not, ◌&&◌, ◌||◌, ◌==◌, if◌then◌else◌, Option, none,
  some, leb, update, List, take,
}
use valecium.Fs.Fd.{Result, ok, error}
use valecium.Fs.Vfs.{
  FilesystemType, Filesystem, MountEntry, Mounts, World, max_mounts, max_path, strncmp_equal,
  normalize_mount,
}

pub record Services (S : Type 0) : Type 0 where
  pub malloc : ℕ → S → ℕ × S
  pub free : ℕ → S → S
  pub fat_operations : ℕ
  pub devfs_operations : ℕ

-- The loop that looks for a mount on the same path.
unfoldable pub is_used : ℕ → (ℕ → MountEntry) → List ℕ → Bool
is_used zero entries name = false
is_used (suc n) entries name =
    strncmp_equal max_path (entries n).mount_point name || is_used n entries name

unfoldable pub add_mount : Mounts → List ℕ → ℕ → Mounts
add_mount t name volume = record {
  entries =
      update t.entries t.count
        (record { mount_point = take (max_path - 1) name; partition = volume });
  count = t.count + 1;
}

abbrev pub is_devfs : FilesystemType → Bool
is_devfs FilesystemType.devfs = true
is_devfs _ = false

-- The loop of `FS_Umount`, with `n` entries left from the `i`th on.
unfoldable pub find_volume : ℕ → ℕ → (ℕ → MountEntry) → ℕ → Option ℕ
find_volume zero i entries volume = none
find_volume (suc n) i entries volume =
    let rest = find_volume n (i + 1) entries volume in
    if (entries i).partition == volume then some i else rest

-- The last entry takes the place of the one that goes.
unfoldable pub remove_mount : Mounts → ℕ → Mounts
remove_mount t i = record {
  entries = update t.entries i (t.entries (t.count - 1));
  count = t.count - 1;
}

module _ {S : Type 0} where
  abbrev pub filesystem : World S → ℕ → Filesystem
  filesystem w volume = w.filesystems (w.partitions volume).fs

  abbrev pub set_filesystem : World S → ℕ → Filesystem → World S
  set_filesystem w volume f = record w {
    filesystems = update w.filesystems (w.partitions volume).fs f;
  }

  unfoldable pub umount : ℕ → World S → Bool × World S
  umount volume w =
      if volume == 0 || (w.partitions volume).fs == 0
      then (false, w)
      else elim (find_volume w.mounts.count 0 w.mounts.entries volume) [
        | none ↦ (false, w)
        | some i ↦
            let w' = record w { mounts = remove_mount w.mounts i } in
            (true, set_filesystem w' volume (record (filesystem w' volume) { mounted = false }))
      ]

module _ {S : Type 0} (services : Services S) where
  unfoldable pub get_fs_operations : FilesystemType → ℕ
  get_fs_operations FilesystemType.fat12 = services.fat_operations
  get_fs_operations FilesystemType.fat16 = services.fat_operations
  get_fs_operations FilesystemType.fat32 = services.fat_operations
  get_fs_operations FilesystemType.devfs = services.devfs_operations
  get_fs_operations _ = 0

  -- The end of `FS_Mount`.
  unfoldable pub store_mount : ℕ → List ℕ → World S → Bool × World S
  store_mount volume name w =
      let w' = record w { mounts = add_mount w.mounts name volume } in
      (true, set_filesystem w' volume (record (filesystem w' volume) { mounted = true }))

  -- From the choice of the operations on; `buffer` holds the normalized name.
  unfoldable pub set_operations : ℕ → ℕ → List ℕ → World S → Bool × World S
  set_operations volume buffer name w =
      let fs = filesystem w volume in
      let found = get_fs_operations fs.kind in
      if fs.ops == 0
      then (let w' = set_filesystem w volume (record fs { ops = found }) in
          if found == 0
          then (false, record w' { rest = services.free buffer w'.rest })
          else store_mount volume name w')
      else store_mount volume name w

  -- From the normalization on.
  unfoldable pub mount_normalized : ℕ → ℕ → Result × List ℕ → World S → Bool × World S
  mount_normalized volume buffer (error e, name) w = (false, w)
  mount_normalized volume buffer (ok c, name) w =
      if is_used w.mounts.count w.mounts.entries name
      then (false, w)
      else set_operations volume buffer name w

  unfoldable pub mount : ℕ → Option (List ℕ) → World S → Bool × World S
  mount volume location w =
      let p = w.partitions volume in
      let (buffer, rest) = services.malloc max_path w.rest in
      let w' = record w { rest = rest } in
      if volume == 0
      then (false, w)
      else if p.disk == 0 && (p.fs == 0 || not (is_devfs (filesystem w volume).kind))
      then (false, w)
      else if p.fs == 0
      then (false, w)
      else if leb max_mounts w.mounts.count
      then (false, w)
      else if buffer == 0
      then (false, w')
      else mount_normalized volume buffer (normalize_mount location max_path) w'

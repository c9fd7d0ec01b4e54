-- ===== src/Fs/Vfs/Tests.antt =====
-- Runs of `Fs.Vfs`, and the theorems about it at concrete inputs.
use valecium.Prelude.{
  ℕ, zero, suc, ◌+◌, ◌-◌, ◌≤◌, ◌<◌, ◌≡◌, refl, false, arith, ◌==◌, if◌then◌else◌, inl, inr, none,
  some, List, [], ◌∷◌, ◌++◌, length,
}
use valecium.Fs.Fd.{Result, ok, error}
use valecium.Fs.Vfs.{
  FilesystemType, World, max_path, slash, strncmp_equal, strip, normalize_mount, covers, match_from,
  match_mount, relative_path, resolve_in, resolve_path,
}
use valecium.Fs.Vfs.Mount.{
  Services, is_used, add_mount, find_volume, remove_mount, umount, mount, mount_normalized,
  set_operations, store_mount, get_fs_operations,
}
use valecium.Fs.Vfs.Calls.{
  Operations, get_operations, get_operation, free_path, on_path, open_file, close, open_dir,
}
use valecium.Fs.Vfs.Names.{Under}
use valecium.Fs.Vfs.Longest.{IsLongest, match_mount-IsLongest}
use valecium.Fs.Vfs.Table.{IsValid}
use valecium.Fs.Vfs.Mounted.{
  Event, mounting, run, mounts-IsValid, absolute, resolve-absolute, mount-resolve,
}

-- The rest of the state is the number of buffers.
abbrev services : Services ℕ
services = record {
  malloc = λ size n. (500, n + 1);
  free = λ p n. n - 1;
  fat_operations = 600;
  devfs_operations = 700;
}

-- Partition 1 has a FAT16 on a disk, partition 2 the devices, partition 3 an unsupported system.
abbrev machine : World ℕ
machine = record {
  mounts = record { entries = λ i. record { mount_point = []; partition = 0 }; count = 0 };
  partitions = λ p. record { disk = if p == 2 then 0 else 9; fs = if p == 0 then 0 else p + 10 };
  filesystems = λ f. record {
    kind =
        if f == 12
        then FilesystemType.devfs
        else if f == 13
        then FilesystemType.ext2
        else FilesystemType.fat16;
    ops = 0;
    mounted = false;
  };
  files = λ f. record { partition = 1; fs_file = 0; is_directory = f == 77; size = 0 };
  rest = 0;
}

abbrev dev : List ℕ
dev = slash ∷ b'd' ∷ b'e' ∷ b'v' ∷ []

abbrev events : List Event
events =
    mounting 1 (some (slash ∷ []))
    ∷ mounting 2 (some (dev ++ slash ∷ []))
    ∷ mounting 3 (some dev)
    ∷ []

abbrev mounted : World ℕ
mounted = run services events machine

abbrev resolve : List ℕ → Result × (ℕ × List ℕ)
resolve path = resolve_path mounted.mounts (some path) max_path

resolved :
    (resolve [] ≡ (ok 0, (1, slash ∷ [])))
    × (resolve (dev ++ slash ∷ b't' ∷ []) ≡ (ok 0, (2, slash ∷ b't' ∷ [])))
    × (resolve (dev ++ b't' ∷ []) ≡ (ok 0, (1, dev ++ b't' ∷ [])))
    × (resolve (b'd' ∷ []) ≡ (error 2, (0, [])))
unfolding run mount mount_normalized set_operations store_mount get_fs_operations add_mount is_used
    normalize_mount strip strncmp_equal covers match_from match_mount relative_path resolve_in
    resolve_path
resolved = (refl, refl, refl, refl)

-- Without the devices their paths are on the first partition; the unsupported system is refused.
unmounted :
    (resolve_path (umount 2 mounted).1.mounts (some dev) max_path ≡ (ok 0, (1, dev)))
    × (mounted.mounts.count ≡ 2)
unfolding run mount mount_normalized set_operations store_mount get_fs_operations add_mount is_used
    normalize_mount strip strncmp_equal covers match_from match_mount relative_path resolve_in
    resolve_path umount find_volume remove_mount
unmounted = (refl, refl)

abbrev nothing : Operations ℕ
nothing = record {
  open_path = none;
  create_path = none;
  readdir = none;
  read = none;
  write = none;
  seek = none;
  close = none;
  get_size = none;
  delete = none;
  access = none;
  chmod = none;
  chown = none;
}

-- A driver that opens object 77 for the root and 78 for all else.
abbrev drivers : ℕ → Operations ℕ
drivers p = record nothing {
  open_path =
      some (λ part path w. (if length path == 1 then 77 else 78, record w { rest = w.rest + 1 }));
}

opened :
    ((open_dir services drivers (some (slash ∷ [])) mounted).0 ≡ 77)
    × ((open_dir services drivers (some (slash ∷ b'x' ∷ [])) mounted).0 ≡ 0)
    × ((open_file services drivers (some (slash ∷ b'x' ∷ [])) mounted).0 ≡ 78)
unfolding run mount mount_normalized set_operations store_mount get_fs_operations add_mount is_used
    normalize_mount strip strncmp_equal covers match_from match_mount relative_path resolve_in
    resolve_path get_operations get_operation free_path on_path open_file close open_dir
opened = (refl, refl, refl)

machine-IsValid : IsValid machine.mounts
machine-IsValid = record {
  few = omega arith;
  names = λ i lt. absurd (omega arith);
  unique = λ i j lti ltj same. absurd (omega arith);
}

match_mount-IsLongest_example : IsLongest mounted.mounts dev (match_mount mounted.mounts dev)
match_mount-IsLongest_example = match_mount-IsLongest mounted.mounts dev

mounts-IsValid_example : IsValid (run services events machine).mounts
mounts-IsValid_example = mounts-IsValid services events machine machine-IsValid

mount-resolve_example :
    resolve_path (mount services 2 (some (dev ++ slash ∷ [])) machine).1.mounts (some dev) max_path
    ≡ (ok 0, (2, slash ∷ []))
unfolding mount mount_normalized set_operations store_mount get_fs_operations add_mount is_used
    normalize_mount strip strncmp_equal
mount-resolve_example =
    mount-resolve services 2 dev 1 machine
      (record { is_name = record { short = omega arith; rooted = refl }; ending = inr refl })
      machine-IsValid refl

-- The path of a terminal, under the mount point of the devices.
abbrev tty : List ℕ
tty = dev ++ slash ∷ b't' ∷ []

resolve-absolute_example :
    resolve_path mounted.mounts (some tty) max_path ≡ (ok 0, (2, slash ∷ b't' ∷ []))
unfolding run mount mount_normalized set_operations store_mount get_fs_operations add_mount is_used
    normalize_mount strip strncmp_equal absolute
resolve-absolute_example =
    resolve-absolute mounted.mounts tty 1 (mounts-IsValid services events machine machine-IsValid)
      (omega arith) (record { tail = slash ∷ b't' ∷ []; split = refl; boundary = inr (inl refl) })
      longest (omega arith)
  where
    longest :
        (j : ℕ)
        → j < 2
        → Under tty (mounted.mounts.entries j).mount_point
        → length (mounted.mounts.entries j).mount_point ≤ 4
    longest zero lt u = omega arith
    longest (suc zero) lt u = omega arith
    longest (suc (suc j)) lt u = absurd (omega arith)

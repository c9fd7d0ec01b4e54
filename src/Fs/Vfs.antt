-- ===== src/Fs/Vfs.antt =====
-- kernel/fs/vfs/vfs.c: the table of mounts and how a path is resolved in it; `Vfs/Mount` has the
-- changes of the table and `Vfs/Calls` the calls on files. A C string is the list of its characters
-- before the terminating 0; a missing one is the null pointer. Objects are in memory at addresses;
-- 0 is the null pointer. The messages for the log are left out.
pub mod Mount
pub mod Calls
pub mod Names
pub mod Longest
pub mod Table
pub mod Outcome
pub mod Mounted
pub mod Tests
use valecium.Prelude.{
  ℕ, zero, suc, ◌+◌, ◌-◌, ◌*◌, ◌/◌, ◌%◌, ◌^◌, ◌≤◌, ◌<◌, ◌≡◌, ◌≢◌, refl, sym, ap, ◌∙◌, Bool, true,
  false, not, ◌&&◌, ◌||◌, arith, ◌==◌, ==_iff, if◌then◌else◌, inl, inr, ◌⊎◌, Bool-cases,
  Option-cases, Option, none, some, ltb, leb, u8, u32, update, List, [], ◌∷◌, ◌++◌, fun_ext,
  has_bit, length, length-append, get_or, take, drop, replicate, map, bit_and, bit_or, passes,
  passes→true, length-map, length-replicate,
}
use valecium.Fs.Fd.{Result, ok, error}

pub data FilesystemType : Type 0 where
  fat12 fat16 fat32 ext2 devfs : FilesystemType

-- `Filesystem`: its type, the address of its operations and whether it is mounted.
pub record Filesystem : Type 0 where
  pub kind : FilesystemType
  pub ops : ℕ
  pub mounted : Bool

-- `Partition`: its disk and its file system.
pub record Partition : Type 0 where
  pub disk : ℕ
  pub fs : ℕ

-- `VFS_File`
pub record File : Type 0 where
  pub partition : ℕ
  pub fs_file : ℕ
  pub is_directory : Bool
  pub size : ℕ

-- `VFS_MountEntry`
pub record MountEntry : Type 0 where
  pub mount_point : List ℕ
  pub partition : ℕ

-- `s_Mounts` and `s_MountCount`, which is at most 8.
pub record Mounts : Type 0 where
  pub entries : ℕ → MountEntry
  pub count : ℕ

-- The mounts, the memory, and what the file systems keep.
pub record World (S : Type 0) : Type 0 where
  pub mounts : Mounts
  pub partitions : ℕ → Partition
  pub filesystems : ℕ → Filesystem
  pub files : ℕ → File
  pub rest : S

abbrev pub max_mounts : ℕ
max_mounts = 8

abbrev pub max_path : ℕ
max_path = 256

abbrev pub slash : ℕ
slash = 47

abbrev pub einval : ℕ
einval = 22

abbrev pub enoent : ℕ
enoent = 2

abbrev pub eio : ℕ
eio = 5

abbrev pub enotsup : ℕ
enotsup = 5

unfoldable pub init : {S : Type 0} → World S → World S
init w = record w {
  mounts = record { entries = λ i. record { mount_point = []; partition = 0 }; count = 0 };
}

-- Whether `strncmp(a, b, n)` is 0.
unfoldable pub strncmp_equal : ℕ → List ℕ → List ℕ → Bool
strncmp_equal zero a b = true
strncmp_equal (suc n) [] [] = true
strncmp_equal (suc n) [] (y ∷ b) = false
strncmp_equal (suc n) (x ∷ a) [] = false
strncmp_equal (suc n) (x ∷ a) (y ∷ b) = x == y && strncmp_equal n a b

-- The length without the slashes at the end, but the first character.
unfoldable pub strip : ℕ → List ℕ → ℕ
strip zero location = 0
strip (suc n) location =
    let rest = strip n location in if ltb 0 n && get_or location n 0 == slash then rest else suc n

unfoldable pub normalize_mount : Option (List ℕ) → ℕ → Result × List ℕ
normalize_mount none size = (error einval, [])
normalize_mount (some location) size =
    let len = strip (length location) location in
    if size == 0
    then (error einval, [])
    else if length location == 0
    then (error einval, [])
    else if not (get_or location 0 0 == slash)
    then (error einval, [])
    else (ok 0, take (if leb size len then size - 1 else len) location)

-- The tests in the loop of `vfs_match_mount`.
unfoldable pub covers : List ℕ → List ℕ → Bool
covers path mount =
    let len = length mount in
    let next = get_or path len 0 in
    strncmp_equal len path mount
    && (next == 0 || next == slash || get_or mount (len - 1) 0 == slash)

-- The loop, with `n` entries left from the `i`th on.
unfoldable pub match_from : ℕ → ℕ → (ℕ → MountEntry) → List ℕ → Option ℕ × ℕ → Option ℕ × ℕ
match_from zero i entries path best = best
match_from (suc n) i entries path best =
    let mount = (entries i).mount_point in
    match_from n (i + 1) entries path
      (if covers path mount && ltb best.1 (length mount) then (some i, length mount) else best)

-- The entry and the length of its name.
unfoldable pub match_mount : Mounts → List ℕ → Option ℕ × ℕ
match_mount t path = match_from t.count 0 t.entries path (none, 0)

-- What is written to `relative_out` for the rest of the path; `none`: it has no room.
unfoldable pub relative_path : List ℕ → ℕ → Option (List ℕ)
relative_path tail size =
    if length tail == 0
    then some (slash ∷ [])
    else if not (get_or tail 0 0 == slash)
    then (if leb size (length tail + 1) then none else some (slash ∷ take (size - 1) tail))
    else some (take (size - 1) tail)

-- The end of `vfs_resolve_path`, with the mount.
unfoldable pub resolve_in : Mounts → List ℕ → ℕ → Option ℕ × ℕ → Result × (ℕ × List ℕ)
resolve_in t path size (none, len) = (error enoent, (0, []))
resolve_in t path size (some i, len) = elim (relative_path (drop len path) size) [
  | none ↦ (error einval, (0, []))
  | some relative ↦ (ok 0, ((t.entries i).partition, relative))
]

-- The partition and the path in it; the pointers for the results are not null.
unfoldable pub resolve_path : Mounts → Option (List ℕ) → ℕ → Result × (ℕ × List ℕ)
resolve_path t none size = (error einval, (0, []))
resolve_path t (some given) size =
    let path = if length given == 0 then slash ∷ [] else given in
    if size == 0 then (error einval, (0, [])) else resolve_in t path size (match_mount t path)

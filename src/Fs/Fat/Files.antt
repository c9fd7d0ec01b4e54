-- ===== src/Fs/Fat/Files.antt =====
-- kernel/fs/fat/fat.c: the open files of a volume, FAT_OpenEntry, FAT_Close and FAT_InvalidateCache.
-- The handle -1 of the root directory is `root`. A file that is passed is one that was opened, so
-- that it points into the volume; the pointers are not null.
use valecium.Prelude.{
  ℕ, zero, suc, ◌+◌, ◌*◌, ◌/◌, ◌^◌, Bool, true, false, not, ◌&&◌, ◌||◌, ◌==◌, if◌then◌else◌, Option,
  none, some, ltb, leb, u32, update, List, has_bit, take,
}
use valecium.Fs.Fat.{Sectors, Instance, no_position, cluster_to_lba}
use valecium.Prelude.{sub32}

-- `FAT_FileData`, with the fields of `FAT_File` in it.
pub record FileData : Type 0 where
  pub buffer : ℕ → ℕ
  pub is_directory : Bool
  pub position : ℕ
  pub size : ℕ
  pub name : List ℕ
  pub opened : Bool
  pub truncated : Bool
  pub first_cluster : ℕ
  pub current_cluster : ℕ
  pub current_sector_in_cluster : ℕ
  pub parent_cluster : ℕ
  pub parent_is_root : Bool

-- The rest of `FAT_Instance`.
pub record Volume : Type 0 where
  pub inst : Instance
  pub root_directory : FileData
  pub opened_files : ℕ → FileData
  pub bytes_per_sector : ℕ
  pub root_dir_lba : ℕ
  pub root_dir_sectors : ℕ

abbrev pub max_file_handles : ℕ
max_file_handles = 10

pub data Handle : Type 0 where
  root : Handle
  handle : ℕ → Handle

-- The results: SUCCESS, FAT_EDISK, FAT_ESTATE, -EINVAL, -EIO, -ENOENT
pub data Code : Type 0 where
  success edisk estate einval eio enoent : Code

abbrev pub is_root : Handle → Bool
is_root root = true
is_root (handle h) = false

-- The check of a handle.
abbrev pub is_valid : Handle → Bool
is_valid root = true
is_valid (handle h) = ltb h max_file_handles

abbrev pub file_of : Volume → Handle → FileData
file_of vol root = vol.root_directory
file_of vol (handle h) = vol.opened_files h

abbrev pub set_file : Volume → Handle → FileData → Volume
set_file vol root fd = record vol { root_directory = fd }
set_file vol (handle h) fd = record vol { opened_files = update vol.opened_files h fd }

-- `FAT_DirectoryEntry`, the fields that are read.
pub record DirectoryEntry : Type 0 where
  pub name : List ℕ
  pub attributes : ℕ
  pub first_cluster_high : ℕ
  pub first_cluster_low : ℕ
  pub size : ℕ

-- The first of `n` handles from `i` on that is not open.
unfoldable pub find_handle : ℕ → ℕ → (ℕ → FileData) → Option ℕ
find_handle zero i files = none
find_handle (suc n) i files =
    let rest = find_handle n (i + 1) files in if not (files i).opened then some i else rest

unfoldable pub max_clusters : Instance → ℕ
max_clusters inst = sub32 inst.total_sectors inst.data_section_lba / inst.sectors_per_cluster

-- The fields that are set from the entry and the parent.
unfoldable pub file_from_entry : Volume → DirectoryEntry → Option Handle → FileData → FileData
file_from_entry vol entry parent fd =
    let first = u32 (entry.first_cluster_low + u32 (entry.first_cluster_high * 2 ^ 16)) in
    record fd {
      is_directory = has_bit entry.attributes 0x10;
      position = 0;
      size = entry.size;
      truncated = false;
      name = take 11 entry.name;
      first_cluster = first;
    }

unfoldable pub set_parent : Volume → Option Handle → FileData → FileData
set_parent vol none fd = record fd {
  parent_cluster = vol.root_directory.first_cluster;
  parent_is_root = true;
}
set_parent vol (some h) fd = record fd {
  parent_cluster = (file_of vol h).first_cluster;
  parent_is_root = is_root h;
}

module _ {S : Type 0} (sectors : Sectors S) where
  -- A file behind the check of its first cluster: whether it is opened.
  unfoldable pub open_first : Instance → FileData → S → Bool × FileData
  open_first inst fd s =
      let fd1 = record fd { current_cluster = fd.first_cluster; current_sector_in_cluster = 0 } in
      if fd.first_cluster == 0
      then (true, record fd1 { opened = true })
      else if ltb fd.first_cluster 2
      then (false, fd1)
      else elim (sectors.read (cluster_to_lba inst fd.first_cluster) 1 s) [
        | none ↦ (false, fd1)
        | some b ↦ (true, record fd1 { buffer = b; opened = true })
      ]

  unfoldable pub open_handle :
      Volume → DirectoryEntry → Option Handle → ℕ → S → Option Handle × Volume
  open_handle vol entry parent h s =
      let fd = file_from_entry vol entry parent (vol.opened_files h) in
      let inst = vol.inst in
      if not (fd.first_cluster == 0)
        && ltb 0 fd.size
        && (ltb fd.first_cluster 2 || leb (u32 (max_clusters inst + 2)) fd.first_cluster)
      then (none, set_file vol (handle h) fd)
      else (let (fine, fd') = open_first inst (set_parent vol parent fd) s in
          (if fine then some (handle h) else none, set_file vol (handle h) fd'))

  unfoldable pub open_entry : Volume → DirectoryEntry → Option Handle → S → Option Handle × Volume
  open_entry vol entry parent s = elim (find_handle max_file_handles 0 vol.opened_files) [
    | none ↦ (none, vol)
    | some h ↦ open_handle vol entry parent h s
  ]

unfoldable pub close : Volume → Handle → Volume
close vol root =
    let fd = vol.root_directory in
    record vol { root_directory = record fd { position = 0; current_cluster = fd.first_cluster } }
close vol (handle h) =
    if ltb h max_file_handles
    then set_file vol (handle h) (record (vol.opened_files h) { opened = false })
    else vol

-- The loop over the handles, with `n` left from the one at `i` on.
unfoldable pub close_all : ℕ → ℕ → (ℕ → FileData) → ℕ → FileData
close_all zero i files = files
close_all (suc n) i files =
    close_all n (i + 1)
      (if (files i).opened then update files i (record (files i) { opened = false }) else files)

unfoldable pub invalidate_cache : Volume → Volume
invalidate_cache vol = record vol {
  inst = record (vol.inst) { fat_cache_pos = no_position };
  opened_files = close_all max_file_handles 0 vol.opened_files;
}

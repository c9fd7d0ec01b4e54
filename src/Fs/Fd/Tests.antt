-- ===== src/Fs/Fd/Tests.antt =====
-- kernel/fs/fd/fd.c: runs on a small file system, and the theorems at it.
use valecium.Prelude.{
  ℕ, ◌+◌, ◌-◌, ◌≡◌, refl, Bool, false, arith, ◌==◌, if◌then◌else◌, ltb, leb, List, [], ◌∷◌, length,
}
use valecium.Fs.Fd.{
  File, Vfs, World, Result, ok, error, retain, get, find_free, find_free_from, initial_file,
  access_mask, open_existing, open_new, open_at, store_file, fd_open, drop_reference, release,
  close, close_all, read, write, lseek, seek_to, table_size,
}
use valecium.Fs.Fd.Open.{Outcome, fd_open-Outcome}
use valecium.Fs.Fd.Close.{holders, close_all_lem}

-- Files exist whose path begins with 47; the state counts the inodes that were closed, and the
-- files that were allocated are at 1000 and above.
record Disk : Type 0 where
  next : ℕ
  closed : ℕ

abbrev exists : List ℕ → Bool
exists [] = false
exists (c ∷ cs) = c == 47

abbrev vfs : Vfs Disk
vfs = record {
  malloc = λ s. (s.next, record s { next = s.next + 1 });
  vfs_open = λ path s. (if exists path then 7 else 0, s);
  create = λ path mode s. (8, s);
  close = λ i s. record s { closed = s.closed + 1 };
  access = λ path uid gid mask s. (uid == 0, s);
  chown = λ path uid gid s. s;
  chmod = λ path mode s. s;
  seek = λ i offset s. (ltb offset 100, s);
  read = λ i count s. (if leb 2 count then 65 ∷ 66 ∷ [] else [], s);
  write = λ i bytes s. (length bytes, s);
  tty_write = λ bytes s. s;
}

abbrev no_file : File
no_file = record {
  path = [];
  offset = 0;
  readable = false;
  writable = false;
  inode = 0;
  flags = 0;
  ref_count = 0;
}

abbrev empty : World Disk
empty = record {
  files = λ p. no_file;
  fd_table = λ fd. 0;
  euid = 0;
  egid = 0;
  rest = record { next = 1000; closed = 0 };
}

abbrev opened_one : Result × World Disk
opened_one = fd_open vfs (47 ∷ []) 2 0 empty

open_twice :
    (opened_one.0 ≡ ok 3)
    × ((fd_open vfs (47 ∷ []) 2 0 opened_one.1).0 ≡ ok 4)
    × ((fd_open vfs [] 2 0 opened_one.1).0 ≡ error 2)
    × ((fd_open vfs [] 0x42 0 opened_one.1).0 ≡ ok 4)
    × ((fd_open vfs (47 ∷ []) 2 0 (record empty { euid = 5 })).0 ≡ error 13)
unfolding fd_open find_free find_free_from open_at open_existing open_new store_file initial_file
    access_mask
open_twice = (refl, refl, refl, refl, refl)

-- A file that is shared is closed with its last descriptor.
shared :
    ((close vfs 3 (retain 1000 opened_one.1)).1.rest.closed ≡ 0)
    × ((close vfs 3 opened_one.1).1.rest.closed ≡ 1)
unfolding fd_open find_free find_free_from open_at open_existing open_new store_file initial_file
    access_mask close retain get release drop_reference
shared = (refl, refl)

-- Reading and seeking move the offset; a file opened for appending starts past the disk.
offsets :
    (((read vfs 3 9 opened_one.1).2.files 1000).offset ≡ 2)
    × ((lseek vfs 3 40 0 opened_one.1).0 ≡ ok 40)
    × ((lseek vfs 3 40 2 opened_one.1).0 ≡ error 1)
    × ((write vfs 3 (65 ∷ []) opened_one.1).0 ≡ ok 1)
    × ((write vfs 3 (65 ∷ []) (fd_open vfs (47 ∷ []) 0x402 0 empty).1).0 ≡ error 1)
unfolding fd_open find_free find_free_from open_at open_existing open_new store_file initial_file
    access_mask read write lseek seek_to get
offsets = (refl, refl, refl, refl, refl)

fd_open-Outcome_example : Outcome 2 empty (fd_open vfs (47 ∷ []) 2 0 empty)
fd_open-Outcome_example = fd_open-Outcome vfs (47 ∷ []) 2 0 empty

close_all_lem_example :
    ((close_all vfs opened_one.1).fd_table 3 ≡ 0)
    × (((close_all vfs opened_one.1).files 1000).ref_count
        ≡ (opened_one.1.files 1000).ref_count - holders 1000 opened_one.1.fd_table table_size 0)
close_all_lem_example = close_all_lem vfs opened_one.1 1000 3 (omega arith) (omega arith)

-- ===== src/Fs/Devfs/Tests.antt =====
-- Runs of `Fs.Devfs`, and the theorem about it at a concrete input.
use valecium.Prelude.{ℕ, ◌+◌, ◌≡◌, refl, false, arith, none, some, List, [], ◌∷◌}
use valecium.Fs.Vfs.{strncmp_equal}
use valecium.Fs.Devfs.{
  DeviceType, Nodes, cleared, skip_slashes, normalize_device_path, matches, find_from, new_node,
  register, unregister, find_device, enumerate,
}
use valecium.Fs.Devfs.Files.{World, Kernel, operation, open_file, advance, read, vfs_open}
use valecium.Fs.Devfs.Lookup.{register-find}

abbrev empty : Nodes
empty = record { nodes = λ i. cleared; count = 0 }

abbrev tty : List ℕ
tty = b't' ∷ b't' ∷ b'y' ∷ []

-- "//dev/tty"
abbrev tty_path : List ℕ
tty_path = 47 ∷ 47 ∷ b'd' ∷ b'e' ∷ b'v' ∷ 47 ∷ tty

abbrev one : Nodes
one = (register (some tty) DeviceType.char 4 0 7 900 0 empty).1

found :
    (find_device (some tty_path) one ≡ some 0)
    × (find_device (some tty) one ≡ some 0)
    × (find_device (some (b't' ∷ [])) one ≡ none)
    × ((register (some tty) DeviceType.char 4 1 0 0 0 one).0 ≡ none)
    × (find_device (some tty) (unregister (some 0) one).1 ≡ none)
    × (enumerate (λ i n. n + 1) 256 0 one 0 ≡ 1)
unfolding register unregister find_device find_from matches normalize_device_path skip_slashes
    strncmp_equal new_node enumerate
found = (refl, refl, refl, refl, refl, refl)

-- A driver that reads as many bytes as are wanted; each block has the next number as its address.
abbrev kernel : Kernel ℕ
kernel = record {
  malloc = λ w. (w.rest + 1, record w { rest = w.rest + 1 });
  free = λ p w. w;
  operations =
      λ p. record { read = some (λ i pos n data_out w. (n, w)); write = none; close = none };
}

abbrev world : World ℕ
world = record {
  table = one;
  opened = λ p. record { node = none; position = 0; flags = 0 };
  files = λ p. record { partition = 0; fs_file = 0; is_directory = false; size = 0 };
  rest = 10;
}

opened :
    let (file, w) = vfs_open kernel 5 (some tty_path) world in
    (file ≡ 12)
    × ((w.files 12).size ≡ 7)
    × ((w.files 12).fs_file ≡ 11)
    × (((read kernel 11 30 800 w).1.opened 11).position ≡ 30)
unfolding register find_device find_from matches normalize_device_path skip_slashes strncmp_equal
    new_node operation open_file advance read vfs_open
opened = (refl, refl, refl, refl)

register-find_example : find_device (some tty_path) one ≡ some 0
unfolding register find_from matches normalize_device_path skip_slashes strncmp_equal
register-find_example =
    register-find tty DeviceType.char 4 0 7 900 0 0 empty (omega arith) refl tty_path (omega arith)

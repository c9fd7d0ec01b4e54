-- ===== src/Fs/Devfs.antt =====
-- kernel/fs/devfs/devfs.c: the table of device nodes; `Devfs/Files` has the operations on files. A
-- node is given by its index in the table, a pointer to none is `none`; a C string is the list of its
-- characters before the terminating 0.
pub mod Files
pub mod Lookup
pub mod Tests
use valecium.Prelude.{
  ℕ, zero, suc, ◌+◌, ◌-◌, ◌*◌, ◌/◌, ◌%◌, ◌^◌, ◌≤◌, ◌<◌, ◌≡◌, ◌≢◌, refl, sym, ap, ◌∙◌, Bool, true,
  false, not, ◌&&◌, ◌||◌, arith, ◌==◌, ==_iff, if◌then◌else◌, inl, inr, ◌⊎◌, Bool-cases,
  Option-cases, Option, none, some, ltb, leb, u8, u32, update, List, [], ◌∷◌, ◌++◌, fun_ext,
  has_bit, length, length-append, get_or, take, drop, replicate, map, bit_and, bit_or, passes,
  passes→true, length-map, length-replicate,
}
use valecium.Fs.Fd.{Result, ok, error}
use valecium.Fs.Vfs.{slash, strncmp_equal, einval, enoent}

-- The type; `unset` is the 0 of a cleared node.
pub data DeviceType : Type 0 where
  unset block char dir : DeviceType

-- `DEVFS_DeviceNode`; the operations and the driver's data are addresses.
pub record Node : Type 0 where
  pub name : List ℕ
  pub kind : DeviceType
  pub major : ℕ
  pub minor : ℕ
  pub size : ℕ
  pub ops : ℕ
  pub private_data : ℕ
  pub in_use : Bool

-- `s_DevNodes` and `s_DevNodeCount`.
pub record Nodes : Type 0 where
  pub nodes : ℕ → Node
  pub count : ℕ

abbrev pub max_files : ℕ
max_files = 256

abbrev pub path_max : ℕ
path_max = 64

-- A node that `memset` has cleared.
abbrev pub cleared : Node
cleared = record {
  name = [];
  kind = DeviceType.unset;
  major = 0;
  minor = 0;
  size = 0;
  ops = 0;
  private_data = 0;
  in_use = false;
}

unfoldable pub skip_slashes : List ℕ → List ℕ
skip_slashes [] = []
skip_slashes (c ∷ path) = let rest = skip_slashes path in if c == slash then rest else c ∷ path

abbrev pub dev_prefix : List ℕ
dev_prefix = b'd' ∷ b'e' ∷ b'v' ∷ slash ∷ []

unfoldable pub normalize_device_path : List ℕ → List ℕ
normalize_device_path path =
    let rest = skip_slashes path in if strncmp_equal 4 rest dev_prefix then drop 4 rest else rest

-- A node in use with a name, as the loops test it.
unfoldable pub matches : Nodes → List ℕ → ℕ → Bool
matches t name i = (t.nodes i).in_use && strncmp_equal path_max (t.nodes i).name name

-- The loops over the table, with `n` nodes left from the `i`th on: the first that passes a test.
unfoldable pub find_from : (ℕ → Bool) → ℕ → ℕ → Option ℕ
find_from test zero i = none
find_from test (suc n) i = let rest = find_from test n (i + 1) in if test i then some i else rest

-- The node's fields as `DEVFS_RegisterDevice` sets them.
unfoldable pub new_node : List ℕ → DeviceType → ℕ → ℕ → ℕ → ℕ → ℕ → Node
new_node name kind major minor size ops private_data = record {
  name = take (path_max - 1) name;
  kind = kind;
  major = major;
  minor = minor;
  size = size;
  ops = ops;
  private_data = private_data;
  in_use = true;
}

-- The node that a device is registered with; a missing name is the null pointer.
unfoldable pub register :
    Option (List ℕ) → DeviceType → ℕ → ℕ → ℕ → ℕ → ℕ → Nodes → Option ℕ × Nodes
register none kind major minor size ops private_data t = (none, t)
register (some name) kind major minor size ops private_data t =
    if length name == 0
    then (none, t)
    else if leb max_files t.count
    then (none, t)
    else elim (find_from (matches t name) max_files 0) [
      | some i ↦ (none, t)
      | none ↦ elim (find_from (λ i. not (t.nodes i).in_use) max_files 0) [
        | none ↦ (none, t)
        | some i ↦ (
          some i,
          record {
            nodes = update t.nodes i (new_node name kind major minor size ops private_data);
            count = u32 (t.count + 1);
          },
        )
      ]
    ]

-- A node behind the table stands for a pointer that is not into it.
unfoldable pub unregister : Option ℕ → Nodes → Result × Nodes
unregister none t = (error einval, t)
unregister (some i) t = if not (ltb i max_files && (t.nodes i).in_use) then (error enoent, t) else (
  ok 0,
  record { nodes = update t.nodes i cleared; count = (t.count + 2 ^ 32 - 1) % 2 ^ 32 },
)

unfoldable pub find_device : Option (List ℕ) → Nodes → Option ℕ
find_device none t = none
find_device (some path) t = find_from (matches t (normalize_device_path path)) max_files 0

-- What a callback does for each node in use, in the order of the table.
unfoldable pub enumerate : {C : Type 0} → (ℕ → C → C) → ℕ → ℕ → Nodes → C → C
enumerate callback zero i t context = context
enumerate callback (suc n) i t context =
    enumerate callback n (i + 1) t (if (t.nodes i).in_use then callback i context else context)

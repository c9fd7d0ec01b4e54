-- ===== src/Fs/Devfs/Lookup.antt =====
-- kernel/fs/devfs/devfs.c: a device that was registered is found by its name, and no other device
-- is found otherwise than before.
use valecium.Prelude.{
  ℕ, zero, suc, ◌+◌, ◌≤◌, ◌<◌, ◌≡◌, refl, sym, ap, ◌∙◌, Bool, true, false, not, ◌&&◌, arith, ◌==◌,
  if◌then◌else◌, inl, inr, ◌⊎◌, Bool-cases, none, some, leb, u32, update, List, fun_ext, length,
}
use valecium.Fs.Vfs.{strncmp_equal}
use valecium.Fs.Vfs.Names.{strncmp→eq}
use valecium.Fs.Vfs.Table.{take_all}
use valecium.Fs.Devfs.{
  DeviceType, Node, Nodes, max_files, path_max, normalize_device_path, matches, find_from, new_node,
  register, find_device,
}

-- The first index that passes the test is found.
find_from-some :
    (test : ℕ → Bool) (n i m k : ℕ)
    → i + n ≡ m
    → i ≤ k
    → k < m
    → test k ≡ true
    → ((j : ℕ) → j < k → test j ≡ false)
    → find_from test n i ≡ some k
unfolding find_from
find_from-some test zero i m k sum from to passed before = absurd (omega arith)
find_from-some test (suc n) i m k sum from to passed before = elim (Bool-cases (i == k)) [
  | inl here ↦
      let same : i ≡ k = ground arith in
      let now : test i ≡ true = ap test same ∙ passed in rw (find_from, now) (ap some same)
  | inr apart ↦
      let not_yet : test i ≡ false = before i (ground arith) in
      rw (find_from, not_yet)
        (find_from-some test n (i + 1) m k (omega arith) (ground arith) to passed before)
]

-- What the search gives, and that nothing before it passes.
find_from-cases :
    (test : ℕ → Bool) (n i m : ℕ)
    → i + n ≡ m
    → ((find_from test n i ≡ none) × ((j : ℕ) → i ≤ j → j < m → test j ≡ false))
      ⊎ ((k : ℕ) × (find_from test n i ≡ some k) × (k < m) × (test k ≡ true))
unfolding find_from
find_from-cases test zero i m sum = inl (refl, λ j from to. absurd (omega arith))
find_from-cases test (suc n) i m sum = elim (Bool-cases (test i)) [
  | inl passed ↦ inr (i, rw (find_from, passed) refl, omega arith, passed)
  | inr failed ↦ elim (find_from-cases test n (i + 1) m (omega arith)) [
    | inl (nowhere, all) ↦ inl (
      rw (find_from, failed) nowhere,
      λ j from to. elim (Bool-cases (i == j)) [
        | inl here ↦ let same : i ≡ j = ground arith in ap test (sym same) ∙ failed
        | inr apart ↦ all j (ground arith) to
      ],
    )
    | inr (k, found, below, passed) ↦ inr (k, rw (find_from, failed) found, below, passed)
  ]
]

-- Searches with tests that agree give the same.
find_from_congr :
    (f g : ℕ → Bool) (n i : ℕ) → ((j : ℕ) → f j ≡ g j) → find_from f n i ≡ find_from g n i
find_from_congr f g n i same = ap (λ t. find_from t n i) (fun_ext same)

-- The effect of a registration that succeeds.
record Registered (name : List ℕ) (kind : DeviceType) (major minor size ops private_data : ℕ)
    (t : Nodes) (k : ℕ) (t' : Nodes) : Type 0 where
  below : k < max_files
  free : (t.nodes k).in_use ≡ false
  unused : (j : ℕ) → j < max_files → matches t name j ≡ false
  new : t'.nodes k ≡ new_node name kind major minor size ops private_data
  others : (j : ℕ) → (k == j) ≡ false → t'.nodes j ≡ t.nodes j

register-Registered :
    (name : List ℕ) (kind : DeviceType) (major minor size ops private_data k : ℕ) (t : Nodes)
    → (register (some name) kind major minor size ops private_data t).0 ≡ some k
    → Registered name kind major minor size ops private_data t k
        (register (some name) kind major minor size ops private_data t).1
unfolding register
register-Registered name kind major minor size ops private_data k t fine =
    let node = new_node name kind major minor size ops private_data in
    let free_test = λ (i : ℕ). not (t.nodes i).in_use in
    elim (Bool-cases (length name == 0)) [
      | inl empty ↦ absurd (let bad = rw (register, empty) at fine in ground arith)
      | inr given ↦ elim (Bool-cases (leb max_files t.count)) [
        | inl full ↦ absurd (let bad = rw (register, given, full) at fine in ground arith)
        | inr room ↦ elim (find_from-cases (matches t name) max_files 0 max_files (omega arith)) [
          | inr (i, taken, lt, passed) ↦
              absurd (let bad = rw (register, given, room, taken) at fine in ground arith)
          | inl (nowhere, unused) ↦
              elim (find_from-cases free_test max_files 0 max_files (omega arith)) [
                | inl (no_slot, all) ↦
                    absurd (
                      let bad = rw (register, given, room, nowhere, no_slot) at fine in
                      ground arith)
                | inr (i, slot, lt, passed) ↦
                    let chosen : some i ≡ some k =
                      rw (register, given, room, nowhere, slot) at fine in
                    let same : i ≡ k = ground arith in
                    let t' : Nodes = record {
                      nodes = update t.nodes i node;
                      count = u32 (t.count + 1);
                    } in
                    let here : (i == k) ≡ true = ground arith in
                    rw (register, given, room, nowhere, slot)
                      (record {
                        below = omega arith;
                        free = ap (λ j. (t.nodes j).in_use) (sym same) ∙ ground arith;
                        unused = λ j to. unused j (omega arith) to;
                        new = ap (λ (b : Bool). if b then node else t.nodes k) here;
                        others = λ j apart.
                            let away : (i == j) ≡ false = ground arith in
                            ap (λ (b : Bool). if b then node else t.nodes j) away;
                      })
              ]
        ]
      ]
    ]

matches-others :
    (t : Nodes) (k : ℕ) (t' : Nodes)
    → ((j : ℕ) → (k == j) ≡ false → t'.nodes j ≡ t.nodes j)
    → (path : List ℕ) (j : ℕ) → (k == j) ≡ false
    → matches t' path j ≡ matches t path j
unfolding matches
matches-others t k t' others path j apart =
    ap (λ (n : Node). n.in_use && strncmp_equal path_max n.name path) (others j apart)

matches-new :
    (name : List ℕ) (kind : DeviceType) (major minor size ops private_data : ℕ) (t : Nodes) (k : ℕ)
    (path : List ℕ)
    → length name < path_max
    → t.nodes k ≡ new_node name kind major minor size ops private_data
    → matches t path k ≡ strncmp_equal path_max name path
unfolding matches new_node
matches-new name kind major minor size ops private_data t k path short new =
    ap (λ (n : Node). n.in_use && strncmp_equal path_max n.name path) new
    ∙ ap (λ l. strncmp_equal path_max l path) (take_all 63 name (omega arith))

matches-free :
    (t : Nodes) (k : ℕ) (path : List ℕ) → (t.nodes k).in_use ≡ false → matches t path k ≡ false
unfolding matches
matches-free t k path free = rw (matches, free) refl

-- If a device with a name of less than 64 characters is registered, each path that normalizes to
-- that name finds its node, and each other path, of less than 64 characters when normalized, finds
-- what it found before.
pub register-find :
    (name : List ℕ) (kind : DeviceType) (major minor size ops private_data k : ℕ) (t : Nodes)
    → length name < path_max
    → (register (some name) kind major minor size ops private_data t).0 ≡ some k
    → (path : List ℕ) → length (normalize_device_path path) < path_max
    → find_device (some path) (register (some name) kind major minor size ops private_data t).1 ≡ (
        if strncmp_equal path_max name (normalize_device_path path)
        then some k
        else find_device (some path) t)
unfolding find_device
register-find name kind major minor size ops private_data k t short fine path fits =
    let t' = (register (some name) kind major minor size ops private_data t).1 in
    let p = normalize_device_path path in
    let r = register-Registered name kind major minor size ops private_data k t fine in
    let here = matches-new name kind major minor size ops private_data t' k p short r.new in
    let limit = r.below in
    elim (Bool-cases (strncmp_equal path_max name p)) [
      | inl equal ↦
          let same : p ≡ name = sym (strncmp→eq path_max name p equal short fits) in
          let before : (j : ℕ) → j < k → matches t' p j ≡ false = λ j lt.
            matches-others t k t' r.others p j (ground arith)
            ∙ ap (λ l. matches t l j) same
            ∙ r.unused j (omega arith) in
          rw equal (
            find_from-some (matches t' p) max_files 0 max_files k (omega arith) (omega arith) limit
              (here ∙ equal) before)
      | inr other ↦ rw other (
          find_from_congr (matches t' p) (matches t p) max_files 0 (λ j.
            elim (Bool-cases (k == j)) [
              | inl now ↦
                  let same : k ≡ j = ground arith in
                  ap (matches t' p) (sym same)
                  ∙ here
                  ∙ other
                  ∙ sym (matches-free t k p r.free)
                  ∙ ap (matches t p) same
              | inr apart ↦ matches-others t k t' r.others p j apart
            ]))
    ]

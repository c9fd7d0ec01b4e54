-- ===== src/Fs/Vfs/Outcome.antt =====
-- kernel/fs/vfs/vfs.c: what `FS_Mount` does to the table of mounts.
use valecium.Prelude.{
  ℕ, ◌<◌, ◌≡◌, refl, sym, ap, ◌∙◌, Bool, true, false, not, ◌&&◌, ◌||◌, arith, ◌==◌, inl, inr,
  Bool-cases, Option, leb, List,
}
use valecium.Fs.Fd.{ok}
use valecium.Fs.Vfs.{Mounts, World, max_mounts, max_path, normalize_mount}
use valecium.Fs.Vfs.Mount.{
  Services, is_used, is_devfs, add_mount, mount, mount_normalized, set_operations, store_mount,
  get_fs_operations, filesystem, set_filesystem,
}
use valecium.Fs.Vfs.Table.{IsName, normalize_cases}

-- What `FS_Mount` does to the table: nothing, or an entry is added for the normalized name.
pub data Outcome {S : Type 0} (volume : ℕ) (location : Option (List ℕ)) (w : World S)
    : Bool × World S → Type 0 where
  refused : (w' : World S) → w'.mounts ≡ w.mounts → Outcome volume location w (false, w')
  added :
      (name : List ℕ) (w' : World S)
      → w.mounts.count < max_mounts
      → normalize_mount location max_path ≡ (ok 0, name)
      → IsName name
      → is_used w.mounts.count w.mounts.entries name ≡ false
      → w'.mounts ≡ add_mount w.mounts name volume
      → Outcome volume location w (true, w')

module _ {S : Type 0} (services : Services S) (volume : ℕ) (location : Option (List ℕ)) where
  store_mount-Outcome :
      (name : List ℕ) (v w : World S)
      → w.mounts ≡ v.mounts
      → v.mounts.count < max_mounts
      → normalize_mount location max_path ≡ (ok 0, name)
      → IsName name
      → is_used v.mounts.count v.mounts.entries name ≡ false
      → Outcome volume location v (store_mount services volume name w)
  unfolding store_mount
  store_mount-Outcome name v w same room normal n unused =
      let w' = (store_mount services volume name w).1 in
      added name w' room normal n unused (ap (λ t. add_mount t name volume) same)

  set_operations-Outcome :
      (buffer : ℕ) (name : List ℕ) (v w : World S)
      → w.mounts ≡ v.mounts
      → v.mounts.count < max_mounts
      → normalize_mount location max_path ≡ (ok 0, name)
      → IsName name
      → is_used v.mounts.count v.mounts.entries name ≡ false
      → Outcome volume location v (set_operations services volume buffer name w)
  unfolding set_operations
  set_operations-Outcome buffer name v w same room normal n unused =
      let fs = filesystem w volume in
      let found = get_fs_operations services fs.kind in
      let w' = set_filesystem w volume (record fs { ops = found }) in
      elim (Bool-cases (fs.ops == 0)) [
        | inl unset ↦ elim (Bool-cases (found == 0)) [
          | inl nothing ↦
              rw (unset, nothing) (refused (record w' { rest = services.free buffer w'.rest }) same)
          | inr something ↦
              rw (unset, something) (store_mount-Outcome name v w' same room normal n unused)
        ]
        | inr chosen ↦ rw chosen (store_mount-Outcome name v w same room normal n unused)
      ]

  mount_normalized-Outcome :
      (buffer : ℕ) (v w : World S)
      → w.mounts ≡ v.mounts
      → v.mounts.count < max_mounts
      → Outcome volume location v
          (mount_normalized services volume buffer (normalize_mount location max_path) w)
  unfolding mount_normalized
  mount_normalized-Outcome buffer v w same room = elim (normalize_cases location) [
    | inl (e, wrong) ↦ rw wrong (refused w same)
    | inr (name, normal, n) ↦
        rw normal (elim (Bool-cases (is_used w.mounts.count w.mounts.entries name)) [
          | inl taken ↦ rw taken (refused w same)
          | inr unused ↦ rw unused (
              set_operations-Outcome buffer name v w same room normal n
                (ap (λ (t : Mounts). is_used t.count t.entries name) (sym same) ∙ unused))
        ])
  ]

  pub mount-Outcome : (w : World S) → Outcome volume location w (mount services volume location w)
  unfolding mount
  mount-Outcome w =
      let p = w.partitions volume in
      let (buffer, rest) = services.malloc max_path w.rest in
      let no_disk = p.disk == 0 && (p.fs == 0 || not (is_devfs (filesystem w volume).kind)) in
      elim (Bool-cases (volume == 0)) [
        | inl null ↦ rw null (refused w refl)
        | inr given ↦ elim (Bool-cases no_disk) [
          | inl none_there ↦ rw (given, none_there) (refused w refl)
          | inr disk ↦ elim (Bool-cases (p.fs == 0)) [
            | inl no_fs ↦ rw (given, disk, no_fs) (refused w refl)
            | inr fs ↦ elim (Bool-cases (leb max_mounts w.mounts.count)) [
              | inl full ↦ rw (given, disk, fs, full) (refused w refl)
              | inr room ↦ elim (Bool-cases (buffer == 0)) [
                | inl no_memory ↦
                    rw (given, disk, fs, room, no_memory) (refused (record w { rest = rest }) refl)
                | inr memory ↦
                    rw (given, disk, fs, room, memory)
                      (mount_normalized-Outcome buffer w (record w { rest = rest }) refl
                        (ground arith))
              ]
            ]
          ]
        ]
      ]

-- ===== src/Fs/Vfs/Mounted.antt =====
-- kernel/fs/vfs/vfs.c: what is mounted is found again, and the table stays well formed.
use valecium.Prelude.{
  ℕ, zero, suc, ◌+◌, ◌-◌, ◌≤◌, ◌<◌, ◌≡◌, refl, sym, ap, ◌∙◌, Bool, true, false, ◌||◌, arith, ◌==◌,
  if◌then◌else◌, inl, inr, Bool-cases, Option-cases, Option, some, leb, List, [], ◌∷◌, length,
  length-append, get_or, take, ◌++◌, replicate,
}
use mathlib.Core.Path.{subst}
use mathlib.Core.List.{append-nil}
use valecium.Fs.Fd.{Result, ok}
use valecium.Fs.Vfs.{
  MountEntry, Mounts, World, max_path, slash, normalize_mount, match_mount, resolve_in,
  resolve_path, relative_path,
}
use valecium.Fs.Vfs.Mount.{Services, add_mount, find_volume, umount, mount}
use valecium.Fs.Vfs.Names.{Under, Under-unique, drop_tail}
use valecium.Fs.Vfs.Longest.{point, match_mount-IsLongest}
use valecium.Fs.Vfs.Table.{
  IsValid, IsPlain, normalize_mount-slashes, take_all, point-add_mount, count-add_mount,
  add_mount-IsValid, remove_mount-IsValid,
}
use valecium.Fs.Vfs.Outcome.{Outcome, refused, added, mount-Outcome}

-- The changes of the table: a volume's address, and for a mount its location.
pub data Event : Type 0 where
  mounting : ℕ → Option (List ℕ) → Event
  unmounting : ℕ → Event

unfoldable pub run : {S : Type 0} → Services S → List Event → World S → World S
run services [] w = w
run services (mounting volume location ∷ rest) w =
    run services rest (mount services volume location w).1
run services (unmounting volume ∷ rest) w = run services rest (umount volume w).1

find_volume-below :
    (n i m : ℕ) (entries : ℕ → MountEntry) (volume k : ℕ)
    → i + n ≡ m
    → find_volume n i entries volume ≡ some k
    → k < m
unfolding find_volume
find_volume-below zero i m entries volume k sum found = absurd (ground arith)
find_volume-below (suc n) i m entries volume k sum found =
    elim (Bool-cases ((entries i).partition == volume)) [
      | inl here ↦ ground arith
      | inr other ↦ find_volume-below n (i + 1) m entries volume k (omega arith) (ground arith)
    ]

Outcome-IsValid :
    {S : Type 0} {volume : ℕ} {location : Option (List ℕ)} {w : World S} {r : Bool × World S}
    → Outcome volume location w r
    → IsValid w.mounts
    → IsValid r.1.mounts
Outcome-IsValid (refused w' same) v = subst IsValid (sym same) v
Outcome-IsValid {volume} {w} (added name w' room normal n unused same) v =
    subst IsValid (sym same) (add_mount-IsValid w.mounts name volume v room n unused)

umount-IsValid :
    {S : Type 0} (volume : ℕ) (w : World S) → IsValid w.mounts → IsValid (umount volume w).1.mounts
unfolding umount
umount-IsValid volume w v = elim (Bool-cases (volume == 0 || (w.partitions volume).fs == 0)) [
  | inl null ↦ rw null v
  | inr given ↦ elim (Option-cases (find_volume w.mounts.count 0 w.mounts.entries volume)) [
    | inl nowhere ↦ rw (given, nowhere) v
    | inr (i, found) ↦
        rw (given, found)
          (remove_mount-IsValid w.mounts i v (
            find_volume-below w.mounts.count 0 w.mounts.count w.mounts.entries volume i
              (omega arith) found))
  ]
]

-- After any sequence of mounts and unmounts from a well-formed table there are at most 8 mounts,
-- and their mount points are absolute, of less than 256 characters, and all different.
pub mounts-IsValid :
    {S : Type 0} (services : Services S) (events : List Event) (w : World S)
    → IsValid w.mounts
    → IsValid (run services events w).mounts
unfolding run
mounts-IsValid services [] w v = v
mounts-IsValid services (mounting volume location ∷ rest) w v =
    mounts-IsValid services rest (mount services volume location w).1
      (Outcome-IsValid (mount-Outcome services volume location w) v)
mounts-IsValid services (unmounting volume ∷ rest) w v =
    mounts-IsValid services rest (umount volume w).1 (umount-IsValid volume w v)

-- The rest of a path behind the mount point, as a path in the partition.
unfoldable pub absolute : List ℕ → List ℕ
absolute [] = slash ∷ []
absolute (c ∷ cs) = if c == slash then c ∷ cs else slash ∷ c ∷ cs

relative-absolute :
    (tail : List ℕ)
    → length tail < max_path - 1
    → relative_path tail max_path ≡ some (absolute tail)
unfolding relative_path absolute
relative-absolute [] short = refl
relative-absolute (c ∷ cs) short =
    let all : take 255 (c ∷ cs) ≡ c ∷ cs = take_all 255 (c ∷ cs) (omega arith) in
    let room : leb 256 (suc (length cs) + 1) ≡ false = ground arith in
    let some_left : (suc (length cs) == 0) ≡ false = ground arith in
    elim (Bool-cases (c == slash)) [
      | inl rooted ↦ rw (rooted, some_left) (ap some all)
      | inr other ↦ rw (other, some_left, room) (ap (λ l. some (slash ∷ l)) all)
    ]

nonempty : (l : List ℕ) → get_or l 0 0 ≡ slash → 0 < length l
nonempty [] rooted = absurd (ground arith)
nonempty (x ∷ l) rooted = omega arith

resolve_in_lem :
    (t : Mounts) (path : List ℕ) (i : ℕ) (best : Option ℕ × ℕ)
    → best.0 ≡ some i
    → best.1 ≡ length (point t i)
    → (u : Under path (point t i)) → length u.tail < max_path - 1
    → resolve_in t path max_path best ≡ (ok 0, ((t.entries i).partition, absolute u.tail))
unfolding resolve_in
resolve_in_lem t path i (o, len) here size u short =
    rw (here, size, drop_tail u, relative-absolute u.tail short) refl

-- If a path is under the `i`th mount point of a well-formed table, and under no longer one, then
-- it resolves to that mount's partition and to the rest of the path, with a slash in front, as
-- long as that rest has less than 255 characters.
pub resolve-absolute :
    (t : Mounts) (path : List ℕ) (i : ℕ)
    → IsValid t
    → i < t.count
    → (u : Under path (point t i))
    → ((j : ℕ) → j < t.count → Under path (point t j) → length (point t j) ≤ length (point t i))
    → length u.tail < max_path - 1
    → resolve_path t (some path) max_path ≡ (ok 0, ((t.entries i).partition, absolute u.tail))
unfolding resolve_path
resolve-absolute t path i v lt u longest short =
    let rooted = (v.names i lt).rooted in
    let some_left : 0 < length (point t i) = nonempty (point t i) rooted in
    let len = ap length u.split ∙ length-append (point t i) u.tail in
    let given : (length path == 0) ≡ false = ground (arith, len) in
    let m = match_mount-IsLongest t path in
    elim m.found [
      | inl (nowhere, zero_len) ↦ absurd (let least = m.longest i lt u in omega arith)
      | inr (k, here, ltk, under, size) ↦
          let least = m.longest i lt u in
          let most = longest k ltk under in
          let equal : length (point t k) ≡ length (point t i) = omega arith in
          let chosen = v.unique k i ltk lt (Under-unique under u equal) in
          rw given (
            resolve_in_lem t path i (match_mount t path) (here ∙ ap some chosen) (size ∙ equal) u
              short)
    ]

volume-add_mount :
    (t : Mounts) (name : List ℕ) (volume : ℕ)
    → ((add_mount t name volume).entries t.count).partition ≡ volume
unfolding add_mount
volume-add_mount t name volume =
    let here : (t.count == t.count) ≡ true = ground arith in
    let new : MountEntry = record { mount_point = take (max_path - 1) name; partition = volume } in
    ap (λ (b : Bool). (if b then new else t.entries t.count).partition) here

found_again :
    {S : Type 0} {volume : ℕ} {location : Option (List ℕ)} {w : World S} {r : Bool × World S}
    → Outcome volume location w r
    → IsValid w.mounts
    → r.0 ≡ true
    → resolve_path r.1.mounts (some (normalize_mount location max_path).1) max_path
      ≡ (ok 0, (volume, slash ∷ []))
unfolding absolute
found_again (refused w' same) v fine = absurd (ground arith)
found_again {volume} {w} (added name w' room normal n unused same) v fine =
    let t = add_mount w.mounts name volume in
    let valid = add_mount-IsValid w.mounts name volume v room n unused in
    let last = w.mounts.count in
    let len = count-add_mount w.mounts name volume in
    let first : (last == last) ≡ true = ground arith in
    let here : point t last ≡ name =
      point-add_mount w.mounts name volume last n.short ∙ rw first refl in
    let volume_here = volume-add_mount w.mounts name volume in
    let u : Under name (point t last) = record {
      tail = [];
      split = sym (append-nil (point t last) ∙ here);
      boundary = inl refl;
    } in
    let longest : (j : ℕ)
        → j < t.count
        → Under name (point t j)
        → length (point t j) ≤ length (point t last) =
      λ j lt o.
        omega (arith, ap length o.split ∙ length-append (point t j) o.tail, ap length here) in
    rw (same, normal)
      (resolve-absolute t name last valid (omega (arith, len)) u longest (omega arith)
        ∙ ap (λ p. (ok 0, (p, slash ∷ []))) volume_here)

-- If `FS_Mount` of an absolute path of less than 256 characters, without a slash at its end unless
-- it is the root, and with any number of slashes behind it, succeeds on a well-formed table, then
-- this path without those slashes resolves to the root of the volume that was mounted.
pub mount-resolve :
    {S : Type 0} (services : Services S) (volume : ℕ) (name : List ℕ) (slashes : ℕ) (w : World S)
    → IsPlain name
    → IsValid w.mounts
    → (mount services volume (some (name ++ replicate slashes slash)) w).0 ≡ true
    → resolve_path
        (mount services volume (some (name ++ replicate slashes slash)) w).1.mounts
        (some name)
        max_path
      ≡ (ok 0, (volume, slash ∷ []))
mount-resolve services volume name slashes w plain v fine =
    let location = some (name ++ replicate slashes slash) in
    let normal = normalize_mount-slashes name slashes plain in
    ap
      (λ (r : Result × List ℕ).
        resolve_path (mount services volume location w).1.mounts (some r.1) max_path)
      (sym normal)
    ∙ found_again (mount-Outcome services volume location w) v fine

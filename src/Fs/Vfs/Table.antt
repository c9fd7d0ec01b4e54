-- ===== src/Fs/Vfs/Table.antt =====
-- kernel/fs/vfs/vfs.c: the table of mounts stays well formed.
use valecium.Prelude.{
  ℕ, zero, suc, ◌+◌, ◌-◌, ◌≤◌, ◌<◌, ◌≡◌, ◌≢◌, refl, sym, ap, ◌∙◌, Bool, true, false, arith, ◌==◌,
  if◌then◌else◌, inl, inr, ◌⊎◌, Bool-cases, Option, none, some, leb, List, [], ◌∷◌, length, get_or,
  take, length-take, ◌++◌, replicate, ltb, ==_iff, length-append, length-replicate,
}
use valecium.Fs.Fd.{ok, error}
use valecium.Fs.Vfs.{
  MountEntry, Mounts, max_mounts, max_path, slash, strncmp_equal, strip, normalize_mount,
}
use valecium.Fs.Vfs.Mount.{is_used, add_mount, remove_mount}
use valecium.Fs.Vfs.Names.{strncmp_refl}
use valecium.Fs.Vfs.Longest.{point}

-- An absolute name that fits.
pub record IsName (name : List ℕ) : Type 0 where
  pub short : length name < max_path
  pub rooted : get_or name 0 0 ≡ slash

pub record IsValid (t : Mounts) : Type 0 where
  pub few : t.count ≤ max_mounts
  pub names : (i : ℕ) → i < t.count → IsName (point t i)
  pub unique : (i j : ℕ) → i < t.count → j < t.count → point t i ≡ point t j → i ≡ j

strip_pos : (n : ℕ) (l : List ℕ) → 0 < n → (0 < strip n l) × (strip n l ≤ n)
unfolding strip
strip_pos zero l pos = absurd (omega arith)
strip_pos (suc zero) l pos = ground arith
strip_pos (suc (suc n)) l pos =
    let (some_left, fits) = strip_pos (suc n) l (omega arith) in ground arith

take_get : (n i : ℕ) (l : List ℕ) → i < n → get_or (take n l) i 0 ≡ get_or l i 0
take_get zero i l lt = absurd (omega arith)
take_get (suc n) i [] lt = refl
take_get (suc n) zero (x ∷ l) lt = refl
take_get (suc n) (suc i) (x ∷ l) lt = take_get n i l (omega arith)

-- What the normalization gives, other than an error.
pub normalize_cases :
    (location : Option (List ℕ))
    → ((e : ℕ) × (normalize_mount location max_path ≡ (error e, [])))
      ⊎ ((name : List ℕ) × (normalize_mount location max_path ≡ (ok 0, name)) × IsName name)
unfolding normalize_mount
normalize_cases none = inl (22, refl)
normalize_cases (some l) = elim (Bool-cases (length l == 0)) [
  | inl empty ↦ inl (22, rw empty refl)
  | inr long ↦ elim (Bool-cases (get_or l 0 0 == slash)) [
    | inl rooted ↦
        let n = strip (length l) l in
        let m = if leb max_path n then 255 else n in
        let pos = strip_pos (length l) l (ground arith) in
        let some_left : 0 < m = ground arith in
        let fits : m < max_path = ground arith in
        let first = take_get m 0 l some_left in
        inr (
          take m l,
          rw (long, rooted) refl,
          record { short = omega (arith, length-take m l); rooted = first ∙ ground arith },
        )
    | inr relative ↦ inl (22, rw (long, relative) refl)
  ]
]

-- An absolute path that does not end with a slash, unless it is the root.
pub record IsPlain (name : List ℕ) : Type 0 where
  pub is_name : IsName name
  pub ending : (length name ≡ 1) ⊎ ((get_or name (length name - 1) 0 == slash) ≡ false)

strip_lem :
    (k n : ℕ) (l : List ℕ)
    → 0 < n
    → (n ≡ 1) ⊎ ((get_or l (n - 1) 0 == slash) ≡ false)
    → ((i : ℕ) → n ≤ i → i < n + k → get_or l i 0 ≡ slash)
    → strip (n + k) l ≡ n
unfolding strip
strip_lem zero zero l pos ending slashes = absurd (omega arith)
strip_lem zero (suc n) l pos ending slashes =
    let count : suc n + 0 ≡ suc n = omega arith in
    ap (λ m. strip m l) count ∙ elim ending [
      | inl one ↦ let alone : ltb 0 n ≡ false = ground arith in rw alone
      | inr other ↦
          let same : n ≡ suc n - 1 = omega arith in
          let last : (get_or l n 0 == slash) ≡ false =
            ap (λ i. get_or l i 0 == slash) same ∙ other in
          ground (arith, last)
    ]
strip_lem (suc k) n l pos ending slashes =
    let rest = strip_lem k n l pos ending (λ i le lt. slashes i le (omega arith)) in
    let last : (get_or l (n + k) 0 == slash) ≡ true =
      (==_iff (get_or l (n + k) 0) slash).1 (slashes (n + k) (omega arith) (omega arith)) in
    let inner : ltb 0 (n + k) ≡ true = ground arith in
    let count : n + suc k ≡ suc (n + k) = omega arith in
    ap (λ m. strip m l) count ∙ rw (inner, last) rest

get_or-slashes : (k i : ℕ) → i < k → get_or (replicate k slash) i 0 ≡ slash
get_or-slashes zero i lt = absurd (omega arith)
get_or-slashes (suc k) zero lt = refl
get_or-slashes (suc k) (suc i) lt = get_or-slashes k i (omega arith)

get_or-behind :
    (l m : List ℕ) (i : ℕ) → length l ≤ i → get_or (l ++ m) i 0 ≡ get_or m (i - length l) 0
get_or-behind [] m i le = ap (λ j. get_or m j 0) (let same : i ≡ i - 0 = omega arith in same)
get_or-behind (x ∷ l) m zero le = absurd (omega arith)
get_or-behind (x ∷ l) m (suc i) le =
    let same : suc i - suc (length l) ≡ i - length l = omega arith in
    get_or-behind l m i (omega arith) ∙ ap (λ j. get_or m j 0) (sym same)

get_or-inside : (l m : List ℕ) (i : ℕ) → i < length l → get_or (l ++ m) i 0 ≡ get_or l i 0
get_or-inside [] m i lt = absurd (omega arith)
get_or-inside (x ∷ l) m zero lt = refl
get_or-inside (x ∷ l) m (suc i) lt = get_or-inside l m i (omega arith)

take-front : (l m : List ℕ) → take (length l) (l ++ m) ≡ l
take-front [] m = refl
take-front (x ∷ l) m = ap (λ r. x ∷ r) (take-front l m)

nonempty_name : (name : List ℕ) → get_or name 0 0 ≡ slash → 0 < length name
nonempty_name [] rooted = absurd (ground arith)
nonempty_name (x ∷ name) rooted = omega arith

-- The slashes behind a path are left out, and the path is not changed.
pub normalize_mount-slashes :
    (name : List ℕ) (k : ℕ)
    → IsPlain name
    → normalize_mount (some (name ++ replicate k slash)) max_path ≡ (ok 0, name)
unfolding normalize_mount
normalize_mount-slashes name k plain =
    let l = name ++ replicate k slash in
    let n = plain.is_name in
    let short = n.short in
    let pos = nonempty_name name n.rooted in
    let size : length l ≡ length name + k =
      length-append name (replicate k slash)
      ∙ ap (λ j. length name + j) (length-replicate k slash) in
    let ending : (length name ≡ 1) ⊎ ((get_or l (length name - 1) 0 == slash) ≡ false) =
      rw (get_or-inside name (replicate k slash) (length name - 1) (omega arith)) plain.ending in
    let stripped : strip (length l) l ≡ length name =
      ap (λ m. strip m l) size
      ∙ strip_lem k (length name) l pos ending (λ i le lt.
        get_or-behind name (replicate k slash) i le
        ∙ get_or-slashes k (i - length name) (omega arith)) in
    let rooted : (get_or l 0 0 == slash) ≡ true =
      (==_iff (get_or l 0 0) slash).1 (get_or-inside name (replicate k slash) 0 pos ∙ n.rooted) in
    let given : (length l == 0) ≡ false = ground (arith, size) in
    let fits : leb max_path (length name) ≡ false = ground arith in
    rw (given, rooted, stripped, fits) (ap (λ r. (ok 0, r)) (take-front name (replicate k slash)))

is_used_lem :
    (n : ℕ) (entries : ℕ → MountEntry) (name : List ℕ) (i : ℕ)
    → is_used n entries name ≡ false
    → i < n
    → (entries i).mount_point ≢ name
unfolding is_used
is_used_lem zero entries name i unused lt = absurd (omega arith)
is_used_lem (suc n) entries name i unused lt = elim (Bool-cases (i == n)) [
  | inl last ↦ λ same.
      let here : i ≡ n = ground arith in
      let equal : strncmp_equal max_path (entries n).mount_point name ≡ true =
        ap (λ k. strncmp_equal max_path (entries k).mount_point name) (sym here)
        ∙ ap (λ l. strncmp_equal max_path l name) same
        ∙ strncmp_refl max_path name in
      ground arith
  | inr before ↦ is_used_lem n entries name i (ground arith) (ground arith)
]

pub take_all : (n : ℕ) (l : List ℕ) → length l ≤ n → take n l ≡ l
take_all zero [] fits = refl
take_all zero (x ∷ l) fits = absurd (omega arith)
take_all (suc n) [] fits = refl
take_all (suc n) (x ∷ l) fits = ap (λ k. x ∷ k) (take_all n l (omega arith))

pub point-add_mount :
    (t : Mounts) (name : List ℕ) (volume i : ℕ)
    → length name < max_path
    → point (add_mount t name volume) i ≡ (if t.count == i then name else point t i)
unfolding add_mount
point-add_mount t name volume i short =
    let new : MountEntry = record { mount_point = take (max_path - 1) name; partition = volume } in
    let chosen = λ (b : Bool). (if b then new else t.entries i).mount_point in
    elim (Bool-cases (t.count == i)) [
      | inl here ↦ rw here (ap chosen here ∙ take_all 255 name (omega arith))
      | inr other ↦ rw other (ap chosen other)
    ]

pub count-add_mount :
    (t : Mounts) (name : List ℕ) (volume : ℕ) → (add_mount t name volume).count ≡ t.count + 1
unfolding add_mount
count-add_mount t name volume = refl

pub add_mount-IsValid :
    (t : Mounts) (name : List ℕ) (volume : ℕ)
    → IsValid t
    → t.count < max_mounts
    → IsName name
    → is_used t.count t.entries name ≡ false
    → IsValid (add_mount t name volume)
add_mount-IsValid t name volume v room n unused =
    let len = count-add_mount t name volume in
    let at = λ (i : ℕ). point-add_mount t name volume i n.short in
    let new = λ (i : ℕ) (lt : i < t.count) (same : point t i ≡ name).
      is_used_lem t.count t.entries name i unused lt same in
    record {
      few = omega (arith, len);
      names = λ i lt. elim (Bool-cases (t.count == i)) [
        | inl here ↦ rw (at i, here) n
        | inr other ↦ rw (at i, other) (v.names i (ground (arith, len)))
      ];
      unique = λ i j lti ltj same. elim (Bool-cases (t.count == i)) [
        | inl here ↦ elim (Bool-cases (t.count == j)) [
          | inl there ↦ ground arith
          | inr other ↦
              absurd (new j (ground (arith, len)) (sym (rw (at i, here, at j, other) at same)))
        ]
        | inr apart ↦ elim (Bool-cases (t.count == j)) [
          | inl there ↦ absurd (new i (ground (arith, len)) (rw (at i, apart, at j, there) at same))
          | inr other ↦
              v.unique i j (ground (arith, len)) (ground (arith, len))
                (rw (at i, apart, at j, other) at same)
        ]
      ];
    }

point-remove_mount :
    (t : Mounts) (i j : ℕ)
    → point (remove_mount t i) j ≡ point t (if i == j then t.count - 1 else j)
unfolding remove_mount
point-remove_mount t i j =
    let chosen = λ (b : Bool). (if b then t.entries (t.count - 1) else t.entries j).mount_point in
    elim (Bool-cases (i == j)) [
      | inl here ↦ rw here (ap chosen here)
      | inr other ↦ rw other (ap chosen other)
    ]

count-remove_mount : (t : Mounts) (i : ℕ) → (remove_mount t i).count ≡ t.count - 1
unfolding remove_mount
count-remove_mount t i = refl

pub remove_mount-IsValid :
    (t : Mounts) (i : ℕ) → IsValid t → i < t.count → IsValid (remove_mount t i)
remove_mount-IsValid t i v lt =
    let len = count-remove_mount t i in
    let at = point-remove_mount t i in
    record {
      few = let few = v.few in omega (arith, len);
      names =
          λ j lt'. rw (at j) (v.names (if i == j then t.count - 1 else j) (ground (arith, len)));
      unique = λ j k ltj ltk same.
          let moved =
            v.unique (if i == j then t.count - 1 else j) (if i == k then t.count - 1 else k)
              (ground (arith, len)) (ground (arith, len)) (sym (at j) ∙ same ∙ at k) in
          ground (arith, len);
    }

-- ===== src/Fs/Vfs/Longest.antt =====
-- kernel/fs/vfs/vfs.c: `vfs_match_mount` finds the longest mount point that a path is under.
use valecium.Prelude.{
  ℕ, zero, suc, ◌+◌, ◌≤◌, ◌<◌, ◌≡◌, refl, sym, ap, ◌∙◌, true, ◌&&◌, arith, ◌==◌, if◌then◌else◌, inl,
  inr, ◌⊎◌, Bool-cases, Option, none, some, ltb, List, length,
}
use mathlib.Core.Path.{subst}
use valecium.Fs.Vfs.{Mounts, covers, match_from, match_mount}
use valecium.Fs.Vfs.Names.{Under, covers→Under, Under→covers}

abbrev pub point : Mounts → ℕ → List ℕ
point t i = (t.entries i).mount_point

-- The best of the first `i` entries.
record IsBest (t : Mounts) (path : List ℕ) (i : ℕ) (best : Option ℕ × ℕ) : Type 0 where
  found :
      ((best.0 ≡ none) × (best.1 ≡ 0))
      ⊎ ((k : ℕ) × (best.0 ≡ some k)
          × (k < i)
          × (covers path (point t k) ≡ true)
          × (best.1 ≡ length (point t k)))
  longest : (j : ℕ) → j < i → covers path (point t j) ≡ true → length (point t j) ≤ best.1

step-IsBest :
    (t : Mounts) (path : List ℕ) (i : ℕ) (best : Option ℕ × ℕ)
    → IsBest t path i best
    → IsBest t path (i + 1) (
        if covers path (point t i) && ltb best.1 (length (point t i))
        then (some i, length (point t i))
        else best)
step-IsBest t path i best b =
    elim (Bool-cases (covers path (point t i) && ltb best.1 (length (point t i)))) [
      | inl better ↦
          let under : covers path (point t i) ≡ true = ground arith in
          let more : best.1 < length (point t i) = ground arith in
          rw better (record {
            found = inr (i, refl, omega arith, under, refl);
            longest = λ j lt c. elim (Bool-cases (j == i)) [
              | inl last ↦ let same : j ≡ i = ground arith in rw same (omega arith)
              | inr before ↦ let bound = b.longest j (ground arith) c in omega arith
            ];
          })
      | inr worse ↦ rw worse (record {
        found = elim b.found [
          | inl none_found ↦ inl none_found
          | inr (k, same, lt, under, len) ↦ inr (k, same, omega arith, under, len)
        ];
        longest = λ j lt c. elim (Bool-cases (j == i)) [
          | inl last ↦
              let same : j ≡ i = ground arith in
              let c' : covers path (point t i) ≡ true =
                ap (λ k. covers path (point t k)) (sym same) ∙ c in
              rw same (ground arith)
          | inr before ↦ b.longest j (ground arith) c
        ];
      })
    ]

match_from-IsBest :
    (t : Mounts) (path : List ℕ) (n i m : ℕ) (best : Option ℕ × ℕ)
    → i + n ≡ m
    → IsBest t path i best
    → IsBest t path m (match_from n i t.entries path best)
unfolding match_from
match_from-IsBest t path zero i m best sum b = subst (λ k. IsBest t path k best) (omega arith) b
match_from-IsBest t path (suc n) i m best sum b =
    match_from-IsBest t path n (i + 1) m
      (if covers path (point t i) && ltb best.1 (length (point t i))
        then (some i, length (point t i))
        else best)
      (omega arith) (step-IsBest t path i best b)

-- The entry that `vfs_match_mount` finds, if there is one.
pub record IsLongest (t : Mounts) (path : List ℕ) (best : Option ℕ × ℕ) : Type 0 where
  pub found :
      ((best.0 ≡ none) × (best.1 ≡ 0))
      ⊎ ((k : ℕ) × (best.0 ≡ some k)
          × (k < t.count)
          × Under path (point t k)
          × (best.1 ≡ length (point t k)))
  pub longest : (j : ℕ) → j < t.count → Under path (point t j) → length (point t j) ≤ best.1

-- `vfs_match_mount` either finds an entry that the path is under, with the length of its name, or
-- none, with length 0, and every entry that the path is under has a name of at most that length.
pub match_mount-IsLongest : (t : Mounts) (path : List ℕ) → IsLongest t path (match_mount t path)
unfolding match_mount
match_mount-IsLongest t path =
    let start : IsBest t path 0 (none, 0) = record {
      found = inl (refl, refl);
      longest = λ j lt c. absurd (omega arith);
    } in
    let b = match_from-IsBest t path t.count 0 t.count (none, 0) (omega arith) start in
    record {
      found = elim b.found [
        | inl none_found ↦ inl none_found
        | inr (k, same, lt, under, len) ↦
            inr (k, same, lt, covers→Under path (point t k) under, len)
      ];
      longest = λ j lt under. b.longest j lt (Under→covers path (point t j) under);
    }

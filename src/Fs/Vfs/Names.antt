-- ===== src/Fs/Vfs/Names.antt =====
-- kernel/fs/vfs/vfs.c: what the comparisons and the normalization of names mean.
use valecium.Prelude.{
  ℕ, zero, suc, ◌-◌, ◌<◌, ◌≡◌, refl, sym, ap, ◌∙◌, true, arith, ◌==◌, ◌⊎◌, List, [], ◌∷◌, ◌++◌,
  length, get_or, take, drop,
}
use valecium.Fs.Vfs.{strncmp_equal, slash, covers}

strncmp-append :
    (m path : List ℕ) → strncmp_equal (length m) path m ≡ true → path ≡ m ++ drop (length m) path
unfolding strncmp_equal
strncmp-append [] path same = refl
strncmp-append (x ∷ m) [] same = absurd (ground arith)
strncmp-append (x ∷ m) (y ∷ path) same =
    let first : y ≡ x = ground arith in
    let rest = strncmp-append m path (ground arith) in
    ap (λ z. z ∷ path) first ∙ ap (λ l. x ∷ l) rest

append-strncmp : (m rest : List ℕ) → strncmp_equal (length m) (m ++ rest) m ≡ true
unfolding strncmp_equal
append-strncmp [] rest = refl
append-strncmp (x ∷ m) rest =
    let same : (x == x) ≡ true = ground arith in rw (same, append-strncmp m rest)

drop-append : (m rest : List ℕ) → drop (length m) (m ++ rest) ≡ rest
drop-append [] rest = refl
drop-append (x ∷ m) rest = drop-append m rest

get_or-append : (m rest : List ℕ) → get_or (m ++ rest) (length m) 0 ≡ get_or rest 0 0
get_or-append [] rest = refl
get_or-append (x ∷ m) rest = get_or-append m rest

-- Strings that are shorter than the bound are compared to their end.
pub strncmp→eq :
    (n : ℕ) (a b : List ℕ) → strncmp_equal n a b ≡ true → length a < n → length b < n → a ≡ b
unfolding strncmp_equal
strncmp→eq zero a b same la lb = absurd (omega arith)
strncmp→eq (suc n) [] [] same la lb = refl
strncmp→eq (suc n) [] (y ∷ b) same la lb = absurd (ground arith)
strncmp→eq (suc n) (x ∷ a) [] same la lb = absurd (ground arith)
strncmp→eq (suc n) (x ∷ a) (y ∷ b) same la lb =
    let first : x ≡ y = ground arith in
    let rest = strncmp→eq n a b (ground arith) (omega arith) (omega arith) in
    ap (λ z. z ∷ a) first ∙ ap (λ l. y ∷ l) rest

pub strncmp_refl : (n : ℕ) (a : List ℕ) → strncmp_equal n a a ≡ true
unfolding strncmp_equal
strncmp_refl zero a = refl
strncmp_refl (suc n) [] = refl
strncmp_refl (suc n) (x ∷ a) =
    let same : (x == x) ≡ true = ground arith in rw (same, strncmp_refl n a)

-- The path is the mount point or goes on behind it with a new component.
pub record Under (path mount : List ℕ) : Type 0 where
  pub tail : List ℕ
  pub split : path ≡ mount ++ tail
  pub boundary :
      (get_or tail 0 0 ≡ 0)
      ⊎ ((get_or tail 0 0 ≡ slash) ⊎ (get_or mount (length mount - 1) 0 ≡ slash))

pub covers→Under : (path mount : List ℕ) → covers path mount ≡ true → Under path mount
unfolding covers
covers→Under path mount h =
    let split = strncmp-append mount path (ground arith) in
    let next =
      ap (λ p. get_or p (length mount) 0) split ∙ get_or-append mount (drop (length mount) path) in
    record { tail = drop (length mount) path; split = split; boundary = ground (arith, next) }

pub Under→covers : (path mount : List ℕ) → Under path mount → covers path mount ≡ true
unfolding covers
Under→covers path mount u =
    let same =
      ap (λ p. strncmp_equal (length mount) p mount) u.split ∙ append-strncmp mount u.tail in
    let next = ap (λ p. get_or p (length mount) 0) u.split ∙ get_or-append mount u.tail in
    let b = u.boundary in rw same (ground (arith, next))

pub drop_tail : {path mount : List ℕ} (u : Under path mount) → drop (length mount) path ≡ u.tail
drop_tail {mount} u = ap (drop (length mount)) u.split ∙ drop-append mount u.tail

take-append : (m rest : List ℕ) → take (length m) (m ++ rest) ≡ m
take-append [] rest = refl
take-append (x ∷ m) rest = ap (λ l. x ∷ l) (take-append m rest)

-- Two mount points of one length that a path is under are the same.
pub Under-unique : {path a b : List ℕ} → Under path a → Under path b → length a ≡ length b → a ≡ b
Under-unique {path} {a} {b} u v len =
    sym (take-append a u.tail)
    ∙ ap (take (length a)) (sym u.split)
    ∙ ap (λ n. take n path) len
    ∙ ap (take (length b)) v.split
    ∙ take-append b v.tail

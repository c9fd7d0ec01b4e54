-- ===== src/Tty/Table.antt =====
-- kernel/drivers/tty/tty.c: the table of the terminals and the active one. A pointer to a terminal
-- is a number, 0 for NULL, and `ids` holds the field `id` of the terminals in memory; what else a
-- new terminal holds is in `Device`. The allocator is a parameter, `free` does nothing.
use valecium.Prelude.{
  Bool, ℕ, ◌<◌, ◌≡◌, ◌≢◌, refl, sym, ap, ◌∙◌, true, false, not, arith, ◌==◌, ==_iff, if◌then◌else◌,
  inl, inr, ◌⊎◌, Bool-cases, leb, update,
}

pub record Devices : Type 0 where
  pub devices : ℕ → ℕ
  pub active : ℕ
  pub ids : ℕ → ℕ

abbrev pub max_devices : ℕ
max_devices = 8

-- `TTY_Create`; `p` is what `kzalloc` returns if it is called.
unfoldable pub create : ℕ → ℕ → Devices → ℕ × Devices
create p id t =
    if leb max_devices id
    then (0, t)
    else if not (t.devices id == 0)
    then (t.devices id, t)
    else if p == 0
    then (0, t)
    else (p, record t { devices = update t.devices id p; ids = update t.ids p id })

unfoldable pub destroy : ℕ → Devices → Devices
destroy p t =
    if p == 0
    then t
    else if leb max_devices (t.ids p)
    then t
    else let devices = update t.devices (t.ids p) 0 in
      record t { devices = devices; active = if t.active == p then devices 0 else t.active }

unfoldable pub get_device_by_id : ℕ → Devices → ℕ
get_device_by_id id t = if leb max_devices id then 0 else t.devices id

-- `TTY_SetActive`, without the display's cursor.
unfoldable pub set_active : ℕ → Devices → Devices
set_active p t = if p == 0 then t else record t { active = p }

unfoldable pub get_device : Devices → ℕ
get_device t = t.active

-- `TTY_Initialize`: the flag `s_TTYInitialized`, and the table; the screen is not cleared here.
unfoldable pub initialize : ℕ → Bool × Devices → Bool × Devices
initialize p (done, t) =
    let (tty0, t') = create p 0 (record t { devices = λ i. 0 }) in
    if done then (done, t) else (true, if tty0 == 0 then t' else record t' { active = tty0 })

-- The terminal is in the table, under its own number.
abbrev pub IsRegistered : ℕ → Devices → Type 0
IsRegistered p t = (t.ids p < max_devices) × (t.devices (t.ids p) ≡ p)

-- The active terminal, if there is one, is registered, and so is every terminal in the table.
pub record IsValid (t : Devices) : Type 0 where
  pub own : (i : ℕ) → i < max_devices → t.devices i ≢ 0 → t.ids (t.devices i) ≡ i
  pub live : (t.active ≡ 0) ⊎ IsRegistered t.active t

-- A pointer that the allocator may return: null, or of no terminal in use.
abbrev pub IsFresh : ℕ → Devices → Type 0
IsFresh p t = (p ≡ 0) ⊎ ((t.active ≢ p) × ((i : ℕ) → i < max_devices → t.devices i ≢ p))

-- Calls that change the table; the terminal made active is one that the table holds.
pub data Change (t : Devices) : Devices → Type 0 where
  creating : (p id : ℕ) → IsFresh p t → Change t (create p id t).1
  destroying : (p : ℕ) → IsRegistered p t → Change t (destroy p t)
  activating : (id : ℕ) → Change t (set_active (get_device_by_id id t) t)

-- The table with a new terminal.
added :
    (p id : ℕ) (t : Devices)
    → IsFresh p t
    → (p == 0) ≡ false
    → (t.devices id == 0) ≡ true
    → IsValid t
    → IsValid (record t { devices = update t.devices id p; ids = update t.ids p id })
added p id t (inl null) real empty v = absurd (ground arith)
added p id t (inr (idle, unused)) real empty v = record {
  own = λ i lt ne. elim (Bool-cases (id == i)) [
    | inl here ↦ rw here (ground arith)
    | inr other ↦
        let old : (p == t.devices i) ≡ false = ground (arith, unused i lt) in
        rw (other, old) (v.own i lt (λ e. ne (rw other e)))
  ];
  live = elim v.live [
    | inl nothing ↦ inl nothing
    | inr (lt, at) ↦
        let off : (p == t.active) ≡ false = ground (arith, idle) in
        elim (Bool-cases (id == t.ids t.active)) [
          | inl same ↦
              let e : id ≡ t.ids t.active = (==_iff id (t.ids t.active)).0 same in
              inl (sym at ∙ ap t.devices (sym e) ∙ (==_iff (t.devices id) 0).0 empty)
          | inr other ↦ inr (rw (off, other) (lt, at))
        ]
  ];
}

create-IsValid : (p id : ℕ) (t : Devices) → IsFresh p t → IsValid t → IsValid (create p id t).1
unfolding create
create-IsValid p id t new v = elim (Bool-cases (leb max_devices id)) [
  | inl out ↦ rw out v
  | inr inside ↦ elim (Bool-cases (t.devices id == 0)) [
    | inr there ↦ rw (inside, there) v
    | inl empty ↦ elim (Bool-cases (p == 0)) [
      | inl null ↦ rw (inside, empty, null) v
      | inr real ↦ rw (inside, empty, real) (added p id t new real empty v)
    ]
  ]
]

-- The terminal 0 is the one that becomes active, if it is there.
first_left :
    (p : ℕ) (t : Devices)
    → IsValid t
    → let devices = update t.devices (t.ids p) 0 in
      (devices 0 ≡ 0)
      ⊎ IsRegistered (devices 0) (record t { devices = devices; active = devices 0 })
first_left p t v = elim (Bool-cases (t.ids p == 0)) [
  | inl gone ↦ rw gone (inl refl)
  | inr other ↦ elim (Bool-cases (t.devices 0 == 0)) [
    | inl empty ↦ rw other (inl ((==_iff (t.devices 0) 0).0 empty))
    | inr there ↦
        let e : t.ids (t.devices 0) ≡ 0 = v.own 0 (omega arith) (ground arith) in
        rw (other, e, other) (inr (omega arith, refl))
  ]
]

destroy-IsValid : (p : ℕ) (t : Devices) → IsRegistered p t → IsValid t → IsValid (destroy p t)
unfolding destroy
destroy-IsValid p t r v = elim (Bool-cases (p == 0)) [
  | inl null ↦ rw null v
  | inr real ↦
      let inside : leb max_devices (t.ids p) ≡ false = ground (arith, r.0) in
      rw (real, inside)
        (record {
          own = λ i lt ne. elim (Bool-cases (t.ids p == i)) [
            | inl here ↦ absurd (ne (rw here refl))
            | inr other ↦ rw other (v.own i lt (λ e. ne (rw other e)))
          ];
          live = elim (Bool-cases (t.active == p)) [
            | inl was ↦ rw was (first_left p t v)
            | inr stays ↦ rw stays (elim v.live [
              | inl nothing ↦ inl nothing
              | inr (lt, at) ↦
                  let apart : (t.ids p == t.ids t.active) ≡ false = grind (arith, r.1, at) in
                  inr (rw apart (lt, at))
            ])
          ];
        })
]

activate-IsValid :
    (id : ℕ) (t : Devices) → IsValid t → IsValid (set_active (get_device_by_id id t) t)
unfolding set_active get_device_by_id
activate-IsValid id t v = elim (Bool-cases (leb max_devices id)) [
  | inl out ↦ rw out v
  | inr inside ↦ elim (Bool-cases (t.devices id == 0)) [
    | inl null ↦ rw (inside, null) v
    | inr there ↦
        let e : t.ids (t.devices id) ≡ id = v.own id (ground arith) (ground arith) in
        rw (inside, there) (record { own = v.own; live = inr (rw e (ground arith, refl)) })
  ]
]

-- Creating a terminal with fresh memory, destroying one that is in the table, and making one of the
-- table active keep the invariant: the active terminal, if there is one, is in the table, and each
-- terminal of the table stands under its own number.
pub Change-IsValid : {t t' : Devices} → Change t t' → IsValid t → IsValid t'
Change-IsValid {t} (creating p id new) v = create-IsValid p id t new v
Change-IsValid {t} (destroying p r) v = destroy-IsValid p t r v
Change-IsValid {t} (activating id) v = activate-IsValid id t v

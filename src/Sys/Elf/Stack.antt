-- ===== src/Sys/Elf/Stack.antt =====
-- kernel/sys/elf.c: `setup_initial_user_stack`. The name is the list of its characters before the
-- terminating 0; memory is that of the process, whose page directory is switched to. Neither the
-- process nor the name is null.
use valecium.Prelude.{
  ℕ, zero, suc, ◌+◌, ◌-◌, ◌*◌, ◌/◌, ◌%◌, ◌^◌, ◌≤◌, ◌<◌, ◌≡◌, ◌≢◌, refl, ap, ◌∙◌, Bool, true, false,
  ◌||◌, arith, ◌==◌, if◌then◌else◌, inl, inr, ◌⊎◌, Bool-cases, Option, none, some, ltb, leb, u32,
  update, List, [], ◌∷◌, ◌++◌, length, length-append, get_or,
}
use valecium.Prelude.{sub32}
use valecium.Mem.Memory.{Memory}
use valecium.Sys.Elf.{store}

-- `Process`, the fields that are used; `saved_regs` has `esp` and `ebp`.
pub record UserProcess : Type 0 where
  pub page_directory : ℕ
  pub stack_start : ℕ
  pub stack_end : ℕ
  pub esp : ℕ
  pub ebp : ℕ
  pub saved_regs : Option (ℕ × ℕ)

abbrev pub stack_headroom : ℕ
stack_headroom = 64

-- A word of 32 bits in memory.
unfoldable pub store_word : ℕ → ℕ → Memory → Memory
store_word a w m =
    update
      (update (update (update m a (w % 256)) (a + 1) (w / 256 % 256)) (a + 2) (w / 65536 % 256))
      (a + 3) (w / 16777216 % 256)

-- The six words under the name, from `sp` down.
unfoldable pub push_words : ℕ → ℕ → Memory → Memory
push_words sp argv0 m = store_word (sp - 24) 1 (
    store_word (sp - 20) argv0 (
      store_word (sp - 16) 0
        (store_word (sp - 12) 0 (store_word (sp - 8) 0 (store_word (sp - 4) 0 m)))))

unfoldable pub setup_initial_user_stack :
    List ℕ → UserProcess → Memory → Bool × (UserProcess × Memory)
setup_initial_user_stack filename proc m =
    let argv0_len = length filename + 1 in
    let top = sub32 proc.stack_end stack_headroom in
    let argv0 = sub32 top argv0_len in
    let sp = argv0 - argv0 % 4 in
    let esp = sub32 sp 24 in
    if proc.page_directory == 0 || proc.stack_end == 0
    then (false, (proc, m))
    else if leb proc.stack_end (u32 (proc.stack_start + stack_headroom))
    then (false, (proc, m))
    else if ltb top (u32 (proc.stack_start + argv0_len + 24))
    then (false, (proc, m))
    else (
      true,
      (
        record proc {
          esp = esp;
          ebp = esp;
          saved_regs = elim proc.saved_regs [ none ↦ none | some regs ↦ some (esp, esp) ];
        },
        push_words sp argv0 (store m argv0 (filename ++ (0 ∷ []))),
      ),
    )

-- The word at an address.
abbrev pub load_word : Memory → ℕ → ℕ
load_word m a = m a + 256 * m (a + 1) + 65536 * m (a + 2) + 16777216 * m (a + 3)

load-store_word : (m : Memory) (a w : ℕ) → w < 2 ^ 32 → load_word (store_word a w m) a ≡ w
unfolding store_word
load-store_word m a w small = ground arith

store_word_away : (m : Memory) (a w b : ℕ) → (b < a) ⊎ (a + 4 ≤ b) → store_word a w m b ≡ m b
unfolding store_word
store_word_away m a w b away = ground arith

store_away :
    (cs : List ℕ) (m : Memory) (dest a : ℕ)
    → (a < dest) ⊎ (dest + length cs ≤ a)
    → store m dest cs a ≡ m a
unfolding store
store_away [] m dest a away = refl
store_away (c ∷ cs) m dest a away = ground (arith, store_away cs (update m dest c) (dest + 1) a)

load_word_away :
    (m : Memory) (a w b : ℕ)
    → (b + 4 ≤ a) ⊎ (a + 4 ≤ b)
    → load_word (store_word a w m) b ≡ load_word m b
load_word_away m a w b away = rw (
  store_word_away m a w b (ground arith),
  store_word_away m a w (b + 1) (ground arith),
  store_word_away m a w (b + 2) (ground arith),
  store_word_away m a w (b + 3) (ground arith),
)

store_char_at :
    (cs : List ℕ) (m : Memory) (dest i : ℕ)
    → i < length cs
    → store m dest cs (dest + i) ≡ get_or cs i 0
unfolding store
store_char_at [] m dest i lt = absurd (omega arith)
store_char_at (c ∷ cs) m dest zero lt =
    store_away cs (update m dest c) (dest + 1) (dest + 0) (inl (omega arith)) ∙ ground arith
store_char_at (c ∷ cs) m dest (suc i) lt =
    let next : dest + suc i ≡ dest + 1 + i = omega arith in
    rw next (store_char_at cs (update m dest c) (dest + 1) i (omega arith))

-- The six words that are under the name.
record Words (m : Memory) (esp argv0 : ℕ) : Type 0 where
  argc : load_word m esp ≡ 1
  argv : load_word m (esp + 4) ≡ argv0
  argv_end : load_word m (esp + 8) ≡ 0
  envp_end : load_word m (esp + 12) ≡ 0
  auxv_kind : load_word m (esp + 16) ≡ 0
  auxv_value : load_word m (esp + 20) ≡ 0

push_words-Words :
    (esp argv0 : ℕ) (m : Memory) → argv0 < 2 ^ 32 → Words (push_words (esp + 24) argv0 m) esp argv0
unfolding push_words
push_words-Words esp argv0 m small =
    let e0 : esp + 24 - 24 ≡ esp = omega arith in
    let e1 : esp + 24 - 20 ≡ esp + 4 = omega arith in
    let e2 : esp + 24 - 16 ≡ esp + 8 = omega arith in
    let e3 : esp + 24 - 12 ≡ esp + 12 = omega arith in
    let e4 : esp + 24 - 8 ≡ esp + 16 = omega arith in
    let e5 : esp + 24 - 4 ≡ esp + 20 = omega arith in
    let m5 = store_word (esp + 20) 0 m in
    let m4 = store_word (esp + 16) 0 m5 in
    let m3 = store_word (esp + 12) 0 m4 in
    let m2 = store_word (esp + 8) 0 m3 in
    let m1 = store_word (esp + 4) argv0 m2 in
    let over0 = λ (b : ℕ) (far : esp + 4 ≤ b). load_word_away m1 esp 1 b (inr far) in
    let over1 = λ (b : ℕ) (far : esp + 8 ≤ b).
      over0 b (omega arith) ∙ load_word_away m2 (esp + 4) argv0 b (inr (omega arith)) in
    let over2 = λ (b : ℕ) (far : esp + 12 ≤ b).
      over1 b (omega arith) ∙ load_word_away m3 (esp + 8) 0 b (inr (omega arith)) in
    let over3 = λ (b : ℕ) (far : esp + 16 ≤ b).
      over2 b (omega arith) ∙ load_word_away m4 (esp + 12) 0 b (inr (omega arith)) in
    let over4 = λ (b : ℕ) (far : esp + 20 ≤ b).
      over3 b (omega arith) ∙ load_word_away m5 (esp + 16) 0 b (inr (omega arith)) in
    rw (e0, e1, e2, e3, e4, e5)
      (record {
        argc = load-store_word m1 esp 1 (omega arith);
        argv = over0 (esp + 4) (omega arith) ∙ load-store_word m2 (esp + 4) argv0 small;
        argv_end = over1 (esp + 8) (omega arith) ∙ load-store_word m3 (esp + 8) 0 (omega arith);
        envp_end = over2 (esp + 12) (omega arith) ∙ load-store_word m4 (esp + 12) 0 (omega arith);
        auxv_kind = over3 (esp + 16) (omega arith) ∙ load-store_word m5 (esp + 16) 0 (omega arith);
        auxv_value = over4 (esp + 20) (omega arith) ∙ load-store_word m (esp + 20) 0 (omega arith);
      })

push_words_away :
    (esp argv0 : ℕ) (m : Memory) (a : ℕ)
    → (a < esp) ⊎ (esp + 24 ≤ a)
    → push_words (esp + 24) argv0 m a ≡ m a
unfolding push_words
push_words_away esp argv0 m a away =
    let m5 = store_word (esp + 24 - 4) 0 m in
    let m4 = store_word (esp + 24 - 8) 0 m5 in
    let m3 = store_word (esp + 24 - 12) 0 m4 in
    let m2 = store_word (esp + 24 - 16) 0 m3 in
    let m1 = store_word (esp + 24 - 20) argv0 m2 in
    store_word_away m1 (esp + 24 - 24) 1 a (ground arith)
    ∙ store_word_away m2 (esp + 24 - 20) argv0 a (ground arith)
    ∙ store_word_away m3 (esp + 24 - 16) 0 a (ground arith)
    ∙ store_word_away m4 (esp + 24 - 12) 0 a (ground arith)
    ∙ store_word_away m5 (esp + 24 - 8) 0 a (ground arith)
    ∙ store_word_away m (esp + 24 - 4) 0 a (ground arith)

-- The first stack of a process: argc is 1, argv has the name and ends, the environment and the
-- auxiliary vector are empty; the name with its end lies above, under the headroom, and everything
-- is inside the stack, at an address divisible by 4.
pub record FirstStack (filename : List ℕ) (proc : UserProcess) (m m' : Memory) (esp : ℕ)
    : Type 0 where
  pub argv0 : ℕ
  pub argc : load_word m' esp ≡ 1
  pub argv : load_word m' (esp + 4) ≡ argv0
  pub argv_end : load_word m' (esp + 8) ≡ 0
  pub envp_end : load_word m' (esp + 12) ≡ 0
  pub auxv_kind : load_word m' (esp + 16) ≡ 0
  pub auxv_value : load_word m' (esp + 20) ≡ 0
  pub name : (i : ℕ) → i < length filename + 1 → m' (argv0 + i) ≡ get_or filename i 0
  pub under : argv0 + length filename + 1 + 64 ≡ proc.stack_end
  pub above : esp + 24 ≤ argv0
  pub inside : proc.stack_start ≤ esp
  pub aligned : esp % 4 ≡ 0
  pub kept : (a : ℕ) → (a < esp) ⊎ (proc.stack_end ≤ a + 64) → m' a ≡ m a

get_or-end : (cs : List ℕ) (i : ℕ) → get_or (cs ++ (0 ∷ [])) i 0 ≡ get_or cs i 0
get_or-end [] zero = refl
get_or-end [] (suc i) = refl
get_or-end (c ∷ cs) zero = refl
get_or-end (c ∷ cs) (suc i) = get_or-end cs i

-- Memory with the name and the words.
laid_out :
    (filename : List ℕ) (proc : UserProcess) (m : Memory) (argv0 esp : ℕ)
    → proc.stack_end < 2 ^ 32
    → argv0 + length filename + 1 + 64 ≡ proc.stack_end
    → esp + 24 ≤ argv0
    → proc.stack_start ≤ esp
    → esp % 4 ≡ 0
    → FirstStack filename proc m
        (push_words (esp + 24) argv0 (store m argv0 (filename ++ (0 ∷ []))))
        esp
laid_out filename proc m argv0 esp fits under above inside aligned =
    let named = store m argv0 (filename ++ (0 ∷ [])) in
    let whole = length-append filename (0 ∷ []) in
    let words = push_words-Words esp argv0 named (omega arith) in
    record {
      argv0 = argv0;
      argc = words.argc;
      argv = words.argv;
      argv_end = words.argv_end;
      envp_end = words.envp_end;
      auxv_kind = words.auxv_kind;
      auxv_value = words.auxv_value;
      name = λ i lt.
          push_words_away esp argv0 named (argv0 + i) (inr (omega arith))
          ∙ store_char_at (filename ++ (0 ∷ [])) m argv0 i (omega (arith, whole))
          ∙ get_or-end filename i;
      under = under;
      above = above;
      inside = inside;
      aligned = aligned;
      kept = λ a away.
          push_words_away esp argv0 named a (ground arith)
          ∙ store_away (filename ++ (0 ∷ [])) m argv0 a (ground (arith, whole));
    }

setup_result :
    (filename : List ℕ) (proc : UserProcess) (m : Memory)
    → (proc.page_directory == 0) ≡ false
    → (proc.stack_end == 0) ≡ false
    → leb proc.stack_end (u32 (proc.stack_start + stack_headroom)) ≡ false
    → ltb
        (sub32 proc.stack_end stack_headroom)
        (u32 (proc.stack_start + (length filename + 1) + 24))
      ≡ false
    → setup_initial_user_stack filename proc m ≡ (
        let argv0 = sub32 (sub32 proc.stack_end stack_headroom) (length filename + 1) in
        let sp = argv0 - argv0 % 4 in
        let esp = sub32 sp 24 in
        (
          true,
          (
            record proc {
              esp = esp;
              ebp = esp;
              saved_regs = elim proc.saved_regs [ none ↦ none | some regs ↦ some (esp, esp) ];
            },
            push_words sp argv0 (store m argv0 (filename ++ (0 ∷ []))),
          ),
        ))
unfolding setup_initial_user_stack
setup_result filename proc m there real over room =
    rw (setup_initial_user_stack, there, real, over, room) refl

-- `setup_initial_user_stack` of a process with a page directory, whose stack begins at an address
-- divisible by 4: if the stack has less than 89 bytes besides the characters of the name, it fails
-- and changes nothing; else it lays out the first stack, and `esp` and `ebp` point to it.
pub setup_initial_user_stack-FirstStack :
    (filename : List ℕ) (proc : UserProcess) (m : Memory)
    → proc.page_directory ≢ 0
    → proc.stack_start % 4 ≡ 0
    → proc.stack_end < 2 ^ 32
    → proc.stack_start + length filename + 89 < 2 ^ 32
    → ((proc.stack_end < proc.stack_start + length filename + 89)
        × (setup_initial_user_stack filename proc m ≡ (false, (proc, m))))
      ⊎ ((proc.stack_start + length filename + 89 ≤ proc.stack_end)
          × ((setup_initial_user_stack filename proc m).0 ≡ true)
          × ((setup_initial_user_stack filename proc m).1.0.esp
              ≡ (setup_initial_user_stack filename proc m).1.0.ebp)
          × FirstStack filename proc m
              (setup_initial_user_stack filename proc m).1.1
              ((setup_initial_user_stack filename proc m).1.0.esp))
unfolding setup_initial_user_stack
setup_initial_user_stack-FirstStack filename proc m paged even fits small =
    let len = length filename + 1 in
    let top = sub32 proc.stack_end stack_headroom in
    let argv0 = sub32 top len in
    let sp = argv0 - argv0 % 4 in
    elim (Bool-cases (ltb proc.stack_end (proc.stack_start + length filename + 89))) [
      | inl short ↦ inl (ground arith, ground arith)
      | inr enough ↦
          let there : (proc.page_directory == 0) ≡ false = ground arith in
          let real : (proc.stack_end == 0) ≡ false = ground arith in
          let over : leb proc.stack_end (u32 (proc.stack_start + stack_headroom)) ≡ false =
            ground arith in
          let room : ltb top (u32 (proc.stack_start + len + 24)) ≡ false = ground arith in
          let le : proc.stack_start + length filename + 89 ≤ proc.stack_end = ground arith in
          let under : argv0 + length filename + 1 + 64 ≡ proc.stack_end = omega arith in
          let sunk : sub32 sp 24 + 24 ≡ sp = omega arith in
          let esp = sub32 sp 24 in
          let low : esp + 24 ≤ argv0 = omega arith in
          let high : proc.stack_start ≤ esp = omega arith in
          let four : esp % 4 ≡ 0 = omega arith in
          let laid = rw sunk at (laid_out filename proc m argv0 esp fits under low high four) in
          let rest = setup_result filename proc m there real over room in
          inr (le, ap (λ (r : Bool × (UserProcess × Memory)). r.0) rest, rw rest refl, rw rest laid)
    ]

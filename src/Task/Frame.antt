-- ===== src/Task/Frame.antt =====
-- The stack of a new task.
use mathlib.Core.List.{reverse-cons}
use crusader_os_v.Base.{
  ℕ, zero, suc, ◌+◌, ◌-◌, ◌*◌, ◌≤◌, ◌<◌, ◌≡◌, ◌≢◌, refl, sym, ◌∙◌, ap, arith, List, [], ◌∷◌, ◌++◌,
  length, ◌==◌, leb, update, reverse, Bool-cases, leb→le, ==_refl, ◌⊎◌, inl, inr,
}
use crusader_os_v.Pmm.{pmm_alloc_block}
use crusader_os_v.Task.{Kernel, task_ready, create_task, push_all, first_frame, max_tasks}

-- The `n` words of the memory from an address up.
unfoldable pub words_at : ℕ → ℕ → (ℕ → ℕ) → List ℕ
words_at zero addr memory = []
words_at (suc n) addr memory = memory addr ∷ words_at n (addr + 4) memory

-- What interrupt.s pops for a new task: the segment registers, `popa`, the number and the error code that it
-- skips, the frame of `iret`, and the address that the task returns to.
abbrev pub popped : ℕ → ℕ → List ℕ
popped task_exit entry_point =
    0x18 ∷ 0x18 ∷ 0x18 ∷ 0x18 ∷ 0 ∷ 0 ∷ 0 ∷ 0 ∷ 0 ∷ 0 ∷ 0 ∷ 0 ∷ 32 ∷ 0 ∷ entry_point ∷ 0x10 ∷ 0x202
    ∷ task_exit ∷ []

words_at-snoc :
    (n addr : ℕ) (memory : ℕ → ℕ)
    → words_at (suc n) addr memory ≡ words_at n addr memory ++ memory (addr + 4 * n) ∷ []
unfolding words_at
words_at-snoc zero addr memory = ap (λ a. memory a ∷ []) (omega arith)
words_at-snoc (suc n) addr memory =
    let e : addr + 4 + 4 * n ≡ addr + 4 * suc n = omega arith in
    ap (λ t. memory addr ∷ t)
      (words_at-snoc n (addr + 4) memory
        ∙ ap (λ a. words_at n (addr + 4) memory ++ memory a ∷ []) e)

-- Pushing leaves what lies above the stack pointer alone.
push_all-above :
    (ws : List ℕ) (top a : ℕ) (memory : ℕ → ℕ)
    → top ≤ a
    → 4 * length ws ≤ top
    → ((push_all ws top memory).1 a ≡ memory a) × ((push_all ws top memory).0 + 4 * length ws ≡ top)
unfolding push_all
push_all-above [] top a memory l m = (refl, omega arith)
push_all-above (w ∷ ws) top a memory l m =
    let (same, end) =
      push_all-above ws (top - 4) a (update memory (top - 4) w) (omega arith) (omega arith) in
    (same ∙ ground arith, omega arith)

-- What was pushed lies in the reverse order from the stack pointer up.
push_all-words_at :
    (ws : List ℕ) (top : ℕ) (memory : ℕ → ℕ)
    → 4 * length ws ≤ top
    → words_at (length ws) (push_all ws top memory).0 (push_all ws top memory).1 ≡ reverse ws
unfolding push_all words_at
push_all-words_at [] top memory l = refl
push_all-words_at (w ∷ ws) top memory l =
    let memory' = update memory (top - 4) w in
    let (same, end) = push_all-above ws (top - 4) (top - 4) memory' (omega arith) (omega arith) in
    let at : (push_all ws (top - 4) memory').0 + 4 * length ws ≡ top - 4 = end in
    let pushed : (push_all ws (top - 4) memory').1 (top - 4) ≡ w = same ∙ ground arith in
    words_at-snoc (length ws) (push_all ws (top - 4) memory').0 (push_all ws (top - 4) memory').1
    ∙ rw (at, pushed)
        (ap (λ t. t ++ w ∷ []) (push_all-words_at ws (top - 4) memory' (omega arith))
          ∙ sym (reverse-cons w ws))

-- The new task's stack holds exactly what the end of the interrupt pops, if there is room for it and a frame
-- for its stack; it is ready, its id is its index, and no other task changes. Otherwise there is no new task.
pub create_task_lem :
    (entry_point : ℕ) (s : Kernel)
    → (((max_tasks ≤ s.num_tasks) ⊎ ((pmm_alloc_block s.pmm).0 ≡ 0))
        × ((create_task entry_point s).tasks ≡ s.tasks)
        × ((create_task entry_point s).memory ≡ s.memory)
        × ((create_task entry_point s).num_tasks ≡ s.num_tasks))
      ⊎ ((s.num_tasks < max_tasks)
          × ((create_task entry_point s).num_tasks ≡ s.num_tasks + 1)
          × (((create_task entry_point s).tasks s.num_tasks).pid ≡ s.num_tasks)
          × (((create_task entry_point s).tasks s.num_tasks).state ≡ task_ready)
          × (words_at 18
                ((create_task entry_point s).tasks s.num_tasks).esp
                (create_task entry_point s).memory
              ≡ popped s.task_exit entry_point)
          × ((t : ℕ) → t ≢ s.num_tasks → (create_task entry_point s).tasks t ≡ s.tasks t))
unfolding create_task
create_task_lem entry_point s = elim (Bool-cases (leb max_tasks s.num_tasks)) [
  | inl full ↦
      rw (create_task, full) (inl (inl (leb→le max_tasks s.num_tasks full), refl, refl, refl))
  | inr room ↦ elim (Bool-cases ((pmm_alloc_block s.pmm).0 == 0)) [
    | inl null ↦ rw (create_task, room, null) (inl (inr (ground arith), refl, refl, refl))
    | inr block ↦
        rw (create_task, room, block)
          (inr (
            ground arith,
            refl,
            ground arith,
            ground arith,
            rw (==_refl s.num_tasks) (
                push_all-words_at (first_frame s.task_exit entry_point)
                  ((pmm_alloc_block s.pmm).0 + 4096) s.memory (omega arith)),
            λ t ne. ground arith,
          ))
  ]
]

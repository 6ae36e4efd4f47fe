-- ===== src/Task.antt =====
-- The tasks of task.c: creation, with the first stack of a task, and the round-robin switch in the
-- timer interrupt. Task pointers and stacks are addresses; the memory is a function from an address.
pub mod RoundRobin
pub mod Frame
use crusader_os_v.Base.{
  ℕ, zero, suc, ◌+◌, ◌-◌, ◌%◌, ◌^◌, Bool, true, false, List, [], ◌∷◌, ◌==◌, leb, if◌then◌else◌,
  update,
}
use crusader_os_v.Base.Int.{ℤ, pos, negsuc}
use crusader_os_v.Pmm.{Pmm, pmm_alloc_block}

abbrev pub max_tasks : ℕ
max_tasks = 16

-- `task_state_t`
pub data TaskState : Type 0 where
  task_ready : TaskState
  task_running : TaskState
  task_sleeping : TaskState
  task_dead : TaskState

-- What task.c uses of `task_t`.
pub record Task : Type 0 where
  pub esp : ℕ
  pub pid : ℕ
  pub state : TaskState

-- The globals; `task_exit` is the address of that function, `memory` the word at an address.
pub record Kernel : Type 0 where
  pub tasks : ℕ → Task
  pub current_task : ℤ
  pub num_tasks : ℕ
  pub system_ticks : ℕ
  pub memory : ℕ → ℕ
  pub pmm : Pmm
  pub task_exit : ℕ

unfoldable pub init_multitasking : Kernel → Kernel
init_multitasking s = record s {
  tasks = update s.tasks 0 (record (s.tasks 0) { pid = 0; state = task_running });
  num_tasks = 1;
  current_task = pos 0;
}

-- `current_task + 1`, where the -1 of the start becomes 0.
abbrev pub next_index : ℤ → ℕ
next_index (pos c) = c + 1
next_index (negsuc n) = 0

abbrev pub save_esp : ℤ → ℕ → (ℕ → Task) → ℕ → Task
save_esp (pos c) esp tasks = update tasks c (record (tasks c) { esp = esp })
save_esp (negsuc n) esp tasks = tasks

-- The stack pointer to go on with.
unfoldable pub schedule_handler : ℕ → Kernel → ℕ × Kernel
schedule_handler esp s =
    let s : Kernel = record s { system_ticks = (s.system_ticks + 1) % 2 ^ 32 } in
    if leb s.num_tasks 1
    then (esp, s)
    else (let tasks = save_esp s.current_task esp s.tasks in
        let next = next_index s.current_task in
        let next = if leb s.num_tasks next then 0 else next in
        ((tasks next).esp, record s { tasks = tasks; current_task = pos next }))

-- `*(--stack) = word`, for each of the words.
unfoldable pub push_all : List ℕ → ℕ → (ℕ → ℕ) → ℕ × (ℕ → ℕ)
push_all [] stack memory = (stack, memory)
push_all (word ∷ words) stack memory = push_all words (stack - 4) (update memory (stack - 4) word)

-- The words that `create_task` pushes: the return address, the frame of the interrupt, the registers of
-- `pusha` and the four segment registers.
abbrev pub first_frame : ℕ → ℕ → List ℕ
first_frame task_exit entry_point =
    task_exit ∷ 0x202 ∷ 0x10 ∷ entry_point ∷ 0 ∷ 32 ∷ 0 ∷ 0 ∷ 0 ∷ 0 ∷ 0 ∷ 0 ∷ 0 ∷ 0 ∷ 0x18 ∷ 0x18
    ∷ 0x18 ∷ 0x18 ∷ []

unfoldable pub create_task : ℕ → Kernel → Kernel
create_task entry_point s =
    if leb max_tasks s.num_tasks
    then s
    else (let (stack_mem, pmm) = pmm_alloc_block s.pmm in
        let s : Kernel = record s { pmm = pmm } in
        if stack_mem == 0
        then s
        else (let (stack, memory) =
              push_all (first_frame s.task_exit entry_point) (stack_mem + 4096) s.memory in
            record s {
              memory = memory;
              tasks = update s.tasks s.num_tasks (record (s.tasks s.num_tasks) {
                esp = stack;
                pid = s.num_tasks;
                state = task_ready;
              });
              num_tasks = s.num_tasks + 1;
            }))

-- ===== src/Task/RoundRobin.antt =====
-- The switch goes round the tasks, and each task comes back with the stack it was stopped with.
use crusader_os_v.Base.{
  ℕ, suc, ◌+◌, ◌-◌, ◌<◌, ◌≡◌, ◌∙◌, ap, arith, List, [], ◌∷◌, length, ◌==◌, leb, if◌then◌else◌,
}
use crusader_os_v.Base.Int.{pos}
use crusader_os_v.Task.{Kernel, schedule_handler}

-- The switches of a list of ticks, each with the stack pointer that it finds; the last result.
unfoldable pub ticks : List ℕ → ℕ → Kernel → ℕ × Kernel
ticks [] last s = (last, s)
ticks (esp ∷ esps) last s = let (r, s') = schedule_handler esp s in ticks esps r s'

-- The task after `c`.
abbrev pub after : ℕ → ℕ → ℕ
after n c = if leb n (c + 1) then 0 else c + 1

-- One switch among several tasks: the stack pointer of the task that ran is saved, no other changes, the
-- next task is current and the result is its stack pointer.
schedule_handler_lem :
    (esp c : ℕ) (s : Kernel)
    → 1 < s.num_tasks
    → s.current_task ≡ pos c
    → c < s.num_tasks
    → ((schedule_handler esp s).1.current_task ≡ pos (after s.num_tasks c))
      × ((schedule_handler esp s).0 ≡ (s.tasks (after s.num_tasks c)).esp)
      × ((schedule_handler esp s).1.num_tasks ≡ s.num_tasks)
      × ((t : ℕ)
          → ((schedule_handler esp s).1.tasks t).esp ≡ (if t == c then esp else (s.tasks t).esp))
unfolding schedule_handler
schedule_handler_lem esp c s l h b = ground arith

-- The task `d` places on from `c` among `n`.
abbrev place : ℕ → ℕ → ℕ → ℕ
place n c d = if leb n (c + d) then c + d - n else c + d

ticks_lem :
    (esps : List ℕ) (esp last c : ℕ) (s : Kernel)
    → s.current_task ≡ pos c
    → c < s.num_tasks
    → suc (length esps) < s.num_tasks
    → ((ticks (esp ∷ esps) last s).0 ≡ (s.tasks (place s.num_tasks c (suc (length esps)))).esp)
      × ((ticks (esp ∷ esps) last s).1.current_task ≡ pos (place s.num_tasks c (suc (length esps))))
unfolding ticks
ticks_lem [] esp last c s h b l = ground (arith, schedule_handler_lem esp c s (omega arith) h b)
ticks_lem (esp' ∷ esps) esp last c s h b l =
    let s' = (schedule_handler esp s).1 in
    let (current, resumed, same, saved) = schedule_handler_lem esp c s (omega arith) h b in
    let (result, current') =
      ticks_lem esps esp' (schedule_handler esp s).0 (after s.num_tasks c) s' current (ground arith)
        (ground arith) in
    let target : place s'.num_tasks (after s.num_tasks c) (suc (length esps))
        ≡ place s.num_tasks c (suc (suc (length esps))) =
      ground arith in
    (
      result ∙ saved (place s'.num_tasks (after s.num_tasks c) (suc (length esps))) ∙ ground arith,
      current' ∙ ap pos target,
    )

-- Among several tasks, once round: after as many ticks as there are tasks, the task that ran at the first tick
-- is current again, and it goes on with the stack pointer with which that tick stopped it.
pub ticks-round :
    (esps : List ℕ) (esp last c : ℕ) (s : Kernel)
    → 1 < s.num_tasks
    → s.current_task ≡ pos c
    → c < s.num_tasks
    → suc (length esps) ≡ s.num_tasks
    → ((ticks (esp ∷ esps) last s).0 ≡ esp) × ((ticks (esp ∷ esps) last s).1.current_task ≡ pos c)
unfolding ticks
ticks-round [] esp last c s m h b l = absurd (omega arith)
ticks-round (esp' ∷ esps) esp last c s m h b l =
    let s' = (schedule_handler esp s).1 in
    let (current, resumed, same, saved) = schedule_handler_lem esp c s m h b in
    let (result, current') =
      ticks_lem esps esp' (schedule_handler esp s).0 (after s.num_tasks c) s' current (ground arith)
        (ground arith) in
    let target : place s'.num_tasks (after s.num_tasks c) (suc (length esps)) ≡ c = ground arith in
    (
      result ∙ saved (place s'.num_tasks (after s.num_tasks c) (suc (length esps))) ∙ ground arith,
      current' ∙ ap pos target,
    )

-- ===== src/Tests.antt =====
-- Runs of the other parts on concrete inputs.
use crusader_os_v.Base.{
  get_or, ◌⊎◌, true, false, length, ◌-◌, ◌^◌, ◌<◌, ◌≤◌, ℕ, zero, suc, ◌+◌, ◌/◌, ◌%◌, ◌^◌, ◌<◌, ◌≤◌,
  ◌≡◌, ◌≢◌, ◌⊎◌, refl, arith, true, false, some, List, [], ◌∷◌, ◌++◌, codes, map, take, ◌==◌,
  if◌then◌else◌,
}
use crusader_os_v.Base.Int.{pos, negsuc}
use crusader_os_v.Bitmap
use crusader_os_v.Disk.{Disk, block_read, block_write}
use crusader_os_v.Disk.Laws.{block_read-block_write}
use crusader_os_v.Division.{udivdi3, umoddi3}
use crusader_os_v.Division.Laws.{udivdi3_lem}
use crusader_os_v.Text.{c_string}
use crusader_os_v.Text.Numbers.{itoa, atoi}
use crusader_os_v.Text.Decimal.{pattern_of, atoi-itoa}
use crusader_os_v.Paging.{Paging, map_page}
use crusader_os_v.Paging.Tables.{IsPaging}
use crusader_os_v.Paging.Translate.{Mapped, map_page_lem}
use crusader_os_v.Pmm.{
  Pmm, pmm_init, pmm_init_region, pmm_alloc_block, pmm_free_block, max_blocks, block_size,
}
use crusader_os_v.Pmm.Alloc.{IsExhausted, Taken, pmm_alloc_block_lem}
use crusader_os_v.Pmm.Count.{IsCounted, pmm_init_region-IsCounted, pmm_alloc_block-IsCounted}
use crusader_os_v.Task.{Kernel, task_ready, max_tasks, create_task}
use crusader_os_v.Task.RoundRobin.{ticks, ticks-round}
use crusader_os_v.Task.Frame.{words_at, popped, create_task_lem}
use crusader_os_v.Rtc.{Cmos, DateTime, rtc_updating, rtc_get_datetime}
use crusader_os_v.Rtc.Laws.{to_bcd, Shows, rtc_get_datetime-Shows}
use crusader_os_v.Keyboard.Laws.{KeyEvent, key, extended_key, shift_key}
use crusader_os_v.Terminal.{
  Terminal, klog, prompt, arguments, run_line, execute_command, end_line, string_at, cut_buf,
  skip_spaces, cut_word, terminal_key, keys,
}
use crusader_os_v.Terminal.Line.{line_of, arguments-line_of}
use crusader_os_v.Terminal.Laws.{IsTerminal, echo, terminal_key-IsTerminal, keys-line}
use crusader_os_v.Console
use crusader_os_v.Vesa.{Vesa, vesa_draw_rec}
use crusader_os_v.Vesa.Pixels.{pixel_byte, vesa_draw_rec_lem}
use crusader_os_v.Console.Bounds.{StaysOnGrid, klog-IsOnGrid}
use crusader_os_v.Console.Format.{llu_text}
use crusader_os_v.Console.Format.Laws.{decimal_value, AreDigits, llu_text_lem}
use crusader_os_v.Console.Status.{StatusLog, klog_status}
use crusader_os_v.Console.Status.Laws.{shown, add_last, klog_status_lem}

abbrev empty_disk : Disk
empty_disk = record { ata_base = 0x1f0; is_slave = 0; media = λ _ _ _ _. 0 }

block_read-block_write_example :
    block_read 7 (block_write 8 (λ _. 5) empty_disk)
    ≡ (if 7 % 2 ^ 28 == 8 % 2 ^ 28 then (λ _. 5) else block_read 7 empty_disk)
block_read-block_write_example = block_read-block_write 7 8 (λ _. 5) empty_disk

udivdi3_lem_example : (udivdi3 1000 7 ≡ 142) × (umoddi3 1000 7 ≡ 6)
udivdi3_lem_example = udivdi3_lem 1000 7 (omega arith) (omega arith)

abbrev pmm : Pmm
pmm = record { bitmap = λ k. if k == 0 then 1 else 0; used_blocks = 1 }

pmm_alloc_block_lem_example :
    IsExhausted pmm (pmm_alloc_block pmm).0 (pmm_alloc_block pmm).1
    ⊎ ((i : ℕ) × Taken pmm i (pmm_alloc_block pmm).0 (pmm_alloc_block pmm).1)
pmm_alloc_block_lem_example = pmm_alloc_block_lem pmm

-- 16 frames from 32 MiB on.
pmm_init_region-IsCounted_example : IsCounted (pmm_init_region 0x200_0000 0x1_0000 (pmm_init pmm))
pmm_init_region-IsCounted_example =
    pmm_init_region-IsCounted 0x200_0000 0x1_0000 pmm (omega arith) (omega arith)

abbrev some_frames : Pmm
some_frames = pmm_init_region 0x200_0000 0x1_0000 (pmm_init pmm)

pmm_init_region-IsCounted_run : IsCounted some_frames
pmm_init_region-IsCounted_run =
    pmm_init_region-IsCounted 0x200_0000 0x1_0000 pmm (omega arith) (omega arith)

pmm_alloc_block-IsCounted_example :
    IsCounted (pmm_alloc_block some_frames).1
    × ((addr : ℕ)
        → addr / block_size < max_blocks
        → Bitmap.test 32 some_frames.bitmap (addr / block_size) ≡ 1
        → IsCounted (pmm_free_block addr some_frames))
pmm_alloc_block-IsCounted_example =
    pmm_alloc_block-IsCounted some_frames pmm_init_region-IsCounted_run

-- Three tasks, of which the second runs.
abbrev three_tasks : Kernel
three_tasks = record {
  tasks = λ t. record { esp = 100 + t; pid = t; state = task_ready };
  current_task = pos 1;
  num_tasks = 3;
  system_ticks = 0;
  memory = λ _. 0;
  pmm = pmm;
  task_exit = 5000;
}

ticks-round_example :
    ((ticks (70 ∷ 80 ∷ 90 ∷ []) 0 three_tasks).0 ≡ 70)
    × ((ticks (70 ∷ 80 ∷ 90 ∷ []) 0 three_tasks).1.current_task ≡ pos 1)
ticks-round_example =
    ticks-round (80 ∷ 90 ∷ []) 70 0 1 three_tasks (omega arith) refl (omega arith) refl

create_task_lem_example :
    (((max_tasks ≤ 3) ⊎ ((pmm_alloc_block pmm).0 ≡ 0))
      × ((create_task 9000 three_tasks).tasks ≡ three_tasks.tasks)
      × ((create_task 9000 three_tasks).memory ≡ three_tasks.memory)
      × ((create_task 9000 three_tasks).num_tasks ≡ 3))
    ⊎ ((3 < max_tasks)
        × ((create_task 9000 three_tasks).num_tasks ≡ 4)
        × (((create_task 9000 three_tasks).tasks 3).pid ≡ 3)
        × (((create_task 9000 three_tasks).tasks 3).state ≡ task_ready)
        × (words_at 18
              ((create_task 9000 three_tasks).tasks 3).esp
              (create_task 9000 three_tasks).memory
            ≡ popped 5000 9000)
        × ((t : ℕ) → t ≢ 3 → (create_task 9000 three_tasks).tasks t ≡ three_tasks.tasks t))
create_task_lem_example = create_task_lem 9000 three_tasks

-- The clock on 24 December 2024, 18:30:05, in binary-coded decimal; ready at the second poll.
abbrev christmas_eve : DateTime
christmas_eve = record { year = 24; month = 12; day = 24; hour = 18; min = 30; sec = 5 }

abbrev cmos : Cmos
cmos n reg =
    if reg == 0x0a
    then (if n == 0 then 0x80 else 0)
    else if reg == 0
    then 0x05
    else if reg == 2
    then 0x30
    else if reg == 4
    then 0x18
    else if reg == 7
    then 0x24
    else if reg == 8
    then 0x12
    else if reg == 9
    then 0x24
    else 2

cmos-Shows : Shows christmas_eve false cmos 2
unfolding to_bcd
cmos-Shows = record {
  sec_shown = refl;
  min_shown = refl;
  hour_shown = refl;
  day_shown = refl;
  month_shown = refl;
  year_shown = refl;
  coding = refl;
}

cmos_busy : (j : ℕ) → j < 1 → rtc_updating cmos j ≡ true
unfolding rtc_updating
cmos_busy zero l = refl
cmos_busy (suc j) l = absurd (omega arith)

cmos_ready : rtc_updating cmos 1 ≡ false
unfolding rtc_updating
cmos_ready = refl

rtc_get_datetime-Shows_example :
    rtc_get_datetime 10 cmos ≡ some (record christmas_eve { year = 2024 })
rtc_get_datetime-Shows_example =
    rtc_get_datetime-Shows 10 1 false christmas_eve cmos (omega arith) cmos_busy cmos_ready
      cmos-Shows
      (record {
        sec_range = omega arith;
        min_range = omega arith;
        hour_range = omega arith;
        day_range = omega arith;
        month_range = omega arith;
        year_range = omega arith;
      })

-- Shift and h, then i, then an arrow key.
abbrev greeting : List KeyEvent
greeting =
    shift_key false true ∷ key 0x23 ∷ shift_key false false ∷ key 0x17 ∷ extended_key 0x4b ∷ []

abbrev words : List (List ℕ)
words = codes "wr" ∷ codes "a" ∷ []

arguments-line_of_example : arguments 8 (line_of 1 words (λ _. 1)) ≡ words
arguments-line_of_example =
    arguments-line_of 8 1 words (λ _. 1)
      (
        omega arith,
        (λ e. absurd (omega (arith, e)), (λ e. absurd (omega (arith, e)), tt)),
        (omega arith, (λ e. absurd (omega (arith, e)), tt), tt),
      )

abbrev terminal : Terminal
terminal = record { cmd_buf = λ _. 0; cmd_len = 0 }

-- `w a`, about to be run.
abbrev typed_line : Terminal
typed_line = record { cmd_buf = λ i. get_or (codes "w a") i 0; cmd_len = 3 }

terminal_key-IsTerminal_example :
    IsTerminal (terminal_key [] [] 0 10 typed_line).1
    × ((i : ℕ)
        → 0 < i
        → i ≢ 3
        → ((terminal_key [] [] 0 10 typed_line).1.cmd_buf i ≡ typed_line.cmd_buf i)
          ⊎ ((◌≡◌ {A = ℕ} 10 10)
              × (i < 3)
              × (typed_line.cmd_buf i ≡ 32)
              × ((terminal_key [] [] 0 10 typed_line).1.cmd_buf i ≡ 0)))
terminal_key-IsTerminal_example = terminal_key-IsTerminal [] [] 0 10 typed_line (omega arith)

-- The space becomes a NUL.
cut_space : (terminal_key [] [] 0 10 typed_line).1.cmd_buf 1 ≡ 0
unfolding terminal_key end_line execute_command string_at cut_buf cut_word skip_spaces
cut_space = refl

keys-line_example :
    ((keys (codes "ls" ∷ []) [] 0 (codes "ls" ++ 10 ∷ []) terminal).0
      ≡ map echo (codes "ls")
        ++ klog (10 ∷ []) ∷ run_line (codes "ls" ∷ []) [] 0 (codes "ls")
        ++ klog (10 ∷ []) ∷ prompt ∷ [])
    × ((keys (codes "ls" ∷ []) [] 0 (codes "ls" ++ 10 ∷ []) terminal).1.cmd_len ≡ 0)
keys-line_example =
    keys-line (codes "ls" ∷ []) [] 0 (codes "ls") terminal
      (
        λ e. absurd (omega (arith, e)),
        λ e. absurd (omega (arith, e)),
        λ e. absurd (omega (arith, e)),
        (
          λ e. absurd (omega (arith, e)),
          λ e. absurd (omega (arith, e)),
          λ e. absurd (omega (arith, e)),
          tt,
        ),
      )
      (omega arith) (omega arith) refl

klog-IsOnGrid_example :
    StaysOnGrid (Console.klog true (codes "deus vult"))
    × StaysOnGrid (Console.kklog true (codes "deus vult"))
    × StaysOnGrid (Console.klog_green true (codes "deus vult"))
    × StaysOnGrid (Console.kklog_green true (codes "deus vult"))
    × StaysOnGrid (Console.klog_red true (codes "deus vult"))
    × StaysOnGrid (Console.klog_yellow true (codes "deus vult"))
    × StaysOnGrid (Console.klog_orange true (codes "deus vult"))
    × StaysOnGrid (Console.kklog_red true (codes "deus vult"))
klog-IsOnGrid_example = klog-IsOnGrid true (codes "deus vult")

abbrev one_line : StatusLog
one_line = record { log_buffer = λ _. []; log_colors = λ _. 0; total_logs = 1 }

klog_status_lem_example :
    shown (klog_status (codes "BOOTED") b'g' one_line)
    ≡ add_last (shown one_line) (take 36 (c_string (codes "BOOTED")), 0x00ff00)
klog_status_lem_example = klog_status_lem (codes "BOOTED") b'g' one_line (omega arith)

-- A screen of 640 by 480 pixels.
abbrev screen : Vesa
screen = record {
  vesa_ready = true;
  fb_width = 640;
  fb_height = 480;
  fb_bpp = 32;
  fb_pitch = 2560;
  back = λ _. 0;
  lfb = λ _. 0;
  c_x = 0;
  c_y = 0;
}

-- The corner is at -3 and 20.
vesa_draw_rec_lem_example :
    pixel_byte 4 21 1 (vesa_draw_rec (2 ^ 32 - 3) 20 8 8 0x00ff00 screen) ≡ 255
vesa_draw_rec_lem_example =
    vesa_draw_rec_lem 8 8 (2 ^ 32 - 3) 20 0x00ff00 4 21 1 screen
      (record {
        ready = refl;
        depth = refl;
        columns = omega arith;
        rows = omega arith;
        pitch_wide = omega arith;
        pitch_bound = omega arith;
      })
      (omega arith) (omega arith) (omega arith) (omega arith) (omega arith)

llu_text_lem_example :
    (decimal_value (llu_text 18446744073709551615) ≡ 18446744073709551615)
    × AreDigits (llu_text 18446744073709551615)
    × (0 < length (llu_text 18446744073709551615))
    × (0 < 18446744073709551615
        → 10 ^ (length (llu_text 18446744073709551615) - 1) ≤ 18446744073709551615)
llu_text_lem_example = llu_text_lem 18446744073709551615 (omega arith)

-- -12
atoi-itoa_example : atoi (itoa (negsuc 11) 10) ≡ pattern_of (negsuc 11)
atoi-itoa_example = atoi-itoa (negsuc 11) (omega arith)

-- Empty page tables below 0x1000000.
abbrev tables : Paging
tables = record { page_directory = 0x1_0000; next_free_page = 0x100_0000; memory = λ _. 0 }

tables-IsPaging : IsPaging tables
tables-IsPaging = record {
  directory_page = refl;
  free_page = refl;
  below = omega arith;
  table_free = λ d l there. absurd (there refl);
  distinct = λ d e l m there there' same. absurd (there refl);
}

map_page_lem_example :
    Mapped 0x12_3000 0x4000_0000 3 tables (map_page 0x12_3000 0x4000_0000 3 tables)
map_page_lem_example =
    map_page_lem 0x12_3000 0x4000_0000 3 tables tables-IsPaging (omega arith) (omega arith)

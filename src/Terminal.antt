-- ===== src/Terminal.antt =====
-- The command line of terminal.c: its buffer, and how a line is taken apart and run.
pub mod Line
pub mod Cuts
pub mod Laws
use crusader_os_v.Base.{
  ℕ, zero, suc, ◌+◌, ◌-◌, ◌<◌, Bool, true, false, not, ◌&&◌, List, [], ◌∷◌, ◌++◌, Option, none,
  some, ◌==◌, ltb, if◌then◌else◌, codes, update, length,
}
use crusader_os_v.Base.Int.{is_zero}
use crusader_os_v.Text.{strcmp}

abbrev pub cmd_buf_size : ℕ
cmd_buf_size = 32768

abbrev pub max_args : ℕ
max_args = 8

-- What is done to the rest of the system: text printed, the command of an index run with its arguments, the
-- prompt printed, and a red rectangle drawn.
pub data Event : Type 0 where
  klog : List ℕ → Event
  run : ℕ → List (List ℕ) → Event
  prompt : Event
  red_flash : Event

pub record Terminal : Type 0 where
  pub cmd_buf : ℕ → ℕ
  pub cmd_len : ℕ

-- The string at an index of the buffer, of which `n` bytes are left.
unfoldable pub string_at : ℕ → (ℕ → ℕ) → ℕ → List ℕ
string_at zero buf i = []
string_at (suc n) buf i =
    let rest = string_at n buf (i + 1) in if buf i == 0 then [] else buf i ∷ rest

-- `while (*p == ' ') p++;`
unfoldable pub skip_spaces : List ℕ → List ℕ
skip_spaces [] = []
skip_spaces (c ∷ p) = if c == 32 then skip_spaces p else c ∷ p

-- `while (*p && *p != ' ') p++; if (*p) *p++ = 0;`: the argument that this ends, and `p` after it.
unfoldable pub cut_word : List ℕ → List ℕ × List ℕ
cut_word [] = ([], [])
cut_word (c ∷ p) = let (word, rest) = cut_word p in if c == 32 then ([], p) else (c ∷ word, rest)

-- The arguments of a line, with `n` more allowed.
unfoldable pub arguments : ℕ → List ℕ → List (List ℕ)
arguments zero p = []
arguments (suc n) p = elim (skip_spaces p) [
  | [] ↦ []
  | c ∷ rest ↦ (cut_word (c ∷ rest)).0 ∷ arguments n (cut_word (c ∷ rest)).1
]

-- The NULs that are written behind the words of a line, of which `p` is left, at index `i` of the buffer, and `n` more
-- arguments are allowed.
unfoldable pub cut_buf : ℕ → List ℕ → ℕ → (ℕ → ℕ) → ℕ → ℕ
cut_buf zero p i buf = buf
cut_buf (suc n) p i buf = elim (skip_spaces p) [
  | [] ↦ buf
  | c ∷ rest ↦
      let (word, after) = cut_word (c ∷ rest) in
      let end = i + (length p - length (c ∷ rest)) + length word in
      if ltb (length word) (length (c ∷ rest))
      then cut_buf n after (end + 1) (update buf end 0)
      else buf
]

-- The index of the first command of that name.
unfoldable pub find_command : List ℕ → List (List ℕ) → ℕ → Option ℕ
find_command name [] i = none
find_command name (command ∷ commands) i =
    let rest = find_command name commands (i + 1) in
    if is_zero (strcmp name command) then some i else rest

-- `argv[0]`, which is not set where the line has no argument: `stale` is what stands there.
abbrev pub first_argument : List (List ℕ) → List ℕ → List ℕ
first_argument [] stale = stale
first_argument (word ∷ words) stale = word

module _ (commands : List (List ℕ)) (stale : List ℕ) (c_y : ℕ) where
  -- What a line makes happen.
  unfoldable pub run_line : List ℕ → List Event
  run_line [] = []
  run_line (c ∷ line) =
      let argv = arguments max_args (c ∷ line) in
      elim (find_command (first_argument argv stale) commands 0) [
        | some i ↦ run i argv ∷ []
        | none ↦ klog (codes "sorry buddy we don't know this one\n") ∷ []
      ]

  -- `execute_command(cmd_buf)`: it writes into the buffer.
  unfoldable pub execute_command : (ℕ → ℕ) → List Event × (ℕ → ℕ)
  execute_command buf =
      let line = string_at cmd_buf_size buf 0 in (run_line line, cut_buf max_args line 0 buf)

  -- `cmd_buf[cmd_len] = 0; klog("\n"); execute_command(cmd_buf); cmd_len = 0;`
  unfoldable pub end_line : Terminal → List Event × Terminal
  end_line s =
      let (events, buf) = execute_command (update s.cmd_buf s.cmd_len 0) in
      (klog (10 ∷ []) ∷ events, record { cmd_buf = buf; cmd_len = 0 })

  -- The height of the cursor decides about the rectangle at the end.
  unfoldable pub terminal_key : ℕ → Terminal → List Event × Terminal
  terminal_key c s =
      if c == 0
      then ([], s)
      else if c == 10
      then (let (first, s) = end_line s in
          let (second, s) = end_line s in (first ++ second ++ prompt ∷ [], s))
      else if c == 8
      then (if ltb 0 s.cmd_len
          then (klog (8 ∷ []) ∷ [], record s { cmd_len = s.cmd_len - 1 })
          else ([], s))
      else (let flash = if ltb 720 c_y then red_flash ∷ [] else [] in
          if ltb s.cmd_len (cmd_buf_size - 1)
          then (
            klog (c ∷ []) ∷ flash,
            record { cmd_buf = update s.cmd_buf s.cmd_len c; cmd_len = s.cmd_len + 1 },
          )
          else (flash, s))

  -- The keys of a list, one after the other.
  unfoldable pub keys : List ℕ → Terminal → List Event × Terminal
  keys [] s = ([], s)
  keys (c ∷ cs) s =
      let (events, s) = terminal_key c s in let (more, s) = keys cs s in (events ++ more, s)

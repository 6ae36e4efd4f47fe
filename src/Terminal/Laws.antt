-- ===== src/Terminal/Laws.antt =====
-- Typing, correcting and running a line.
use mathlib.Core.List.{append_assoc, append-nil}
use crusader_os_v.Base.{
  ℕ, zero, suc, ◌+◌, ◌≤◌, ◌<◌, ◌≡◌, ◌≢◌, refl, sym, ap, ◌∙◌, arith, List, [], ◌∷◌, ◌++◌, length,
  map, get_or, ==_ne, update, ◌⊎◌, inl, inr, ℕ_discrete,
}
use crusader_os_v.Terminal.Cuts.{Cut, cut_buf-Cut, length-string_at, string_at-Holds, string_at-end}
use crusader_os_v.Terminal.{
  Terminal, Event, klog, prompt, string_at, run_line, cut_buf, execute_command, max_args,
  skip_spaces, end_line, terminal_key, keys, cmd_buf_size,
}

-- The index of the buffer is in it, with room for the final NUL.
abbrev pub IsTerminal : Terminal → Type 0
IsTerminal s = s.cmd_len < cmd_buf_size

abbrev pub echo : ℕ → Event
echo c = klog (c ∷ [])

-- A character that is neither a NUL, nor the newline, nor the backspace.
abbrev pub IsText : List ℕ → Type 0
IsText [] = Unit {0}
IsText (c ∷ cs) = (c ≢ 0) × (c ≢ 10) × (c ≢ 8) × IsText cs

module _ (commands : List (List ℕ)) (stale : List ℕ) (c_y : ℕ) where
  -- After the newline: what is at an index other than 0 and the old length is as before, or a space of the line that has become a NUL.
  end_line-Cut :
      (s : Terminal) (i : ℕ)
      → 0 < i
      → i ≢ s.cmd_len
      → Cut 0 s.cmd_len s.cmd_buf (end_line commands stale c_y s).1.cmd_buf i
  unfolding end_line execute_command
  end_line-Cut s i p ne =
      let buf = update s.cmd_buf s.cmd_len 0 in
      let line = string_at cmd_buf_size buf 0 in
      let short : length line ≤ s.cmd_len =
        length-string_at cmd_buf_size buf 0 s.cmd_len (ground arith) in
      elim (cut_buf-Cut max_args line 0 buf i (string_at-Holds cmd_buf_size buf 0)) [
        | inl same ↦ inl (same ∙ ground (arith, ne))
        | inr (from, to, was, is) ↦ inr (omega arith, omega arith, ground (arith, was, ne), is)
      ]

  execute_command-empty :
      (buf : ℕ → ℕ) → buf 0 ≡ 0 → execute_command commands stale c_y buf ≡ ([], buf)
  unfolding execute_command run_line cut_buf skip_spaces
  execute_command-empty buf e = rw (string_at-end cmd_buf_size buf 0 e) refl

  -- The newline runs the line once: at the second pass the line is empty.
  newline_lem :
      (s : Terminal)
      → let (events, t) = end_line commands stale c_y s in
        terminal_key commands stale c_y 10 s
        ≡ (events ++ echo 10 ∷ prompt ∷ [], record { cmd_buf = update t.cmd_buf 0 0; cmd_len = 0 })
  unfolding terminal_key end_line
  newline_lem s =
      let t = (end_line commands stale c_y s).1 in
      rw (execute_command-empty (update t.cmd_buf 0 0) (ground arith)) (
        ap (λ e. (e, record { cmd_buf = update t.cmd_buf 0 0; cmd_len = 0 }))
          (append_assoc (end_line commands stale c_y s).0 (echo 10 ∷ []) (prompt ∷ [])))

  newline_key :
      (s : Terminal)
      → IsTerminal (terminal_key commands stale c_y 10 s).1
        × ((i : ℕ)
            → 0 < i
            → i ≢ s.cmd_len
            → ((terminal_key commands stale c_y 10 s).1.cmd_buf i ≡ s.cmd_buf i)
              ⊎ ((i < s.cmd_len)
                  × (s.cmd_buf i ≡ 32)
                  × ((terminal_key commands stale c_y 10 s).1.cmd_buf i ≡ 0)))
  newline_key s = rw (newline_lem s) (
    omega arith,
    λ i p ne. elim (end_line-Cut s i p ne) [
      | inl same ↦ inl (ground (arith, same))
      | inr (from, to, was, is) ↦ inr (omega arith, was, ground (arith, is))
    ],
  )

  other_key :
      (c : ℕ) (s : Terminal)
      → c ≢ 10
      → IsTerminal s
      → IsTerminal (terminal_key commands stale c_y c s).1
        × ((i : ℕ)
            → i ≢ s.cmd_len
            → (terminal_key commands stale c_y c s).1.cmd_buf i ≡ s.cmd_buf i)
  unfolding terminal_key
  other_key c s other ok = (ground arith, λ i ne. ground arith)

  -- Whatever the key, the length of the command line stays below the size of its buffer, and the key changes no byte of the buffer but those at index 0 and at the old length and, if it is the newline, spaces in front of the old length, which become NULs.
  pub terminal_key-IsTerminal :
      (c : ℕ) (s : Terminal)
      → IsTerminal s
      → IsTerminal (terminal_key commands stale c_y c s).1
        × ((i : ℕ)
            → 0 < i
            → i ≢ s.cmd_len
            → ((terminal_key commands stale c_y c s).1.cmd_buf i ≡ s.cmd_buf i)
              ⊎ ((c ≡ 10)
                  × (i < s.cmd_len)
                  × (s.cmd_buf i ≡ 32)
                  × ((terminal_key commands stale c_y c s).1.cmd_buf i ≡ 0)))
  terminal_key-IsTerminal c s ok = elim (ℕ_discrete c 10) [
    | no other ↦ let (short, same) = other_key c s other ok in (short, λ i p ne. inl (same i ne))
    | yes ten ↦
        let (short, cut) = newline_key s in
        rw ten (
          short,
          λ i p ne. elim (cut i p ne) [
            | inl same ↦ inl same
            | inr (before, space, nul) ↦ inr (refl, before, space, nul)
          ],
        )
  ]

  text_key :
      (c : ℕ) (s : Terminal)
      → c ≢ 0
      → c ≢ 10
      → c ≢ 8
      → suc s.cmd_len < cmd_buf_size
      → c_y ≤ 720
      → terminal_key commands stale c_y c s
        ≡ (echo c ∷ [], record { cmd_buf = update s.cmd_buf s.cmd_len c; cmd_len = s.cmd_len + 1 })
  unfolding terminal_key
  text_key c s a b d room low = ground arith

  -- Text goes into the buffer as it is typed.
  keys-text :
      (line : List ℕ) (s : Terminal)
      → IsText line
      → s.cmd_len + length line < cmd_buf_size
      → c_y ≤ 720
      → ((keys commands stale c_y line s).0 ≡ map echo line)
        × ((keys commands stale c_y line s).1.cmd_len ≡ s.cmd_len + length line)
        × ((i : ℕ) → i < s.cmd_len → (keys commands stale c_y line s).1.cmd_buf i ≡ s.cmd_buf i)
        × ((k : ℕ)
            → k < length line
            → (keys commands stale c_y line s).1.cmd_buf (s.cmd_len + k) ≡ get_or line k 0)
  unfolding keys
  keys-text [] s ok room low = (refl, omega arith, λ i l. refl, λ k l. absurd (omega arith))
  keys-text (c ∷ line) s (a, b, d, ok) room low =
      let s' : Terminal = record {
        cmd_buf = update s.cmd_buf s.cmd_len c;
        cmd_len = s.cmd_len + 1;
      } in
      let (events, len, below, above) = keys-text line s' ok (omega arith) low in
      rw (text_key c s a b d (omega arith) low) (
        ap (λ t. echo c ∷ t) events,
        len ∙ omega arith,
        λ i l. below i (omega arith) ∙ ground arith,
        λ k.
            elim k
              as (λ k.
                k < suc (length line)
                → (keys commands stale c_y line s').1.cmd_buf (s.cmd_len + k)
                  ≡ get_or (c ∷ line) k 0) [
                    | zero ↦ λ l.
                        ap (keys commands stale c_y line s').1.cmd_buf (omega arith)
                        ∙ below s.cmd_len (omega arith)
                        ∙ ground arith
                    | suc k ↦ λ l.
                        ap (keys commands stale c_y line s').1.cmd_buf (omega arith)
                        ∙ above k (omega arith)
                  ],
      )

  string_at-text :
      (line : List ℕ) (n i : ℕ) (buf : ℕ → ℕ)
      → IsText line
      → length line < n
      → ((k : ℕ) → k < length line → buf (i + k) ≡ get_or line k 0)
      → buf (i + length line) ≡ 0
      → string_at n buf i ≡ line
  unfolding string_at
  string_at-text line zero i buf ok room same end = absurd (omega arith)
  string_at-text [] (suc n) i buf ok room same end =
      let z : buf i ≡ 0 = ap buf (omega arith) ∙ end in rw z refl
  string_at-text (c ∷ line) (suc n) i buf (a, b, d, ok) room same end =
      let first : buf i ≡ c = ap buf (omega arith) ∙ same 0 (omega arith) in
      rw (first, ==_ne c 0 a)
        (ap (λ t. c ∷ t)
          (string_at-text line n (i + 1) buf ok (omega arith)
            (λ k l. ap buf (omega arith) ∙ same (suc k) (omega arith))
            (ap buf (omega arith) ∙ end)))

  keys-append :
      (xs : List ℕ) (c : ℕ) (s : Terminal)
      → keys commands stale c_y (xs ++ c ∷ []) s ≡ (
        (keys commands stale c_y xs s).0
            ++ (terminal_key commands stale c_y c (keys commands stale c_y xs s).1).0,
        (terminal_key commands stale c_y c (keys commands stale c_y xs s).1).1,
      )
  unfolding keys
  keys-append [] c s =
      ap (λ t. (t, (terminal_key commands stale c_y c s).1))
        (append-nil (terminal_key commands stale c_y c s).0)
  keys-append (x ∷ xs) c s = rw (keys-append xs c (terminal_key commands stale c_y x s).1) (
      ap
        (λ t. (
          t,
          (terminal_key commands stale c_y c
              (keys commands stale c_y xs (terminal_key commands stale c_y x s).1).1).1,
        ))
        (sym (
          append_assoc (terminal_key commands stale c_y x s).0
            (keys commands stale c_y xs (terminal_key commands stale c_y x s).1).0
            (terminal_key commands stale c_y c
              (keys commands stale c_y xs (terminal_key commands stale c_y x s).1).1).0)))

  newline_events :
      (t : Terminal)
      → ((terminal_key commands stale c_y 10 t).0
          ≡ echo 10
              ∷ run_line commands stale c_y
                  (string_at cmd_buf_size (update t.cmd_buf t.cmd_len 0) 0)
            ++ echo 10 ∷ prompt ∷ [])
        × ((terminal_key commands stale c_y 10 t).1.cmd_len ≡ 0)
  unfolding end_line execute_command
  newline_events t = (ap (λ r. r.0) (newline_lem t), ap (λ r. r.1.cmd_len) (newline_lem t))

  -- A line of text that fits, typed at an empty command line with the cursor at most at height 720, and ended by the
  -- newline: each character is echoed, the line is run once, the prompt follows, and the command line is empty again.
  pub keys-line :
      (line : List ℕ) (s : Terminal)
      → IsText line
      → length line < cmd_buf_size
      → c_y ≤ 720
      → s.cmd_len ≡ 0
      → ((keys commands stale c_y (line ++ 10 ∷ []) s).0
          ≡ map echo line ++ echo 10 ∷ run_line commands stale c_y line ++ echo 10 ∷ prompt ∷ [])
        × ((keys commands stale c_y (line ++ 10 ∷ []) s).1.cmd_len ≡ 0)
  keys-line line s ok room low empty =
      let typed = (keys commands stale c_y line s).1 in
      let (events, len, below, above) = keys-text line s ok (omega arith) low in
      let stored : string_at cmd_buf_size (update typed.cmd_buf typed.cmd_len 0) 0 ≡ line =
        string_at-text line cmd_buf_size 0 (update typed.cmd_buf typed.cmd_len 0) ok room
          (λ k l.
            let e : typed.cmd_buf k ≡ get_or line k 0 =
              (ap typed.cmd_buf (omega arith) ∙ above k l) in
            ground arith)
          (ground arith) in
      let (out, end) = newline_events typed in
      rw (keys-append line 10 s, events, out, stored)
        (
          sym (
              append_assoc (map echo line) (echo 10 ∷ run_line commands stale c_y line)
                (echo 10 ∷ prompt ∷ [])),
          end,
        )

-- ===== src/Console/Status.antt =====
-- The status lines and the notes of klog.c. The drawing of the two panels is left out.
pub mod Laws
pub mod Notes
use crusader_os_v.Base.{
  ℕ, zero, suc, ◌+◌, ◌-◌, Bool, true, false, not, ◌&&◌, List, [], ◌∷◌, ◌++◌, Option, none, some,
  ◌==◌, ltb, if◌then◌else◌, update,
}
use crusader_os_v.Base.Int.{is_zero}
use crusader_os_v.Text.{strncpy, strcmp}

-- The lines as arrays of 37 bytes.
pub record StatusLog : Type 0 where
  pub log_buffer : ℕ → List ℕ
  pub log_colors : ℕ → ℕ
  pub total_logs : ℕ

abbrev pub status_colour : ℕ → ℕ
status_colour color_char =
    if color_char == b'r' then 0xff0000 else if color_char == b'g' then 0x00ff00 else 0x2bc7fb

-- `strncpy` of 36 bytes, and the NUL at index 36.
abbrev pub status_line : List ℕ → List ℕ
status_line status_str = strncpy status_str 36 ++ 0 ∷ []

-- The loop that moves the lines up, at line `i` with `n` left.
unfoldable pub move_up : ℕ → ℕ → StatusLog → StatusLog
move_up zero i s = s
move_up (suc n) i s = move_up n (i + 1) (record s {
  log_buffer = update s.log_buffer i (s.log_buffer (i + 1));
  log_colors = update s.log_colors i (s.log_colors (i + 1));
})

unfoldable pub klog_status : List ℕ → ℕ → StatusLog → StatusLog
klog_status status_str color_char s =
    let current_color = status_colour color_char in
    if ltb s.total_logs 11
    then record {
      log_buffer = update s.log_buffer s.total_logs (status_line status_str);
      log_colors = update s.log_colors s.total_logs current_color;
      total_logs = s.total_logs + 1;
    }
    else (let s = move_up 10 0 s in
        record s {
          log_buffer = update s.log_buffer 10 (status_line status_str);
          log_colors = update s.log_colors 10 current_color;
        })

-- `Note`
pub record Note : Type 0 where
  pub name : List ℕ
  pub content : List ℕ
  pub active : Bool

abbrev pub max_notes : ℕ
max_notes = 15

-- The loop of `new_note` at the slot `i`, with `n` slots left.
unfoldable pub new_note_from : ℕ → ℕ → List ℕ → List ℕ → (ℕ → Note) → ℕ → Note
new_note_from zero i name content notes = notes
new_note_from (suc n) i name content notes =
    let rest = new_note_from n (i + 1) name content notes in
    if not (notes i).active
    then update notes i (record {
      name = strncpy name 19 ++ 0 ∷ [];
      content = strncpy content 49 ++ 0 ∷ [];
      active = true;
    })
    else rest

unfoldable pub new_note : List ℕ → List ℕ → (ℕ → Note) → ℕ → Note
new_note name content notes = new_note_from max_notes 0 name content notes

unfoldable pub delete_note_from : ℕ → ℕ → List ℕ → (ℕ → Note) → ℕ → Note
delete_note_from zero i name notes = notes
delete_note_from (suc n) i name notes =
    let rest = delete_note_from n (i + 1) name notes in
    if (notes i).active && is_zero (strcmp (notes i).name name)
    then update notes i (record (notes i) { active = false })
    else rest

unfoldable pub delete_note : List ℕ → (ℕ → Note) → ℕ → Note
delete_note name notes = delete_note_from max_notes 0 name notes

unfoldable pub delete_all_notes : (ℕ → Note) → ℕ → Note
delete_all_notes notes i = if ltb i max_notes then record (notes i) { active = false } else notes i

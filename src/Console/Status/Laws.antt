-- ===== src/Console/Status/Laws.antt =====
-- The status lines are the last eleven messages.
use mathlib.Core.Path.{ap₂}
use crusader_os_v.Base.{
  ℕ, zero, suc, ◌+◌, ◌≤◌, ◌<◌, ◌≡◌, refl, ap, sym, ◌∙◌, arith, List, [], ◌∷◌, ◌++◌, ltb,
  if◌then◌else◌, length, take, drop, update, tabulate, tabulate-cong, Bool-cases, inl, inr,
  ℕ_discrete, ltb→lt,
}
use crusader_os_v.Text.{c_string, strncpy}
use crusader_os_v.Console.Status.{StatusLog, status_colour, status_line, move_up, klog_status}

abbrev line : StatusLog → ℕ → List ℕ × ℕ
line s i = (c_string (s.log_buffer i), s.log_colors i)

-- The lines that are shown, as strings with their colours.
abbrev pub shown : StatusLog → List (List ℕ × ℕ)
shown s = tabulate s.total_logs (line s)

-- A list of at most eleven entries takes one more, and drops its first if it has eleven.
abbrev pub add_last : List (List ℕ × ℕ) → List ℕ × ℕ → List (List ℕ × ℕ)
add_last lines line =
    if ltb (length lines) 11 then lines ++ line ∷ [] else drop 1 lines ++ line ∷ []

tabulate-snoc : {A : Type 0} (n : ℕ) (f : ℕ → A) → tabulate (suc n) f ≡ tabulate n f ++ f n ∷ []
tabulate-snoc zero f = refl
tabulate-snoc (suc n) f = ap (λ t. f 0 ∷ t) (tabulate-snoc n (λ i. f (suc i)))

length-tabulate : {A : Type 0} (n : ℕ) (f : ℕ → A) → length (tabulate n f) ≡ n
length-tabulate zero f = refl
length-tabulate (suc n) f = ap suc (length-tabulate n (λ i. f (suc i)))

pub c_string-append_nul :
    (n : ℕ) (s : List ℕ) → c_string (strncpy s n ++ 0 ∷ []) ≡ take n (c_string s)
unfolding strncpy c_string
c_string-append_nul zero s = refl
c_string-append_nul (suc n) [] = refl
c_string-append_nul (suc n) (c ∷ s) = ground (arith, c_string-append_nul n s)

move_up-total : (n i : ℕ) (s : StatusLog) → (move_up n i s).total_logs ≡ s.total_logs
unfolding move_up
move_up-total zero i s = refl
move_up-total (suc n) i s = move_up-total n (i + 1) (record s {
  log_buffer = update s.log_buffer i (s.log_buffer (i + 1));
  log_colors = update s.log_colors i (s.log_colors (i + 1));
})

move_up-below :
    (n i j : ℕ) (s : StatusLog)
    → j < i
    → ((move_up n i s).log_buffer j ≡ s.log_buffer j)
      × ((move_up n i s).log_colors j ≡ s.log_colors j)
unfolding move_up
move_up-below zero i j s l = (refl, refl)
move_up-below (suc n) i j s l =
    let s' : StatusLog = record s {
      log_buffer = update s.log_buffer i (s.log_buffer (i + 1));
      log_colors = update s.log_colors i (s.log_colors (i + 1));
    } in
    let (b, c) = move_up-below n (i + 1) j s' (omega arith) in (b ∙ ground arith, c ∙ ground arith)

move_up_lem :
    (n i j : ℕ) (s : StatusLog)
    → i ≤ j
    → j < i + n
    → ((move_up n i s).log_buffer j ≡ s.log_buffer (j + 1))
      × ((move_up n i s).log_colors j ≡ s.log_colors (j + 1))
unfolding move_up
move_up_lem zero i j s l m = absurd (omega arith)
move_up_lem (suc n) i j s l m =
    let s' : StatusLog = record s {
      log_buffer = update s.log_buffer i (s.log_buffer (i + 1));
      log_colors = update s.log_colors i (s.log_colors (i + 1));
    } in
    elim (ℕ_discrete j i) [
      | yes same ↦
          let (b, c) = move_up-below n (i + 1) j s' (omega arith) in
          (b ∙ ground arith, c ∙ ground arith)
      | no other ↦
          let (b, c) = move_up_lem n (i + 1) j s' (omega arith) (omega arith) in
          (b ∙ ground arith, c ∙ ground arith)
    ]

tabulate-add :
    {A : Type 0} (n : ℕ) (f g : ℕ → A) (x : A)
    → ((j : ℕ) → j < n → g j ≡ f j)
    → g n ≡ x
    → tabulate (n + 1) g ≡ tabulate n f ++ x ∷ []
tabulate-add n f g x same last =
    let e : n + 1 ≡ suc n = omega arith in
    rw (e, tabulate-snoc n g, tabulate-cong n g f same, last) refl

klog_status-room :
    (status_str : List ℕ) (color_char : ℕ) (s : StatusLog)
    → s.total_logs < 11
    → shown (klog_status status_str color_char s)
      ≡ shown s ++ (take 36 (c_string status_str), status_colour color_char) ∷ []
unfolding klog_status
klog_status-room status_str color_char s l =
    let t = klog_status status_str color_char s in
    let total : t.total_logs ≡ s.total_logs + 1 = ground arith in
    let text : t.log_buffer s.total_logs ≡ status_line status_str = ground arith in
    let colour : t.log_colors s.total_logs ≡ status_colour color_char = ground arith in
    rw total (
      tabulate-add s.total_logs (line s) (line t)
        (take 36 (c_string status_str), status_colour color_char)
        (λ j m. ap₂ (λ a b. (c_string a, b)) (ground arith) (ground arith))
        (ap₂ (λ a b. (a, b)) (ap c_string text ∙ c_string-append_nul 36 status_str) colour))

klog_status-full :
    (status_str : List ℕ) (color_char : ℕ) (s : StatusLog)
    → s.total_logs ≡ 11
    → shown (klog_status status_str color_char s)
      ≡ drop 1 (shown s) ++ (take 36 (c_string status_str), status_colour color_char) ∷ []
unfolding klog_status
klog_status-full status_str color_char s l =
    let t = klog_status status_str color_char s in
    let total : t.total_logs ≡ 10 + 1 = ground (arith, move_up-total 10 0 s) in
    let text : t.log_buffer 10 ≡ status_line status_str = ground arith in
    let colour : t.log_colors 10 ≡ status_colour color_char = ground arith in
    let same : (j : ℕ) → j < 10 → line t j ≡ line s (suc j) = (λ j m.
      let (b, c) = move_up_lem 10 0 j s (omega arith) (omega arith) in
      ap₂ (λ a b. (c_string a, b)) (ground arith) (ground arith)) in
    let new : List ℕ × ℕ = (take 36 (c_string status_str), status_colour color_char) in
    ap (λ n. tabulate n (line t)) total
    ∙ tabulate-add 10 (λ i. line s (suc i)) (line t) new same
        (ap₂ (λ a b. (a, b)) (ap c_string text ∙ c_string-append_nul 36 status_str) colour)
    ∙ ap (λ n. drop 1 (tabulate n (line s)) ++ new ∷ []) (sym l)

-- With at most eleven lines shown before a message, those shown after it are the same lines and the message, cut to 36
-- bytes and in its colour; if there were eleven, the first has gone.
pub klog_status_lem :
    (status_str : List ℕ) (color_char : ℕ) (s : StatusLog)
    → s.total_logs ≤ 11
    → shown (klog_status status_str color_char s)
      ≡ add_last (shown s) (take 36 (c_string status_str), status_colour color_char)
klog_status_lem status_str color_char s l = elim (Bool-cases (ltb s.total_logs 11)) [
  | inl room ↦
      rw (length-tabulate s.total_logs (line s), room)
        (klog_status-room status_str color_char s (ltb→lt s.total_logs 11 room))
  | inr full ↦
      rw (length-tabulate s.total_logs (line s), full)
        (klog_status-full status_str color_char s (ground arith))
]

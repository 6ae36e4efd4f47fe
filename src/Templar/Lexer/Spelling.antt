-- ===== src/Templar/Lexer/Spelling.antt =====
-- templar.c: the spelling of tokens, which the lexer is compared with, and what a scan makes of it.
use crusader_os_v.Base.{
  ℕ, zero, suc, ◌≤◌, ◌≡◌, refl, Bool, true, false, ◌||◌, List, [], ◌∷◌, ◌++◌, some, arith, ◌==◌,
  if◌then◌else◌, length, Bool-cases, ==_iff, inl, inr,
}
use crusader_os_v.Text.{c_string}
use crusader_os_v.Templar.Value.{tpl_isalpha, tpl_isdigit, tpl_isalnum, tpl_atoi}
use crusader_os_v.Templar.State.{TokKind, tk_num, tk_str, tk_newline, is, TplTok}
use crusader_os_v.Templar.Lexer.{tok, scan, scan_string, word_kind, pair_kind, char_kind, next_line}

-- A string with a backslash in front of each quote and each backslash.
unfoldable pub quoted : List ℕ → List ℕ
quoted [] = []
quoted (c ∷ s) = if c == b'"' || c == b'\\' then b'\\' ∷ c ∷ quoted s else c ∷ quoted s

-- A token in front of a text.
abbrev pub spelling : TplTok → List ℕ → List ℕ
spelling t rest = if is t.kind tk_str then b'"' ∷ (quoted t.text ++ b'"' ∷ rest) else t.text ++ rest

-- The text of tokens, with a blank behind each.
abbrev pub text_of : List TplTok → List ℕ
text_of [] = []
text_of (t ∷ ts) = spelling t (32 ∷ text_of ts)

abbrev pub All : (ℕ → Bool) → List ℕ → Type 0
All test [] = Unit
All test (c ∷ s) = (test c ≡ true) × All test s

abbrev pub no_nul : ℕ → Bool
no_nul c = if c == 0 then false else true

-- The tokens of a line that have a spelling.
pub data Spelled (line : ℕ) : TplTok → Type 0 where
  newline : Spelled line (tok line tk_newline (10 ∷ []))
  word :
      (c : ℕ) (w : List ℕ)
      → tpl_isalpha c ≡ true
      → All tpl_isalnum w
      → length w ≤ 254
      → Spelled line (tok line (word_kind (c ∷ w)) (c ∷ w))
  number :
      (c : ℕ) (w : List ℕ)
      → tpl_isdigit c ≡ true
      → All tpl_isdigit w
      → length w ≤ 14
      → Spelled line (record (tok line tk_num (c ∷ w)) { num = tpl_atoi (c ∷ w) })
  minus_number :
      (c : ℕ) (w : List ℕ)
      → tpl_isdigit c ≡ true
      → All tpl_isdigit w
      → length w ≤ 13
      → Spelled line (record (tok line tk_num (b'-' ∷ c ∷ w)) { num = tpl_atoi (b'-' ∷ c ∷ w) })
  string : (s : List ℕ) → All no_nul s → length s ≤ 255 → Spelled line (tok line tk_str s)
  pair :
      (c d : ℕ) (kind : TokKind)
      → pair_kind c d ≡ some kind
      → Spelled line (tok line kind (c ∷ d ∷ []))
  single :
      (c : ℕ) (kind : TokKind) → char_kind c ≡ some kind → Spelled line (tok line kind (c ∷ []))

abbrev pub AllSpelled : ℕ → List TplTok → Type 0
AllSpelled line [] = Unit
AllSpelled line (t ∷ ts) = Spelled line t × AllSpelled (next_line t) ts

-- A scan takes the bytes that pass, up to the first that does not.
pub scan-stops :
    (test : ℕ → Bool) (n : ℕ) (w : List ℕ) (c : ℕ) (rest : List ℕ)
    → All test w
    → test c ≡ false
    → length w ≤ n
    → scan test n (w ++ c ∷ rest) ≡ (w, c ∷ rest)
unfolding scan
scan-stops test zero [] c rest all stop l = refl
scan-stops test (suc n) [] c rest all stop l = rw stop refl
scan-stops test zero (x ∷ w) c rest all stop l = absurd (omega arith)
scan-stops test (suc n) (x ∷ w) c rest (e, all) stop l =
    rw (e, scan-stops test n w c rest all stop (omega arith)) refl

pub scan_string-quoted :
    (n : ℕ) (s rest : List ℕ)
    → All no_nul s
    → length s ≤ n
    → scan_string n (quoted s ++ b'"' ∷ rest) ≡ (s, b'"' ∷ rest)
unfolding scan_string quoted
scan_string-quoted zero [] rest all l = refl
scan_string-quoted (suc n) [] rest all l = refl
scan_string-quoted zero (c ∷ s) rest all l = absurd (omega arith)
scan_string-quoted (suc n) (c ∷ s) rest (e, all) l =
    let ih = scan_string-quoted n s rest all (omega arith) in
    elim (Bool-cases (c == b'"')) [
      | inl q ↦ rw ((==_iff c 34).0 q, ih) refl
      | inr q ↦ elim (Bool-cases (c == b'\\')) [
        | inl b ↦ rw ((==_iff c 92).0 b, ih) refl
        | inr b ↦ rw (q, b) (ground (arith, ih))
      ]
    ]

pub c_string-no_nul : (s : List ℕ) → All no_nul s → c_string s ≡ s
unfolding c_string
c_string-no_nul [] all = refl
c_string-no_nul (c ∷ s) (e, all) = elim (Bool-cases (c == 0)) [
  | inl z ↦ absurd (ground arith)
  | inr z ↦ rw (z, c_string-no_nul s all) refl
]

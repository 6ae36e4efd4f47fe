-- ===== src/Console/Format.antt =====
-- The formatted printing of klog.c, `vprintf_internal`. The variable arguments are the words of the stack from the
-- first of them on; a string argument is an address, and `string_at` the string there.
pub mod Laws
use crusader_os_v.Base.{
  ℕ, zero, suc, ◌+◌, ◌-◌, ◌*◌, ◌/◌, ◌%◌, ◌^◌, ◌<◌, Bool, true, false, ◌&&◌, List, [], ◌∷◌, ◌++◌,
  ◌==◌, leb, ltb, if◌then◌else◌, codes, length,
}
use crusader_os_v.Base.Int.{ℤ, sub_ℕ, pos}
use crusader_os_v.Text.{head, c_string}
use crusader_os_v.Text.Numbers.{itoa}

-- `while (div <= v / 10) div *= 10;`, on fuel.
unfoldable pub first_div : ℕ → ℕ → ℕ → ℕ
first_div zero v div = div
first_div (suc fuel) v div =
    let rest = first_div fuel v (div * 10) in if leb div (v / 10) then rest else div

-- `while (div > 0) { buf[idx++] = '0' + (v / div); v %= div; div /= 10; }`, on fuel.
unfoldable pub div_digits : ℕ → ℕ → ℕ → List ℕ
div_digits zero v div = []
div_digits (suc fuel) v div =
    let rest = div_digits fuel (v % div) (div / 10) in
    if ltb 0 div then (b'0' + v / div) ∷ rest else []

-- The text of an `unsigned long long`; it has at most 20 digits.
unfoldable pub llu_text : ℕ → List ℕ
llu_text v = if v == 0 then b'0' ∷ [] else div_digits 21 v (first_div 20 v 1)

-- A word as an `int`.
abbrev pub to_int : ℕ → ℤ
to_int w = if ltb w (2 ^ 31) then pos w else sub_ℕ w (2 ^ 32)

-- The next word of the arguments, and the words after it.
abbrev pub next_words : List ℕ → List ℕ
next_words [] = []
next_words (w ∷ args) = args

-- A call of a print function: `klog_green`, or `klog`.
pub data Call : Type 0 where
  klog_green : List ℕ → Call
  klog : List ℕ → Call

module _ (string_at : ℕ → List ℕ) where
  -- The text of a string argument; the null pointer has a text of its own.
  abbrev pub string_text : ℕ → List ℕ
  string_text p = if p == 0 then codes "(null)" else string_at p

  -- What follows a `%`: the call, the rest of the format and the rest of the arguments.
  unfoldable pub directive : ℕ → List ℕ → List ℕ → Call × List ℕ × List ℕ
  directive d fmt args =
      if d == b'd'
      then (klog_green (itoa (to_int (head args)) 10), fmt, next_words args)
      else if d == b'x'
      then (klog_green (itoa (to_int (head args)) 16), fmt, next_words args)
      else if d == b's'
      then (klog_green (string_text (head args)), fmt, next_words args)
      else if d == b'c'
      then (klog_green (c_string (head args % 256 ∷ [])), fmt, next_words args)
      else if d == b'l'
      then (if head fmt == b'l' && head (next_words fmt) == b'u'
          then (
            klog (llu_text (head args + 2 ^ 32 * head (next_words args))),
            next_words (next_words fmt),
            next_words (next_words args),
          )
          else (klog (codes "<?>"), fmt, args))
      else if d == b'%'
      then (klog (b'%' ∷ []), fmt, args)
      else (klog (codes "<?>"), fmt, args)

  -- The loop over a format, a string without its final NUL, on fuel. A `%` at the end is followed by the NUL, and
  -- the loop goes on behind the format: there the model ends.
  unfoldable pub vprintf_from : ℕ → List ℕ → List ℕ → List Call
  vprintf_from zero fmt args = []
  vprintf_from (suc fuel) [] args = []
  vprintf_from (suc fuel) (c ∷ fmt) args =
      let plain = vprintf_from fuel fmt args in
      let (call, rest, more) = directive (head fmt) (next_words fmt) args in
      let after = vprintf_from fuel rest more in
      if c == b'%' then call ∷ after else klog_green (c ∷ []) ∷ plain

  -- Each round takes a character at least.
  unfoldable pub vprintf_internal : List ℕ → List ℕ → List Call
  vprintf_internal fmt args = vprintf_from (length fmt) fmt args

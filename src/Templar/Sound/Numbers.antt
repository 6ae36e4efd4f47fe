-- ===== src/Templar/Sound/Numbers.antt =====
-- templar.c: the numbers and texts that the interpreter computes fit their types and buffers.
use crusader_os_v.Base.{
  ℕ, zero, suc, ◌+◌, ◌-◌, ◌*◌, ◌/◌, ◌%◌, ◌^◌, ◌<◌, ◌≤◌, ◌≡◌, Bool, true, false, some, List, [], ◌∷◌,
  arith, length, length-reverse,
}
use crusader_os_v.Text.Numbers.{itoa_digits, parse_digits}
use crusader_os_v.Templar.Word.{magnitude, neg32, add32, sub32, mul32, div32, mod32}
use crusader_os_v.Templar.Value.{
  TplVal, num, str, nil, tpl_itoa, tpl_atoi, tpl_val_to_str, tpl_val_num, of_bool,
}
use crusader_os_v.Templar.State.{max_str}
use crusader_os_v.Templar.Sound.{ValFits, num_fits, str_fits}

pub neg32-lt : (a : ℕ) → neg32 a < 2 ^ 32
unfolding neg32
neg32-lt a = omega arith

pub add32-lt : (a b : ℕ) → add32 a b < 2 ^ 32
unfolding add32
add32-lt a b = omega arith

pub sub32-lt : (a b : ℕ) → sub32 a b < 2 ^ 32
unfolding sub32
sub32-lt a b = omega arith

pub mul32-lt : (a b : ℕ) → mul32 a b < 2 ^ 32
unfolding mul32
mul32-lt a b = grind arith

div-le : (a b : ℕ) → a / b ≤ a
div-le a b = grind arith

mod-le : (a b : ℕ) → a % b ≤ a
mod-le a b = grind arith

pub div32-lt : (a b q : ℕ) → a < 2 ^ 32 → div32 a b ≡ some q → q < 2 ^ 32
unfolding div32
div32-lt a b q h e =
    ground (arith, neg32-lt (magnitude a / magnitude b), div-le (magnitude a) (magnitude b))

pub mod32-lt : (a b r : ℕ) → a < 2 ^ 32 → mod32 a b ≡ some r → r < 2 ^ 32
unfolding mod32
mod32-lt a b r h e =
    ground (arith, neg32-lt (magnitude a % magnitude b), mod-le (magnitude a) (magnitude b))

parse_digits-lt : (res : ℕ) (s : List ℕ) → res < 2 ^ 32 → parse_digits res s < 2 ^ 32
unfolding parse_digits
parse_digits-lt res [] h = h
parse_digits-lt res (c ∷ s) h = ground (arith, parse_digits-lt ((res * 10 + (c - b'0')) % 2 ^ 32) s)

pub tpl_atoi-lt : (s : List ℕ) → tpl_atoi s < 2 ^ 32
unfolding tpl_atoi
tpl_atoi-lt [] = omega arith
tpl_atoi-lt (c ∷ s) = ground (arith, parse_digits-lt 0 s, parse_digits-lt 0 (c ∷ s))

pub length-itoa_digits :
    (char : ℕ → ℕ) (fuel v base : ℕ) → length (itoa_digits char fuel v base) ≤ fuel
unfolding itoa_digits
length-itoa_digits char zero v base = omega arith
length-itoa_digits char (suc fuel) v base =
    ground (arith, length-itoa_digits char fuel (v / base) base)

pub length-tpl_itoa : (v : ℕ) → length (tpl_itoa v) ≤ 11
unfolding tpl_itoa
length-tpl_itoa v = ground (
  arith,
  length-reverse (itoa_digits (λ d. b'0' + d) 10 v 10),
  length-reverse (itoa_digits (λ d. b'0' + d) 10 (neg32 v) 10),
  length-itoa_digits (λ d. b'0' + d) 10 v 10,
  length-itoa_digits (λ d. b'0' + d) 10 (neg32 v) 10,
)

pub tpl_val_to_str_fits : (v : TplVal) → ValFits v → length (tpl_val_to_str v) < max_str
unfolding tpl_val_to_str
tpl_val_to_str_fits (num n) f = omega (arith, length-tpl_itoa n)
tpl_val_to_str_fits (str s) (str_fits h) = h
tpl_val_to_str_fits nil f = omega arith

pub tpl_val_num-lt : (v : TplVal) → ValFits v → tpl_val_num v < 2 ^ 32
unfolding tpl_val_num
tpl_val_num-lt (num n) (num_fits h) = h
tpl_val_num-lt (str s) f = tpl_atoi-lt s
tpl_val_num-lt nil f = omega arith

pub of_bool_fits : (b : Bool) → ValFits (of_bool b)
of_bool_fits true = num_fits (omega arith)
of_bool_fits false = num_fits (omega arith)

-- ===== src/Rtc/Laws.antt =====
-- What the clock shows is what `rtc_get_datetime` returns.
use Prim.Native.Nat.{bit_and}
use mathlib.Core.Path.{subst}
use crusader_os_v.Base.{
  ℕ, zero, suc, ◌+◌, ◌*◌, ◌/◌, ◌%◌, ◌<◌, ◌≡◌, refl, ap, ◌∙◌, arith, Bool, true, false, some, ◌==◌,
  if◌then◌else◌, all_below, all_below_sound,
}
use crusader_os_v.Rtc.{
  Cmos, DateTime, rtc_updating, bcd_to_bin, wait_update, read_registers, from_bcd, convert,
  rtc_get_datetime,
}

-- A number below 100 in binary-coded decimal.
unfoldable pub to_bcd : ℕ → ℕ
to_bcd n = n / 10 * 16 + n % 10

bcd_to_bin-to_bcd : (n : ℕ) → n < 100 → bcd_to_bin (to_bcd n) ≡ n
unfolding bcd_to_bin to_bcd
bcd_to_bin-to_bcd n h = omega arith

masked_table : all_below 24 (λ n. bit_and (to_bcd n) 0x7f == to_bcd n) ≡ true
unfolding to_bcd
masked_table = refl

small_table : all_below 24 (λ n. bit_and n 0x80 == 0) ≡ true
small_table = refl

-- The clock shows `t`, in the coding and the 24-hour form that its status register says.
pub record Shows (t : DateTime) (binary : Bool) (cmos : Cmos) (n : ℕ) : Type 0 where
  pub sec_shown : cmos n 0x00 ≡ (if binary then t.sec else to_bcd t.sec)
  pub min_shown : cmos (n + 1) 0x02 ≡ (if binary then t.min else to_bcd t.min)
  pub hour_shown : cmos (n + 2) 0x04 ≡ (if binary then t.hour else to_bcd t.hour)
  pub day_shown : cmos (n + 3) 0x07 ≡ (if binary then t.day else to_bcd t.day)
  pub month_shown : cmos (n + 4) 0x08 ≡ (if binary then t.month else to_bcd t.month)
  pub year_shown : cmos (n + 5) 0x09 ≡ (if binary then t.year else to_bcd t.year)
  pub coding : (bit_and (cmos (n + 6) 0x0b) 0x04 == 0) ≡ (if binary then false else true)

-- The fields are in range.
pub record IsDateTime (t : DateTime) : Type 0 where
  pub sec_range : t.sec < 60
  pub min_range : t.min < 60
  pub hour_range : t.hour < 24
  pub day_range : t.day < 32
  pub month_range : t.month < 13
  pub year_range : t.year < 100

to_bcd-hour : (n : ℕ) → n < 24 → (bit_and (to_bcd n) 0x7f ≡ to_bcd n) × (bit_and n 0x80 ≡ 0)
to_bcd-hour n h = ground (
  arith,
  all_below_sound 24 (λ k. bit_and (to_bcd k) 0x7f == to_bcd k) n masked_table h,
  all_below_sound 24 (λ k. bit_and k 0x80 == 0) n small_table h,
)

DateTime-≡ :
    (s t : DateTime)
    → s.sec ≡ t.sec
    → s.min ≡ t.min
    → s.hour ≡ t.hour
    → s.day ≡ t.day
    → s.month ≡ t.month
    → s.year ≡ t.year
    → s ≡ t
DateTime-≡ s t a b c d e f i = record {
  sec = a i;
  min = b i;
  hour = c i;
  day = d i;
  month = e i;
  year = f i;
}

convert-Shows :
    (binary : Bool) (t : DateTime) (cmos : Cmos) (n : ℕ)
    → Shows t binary cmos n
    → IsDateTime t
    → convert (cmos (n + 6) 0x0b) (read_registers cmos n) ≡ record t { year = t.year + 2000 }
unfolding convert from_bcd read_registers
convert-Shows true t cmos n shown ok =
    let (mask, high) = to_bcd-hour t.hour ok.hour_range in
    DateTime-≡ (convert (cmos (n + 6) 0x0b) (read_registers cmos n))
      (record t { year = t.year + 2000 }) (ground (arith, shown.coding, shown.sec_shown))
      (ground (arith, shown.coding, shown.min_shown))
      (ground (arith, shown.coding, shown.hour_shown, mask, high))
      (ground (arith, shown.coding, shown.day_shown))
      (ground (arith, shown.coding, shown.month_shown))
      (ground (arith, shown.coding, shown.year_shown))
convert-Shows false t cmos n shown ok =
    let (mask, high) = to_bcd-hour t.hour ok.hour_range in
    DateTime-≡ (convert (cmos (n + 6) 0x0b) (read_registers cmos n))
      (record t { year = t.year + 2000 })
      (ground (
        arith,
        shown.coding,
        shown.sec_shown,
        bcd_to_bin-to_bcd t.sec (omega (arith, ok.sec_range)),
      ))
      (ground (
        arith,
        shown.coding,
        shown.min_shown,
        bcd_to_bin-to_bcd t.min (omega (arith, ok.min_range)),
      ))
      (ground (
        arith,
        shown.coding,
        shown.hour_shown,
        mask,
        high,
        bcd_to_bin-to_bcd t.hour (omega (arith, ok.hour_range)),
      ))
      (ground (
        arith,
        shown.coding,
        shown.day_shown,
        bcd_to_bin-to_bcd t.day (omega (arith, ok.day_range)),
      ))
      (ground (
        arith,
        shown.coding,
        shown.month_shown,
        bcd_to_bin-to_bcd t.month (omega (arith, ok.month_range)),
      ))
      (ground (arith, shown.coding, shown.year_shown, bcd_to_bin-to_bcd t.year ok.year_range))

wait_update_lem :
    (fuel k n : ℕ) (cmos : Cmos)
    → k < fuel
    → ((j : ℕ) → j < k → rtc_updating cmos (n + j) ≡ true)
    → rtc_updating cmos (n + k) ≡ false
    → wait_update fuel cmos n ≡ some (n + k + 1)
unfolding wait_update
wait_update_lem zero k n cmos l busy ready = absurd (omega arith)
wait_update_lem (suc fuel) zero n cmos l busy ready =
    let here : rtc_updating cmos n ≡ false =
      subst (λ m. rtc_updating cmos m ≡ false) (omega arith) ready in
    rw here (ap some (omega arith))
wait_update_lem (suc fuel) (suc k) n cmos l busy ready =
    let here : rtc_updating cmos n ≡ true =
      subst (λ m. rtc_updating cmos m ≡ true) (omega arith) (busy 0 (omega arith)) in
    let shift : (j : ℕ) → n + suc j ≡ n + 1 + j = λ j. omega arith in
    rw here (
      wait_update_lem fuel k (n + 1) cmos (omega arith)
        (λ j m. subst (λ m. rtc_updating cmos m ≡ true) (shift j) (busy (suc j) (omega arith)))
        (subst (λ m. rtc_updating cmos m ≡ false) (shift k) ready)
      ∙ ap some (omega arith))

-- If the update bit clears at the k-th poll and the clock shows a date and time in range in the reads after it,
-- the result is that date and time, with 2000 added to the year: in both codings, and the wait ends.
pub rtc_get_datetime-Shows :
    (fuel k : ℕ) (binary : Bool) (t : DateTime) (cmos : Cmos)
    → k < fuel
    → ((j : ℕ) → j < k → rtc_updating cmos j ≡ true)
    → rtc_updating cmos k ≡ false
    → Shows t binary cmos (k + 1)
    → IsDateTime t
    → rtc_get_datetime fuel cmos ≡ some (record t { year = t.year + 2000 })
unfolding rtc_get_datetime
rtc_get_datetime-Shows fuel k binary t cmos l busy ready shown ok =
    let waited : wait_update fuel cmos 0 ≡ some (k + 1) =
      (wait_update_lem fuel k 0 cmos l
        (λ j m. subst (λ m. rtc_updating cmos m ≡ true) (omega arith) (busy j m))
        (subst (λ m. rtc_updating cmos m ≡ false) (omega arith) ready))
      ∙ ap some (omega arith) in
    rw (rtc_get_datetime, waited) (ap some (convert-Shows binary t cmos (k + 1) shown ok))

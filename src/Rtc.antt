-- ===== src/Rtc.antt =====
-- The real-time clock of rtc.c. The CMOS is a function: the byte of a register at the n-th read.
pub mod Laws
use Prim.Native.Nat.{bit_and}
use crusader_os_v.Base.{
  ℕ, zero, suc, ◌+◌, ◌*◌, ◌/◌, ◌%◌, Bool, true, false, not, ◌&&◌, Option, none, some, ◌==◌,
  if◌then◌else◌,
}

abbrev pub Cmos : Type 0
Cmos = ℕ → ℕ → ℕ

-- `*year`, `*month`, `*day`, `*hour`, `*min` and `*sec`
pub record DateTime : Type 0 where
  pub year : ℕ
  pub month : ℕ
  pub day : ℕ
  pub hour : ℕ
  pub min : ℕ
  pub sec : ℕ

unfoldable pub rtc_updating : Cmos → ℕ → Bool
rtc_updating cmos n = not (bit_and (cmos n 0x0a) 0x80 == 0)

unfoldable pub bcd_to_bin : ℕ → ℕ
bcd_to_bin val = val % 16 + val / 16 * 10

-- `while (rtc_updating());`, from read `n` on: the number of the next read.
unfoldable pub wait_update : ℕ → Cmos → ℕ → Option ℕ
wait_update zero cmos n = none
wait_update (suc fuel) cmos n =
    let rest = wait_update fuel cmos (n + 1) in if rtc_updating cmos n then rest else some (n + 1)

-- The registers as read, from the read `n` on.
unfoldable pub read_registers : Cmos → ℕ → DateTime
read_registers cmos n = record {
  sec = cmos n 0x00;
  min = cmos (n + 1) 0x02;
  hour = cmos (n + 2) 0x04;
  day = cmos (n + 3) 0x07;
  month = cmos (n + 4) 0x08;
  year = cmos (n + 5) 0x09;
}

unfoldable pub from_bcd : DateTime → DateTime
from_bcd t = record {
  sec = bcd_to_bin t.sec;
  min = bcd_to_bin t.min;
  hour = bcd_to_bin (bit_and t.hour 0x7f);
  day = bcd_to_bin t.day;
  month = bcd_to_bin t.month;
  year = bcd_to_bin t.year;
}

-- The conversions that the status register B asks for.
unfoldable pub convert : ℕ → DateTime → DateTime
convert status_b t =
    let t = if bit_and status_b 0x04 == 0 then from_bcd t else t in
    let t : DateTime =
      if (bit_and status_b 0x02 == 0) && not (bit_and t.hour 0x80 == 0)
      then record t { hour = (bit_and t.hour 0x7f + 12) % 24 }
      else t in
    record t { year = t.year + 2000 }

-- The wait has fuel.
unfoldable pub rtc_get_datetime : ℕ → Cmos → Option DateTime
rtc_get_datetime fuel cmos = elim (wait_update fuel cmos 0) [
  | none ↦ none
  | some n ↦ some (convert (cmos (n + 6) 0x0b) (read_registers cmos n))
]

-- ===== src/Zip/Stamp.antt =====
-- `dosDateTime` of web/static/zip.js.
use k_quickshare.Base.{
  ◌∙◌, arith, ◌≡◌, bit_or, max, ◌<◌, ◌≤◌, ◌%◌, ◌/◌, ◌*◌, ◌-◌, ◌+◌, bit_or-shift, ℕ,
}

-- What a `Date` shows: the full year, the month from 0, the day, and the time.
pub record Date : Type 0 where
  pub year : ℕ
  pub month : ℕ
  pub day : ℕ
  pub hours : ℕ
  pub minutes : ℕ
  pub seconds : ℕ

pub record DosStamp : Type 0 where
  pub time : ℕ
  pub date : ℕ

unfoldable pub dos_date_time : Date → DosStamp
dos_date_time d =
    let year = max 1980 d.year in
    record {
      time = bit_or (bit_or (d.hours * 2048) (d.minutes * 32)) (d.seconds / 2);
      date = bit_or (bit_or ((year - 1980) * 512) ((d.month + 1) * 32)) d.day;
    }

-- The packed fields of a date are the date's: the year from 1980 on, the month from 1, the day, the
-- hour, the minute and half the seconds; both words fit 16 bits. The date's fields are in their
-- ranges and the year is at most 2107.
pub dos_date_time-fields :
    (d : Date)
    → d.year ≤ 2107
    → d.month < 12
    → d.day < 32
    → d.hours < 24
    → d.minutes < 60
    → d.seconds < 60
    → let s = dos_date_time d in
      (s.time / 2048 ≡ d.hours)
      × (s.time / 32 % 64 ≡ d.minutes)
      × (s.time % 32 ≡ d.seconds / 2)
      × (s.time < 65536)
      × (s.date / 512 + 1980 ≡ max 1980 d.year)
      × (s.date / 32 % 16 ≡ d.month + 1)
      × (s.date % 32 ≡ d.day)
      × (s.date < 65536)
unfolding dos_date_time
dos_date_time-fields d hy hm hd hh hmi hs =
    let y : ℕ = max 1980 d.year - 1980 in
    let t1 : bit_or (d.hours * 2048) (d.minutes * 32) ≡ (d.hours * 64 + d.minutes) * 32 =
      bit_or-shift 11 d.hours (d.minutes * 32) (omega arith) ∙ (omega arith) in
    let t2 = bit_or-shift 5 (d.hours * 64 + d.minutes) (d.seconds / 2) (omega arith) in
    let d1 : bit_or (y * 512) ((d.month + 1) * 32) ≡ (y * 16 + (d.month + 1)) * 32 =
      bit_or-shift 9 y ((d.month + 1) * 32) (omega arith) ∙ (omega arith) in
    let d2 = bit_or-shift 5 (y * 16 + (d.month + 1)) d.day (omega arith) in
    rw (t1, t2, d1, d2)
      (
        omega arith,
        omega arith,
        omega arith,
        omega arith,
        omega arith,
        omega arith,
        omega arith,
        omega arith,
      )

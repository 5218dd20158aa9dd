-- ===== src/GoTime.antt =====
-- What the program uses of Go's package `time`.
--
-- An instant is the number of nanoseconds since the zero Time (midnight UTC of 1 January of the
-- year 1); the program handles none before it. A Duration is the bit pattern of an int64.
-- A text column of an instant is kept by what time.Parse(RFC3339) makes of it, and a text
-- "2006-01-02" by its three fields. A *time.Location is what the zone database says of a zone.
use clockr.Base.{
  ℕ, ◌+◌, ◌-◌, ◌*◌, ◌/◌, ◌%◌, ◌^◌, min, String, Bool, not, ◌&&◌, ◌||◌, Option, none, some, ltb, leb,
  ◌==◌, if◌then◌else◌,
}

abbrev pub second : ℕ
second = 10 ^ 9

abbrev pub minute : ℕ
minute = 60 * 10 ^ 9

abbrev pub two63 : ℕ
two63 = 2 ^ 63

abbrev pub two64 : ℕ
two64 = 2 ^ 64

-- time.Time{}
abbrev pub zero_time : ℕ
zero_time = 0

-- t.Sub(u), which saturates at the largest and the smallest Duration.
unfoldable pub sub_time : ℕ → ℕ → ℕ
sub_time t u = if leb u t then min (t - u) (two63 - 1) else two64 - min (u - t) two63

-- d + e on int64.
unfoldable pub add_duration : ℕ → ℕ → ℕ
add_duration d e = (d + e) % two64

-- int64(d / time.Minute), which rounds towards zero.
unfoldable pub minutes_of : ℕ → ℕ
minutes_of d = if ltb d two63 then d / minute else (two64 - (two64 - d) / minute) % two64

-- A text that time.Parse(time.RFC3339, …) reads, by the instant that it names, or one that it
-- refuses.
pub data Stamp : Type 0 where
  at : ℕ → Stamp
  malformed : String → Stamp

unfoldable pub parse_stamp : Stamp → Option ℕ
parse_stamp (at t) = some t
parse_stamp (malformed s) = none

-- t.UTC().Format(time.RFC3339), which writes whole seconds.
unfoldable pub format_stamp : ℕ → Stamp
format_stamp t = at (t - t % second)

-- The fields of a text YYYY-MM-DD.
pub record Date : Type 0 where
  pub year : ℕ
  pub month : ℕ
  pub day : ℕ

-- The order of such texts, whose fields are padded with zeros to four, two and two digits.
unfoldable pub date_le : Date → Date → Bool
date_le a b =
    if a.year == b.year
    then (if a.month == b.month then leb a.day b.day else ltb a.month b.month)
    else ltb a.year b.year

unfoldable pub same_date : Date → Date → Bool
same_date a b = a.year == b.year && a.month == b.month && a.day == b.day

unfoldable pub is_leap : ℕ → Bool
is_leap y = y % 4 == 0 && not (y % 100 == 0 && not (y % 400 == 0))

unfoldable pub days_in : ℕ → ℕ → ℕ
unfolding is_leap
days_in y m =
    if m == 2
    then (if is_leap y then 29 else 28)
    else if m == 4 || m == 6 || m == 9 || m == 11
    then 30
    else 31

-- Whether time.Parse("2006-01-02", …) accepts the text.
unfoldable pub valid_date : Date → Bool
unfolding days_in
valid_date d = leb 1 d.month && leb d.month 12 && leb 1 d.day && leb d.day (days_in d.year d.month)

-- `local_date t` is the date that a clock of the zone shows at `t`; `date_at d m` is
-- time.Date(y, m, d, 0, m, 0, 0, loc), and `next_midnight d` is time.Date(y, m, d+1, 0, 0, 0, 0, loc).
pub record Location : Type 0 where
  pub local_date : ℕ → Date
  pub date_at : Date → ℕ → ℕ
  pub next_midnight : Date → ℕ

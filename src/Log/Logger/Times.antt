-- ===== src/Log/Logger/Times.antt =====
-- logger/Logging.cc: how much of a time the log shows.
use my_file_server.Common.{
  ℕ, suc, ◌+◌, ◌-◌, ◌<◌, ◌≡◌, refl, sym, ap, ◌∙◌, arith, ◌∷◌, ◌++◌, Bytes, length, length-append,
  length-replicate, replicate, take, take-length-append, decimal, ten_to, length-decimal_digits,
}
use my_file_server.Log.Logger.{CalendarTime, padded, minute_text, calendar_text}

-- A time of the years 0 to 9999, as localtime answers.
pub record IsCalendar (tm : CalendarTime) : Type 0 where
  pub year : tm.tm_year + 1900 < 10000
  pub month : tm.tm_mon < 12
  pub day : tm.tm_mday < 32
  pub hour : tm.tm_hour < 24
  pub minute : tm.tm_min < 60

length-padded : (fill k n : ℕ) → n < ten_to (suc k) → length (padded fill (suc k) n) ≡ suc k
unfolding padded
length-padded fill k n h = omega (
  arith,
  length-append (replicate (suc k - length (decimal n)) fill) (decimal n),
  length-replicate (suc k - length (decimal n)) fill,
  length-decimal_digits n k h,
)

length-joined :
    (xs : Bytes) (c : ℕ) (ys : Bytes) (m n : ℕ)
    → length xs ≡ m
    → length ys ≡ n
    → length (xs ++ c ∷ ys) ≡ m + suc n
length-joined xs c ys m n h k = omega (arith, length-append xs (c ∷ ys), h, k)

length-minute_text : (tm : CalendarTime) → IsCalendar tm → length (minute_text tm) ≡ 17
unfolding minute_text
length-minute_text tm h =
    length-joined _ _ _ 4 12 (length-padded b' ' 3 _ (omega (arith, h.year))) (
      length-joined _ _ _ 2 9 (length-padded b'0' 1 _ (omega (arith, h.month))) (
        length-joined _ _ _ 2 6 (length-padded b'0' 1 _ (omega (arith, h.day))) (
          length-joined _ _ _ 2 3 (length-padded b'0' 1 _ (omega (arith, h.hour)))
            (length-joined _ _ _ 2 0 (length-padded b'0' 1 _ (omega (arith, h.minute))) refl))))

-- The 17 bytes end in front of the seconds.
pub take-calendar_text :
    (tm : CalendarTime) → IsCalendar tm → take 17 (calendar_text tm) ≡ minute_text tm
unfolding calendar_text
take-calendar_text tm h =
    ap (λ (n : ℕ). take n (minute_text tm ++ padded b'0' 2 tm.tm_sec))
      (sym (length-minute_text tm h))
    ∙ take-length-append (minute_text tm) (padded b'0' 2 tm.tm_sec)

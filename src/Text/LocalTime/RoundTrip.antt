-- ===== src/Text/LocalTime/RoundTrip.antt =====
-- zysoft/zysoft/utility/utility.h: a time that was printed is read back, but for daylight saving.
use zysoft.Prelude.{
  if◌then◌else◌, ℕ, zero, suc, ◌+◌, ◌-◌, ◌*◌, ◌/◌, ◌%◌, ◌<◌, ◌≡◌, refl, sym, ◌∙◌, ap, [], ◌∷◌, ◌++◌,
  Option, true, arith, ltb, ◌==◌, length, take, take_all, drop, replicate, length-append,
  length-replicate, Bool-cases, inl, inr,
}
use zysoft.Prelude.Int.{ℤ, pos, negsuc, add_ℕ, sub_ℕ}
use zysoft.Memory.Bytes.{take_prefix}
use zysoft.Text.Split.{Text}
use zysoft.Text.Decimal.{digits, decimal, value_from, value-decimal, length-digits}
use zysoft.Text.LocalTime.{
  Tm, pad, print_int, print_time, is_digit, skip_spaces, read_digits, read_signed, atoi, read_time,
  format_localtime, parse_localtime,
}

abbrev AllDigits : Text → Type 0
AllDigits [] = Unit {0}
AllDigits (c ∷ s) = (is_digit c ≡ true) × AllDigits s

AllDigits-append : (s t : Text) → AllDigits s → AllDigits t → AllDigits (s ++ t)
AllDigits-append [] t p q = q
AllDigits-append (c ∷ s) t p q = (p.0, AllDigits-append s t p.1 q)

digits-AllDigits : (fuel n : ℕ) → AllDigits (digits fuel n)
unfolding digits
digits-AllDigits zero n = tt
digits-AllDigits (suc fuel) n = elim (Bool-cases (ltb n 10)) [
  | inl e ↦ rw e (ground arith, tt)
  | inr e ↦ rw e (
      AllDigits-append (digits fuel (n / 10)) ((48 + n % 10) ∷ []) (digits-AllDigits fuel (n / 10))
        (ground arith, tt))
]

zeros-AllDigits : (k : ℕ) → AllDigits (replicate k 48)
zeros-AllDigits zero = tt
zeros-AllDigits (suc k) = (refl, zeros-AllDigits k)

pad-AllDigits : (width n : ℕ) → AllDigits (pad width (decimal n))
unfolding decimal
pad-AllDigits width n =
    AllDigits-append (replicate (width - length (decimal n)) 48) (decimal n)
      (zeros-AllDigits (width - length (decimal n))) (digits-AllDigits (suc n) n)

read_digits-value_from : (acc : ℕ) (s : Text) → AllDigits s → read_digits acc s ≡ value_from acc s
unfolding read_digits
read_digits-value_from acc [] p = refl
read_digits-value_from acc (c ∷ s) p = rw p.0 (read_digits-value_from (acc * 10 + (c - 48)) s p.1)

value_from-zeros : (k : ℕ) (s : Text) → value_from 0 (replicate k 48 ++ s) ≡ value_from 0 s
value_from-zeros zero s = refl
value_from-zeros (suc k) s = value_from-zeros k s

-- `atoi` of digits.
atoi_of_digits : (s : Text) → AllDigits s → atoi s ≡ pos (value_from 0 s)
unfolding atoi skip_spaces read_signed
atoi_of_digits [] p = refl
atoi_of_digits (c ∷ s) p = ground (arith, read_digits-value_from 0 (c ∷ s) p)

-- What is printed of a number is read as that number.
atoi-print_int : (width n : ℕ) → atoi (print_int width (pos n)) ≡ pos n
unfolding print_int
atoi-print_int width n =
    atoi_of_digits (pad width (decimal n)) (pad-AllDigits width n)
    ∙ ap pos (value_from-zeros (width - length (decimal n)) (decimal n) ∙ value-decimal n)

length-print_two : (n : ℕ) → n < 100 → length (print_int 2 (pos n)) ≡ 2
unfolding print_int decimal
length-print_two n p = omega (
  arith,
  length-append (replicate (2 - length (decimal n)) 48) (decimal n),
  length-replicate {A = ℕ} (2 - length (decimal n)) 48,
  length-digits 1 (suc n) n (omega arith),
)

length-print_four : (n : ℕ) → n < 10000 → length (print_int 4 (pos n)) ≡ 4
unfolding print_int decimal
length-print_four n p = omega (
  arith,
  length-append (replicate (4 - length (decimal n)) 48) (decimal n),
  length-replicate {A = ℕ} (4 - length (decimal n)) 48,
  length-digits 3 (suc n) n (omega arith),
)

drop_past : (n m : ℕ) (p r : Text) → length p ≡ n → drop (n + m) (p ++ r) ≡ drop m r
drop_past zero m [] r e = let q : 0 + m ≡ m = omega arith in ap (λ i. drop i r) q
drop_past zero m (x ∷ p) r e = absurd (omega arith)
drop_past (suc n) m [] r e = absurd (omega arith)
drop_past (suc n) m (x ∷ p) r e =
    let q : suc n + m ≡ suc (n + m) = omega arith in
    ap (λ i. drop i (x ∷ (p ++ r))) q ∙ drop_past n m p r (omega arith)

-- The year `y` and the month `o`, from 1 on, as `struct tm` has them.
abbrev pub tm_year_of : ℕ → ℤ
tm_year_of y = if ltb y 1900 then negsuc (1899 - y) else pos (y - 1900)

abbrev pub tm_mon_of : ℕ → ℤ
tm_mon_of zero = negsuc 0
tm_mon_of (suc o) = pos o

year_printed : (y : ℕ) → add_ℕ (tm_year_of y) 1900 ≡ pos y
year_printed y = ground arith

year_read : (y : ℕ) → sub_ℕ (pos y) 1900 ≡ tm_year_of y
year_read y = ground arith

month_printed : (o : ℕ) → add_ℕ (tm_mon_of o) 1 ≡ pos o
month_printed zero = refl
month_printed (suc o) = ap pos (omega arith)

month_read : (o : ℕ) → sub_ℕ (pos o) 1 ≡ tm_mon_of o
month_read zero = refl
month_read (suc o) = ground arith

abbrev pub time_of : ℕ → ℕ → ℕ → ℕ → ℕ → ℕ → ℤ → Tm
time_of y o d h m s is_dst = record {
  tm_year = tm_year_of y;
  tm_mon = tm_mon_of o;
  mday = pos d;
  hour = pos h;
  min = pos m;
  sec = pos s;
  is_dst = is_dst;
}

abbrev fields : ℤ → ℤ → ℤ → ℤ → ℤ → ℤ → Tm
fields y o d h m s = record {
  tm_year = y;
  tm_mon = o;
  mday = d;
  hour = h;
  min = m;
  sec = s;
  is_dst = pos 0;
}

time_line :
    {y y' o o' d d' h h' m m' s s' : ℤ}
    → y ≡ y'
    → o ≡ o'
    → d ≡ d'
    → h ≡ h'
    → m ≡ m'
    → s ≡ s'
    → fields y o d h m s ≡ fields y' o' d' h' m' s'
time_line a b c d e f = λ i. record {
  tm_year = a i;
  tm_mon = b i;
  mday = c i;
  hour = d i;
  min = e i;
  sec = f i;
  is_dst = pos 0;
}

abbrev pub line : Text → Text → Text → Text → Text → Text → Text
line year month mday hour min sec = year ++ (month ++ (mday ++ 95 ∷ (hour ++ (min ++ sec))))

module _ (year month mday hour min sec : Text) (y4 : length year ≡ 4) (o2 : length month ≡ 2)
    (d2 : length mday ≡ 2) (h2 : length hour ≡ 2) (m2 : length min ≡ 2) (s2 : length sec ≡ 2) where
  abbrev all : Text
  all = line year month mday hour min sec

  length-line : length all ≡ 15
  length-line = omega (
    arith,
    length-append year (month ++ (mday ++ 95 ∷ (hour ++ (min ++ sec)))),
    length-append month (mday ++ 95 ∷ (hour ++ (min ++ sec))),
    length-append mday (95 ∷ (hour ++ (min ++ sec))),
    length-append hour (min ++ sec),
    length-append min sec,
  )

  year_at : take 4 (drop 0 all) ≡ year
  year_at = take_prefix 4 year _ (sym y4)

  month_at : take 2 (drop 4 all) ≡ month
  month_at =
      ap (take 2) (drop_past 4 0 year (month ++ (mday ++ 95 ∷ (hour ++ (min ++ sec)))) y4)
      ∙ take_prefix 2 month _ (sym o2)

  mday_at : take 2 (drop 6 all) ≡ mday
  mday_at =
      ap (take 2) (
        drop_past 4 2 year (month ++ (mday ++ 95 ∷ (hour ++ (min ++ sec)))) y4
        ∙ drop_past 2 0 month (mday ++ 95 ∷ (hour ++ (min ++ sec))) o2)
      ∙ take_prefix 2 mday _ (sym d2)

  time_at : (k : ℕ) → drop (9 + k) all ≡ drop k (hour ++ (min ++ sec))
  time_at k =
      ap (λ i. drop i all) (omega arith)
      ∙ drop_past 4 (2 + (2 + (1 + k))) year (month ++ (mday ++ 95 ∷ (hour ++ (min ++ sec)))) y4
      ∙ drop_past 2 (2 + (1 + k)) month (mday ++ 95 ∷ (hour ++ (min ++ sec))) o2
      ∙ drop_past 2 (1 + k) mday (95 ∷ (hour ++ (min ++ sec))) d2
      ∙ drop_past 1 k (95 ∷ []) (hour ++ (min ++ sec)) refl

  hour_at : take 2 (drop 9 all) ≡ hour
  hour_at = ap (take 2) (time_at 0) ∙ take_prefix 2 hour _ (sym h2)

  min_at : take 2 (drop 11 all) ≡ min
  min_at =
      ap (take 2) (time_at 2 ∙ drop_past 2 0 hour (min ++ sec) h2) ∙ take_prefix 2 min _ (sym m2)

  sec_at : take 2 (drop 13 all) ≡ sec
  sec_at =
      ap (take 2) (time_at 4 ∙ drop_past 2 2 hour (min ++ sec) h2 ∙ drop_past 2 0 min sec m2)
      ∙ take_all 2 sec (omega arith)

  read_line :
      read_time all
      ≡ fields
          (sub_ℕ (atoi year) 1900)
          (sub_ℕ (atoi month) 1)
          (atoi mday)
          (atoi hour)
          (atoi min)
          (atoi sec)
  unfolding read_time
  read_line =
      time_line (ap (λ x. sub_ℕ (atoi x) 1900) year_at) (ap (λ x. sub_ℕ (atoi x) 1) month_at)
        (ap atoi mday_at) (ap atoi hour_at) (ap atoi min_at) (ap atoi sec_at)

abbrev pub two : ℕ → Text
two n = print_int 2 (pos n)

module _ (y o d h m s : ℕ) (yl : y < 10000) (ol : o < 100) (dl : d < 100) (hl : h < 100)
    (ml : m < 100) (sl : s < 100) where
  abbrev printed : Text
  printed = line (print_int 4 (pos y)) (two o) (two d) (two h) (two m) (two s)

  length-printed : length printed ≡ 15
  length-printed =
      length-line (print_int 4 (pos y)) (two o) (two d) (two h) (two m) (two s)
        (length-print_four y yl) (length-print_two o ol) (length-print_two d dl)
        (length-print_two h hl) (length-print_two m ml) (length-print_two s sl)

  printed_line : (is_dst : ℤ) → print_time (time_of y o d h m s is_dst) ≡ printed
  unfolding print_time
  printed_line is_dst =
      rw (year_printed y, month_printed o) (take_all 63 printed (omega (arith, length-printed)))

  read_printed : read_time printed ≡ time_of y o d h m s (pos 0)
  read_printed =
      read_line (print_int 4 (pos y)) (two o) (two d) (two h) (two m) (two s)
        (length-print_four y yl) (length-print_two o ol) (length-print_two d dl)
        (length-print_two h hl) (length-print_two m ml) (length-print_two s sl)
      ∙ time_line (ap (λ x. sub_ℕ x 1900) (atoi-print_int 4 y) ∙ year_read y)
          (ap (λ x. sub_ℕ x 1) (atoi-print_int 2 o) ∙ month_read o) (atoi-print_int 2 d)
          (atoi-print_int 2 h) (atoi-print_int 2 m) (atoi-print_int 2 s)

module _ (localtime : ℕ → Tm) (mktime : Tm → Option ℕ) where
  -- What is printed of a time of a year below 10000, a month, from 1 on, and other fields below 100 is its year in four
  -- digits and the other fields in two, with a line between day and hour, and is read as that time, but for the flag of
  -- daylight saving, which is read as 0.
  pub parse-format :
      (t y o d h m s : ℕ) (is_dst : ℤ)
      → localtime t ≡ time_of y o d h m s is_dst
      → y < 10000
      → o < 100
      → d < 100
      → h < 100
      → m < 100
      → s < 100
      → (format_localtime localtime mktime t
          ≡ line (print_int 4 (pos y)) (two o) (two d) (two h) (two m) (two s))
        × (parse_localtime localtime mktime (format_localtime localtime mktime t)
            ≡ mktime (time_of y o d h m s (pos 0)))
  unfolding format_localtime parse_localtime
  parse-format t y o d h m s is_dst e yl ol dl hl ml sl =
      let all = printed y o d h m s yl ol dl hl ml sl in
      let shown : print_time (localtime t) ≡ all =
        ap print_time e ∙ printed_line y o d h m s yl ol dl hl ml sl is_dst in
      let fits : (length all == 15) ≡ true =
        ground (arith, length-printed y o d h m s yl ol dl hl ml sl) in
      (shown, rw shown (rw fits (ap mktime (read_printed y o d h m s yl ol dl hl ml sl))))

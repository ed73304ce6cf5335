-- ===== src/Text/LocalTime.antt =====
-- zysoft/zysoft/utility/utility.h: `Localtime_YYYYMMDD_HHMMSS` and `YYYYMMDD_HHMMSS_ToLocaltime`. What
-- `localtime_r` and `mktime` of the C library do is a parameter; a `time_t` is a number, and `none` the -1 of
-- `mktime`. 45 is '-', 48 is '0', 95 is '_'.
pub mod RoundTrip
mod Tests
use zysoft.Prelude.{
  ℕ, zero, suc, ◌+◌, ◌-◌, ◌*◌, List, [], ◌∷◌, ◌++◌, Option, none, some, Bool, ◌&&◌, ◌||◌,
  if◌then◌else◌, leb, ◌==◌, length, take, drop, replicate,
}
use zysoft.Prelude.Int.{ℤ, pos, negsuc, add_ℕ, sub_ℕ}
use zysoft.Text.Split.{Text}
use zysoft.Text.Decimal.{decimal}

-- The fields of `struct tm` that are used: `tm_year` counts from 1900, `tm_mon` from 0. Their sums are below 2 ^ 31.
pub record Tm : Type 0 where
  pub tm_year : ℤ
  pub tm_mon : ℤ
  pub mday : ℤ
  pub hour : ℤ
  pub min : ℤ
  pub sec : ℤ
  pub is_dst : ℤ

abbrev pub pad : ℕ → Text → Text
pad width s = replicate (width - length s) 48 ++ s

-- `%02d` and `%04d`
unfoldable pub print_int : ℕ → ℤ → Text
print_int width (pos n) = pad width (decimal n)
print_int width (negsuc n) = 45 ∷ pad (width - 1) (decimal (n + 1))

unfoldable pub print_time : Tm → Text
print_time tm = take 63 (
    print_int 4 (add_ℕ tm.tm_year 1900)
    ++ (print_int 2 (add_ℕ tm.tm_mon 1)
        ++ (print_int 2 tm.mday
            ++ 95 ∷ (print_int 2 tm.hour ++ (print_int 2 tm.min ++ print_int 2 tm.sec)))))

abbrev pub is_space : ℕ → Bool
is_space c = c == 32 || (leb 9 c && leb c 13)

abbrev pub is_digit : ℕ → Bool
is_digit c = leb 48 c && leb c 57

-- The parts of `atoi`: white space, a sign, and digits up to the first other character.
unfoldable pub skip_spaces : Text → Text
skip_spaces [] = []
skip_spaces (c ∷ s) = if is_space c then skip_spaces s else c ∷ s

unfoldable pub read_digits : ℕ → Text → ℕ
read_digits acc [] = acc
read_digits acc (c ∷ s) =
    let rest = read_digits (acc * 10 + (c - 48)) s in if is_digit c then rest else acc

unfoldable pub negate : ℕ → ℤ
negate zero = pos 0
negate (suc n) = negsuc n

unfoldable pub read_signed : Text → ℤ
read_signed [] = pos 0
read_signed (c ∷ s) =
    if c == 45
    then negate (read_digits 0 s)
    else if c == 43
    then pos (read_digits 0 s)
    else pos (read_digits 0 (c ∷ s))

unfoldable pub atoi : Text → ℤ
unfolding skip_spaces read_signed
atoi s = read_signed (skip_spaces s)

-- `n` characters from the position `i` on, as a number.
abbrev pub field : ℕ → ℕ → Text → ℤ
field i n s = atoi (take n (drop i s))

unfoldable pub read_time : Text → Tm
read_time s = record {
  tm_year = sub_ℕ (field 0 4 s) 1900;
  tm_mon = sub_ℕ (field 4 2 s) 1;
  mday = field 6 2 s;
  hour = field 9 2 s;
  min = field 11 2 s;
  sec = field 13 2 s;
  is_dst = pos 0;
}

module _ (localtime : ℕ → Tm) (mktime : Tm → Option ℕ) where
  -- `Localtime_YYYYMMDD_HHMMSS`
  unfoldable pub format_localtime : ℕ → Text
  format_localtime t = print_time (localtime t)

  -- `YYYYMMDD_HHMMSS_ToLocaltime`; `none` is its result false.
  unfoldable pub parse_localtime : Text → Option ℕ
  parse_localtime s = if length s == 15 then mktime (read_time s) else none

-- ===== src/Text/LocalTime/Tests.antt =====
-- zysoft/zysoft/utility/utility.h: the 7th of March 2021, 08:05:09, in summer time.
use zysoft.Prelude.{ℕ, ◌≡◌, refl, Option, some, arith}
use zysoft.Prelude.Int.{pos}
use zysoft.Text.LocalTime.{Tm, print_int, format_localtime, parse_localtime}
use zysoft.Text.LocalTime.RoundTrip.{line, two, time_of, parse-format}

abbrev summer : ℕ → Tm
summer t = time_of 2021 3 7 8 5 9 (pos 1)

abbrev any_time : Tm → Option ℕ
any_time tm = some 1615104309

parse-format_example :
    (format_localtime summer any_time 1615100709
      ≡ line (print_int 4 (pos 2021)) (two 3) (two 7) (two 8) (two 5) (two 9))
    × (parse_localtime summer any_time (format_localtime summer any_time 1615100709)
        ≡ any_time (time_of 2021 3 7 8 5 9 (pos 0)))
parse-format_example =
    parse-format summer any_time 1615100709 2021 3 7 8 5 9 (pos 1) refl (omega arith) (omega arith)
      (omega arith) (omega arith) (omega arith) (omega arith)

-- ===== src/Text/Tests.antt =====
-- The text functions at concrete texts.
use zysoft.Prelude.{◌≡◌, List, [], ◌∷◌, ◌++◌, some, arith, length, drop, ◌-◌}
use zysoft.Text.Split.{Text, Fields, split, str_split}
use zysoft.Text.Split.General.{IsSplit}
use zysoft.Text.Split.Correct.{split-IsSplit}
use zysoft.Text.Split.Lines.{terminated, complete, AllLack, str_split_lem}
use zysoft.Text.CmdArgs.{parse}
use zysoft.Text.CmdArgs.RoundTrip.{rebuild, parse_loses_nothing}
use zysoft.Text.CmdArgs.Printed.{AllWritten, parse-AllWritten}
use zysoft.Text.Comments.{filter_comment}
use zysoft.Text.Comments.Filtered.{keep, lines_of, filter_comment_lem}

-- "a,b,,c"
abbrev commas : Text
commas = 97 ∷ 44 ∷ 98 ∷ 44 ∷ 44 ∷ 99 ∷ []

split-IsSplit_example : (out : Fields) × (split 3 44 commas ≡ some out) × IsSplit 1 44 commas out
split-IsSplit_example = split-IsSplit 1 44 commas (omega arith)

str_split_lem_example :
    (terminated 44 (str_split commas 44) ≡ complete 44 commas) × AllLack 44 (str_split commas 44)
str_split_lem_example = str_split_lem commas 44

-- x --a=b c -d
abbrev argv : List Text
argv = (120 ∷ []) ∷ (45 ∷ 45 ∷ 97 ∷ 61 ∷ 98 ∷ []) ∷ (99 ∷ []) ∷ (45 ∷ 100 ∷ []) ∷ []

parse_loses_nothing_example :
    let a = parse argv in rebuild (length argv - 1) 1 a.options a.values ≡ drop 1 argv
parse_loses_nothing_example = parse_loses_nothing argv

-- Written behind "a".
parse-AllWritten_example : AllWritten (97 ∷ []) (parse argv).options
parse-AllWritten_example = parse-AllWritten (97 ∷ []) argv

-- "a", " # b", "c", of which the last has no end of a line
abbrev comments : Text
comments = 97 ∷ 10 ∷ 32 ∷ 35 ∷ 32 ∷ 98 ∷ 10 ∷ 99 ∷ []

filter_comment_lem_example :
    (filter_comment comments ≡ terminated 10 (keep (lines_of comments)))
    × (terminated 10 (lines_of comments) ≡ comments ++ 10 ∷ [])
    × AllLack 10 (lines_of comments)
filter_comment_lem_example = filter_comment_lem comments

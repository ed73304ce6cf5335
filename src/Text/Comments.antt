-- ===== src/Text/Comments.antt =====
-- zysoft/zysoft/utility/detail/utility.cpp: `filter_comment`. 9 is a tab, 10 the end of a line, 35 is '#'.
pub mod Filtered
use zysoft.Prelude.{
  ℕ, zero, suc, ◌+◌, ◌%◌, List, [], ◌∷◌, ◌++◌, Option, none, some, Bool, true, false, ◌||◌,
  if◌then◌else◌, ◌==◌, length,
}
use zysoft.Text.Split.{Text, find, after_delim}

-- The loop over the characters of a line.
unfoldable pub is_comment : Text → Bool
is_comment [] = false
is_comment (c ∷ s) = if c == 32 || c == 9 then is_comment s else c == 35

-- `istm.eof()` behind a `getline` that stopped at `it`
abbrev pub at_end : Text → Bool
at_end [] = true
at_end (c ∷ it) = false

-- The loop over the lines, with fuel: it goes on while the last `getline` found the end of a line.
unfoldable pub filter_rounds : ℕ → Text → Text
filter_rounds zero s = []
filter_rounds (suc fuel) s =
    let (line, it) = find 10 s in
    let rest = filter_rounds fuel (after_delim it) in
    let out = if is_comment line then [] else line ++ 10 ∷ [] in
    if at_end it then out else out ++ rest

unfoldable pub filter_comment : Text → Text
filter_comment s = filter_rounds (suc (length s)) s

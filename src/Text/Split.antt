-- ===== src/Text/Split.antt =====
-- zysoft/zysoft/string/split_functions.h: the five `detail::split_impl`, which `split` calls, and
-- `str_split`.
--
-- An iterator into `[s, e)` is the text from it up to `e`. `std::find` and `std::getline` are the
-- standard library's.
pub mod General
pub mod Correct
pub mod Lines
use zysoft.Prelude.{
  ℕ, zero, suc, ◌+◌, List, [], ◌∷◌, ◌++◌, Option, none, some, if◌then◌else◌, ◌==◌, length,
}

abbrev pub Text : Type 0
Text = List ℕ

-- `std::find(it0, e, delim)`: the text before the result, and that from it on.
unfoldable pub find : ℕ → Text → Text × Text
find delim [] = ([], [])
find delim (c ∷ s) = let (a, b) = find delim s in if c == delim then ([], c ∷ s) else (c ∷ a, b)

-- `(it1 != e) ? 1 : 0`
abbrev pub found : Text → ℕ
found [] = 0
found (c ∷ s) = 1

-- The block that sets the next recipient but the last, at `it1`.
unfoldable pub next_field : ℕ → Text → ℕ → Text × Text × ℕ
next_field delim [] cnt = ([], [], cnt)
next_field delim (_ ∷ it0) cnt = let (a, it1) = find delim it0 in (a, it1, cnt + 1)

-- The block that sets the last recipient.
unfoldable pub last_field : Text → ℕ → Text × ℕ
last_field [] cnt = ([], cnt)
last_field (_ ∷ it0) cnt = (it0, cnt + 1)

-- The recipients and the result.
abbrev pub Fields : Type 0
Fields = List Text × ℕ

unfoldable pub split_impl_two : ℕ → Text → Fields
split_impl_two delim s =
    let (s0, it) = find delim s in let (s1, cnt) = last_field it (found it) in (s0 ∷ s1 ∷ [], cnt)

unfoldable pub split_impl_three : ℕ → Text → Fields
split_impl_three delim s =
    let (s0, it) = find delim s in
    let (s1, it', n) = next_field delim it (found it) in
    let (s2, cnt) = last_field it' n in (s0 ∷ s1 ∷ s2 ∷ [], cnt)

unfoldable pub split_impl_four : ℕ → Text → Fields
split_impl_four delim s =
    let (s0, it) = find delim s in
    let (s1, it1, n1) = next_field delim it (found it) in
    let (s2, it2, n2) = next_field delim it1 n1 in
    let (s3, cnt) = last_field it2 n2 in (s0 ∷ s1 ∷ s2 ∷ s3 ∷ [], cnt)

unfoldable pub split_impl_five : ℕ → Text → Fields
split_impl_five delim s =
    let (s0, it) = find delim s in
    let (s1, it1, n1) = next_field delim it (found it) in
    let (s2, it2, n2) = next_field delim it1 n1 in
    let (s3, it3, n3) = next_field delim it2 n2 in
    let (s4, cnt) = last_field it3 n3 in (s0 ∷ s1 ∷ s2 ∷ s3 ∷ s4 ∷ [], cnt)

unfoldable pub split_impl_six : ℕ → Text → Fields
split_impl_six delim s =
    let (s0, it) = find delim s in
    let (s1, it1, n1) = next_field delim it (found it) in
    let (s2, it2, n2) = next_field delim it1 n1 in
    let (s3, it3, n3) = next_field delim it2 n2 in
    let (s4, it4, n4) = next_field delim it3 n3 in
    let (s5, cnt) = last_field it4 n4 in (s0 ∷ s1 ∷ s2 ∷ s3 ∷ s4 ∷ s5 ∷ [], cnt)

-- `split` by its number of recipients; it passes the text and its length on. The asserts, that no
-- recipient is the source, hold as the recipients are results here.
unfoldable pub split : ℕ → ℕ → Text → Option Fields
split (suc (suc zero)) delim s = some (split_impl_two delim s)
split (suc (suc (suc zero))) delim s = some (split_impl_three delim s)
split (suc (suc (suc (suc zero)))) delim s = some (split_impl_four delim s)
split (suc (suc (suc (suc (suc zero))))) delim s = some (split_impl_five delim s)
split (suc (suc (suc (suc (suc (suc zero)))))) delim s = some (split_impl_six delim s)
split _ delim s = none

-- The text behind the delimiter that a line ends at, if it ends at one.
abbrev pub after_delim : Text → Text
after_delim [] = []
after_delim (_ ∷ it) = it

-- What `std::getline(istm, temp, c)` reads and leaves; it fails at the end of the stream.
unfoldable pub getline : ℕ → Text → Option (Text × Text)
getline delim [] = none
getline delim (c ∷ s) = let (line, it) = find delim (c ∷ s) in some (line, after_delim it)

-- The `while` of `str_split`, with fuel.
unfoldable pub read_lines : ℕ → ℕ → Text → List Text → List Text
read_lines zero delim s out = out
read_lines (suc fuel) delim s out = elim (getline delim s) [
  | none ↦ out
  | some (line, rest) ↦ read_lines fuel delim rest (out ++ line ∷ [])
]

-- Every line read takes a character, so as many rounds as the text has are enough.
unfoldable pub str_split : Text → ℕ → List Text
str_split s c = read_lines (length s) c s []

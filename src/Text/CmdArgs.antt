-- ===== src/Text/CmdArgs.antt =====
-- zysoft/zysoft/utility/cmdargs.h: `basic_cmdargs`, which sorts a command line into options and values.
--
-- A C string is the text before its NUL. An iterator that `has_option_` and `has_value_` return is the
-- element it stands at, `end()` is `none`. 45 is '-', 61 is '='.
pub mod RoundTrip
pub mod Lookup
pub mod Printed
use zysoft.Prelude.{
  ℕ, zero, suc, ◌+◌, List, [], ◌∷◌, ◌++◌, Option, none, some, Bool, true, false, ◌&&◌, ◌||◌, not,
  if◌then◌else◌, ◌==◌, length, drop,
}
use zysoft.Prelude.Int.{ℤ, pos, negsuc}
use zysoft.Text.Split.{Text, find, found, last_field}
use zysoft.Text.Equality.{same_text}

abbrev pub same_int : ℤ → ℤ → Bool
same_int (pos m) (pos n) = m == n
same_int (negsuc m) (negsuc n) = m == n
same_int (pos m) (negsuc n) = false
same_int (negsuc m) (pos n) = false

abbrev pub single_dash : ℤ
single_dash = pos 1

abbrev pub double_dash : ℤ
double_dash = pos 2

pub record CmdOption : Type 0 where
  pub name : Text
  pub value : Text
  pub type : ℤ
  pub index : ℕ
  pub original : Text

pub record CmdValue : Type 0 where
  pub name : Text
  pub index : ℕ

pub record CmdArgs : Type 0 where
  pub options : List CmdOption
  pub values : List CmdValue

-- The class's own `split_impl`: the two recipients.
unfoldable pub split_option : ℕ → Text → Text × Text
split_option delim s = let (s0, it) = find delim s in (s0, (last_field it (found it)).0)

-- `option::to_string`: `&s_dashes[type == singleDash]` is one dash or two, and behind them stand the
-- name and, unless it is empty, the value.
unfoldable pub dashes : ℤ → Text
dashes type = if same_int type single_dash then 45 ∷ [] else 45 ∷ 45 ∷ []

unfoldable pub spell : Text → Text → Text
spell name [] = name
spell name (c ∷ s) = name ++ 61 ∷ c ∷ s

unfoldable pub to_string : CmdOption → Text
unfolding dashes spell
to_string o = dashes o.type ++ spell o.name o.value

unfoldable pub value_to_string : CmdValue → Text
value_to_string v = v.name

-- `operator <<` of an option: what the stream holds afterwards.
unfoldable pub insert_spelled : Text → Text → Text → Text
insert_spelled stm name [] = stm ++ name
insert_spelled stm name (c ∷ s) = ((stm ++ name) ++ 61 ∷ []) ++ c ∷ s

unfoldable pub insert_option : Text → CmdOption → Text
unfolding dashes insert_spelled
insert_option stm o = insert_spelled (stm ++ dashes o.type) o.name o.value

-- `operator <<` of a value.
unfoldable pub insert_value : Text → CmdValue → Text
insert_value stm v = stm ++ v.name

-- The type of an option from the text behind its first dash, and the text to split.
unfoldable pub dashes_of : Text → ℤ × Text
dashes_of [] = (single_dash, [])
dashes_of (c ∷ arg) = if c == 45 then (double_dash, arg) else (single_dash, c ∷ arg)

unfoldable pub option_of : ℕ → Text → Text → CmdOption
option_of i original arg =
    let (type, rest) = dashes_of arg in
    let (s0, s1) = split_option 61 rest in
    record { name = s0; value = s1; type = type; index = i; original = original }

-- `'-' == arg[0]`
abbrev pub is_dashed : Text → Bool
is_dashed [] = false
is_dashed (c ∷ arg) = c == 45

-- A round of the constructor's loop.
unfoldable pub take_arg : ℕ → Text → CmdArgs → CmdArgs
take_arg i [] a = record a { values = a.values ++ record { name = []; index = i } ∷ [] }
take_arg i (c ∷ arg) a =
    if c == 45
    then record a { options = a.options ++ option_of i (c ∷ arg) arg ∷ [] }
    else record a { values = a.values ++ record { name = c ∷ arg; index = i } ∷ [] }

unfoldable pub take_args : ℕ → List Text → CmdArgs → CmdArgs
take_args i [] a = a
take_args i (arg ∷ argv) a = take_args (suc i) argv (take_arg i arg a)

-- `basic_cmdargs(argc, argv)`; the program's name is left out.
unfoldable pub parse : List Text → CmdArgs
parse argv = take_args 1 (drop 1 argv) (record { options = []; values = [] })

abbrev pub options_size : CmdArgs → ℕ
options_size a = length a.options

abbrev pub values_size : CmdArgs → ℕ
values_size a = length a.values

abbrev pub size : CmdArgs → ℕ
size a = options_size a + values_size a

abbrev pub is_empty : CmdArgs → Bool
is_empty a = 0 == size a

abbrev pub is_match : Text → ℤ → CmdOption → Bool
is_match option_name type o =
    same_text o.name option_name && (same_int (negsuc 0) type || same_int type o.type)

unfoldable pub find_option : Text → ℤ → List CmdOption → Option CmdOption
find_option option_name type [] = none
find_option option_name type (o ∷ os) =
    if is_match option_name type o then some o else find_option option_name type os

unfoldable pub find_value : Text → List CmdValue → Option CmdValue
find_value value_name [] = none
find_value value_name (v ∷ vs) =
    if same_text v.name value_name then some v else find_value value_name vs

-- `has_option` with an instance to fill in, which stays as it was where there is no such option.
unfoldable pub has_option : Text → ℤ → CmdOption → CmdArgs → Bool × CmdOption
has_option option_name type opt a = elim (find_option option_name type a.options) [
  | none ↦ (false, opt)
  | some o ↦ (true, o)
]

unfoldable pub has_value : Text → CmdValue → CmdArgs → Bool × CmdValue
has_value value_name val a = elim (find_value value_name a.values) [
  | none ↦ (false, val)
  | some v ↦ (true, v)
]

-- The overloads without an instance to fill in.
unfoldable pub contains_option : Text → ℤ → CmdArgs → Bool
contains_option option_name type a = elim (find_option option_name type a.options) [
  | none ↦ false
  | some o ↦ true
]

unfoldable pub contains_value : Text → CmdArgs → Bool
contains_value value_name a = elim (find_value value_name a.values) [ none ↦ false | some v ↦ true ]

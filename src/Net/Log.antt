-- ===== src/Net/Log.antt =====
-- zysoft/net/log.h and log.cpp. What the format and its arguments come to is an argument, the text `formatted`.
mod Tests
use zysoft.Prelude.{
  ℕ, zero, suc, ◌+◌, ◌-◌, ◌≤◌, ◌<◌, ◌≡◌, sym, List, [], ◌∷◌, ◌++◌, Option, none, some, Bool, false,
  arith, if◌then◌else◌, ltb, leb, length, take, take_all, length-take, min,
}
use zysoft.Prelude.Int.{ℤ, pos, negsuc}
use zysoft.Text.Split.{Text}

-- `log_severity`
pub data Severity : Type 0 where
  trace info warn fatal num_severity : Severity

abbrev pub rank : Severity → ℕ
rank trace = 0
rank info = 1
rank warn = 2
rank fatal = 3
rank num_severity = 4

-- A message handed to the callback, or a line written to `stderr`.
pub data Output : Type 0 where
  calls_back : Severity → Text → Output
  writes : Text → Output

-- `g_log_function`, which is null or not, and `g_log_severity`, with what was put out, the last message first.
pub record Logger : Type 0 where
  pub has_callback : Bool
  pub severity : Severity
  pub outputs : List Output

unfoldable pub create_logger : Logger
create_logger = record { has_callback = false; severity = trace; outputs = [] }

unfoldable pub set_log_callback : Bool → Logger → Logger
set_log_callback present l = record l { has_callback = present }

unfoldable pub set_log_severity : Severity → Logger → Logger
set_log_severity severity l = record l { severity = severity }

-- "ZYSOFT_NET_"
abbrev pub name_prefix : Text
name_prefix = 90 ∷ 89 ∷ 83 ∷ 79 ∷ 70 ∷ 84 ∷ 95 ∷ 78 ∷ 69 ∷ 84 ∷ 95 ∷ []

-- That before "TRACE", "INFO ", "WARN " and "FATAL"; "???" for the others.
abbrev pub severity_name : Severity → Text
severity_name trace = name_prefix ++ 84 ∷ 82 ∷ 65 ∷ 67 ∷ 69 ∷ []
severity_name info = name_prefix ++ 73 ∷ 78 ∷ 70 ∷ 79 ∷ 32 ∷ []
severity_name warn = name_prefix ++ 87 ∷ 65 ∷ 82 ∷ 78 ∷ 32 ∷ []
severity_name fatal = name_prefix ++ 70 ∷ 65 ∷ 84 ∷ 65 ∷ 76 ∷ []
severity_name num_severity = 63 ∷ 63 ∷ 63 ∷ []

-- "[%s] %s\n"
abbrev pub log_line : Severity → Text → Text
log_line severity msg = 91 ∷ (severity_name severity ++ 93 ∷ 32 ∷ (msg ++ 10 ∷ []))

unfoldable pub print_log : Severity → Text → Logger → Logger
print_log severity msg l =
    let out = if l.has_callback then calls_back severity msg else writes (log_line severity msg) in
    record l { outputs = out ∷ l.outputs }

-- `vsnprintf` of log.cpp: the text left in a buffer of so many characters, and the result.
unfoldable pub vsnprintf : ℕ → Text → Text × ℤ
vsnprintf size formatted = (
  take (size - 1 - 1) formatted,
  if leb size (length formatted) then negsuc 0 else pos (length formatted),
)

unfoldable pub printf : Severity → Text → Logger → Logger
unfolding vsnprintf print_log
printf severity formatted l =
    if ltb (rank severity) (rank l.severity)
    then l
    else print_log severity (vsnprintf 1024 formatted).0 l

unfoldable pub printf_all : List (Severity × Text) → Logger → Logger
printf_all [] l = l
printf_all ((severity, formatted) ∷ ms) l = printf_all ms (printf severity formatted l)

-- What should be put out: the messages of the severity or above, each cut to 1022 characters.
abbrev pub wanted : Bool → Severity → List (Severity × Text) → List Output
wanted has_callback least [] = []
wanted has_callback least ((severity, formatted) ∷ ms) =
    let rest = wanted has_callback least ms in
    let msg = take 1022 formatted in
    if leb (rank least) (rank severity)
    then (if has_callback then calls_back severity msg else writes (log_line severity msg)) ∷ rest
    else rest

abbrev pub newest_first : List Output → List Output → List Output
newest_first [] done = done
newest_first (o ∷ os) done = newest_first os (o ∷ done)

-- A text of one character less than the buffer holds with its end is cut, though the result is its length.
pub vsnprintf_cuts :
    (size : ℕ) (formatted : Text)
    → 2 ≤ size
    → length formatted + 1 ≡ size
    → let (msg, r) = vsnprintf size formatted in
      (length msg + 1 ≡ length formatted) × (r ≡ pos (length formatted))
unfolding vsnprintf
vsnprintf_cuts size formatted p e =
    (omega (arith, length-take (size - 1 - 1) formatted), ground arith)

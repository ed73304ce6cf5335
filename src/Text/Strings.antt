-- ===== src/Text/Strings.antt =====
-- zysoft/zysoft/utility/utility.h, utility/detail/utility.cpp: `hex_dump`, `remove_last_char`,
-- `str_replace` and `str_remove`.
pub mod Facts
use zysoft.Prelude.{
  ℕ, zero, suc, ◌+◌, ◌/◌, ◌%◌, List, [], ◌∷◌, ◌++◌, Option, none, some, Bool, true, false, ◌&&◌,
  ◌||◌, not, if◌then◌else◌, ◌==◌, length, ltb,
}
use zysoft.Text.Split.{Text, getline}

-- "0123456789abcdef"[d]
abbrev pub hex : ℕ → ℕ
hex d = if ltb d 10 then 48 + d else 87 + d

-- `*b >> 4` and `*b & 0xf` of a byte.
unfoldable pub hex_dump : Text → Text
hex_dump [] = []
hex_dump (b ∷ s) = hex (b / 16) ∷ hex (b % 16) ∷ hex_dump s

-- `s.back() == c`, of a string that is not empty
unfoldable pub ends_with : ℕ → Text → Bool
ends_with c [] = false
ends_with c (x ∷ []) = x == c
ends_with c (x ∷ y ∷ s) = ends_with c (y ∷ s)

unfoldable pub pop_back : Text → Text
pop_back [] = []
pop_back (x ∷ []) = []
pop_back (x ∷ y ∷ s) = x ∷ pop_back (y ∷ s)

-- The `while`, with fuel: every round takes a character.
unfoldable pub remove_rounds : ℕ → Text → ℕ → Text
remove_rounds zero s c = s
remove_rounds (suc fuel) s c =
    let rest = remove_rounds fuel (pop_back s) c in if ends_with c s then rest else s

unfoldable pub remove_last_char : Text → ℕ → Text
remove_last_char s c = remove_rounds (length s) s c

-- The text and `t`.
unfoldable pub str_replace : Text → ℕ → ℕ → Text × ℕ
str_replace [] src dest = ([], 0)
str_replace (c ∷ s) src dest =
    let (r, t) = str_replace s src dest in if c == src then (dest ∷ r, t + 1) else (c ∷ r, t)

-- The text, as `std::remove` leaves it before its result, and the distance to the end.
unfoldable pub str_remove : Text → ℕ → Text × ℕ
str_remove [] src = ([], 0)
str_remove (c ∷ s) src =
    let (r, n) = str_remove s src in if c == src then (r, n + 1) else (c ∷ r, n)

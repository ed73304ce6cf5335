-- ===== src/Net/Buffer/Search.antt =====
-- zysoft/net/utility.h: `find`, `find_CRLF` and `find_EOL`, which look for a pattern in the readable
-- bytes of a buffer. A pointer into them is its distance from their start.
use zysoft.Prelude.{
  ℕ, zero, suc, ◌+◌, ◌≤◌, ◌<◌, ◌≡◌, [], ◌∷◌, Bool, true, false, ◌&&◌, Option, none, some, arith,
  ◌==◌, if◌then◌else◌, length, Bool-cases, inl, inr,
}
use native.Mathlib.Numerals.{add-one}
use zysoft.Memory.Bytes.{Bytes}
use zysoft.Memory.FlatBuffer.{Buffer, contents}

-- Does the text begin with the pattern?
unfoldable pub begins_with : Bytes → Bytes → Bool
begins_with [] s = true
begins_with (x ∷ p) [] = false
begins_with (x ∷ p) (c ∷ s) = x == c && begins_with p s

-- `std::search(b, b_e, p, p + p_len)`, the distance of the result from `b`.
unfoldable pub search_from : Bytes → Bytes → ℕ
search_from p [] = 0
search_from p (c ∷ s) = let n = search_from p s in if begins_with p (c ∷ s) then 0 else n + 1

-- `find(b, b_len, p, p_len)`
unfoldable pub find : Bytes → Bytes → Option ℕ
find s p = let it = search_from p s in if it == length s then none else some it

unfoldable pub find_in : Buffer → Bytes → Option ℕ
find_in b p = find (contents b) p

unfoldable pub find_crlf : Buffer → Option ℕ
find_crlf b = find_in b (13 ∷ 10 ∷ [])

unfoldable pub find_eol : Buffer → Option ℕ
find_eol b = find_in b (10 ∷ [])

-- `s` has the pattern at the distance `n`, and not before.
abbrev pub FirstAt : Bytes → Bytes → ℕ → Type 0
FirstAt p s zero = begins_with p s ≡ true
FirstAt p [] (suc n) = ⊥
FirstAt p (c ∷ s) (suc n) = (begins_with p (c ∷ s) ≡ false) × FirstAt p s n

abbrev pub Nowhere : Bytes → Bytes → Type 0
Nowhere p [] = Unit {0}
Nowhere p (c ∷ s) = (begins_with p (c ∷ s) ≡ false) × Nowhere p s

-- What `find` says of the text.
abbrev pub Finds : Bytes → Bytes → Option ℕ → Type 0
Finds p s none = Nowhere p s
Finds p s (some n) = (n < length s) × FirstAt p s n

search_from-le : (p s : Bytes) → search_from p s ≤ length s
unfolding search_from
search_from-le p [] = omega arith
search_from-le p (c ∷ s) = ground (arith, search_from-le p s)

search_end : (p s : Bytes) → search_from p s ≡ length s → Nowhere p s
unfolding search_from
search_end p [] e = tt
search_end p (c ∷ s) e = elim (Bool-cases (begins_with p (c ∷ s))) [
  | inl h ↦ absurd (ground arith)
  | inr h ↦ (h, search_end p s (ground arith))
]

search_inside : (p s : Bytes) → search_from p s < length s → FirstAt p s (search_from p s)
unfolding search_from
search_inside p [] h = absurd (omega arith)
search_inside p (c ∷ s) h = elim (Bool-cases (begins_with p (c ∷ s))) [
  | inl e ↦ rw e e
  | inr e ↦ rw (e, add-one) (e, search_inside p s (ground arith))
]

-- `find` returns the first place of the pattern in the text, inside it, and a null pointer if it is
-- nowhere at a byte of the text.
pub find-Finds : (s p : Bytes) → Finds p s (find s p)
unfolding find
find-Finds s p = elim (Bool-cases (search_from p s == length s)) [
  | inl e ↦ rw e (search_end p s (ground arith))
  | inr e ↦ rw e (
      let h : search_from p s < length s = ground (arith, search_from-le p s) in
      (h, search_inside p s h))
]

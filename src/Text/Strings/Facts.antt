-- ===== src/Text/Strings/Facts.antt =====
-- zysoft/zysoft/utility/utility.h, utility/detail/utility.cpp: what the string helpers compute.
use zysoft.Prelude.{
  ℕ, zero, suc, ◌+◌, ◌-◌, ◌*◌, ◌/◌, ◌%◌, ◌≤◌, ◌<◌, ◌≡◌, refl, sym, ap, ◌∙◌, [], ◌∷◌, ◌++◌, true,
  false, arith, if◌then◌else◌, ◌==◌, length, ltb, map, replicate, Bool-cases, inl, inr,
  append_assoc, append-nil,
}
use zysoft.Text.Split.{Text}
use zysoft.Text.Split.General.{occurrences}
use zysoft.Text.Strings.{
  hex, hex_dump, ends_with, pop_back, remove_rounds, remove_last_char, str_replace, str_remove,
}

-- The digit of a character, and the bytes that pairs of digits spell.
abbrev pub digit : ℕ → ℕ
digit c = if ltb c 58 then c - 48 else c - 87

abbrev pub unhex : Text → Text
unhex [] = []
unhex (c ∷ []) = []
unhex (c ∷ d ∷ s) = (digit c * 16 + digit d) ∷ unhex s

abbrev pub AllBytes : Text → Type 0
AllBytes [] = Unit {0}
AllBytes (b ∷ s) = (b < 256) × AllBytes s

digit-hex : (d : ℕ) → d < 16 → digit (hex d) ≡ d
digit-hex d p = ground arith

unhex_cons :
    (b : ℕ) (s t : Text) → b < 256 → unhex s ≡ t → unhex (hex (b / 16) ∷ hex (b % 16) ∷ s) ≡ b ∷ t
unhex_cons b s t p q =
    let high = digit-hex (b / 16) (omega arith) in
    let low = digit-hex (b % 16) (omega arith) in ground (arith, high, low)

-- `hex_dump` of bytes reads back as those bytes.
pub unhex-hex_dump : (s : Text) → AllBytes s → unhex (hex_dump s) ≡ s
unfolding hex_dump
unhex-hex_dump [] p = refl
unhex-hex_dump (b ∷ s) p = unhex_cons b (hex_dump s) s p.0 (unhex-hex_dump s p.1)

-- `str_replace` puts `dest` for every `src`, keeps the rest, and counts what it replaced.
pub str_replace_lem :
    (s : Text) (src dest : ℕ)
    → let (r, t) = str_replace s src dest in
      (r ≡ map (λ c. if c == src then dest else c) s) × (t ≡ occurrences src s)
unfolding str_replace
str_replace_lem [] src dest = (refl, refl)
str_replace_lem (c ∷ s) src dest = ground (arith, str_replace_lem s src dest)

-- `str_remove` leaves no `src`, keeps how often every other character stands in the text, and counts
-- what it removed.
pub str_remove_lem :
    (s : Text) (src d : ℕ)
    → let (r, n) = str_remove s src in
      (occurrences d r ≡ (if d == src then 0 else occurrences d s))
      × (n ≡ occurrences src s)
      × (length r + n ≡ length s)
unfolding str_remove
str_remove_lem [] src d = ground arith
str_remove_lem (c ∷ s) src d = ground (arith, str_remove_lem s src d)

pop_back_lem : (s : Text) (c : ℕ) → ends_with c s ≡ true → s ≡ pop_back s ++ c ∷ []
unfolding pop_back ends_with
pop_back_lem [] c e = absurd (ground arith)
pop_back_lem (x ∷ []) c e = ground arith
pop_back_lem (x ∷ y ∷ s) c e = ap (λ r. x ∷ r) (pop_back_lem (y ∷ s) c e)

length-pop_back : (s : Text) → length (pop_back s) ≡ length s - 1
unfolding pop_back
length-pop_back [] = refl
length-pop_back (x ∷ []) = refl
length-pop_back (x ∷ y ∷ s) = omega (arith, length-pop_back (y ∷ s))

snoc-replicate : (k c : ℕ) → replicate k c ++ c ∷ [] ≡ replicate (suc k) c
snoc-replicate zero c = refl
snoc-replicate (suc k) c = ap (λ r. c ∷ r) (snoc-replicate k c)

remove_rounds_lem :
    (fuel : ℕ) (s : Text) (c : ℕ)
    → length s ≤ fuel
    → let r = remove_rounds fuel s c in
      ((k : ℕ) × (s ≡ r ++ replicate k c)) × (ends_with c r ≡ false)
unfolding remove_rounds ends_with
remove_rounds_lem zero [] c p = ((0, refl), refl)
remove_rounds_lem zero (x ∷ s) c p = absurd (omega arith)
remove_rounds_lem (suc fuel) s c p = elim (Bool-cases (ends_with c s)) [
  | inl e ↦
      let ((k, q), z) = remove_rounds_lem fuel (pop_back s) c (omega (arith, length-pop_back s)) in
      rw e (
        (
          suc k,
          pop_back_lem s c e
              ∙ ap (λ r. r ++ c ∷ []) q
              ∙ append_assoc (remove_rounds fuel (pop_back s) c) (replicate k c) (c ∷ [])
              ∙ ap (λ r. remove_rounds fuel (pop_back s) c ++ r) (snoc-replicate k c),
        ),
        z,
      )
  | inr e ↦ rw e ((0, sym (append-nil s)), e)
]

-- `remove_last_char` takes a run of `c` off the end, and what is left does not end in `c`.
pub remove_last_char_lem :
    (s : Text) (c : ℕ)
    → let r = remove_last_char s c in ((k : ℕ) × (s ≡ r ++ replicate k c)) × (ends_with c r ≡ false)
unfolding remove_last_char
remove_last_char_lem s c = remove_rounds_lem (length s) s c (omega arith)

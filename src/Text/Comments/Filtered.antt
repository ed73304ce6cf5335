-- ===== src/Text/Comments/Filtered.antt =====
-- zysoft/zysoft/utility/detail/utility.cpp: `filter_comment` against the lines of the text.
use zysoft.Prelude.{
  ℕ, zero, suc, ◌<◌, ◌≡◌, ◌≢◌, refl, sym, ap, ap₂, ◌∙◌, List, [], ◌∷◌, ◌++◌, append_assoc,
  append-nil, Bool, false, arith, if◌then◌else◌, ◌==◌, length, Bool-cases, inl, inr,
}
use zysoft.Text.Split.{Text, find, after_delim}
use zysoft.Text.Split.Lines.{terminated, AllLack}
use zysoft.Text.Comments.{at_end, is_comment, filter_rounds, filter_comment}

-- The lines of a text: one more than it has ends of lines.
abbrev add_char : ℕ → List Text → List Text
add_char c [] = (c ∷ []) ∷ []
add_char c (x ∷ xs) = (c ∷ x) ∷ xs

abbrev pub lines_of : Text → List Text
lines_of [] = [] ∷ []
lines_of (c ∷ s) = let rest = lines_of s in if c == 10 then [] ∷ rest else add_char c rest

-- A comment is a line whose first character behind its spaces and tabs is '#'.
abbrev pub drop_blanks : Text → Text
drop_blanks [] = []
drop_blanks (c ∷ s) =
    let behind = drop_blanks s in if c == 32 then behind else if c == 9 then behind else c ∷ s

abbrev pub starts_with_hash : Text → Bool
starts_with_hash [] = false
starts_with_hash (c ∷ s) = c == 35

abbrev pub keep : List Text → List Text
keep [] = []
keep (x ∷ xs) = let rest = keep xs in if starts_with_hash (drop_blanks x) then rest else x ∷ rest

is_comment_lem : (x : Text) → is_comment x ≡ starts_with_hash (drop_blanks x)
unfolding is_comment
is_comment_lem [] = refl
is_comment_lem (c ∷ s) = ground (arith, is_comment_lem s)

lines-find :
    (s : Text)
    → lines_of s
      ≡ (find 10 s).0 ∷ (if at_end (find 10 s).1 then [] else lines_of (after_delim (find 10 s).1))
unfolding find
lines-find [] = refl
lines-find (c ∷ s) = ground (arith, lines-find s)

shorter : (s : Text) → at_end (find 10 s).1 ≡ false → length (after_delim (find 10 s).1) < length s
unfolding find
shorter [] e = absurd (ground arith)
shorter (c ∷ s) e = ground (arith, shorter s)

keep_line :
    (line : Text) (rest : List Text) (out : Text)
    → out ≡ terminated 10 (keep rest)
    → (if is_comment line then [] else line ++ 10 ∷ []) ++ out ≡ terminated 10 (keep (line ∷ rest))
keep_line line rest out e = elim (Bool-cases (starts_with_hash (drop_blanks line))) [
  | inl f ↦ rw (is_comment_lem line, f) e
  | inr f ↦
      rw (is_comment_lem line, f) (append_assoc line (10 ∷ []) out ∙ ap (λ t. line ++ 10 ∷ t) e)
]

rounds_lem :
    (fuel : ℕ) (s : Text)
    → length s < fuel
    → filter_rounds fuel s ≡ terminated 10 (keep (lines_of s))
unfolding filter_rounds
rounds_lem zero s p = absurd (omega arith)
rounds_lem (suc fuel) s p =
    let line = (find 10 s).0 in
    let it = (find 10 s).1 in
    elim (Bool-cases (at_end it)) [
      | inl e ↦
          let one : lines_of s ≡ line ∷ [] =
            lines-find s ∙ ap (λ b. line ∷ (if b then [] else lines_of (after_delim it))) e in
          rw e (sym (append-nil _))
          ∙ keep_line line [] [] refl
          ∙ ap (λ x. terminated 10 (keep x)) (sym one)
      | inr e ↦
          let more : lines_of s ≡ line ∷ lines_of (after_delim it) =
            lines-find s ∙ ap (λ b. line ∷ (if b then [] else lines_of (after_delim it))) e in
          rw e (
            keep_line line (lines_of (after_delim it)) (filter_rounds fuel (after_delim it))
              (rounds_lem fuel (after_delim it) (omega (arith, shorter s e)))
            ∙ ap (λ x. terminated 10 (keep x)) (sym more))
    ]

add_char-terminated :
    (c : ℕ) (xs : List Text) → xs ≢ [] → terminated 10 (add_char c xs) ≡ c ∷ terminated 10 xs
add_char-terminated c [] n = absurd (n refl)
add_char-terminated c (x ∷ xs) n = refl

lines-ne-nil : (s : Text) → lines_of s ≢ []
lines-ne-nil s e = cc (lines-find s)

add_char-AllLack :
    (c : ℕ) (xs : List Text) → (c == 10) ≡ false → AllLack 10 xs → AllLack 10 (add_char c xs)
add_char-AllLack c [] n l = (rw n refl, tt)
add_char-AllLack c (x ∷ xs) n l = (rw n l.0, l.1)

lines_lem : (s : Text) → (terminated 10 (lines_of s) ≡ s ++ 10 ∷ []) × AllLack 10 (lines_of s)
lines_lem [] = (refl, (refl, tt))
lines_lem (c ∷ s) =
    let (t, l) = lines_lem s in
    elim (Bool-cases (c == 10)) [
      | inl e ↦ let q : 10 ≡ c = ground arith in rw e (ap₂ (λ x y. x ∷ y) q t, (refl, l))
      | inr e ↦ rw e (
        add_char-terminated c (lines_of s) (lines-ne-nil s) ∙ ap (λ x. c ∷ x) t,
        add_char-AllLack c (lines_of s) e l,
      )
    ]

-- `filter_comment` is what is left of the lines of the text when the comments are taken out, those whose first character
-- behind spaces and tabs is '#', each with the end of a line behind it; where the lines hold no end of a line, and with
-- one behind each they are the text with one at its end.
pub filter_comment_lem :
    (s : Text)
    → (filter_comment s ≡ terminated 10 (keep (lines_of s)))
      × (terminated 10 (lines_of s) ≡ s ++ 10 ∷ [])
      × AllLack 10 (lines_of s)
unfolding filter_comment
filter_comment_lem s =
    (rounds_lem (suc (length s)) s (omega arith), (lines_lem s).0, (lines_lem s).1)

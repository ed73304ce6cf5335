-- ===== src/Text/Split/Lines.antt =====
-- zysoft/zysoft/string/split_functions.h: the texts that `str_split` returns.
use zysoft.Prelude.{
  ℕ, zero, suc, ◌≤◌, ◌≡◌, refl, sym, ap, ◌∙◌, List, [], ◌∷◌, ◌++◌, append_assoc, append-nil, arith,
  if◌then◌else◌, ◌==◌, length, length-append,
}
use zysoft.Text.Split.{Text, find, after_delim, getline, read_lines, str_split}
use zysoft.Text.Split.General.{occurrences, AtDelim, find_lem}

-- The texts, each with the delimiter behind it.
abbrev pub terminated : ℕ → List Text → Text
terminated d [] = []
terminated d (x ∷ xs) = x ++ d ∷ terminated d xs

-- A text with a delimiter added at its end, unless it is empty or has one there.
abbrev pub complete : ℕ → Text → Text
complete d [] = []
complete d (c ∷ []) = if c == d then c ∷ [] else c ∷ d ∷ []
complete d (c ∷ c' ∷ s) = c ∷ complete d (c' ∷ s)

abbrev pub AllLack : ℕ → List Text → Type 0
AllLack d [] = Unit {0}
AllLack d (x ∷ xs) = (occurrences d x ≡ 0) × AllLack d xs

terminated-append :
    (d : ℕ) (xs ys : List Text) → terminated d (xs ++ ys) ≡ terminated d xs ++ terminated d ys
terminated-append d [] ys = refl
terminated-append d (x ∷ xs) ys =
    rw (terminated-append d xs ys) (sym (append_assoc x (d ∷ terminated d xs) (terminated d ys)))

AllLack-append : (d : ℕ) (xs ys : List Text) → AllLack d xs → AllLack d ys → AllLack d (xs ++ ys)
AllLack-append d [] ys h k = k
AllLack-append d (x ∷ xs) ys h k = (h.0, AllLack-append d xs ys h.1 k)

complete_lacks :
    (d c : ℕ) (s : Text) → occurrences d (c ∷ s) ≡ 0 → complete d (c ∷ s) ≡ (c ∷ s) ++ d ∷ []
complete_lacks d c [] h = ground arith
complete_lacks d c (c' ∷ s) h = ap (◌∷◌ c) (complete_lacks d c' s (ground arith))

complete_at : (d : ℕ) (t : Text) → complete d (d ∷ t) ≡ d ∷ complete d t
complete_at d [] = ground arith
complete_at d (c ∷ t) = refl

complete-append : (d : ℕ) (a t : Text) → complete d (a ++ d ∷ t) ≡ a ++ d ∷ complete d t
complete-append d [] t = complete_at d t
complete-append d (c ∷ []) t = ap (◌∷◌ c) (complete_at d t)
complete-append d (c ∷ c' ∷ a) t = ap (◌∷◌ c) (complete-append d (c' ∷ a) t)

-- What one `getline` reads and leaves.
record Read (d : ℕ) (s line rest : Text) : Type 0 where
  lacks : occurrences d line ≡ 0
  whole : complete d s ≡ line ++ d ∷ complete d rest
  shorter : suc (length rest) ≤ length s

cut-Read :
    (d c : ℕ) (s a b : Text)
    → c ∷ s ≡ a ++ b
    → occurrences d a ≡ 0
    → AtDelim d b
    → Read d (c ∷ s) a (after_delim b)
cut-Read d c s [] [] e h at = absurd (ground arith)
cut-Read d c s (x ∷ a) [] e h at = record {
  lacks = h;
  whole = ap (complete d) (e ∙ append-nil (x ∷ a)) ∙ complete_lacks d x a h;
  shorter = omega arith;
}
cut-Read d c s a (x ∷ b) e h at = record {
  lacks = h;
  whole = ap (complete d) (e ∙ ap (λ (y : ℕ). a ++ y ∷ b) at) ∙ complete-append d a b;
  shorter = omega (arith, ap length e, length-append a (x ∷ b));
}

getline-Read :
    (d c : ℕ) (s : Text) → let (line, it) = find d (c ∷ s) in Read d (c ∷ s) line (after_delim it)
getline-Read d c s =
    let (whole, lacks, _, at) = find_lem d (c ∷ s) in cut-Read d c s _ _ whole lacks at

read_lines_lem :
    (fuel d : ℕ) (s : Text) (out : List Text)
    → length s ≤ fuel
    → AllLack d out
    → (terminated d (read_lines fuel d s out) ≡ terminated d out ++ complete d s)
      × AllLack d (read_lines fuel d s out)
unfolding read_lines getline
read_lines_lem zero d [] out h l = (sym (append-nil (terminated d out)), l)
read_lines_lem zero d (c ∷ s) out h l = absurd (omega arith)
read_lines_lem (suc fuel) d [] out h l = (sym (append-nil (terminated d out)), l)
read_lines_lem (suc fuel) d (c ∷ s) out h l =
    let r = getline-Read d c s in
    let line = (find d (c ∷ s)).0 in
    let rest = after_delim (find d (c ∷ s)).1 in
    let ih =
      read_lines_lem fuel d rest (out ++ line ∷ []) (omega (arith, r.shorter))
        (AllLack-append d out (line ∷ []) l (r.lacks, tt)) in
    (
      ih.0
          ∙ ap (λ (t : Text). t ++ complete d rest) (terminated-append d out (line ∷ []))
          ∙ append_assoc (terminated d out) (line ++ d ∷ []) (complete d rest)
          ∙ ap (◌++◌ (terminated d out))
              (append_assoc line (d ∷ []) (complete d rest) ∙ sym r.whole),
      ih.1,
    )

-- `str_split` reads the text to its end: the texts it returns, each with the delimiter behind it,
-- spell the text, with a delimiter added if it is not empty and does not end in one, and none of
-- them holds the delimiter.
pub str_split_lem :
    (s : Text) (d : ℕ) → (terminated d (str_split s d) ≡ complete d s) × AllLack d (str_split s d)
unfolding str_split
str_split_lem s d = read_lines_lem (length s) d s [] (omega arith) tt

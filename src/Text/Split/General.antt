-- ===== src/Text/Split/General.antt =====
-- zysoft/zysoft/string/split_functions.h: one function for every number of recipients, and what it
-- computes.
use zysoft.Prelude.{
  ℕ, zero, suc, ◌+◌, ◌≤◌, ◌≡◌, refl, List, [], ◌∷◌, ◌++◌, arith, if◌then◌else◌, ◌==◌, length, take,
  drop, min, max, ap, ap₂, ◌∙◌, append-nil, ◌⊎◌, inl, inr,
}
use zysoft.Text.Split.{Text, Fields, find, found, next_field, last_field}

-- How often the delimiter stands in a text.
abbrev pub occurrences : ℕ → Text → ℕ
occurrences d [] = 0
occurrences d (c ∷ s) = let n = occurrences d s in if c == d then suc n else n

-- At the end, or at a delimiter.
abbrev pub AtDelim : ℕ → Text → Type 0
AtDelim d [] = Unit {0}
AtDelim d (c ∷ s) = c ≡ d

-- `find` cuts the text at the first delimiter, if there is one.
pub find_lem :
    (d : ℕ) (s : Text)
    → let (a, b) = find d s in
      (s ≡ a ++ b) × (occurrences d a ≡ 0) × (occurrences d b ≡ occurrences d s) × AtDelim d b
unfolding find
find_lem d [] = (refl, refl, refl, tt)
find_lem d (c ∷ s) = ground (arith, find_lem d s)

rest_fields : ℕ → ℕ → Text → ℕ → Fields
rest_fields zero d it cnt = let (x, n) = last_field it cnt in (x ∷ [], n)
rest_fields (suc k) d it cnt =
    let (a, it', n) = next_field d it cnt in let (xs, n') = rest_fields k d it' n in (a ∷ xs, n')

-- `split_impl` with `k + 2` recipients.
unfoldable pub split_general : ℕ → ℕ → Text → Fields
unfolding rest_fields
split_general k d s =
    let (a, it) = find d s in let (xs, cnt) = rest_fields k d it (found it) in (a ∷ xs, cnt)

-- The texts, each behind a delimiter.
abbrev pub behind : ℕ → List Text → Text
behind d [] = []
behind d (x ∷ xs) = d ∷ (x ++ behind d xs)

abbrev pub AllEmpty : List Text → Type 0
AllEmpty [] = Unit {0}
AllEmpty (x ∷ xs) = (x ≡ []) × AllEmpty xs

-- No text but the last holds the delimiter.
abbrev pub InitLacks : ℕ → List Text → Type 0
InitLacks d [] = Unit {0}
InitLacks d (x ∷ []) = Unit {0}
InitLacks d (x ∷ y ∷ xs) = (occurrences d x ≡ 0) × InitLacks d (y ∷ xs)

-- `j` of the texts are used: they spell `it`, and the others are empty.
record Rest (j k d : ℕ) (it : Text) (cnt : ℕ) (out : Fields) : Type 0 where
  size : length out.0 ≡ suc k
  used : out.1 ≡ cnt + j
  spelled : it ≡ behind d (take j out.0)
  unused : AllEmpty (drop j out.0)
  cut : InitLacks d out.0

none_used : (k d cnt : ℕ) → Rest 0 k d [] cnt (rest_fields k d [] cnt)
unfolding rest_fields last_field next_field
none_used zero d cnt = record {
  size = refl;
  used = omega arith;
  spelled = refl;
  unused = (refl, tt);
  cut = tt;
}
none_used (suc zero) d cnt = record {
  size = refl;
  used = omega arith;
  spelled = refl;
  unused = (refl, (refl, tt));
  cut = (refl, tt);
}
none_used (suc (suc k)) d cnt =
    let ih = none_used (suc k) d cnt in
    record {
      size = omega (arith, ih.size);
      used = ih.used;
      spelled = refl;
      unused = (refl, ih.unused);
      cut = (refl, ih.cut);
    }

InitLacks-cons :
    (d : ℕ) (x : Text) (xs : List Text)
    → occurrences d x ≡ 0
    → InitLacks d xs
    → InitLacks d (x ∷ xs)
InitLacks-cons d x [] h l = tt
InitLacks-cons d x (y ∷ ys) h l = (h, l)

occurrences_at_delim :
    (d c : ℕ) (it : Text) → c ≡ d → occurrences d (c ∷ it) ≡ suc (occurrences d it)
occurrences_at_delim d c it h = ground arith

rest_fields-Rest :
    (j k d : ℕ) (it : Text) (cnt : ℕ)
    → AtDelim d it
    → j ≡ min (suc k) (occurrences d it)
    → Rest j k d it cnt (rest_fields k d it cnt)
unfolding rest_fields last_field next_field
rest_fields-Rest zero k d [] cnt h e = none_used k d cnt
rest_fields-Rest (suc j) k d [] cnt h e = absurd (omega arith)
rest_fields-Rest zero k d (c ∷ it) cnt h e = absurd (omega (arith, occurrences_at_delim d c it h))
rest_fields-Rest (suc (suc j)) zero d (c ∷ it) cnt h e = absurd (omega arith)
rest_fields-Rest (suc zero) zero d (c ∷ it) cnt h e = record {
  size = refl;
  used = refl;
  spelled = rw (h, append-nil);
  unused = tt;
  cut = tt;
}
rest_fields-Rest (suc j) (suc k) d (c ∷ it) cnt h e =
    let (whole, lacks, same, at) = find_lem d it in
    let ih =
      rest_fields-Rest j k d (find d it).1 (cnt + 1) at
        (omega (arith, occurrences_at_delim d c it h)) in
    record {
      size = omega (arith, ih.size);
      used = omega (arith, ih.used);
      spelled = ap₂ ◌∷◌ h (whole ∙ ap (◌++◌ (find d it).0) ih.spelled);
      unused = ih.unused;
      cut = InitLacks-cons d _ _ lacks ih.cut;
    }

found_bounds :
    (d : ℕ) (it : Text)
    → AtDelim d it
    → (found it ≤ 1) × (found it ≤ occurrences d it) × (occurrences d it ≡ 0 ⊎ found it ≡ 1)
found_bounds d [] h = (omega arith, omega arith, inl refl)
found_bounds d (c ∷ it) h = (omega arith, omega (arith, occurrences_at_delim d c it h), inr refl)

-- What a split into `k + 2` recipients promises of the text, with `n` delimiters in it.
pub record IsSplit (k d : ℕ) (s : Text) (out : Fields) : Type 0 where
  pub size : length out.0 ≡ suc (suc k)
  pub count :
      out.1 ≡ (if occurrences d s == 0 then 0 else min (suc (suc k)) (suc (occurrences d s)))
  pub spelled : d ∷ s ≡ behind d (take (max 1 out.1) out.0)
  pub unused : AllEmpty (drop (max 1 out.1) out.0)
  pub cut : InitLacks d out.0

pub split_general-IsSplit : (k d : ℕ) (s : Text) → IsSplit k d s (split_general k d s)
unfolding split_general
split_general-IsSplit k d s =
    let (whole, lacks, same, at) = find_lem d s in
    let b = (find d s).1 in
    let j = min (suc k) (occurrences d b) in
    let r = rest_fields-Rest j k d b (found b) at refl in
    let n = (rest_fields k d b (found b)).1 in
    let e : max 1 n ≡ suc j = omega (arith, r.used, found_bounds d b at) in
    record {
      size = omega (arith, r.size);
      count = ground (arith, r.used, found_bounds d b at, same);
      spelled = rw e (ap (◌∷◌ d) (whole ∙ ap (◌++◌ (find d s).0) r.spelled));
      unused = rw e r.unused;
      cut = InitLacks-cons d _ _ lacks r.cut;
    }

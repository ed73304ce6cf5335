-- ===== src/Text/Files/Tests.antt =====
-- zysoft/zysoft/utility/detail/utility.cpp: a file of two characters, and one that is not there.
use zysoft.Prelude.{
  ℕ, zero, suc, ap, ◌<◌, ◌≡◌, refl, sym, [], ◌∷◌, Option, none, some, false, inl, arith, length,
  take, drop, take-append-drop, length-take,
}
use zysoft.Text.Split.{Text}
use zysoft.Text.Files.{Files, cat_file, cat_file_to}
use zysoft.Text.Files.Whole.{Catted, cat_file_lem}

take_nil : (n : ℕ) (s : Text) → 0 < n → take n s ≡ [] → s ≡ []
take_nil n [] p e = refl
take_nil zero (c ∷ s) p e = absurd (omega arith)
take_nil (suc n) (c ∷ s) p e = absurd (omega (arith, ap length e))

-- One file, of any name but the empty one.
abbrev open_named : Text → Text → Option Text
open_named content [] = none
open_named content (c ∷ s) = some content

abbrev one_file : Text → Files
one_file content = record {
  File = Text;
  open_file = open_named content;
  rest = λ f. f;
  failed = λ f. false;
  fread = λ n f. (take n f, drop n f);
  fread_rest = λ n f. sym (take-append-drop n f);
  fread_most = λ n f. omega (arith, length-take n f);
  fread_end = λ n f p e. inl (take_nil n f p e);
}

abbrev two_chars : Files
two_chars = one_file (104 ∷ 105 ∷ [])

cat_file_lem_example :
    Catted two_chars
      (some (104 ∷ 105 ∷ []))
      []
      (cat_file two_chars (97 ∷ []))
      (cat_file_to two_chars (97 ∷ []) [])
cat_file_lem_example = cat_file_lem two_chars (97 ∷ []) []

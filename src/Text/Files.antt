-- ===== src/Text/Files.antt =====
-- zysoft/zysoft/utility/detail/utility.cpp: the two `cat_file`. The files of the system are a parameter.
pub mod Whole
mod Tests
use zysoft.Prelude.{
  ℕ, zero, suc, ◌+◌, ◌*◌, ◌%◌, ◌≤◌, ◌<◌, ◌≡◌, List, [], ◌∷◌, ◌++◌, Option, none, some, Bool, true,
  false, if◌then◌else◌, length, ◌⊎◌,
}
use zysoft.Prelude.Int.{ℤ, negsuc, to_int}
use zysoft.Text.Split.{Text}

-- `fopen` with "rb", and `fread` on an open file, which gives up to so many characters, and none only at the end of
-- the file or after an error, which `failed` tells, as `ferror` does. `rest` is what is still to be read; a file does not
-- change meanwhile.
pub record Files : Type 1 where
  pub File : Type 0
  pub open_file : Text → Option File
  pub rest : File → Text
  pub failed : File → Bool
  pub fread : ℕ → File → Text × File
  pub fread_rest : (n : ℕ) (f : File) → rest f ≡ (fread n f).0 ++ rest (fread n f).1
  pub fread_most : (n : ℕ) (f : File) → length (fread n f).0 ≤ n
  pub fread_end :
      (n : ℕ) (f : File)
      → 0 < n
      → (fread n f).0 ≡ []
      → (rest f ≡ []) ⊎ (failed (fread n f).1 ≡ true)

-- The size of `buffer`.
abbrev pub buffer_size : ℕ
buffer_size = 1024 * 4

abbrev pub is_empty : Text → Bool
is_empty [] = true
is_empty (c ∷ s) = false

module _ (files : Files) where
  -- The loop, with fuel: every round but the last takes a character.
  unfoldable pub read_rounds : ℕ → files.File → Text → Text
  read_rounds zero f content = content
  read_rounds (suc fuel) f content =
      let (chunk, g) = files.fread buffer_size f in
      let more = read_rounds fuel g (content ++ chunk) in if is_empty chunk then content else more

  unfoldable pub read_all : files.File → Text
  unfolding read_rounds
  read_all f = read_rounds (suc (length (files.rest f))) f []

  unfoldable pub cat_opened : Option files.File → Text
  cat_opened none = []
  cat_opened (some f) = read_all f

  unfoldable pub cat_file : Text → Text
  unfolding cat_opened
  cat_file name = cat_opened (files.open_file name)

  -- `cat_file(path, out)`: the result, and what is in `*out` then.
  unfoldable pub cat_opened_to : Option files.File → Text → ℤ × Text
  cat_opened_to none out = (negsuc 0, out)
  cat_opened_to (some f) out = let content = read_all f in (to_int (length content), content)

  unfoldable pub cat_file_to : Text → Text → ℤ × Text
  unfolding cat_opened_to
  cat_file_to path out = cat_opened_to (files.open_file path) out

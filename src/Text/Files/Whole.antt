-- ===== src/Text/Files/Whole.antt =====
-- zysoft/zysoft/utility/detail/utility.cpp: what `cat_file` gives is what stands in the file.
use zysoft.Prelude.{
  ℕ, zero, suc, ◌-◌, ◌^◌, ◌≤◌, ◌<◌, ◌≡◌, refl, sym, ap, ◌∙◌, [], ◌∷◌, ◌++◌, Option, none, some,
  true, false, arith, length, length-append, append-nil, append_assoc, Bool-cases, inl, inr, subst,
  ◌⊎◌,
}
use zysoft.Prelude.Int.{ℤ, negsuc, to_int, to_int_high}
use zysoft.Text.Split.{Text}
use zysoft.Text.Files.{
  Files, buffer_size, is_empty, read_rounds, read_all, cat_opened, cat_file, cat_opened_to,
  cat_file_to,
}

nil_of_empty : (s : Text) → is_empty s ≡ true → s ≡ []
nil_of_empty [] h = refl
nil_of_empty (c ∷ s) h = cc

length_of_some : (s : Text) → is_empty s ≡ false → 0 < length s
length_of_some [] h = cc
length_of_some (c ∷ s) h = omega arith

module _ (files : Files) where
  -- `content` is what was read of `f`, up to a read that gave nothing: there was nothing left, or the read failed.
  abbrev pub ReadOf : files.File → Text → Type 0
  ReadOf f content =
      (g : files.File) × (files.rest f ≡ content ++ files.rest g)
      × ((files.fread buffer_size g).0 ≡ [])
      × ((files.rest g ≡ []) ⊎ (files.failed (files.fread buffer_size g).1 ≡ true))

  read_rounds_lem :
      (fuel : ℕ) (f : files.File) (content : Text)
      → length (files.rest f) < fuel
      → (out : Text) × (read_rounds files fuel f content ≡ content ++ out) × ReadOf f out
  unfolding read_rounds
  read_rounds_lem zero f content h = absurd (omega arith)
  read_rounds_lem (suc fuel) f content h =
      let chunk = (files.fread buffer_size f).0 in
      let g = (files.fread buffer_size f).1 in
      let split = files.fread_rest buffer_size f in
      elim (Bool-cases (is_empty chunk)) [
        | inl e ↦
            let none_left = nil_of_empty chunk e in
            (
              [],
              rw e (sym (append-nil content)),
              (f, refl, none_left, files.fread_end buffer_size f (omega arith) none_left),
            )
        | inr e ↦
            let n = ap length split in
            let (out, all, (last, rest, nothing, why)) =
              read_rounds_lem fuel g (content ++ chunk)
                (omega (arith, n, length-append chunk (files.rest g), length_of_some chunk e)) in
            (
              chunk ++ out,
              rw e (all ∙ append_assoc content chunk out),
              (
                last,
                split ∙ ap (λ t. chunk ++ t) rest ∙ sym (append_assoc chunk out (files.rest last)),
                nothing,
                why,
              ),
            )
      ]

  read_all_lem : (f : files.File) → ReadOf f (read_all files f)
  unfolding read_all
  read_all_lem f =
      let (out, all, read_of) = read_rounds_lem (suc (length (files.rest f))) f [] (omega arith) in
      subst (ReadOf f) (sym all) read_of

  -- What the two overloads give for what `fopen` returns.
  abbrev pub Catted : Option files.File → Text → Text → ℤ × Text → Type 0
  Catted none out content r = (content ≡ []) × (r ≡ (negsuc 0, out))
  Catted (some f) out content r = ReadOf f content × (r ≡ (to_int (length content), content))

  opened_lem :
      (o : Option files.File) (out : Text)
      → Catted o out (cat_opened files o) (cat_opened_to files o out)
  unfolding cat_opened cat_opened_to
  opened_lem none out = (refl, refl)
  opened_lem (some f) out = (read_all_lem f, refl)

  -- Both `cat_file` end and give what stands in the file up to the first `fread` that gives nothing, which is at the end
  -- of the file or failed; the second gives its size as a 32-bit integer too, and neither tells of a failure. If the file
  -- cannot be opened, the first gives an empty text, and the second -1 and leaves its output.
  pub cat_file_lem :
      (name out : Text)
      → Catted (files.open_file name) out (cat_file files name) (cat_file_to files name out)
  unfolding cat_file cat_file_to
  cat_file_lem name out = opened_lem (files.open_file name) out

  -- If that are 2 ^ 31 to 2 ^ 32 - 1 characters, `cat_file(path, out)` writes them to its output and returns a negative
  -- number, as it does for a file that cannot be opened.
  pub large_file_negative :
      (path out : Text) (f : files.File)
      → files.open_file path ≡ some f
      → 2 ^ 31 ≤ length (read_all files f)
      → length (read_all files f) < 2 ^ 32
      → let (r, content) = cat_file_to files path out in
        (content ≡ read_all files f) × ((n : ℕ) × (r ≡ negsuc n))
  unfolding cat_file_to cat_opened_to
  large_file_negative path out f e low high =
      rw e (refl, (2 ^ 32 - 1 - length (read_all files f), to_int_high _ low high))

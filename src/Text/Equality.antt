-- ===== src/Text/Equality.antt =====
-- The equality test of `std::string`.
use zysoft.Prelude.{◌≡◌, refl, [], ◌∷◌, Bool, true, false, ◌&&◌, arith, ◌==◌}
use zysoft.Text.Split.{Text}

-- `std::string::operator==`
unfoldable pub same_text : Text → Text → Bool
same_text [] [] = true
same_text [] (d ∷ t) = false
same_text (c ∷ s) [] = false
same_text (c ∷ s) (d ∷ t) = c == d && same_text s t

pub same_text-≡ : (s t : Text) → same_text s t ≡ true → s ≡ t
unfolding same_text
same_text-≡ [] [] e = refl
same_text-≡ [] (d ∷ t) e = absurd (ground arith)
same_text-≡ (c ∷ s) [] e = absurd (ground arith)
same_text-≡ (c ∷ s) (d ∷ t) e = ground (arith, same_text-≡ s t)

pub same_text_refl : (s : Text) → same_text s s ≡ true
unfolding same_text
same_text_refl [] = refl
same_text_refl (c ∷ s) = ground (arith, same_text_refl s)

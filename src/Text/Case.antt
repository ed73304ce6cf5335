-- ===== src/Text/Case.antt =====
-- zysoft/zysoft/string/case_functions.h. `toupper` and `tolower` of the C library are parameters. `make_upper` changes
-- its argument, which it returns; `to_upper` returns a copy and leaves its argument.
use zysoft.Prelude.{ℕ, ◌≡◌, refl, ap, ap₂, [], ◌∷◌, suc, length}
use zysoft.Text.Split.{Text}

-- `std::transform` of a text in place.
unfoldable pub transform : (ℕ → ℕ) → Text → Text
transform f [] = []
transform f (c ∷ s) = f c ∷ transform f s

module _ (toupper tolower : ℕ → ℕ) where
  unfoldable pub make_upper : Text → Text
  make_upper s = transform toupper s

  unfoldable pub make_lower : Text → Text
  make_lower s = transform tolower s

  -- The result, with the argument behind the call.
  unfoldable pub to_upper : Text → Text × Text
  unfolding make_upper
  to_upper s = (make_upper s, s)

  unfoldable pub to_lower : Text → Text × Text
  unfolding make_lower
  to_lower s = (make_lower s, s)

  -- If `tolower` takes no notice of `toupper`, a text has one lower case, also behind `make_upper`; `to_upper` and
  -- `to_lower` leave their arguments, and no text changes its length.
  pub case_lem :
      (s : Text)
      → ((c : ℕ) → tolower (toupper c) ≡ tolower c)
      → ((to_lower (to_upper s).0).0 ≡ (to_lower s).0)
        × ((to_upper s).1 ≡ s)
        × (length (to_upper s).0 ≡ length s)
  unfolding to_lower to_upper make_lower make_upper transform
  case_lem [] h = (refl, refl, refl)
  case_lem (c ∷ s) h = let (p, q, r) = case_lem s h in (ap₂ (λ x y. x ∷ y) (h c) p, refl, ap suc r)

-- ===== src/Text/Split/Correct.antt =====
-- zysoft/zysoft/string/split_functions.h: each `split_impl` is the general one.
use zysoft.Prelude.{ℕ, suc, ◌≡◌, ◌≤◌, refl, some, arith, zero}
use zysoft.Text.Split.{
  Text, Fields, split, split_impl_two, split_impl_three, split_impl_four, split_impl_five,
  split_impl_six,
}
use zysoft.Text.Split.General.{split_general, IsSplit, split_general-IsSplit}

split-general : (k d : ℕ) (s : Text) → k ≤ 4 → split (suc (suc k)) d s ≡ some (split_general k d s)
unfolding split split_impl_two split_impl_three split_impl_four split_impl_five split_impl_six
    split_general
split-general zero d s h = refl
split-general (suc zero) d s h = refl
split-general (suc (suc zero)) d s h = refl
split-general (suc (suc (suc zero))) d s h = refl
split-general (suc (suc (suc (suc zero)))) d s h = refl
split-general (suc (suc (suc (suc (suc k))))) d s h = absurd (omega arith)

-- Each of the five overloads of `split`, with `k + 2` recipients, does what it promises: it returns
-- 0 if the text has no delimiter, and else the number of recipients used, which is one more than
-- the number of delimiters or all of them; the used ones spell the text, a delimiter between any
-- two, the others are empty, and no recipient but the last holds the delimiter.
pub split-IsSplit :
    (k d : ℕ) (s : Text)
    → k ≤ 4
    → (out : Fields) × (split (suc (suc k)) d s ≡ some out) × IsSplit k d s out
split-IsSplit k d s h = (split_general k d s, split-general k d s h, split_general-IsSplit k d s)

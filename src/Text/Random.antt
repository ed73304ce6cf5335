-- ===== src/Text/Random.antt =====
-- zysoft/zysoft/random.h: `gen_rand_str` and `gen_rand_binary`. The engine with the distribution of the standard
-- library is a parameter.
use zysoft.Prelude.{
  ℕ, zero, suc, ◌-◌, ◌≤◌, ◌<◌, ◌≡◌, refl, ap, [], ◌∷◌, ◌++◌, Bool, true, false, ◌||◌, ◌==◌, arith,
  length, get_or, drop,
}
use zysoft.Text.Split.{Text}

-- `std::uniform_int_distribution(low, high)` on an engine.
pub record Random : Type 1 where
  pub Engine : Type 0
  pub uniform : ℕ → ℕ → Engine → ℕ × Engine
  pub uniform_low : (low high : ℕ) (e : Engine) → low ≤ high → low ≤ (uniform low high e).0
  pub uniform_high : (low high : ℕ) (e : Engine) → low ≤ high → (uniform low high e).0 ≤ high

abbrev pub span : ℕ → ℕ → Text
span c zero = []
span c (suc n) = c ∷ span (suc c) n

-- `VALID_CHARS`: the small letters, the capital ones, the digits.
abbrev pub valid_chars : Text
valid_chars = span 97 26 ++ (span 65 26 ++ span 48 10)

abbrev pub contains : ℕ → Text → Bool
contains c [] = false
contains c (x ∷ s) = x == c || contains c s

module _ (random : Random) where
  -- `r.rand(closed_end)` and `r.rand(closed_begin, closed_end)`
  unfoldable pub rand : ℕ → random.Engine → ℕ × random.Engine
  rand closed_end e = random.uniform 0 closed_end e

  unfoldable pub rand_between : ℕ → ℕ → random.Engine → ℕ × random.Engine
  rand_between closed_begin closed_end e = random.uniform closed_begin closed_end e

  -- The text, with the engine behind it.
  unfoldable pub gen_rand_str : ℕ → random.Engine → Text × random.Engine
  gen_rand_str zero e = ([], e)
  gen_rand_str (suc size) e =
      let (i, e1) = rand (length valid_chars - 1) e in
      let (s, e2) = gen_rand_str size e1 in (get_or valid_chars i 0 ∷ s, e2)

  -- The memory behind `data`, of which the first `size` bytes are written.
  unfoldable pub gen_rand_binary : ℕ → Text → random.Engine → Text × random.Engine
  gen_rand_binary zero memory e = (memory, e)
  gen_rand_binary (suc size) [] e = ([], e)
  gen_rand_binary (suc size) (b ∷ memory) e =
      let (x, e1) = rand_between 0 255 e in
      let (rest, e2) = gen_rand_binary size memory e1 in (x ∷ rest, e2)

  abbrev pub AllValid : Text → Type 0
  AllValid [] = Unit {0}
  AllValid (c ∷ s) = (contains c valid_chars ≡ true) × AllValid s

  abbrev pub BytesUpTo : ℕ → Text → Type 0
  BytesUpTo zero s = Unit {0}
  BytesUpTo (suc n) [] = Unit {0}
  BytesUpTo (suc n) (c ∷ s) = (c < 256) × BytesUpTo n s

  get_or-contains : (s : Text) (i : ℕ) → i < length s → contains (get_or s i 0) s ≡ true
  get_or-contains [] i h = absurd (omega arith)
  get_or-contains (c ∷ s) zero h = ground arith
  get_or-contains (c ∷ s) (suc i) h = ground (arith, get_or-contains s i)

  -- `gen_rand_str` gives a text of the size asked for, and all its characters are letters or digits.
  pub gen_rand_str_lem :
      (size : ℕ) (e : random.Engine)
      → let (s, _) = gen_rand_str size e in (length s ≡ size) × AllValid s
  unfolding gen_rand_str rand
  gen_rand_str_lem zero e = (refl, tt)
  gen_rand_str_lem (suc size) e =
      let i = random.uniform 0 61 e in
      let (p, q) = gen_rand_str_lem size i.1 in
      (ap suc p, (get_or-contains valid_chars i.0 (omega (arith, random.uniform_high 0 61 e)), q))

  -- `gen_rand_binary` fills the memory with bytes, and leaves what lies behind as it was.
  pub gen_rand_binary_lem :
      (size : ℕ) (memory : Text) (e : random.Engine)
      → let (m, _) = gen_rand_binary size memory e in
        (length m ≡ length memory) × BytesUpTo size m × (drop size m ≡ drop size memory)
  unfolding gen_rand_binary rand_between
  gen_rand_binary_lem zero memory e = (refl, tt, refl)
  gen_rand_binary_lem (suc size) [] e = (refl, tt, refl)
  gen_rand_binary_lem (suc size) (b ∷ memory) e =
      let x = random.uniform 0 255 e in
      let (p, q, r) = gen_rand_binary_lem size memory x.1 in
      (ap suc p, (omega (arith, random.uniform_high 0 255 e), q), r)

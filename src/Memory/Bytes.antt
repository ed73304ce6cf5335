-- ===== src/Memory/Bytes.antt =====
-- What the buffers use of `std::vector<char>` and `std::copy`, over lists of bytes.
use zysoft.Prelude.{
  ℕ, zero, suc, ◌+◌, ◌-◌, ◌≤◌, ◌≡◌, refl, sym, ap, ◌∙◌, List, [], ◌∷◌, ◌++◌, append_assoc, arith,
  length, take, drop, replicate, length-append, length-take, length-drop, length-replicate,
  take-append-drop, take-append_of_le,
}

abbrev pub Bytes : Type 0
Bytes = List ℕ

-- `[first, last)`
abbrev pub slice : Bytes → ℕ → ℕ → Bytes
slice xs first last = take (last - first) (drop first xs)

-- `v.resize(n)`, which fills up with zeros.
abbrev pub resize : Bytes → ℕ → Bytes
resize xs n = take n xs ++ replicate (n - length xs) 0

-- `std::copy` of `src` to `xs.data() + dest`, where it fits.
abbrev pub copy_to : Bytes → ℕ → Bytes → Bytes
copy_to src dest xs = take dest xs ++ (src ++ drop (dest + length src) xs)

pub take_prefix : (n : ℕ) (p q : Bytes) → n ≡ length p → take n (p ++ q) ≡ p
take_prefix zero [] q h = refl
take_prefix zero (x ∷ p) q h = absurd (omega arith)
take_prefix (suc n) [] q h = absurd (omega arith)
take_prefix (suc n) (x ∷ p) q h = ap (◌∷◌ x) (take_prefix n p q (omega arith))

pub drop_prefix : (n : ℕ) (p q : Bytes) → n ≡ length p → drop n (p ++ q) ≡ q
drop_prefix zero [] q h = refl
drop_prefix zero (x ∷ p) q h = absurd (omega arith)
drop_prefix (suc n) [] q h = absurd (omega arith)
drop_prefix (suc n) (x ∷ p) q h = drop_prefix n p q (omega arith)

-- The middle of three parts.
pub slice_middle :
    (r w : ℕ) (p m q : Bytes)
    → r ≡ length p
    → w ≡ length p + length m
    → slice (p ++ (m ++ q)) r w ≡ m
slice_middle r w p m q h k =
    ap (take (w - r)) (drop_prefix r p (m ++ q) h) ∙ take_prefix (w - r) m q (omega arith)

pub slice_empty : (xs : Bytes) (r : ℕ) → slice xs r r ≡ []
slice_empty xs r = let e : r - r ≡ 0 = omega arith in ap (λ n. take n (drop r xs)) e

take-nil : (n : ℕ) → take {A = ℕ} n [] ≡ []
take-nil zero = refl
take-nil (suc n) = refl

drop-nil : (n : ℕ) → drop {A = ℕ} n [] ≡ []
drop-nil zero = refl
drop-nil (suc n) = refl

drop-take : (n k : ℕ) (ys : Bytes) → drop n (take k ys) ≡ take (k - n) (drop n ys)
drop-take zero k ys = let e : k ≡ k - zero = omega arith in ap (λ j. take j ys) e
drop-take (suc n) zero ys =
    let e : 0 ≡ zero - suc n = omega arith in ap (λ j. take j (drop (suc n) ys)) e
drop-take (suc n) (suc k) [] = sym (take-nil (suc k - suc n))
drop-take (suc n) (suc k) (y ∷ ys) =
    let e : k - n ≡ suc k - suc n = omega arith in drop-take n k ys ∙ ap (λ j. take j (drop n ys)) e

drop-drop : (n r : ℕ) (xs : Bytes) → drop n (drop r xs) ≡ drop (r + n) xs
drop-drop n zero xs = let e : n ≡ zero + n = omega arith in ap (λ j. drop j xs) e
drop-drop n (suc r) [] = drop-nil n ∙ sym (drop-nil (suc r + n))
drop-drop n (suc r) (x ∷ xs) =
    let e : suc (r + n) ≡ suc r + n = omega arith in drop-drop n r xs ∙ ap (λ j. drop j (x ∷ xs)) e

pub drop_all : (n : ℕ) (xs : Bytes) → length xs ≤ n → drop n xs ≡ []
drop_all zero [] h = refl
drop_all zero (x ∷ xs) h = absurd (omega arith)
drop_all (suc n) [] h = refl
drop_all (suc n) (x ∷ xs) h = drop_all n xs (omega arith)

-- The front of a slice taken away.
pub slice-drop :
    (n : ℕ) (xs : Bytes) (r r' w : ℕ) → r' ≡ r + n → r' ≤ w → slice xs r' w ≡ drop n (slice xs r w)
slice-drop n xs r r' w h k =
    let e : w - r' ≡ w - r - n = omega arith in
    ap (λ j. take j (drop r' xs)) e
    ∙ ap (λ j. take (w - r - n) (drop j xs)) h
    ∙ ap (take (w - r - n)) (sym (drop-drop n r xs))
    ∙ sym (drop-take n (w - r) (drop r xs))

pub length-slice : (xs : Bytes) (r w : ℕ) → r ≤ w → w ≤ length xs → length (slice xs r w) ≡ w - r
length-slice xs r w h k = omega (arith, length-take (w - r) (drop r xs), length-drop r xs)

take-add : (r k : ℕ) (xs : Bytes) → take (r + k) xs ≡ take r xs ++ take k (drop r xs)
take-add zero k xs = ap (λ n. take n xs) (omega arith)
take-add (suc r) k [] = take-nil (suc r + k) ∙ sym (take-nil k)
take-add (suc r) k (x ∷ xs) =
    ap (λ n. take n (x ∷ xs)) (let e : suc r + k ≡ suc (r + k) = omega arith in e)
    ∙ ap (◌∷◌ x) (take-add r k xs)

-- What stands before `w` is what stands before `r`, and the slice between.
pub take-slice : (xs : Bytes) (r w : ℕ) → r ≤ w → take w xs ≡ take r xs ++ slice xs r w
take-slice xs r w h = ap (λ n. take n xs) (omega arith) ∙ take-add r (w - r) xs

pub split_at_slice : (xs : Bytes) (r w : ℕ) → r ≤ w → xs ≡ take r xs ++ (slice xs r w ++ drop w xs)
split_at_slice xs r w h =
    sym (take-append-drop w xs)
    ∙ ap (λ t. t ++ drop w xs) (take-slice xs r w h)
    ∙ append_assoc (take r xs) (slice xs r w) (drop w xs)

pub length-copy_to :
    (src : Bytes) (dest : ℕ) (xs : Bytes)
    → dest + length src ≤ length xs
    → length (copy_to src dest xs) ≡ length xs
length-copy_to src dest xs h = omega (
  arith,
  length-append (take dest xs) (src ++ drop (dest + length src) xs),
  length-append src (drop (dest + length src) xs),
  length-take dest xs,
  length-drop (dest + length src) xs,
)

-- A copy to `r` makes the slice from there on the copied bytes.
pub slice-copy_to :
    (src : Bytes) (dest w : ℕ) (xs : Bytes)
    → dest ≤ length xs
    → w ≡ dest + length src
    → slice (copy_to src dest xs) dest w ≡ src
slice-copy_to src dest w xs h k =
    slice_middle dest w (take dest xs) src (drop (dest + length src) xs)
      (omega (arith, length-take dest xs)) (omega (arith, length-take dest xs))

-- A copy behind a slice makes it longer by the copied bytes.
pub slice-copy_behind :
    (src : Bytes) (r w w' : ℕ) (xs : Bytes)
    → r ≤ w
    → w ≤ length xs
    → w' ≡ w + length src
    → slice (copy_to src w xs) r w' ≡ slice xs r w ++ src
slice-copy_behind src r w w' xs h k e =
    ap (λ t. slice t r w') regroup
    ∙ slice_middle r w' (take r xs) (slice xs r w ++ src) (drop (w + length src) xs)
        (omega (arith, length-take r xs))
        (omega (arith, length-take r xs, length-append (slice xs r w) src, length-slice xs r w h k))
  where
    rest : Bytes
    rest = drop (w + length src) xs

    regroup : copy_to src w xs ≡ take r xs ++ ((slice xs r w ++ src) ++ rest)
    regroup =
        ap (λ t. t ++ (src ++ rest)) (take-slice xs r w h)
        ∙ append_assoc (take r xs) (slice xs r w) (src ++ rest)
        ∙ ap (◌++◌ (take r xs)) (sym (append_assoc (slice xs r w) src rest))

pub length-resize : (xs : Bytes) (n : ℕ) → length (resize xs n) ≡ n
length-resize xs n = omega (
  arith,
  length-append (take n xs) (replicate (n - length xs) 0),
  length-take n xs,
  length-replicate {A = ℕ} (n - length xs) 0,
)

take-take : (n w : ℕ) (xs : Bytes) → w ≤ n → take w (take n xs) ≡ take w xs
take-take n zero xs h = refl
take-take zero (suc w) xs h = absurd (omega arith)
take-take (suc n) (suc w) [] h = refl
take-take (suc n) (suc w) (x ∷ xs) h = ap (◌∷◌ x) (take-take n w xs (omega arith))

slice-take : (xs : Bytes) (r w : ℕ) → r ≤ w → w ≤ length xs → slice xs r w ≡ drop r (take w xs)
slice-take xs r w h k = sym (
    ap (drop r) (take-slice xs r w h)
    ∙ drop_prefix r (take r xs) (slice xs r w) (omega (arith, length-take r xs)))

-- A resize that keeps `[0, w)` keeps the slices in it.
pub slice-resize :
    (xs : Bytes) (r w n : ℕ)
    → r ≤ w
    → w ≤ length xs
    → w ≤ n
    → slice (resize xs n) r w ≡ slice xs r w
slice-resize xs r w n h k l =
    slice-take (resize xs n) r w h (omega (arith, length-resize xs n))
    ∙ ap (drop r) (
        take-append_of_le w (take n xs) (replicate (n - length xs) 0)
          (omega (arith, length-take n xs))
        ∙ take-take n w xs l)
    ∙ sym (slice-take xs r w h k)

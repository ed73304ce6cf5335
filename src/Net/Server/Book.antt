-- ===== src/Net/Server/Book.antt =====
-- zysoft/net/tcp_server.h: the server's book of connections, over any run of it.
use zysoft.Prelude.{
  ℕ, ◌+◌, ◌-◌, ◌^◌, ◌≤◌, ◌<◌, ◌≡◌, refl, sym, subst, ◌∙◌, List, [], ◌∷◌, arith, if◌then◌else◌, ◌==◌,
  true, Bool-cases, inl, inr,
}
use zysoft.Timer.Wheel.Counts.{count}
use zysoft.Text.Split.{Text}
use zysoft.Text.Equality.{same_text, same_text-≡, same_text_refl}
use zysoft.Net.Server.{take_out, assign, erase_name}

-- `create_connection_name` takes the number as an `int`.
abbrev pub int_limit : ℕ
int_limit = 2 ^ 31

abbrev pub Below : ℕ → List ℕ → Type 0
Below n [] = Unit {0}
Below n (x ∷ xs) = (x < n) × Below n xs

pub Below-mono : (m n : ℕ) (xs : List ℕ) → m ≤ n → Below m xs → Below n xs
Below-mono m n [] p b = tt
Below-mono m n (x ∷ xs) p b = (omega arith, Below-mono m n xs p b.1)

pub count-Below : (n c : ℕ) (xs : List ℕ) → n ≤ c → Below n xs → count c xs ≡ 0
count-Below n c [] p b = refl
count-Below n c (x ∷ xs) p b = ground (arith, count-Below n c xs p b.1)

pub Below-lt : (n c : ℕ) (xs : List ℕ) → 1 ≤ count c xs → Below n xs → c < n
Below-lt n c [] p b = absurd (omega arith)
Below-lt n c (x ∷ xs) p b = elim (Bool-cases (x == c)) [
  | inl e ↦ let q : x ≡ c = ground arith in omega arith
  | inr e ↦ Below-lt n c xs (ground arith) b.1
]

pub count-take_out :
    (c j : ℕ) (xs : List ℕ) → count j (take_out c xs) ≡ count j xs - (if c == j then 1 else 0)
unfolding take_out
count-take_out c j [] = ground arith
count-take_out c j (x ∷ xs) = ground (arith, count-take_out c j xs)

module _ (name : ℕ → Text)
    (name_injective : (i j : ℕ) → i < int_limit → j < int_limit → name i ≡ name j → i ≡ j) where
  same_name : (x c : ℕ) → x < int_limit → c < int_limit → same_text (name x) (name c) ≡ (x == c)
  same_name x c p q = elim (Bool-cases (x == c)) [
    | inl e ↦
        let r : c ≡ x = ground arith in
        subst (λ y. same_text (name x) (name y) ≡ true) (sym r) (same_text_refl (name x)) ∙ sym e
    | inr e ↦ elim (Bool-cases (same_text (name x) (name c))) [
      | inl f ↦
          let s : x ≡ c = name_injective x c p q (same_text-≡ (name x) (name c) f) in
          absurd (ground arith)
      | inr f ↦ f ∙ sym e
    ]
  ]

  pub count-assign :
      (c j : ℕ) (xs : List ℕ)
      → c < int_limit
      → Below int_limit xs
      → count c xs ≡ 0
      → count j (assign name c xs) ≡ (if c == j then 1 else 0) + count j xs
  unfolding assign
  count-assign c j [] p b z = ground arith
  count-assign c j (x ∷ xs) p b z =
      rw (same_name x c b.0 p) (ground (arith, count-assign c j xs p b.1))

  pub assign-Below : (c n : ℕ) (xs : List ℕ) → c < n → Below n xs → Below n (assign name c xs)
  unfolding assign
  assign-Below c n [] p b = (p, tt)
  assign-Below c n (x ∷ xs) p b = elim (Bool-cases (same_text (name x) (name c))) [
    | inl e ↦ rw e (p, b.1)
    | inr e ↦ rw e (b.0, assign-Below c n xs p b.1)
  ]

  pub erase_name_lem :
      (c j : ℕ) (xs : List ℕ)
      → c < int_limit
      → Below int_limit xs
      → (count j (erase_name name c xs).0 ≡ (if c == j then 0 else count j xs))
        × ((erase_name name c xs).1 ≡ count c xs)
  unfolding erase_name
  erase_name_lem c j [] p b = ground arith
  erase_name_lem c j (x ∷ xs) p b =
      rw (same_name x c b.0 p) (ground (arith, erase_name_lem c j xs p b.1))

  pub erase_name-Below : (c n : ℕ) (xs : List ℕ) → Below n xs → Below n (erase_name name c xs).0
  unfolding erase_name
  erase_name-Below c n [] b = tt
  erase_name-Below c n (x ∷ xs) b = elim (Bool-cases (same_text (name x) (name c))) [
    | inl e ↦ rw e (erase_name-Below c n xs b.1)
    | inr e ↦ rw e (b.0, erase_name-Below c n xs b.1)
  ]

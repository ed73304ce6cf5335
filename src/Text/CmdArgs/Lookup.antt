-- ===== src/Text/CmdArgs/Lookup.antt =====
-- zysoft/zysoft/utility/cmdargs.h: `has_option` and `has_value`.
use zysoft.Prelude.{
  ◌≡◌, refl, List, [], ◌∷◌, Option, none, some, Bool, true, false, Bool-cases, inl, inr, ◌⊎◌, arith,
}
use zysoft.Prelude.Int.{ℤ}
use zysoft.Text.Split.{Text}
use zysoft.Text.Equality.{same_text}
use zysoft.Text.CmdArgs.{
  CmdOption, CmdValue, CmdArgs, is_match, find_option, find_value, has_option, has_value,
  contains_option, contains_value,
}

module _ {A : Type 0} (test : A → Bool) where
  abbrev pub AllMiss : List A → Type 0
  AllMiss [] = Unit {0}
  AllMiss (x ∷ xs) = (test x ≡ false) × AllMiss xs

  -- `x` is the first element that passes.
  abbrev pub FirstHit : List A → A → Type 0
  FirstHit [] x = ⊥
  FirstHit (y ∷ xs) x = ((test y ≡ true) × (x ≡ y)) ⊎ ((test y ≡ false) × FirstHit xs x)

  abbrev pub Hit : List A → Option A → Type 0
  Hit xs none = AllMiss xs
  Hit xs (some x) = FirstHit xs x

  Hit-cons : (x : A) (xs : List A) (r : Option A) → test x ≡ false → Hit xs r → Hit (x ∷ xs) r
  Hit-cons x xs none e h = (e, h)
  Hit-cons x xs (some y) e h = inr (e, h)

find_option-Hit :
    (name : Text) (type : ℤ) (os : List CmdOption)
    → Hit (is_match name type) os (find_option name type os)
unfolding find_option
find_option-Hit name type [] = tt
find_option-Hit name type (o ∷ os) = elim (Bool-cases (is_match name type o)) [
  | inl e ↦ rw e (inl (e, refl))
  | inr e ↦ rw e (
      Hit-cons (is_match name type) o os (find_option name type os) e
        (find_option-Hit name type os))
]

find_value-Hit :
    (name : Text) (vs : List CmdValue) → Hit (λ v. same_text v.name name) vs (find_value name vs)
unfolding find_value
find_value-Hit name [] = tt
find_value-Hit name (v ∷ vs) = elim (Bool-cases (same_text v.name name)) [
  | inl e ↦ rw e (inl (e, refl))
  | inr e ↦
      rw e
        (Hit-cons (λ v. same_text v.name name) v vs (find_value name vs) e (find_value-Hit name vs))
]

-- What a search that answers with a Boolean promises: it fills in the first element that passes, or
-- leaves what was there if none does.
abbrev pub Searched : {A : Type 0} → (A → Bool) → List A → A → Bool × A → Type 0
Searched test xs old (true, x) = FirstHit test xs x
Searched test xs old (false, x) = AllMiss test xs × (x ≡ old)

Hit-Searched :
    {A : Type 0} (test : A → Bool) (xs : List A) (old : A) (r : Option A)
    → Hit test xs r
    → Searched test xs old (elim r as (λ _. Bool × A) [ none ↦ (false, old) | some x ↦ (true, x) ])
Hit-Searched test xs old none h = (h, refl)
Hit-Searched test xs old (some x) h = h

-- `has_option` answers whether the command line has an option of the name and the type, and fills in
-- the first of them; where there is none the caller's instance stays as it was.
pub has_option-Searched :
    (name : Text) (type : ℤ) (opt : CmdOption) (a : CmdArgs)
    → Searched (is_match name type) a.options opt (has_option name type opt a)
unfolding has_option
has_option-Searched name type opt a =
    Hit-Searched (is_match name type) a.options opt (find_option name type a.options)
      (find_option-Hit name type a.options)

-- `has_value` answers whether the command line has a value of the name, and fills in the first of
-- them; where there is none the caller's instance stays as it was.
pub has_value-Searched :
    (name : Text) (val : CmdValue) (a : CmdArgs)
    → Searched (λ v. same_text v.name name) a.values val (has_value name val a)
unfolding has_value
has_value-Searched name val a =
    Hit-Searched (λ v. same_text v.name name) a.values val (find_value name a.values)
      (find_value-Hit name a.values)

-- The overloads without an instance answer the same.
pub has_option-contains :
    (name : Text) (type : ℤ) (opt : CmdOption) (a : CmdArgs)
    → contains_option name type a ≡ (has_option name type opt a).0
unfolding contains_option has_option
has_option-contains name type opt a = ground arith

pub has_value-contains :
    (name : Text) (val : CmdValue) (a : CmdArgs) → contains_value name a ≡ (has_value name val a).0
unfolding contains_value has_value
has_value-contains name val a = ground arith

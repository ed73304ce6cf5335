-- ===== src/Text/CmdArgs/RoundTrip.antt =====
-- zysoft/zysoft/utility/cmdargs.h: nothing of the command line is lost.
use zysoft.Prelude.{
  ℕ, zero, suc, ◌-◌, ◌≤◌, ◌≡◌, refl, sym, ◌∙◌, ap, ap₂, subst, ◌⊎◌, List, [], ◌∷◌, ◌++◌, arith,
  if◌then◌else◌, ◌==◌, length, drop, Bool-cases, inl, inr, append_assoc, append-nil, length-drop,
}
use zysoft.Text.Split.{Text, find, found, last_field}
use zysoft.Text.Split.General.{find_lem, AtDelim}
use zysoft.Text.CmdArgs.{
  CmdOption, CmdValue, CmdArgs, split_option, to_string, dashes_of, option_of, take_arg, take_args,
  parse, is_dashed, spell, dashes,
}

-- The command line, from the options and the values: at each place the one that has its index, up to a place that none
-- has.
abbrev pub rebuild : ℕ → ℕ → List CmdOption → List CmdValue → List Text
rebuild zero i os vs = []
rebuild (suc k) i [] [] = []
rebuild (suc k) i [] (v ∷ vs) =
    let rest = rebuild k (suc i) [] vs in if v.index == i then v.name ∷ rest else []
rebuild (suc k) i (o ∷ os) [] =
    let rest = rebuild k (suc i) os [] in if o.index == i then o.original ∷ rest else []
rebuild (suc k) i (o ∷ os) (v ∷ vs) =
    let with_option = rebuild k (suc i) os (v ∷ vs) in
    let with_value = rebuild k (suc i) (o ∷ os) vs in
    if o.index == i
    then o.original ∷ with_option
    else if v.index == i
    then v.name ∷ with_value
    else []

-- The two results of the loop from the index `i` on.
options_of : ℕ → List Text → List CmdOption
options_of i [] = []
options_of i (arg ∷ argv) =
    let rest = options_of (suc i) argv in
    if is_dashed arg then option_of i arg (drop 1 arg) ∷ rest else rest

values_of : ℕ → List Text → List CmdValue
values_of i [] = []
values_of i (arg ∷ argv) =
    let rest = values_of (suc i) argv in
    if is_dashed arg then rest else record { name = arg; index = i } ∷ rest

take_arg_lem :
    (i : ℕ) (arg : Text) (argv : List Text) (a : CmdArgs)
    → let a' = take_arg i arg a in
      (a'.options ++ options_of (suc i) argv ≡ a.options ++ options_of i (arg ∷ argv))
      × (a'.values ++ values_of (suc i) argv ≡ a.values ++ values_of i (arg ∷ argv))
unfolding take_arg options_of values_of
take_arg_lem i [] argv a = (refl, append_assoc a.values _ _)
take_arg_lem i (c ∷ arg) argv a = elim (Bool-cases (c == 45)) [
  | inl e ↦ rw e (append_assoc a.options _ _, refl)
  | inr e ↦ rw e (refl, append_assoc a.values _ _)
]

take_args_lem :
    (i : ℕ) (argv : List Text) (a : CmdArgs)
    → ((take_args i argv a).options ≡ a.options ++ options_of i argv)
      × ((take_args i argv a).values ≡ a.values ++ values_of i argv)
unfolding take_args options_of values_of
take_args_lem i [] a = (sym (append-nil a.options), sym (append-nil a.values))
take_args_lem i (arg ∷ argv) a =
    let (p, q) = take_args_lem (suc i) argv (take_arg i arg a) in
    let (r, s) = take_arg_lem i arg argv a in (p ∙ r, q ∙ s)

spell_lem :
    (a b : Text)
    → AtDelim 61 b
    → let s = spell a (last_field b (found b)).0 in (a ++ b ≡ s) ⊎ (a ++ b ≡ s ++ 61 ∷ [])
unfolding spell last_field
spell_lem a [] d = inl (append-nil a)
spell_lem a (c ∷ []) d = inr (rw d refl)
spell_lem a (c ∷ x ∷ s) d = inl (rw d refl)

split_spell :
    (s : Text)
    → let (name, value) = split_option 61 s in
      (s ≡ spell name value) ⊎ (s ≡ spell name value ++ 61 ∷ [])
unfolding split_option
split_spell s =
    let (p, _, _, d) = find_lem 61 s in
    let (a, b) = find 61 s in
    subst
      (λ x.
        (x ≡ spell a (last_field b (found b)).0)
        ⊎ (x ≡ spell a (last_field b (found b)).0 ++ 61 ∷ []))
      (sym p) (spell_lem a b d)

-- An option's `to_string` is the argument it was read from, but for an `=` with nothing behind it.
pub to_string-original :
    (i : ℕ) (arg : Text)
    → let s = to_string (option_of i (45 ∷ arg) arg) in (45 ∷ arg ≡ s) ⊎ (45 ∷ arg ≡ s ++ 61 ∷ [])
unfolding option_of dashes_of to_string dashes spell split_option find last_field
to_string-original i [] = inl refl
to_string-original i (c ∷ arg) = elim (Bool-cases (c == 45)) [
  | inl e ↦
      let q : c ≡ 45 = ground arith in
      rw e (elim (split_spell arg) [
        | inl p ↦ inl (ap₂ (λ x y. 45 ∷ x ∷ y) q p)
        | inr p ↦ inr (ap₂ (λ x y. 45 ∷ x ∷ y) q p)
      ])
  | inr e ↦ rw e (elim (split_spell (c ∷ arg)) [
    | inl p ↦ inl (ap (λ y. 45 ∷ y) p)
    | inr p ↦ inr (ap (λ y. 45 ∷ y) p)
  ])
]

-- The options from `i` on.
abbrev OptionsFrom : ℕ → List CmdOption → Type 0
OptionsFrom i [] = Unit {0}
OptionsFrom i (o ∷ os) = (i ≤ o.index) × OptionsFrom i os

OptionsFrom-mono : (i j : ℕ) (os : List CmdOption) → j ≤ i → OptionsFrom i os → OptionsFrom j os
OptionsFrom-mono i j [] p f = tt
OptionsFrom-mono i j (o ∷ os) p f = (omega arith, OptionsFrom-mono i j os p f.1)

options_of-OptionsFrom : (i : ℕ) (argv : List Text) → OptionsFrom i (options_of i argv)
unfolding options_of option_of
options_of-OptionsFrom i [] = tt
options_of-OptionsFrom i (arg ∷ argv) =
    let r =
      OptionsFrom-mono (suc i) i (options_of (suc i) argv) (omega arith)
        (options_of-OptionsFrom (suc i) argv) in
    elim (Bool-cases (is_dashed arg)) [ inl e ↦ rw e (omega arith, r) | inr e ↦ rw e r ]

rebuild-option :
    (k i : ℕ) (o : CmdOption) (os : List CmdOption) (vs : List CmdValue)
    → o.index ≡ i
    → rebuild (suc k) i (o ∷ os) vs ≡ o.original ∷ rebuild k (suc i) os vs
rebuild-option k i o os [] p = ground arith
rebuild-option k i o os (v ∷ vs) p = ground arith

rebuild-value :
    (k i : ℕ) (os : List CmdOption) (v : CmdValue) (vs : List CmdValue)
    → v.index ≡ i
    → OptionsFrom (suc i) os
    → rebuild (suc k) i os (v ∷ vs) ≡ v.name ∷ rebuild k (suc i) os vs
rebuild-value k i [] v vs e p = ground arith
rebuild-value k i (o ∷ os) v vs e p = ground arith

rebuild_lem :
    (i : ℕ) (argv : List Text)
    → rebuild (length argv) i (options_of i argv) (values_of i argv) ≡ argv
unfolding options_of values_of option_of
rebuild_lem i [] = refl
rebuild_lem i (arg ∷ argv) = elim (Bool-cases (is_dashed arg)) [
  | inl e ↦ rw e (
      rebuild-option (length argv) i _ (options_of (suc i) argv) (values_of (suc i) argv) refl
      ∙ ap (λ x. arg ∷ x) (rebuild_lem (suc i) argv))
  | inr e ↦ rw e (
      rebuild-value (length argv) i (options_of (suc i) argv) _ (values_of (suc i) argv) refl
        (options_of-OptionsFrom (suc i) argv)
      ∙ ap (λ x. arg ∷ x) (rebuild_lem (suc i) argv))
]

-- The options' originals and the values, in the order of their indices from 1 on, are the command line
-- without the program's name.
pub parse_loses_nothing :
    (argv : List Text)
    → let a = parse argv in rebuild (length argv - 1) 1 a.options a.values ≡ drop 1 argv
unfolding parse
parse_loses_nothing argv =
    let (p, q) = take_args_lem 1 (drop 1 argv) (record { options = []; values = [] }) in
    rw (p, q, ← length-drop 1 argv) (rebuild_lem 1 (drop 1 argv))

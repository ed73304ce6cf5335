-- ===== src/Text/CmdArgs/Printed.antt =====
-- zysoft/zysoft/utility/cmdargs.h: a command line that is written to a stream.
use zysoft.Prelude.{
  ℕ, suc, ◌≡◌, refl, ap, sym, ◌∙◌, List, [], ◌∷◌, ◌++◌, ◌⊎◌, inl, inr, ◌==◌, arith, Bool-cases,
  append_assoc, drop, subst,
}
use zysoft.Text.Split.{Text}
use zysoft.Text.CmdArgs.{
  CmdOption, CmdArgs, to_string, insert_option, insert_spelled, option_of, dashes, spell, take_arg,
  take_args, parse,
}
use zysoft.Text.CmdArgs.RoundTrip.{to_string-original}

insert_spelled-spell :
    (stm name value : Text) → insert_spelled stm name value ≡ stm ++ spell name value
unfolding insert_spelled spell
insert_spelled-spell stm name [] = refl
insert_spelled-spell stm name (c ∷ s) =
    append_assoc (stm ++ name) (61 ∷ []) (c ∷ s) ∙ append_assoc stm name (61 ∷ c ∷ s)

insert_option-to_string : (stm : Text) (o : CmdOption) → insert_option stm o ≡ stm ++ to_string o
unfolding insert_option to_string
insert_option-to_string stm o =
    insert_spelled-spell (stm ++ dashes o.type) o.name o.value
    ∙ append_assoc stm (dashes o.type) (spell o.name o.value)

-- The stream `stm` with an option behind it holds the option's argument, but for an `=` at the end.
abbrev pub IsWritten : Text → CmdOption → Type 0
IsWritten stm o =
    (stm ++ o.original ≡ insert_option stm o) ⊎ (stm ++ o.original ≡ insert_option stm o ++ 61 ∷ [])

abbrev pub AllWritten : Text → List CmdOption → Type 0
AllWritten stm [] = Unit {0}
AllWritten stm (o ∷ os) = IsWritten stm o × AllWritten stm os

AllWritten-append :
    (stm : Text) (os ps : List CmdOption)
    → AllWritten stm os
    → AllWritten stm ps
    → AllWritten stm (os ++ ps)
AllWritten-append stm [] ps f g = g
AllWritten-append stm (o ∷ os) ps f g = (f.0, AllWritten-append stm os ps f.1 g)

option_of-IsWritten : (stm : Text) (i : ℕ) (arg : Text) → IsWritten stm (option_of i (45 ∷ arg) arg)
unfolding option_of
option_of-IsWritten stm i arg =
    let same = insert_option-to_string stm (option_of i (45 ∷ arg) arg) in
    elim (to_string-original i arg) [
      | inl p ↦ inl (ap (λ x. stm ++ x) p ∙ sym same)
      | inr p ↦ inr (
          ap (λ x. stm ++ x) p
          ∙ sym (append_assoc stm (to_string (option_of i (45 ∷ arg) arg)) (61 ∷ []))
          ∙ ap (λ x. x ++ 61 ∷ []) (sym same))
    ]

take_arg-AllWritten :
    (stm : Text) (i : ℕ) (arg : Text) (a : CmdArgs)
    → AllWritten stm a.options
    → AllWritten stm (take_arg i arg a).options
unfolding take_arg
take_arg-AllWritten stm i [] a f = f
take_arg-AllWritten stm i (c ∷ arg) a f = elim (Bool-cases (c == 45)) [
  | inl e ↦
      let q : c ≡ 45 = ground arith in
      rw e (
        AllWritten-append stm a.options _ f (
          subst (λ x. IsWritten stm (option_of i (x ∷ arg) arg)) (sym q)
              (option_of-IsWritten stm i arg),
          tt,
        ))
  | inr e ↦ rw e f
]

take_args-AllWritten :
    (stm : Text) (i : ℕ) (argv : List Text) (a : CmdArgs)
    → AllWritten stm a.options
    → AllWritten stm (take_args i argv a).options
unfolding take_args
take_args-AllWritten stm i [] a f = f
take_args-AllWritten stm i (arg ∷ argv) a f =
    take_args-AllWritten stm (suc i) argv (take_arg i arg a) (take_arg-AllWritten stm i arg a f)

-- Each option of a command line, written to a stream, is the argument it was read from, but for an `=` with nothing behind
-- it.
pub parse-AllWritten : (stm : Text) (argv : List Text) → AllWritten stm (parse argv).options
unfolding parse
parse-AllWritten stm argv =
    take_args-AllWritten stm 1 (drop 1 argv) (record { options = []; values = [] }) tt

-- ===== src/Net/Address/Names.antt =====
-- zysoft/net/inet_address.h: connections have different names.
use zysoft.Prelude.{
  ℕ, suc, ◌^◌, ◌≤◌, ◌<◌, ◌≡◌, refl, sym, ◌∙◌, ap, List, [], ◌∷◌, ◌++◌, arith, take_all, drop,
  length, length-append, append_assoc,
}
use zysoft.Text.Decimal.{decimal, value_from, value-decimal, length-digits}
use zysoft.Net.Address.{InetAddress, numbered_connection_name}

drop-append {ℓ} : {A : Type ℓ} (xs ys : List A) → drop (length xs) (xs ++ ys) ≡ ys
drop-append [] ys = refl
drop-append (x ∷ xs) ys = drop-append xs ys

-- The longest IPv6 address takes 45 characters.
name_fits :
    (addr : InetAddress) (i : ℕ)
    → length addr.ip ≤ 45
    → addr.port < 2 ^ 16
    → i < 2 ^ 31
    → numbered_connection_name addr i
      ≡ (addr.ip ++ 58 ∷ (decimal addr.port ++ 35 ∷ [])) ++ decimal i
unfolding numbered_connection_name decimal
name_fits addr i l p q =
    let port = decimal addr.port in
    let n = decimal i in
    take_all 63 (addr.ip ++ 58 ∷ (port ++ 35 ∷ n)) (
      omega (
        arith,
        length-append addr.ip (58 ∷ (port ++ 35 ∷ n)),
        length-append port (35 ∷ n),
        length-digits 4 (suc addr.port) addr.port (omega arith),
        length-digits 9 (suc i) i (omega arith),
      ))
    ∙ sym (
        append_assoc addr.ip (58 ∷ (port ++ 35 ∷ [])) n
        ∙ ap (λ s. addr.ip ++ 58 ∷ s) (append_assoc port (35 ∷ []) n))

-- At an address that is not too long, the names of different numbers differ.
pub names_differ :
    (addr : InetAddress) (i j : ℕ)
    → length addr.ip ≤ 45
    → addr.port < 2 ^ 16
    → i < 2 ^ 31
    → j < 2 ^ 31
    → numbered_connection_name addr i ≡ numbered_connection_name addr j
    → i ≡ j
names_differ addr i j l p q r e =
    let prefix = addr.ip ++ 58 ∷ (decimal addr.port ++ 35 ∷ []) in
    let same : prefix ++ decimal i ≡ prefix ++ decimal j =
      sym (name_fits addr i l p q) ∙ e ∙ name_fits addr j l p r in
    let tails : decimal i ≡ decimal j =
      sym (drop-append prefix (decimal i))
      ∙ ap (drop (length prefix)) same
      ∙ drop-append prefix (decimal j) in
    sym (value-decimal i) ∙ ap (value_from 0) tails ∙ value-decimal j

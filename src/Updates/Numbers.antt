-- ===== src/Updates/Numbers.antt =====
-- The numbers in a version, and its parts (service/src/settings/update_checker.cpp).
use ime_windows.Prelude.{
  ℕ, ◌+◌, ◌-◌, ◌*◌, ◌≤◌, ◌<◌, ◌≡◌, refl, false, not, ◌&&◌, Option, none, some, List, [], ◌∷◌, all,
  any, ◌++◌, ◌==◌, is_empty, ltb, u64_mod, if◌then◌else◌, Bool-cases, ltb→lt, inl, inr, arith,
}
use ime_windows.Updates.Version.{
  is_digit, parse_digits, parse_calver_component, cut_at, dot, has_sizes, parse_components,
  parse_calver,
}

-- The number that digits write, continued from the number before them.
unfoldable pub decimal : ℕ → List ℕ → ℕ
decimal result [] = result
decimal result (c ∷ cs) = decimal (result * 10 + (c - 48)) cs

decimal-le : (cs : List ℕ) (result : ℕ) → result ≤ decimal result cs
unfolding decimal
decimal-le [] result = omega arith
decimal-le (c ∷ cs) result = omega (arith, decimal-le cs (result * 10 + (c - 48)))

-- The number if all are digits and it fits into 64 bits.
unfoldable pub number : ℕ → List ℕ → Option ℕ
number result cs =
    if all is_digit cs && ltb (decimal result cs) u64_mod then some (decimal result cs) else none

parse_digits-number :
    (cs : List ℕ) (result : ℕ) → result < u64_mod → parse_digits result cs ≡ number result cs
unfolding parse_digits number decimal
parse_digits-number [] result h = ground arith
parse_digits-number (c ∷ cs) result h =
    let next = result * 10 + (c - 48) in
    elim (Bool-cases (ltb next u64_mod)) [
      | inl fits ↦ ground (arith, parse_digits-number cs next (ltb→lt next u64_mod fits))
      | inr over ↦ ground (arith, over, decimal-le cs next)
    ]

-- The component of a version is read as the number that its digits write, if it is not empty, all its
-- characters are digits and the number is below 2^64; in all other cases it is refused, however long
-- it is.
pub parse_calver_component-number :
    (value : List ℕ)
    → parse_calver_component value ≡ (
        if not (is_empty value) && all is_digit value && ltb (decimal 0 value) u64_mod
        then some (decimal 0 value)
        else none)
unfolding parse_calver_component number
parse_calver_component-number [] = refl
parse_calver_component-number (c ∷ cs) = parse_digits-number (c ∷ cs) 0 (omega arith)

cut_at-append :
    (separator : ℕ) (xs ys : List ℕ)
    → any (λ c. c == separator) xs ≡ false
    → cut_at separator (xs ++ (separator ∷ ys)) ≡ some (xs, ys)
unfolding cut_at
cut_at-append separator [] ys h = ground arith
cut_at-append separator (x ∷ xs) ys h = ground (arith, h, cut_at-append separator xs ys)

-- Four texts without a dot that are joined by dots are taken apart again: they are read as a version
-- where the first has four characters and the next two have two each, and refused otherwise.
pub parse_calver-append :
    (year month day revision : List ℕ)
    → any (λ c. c == dot) year ≡ false
    → any (λ c. c == dot) month ≡ false
    → any (λ c. c == dot) day ≡ false
    → any (λ c. c == dot) revision ≡ false
    → parse_calver (year ++ (dot ∷ (month ++ (dot ∷ (day ++ (dot ∷ revision))))))
      ≡ (if has_sizes year month day then parse_components year month day revision else none)
unfolding parse_calver
parse_calver-append year month day revision hy hm hd hr =
    rw
      (
        cut_at-append dot year (month ++ (dot ∷ (day ++ (dot ∷ revision)))) hy,
        cut_at-append dot month (day ++ (dot ∷ revision)) hm,
        cut_at-append dot day revision hd,
        hr,
      )
      (ground arith)

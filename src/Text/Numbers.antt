-- ===== src/Text/Numbers.antt =====
-- Numbers as text: decimal (`strconv.FormatInt`, `strconv.ParseInt`, `%d`) and hexadecimal.
use it_portal_agent.Prelude.{
  ℕ, zero, suc, ◌+◌, ◌-◌, ◌*◌, ◌/◌, ◌%◌, ◌<◌, ◌≡◌, ◌∙◌, ◌&&◌, Option, none, some, [], ◌∷◌, ◌++◌,
  arith, inl, inr, ap, Bool-cases, ltb, leb, if◌then◌else◌,
}
use it_portal_agent.Text.{Text}

-- The digits of a number, from the left; the fuel is a number above it.
unfoldable pub digits : ℕ → ℕ → Text
digits zero n = []
digits (suc f) n =
    let rest = digits f (n / 10) in if ltb n 10 then (n + 48) ∷ [] else rest ++ ((n % 10 + 48) ∷ [])

unfoldable pub print_decimal : ℕ → Text
unfolding digits
print_decimal n = digits (n + 1) n

-- The value of a run of digits behind a number that is already read.
unfoldable pub parse_digits : ℕ → Text → Option ℕ
parse_digits n [] = some n
parse_digits n (c ∷ t) =
    let more = parse_digits (n * 10 + (c - 48)) t in if leb 48 c && leb c 57 then more else none

parse_digits-append :
    (n m c : ℕ) (s : Text)
    → parse_digits n s ≡ some m
    → c < 10
    → parse_digits n (s ++ (c + 48) ∷ []) ≡ some (m * 10 + c)
unfolding parse_digits
parse_digits-append n m c [] e h = ground arith
parse_digits-append n m c (d ∷ s) e h =
    ground (arith, parse_digits-append (n * 10 + (d - 48)) m c s)

parse_digits-digits : (f n : ℕ) → n < f → parse_digits 0 (digits f n) ≡ some n
unfolding digits
parse_digits-digits zero n h = absurd (omega arith)
parse_digits-digits (suc f) n h = elim (Bool-cases (ltb n 10)) [
  | inl e ↦ rw e (unfold parse_digits in ground arith)
  | inr e ↦ rw e (
      parse_digits-append 0 (n / 10) (n % 10) (digits f (n / 10))
        (parse_digits-digits f (n / 10) (ground arith)) (omega arith)
      ∙ ap some (omega arith))
]

-- What is printed is read back.
pub parse-print_decimal : (n : ℕ) → parse_digits 0 (print_decimal n) ≡ some n
unfolding print_decimal
parse-print_decimal n = parse_digits-digits (n + 1) n (omega arith)

-- `hex.EncodeToString`
unfoldable pub hex_digit : ℕ → ℕ
hex_digit n = if ltb n 10 then n + 48 else n + 87

unfoldable pub hex : Text → Text
unfolding hex_digit
hex [] = []
hex (b ∷ t) = hex_digit (b / 16) ∷ hex_digit (b % 16) ∷ hex t

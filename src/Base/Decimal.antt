-- ===== src/Base/Decimal.antt =====
-- `format!("{}", n)` and `str::parse::<u64>` of the standard library.
use Prim.Native.Char.{Char, code}
use Prim.Native.String.{String, ◌++◌ as ◌<>◌}
use text.Mathlib.TextLemmas.{append_assoc, append-nil, cons-append, nil-append}
use simperby.Base.{
  ℕ, zero, suc, ◌+◌, ◌-◌, ◌*◌, ◌/◌, ◌%◌, ◌<◌, ◌≤◌, ◌≡◌, refl, ◌∙◌, ap, sym, false, ◌&&◌, Option,
  none, some, inl, inr, arith, ltb, leb, ◌==◌, if◌then◌else◌, Bool-cases, lt→ltb, ltb→lt,
}
use simperby.Base.Word.{u64_mod}

unfoldable pub digit_char : ℕ → Char
digit_char d =
    if d == 0
    then "0"
    else if d == 1
    then "1"
    else if d == 2
    then "2"
    else if d == 3
    then "3"
    else if d == 4
    then "4"
    else if d == 5
    then "5"
    else if d == 6
    then "6"
    else if d == 7
    then "7"
    else if d == 8
    then "8"
    else "9"

unfoldable pub digit_of : Char → Option ℕ
digit_of c = if leb 48 (code c) && leb (code c) 57 then some (code c - 48) else none

digit_of-digit_char : (d : ℕ) → d < 10 → digit_of (digit_char d) ≡ some d
unfolding digit_of digit_char
digit_of-digit_char zero h = refl
digit_of-digit_char (suc zero) h = refl
digit_of-digit_char (suc (suc zero)) h = refl
digit_of-digit_char (suc (suc (suc zero))) h = refl
digit_of-digit_char (suc (suc (suc (suc zero)))) h = refl
digit_of-digit_char (suc (suc (suc (suc (suc zero))))) h = refl
digit_of-digit_char (suc (suc (suc (suc (suc (suc zero)))))) h = refl
digit_of-digit_char (suc (suc (suc (suc (suc (suc (suc zero))))))) h = refl
digit_of-digit_char (suc (suc (suc (suc (suc (suc (suc (suc zero)))))))) h = refl
digit_of-digit_char (suc (suc (suc (suc (suc (suc (suc (suc (suc zero))))))))) h = refl
digit_of-digit_char (suc (suc (suc (suc (suc (suc (suc (suc (suc (suc d)))))))))) h =
    absurd (omega arith)

-- The last digit stands last; more fuel than the number is enough.
unfoldable pub digits_of : ℕ → ℕ → String
unfolding digit_char
digits_of zero n = ""
digits_of (suc fuel) n =
    let leading = digits_of fuel (n / 10) in
    if ltb n 10
    then String.◌∷◌ (digit_char n) ""
    else leading <> String.◌∷◌ (digit_char (n % 10)) ""

unfoldable pub decimal : ℕ → String
unfolding digits_of
decimal n = digits_of (suc n) n

-- Each digit is `checked_mul` and `checked_add`.
unfoldable pub parse_digits : ℕ → String → Option ℕ
unfolding digit_of
parse_digits n String.[] = some n
parse_digits n (String.◌∷◌ c s) = elim (digit_of c) [
  | none ↦ none
  | some d ↦ if ltb (n * 10 + d) u64_mod then parse_digits (n * 10 + d) s else none
]

unfoldable pub parse_u64 : String → Option ℕ
unfolding parse_digits
parse_u64 String.[] = none
parse_u64 (String.◌∷◌ c String.[]) = parse_digits 0 (String.◌∷◌ c "")
parse_u64 (String.◌∷◌ c (String.◌∷◌ d s)) =
    if code c == 43
    then parse_digits 0 (String.◌∷◌ d s)
    else parse_digits 0 (String.◌∷◌ c (String.◌∷◌ d s))

ran : decimal 1203 ≡ "1203"
unfolding decimal
ran = refl

parse_digits-digit :
    (n d : ℕ) (rest : String)
    → d < 10
    → n * 10 + d < u64_mod
    → parse_digits n (String.◌∷◌ (digit_char d) rest) ≡ parse_digits (n * 10 + d) rest
unfolding parse_digits
parse_digits-digit n d rest h k =
    rw (parse_digits, digit_of-digit_char d h, lt→ltb (n * 10 + d) u64_mod k)

parse_digits-digits_of :
    (fuel n : ℕ) (rest : String)
    → n < fuel
    → n < u64_mod
    → parse_digits 0 (digits_of fuel n <> rest) ≡ parse_digits n rest
unfolding digits_of
parse_digits-digits_of zero n rest h k = absurd (omega arith)
parse_digits-digits_of (suc fuel) n rest h k = elim (Bool-cases (ltb n 10)) [
  | inl small ↦
      rw (small, cons-append, nil-append)
        (parse_digits-digit 0 n rest (ltb→lt n 10 small) (omega arith)
          ∙ ap (λ m. parse_digits m rest) (omega arith))
  | inr large ↦
      let above : 10 ≤ n = ground arith in
      rw (large, append_assoc, cons-append, nil-append)
        (parse_digits-digits_of fuel (n / 10) _ (omega arith) (omega arith)
          ∙ parse_digits-digit (n / 10) (n % 10) rest (omega arith) (omega arith)
          ∙ ap (λ m. parse_digits m rest) (omega arith))
]

-- The first character is a digit.
head-digits_of :
    (fuel n : ℕ) (rest : String)
    → n < fuel
    → (d : ℕ) × (s : String) × (d < 10) × (digits_of fuel n <> rest ≡ String.◌∷◌ (digit_char d) s)
unfolding digits_of
head-digits_of zero n rest h = absurd (omega arith)
head-digits_of (suc fuel) n rest h = elim (Bool-cases (ltb n 10)) [
  | inl small ↦ (n, rest, ltb→lt n 10 small, rw (small, cons-append, nil-append))
  | inr large ↦
      let above : 10 ≤ n = ground arith in
      let (d, s, low, e) =
        head-digits_of fuel (n / 10) (String.◌∷◌ (digit_char (n % 10)) rest) (omega arith) in
      (d, s, low, rw (large, append_assoc, cons-append, nil-append) e)
]

plain_of_digit : (c : Char) (d : ℕ) → digit_of c ≡ some d → (code c == 43) ≡ false
unfolding digit_of
plain_of_digit c d h = ground arith

parse_u64_plain :
    (d : ℕ) (s : String)
    → d < 10
    → parse_u64 (String.◌∷◌ (digit_char d) s) ≡ parse_digits 0 (String.◌∷◌ (digit_char d) s)
unfolding parse_u64
parse_u64_plain d String.[] h = refl
parse_u64_plain d (String.◌∷◌ c s) h =
    rw (plain_of_digit (digit_char d) d (digit_of-digit_char d h))

parse_digits-nil : (n : ℕ) → parse_digits n "" ≡ some n
unfolding parse_digits
parse_digits-nil n = refl

-- Every 64-bit number is read back from its decimal digits.
pub parse_u64-decimal : (n : ℕ) → n < u64_mod → parse_u64 (decimal n) ≡ some n
unfolding decimal
parse_u64-decimal n h =
    let (d, s, low, e) = head-digits_of (suc n) n "" (omega arith) in
    let e' : digits_of (suc n) n ≡ String.◌∷◌ (digit_char d) s = sym (append-nil _) ∙ e in
    rw e' (
      parse_u64_plain d s low
      ∙ ap (parse_digits 0) (sym e)
      ∙ parse_digits-digits_of (suc n) n "" (omega arith) h
      ∙ parse_digits-nil n)

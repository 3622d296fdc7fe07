-- ===== src/Ulib/RoundTrip.antt =====
-- `atoi` reads back what `printint` writes.
use xv6_system_calls.Prelude.{
  ℕ, zero, suc, ◌*◌, ◌/◌, ◌%◌, ◌^◌, ◌≤◌, ◌<◌, ◌≡◌, ◌≢◌, refl, sym, ap, ◌∙◌, inl, inr, Bool, true,
  false, ◌&&◌, List, [], ◌∷◌, ◌++◌, ◌==◌, leb, Bool-cases, ne→==, ==→eq, lt→leb, u32_mod, arith,
}
use xv6_system_calls.Ulib.{
  digit_zero, space, plus, minus, skip_spaces, is_digit, add_digit, read_digits, read_signed,
  negate, atoi, digit, put_digits, put_back, printint,
}

abbrev is_decimal : ℕ → Bool
is_decimal c = is_digit 57 c

abbrev all_decimal : List ℕ → Bool
all_decimal [] = true
all_decimal (c ∷ cs) = is_decimal c && all_decimal cs

all_decimal-append :
    (l : List ℕ) (c : ℕ)
    → all_decimal l ≡ true
    → is_decimal c ≡ true
    → all_decimal (l ++ c ∷ []) ≡ true
all_decimal-append [] c all e = rw e refl
all_decimal-append (x ∷ xs) c all e =
    let rest = all_decimal-append xs c (ground arith) e in rw rest (ground arith)

digit-decimal : (d : ℕ) → d < 10 → is_decimal (digit d) ≡ true
digit-decimal d lt = ground arith

put_digits-decimal : (fuel x : ℕ) → all_decimal (put_back (put_digits fuel 10 x)) ≡ true
unfolding put_digits put_back
put_digits-decimal zero x = refl
put_digits-decimal (suc fuel) x = elim (Bool-cases (x / 10 == 0)) [
  | inl e ↦
      rw e (all_decimal-append [] (digit (x % 10)) refl (digit-decimal (x % 10) (omega arith)))
  | inr e ↦ rw e (
      all_decimal-append (put_back (put_digits fuel 10 (x / 10))) (digit (x % 10))
        (put_digits-decimal fuel (x / 10)) (digit-decimal (x % 10) (omega arith)))
]

-- The digit that is printed last is read last.
read_digits-append :
    (n : ℕ) (l : List ℕ) (c : ℕ)
    → all_decimal l ≡ true
    → is_decimal c ≡ true
    → read_digits 10 57 n (l ++ c ∷ []) ≡ add_digit 10 (read_digits 10 57 n l) c
unfolding read_digits
read_digits-append n [] c all e = rw e refl
read_digits-append n (x ∷ xs) c all e =
    let head : is_decimal x ≡ true = ground arith in
    rw head (read_digits-append (add_digit 10 n x) xs c (ground arith) e)

read_digits-nil : (n : ℕ) → read_digits 10 57 n [] ≡ n
unfolding read_digits
read_digits-nil n = refl

abbrev tens : ℕ → ℕ
tens zero = 1
tens (suc k) = 10 * tens k

add_digit-last : (x : ℕ) → x < u32_mod → add_digit 10 (x / 10) (digit (x % 10)) ≡ x
add_digit-last x small =
    let no_letter : leb 10 (x % 10) ≡ false = lt→leb 10 (x % 10) (omega arith) in
    rw no_letter (omega arith)

-- With as many rounds as there are digits.
read_digits-put_digits :
    (fuel x : ℕ)
    → x < u32_mod
    → x < tens fuel
    → read_digits 10 57 0 (put_back (put_digits fuel 10 x)) ≡ x
unfolding put_digits put_back
read_digits-put_digits zero x small enough =
    let nothing : x ≡ 0 = omega arith in read_digits-nil 0 ∙ sym nothing
read_digits-put_digits (suc fuel) x small enough = elim (Bool-cases (x / 10 == 0)) [
  | inl e ↦
      let none_left : x / 10 ≡ 0 = ==→eq (x / 10) 0 e in
      rw e (
        read_digits-append 0 [] (digit (x % 10)) refl (digit-decimal (x % 10) (omega arith))
        ∙ ap (λ (k : ℕ). add_digit 10 k (digit (x % 10))) (read_digits-nil 0 ∙ sym none_left)
        ∙ add_digit-last x small)
  | inr e ↦ rw e (
      read_digits-append 0 (put_back (put_digits fuel 10 (x / 10))) (digit (x % 10))
        (put_digits-decimal fuel (x / 10)) (digit-decimal (x % 10) (omega arith))
      ∙ ap (λ (k : ℕ). add_digit 10 k (digit (x % 10)))
          (read_digits-put_digits fuel (x / 10) (omega arith) (omega arith))
      ∙ add_digit-last x small)
]

put_back-last : (l : List ℕ) (c : ℕ) → put_back (l ++ c ∷ []) ≡ c ∷ put_back l
unfolding put_back
put_back-last [] c = refl
put_back-last (x ∷ xs) c = rw (put_back-last xs c) refl

-- Digits alone are read as they are.
atoi-digits : (l : List ℕ) → all_decimal l ≡ true → atoi l ≡ read_digits 10 57 0 l
unfolding atoi read_signed skip_spaces
atoi-digits [] all = sym (read_digits-nil 0)
atoi-digits (c ∷ cs) all =
    let low : digit_zero ≤ c = ground arith in
    rw (ne→== c space (omega arith), ne→== c minus (omega arith), ne→== c plus (omega arith)) refl

atoi-minus : (l : List ℕ) → atoi (minus ∷ l) ≡ negate (read_digits 10 57 0 l)
unfolding atoi read_signed skip_spaces
atoi-minus l = refl

-- `atoi` reads the decimal number that `printint` writes for an `int` back as the same `int`, of
-- either sign, if it is not -2^31.
pub atoi-printint : (x : ℕ) → x < u32_mod → x ≢ 2 ^ 31 → atoi (printint x 10 true) ≡ x
unfolding printint
atoi-printint x small no_min = elim (Bool-cases (leb (2 ^ 31) x)) [
  | inl e ↦
      let low : negate x < u32_mod = omega arith in
      let twice : negate (negate x) ≡ x = ground arith in
      rw e (
        ap atoi (put_back-last (put_digits 16 10 (negate x)) minus)
        ∙ atoi-minus (put_back (put_digits 16 10 (negate x)))
        ∙ ap negate (read_digits-put_digits 16 (negate x) low (omega arith))
        ∙ twice)
  | inr e ↦ rw e (
      atoi-digits (put_back (put_digits 16 10 x)) (put_digits-decimal 16 x)
      ∙ read_digits-put_digits 16 x small (omega arith))
]

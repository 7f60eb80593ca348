-- ===== src/Numeric/Decimal.antt =====
-- `to_string` against the decimal digits of a number.
use valkyrie_fs.Base.{
  ltb→le, some, Text, ◌+◌, ◌++◌, ℕ, zero, suc, ◌*◌, ◌/◌, ◌%◌, ◌^◌, ◌≤◌, ◌<◌, ◌≡◌, refl, ap, ◌∙◌,
  inl, inr, List, [], ◌∷◌, length, arith, size_mod, ltb, ltb→lt, Bool-cases, if◌then◌else◌,
}
use native.Mathlib.Numerals.{unary_clauses}
use valkyrie_fs.Numeric.{
  stoull-digits, stoull, Stops, digit_text, value_from, IsDigits, decimal_from, to_string,
}

-- The digits that `decimal_from` puts before those that are there.
decimal_digits : ℕ → ℕ → List ℕ → List ℕ
decimal_digits zero n acc = acc
decimal_digits (suc fuel) n acc =
    let more = decimal_digits fuel (n / 10) (n % 10 ∷ acc) in if ltb n 10 then n ∷ acc else more

decimal_from-digits :
    (fuel n : ℕ) (acc : List ℕ)
    → decimal_from fuel n (digit_text acc) ≡ digit_text (decimal_digits fuel n acc)
unfolding decimal_from decimal_digits
decimal_from-digits zero n acc = refl
decimal_from-digits (suc fuel) n acc = elim (Bool-cases (ltb n 10)) [
  | inl small ↦ rw (small, decimal_from, decimal_digits)
  | inr large ↦
      rw (large, decimal_from, decimal_digits) (decimal_from-digits fuel (n / 10) (n % 10 ∷ acc))
]

decimal_digits-IsDigits :
    (fuel n : ℕ) (acc : List ℕ) → IsDigits acc → IsDigits (decimal_digits fuel n acc)
unfolding decimal_digits
decimal_digits-IsDigits zero n acc h = h
decimal_digits-IsDigits (suc fuel) n acc h = elim (Bool-cases (ltb n 10)) [
  | inl small ↦ rw (small, decimal_digits) (ltb→lt n 10 small, h)
  | inr large ↦
      rw (large, decimal_digits)
        (decimal_digits-IsDigits fuel (n / 10) (n % 10 ∷ acc) (omega arith, h))
]

ten_power : (n : ℕ) → 10 ^ suc n ≡ 10 ^ n * 10
ten_power n = simp unary_clauses refl

decimal_digits-value :
    (fuel n : ℕ) (acc : List ℕ)
    → n < 10 ^ fuel
    → value_from 0 (decimal_digits fuel n acc) ≡ value_from n acc
unfolding decimal_digits
decimal_digits-value zero n acc h = ap (λ (k : ℕ). value_from k acc) (omega arith)
decimal_digits-value (suc fuel) n acc h = elim (Bool-cases (ltb n 10)) [
  | inl small ↦ rw (small, decimal_digits) (ap (λ (k : ℕ). value_from k acc) (omega arith))
  | inr large ↦
      rw (large, decimal_digits)
        (decimal_digits-value fuel (n / 10) (n % 10 ∷ acc) (omega (arith, ten_power fuel))
          ∙ ap (λ (k : ℕ). value_from k acc) (omega arith))
]

decimal_digits-grow : (fuel n : ℕ) (acc : List ℕ) → length acc ≤ length (decimal_digits fuel n acc)
unfolding decimal_digits
decimal_digits-grow zero n acc = omega arith
decimal_digits-grow (suc fuel) n acc = elim (Bool-cases (ltb n 10)) [
  | inl small ↦ rw (small, decimal_digits) (omega arith)
  | inr large ↦
      rw (large, decimal_digits) (omega (arith, decimal_digits-grow fuel (n / 10) (n % 10 ∷ acc)))
]

decimal_digits-pos : (fuel n : ℕ) → 0 < length (decimal_digits (suc fuel) n [])
unfolding decimal_digits
decimal_digits-pos fuel n = elim (Bool-cases (ltb n 10)) [
  | inl small ↦ rw (small, decimal_digits) (omega arith)
  | inr large ↦
      rw (large, decimal_digits) (omega (arith, decimal_digits-grow fuel (n / 10) (n % 10 ∷ [])))
]

-- A number below 2^64 is written with its decimal digits.
pub to_string-IsDigits :
    (n : ℕ)
    → n < size_mod
    → (ds : List ℕ) × (to_string n ≡ digit_text ds)
      × IsDigits ds
      × (value_from 0 ds ≡ n)
      × (0 < length ds)
unfolding to_string
to_string-IsDigits n h = (
  decimal_digits 20 n [],
  decimal_from-digits 20 n [],
  decimal_digits-IsDigits 20 n [] tt,
  decimal_digits-value 20 n [] (omega arith),
  decimal_digits-pos 19 n,
)

pub stoull-text :
    (n : ℕ) (ds : List ℕ) (rest : Text)
    → IsDigits ds
    → value_from 0 ds ≡ n
    → 0 < length ds
    → n < size_mod
    → Stops rest
    → stoull (digit_text ds ++ rest) ≡ some n
stoull-text n [] rest digits value some_digits small s = absurd (omega arith)
stoull-text n (d ∷ ds) rest digits value some_digits small s =
    let same : value_from d ds ≡ n = ap (λ (k : ℕ). value_from k ds) (omega arith) ∙ value in
    stoull-digits d ds rest digits s (omega (arith, same)) ∙ ap (λ (k : ℕ). some k) same

-- `stoull` reads back what `to_string` has written, up to a character that is no digit.
pub stoull-to_string :
    (n : ℕ) (rest : Text) → n < size_mod → Stops rest → stoull (to_string n ++ rest) ≡ some n
stoull-to_string n rest small s =
    let (ds, e, digits, value, some_digits) = to_string-IsDigits n small in
    ap (λ (t : Text). stoull (t ++ rest)) e ∙ stoull-text n ds rest digits value some_digits small s

decimal_digits-short :
    (fuel k n : ℕ) (acc : List ℕ)
    → n < 10 ^ suc k
    → length (decimal_digits fuel n acc) ≤ suc k + length acc
unfolding decimal_digits
decimal_digits-short zero k n acc h = omega arith
decimal_digits-short (suc fuel) zero n acc h = elim (Bool-cases (ltb n 10)) [
  | inl small ↦ rw (small, decimal_digits) (omega arith)
  | inr large ↦ absurd (omega (arith, ten_power 0, ltb→le n 10 large))
]
decimal_digits-short (suc fuel) (suc k) n acc h = elim (Bool-cases (ltb n 10)) [
  | inl small ↦ rw (small, decimal_digits) (omega arith)
  | inr large ↦
      rw (large, decimal_digits)
        (omega (
          arith,
          decimal_digits-short fuel k (n / 10) (n % 10 ∷ acc) (omega (arith, ten_power (suc k))),
        ))
]

pub length-digit_text : (ds : List ℕ) → length (digit_text ds) ≡ length ds
length-digit_text [] = refl
length-digit_text (d ∷ ds) = omega (arith, length-digit_text ds)

-- A number below a power of ten is written with no more digits than its exponent.
pub length-to_string : (k n : ℕ) → n < 10 ^ suc k → length (to_string n) ≤ suc k
unfolding to_string
length-to_string k n h = omega (
  arith,
  ap length (decimal_from-digits 20 n []),
  length-digit_text (decimal_digits 20 n []),
  decimal_digits-short 20 k n [] h,
)

pub to_string-pos : (n : ℕ) → 0 < length (to_string n)
unfolding to_string
to_string-pos n = omega (
  arith,
  ap length (decimal_from-digits 20 n []),
  length-digit_text (decimal_digits 20 n []),
  decimal_digits-pos 19 n,
)

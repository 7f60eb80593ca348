-- ===== src/Predictor/Padding.antt =====
-- Numbers that are written with zeros in front.
use valkyrie_fs.Base.{
  ℕ, zero, suc, ◌+◌, ◌-◌, ◌≤◌, ◌<◌, ◌≡◌, refl, ap, ◌∙◌, some, List, ◌∷◌, ◌++◌, Text, length,
  length-append, arith, size_mod,
}
use valkyrie_fs.Numeric.{to_string, stoull, digit_text, value_from, IsDigits, Stops}
use valkyrie_fs.Numeric.Decimal.{length-digit_text, to_string-IsDigits, stoull-text}
use valkyrie_fs.Predictor.Names.{padded, zeros}

pub with_zeros : ℕ → List ℕ → List ℕ
with_zeros zero ds = ds
with_zeros (suc k) ds = 0 ∷ with_zeros k ds

pub zeros-digits : (k : ℕ) (ds : List ℕ) → zeros k ++ digit_text ds ≡ digit_text (with_zeros k ds)
unfolding zeros with_zeros
zeros-digits zero ds = refl
zeros-digits (suc k) ds = ap (◌∷◌ b'0') (zeros-digits k ds)

pub with_zeros-IsDigits : (k : ℕ) (ds : List ℕ) → IsDigits ds → IsDigits (with_zeros k ds)
unfolding with_zeros
with_zeros-IsDigits zero ds h = h
with_zeros-IsDigits (suc k) ds h = (omega arith, with_zeros-IsDigits k ds h)

pub with_zeros-value : (k : ℕ) (ds : List ℕ) → value_from 0 (with_zeros k ds) ≡ value_from 0 ds
unfolding with_zeros
with_zeros-value zero ds = refl
with_zeros-value (suc k) ds = with_zeros-value k ds

pub length-with_zeros : (k : ℕ) (ds : List ℕ) → length (with_zeros k ds) ≡ k + length ds
unfolding with_zeros
length-with_zeros zero ds = omega arith
length-with_zeros (suc k) ds = omega (arith, length-with_zeros k ds)

pub length-zeros : (k : ℕ) → length (zeros k) ≡ k
unfolding zeros
length-zeros zero = refl
length-zeros (suc k) = omega (arith, length-zeros k)

-- A number with zeros in front is read as the number.
pub stoull-padded :
    (width n : ℕ) (rest : Text)
    → n < size_mod
    → Stops rest
    → stoull (padded width n ++ rest) ≡ some n
unfolding padded
stoull-padded width n rest small s =
    let (ds, e, digits, value, some_digits) = to_string-IsDigits n small in
    let k = width - length (to_string n) in
    ap (λ (t : Text). stoull ((zeros k ++ t) ++ rest)) e
    ∙ ap (λ (t : Text). stoull (t ++ rest)) (zeros-digits k ds)
    ∙ stoull-text n (with_zeros k ds) rest (with_zeros-IsDigits k ds digits)
        (with_zeros-value k ds ∙ value) (omega (arith, length-with_zeros k ds)) small s

pub length-padded : (width n : ℕ) → length (to_string n) ≤ width → length (padded width n) ≡ width
unfolding padded
length-padded width n h = omega (
  arith,
  length-append (zeros (width - length (to_string n))) (to_string n),
  length-zeros (width - length (to_string n)),
)

-- A number's digits with zeros in front, as a list of digits of the width.
pub padded-IsDigits :
    (width n : ℕ)
    → n < size_mod
    → length (to_string n) ≤ width
    → (ds : List ℕ) × (padded width n ≡ digit_text ds)
      × IsDigits ds
      × (value_from 0 ds ≡ n)
      × (length ds ≡ width)
unfolding padded
padded-IsDigits width n small fits =
    let (ds, e, digits, value, _) = to_string-IsDigits n small in
    let k = width - length (to_string n) in
    (
      with_zeros k ds,
      ap (λ (t : Text). zeros k ++ t) e ∙ zeros-digits k ds,
      with_zeros-IsDigits k ds digits,
      with_zeros-value k ds ∙ value,
      omega (arith, length-with_zeros k ds, ap length e, length-digit_text ds),
    )

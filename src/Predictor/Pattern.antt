-- ===== src/Predictor/Pattern.antt =====
-- `predict_next_sequential` on a numbered name.
use valkyrie_fs.Base.{
  ℕ, ◌+◌, ◌<◌, ◌≡◌, refl, sym, ap, ◌∙◌, false, none, some, List, [], ◌∷◌, ◌++◌, Text, All, length,
  arith, lt→ltb,
}
use mathlib.Core.List.{reverse_aux, append-nil}
use valkyrie_fs.Types.{is_digit}
use valkyrie_fs.Numeric.{
  pos, stoi, stoi-digits, digit_text, value_from, IsDigits, int_bound, digit_IsDigit,
}
use valkyrie_fs.Predictor.{
  is_newline, has_newline, number_at, split_number, regex_match, padded, predicted,
  predict_next_sequential,
}

-- Neither digits nor line terminators.
abbrev pub IsPlain : Text → Type 0
IsPlain = All λ c. (is_digit c ≡ false) × (is_newline c ≡ false)

number_found :
    (ds : List ℕ) (s : ℕ) (seen suffix : Text)
    → IsDigits ds
    → number_at (s ∷ seen) (digit_text ds ++ b'.' ∷ suffix)
      ≡ some (reverse_aux (s ∷ seen) (digit_text ds), b'.' ∷ suffix)
unfolding number_at
number_found [] s seen suffix h = refl
number_found (d ∷ ds) s seen suffix h =
    rw (digit_IsDigit d h.0, number_found ds (b'0' + d) (s ∷ seen) suffix h.1)

number_first :
    (d : ℕ) (ds : List ℕ) (suffix : Text)
    → IsDigits (d ∷ ds)
    → number_at [] (digit_text (d ∷ ds) ++ b'.' ∷ suffix)
      ≡ some (digit_text (d ∷ ds), b'.' ∷ suffix)
unfolding number_at
number_first d ds suffix h = rw (digit_IsDigit d h.0, number_found ds (b'0' + d) [] suffix h.1)

number_plain : (c : ℕ) (cs : Text) → is_digit c ≡ false → number_at [] (c ∷ cs) ≡ none
unfolding number_at
number_plain c cs e = rw (e, number_at)

split_found :
    (prefix : Text) (d : ℕ) (ds : List ℕ) (suffix : Text)
    → IsPlain prefix
    → IsDigits (d ∷ ds)
    → split_number (prefix ++ (digit_text (d ∷ ds) ++ b'.' ∷ suffix))
      ≡ some (prefix, digit_text (d ∷ ds), b'.' ∷ suffix)
unfolding split_number
split_found [] d ds suffix p h = rw (number_first d ds suffix h, split_number)
split_found (c ∷ cs) d ds suffix p h = rw (
  number_plain c (cs ++ (digit_text (d ∷ ds) ++ b'.' ∷ suffix)) p.0.0,
  split_number,
  split_found cs d ds suffix p.1 h,
)

digit-newline : (d : ℕ) → d < 10 → is_newline (b'0' + d) ≡ false
digit-newline d h = ground arith

no_newline :
    (prefix : Text) (ds : List ℕ) (suffix : Text)
    → IsPlain prefix
    → IsDigits ds
    → has_newline suffix ≡ false
    → has_newline (prefix ++ (digit_text ds ++ b'.' ∷ suffix)) ≡ false
unfolding has_newline
no_newline [] [] suffix p h n = n
no_newline [] (d ∷ ds) suffix p h n = rw (digit-newline d h.0) (no_newline [] ds suffix tt h.1 n)
no_newline (c ∷ cs) ds suffix p h n = rw (p.0.1) (no_newline cs ds suffix p.1 h n)

regex_found :
    (prefix : Text) (d : ℕ) (ds : List ℕ) (suffix : Text)
    → IsPlain prefix
    → IsDigits (d ∷ ds)
    → has_newline suffix ≡ false
    → regex_match (prefix ++ (digit_text (d ∷ ds) ++ b'.' ∷ suffix))
      ≡ some (prefix, digit_text (d ∷ ds), b'.' ∷ suffix)
unfolding regex_match
regex_found prefix d ds suffix p h n =
    rw (no_newline prefix (d ∷ ds) suffix p h n, regex_match) (split_found prefix d ds suffix p h)

predict_from :
    (name prefix number suffix : Text) (n : ℕ)
    → regex_match name ≡ some (prefix, number, suffix)
    → stoi number ≡ some (pos n)
    → n + 1 < int_bound
    → predict_next_sequential name ≡ predicted (prefix ++ padded (length number) (n + 1) ++ suffix)
unfolding predict_next_sequential
predict_from name prefix number suffix n e v small =
    rw (e, predict_next_sequential, v, lt→ltb (n + 1) int_bound small)

-- A name made of a part without digits and line terminators, a decimal number, a point and a rest
-- without line terminators, whose number is below 2^31 - 1, is followed by the same name with the
-- number's successor, written with zeros in front up to the width of the number.
pub predict_next-padded :
    (prefix : Text) (d : ℕ) (ds : List ℕ) (suffix : Text)
    → IsPlain prefix
    → IsDigits (d ∷ ds)
    → has_newline suffix ≡ false
    → value_from d ds + 1 < int_bound
    → predict_next_sequential (prefix ++ (digit_text (d ∷ ds) ++ b'.' ∷ suffix))
      ≡ predicted
          (prefix ++ padded (length (digit_text (d ∷ ds))) (value_from d ds + 1) ++ b'.' ∷ suffix)
predict_next-padded prefix d ds suffix p h n small =
    predict_from (prefix ++ (digit_text (d ∷ ds) ++ b'.' ∷ suffix)) prefix (digit_text (d ∷ ds))
      (b'.' ∷ suffix) (value_from d ds) (regex_found prefix d ds suffix p h n)
      (ap stoi (sym (append-nil (digit_text (d ∷ ds)))) ∙ stoi-digits d ds [] h tt (omega arith))
      small

-- ===== src/Predictor/Chain.antt =====
-- The names that the predictor fetches ahead of a numbered name.
use mathlib.Core.List.{append_assoc}
use valkyrie_fs.Base.{
  ℕ, zero, suc, ◌+◌, ◌^◌, ◌<◌, ◌≡◌, refl, ap, ◌∙◌, false, some, List, [], ◌∷◌, ◌++◌, Text, length,
  arith,
}
use valkyrie_fs.Numeric.{pos, int_bound, digit_text, value_from, IsDigits}
use valkyrie_fs.Numeric.Decimal.{length-to_string, length-digit_text}
use valkyrie_fs.Pool.{Pool}
use valkyrie_fs.Predictor.{
  Predictor, predict_next_sequential, predicted, from_pattern, padded, has_newline, issue,
  predict_and_prefetch, count_prediction, count_pattern_hit,
}
use valkyrie_fs.Predictor.Pattern.{IsPlain, predict_next-padded}
use valkyrie_fs.Predictor.Padding.{padded-IsDigits}

-- A text of `width` decimal digits with a value.
abbrev pub Writes : ℕ → ℕ → Text → Type 0
Writes width n t =
    (ds : List ℕ) × (t ≡ digit_text ds) × IsDigits ds × (value_from 0 ds ≡ n) × (length ds ≡ width)

-- The names with the `n` numbers after `v`, each written in `width` digits.
abbrev pub Successors : Text → ℕ → Text → ℕ → ℕ → List Text → Type 0
Successors prefix width suffix v zero keys = keys ≡ []
Successors prefix width suffix v (suc n) keys =
    (t : Text) × (rest : List Text) × (keys ≡ (prefix ++ t ++ b'.' ∷ suffix) ∷ rest)
    × Writes width (v + 1) t
    × Successors prefix width suffix (v + 1) n rest

module _ (prefix suffix : Text) (plain : IsPlain prefix)
    (one_line : has_newline suffix ≡ false) where
  predict_next-Writes :
      (v width : ℕ) (t : Text)
      → Writes (suc width) v t
      → v + 1 < int_bound
      → predict_next_sequential (prefix ++ t ++ b'.' ∷ suffix)
        ≡ predicted (prefix ++ padded (suc width) (v + 1) ++ b'.' ∷ suffix)
  predict_next-Writes v width t ([], e, digits, value, size) small = absurd (omega (arith, size))
  predict_next-Writes v width t (d ∷ ds, e, digits, value, size) small =
      let number : value_from d ds ≡ v = ap (λ (k : ℕ). value_from k ds) (omega arith) ∙ value in
      ap (λ (t : Text). predict_next_sequential (prefix ++ t ++ b'.' ∷ suffix)) e
      ∙ ap predict_next_sequential (append_assoc prefix (digit_text (d ∷ ds)) (b'.' ∷ suffix))
      ∙ predict_next-padded prefix d ds suffix plain digits one_line (omega (arith, number))
      ∙ ap (λ (w : ℕ). predicted (prefix ++ padded w (value_from d ds + 1) ++ b'.' ∷ suffix))
          (length-digit_text (d ∷ ds) ∙ size)
      ∙ ap (λ (k : ℕ). predicted (prefix ++ padded (suc width) (k + 1) ++ b'.' ∷ suffix)) number

  from_pattern-Successors :
      (n v width : ℕ) (t : Text)
      → Writes (suc width) v t
      → v + n < 10 ^ suc width
      → v + n < int_bound
      → (keys : List Text) × (from_pattern n (prefix ++ t ++ b'.' ∷ suffix) ≡ some keys)
        × Successors prefix (suc width) suffix v n keys
  unfolding from_pattern
  from_pattern-Successors zero v width t w fits small = ([], refl, refl)
  from_pattern-Successors (suc n) v width t w fits small =
      let next = padded (suc width) (v + 1) in
      let w' : Writes (suc width) (v + 1) next =
        padded-IsDigits (suc width) (v + 1) (omega arith)
          (length-to_string width (v + 1) (omega (arith, fits))) in
      let (keys, ran, s) =
        from_pattern-Successors n (v + 1) width next w' (omega (arith, fits)) (omega arith) in
      (
        (prefix ++ next ++ b'.' ∷ suffix) ∷ keys,
        rw (predict_next-Writes v width t w (omega arith), from_pattern, ran) refl,
        (next, keys, refl, w', s),
      )

  -- Out of manifest mode, for a name made of a part without digits and line terminators, a number
  -- in decimal digits, zeros in front included, a point and a rest without line terminators,
  -- `predict_and_prefetch` issues the names with the next numbers, as many as the lookahead says,
  -- in order, each with the same parts and its number written in as many digits, from a predictor
  -- with the same keys in flight, where the last number fits into the digits and is below 2^31 - 1.
  pub predict_and_prefetch-pattern :
      (p : Predictor) (pool : Pool) (n v width : ℕ) (t : Text)
      → p.manifest_mode ≡ false
      → p.lookahead ≡ pos n
      → Writes (suc width) v t
      → v + n < 10 ^ suc width
      → v + n < int_bound
      → (q : Predictor) × (keys : List Text) × (predict_and_prefetch p pool
            (prefix ++ t ++ b'.' ∷ suffix)
          ≡ some (issue q pool keys))
        × Successors prefix (suc width) suffix v n keys
        × (q.in_flight ≡ p.in_flight)
  unfolding predict_and_prefetch
  predict_and_prefetch-pattern p pool n v width t mode la w fits small =
      let (keys, ran, s) = from_pattern-Successors n v width t w fits small in
      (count_pattern_hit (count_prediction p) keys, keys, ground (arith, ran), s, ground arith)

-- ===== src/Predictor/Names.antt =====
-- `predict_next_sequential` of src/predictor.cpp: its regular expression and the next name.
use valkyrie_fs.Base.{
  ℕ, zero, suc, ◌+◌, ◌-◌, Bool, true, false, ◌||◌, Option, none, some, [], ◌∷◌, ◌++◌, Text, length,
  ltb, ◌==◌, if◌then◌else◌, ◌>>=◌,
}
use mathlib.Core.List.{reverse}
use valkyrie_fs.Types.{is_digit}
use valkyrie_fs.Numeric.{ℤ, pos, negsuc, stoi, to_string, int_bound}

-- `line terminator` of the regular expression's `.`
abbrev pub is_newline : ℕ → Bool
is_newline c = if c == 10 then true else c == 13

unfoldable pub has_newline : Text → Bool
has_newline [] = false
has_newline (c ∷ cs) = is_newline c || has_newline cs

-- `(\d+)(\..*)` from the front of a text: the digits and the rest. The digits are `seen` so far,
-- the last first.
unfoldable pub number_at : Text → Text → Option (Text × Text)
number_at seen [] = none
number_at seen (c ∷ cs) =
    let further = number_at (c ∷ seen) cs in
    if is_digit c then further else elim seen [
      | [] ↦ none
      | d ∷ ds ↦ if c == b'.' then some (reverse (d ∷ ds), c ∷ cs) else none
    ]

-- `^(.*?)(\d+)(\..*)$` on a text with no line terminator: the shortest prefix that leaves a match.
unfoldable pub split_number : Text → Option (Text × Text × Text)
unfolding number_at
split_number [] = none
split_number (c ∷ cs) = elim (number_at [] (c ∷ cs)) [
  | some (number, suffix) ↦ some ([], number, suffix)
  | none ↦ do (prefix, number, suffix) ← split_number cs; some (c ∷ prefix, number, suffix)
]

unfoldable pub regex_match : Text → Option (Text × Text × Text)
unfolding has_newline split_number
regex_match filename = if has_newline filename then none else split_number filename

unfoldable pub zeros : ℕ → Text
zeros zero = []
zeros (suc n) = b'0' ∷ zeros n

-- `std::setw(width) << std::setfill('0') << n`
unfoldable pub padded : ℕ → ℕ → Text
unfolding zeros to_string
padded width n = zeros (width - length (to_string n)) ++ to_string n

-- `overflow` is the `int` overflow of `number + 1`, whose behaviour C++ leaves undefined.
pub data Prediction : Type 0 where
  nothing : Prediction
  predicted : Text → Prediction
  overflow : Prediction

abbrev pub next_name : Text → Text → Text → Option ℤ → Prediction
next_name prefix number suffix none = nothing
next_name prefix number suffix (some (negsuc n)) = nothing
next_name prefix number suffix (some (pos n)) =
    if ltb (n + 1) int_bound
    then predicted (prefix ++ padded (length number) (n + 1) ++ suffix)
    else overflow

unfoldable pub predict_next_sequential : Text → Prediction
unfolding regex_match padded
predict_next_sequential filename = elim (regex_match filename) [
  | none ↦ nothing
  | some (prefix, number, suffix) ↦ next_name prefix number suffix (stoi number)
]

-- ===== src/Config/Numbers.antt =====
-- The options whose argument is a number.
use valkyrie_fs.Base.{
  ltb→le, ltb→lt, ltb, Bool-cases, ℕ, ◌≤◌, ◌<◌, ◌≡◌, true, false, none, some, List, ◌∷◌, ◌++◌, Text,
  ◌⊎◌, inl, inr,
}
use valkyrie_fs.Numeric.{
  ℤ, pos, stoi, stoi-digits, stoi_large, digit_text, value_from, IsDigits, Stops, int_bound,
}
use valkyrie_fs.Config.{Config, ValueOption, workers, lookahead, metrics_port, set_option}

pub data NumberOption : Type 0 where
  of_workers : NumberOption
  of_lookahead : NumberOption
  of_port : NumberOption

abbrev pub option_of : NumberOption → ValueOption
option_of of_workers = workers
option_of of_lookahead = lookahead
option_of of_port = metrics_port

-- The configuration with the number in the option's field.
abbrev pub with_number : Config → NumberOption → ℤ → Config
with_number c of_workers n = record c { num_workers = n }
with_number c of_lookahead n = record c { lookahead = n }
with_number c of_port n = record c { metrics_port = n }

set_read :
    (c : Config) (o : NumberOption) (v : Text) (n : ℤ)
    → stoi v ≡ some n
    → set_option c (option_of o) v ≡ (with_number c o n, true)
unfolding set_option
set_read c of_workers v n e = rw (e, set_option)
set_read c of_lookahead v n e = rw (e, set_option)
set_read c of_port v n e = rw (e, set_option)

set_refused :
    (c : Config) (o : NumberOption) (v : Text)
    → stoi v ≡ none
    → set_option c (option_of o) v ≡ (c, false)
unfolding set_option
set_refused c of_workers v e = rw (e, set_option)
set_refused c of_lookahead v e = rw (e, set_option)
set_refused c of_port v e = rw (e, set_option)

-- For each of the options --workers, --lookahead and --metrics-port, an argument that begins with a
-- decimal number, followed by no further digit, sets the option's field to the number and nothing
-- else if the number is below 2^31, whatever else follows it, and is refused with the configuration
-- unchanged if it is not.
pub set_option-digits :
    (c : Config) (o : NumberOption) (d : ℕ) (ds : List ℕ) (rest : Text)
    → IsDigits (d ∷ ds)
    → Stops rest
    → ((value_from d ds < int_bound)
        × (set_option c (option_of o) (digit_text (d ∷ ds) ++ rest)
            ≡ (with_number c o (pos (value_from d ds)), true)))
      ⊎ ((int_bound ≤ value_from d ds)
          × (set_option c (option_of o) (digit_text (d ∷ ds) ++ rest) ≡ (c, false)))
set_option-digits c o d ds rest h s = elim (Bool-cases (ltb (value_from d ds) int_bound)) [
  | inl small ↦
      let lt = ltb→lt (value_from d ds) int_bound small in
      inl (
        lt,
        set_read c o (digit_text (d ∷ ds) ++ rest) (pos (value_from d ds))
            (stoi-digits d ds rest h s lt),
      )
  | inr large ↦
      let le = ltb→le (value_from d ds) int_bound large in
      inr (le, set_refused c o (digit_text (d ∷ ds) ++ rest) (stoi_large d ds rest h s le))
]

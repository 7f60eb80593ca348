-- ===== src/Logger/Timestamps.antt =====
-- Where the parts of a line of the log stand.
use mathlib.Core.List.{append_assoc}
use valkyrie_fs.Base.{
  drop-drop, sym, ℕ, ◌+◌, ◌/◌, ◌%◌, ◌≡◌, refl, ap, ◌∙◌, some, List, [], ◌∷◌, ◌++◌, Text, codes,
  length, drop, arith,
}
use valkyrie_fs.Numeric.{stoull}
use valkyrie_fs.Numeric.Decimal.{length-to_string}
use valkyrie_fs.Predictor.Names.{padded}
use valkyrie_fs.Predictor.Padding.{stoull-padded, length-padded}
use valkyrie_fs.Logger.{LogLevel, level_to_string, get_timestamp, log}

drop-append : {A : Type 0} (xs ys : List A) → drop (length xs) (xs ++ ys) ≡ ys
drop-append [] ys = refl
drop-append (x ∷ xs) ys = drop-append xs ys

module _ (put_time : ℕ → Text) (now : ℕ) (level : LogLevel) (component message : Text) where
  abbrev pub seconds : Text
  seconds = put_time (now / 1000000000)

  abbrev pub body : Text
  body =
      level_to_string level
      ++ (codes "] " ++ (component ++ (codes ": " ++ (message ++ codes "\n"))))

  abbrev milliseconds : ℕ
  milliseconds = now / 1000000 % 1000

  abbrev after_point : Text
  after_point = padded 3 milliseconds ++ (b' ' ∷ b'[' ∷ body)

  line_lem : log put_time now level component message ≡ seconds ++ b'.' ∷ after_point
  unfolding log get_timestamp
  line_lem = append_assoc seconds (b'.' ∷ padded 3 milliseconds) (b' ' ∷ b'[' ∷ body)

  from_point : drop (length seconds) (log put_time now level component message) ≡ b'.' ∷ after_point
  from_point = ap (drop (length seconds)) line_lem ∙ drop-append seconds (b'.' ∷ after_point)

  width : length (padded 3 milliseconds) ≡ 3
  width = length-padded 3 milliseconds (length-to_string 2 milliseconds (omega arith))

  -- In a line of the log, whatever its time, level and texts, the digits after the time's seconds
  -- and a point are read as the time's milliseconds, and the level, the component and the message
  -- stand six bytes after the seconds, in this order, with a line break at the end.
  pub log-Line :
      (stoull (drop (length seconds + 1) (log put_time now level component message))
        ≡ some (now / 1000000 % 1000))
      × (drop (length seconds + 6) (log put_time now level component message) ≡ body)
  log-Line =
      let line = log put_time now level component message in
      (
        ap stoull (sym (drop-drop (length seconds) 1 line) ∙ ap (drop 1) from_point)
            ∙ stoull-padded 3 milliseconds (b' ' ∷ b'[' ∷ body) (omega arith) refl,
        sym (drop-drop (length seconds) 6 line)
            ∙ ap (drop 6) from_point
            ∙ sym (drop-drop 3 2 after_point)
            ∙ ap (λ (k : ℕ). drop 2 (drop k after_point)) (sym width)
            ∙ ap (drop 2) (drop-append (padded 3 milliseconds) (b' ' ∷ b'[' ∷ body)),
      )

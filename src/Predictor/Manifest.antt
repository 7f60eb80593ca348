-- ===== src/Predictor/Manifest.antt =====
-- The entries that `load_manifest` keeps.
use valkyrie_fs.Base.{ℕ, ◌≡◌, ◌≢◌, false, none, some, Option, [], ◌∷◌, Text, ◌==◌, if◌then◌else◌}
use valkyrie_fs.Predictor.{Predictor, is_blank, trim_left, trim_right}

-- The first character is not blank.
abbrev pub StartsPlain : Text → Type 0
StartsPlain [] = Unit
StartsPlain (c ∷ cs) = is_blank c ≡ false

-- The cases of `trim_right` after a character.
right_of : ℕ → Text → Text
right_of c [] = if is_blank c then [] else c ∷ []
right_of c (d ∷ ds) = c ∷ d ∷ ds

trimmed : Text → Text
trimmed t = trim_right (trim_left t)

-- The test of a trimmed line.
kept : Text → Option Text
kept [] = none
kept (c ∷ cs) = if c == b'#' then none else some (c ∷ cs)

-- An entry of a manifest: not empty, no comment, and without blanks at its ends.
pub record IsEntry (key : Text) : Type 0 where
  pub filled : key ≢ []
  pub no_comment : (cs : Text) → key ≢ b'#' ∷ cs
  pub no_left : trim_left key ≡ key
  pub no_right : trim_right key ≡ key

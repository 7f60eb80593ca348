-- ===== src/Size.antt =====
-- `parse_size` of src/types.hpp: a number of bytes with a suffix K, M or G. `none` is the exception
-- of `std::stoull`.
use valkyrie_fs.Base.{
  ℕ, ◌*◌, ◌%◌, ◌<◌, ◌≡◌, refl, ap, ◌||◌, Option, some, List, [], ◌∷◌, ◌++◌, Text, ◌==◌,
  if◌then◌else◌, arith, size_mod, ◌>>=◌,
}
use valkyrie_fs.Numeric.{stoull, stoull-digits, digit_text, IsDigits, Stops, value_from}

-- `size_str.back()`; a byte 0 for the empty text, which is not asked.
unfoldable pub back : Text → ℕ
back [] = 0
back (c ∷ []) = c
back (c ∷ d ∷ cs) = back (d ∷ cs)

unfoldable pub scale : ℕ → ℕ → ℕ
scale suffix value =
    if suffix == b'K' || suffix == b'k'
    then value * 1024 % size_mod
    else (if suffix == b'M' || suffix == b'm'
        then value * 1024 % size_mod * 1024 % size_mod
        else (if suffix == b'G' || suffix == b'g'
            then value * 1024 % size_mod * 1024 % size_mod * 1024 % size_mod
            else value))

unfoldable pub parse_size : Text → Option ℕ
unfolding back scale
parse_size size_str = elim size_str [
  | [] ↦ some 0
  | c ∷ cs ↦ do value ← stoull (c ∷ cs); some (scale (back (c ∷ cs)) value)
]

-- What a suffix stands for.
abbrev pub factor : ℕ → ℕ
factor suffix =
    if suffix == b'K' || suffix == b'k'
    then 1024
    else (if suffix == b'M' || suffix == b'm'
        then 1048576
        else (if suffix == b'G' || suffix == b'g' then 1073741824 else 1))

scale-factor :
    (suffix value : ℕ) → value < size_mod → scale suffix value ≡ value * factor suffix % size_mod
unfolding scale
scale-factor suffix value h = ground arith

back-append : (s : Text) (c : ℕ) → back (s ++ c ∷ []) ≡ c
unfolding back
back-append [] c = refl
back-append (x ∷ []) c = refl
back-append (x ∷ y ∷ s) c = back-append (y ∷ s) c

-- A decimal number below 2^64, followed by one character that is no digit, is read by `parse_size`
-- as that number times what the character stands for, modulo 2^64.
pub parse_size-suffix :
    (d : ℕ) (ds : List ℕ) (suffix : ℕ)
    → IsDigits (d ∷ ds)
    → value_from d ds < size_mod
    → Stops (suffix ∷ [])
    → parse_size (digit_text (d ∷ ds) ++ suffix ∷ [])
      ≡ some (value_from d ds * factor suffix % size_mod)
unfolding parse_size
parse_size-suffix d ds suffix h small s =
    rw (stoull-digits d ds (suffix ∷ []) h s small, back-append (digit_text (d ∷ ds)) suffix)
      (ap some (scale-factor suffix (value_from d ds) small))

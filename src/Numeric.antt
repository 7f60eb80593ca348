-- ===== src/Numeric.antt =====
-- `std::stoi` and `std::stoull`, as far as the program uses them: white space, a sign, decimal
-- digits, and the two exceptions, which are both `none` here.
pub mod Decimal
use valkyrie_fs.Base.{
  ◌/◌, ℕ, zero, suc, ◌+◌, ◌-◌, ◌*◌, ◌%◌, ◌^◌, ◌≤◌, ◌<◌, ◌≡◌, refl, ap, ◌∙◌, Bool, true, false,
  Option, none, some, List, [], ◌∷◌, ◌++◌, map, Text, ltb, lt→ltb, le→ltb, ◌==◌, if◌then◌else◌,
  arith, All, size_mod,
}
use valkyrie_fs.Types.{is_digit, is_space}

-- A signed integer; `negsuc n` is -(n + 1).
pub data ℤ : Type 0 where
  pos : ℕ → ℤ
  negsuc : ℕ → ℤ

-- `<` on `int`.
abbrev pub int_ltb : ℤ → ℤ → Bool
int_ltb (pos a) (pos b) = ltb a b
int_ltb (pos a) (negsuc b) = false
int_ltb (negsuc a) (pos b) = true
int_ltb (negsuc a) (negsuc b) = ltb b a

pub record Scanned : Type 0 where
  pub negative : Bool
  pub digits : Bool
  pub value : ℕ

-- The digits at the front of a text: whether there are any, and their value.
unfoldable pub scan_digits : Bool → ℕ → Text → Bool × ℕ
scan_digits some_yet value [] = (some_yet, value)
scan_digits some_yet value (c ∷ cs) =
    let rest = scan_digits true (value * 10 + (c - 48)) cs in
    if is_digit c then rest else (some_yet, value)

unfoldable pub skip_spaces : Text → Text
skip_spaces [] = []
skip_spaces (c ∷ cs) = let rest = skip_spaces cs in if is_space c then rest else c ∷ cs

unfoldable pub scan_sign : Text → Bool × Text
scan_sign [] = (false, [])
scan_sign (c ∷ cs) =
    if c == b'-' then (true, cs) else (if c == b'+' then (false, cs) else (false, c ∷ cs))

-- A sign and digits after white space; `none` if there is no digit (`std::invalid_argument`).
unfoldable pub scan_number : Text → Option (Bool × ℕ)
unfolding skip_spaces scan_sign scan_digits
scan_number s =
    let (negative, rest) = scan_sign (skip_spaces s) in
    let (found, value) = scan_digits false 0 rest in if found then some (negative, value) else none

abbrev pub to_u64 : Bool → ℕ → Option ℕ
to_u64 negative value =
    if ltb value size_mod
    then some (if negative then (size_mod - value) % size_mod else value)
    else none

-- `std::stoull`: the negation of a number is taken modulo 2^64, and only the number itself is out
-- of range.
unfoldable pub stoull : Text → Option ℕ
unfolding scan_number
stoull s = elim (scan_number s) [ none ↦ none | some (negative, value) ↦ to_u64 negative value ]

abbrev pub int_bound : ℕ
int_bound = 2 ^ 31

abbrev pub to_int : Bool → ℕ → Option ℤ
to_int true zero = some (pos 0)
to_int true (suc n) = if ltb n int_bound then some (negsuc n) else none
to_int false value = if ltb value int_bound then some (pos value) else none

-- `std::stoi`, for a 32-bit `int`.
unfoldable pub stoi : Text → Option ℤ
unfolding scan_number
stoi s = elim (scan_number s) [ none ↦ none | some (negative, value) ↦ to_int negative value ]

-- The value of a list of decimal digits after `acc`, and its text.
abbrev pub value_from : ℕ → List ℕ → ℕ
value_from acc [] = acc
value_from acc (d ∷ ds) = value_from (acc * 10 + d) ds

abbrev pub digit_text : List ℕ → Text
digit_text = map λ d. b'0' + d

abbrev pub IsDigits : List ℕ → Type 0
IsDigits = All λ d. d < 10

-- The text that follows does not begin with a digit.
abbrev pub Stops : Text → Type 0
Stops [] = Unit
Stops (c ∷ cs) = is_digit c ≡ false

pub digit_IsDigit : (d : ℕ) → d < 10 → is_digit (b'0' + d) ≡ true
digit_IsDigit d h = ground arith

scan_step :
    (found : Bool) (acc d : ℕ) (cs : Text)
    → d < 10
    → scan_digits found acc ((b'0' + d) ∷ cs) ≡ scan_digits true (acc * 10 + d) cs
unfolding scan_digits
scan_step found acc d cs h =
    rw (digit_IsDigit d h) (ap (λ (n : ℕ). scan_digits true n cs) (omega arith))

scan_digits-true :
    (acc : ℕ) (ds : List ℕ) (rest : Text)
    → IsDigits ds
    → Stops rest
    → scan_digits true acc (digit_text ds ++ rest) ≡ (true, value_from acc ds)
unfolding scan_digits
scan_digits-true acc [] [] h s = refl
scan_digits-true acc [] (c ∷ cs) h s = ground arith
scan_digits-true acc (d ∷ ds) rest h s =
    scan_step true acc d (digit_text ds ++ rest) h.0 ∙ scan_digits-true (acc * 10 + d) ds rest h.1 s

digit_front :
    (d : ℕ) (cs : Text)
    → d < 10
    → scan_sign (skip_spaces ((b'0' + d) ∷ cs)) ≡ (false, (b'0' + d) ∷ cs)
unfolding scan_sign skip_spaces
digit_front d cs h = ground arith

-- A number without a sign is read as far as its digits go.
pub scan_number-digits :
    (d : ℕ) (ds : List ℕ) (rest : Text)
    → IsDigits (d ∷ ds)
    → Stops rest
    → scan_number (digit_text (d ∷ ds) ++ rest) ≡ some (false, value_from d ds)
unfolding scan_number
scan_number-digits d ds rest h s =
    rw
      (
        digit_front d (digit_text ds ++ rest) h.0,
        scan_step false 0 d (digit_text ds ++ rest) h.0,
        scan_digits-true (0 * 10 + d) ds rest h.1 s,
      )
      (ap (λ (n : ℕ). some (false, value_from n ds)) (omega arith))

pub stoull-digits :
    (d : ℕ) (ds : List ℕ) (rest : Text)
    → IsDigits (d ∷ ds)
    → Stops rest
    → value_from d ds < size_mod
    → stoull (digit_text (d ∷ ds) ++ rest) ≡ some (value_from d ds)
unfolding stoull
stoull-digits d ds rest h s small =
    rw (scan_number-digits d ds rest h s, stoull) (rw (lt→ltb _ _ small))

-- A text that begins with a decimal number below 2^31, followed by no further digit, is read by
-- `stoi` as that number, whatever else follows.
pub stoi-digits :
    (d : ℕ) (ds : List ℕ) (rest : Text)
    → IsDigits (d ∷ ds)
    → Stops rest
    → value_from d ds < int_bound
    → stoi (digit_text (d ∷ ds) ++ rest) ≡ some (pos (value_from d ds))
unfolding stoi
stoi-digits d ds rest h s small =
    rw (scan_number-digits d ds rest h s, stoi) (rw (lt→ltb _ _ small))

-- A text that begins with a decimal number of at least 2^31, followed by no further digit, is
-- refused by `stoi`.
pub stoi_large :
    (d : ℕ) (ds : List ℕ) (rest : Text)
    → IsDigits (d ∷ ds)
    → Stops rest
    → int_bound ≤ value_from d ds
    → stoi (digit_text (d ∷ ds) ++ rest) ≡ none
unfolding stoi
stoi_large d ds rest h s large = rw (scan_number-digits d ds rest h s, stoi) (rw (le→ltb _ _ large))

-- `std::to_string`, with fuel for the digits.
unfoldable pub decimal_from : ℕ → ℕ → Text → Text
decimal_from zero n acc = acc
decimal_from (suc fuel) n acc =
    let more = decimal_from fuel (n / 10) ((b'0' + n % 10) ∷ acc) in
    if ltb n 10 then (b'0' + n) ∷ acc else more

-- Twenty digits are enough for 64 bits.
unfoldable pub to_string : ℕ → Text
unfolding decimal_from
to_string n = decimal_from 20 n []

-- ===== src/Base/Lists.antt =====
-- Lists measured by native numbers, and texts as lists of bytes.
use Prim.Native.Nat.{ℕ, zero, suc, ◌+◌, ◌-◌, ◌≤◌, ◌<◌, min}
use Prim.Native.Char.{code}
use Prim.Native.String.{String}
use mathlib.Core.Path.{◌≡◌, refl, sym, ap, ◌∙◌}
use mathlib.Core.Logic.{ite, ◌≢◌, ◌⊎◌, inl, inr, if_pos, if_neg}
use mathlib.Core.List.{List, [], ◌∷◌, ◌++◌}
use mathlib.Core.Option.{Option, none, some}
use native.Mathlib.Decide.{ℕ_discrete}
use native.Mathlib.Nat.{zero-add, suc-add}
use native.Mathlib.Omega.{arith}

module _ {ℓ} {A : Type ℓ} where
  abbrev pub length : List A → ℕ
  length [] = 0
  length (x ∷ xs) = suc (length xs)

  abbrev pub get_elem? : List A → ℕ → Option A
  get_elem? [] i = none
  get_elem? (x ∷ xs) zero = some x
  get_elem? (x ∷ xs) (suc i) = get_elem? xs i

  abbrev pub take : ℕ → List A → List A
  take zero xs = []
  take (suc n) [] = []
  take (suc n) (x ∷ xs) = x ∷ take n xs

  abbrev pub drop : ℕ → List A → List A
  drop zero xs = xs
  drop (suc n) [] = []
  drop (suc n) (x ∷ xs) = drop n xs

  pub List-cases : (xs : List A) → (xs ≡ []) ⊎ ((y : A) × (ys : List A) × (xs ≡ y ∷ ys))
  List-cases [] = inl refl
  List-cases (y ∷ ys) = inr (y, ys, refl)

  drop-nil : (n : ℕ) → drop n [] ≡ []
  drop-nil zero = refl
  drop-nil (suc n) = refl

  take-nil : (n : ℕ) → take n [] ≡ []
  take-nil zero = refl
  take-nil (suc n) = refl

  pub length-append : (xs ys : List A) → length (xs ++ ys) ≡ length xs + length ys
  length-append [] ys = omega arith
  length-append (x ∷ xs) ys = omega (arith, length-append xs ys)

  pub length-take : (n : ℕ) (xs : List A) → length (take n xs) ≡ min n (length xs)
  length-take zero xs = omega arith
  length-take (suc n) [] = omega arith
  length-take (suc n) (x ∷ xs) = omega (arith, length-take n xs)

  pub length-drop : (n : ℕ) (xs : List A) → length (drop n xs) ≡ length xs - n
  length-drop zero xs = omega arith
  length-drop (suc n) [] = omega arith
  length-drop (suc n) (x ∷ xs) = omega (arith, length-drop n xs)

  pub drop-drop : (m n : ℕ) (xs : List A) → drop n (drop m xs) ≡ drop (m + n) xs
  drop-drop zero n xs = ap (λ (k : ℕ). drop k xs) (sym (zero-add n))
  drop-drop (suc m) n [] = drop-nil n ∙ ap (λ (k : ℕ). drop k []) (sym (suc-add m n))
  drop-drop (suc m) n (x ∷ xs) =
      drop-drop m n xs ∙ ap (λ (k : ℕ). drop k (x ∷ xs)) (sym (suc-add m n))

  -- Reading in two parts.
  pub take-add : (m n : ℕ) (xs : List A) → take (m + n) xs ≡ take m xs ++ take n (drop m xs)
  take-add zero n xs = ap (λ (k : ℕ). take k xs) (zero-add n)
  take-add (suc m) n [] = ap (λ (k : ℕ). take k []) (suc-add m n) ∙ sym (take-nil n)
  take-add (suc m) n (x ∷ xs) =
      ap (λ (k : ℕ). take k (x ∷ xs)) (suc-add m n) ∙ ap (◌∷◌ x) (take-add m n xs)

  -- A part that a longer prefix holds.
  pub take-drop-take :
      (m n c : ℕ) (xs : List A) → m + n ≤ c → take n (drop m (take c xs)) ≡ take n (drop m xs)
  take-drop-take zero zero c xs h = refl
  take-drop-take zero (suc n) zero xs h = absurd (omega arith)
  take-drop-take zero (suc n) (suc c) [] h = refl
  take-drop-take zero (suc n) (suc c) (x ∷ xs) h =
      ap (◌∷◌ x) (take-drop-take zero n c xs (omega arith))
  take-drop-take (suc m) n zero xs h = absurd (omega arith)
  take-drop-take (suc m) n (suc c) [] h = refl
  take-drop-take (suc m) n (suc c) (x ∷ xs) h = take-drop-take m n c xs (omega arith)

  -- Every element satisfies `P`.
  abbrev pub All {κ} : (A → Type κ) → List A → Type κ
  All P [] = Unit
  All P (x ∷ xs) = P x × All P xs

module _ {ℓ} {A : Type ℓ} (dec : Discrete A) where
  -- How often an element occurs.
  unfoldable pub count : A → List A → ℕ
  count a [] = 0
  count a (x ∷ xs) = ite (dec x a) (suc (count a xs)) (count a xs)

  -- `v.erase(std::find(v.begin(), v.end(), a))`, which does nothing where `a` is not found.
  unfoldable pub erase : A → List A → List A
  erase a [] = []
  erase a (x ∷ xs) = ite (dec x a) xs (x ∷ erase a xs)

  pub count-append : (a : A) (xs ys : List A) → count a (xs ++ ys) ≡ count a xs + count a ys
  unfolding count
  count-append a [] ys = omega arith
  count-append a (x ∷ xs) ys = ground (arith, count-append a xs ys)

  pub count-erase_self : (a : A) (xs : List A) → count a (erase a xs) ≡ count a xs - 1
  unfolding count erase
  count-erase_self a [] = refl
  count-erase_self a (x ∷ xs) = elim (dec x a) [
    | yes p ↦ rw (if_pos _ p, if_pos _ p) (omega arith)
    | no p ↦
        rw (if_neg (dec x a) p)
          (rw (if_neg (dec x a) p) (rw (if_neg (dec x a) p) (count-erase_self a xs)))
  ]

  pub count-erase_ne : (a b : A) (xs : List A) → b ≢ a → count b (erase a xs) ≡ count b xs
  unfolding count erase
  count-erase_ne a b [] h = refl
  count-erase_ne a b (x ∷ xs) h = elim (dec x a) [
    | yes p ↦ rw (if_pos _ p, if_neg (dec x b) (λ q. h (sym q ∙ p)))
    | no p ↦ rw (if_neg (dec x a) p) (ground (arith, count-erase_ne a b xs h))
  ]

  pub length-erase : (a : A) (xs : List A) → 0 < count a xs → length (erase a xs) + 1 ≡ length xs
  unfolding count erase
  length-erase a [] h = absurd (omega arith)
  length-erase a (x ∷ xs) h = elim (dec x a) [
    | yes p ↦ rw (if_pos _ p) (omega arith)
    | no p ↦
        rw (if_neg (dec x a) p) (omega (arith, length-erase a xs (rw (if_neg (dec x a) p) at h)))
  ]

-- The bytes of a `std::string`.
abbrev pub Text : Type 0
Text = List ℕ

-- The bytes of an ASCII literal.
abbrev pub codes : String → Text
codes String.[] = []
codes (String.◌∷◌ c s) = code c ∷ codes s

unfoldable pub text_dec : Discrete Text
unfolding ℕ_discrete
text_dec = hlevel ℕ_discrete

-- ===== src/Base/Assoc.antt =====
-- `std::map` and `std::unordered_map` as association lists that hold a key once.
use mathlib.Core.Path.{◌≡◌, refl, ap}
use mathlib.Core.Logic.{◌≢◌, ite, if_pos, if_neg}
use mathlib.Core.List.{List, [], ◌∷◌}
use mathlib.Core.Option.{Option, none, some}
use Prim.Native.Nat.{ℕ, ◌+◌}
use native.Mathlib.Omega.{arith}

module _ {ℓ} {K V : Type ℓ} (dec : Discrete K) where
  unfoldable pub lookup : K → List (K × V) → Option V
  lookup k [] = none
  lookup k ((j, v) ∷ m) = ite (dec j k) (some v) (lookup k m)

  -- `m[k] = v`
  unfoldable pub insert : K → V → List (K × V) → List (K × V)
  insert k v [] = (k, v) ∷ []
  insert k v ((j, w) ∷ m) = ite (dec j k) ((k, v) ∷ m) ((j, w) ∷ insert k v m)

  -- `m.erase(k)`
  unfoldable pub erase : K → List (K × V) → List (K × V)
  erase k [] = []
  erase k ((j, w) ∷ m) = ite (dec j k) (erase k m) ((j, w) ∷ erase k m)

  -- No key occurs twice.
  abbrev pub Unique : List (K × V) → Type ℓ
  Unique [] = Unit
  Unique ((k, v) ∷ m) = (lookup k m ≡ none) × Unique m

  -- The sum of a measure over the values.
  unfoldable pub sum_by : (V → ℕ) → List (K × V) → ℕ
  sum_by f [] = 0
  sum_by f ((k, v) ∷ m) = f v + sum_by f m

  pub lookup-insert_self : (k : K) (v : V) (m : List (K × V)) → lookup k (insert k v m) ≡ some v
  unfolding lookup insert
  lookup-insert_self k v [] = ground arith
  lookup-insert_self k v ((j, w) ∷ m) = ground (arith, lookup-insert_self k v m)

  pub lookup-insert_ne :
      (k q : K) (v : V) (m : List (K × V)) → q ≢ k → lookup q (insert k v m) ≡ lookup q m
  unfolding lookup insert
  lookup-insert_ne k q v [] h = ground arith
  lookup-insert_ne k q v ((j, w) ∷ m) h = ground (arith, lookup-insert_ne k q v m)

  pub lookup-erase_self : (k : K) (m : List (K × V)) → lookup k (erase k m) ≡ none
  unfolding lookup erase
  lookup-erase_self k [] = refl
  lookup-erase_self k ((j, w) ∷ m) = ground (arith, lookup-erase_self k m)

  pub lookup-erase_ne : (k q : K) (m : List (K × V)) → q ≢ k → lookup q (erase k m) ≡ lookup q m
  unfolding lookup erase
  lookup-erase_ne k q [] h = refl
  lookup-erase_ne k q ((j, w) ∷ m) h = ground (arith, lookup-erase_ne k q m)

  pub erase_absent : (k : K) (m : List (K × V)) → lookup k m ≡ none → erase k m ≡ m
  unfolding lookup erase
  erase_absent k [] h = refl
  erase_absent k ((j, w) ∷ m) h = ground (arith, erase_absent k m)

  pub insert-Unique : (k : K) (v : V) (m : List (K × V)) → Unique m → Unique (insert k v m)
  unfolding insert lookup
  insert-Unique k v [] u = (refl, tt)
  insert-Unique k v ((j, w) ∷ m) u =
      ground (arith, insert-Unique k v m u.1, lookup-insert_ne k j v m)

  pub erase-Unique : (k : K) (m : List (K × V)) → Unique m → Unique (erase k m)
  unfolding erase lookup
  erase-Unique k [] u = tt
  erase-Unique k ((j, w) ∷ m) u = ground (arith, erase-Unique k m u.1, lookup-erase_ne k j m)

  -- An insertion adds the new value's measure and takes the old one's away.
  pub sum_by-insert_new :
      (f : V → ℕ) (k : K) (v : V) (m : List (K × V))
      → lookup k m ≡ none
      → sum_by f (insert k v m) ≡ sum_by f m + f v
  unfolding lookup insert sum_by
  sum_by-insert_new f k v [] h = omega arith
  sum_by-insert_new f k v ((j, w) ∷ m) h = elim (dec j k) [
    | yes p ↦ absurd (cc (rw (if_pos (dec j k) p) at h))
    | no p ↦
        rw (if_neg _ p) (omega (arith, sum_by-insert_new f k v m (rw (if_neg (dec j k) p) at h)))
  ]

  pub sum_by-insert_old :
      (f : V → ℕ) (k : K) (v w : V) (m : List (K × V))
      → lookup k m ≡ some w
      → sum_by f (insert k v m) + f w ≡ sum_by f m + f v
  unfolding lookup insert sum_by
  sum_by-insert_old f k v w [] h = absurd (ground arith)
  sum_by-insert_old f k v w ((j, x) ∷ m) h = elim (dec j k) [
    | yes p ↦
        let same : x ≡ w = cc (rw (if_pos (dec j k) p) at h) in
        rw (if_pos (dec j k) p) (omega (arith, ap f same))
    | no p ↦
        rw (if_neg _ p) (omega (arith, sum_by-insert_old f k v w m (rw (if_neg (dec j k) p) at h)))
  ]

  pub sum_by-erase :
      (f : V → ℕ) (k : K) (v : V) (m : List (K × V))
      → Unique m
      → lookup k m ≡ some v
      → sum_by f (erase k m) + f v ≡ sum_by f m
  unfolding lookup erase sum_by
  sum_by-erase f k v [] u h = absurd (ground arith)
  sum_by-erase f k v ((j, w) ∷ m) u h = elim (dec j k) [
    | yes p ↦
        let same : w ≡ v = cc (rw (if_pos (dec j k) p) at h) in
        rw (if_pos (dec j k) p, erase_absent k m (rw p at u.0)) (omega (arith, ap f same))
    | no p ↦
        rw (if_neg _ p) (omega (arith, sum_by-erase f k v m u.1 (rw (if_neg (dec j k) p) at h)))
  ]

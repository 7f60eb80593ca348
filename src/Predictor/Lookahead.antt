-- ===== src/Predictor/Lookahead.antt =====
-- Which files are prefetched: in manifest mode, and with the configured lookahead.
use valkyrie_fs.Base.{
  ◌↔◌, ℕ, zero, suc, ◌+◌, ◌≤◌, ◌<◌, ◌≡◌, inl, inr, refl, ap, true, none, some, List, [], ◌∷◌, Text,
  text_dec, take, drop, get_elem?, if_neg, arith, subst, Option-cases,
}
use valkyrie_fs.Numeric.{pos}
use valkyrie_fs.Config.{Config}
use valkyrie_fs.Config.Accepts.{IsValid, InRange}
use valkyrie_fs.Pool.{Pool}
use valkyrie_fs.Predictor.{
  Predictor, new_predictor, predict_and_prefetch, issue, count_manifest_hit, count_prediction,
  find_from, find_in_manifest, from_manifest,
}

get_elem?-drop :
    (n : ℕ) (xs : List Text) (k : Text) → get_elem? xs n ≡ some k → drop n xs ≡ k ∷ drop (suc n) xs
get_elem?-drop n [] k e = absurd (cc)
get_elem?-drop zero (x ∷ xs) k e = ap (λ y. y ∷ xs) (some-eq e)
  where
    some-eq : some x ≡ some k → x ≡ k
    some-eq h = cc
get_elem?-drop (suc n) (x ∷ xs) k e = get_elem?-drop n xs k e

get_elem?-none : (n : ℕ) (xs : List Text) → get_elem? xs n ≡ none → drop n xs ≡ []
get_elem?-none zero [] e = refl
get_elem?-none (suc n) [] e = refl
get_elem?-none zero (x ∷ xs) e = absurd (cc)
get_elem?-none (suc n) (x ∷ xs) e = get_elem?-none n xs e

drop_nil : (n : ℕ) (xs : List Text) → drop n xs ≡ [] → drop (suc n) xs ≡ []
drop_nil n [] e = refl
drop_nil zero (x ∷ xs) e = absurd (cc)
drop_nil (suc n) (x ∷ xs) e = drop_nil n xs e

take_nil : (n : ℕ) → take {A = Text} n [] ≡ []
take_nil zero = refl
take_nil (suc n) = refl

-- The loop over the manifest collects what follows a position: as many of the next entries as the
-- lookahead says, or all that there are.
pub from_manifest_lem :
    (n i : ℕ) (manifest : List Text) → from_manifest n i manifest ≡ take n (drop i manifest)
unfolding from_manifest
from_manifest_lem zero i manifest = refl
from_manifest_lem (suc n) i manifest =
    let next : i + 1 ≡ suc i = omega arith in
    elim (Option-cases (get_elem? manifest i)) [
      | inl beyond ↦
          let none_left = get_elem?-none i manifest beyond in
          rw
            (
              beyond,
              from_manifest,
              none_left,
              next,
              from_manifest_lem n (suc i) manifest,
              drop_nil i manifest none_left,
            )
            (take_nil n)
      | inr (key, here) ↦
          rw (here, from_manifest, get_elem?-drop i manifest key here, next)
            (ap (◌∷◌ key) (from_manifest_lem n (suc i) manifest))
    ]

-- What `find_in_manifest` finds is the first entry that is the key.
find_from_lem :
    (i : ℕ) (manifest : List Text) (key : Text) (n : ℕ)
    → find_from i manifest key ≡ some n
    → (m : ℕ) × (n ≡ i + m) × (get_elem? manifest m ≡ some key)
unfolding find_from
find_from_lem i [] key n e = absurd (cc)
find_from_lem i (k ∷ ks) key n e = elim (text_dec k key) [
  | yes p ↦ (0, ground arith, ap some p)
  | no p ↦
      let (m, eq, here) = find_from_lem (i + 1) ks key n (rw (if_neg (text_dec k key) p) at e) in
      (suc m, omega arith, here)
]

-- With a lookahead from a valid configuration, the predictor's constructor throws exactly if the
-- lookahead is over 100 and at most 256.
pub new_predictor-IsValid :
    (c : Config) (n : ℕ)
    → IsValid c
    → c.lookahead ≡ pos n
    → (new_predictor c.lookahead ≡ none) ↔ ((100 < n) × (n ≤ 256))
unfolding new_predictor
new_predictor-IsValid c n v e =
    let range : (1 ≤ n) × (n ≤ 256) = subst (InRange 1 256) e v.lookahead in
    (λ h. (rejected h, range.1), λ h. ground arith)
  where
    rejected : new_predictor c.lookahead ≡ none → 100 < n
    rejected h = ground arith

-- In manifest mode, with a lookahead that is not negative and a key that `find_in_manifest` finds,
-- `predict_and_prefetch` issues the entries that follow the key in the manifest, as many as the
-- lookahead says or all that there are, from a predictor with the same keys in flight; the key
-- stands at the place found.
pub predict_and_prefetch-manifest :
    (p : Predictor) (pool : Pool) (key : Text) (n m : ℕ)
    → p.manifest_mode ≡ true
    → p.lookahead ≡ pos n
    → find_in_manifest p key ≡ some m
    → (q : Predictor) × (predict_and_prefetch p pool key
        ≡ some (issue q pool (take n (drop (m + 1) p.manifest))))
      × (get_elem? p.manifest m ≡ some key)
      × (q.in_flight ≡ p.in_flight)
unfolding predict_and_prefetch find_in_manifest
predict_and_prefetch-manifest p pool key n m mode la found = (
  count_manifest_hit (count_prediction p) (from_manifest n (m + 1) p.manifest),
  ground (arith, from_manifest_lem n (m + 1) p.manifest),
  (let (m', eq, here) = find_from_lem 0 p.manifest key m found in
      subst (λ i. get_elem? p.manifest i ≡ some key) (omega arith) here),
  ground arith,
)

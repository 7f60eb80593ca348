-- ===== src/System/Predictions.antt =====
-- The steps of the predictor.
use valkyrie_fs.Base.{
  ltb, ◌-◌, ◌⊎◌, ℕ, zero, suc, ◌+◌, ◌≡◌, ◌≢◌, refl, sym, ap, ◌∙◌, subst, none, some, Option, List,
  [], ◌∷◌, ◌++◌, Text, length, length-append, arith, All, Bool-cases, Option-cases, inl, inr,
  get_elem?, ◌==◌, if◌then◌else◌,
}
use valkyrie_fs.Config.{S3Config}
use valkyrie_fs.Numeric.{ℤ, pos, negsuc, stoi, to_string, int_bound}
use valkyrie_fs.Numeric.Decimal.{to_string-pos}
use valkyrie_fs.Pool.{Pool}
use valkyrie_fs.Predictor.{
  zeros, Predictor, from_manifest, from_pattern, find_in_manifest, rounds, count_prediction,
  count_manifest_hit, count_pattern_hit, trim_left, trim_right, issue_one, issue,
  predict_and_prefetch, cleanup_completed_downloads, predictor_turn, predictor_round, manifest_line,
  manifest_lines, load_manifest,
}
use valkyrie_fs.Predictor.Names.{
  padded, predicted, nothing, overflow, Prediction, next_name, predict_next_sequential, regex_match,
}
use valkyrie_fs.System.Tasks.{IsRight, issue-IsRight}

-- No key is empty.
abbrev pub AreNamed : List Text → Type 0
AreNamed keys = All (λ k. k ≢ []) keys

elem-named :
    (keys : List Text) (i : ℕ) (k : Text) → AreNamed keys → get_elem? keys i ≡ some k → k ≢ []
elem-named [] i k a e = absurd (cc)
elem-named (key ∷ keys) zero k a e = λ p. a.0 (cc)
elem-named (key ∷ keys) (suc i) k a e = elem-named keys i k a.1 e

from_manifest-AreNamed :
    (n i : ℕ) (keys : List Text) → AreNamed keys → AreNamed (from_manifest n i keys)
unfolding from_manifest
from_manifest-AreNamed zero i keys a = tt
from_manifest-AreNamed (suc n) i keys a = elim (Option-cases (get_elem? keys i)) [
  | inl e ↦ rw (e, from_manifest) (from_manifest-AreNamed n (i + 1) keys a)
  | inr (k, e) ↦
      rw (e, from_manifest) (elem-named keys i k a e, from_manifest-AreNamed n (i + 1) keys a)
]

padded_name : (prefix suffix : Text) (w n : ℕ) → prefix ++ padded w n ++ suffix ≢ []
unfolding padded
padded_name prefix suffix w n e = absurd (
    omega (
      arith,
      ap length e,
      length-append (prefix ++ padded w n) suffix,
      length-append prefix (padded w n),
      length-append (zeros (w - length (to_string n))) (to_string n),
      to_string-pos n,
    ))

next_name-named :
    (prefix number suffix next : Text) (z : Option ℤ)
    → next_name prefix number suffix z ≡ predicted next
    → next ≢ []
next_name-named prefix number suffix next none e = absurd (cc)
next_name-named prefix number suffix next (some (negsuc n)) e = absurd (cc)
next_name-named prefix number suffix next (some (pos n)) e =
    elim (Bool-cases (ltb (n + 1) int_bound)) [
      | inl small ↦
          let same : prefix ++ padded (length number) (n + 1) ++ suffix ≡ next =
            cc (rw small at e) in
          λ p. padded_name prefix suffix (length number) (n + 1) (same ∙ p)
      | inr large ↦ absurd (cc (rw large at e))
    ]

predict_next-named : (name next : Text) → predict_next_sequential name ≡ predicted next → next ≢ []
unfolding predict_next_sequential
predict_next-named name next e = elim (Option-cases (regex_match name)) [
  | inl f ↦ absurd (cc (rw (predict_next_sequential, f) at e))
  | inr ((prefix, number, suffix), f) ↦
      next_name-named prefix number suffix next (stoi number) (rw (predict_next_sequential, f) at e)
]

prediction_cases :
    (r : Prediction) → (r ≡ nothing) ⊎ ((r ≡ overflow) ⊎ ((next : Text) × (r ≡ predicted next)))
prediction_cases nothing = inl refl
prediction_cases overflow = inr (inl refl)
prediction_cases (predicted next) = inr (inr (next, refl))

some_inj : {x y : List Text} → some x ≡ some y → x ≡ y
some_inj h = cc

from_pattern-AreNamed :
    (n : ℕ) (name : Text) (keys : List Text) → from_pattern n name ≡ some keys → AreNamed keys
unfolding from_pattern
from_pattern-AreNamed zero name keys e = subst AreNamed (some_inj e) tt
from_pattern-AreNamed (suc n) name keys e = elim (prediction_cases (predict_next_sequential name)) [
  | inl f ↦ subst AreNamed (some_inj (rw (from_pattern, f) at e)) tt
  | inr (inl f) ↦ absurd (cc (rw (from_pattern, f) at e))
  | inr (inr (next, f)) ↦ elim (Option-cases (from_pattern n next)) [
    | inl g ↦ absurd (cc (rw (from_pattern, f, g) at e))
    | inr (rest, g) ↦
        subst AreNamed (some_inj (rw (from_pattern, f, g) at e))
          (predict_next-named name next f, from_pattern-AreNamed n next rest g)
  ]
]

issue_one-manifest :
    (p : Predictor) (pool : Pool) (key : Text) → (issue_one p pool key).0.manifest ≡ p.manifest
unfolding issue_one
issue_one-manifest p pool key = ground arith

issue-manifest :
    (p : Predictor) (pool : Pool) (keys : List Text) → (issue p pool keys).0.manifest ≡ p.manifest
unfolding issue
issue-manifest p pool [] = refl
issue-manifest p pool (key ∷ keys) =
    issue-manifest (issue_one p pool key).0 (issue_one p pool key).1 keys
    ∙ issue_one-manifest p pool key

-- What a prediction issues, from a predictor with the same manifest.
predict_issues_named :
    (p : Predictor) (pool : Pool) (key : Text)
    → AreNamed p.manifest
    → (predict_and_prefetch p pool key ≡ none)
      ⊎ ((p' : Predictor) × (keys : List Text) × (predict_and_prefetch p pool key
            ≡ some (issue p' pool keys))
          × (p'.manifest ≡ p.manifest)
          × AreNamed keys)
unfolding predict_and_prefetch issue
predict_issues_named p pool key a = elim (Bool-cases p.manifest_mode) [
  | inl mode ↦ elim (Option-cases (find_in_manifest p key)) [
    | inl missing ↦ inr (count_prediction p, [], ground arith, refl, tt)
    | inr (m, found) ↦
        let keys = from_manifest (rounds p.lookahead) (m + 1) p.manifest in
        inr (
          count_manifest_hit (count_prediction p) keys,
          keys,
          ground arith,
          ground arith,
          from_manifest-AreNamed (rounds p.lookahead) (m + 1) p.manifest a,
        )
  ]
  | inr mode ↦ elim (Option-cases (from_pattern (rounds p.lookahead) key)) [
    | inl fails ↦ inl (ground arith)
    | inr (keys, ran) ↦ inr (
      count_pattern_hit (count_prediction p) keys,
      keys,
      ground arith,
      ground arith,
      from_pattern-AreNamed (rounds p.lookahead) key keys ran,
    )
  ]
]

-- The predictor and the pool between two steps.
abbrev pub IsReady : (Text → List ℕ) → S3Config → ℕ → Predictor → Pool → Type 0
IsReady objects config base p pool = AreNamed p.manifest × IsRight objects config base pool

predict-IsReady :
    (objects : Text → List ℕ) (config : S3Config) (base : ℕ) (p q : Predictor) (pool pool' : Pool)
    (key : Text)
    → predict_and_prefetch p pool key ≡ some (q, pool')
    → IsReady objects config base p pool
    → IsReady objects config base q pool'
predict-IsReady objects config base p q pool pool' key e r =
    elim (predict_issues_named p pool key r.0) [
      | inl fails ↦ absurd (cc)
      | inr (p', keys, ran, manifest, named) ↦
          let same : issue p' pool keys ≡ (q, pool') = cc in
          let right = issue-IsRight objects config base p' pool keys r.1 named in
          let kept = issue-manifest p' pool keys ∙ manifest in
          subst (λ (x : Predictor × Pool). IsReady objects config base x.0 x.1) same
            (subst AreNamed (sym kept) r.0, right)
    ]

turn-IsReady :
    (objects : Text → List ℕ) (config : S3Config) (base : ℕ) (p q : Predictor) (pool pool' : Pool)
    (key : Text)
    → predictor_turn p pool key ≡ some (q, pool')
    → IsReady objects config base p pool
    → IsReady objects config base q pool'
unfolding predictor_turn
turn-IsReady objects config base p q pool pool' [] e r =
    let same : (p, pool) ≡ (q, pool') = cc in
    subst (λ (x : Predictor × Pool). IsReady objects config base x.0 x.1) same r
turn-IsReady objects config base p q pool pool' (c ∷ cs) e r =
    predict-IsReady objects config base p q pool pool' (c ∷ cs) e r

pub predictor_round-IsReady :
    (objects : Text → List ℕ) (config : S3Config) (base : ℕ) (p q : Predictor) (pool pool' : Pool)
    → predictor_round p pool ≡ some (q, pool')
    → IsReady objects config base p pool
    → IsReady objects config base q pool'
unfolding predictor_round cleanup_completed_downloads
predictor_round-IsReady objects config base p q pool pool' e r =
    let cleaned = cleanup_completed_downloads p pool in
    turn-IsReady objects config base cleaned q pool pool' cleaned.last_accessed e r

-- The entries of a manifest are not empty.
kept_line :
    (t key : Text)
    → elim t [ [] ↦ none | c ∷ cs ↦ if c == b'#' then none else some (c ∷ cs) ] ≡ some key
    → key ≢ []
kept_line [] key e = absurd (cc)
kept_line (c ∷ cs) key e = ground arith

manifest_line-named : (line key : Text) → manifest_line line ≡ some key → key ≢ []
unfolding manifest_line
manifest_line-named line key e = kept_line (trim_right (trim_left line)) key e

manifest_lines-AreNamed : (lines : List Text) → AreNamed (manifest_lines lines)
unfolding manifest_lines
manifest_lines-AreNamed [] = tt
manifest_lines-AreNamed (line ∷ lines) = elim (Option-cases (manifest_line line)) [
  | inl e ↦ rw (e, manifest_lines) (manifest_lines-AreNamed lines)
  | inr (key, e) ↦
      rw (e, manifest_lines) (manifest_line-named line key e, manifest_lines-AreNamed lines)
]

pub load_manifest-AreNamed :
    (p : Predictor) (lines : Option (List Text))
    → AreNamed p.manifest
    → AreNamed (load_manifest p lines).0.manifest
unfolding load_manifest
load_manifest-AreNamed p none a = a
load_manifest-AreNamed p (some lines) a = manifest_lines-AreNamed lines

-- ===== src/Predictor/InFlight.antt =====
-- The in-flight set and the list of futures, over a round of the predictor.
use valkyrie_fs.Base.{
  ℕ, ◌+◌, ◌≤◌, ◌≡◌, ◌≢◌, ◌⊎◌, inl, inr, refl, sym, ap, ◌∙◌, false, Option, none, some, List, [],
  ◌∷◌, ◌++◌, Text, text_dec, arith, subst, Option-cases, Bool-cases, count, count-append,
}
use valkyrie_fs.Cache.{contains}
use valkyrie_fs.Pool.{Pool}
use valkyrie_fs.Predictor.{
  count_prediction, count_manifest_hit, count_pattern_hit, from_manifest, from_pattern,
  find_in_manifest, rounds, predictor_turn, Predictor, is_in_flight, issue_one, issue,
  predict_and_prefetch, cleanup, cleanup_completed_downloads, predictor_round, remove_key,
}

-- The keys of the futures.
abbrev pub future_keys : List (Text × Option ℕ) → List Text
future_keys [] = []
future_keys ((key, _) ∷ fs) = key ∷ future_keys fs

pub record IsTracked (in_flight : List Text) (futures : List (Text × Option ℕ)) : Type 0 where
  pub same : (k : Text) → count text_dec k in_flight ≡ count text_dec k (future_keys futures)
  pub once : (k : Text) → count text_dec k in_flight ≤ 1

future_keys-append :
    (fs : List (Text × Option ℕ)) (key : Text) (f : Option ℕ)
    → future_keys (fs ++ (key, f) ∷ []) ≡ future_keys fs ++ key ∷ []
future_keys-append [] key f = refl
future_keys-append ((k, g) ∷ fs) key f = ap (◌∷◌ k) (future_keys-append fs key f)

not_in_flight :
    (ks : List Text) (key : Text) → is_in_flight ks key ≡ false → count text_dec key ks ≡ 0
unfolding is_in_flight count
not_in_flight [] key h = refl
not_in_flight (k ∷ ks) key h = ground (arith, not_in_flight ks key)

-- A key that is not in flight is added to both.
add-IsTracked :
    (ks : List Text) (fs : List (Text × Option ℕ)) (key : Text) (f : Option ℕ)
    → IsTracked ks fs
    → count text_dec key ks ≡ 0
    → IsTracked (key ∷ ks) (fs ++ (key, f) ∷ [])
unfolding count
add-IsTracked ks fs key f t h = record {
  same = λ k.
      rw (future_keys-append fs key f)
        (ground (arith, t.same k, count-append text_dec k (future_keys fs) (key ∷ [])));
  once = λ k. ground (arith, t.once k, h);
}

abbrev pub Tracks : Predictor → Type 0
Tracks p = IsTracked p.in_flight p.in_flight_futures

issue_one-Tracks :
    (p : Predictor) (pool : Pool) (key : Text) → Tracks p → Tracks (issue_one p pool key).0
unfolding issue_one
issue_one-Tracks p pool key t = elim (Bool-cases (contains pool.cache key)) [
  | inl cached ↦ rw (cached, issue_one) t
  | inr new ↦ elim (Bool-cases (is_in_flight p.in_flight key)) [
    | inl pending ↦ rw (new, issue_one, pending) t
    | inr free ↦
        rw (new, issue_one, free)
          (add-IsTracked p.in_flight p.in_flight_futures key _ t
            (not_in_flight p.in_flight key free))
  ]
]

issue-Tracks :
    (p : Predictor) (pool : Pool) (keys : List Text) → Tracks p → Tracks (issue p pool keys).0
unfolding issue
issue-Tracks p pool [] t = t
issue-Tracks p pool (key ∷ keys) t =
    issue-Tracks (issue_one p pool key).0 (issue_one p pool key).1 keys
      (issue_one-Tracks p pool key t)

count-remove_key_self : (key : Text) (ks : List Text) → count text_dec key (remove_key key ks) ≡ 0
unfolding count remove_key
count-remove_key_self key [] = refl
count-remove_key_self key (k ∷ ks) = ground (arith, count-remove_key_self key ks)

count-remove_key_ne :
    (key k : Text) (ks : List Text)
    → k ≢ key
    → count text_dec k (remove_key key ks) ≡ count text_dec k ks
unfolding count remove_key
count-remove_key_ne key k [] h = refl
count-remove_key_ne key k (x ∷ ks) h = ground (arith, count-remove_key_ne key k ks)

-- The cleaning drops the same keys from both: what a key has in the set beyond its futures stays.
cleanup_lem :
    (pool : Pool) (fs : List (Text × Option ℕ)) (ks : List Text) (k : Text)
    → count text_dec k ks ≤ 1
    → count text_dec k (future_keys fs) ≤ count text_dec k ks
    → (count text_dec k (cleanup pool fs ks).1 + count text_dec k (future_keys fs)
        ≡ count text_dec k (future_keys (cleanup pool fs ks).0) + count text_dec k ks)
      × (count text_dec k (cleanup pool fs ks).1 ≤ 1)
unfolding cleanup count
cleanup_lem pool [] ks k h l = (omega arith, h)
cleanup_lem pool ((key, f) ∷ fs) ks k h l = elim (text_dec key k) [
  | yes p ↦
      let gone : count text_dec k (remove_key key ks) ≡ 0 =
        subst (λ q. count text_dec q (remove_key key ks) ≡ 0) p (count-remove_key_self key ks) in
      ground (arith, gone, cleanup_lem pool fs (remove_key key ks) k, cleanup_lem pool fs ks k)
  | no p ↦ ground (
    arith,
    count-remove_key_ne key k ks (λ e. p (sym e)),
    cleanup_lem pool fs (remove_key key ks) k,
    cleanup_lem pool fs ks k,
  )
]

cleanup_completed_downloads-Tracks :
    (p : Predictor) (pool : Pool) → Tracks p → Tracks (cleanup_completed_downloads p pool)
unfolding cleanup_completed_downloads
cleanup_completed_downloads-Tracks p pool t =
    let c = λ (k : Text).
      cleanup_lem pool p.in_flight_futures p.in_flight k (t.once k) (omega (arith, t.same k)) in
    record { same = λ k. omega (arith, (c k).0, t.same k); once = λ k. (c k).1 }

-- A prediction issues some keys, from a predictor with the same keys in flight.
predict_issues :
    (p : Predictor) (pool : Pool) (key : Text)
    → (predict_and_prefetch p pool key ≡ none)
      ⊎ ((p' : Predictor) × (keys : List Text) × (predict_and_prefetch p pool key
            ≡ some (issue p' pool keys))
          × (p'.in_flight ≡ p.in_flight)
          × (p'.in_flight_futures ≡ p.in_flight_futures))
unfolding predict_and_prefetch issue
predict_issues p pool key = elim (Bool-cases p.manifest_mode) [
  | inl mode ↦ elim (Option-cases (find_in_manifest p key)) [
    | inl missing ↦ inr (count_prediction p, [], ground arith, refl, refl)
    | inr (m, found) ↦
        let keys = from_manifest (rounds p.lookahead) (m + 1) p.manifest in
        inr (
          count_manifest_hit (count_prediction p) keys,
          keys,
          ground arith,
          ground arith,
          ground arith,
        )
  ]
  | inr mode ↦ elim (Option-cases (from_pattern (rounds p.lookahead) key)) [
    | inl fails ↦ inl (ground arith)
    | inr (keys, ran) ↦ inr (
      count_pattern_hit (count_prediction p) keys,
      keys,
      ground arith,
      ground arith,
      ground arith,
    )
  ]
]

predictor_of :
    {a : Predictor × Pool} {q : Predictor} {pool : Pool} → some a ≡ some (q, pool) → a.0 ≡ q
predictor_of {a} {q} {pool} e =
    ap (λ (o : Option (Predictor × Pool)). elim o [ none ↦ q | some x ↦ x.0 ]) e

predict_and_prefetch-Tracks :
    (p q : Predictor) (pool pool' : Pool) (key : Text)
    → predict_and_prefetch p pool key ≡ some (q, pool')
    → Tracks p
    → Tracks q
predict_and_prefetch-Tracks p q pool pool' key e t = elim (predict_issues p pool key) [
  | inl fails ↦ absurd (cc)
  | inr (p', keys, ran, flight, futures) ↦
      let before : Tracks p' = rw (flight, futures) t in
      let same : some (issue p' pool keys) ≡ some (q, pool') = sym ran ∙ e in
      let after : (issue p' pool keys).0 ≡ q = predictor_of same in
      subst Tracks after (issue-Tracks p' pool keys before)
]

round_of :
    (q : Predictor) (pool : Pool) (key : Text) (r : Predictor) (pool' : Pool)
    → q.last_accessed ≡ key
    → Tracks q
    → predictor_turn q pool key ≡ some (r, pool')
    → Tracks r
unfolding predictor_turn
round_of q pool [] r pool' l t e = subst Tracks (predictor_of e) t
round_of q pool (c ∷ cs) r pool' l t e = predict_and_prefetch-Tracks q r pool pool' (c ∷ cs) e t

-- A round of the predictor's loop that does not overflow keeps the in-flight set and the futures in
-- step: if they hold the same keys, and no key twice, they do so after it.
pub predictor_round-Tracks :
    (p q : Predictor) (pool pool' : Pool)
    → predictor_round p pool ≡ some (q, pool')
    → Tracks p
    → Tracks q
unfolding predictor_round
predictor_round-Tracks p q pool pool' e t =
    let cleaned = cleanup_completed_downloads p pool in
    round_of cleaned pool cleaned.last_accessed q pool' refl
      (cleanup_completed_downloads-Tracks p pool t) e

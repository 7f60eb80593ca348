-- ===== src/Tests/Predictors.antt =====
-- A predictor with a manifest of three files.
use valkyrie_fs.Predictor.Chain.{Successors, predict_and_prefetch-pattern}
use valkyrie_fs.Base.{
  List, Text, false, ◌++◌, count, ◌≡◌, refl, true, some, [], ◌∷◌, codes, arith, take, drop,
  get_elem?, text_dec,
}
use valkyrie_fs.Base.Assoc
use valkyrie_fs.Numeric.{pos}
use valkyrie_fs.Cache.{new_cache}
use valkyrie_fs.Pool.{Pool, new_pool}
use valkyrie_fs.Predictor.{
  Predictor, predict_and_prefetch, issue, predictor_round, find_in_manifest, has_newline,
}
use valkyrie_fs.Predictor.Lookahead.{predict_and_prefetch-manifest}
use valkyrie_fs.Predictor.InFlight.{Tracks, predictor_round-Tracks}

abbrev pool : Pool
pool = new_pool (record { bucket = codes "b"; region = codes "eu"; prefix = [] }) (new_cache 10)

abbrev pub predictor : Predictor
predictor = record {
  lookahead = pos 1;
  manifest_mode = true;
  manifest = codes "a" ∷ codes "b" ∷ codes "c" ∷ [];
  last_accessed = [];
  in_flight = [];
  in_flight_futures = [];
  stop_flag = false;
  stats = record {
    predictions_made = 0;
    prefetches_issued = 0;
    pattern_hits = 0;
    manifest_hits = 0;
  };
}

found : find_in_manifest predictor (codes "b") ≡ some 1
unfolding find_in_manifest text_dec
found = refl

predict_and_prefetch-manifest_example :
    (q : Predictor) × (predict_and_prefetch predictor pool (codes "b")
      ≡ some (issue q pool (take 1 (drop 2 predictor.manifest))))
    × (get_elem? predictor.manifest 1 ≡ some (codes "b"))
    × (q.in_flight ≡ predictor.in_flight)
predict_and_prefetch-manifest_example =
    predict_and_prefetch-manifest predictor pool (codes "b") 1 1 refl refl found

-- "a" is accessed: "b" is in flight after the round.
abbrev accessed : Predictor
accessed = record predictor { last_accessed = codes "a" }

abbrev after : Predictor
after = record accessed {
  in_flight = codes "b" ∷ [];
  in_flight_futures = (codes "b", some 0) ∷ [];
  stats = record {
    predictions_made = 1;
    prefetches_issued = 1;
    pattern_hits = 0;
    manifest_hits = 1;
  };
}

abbrev pool_after : Pool
pool_after = (issue accessed pool (codes "b" ∷ [])).1

ran : predictor_round accessed pool ≡ some (after, pool_after)
unfolding predictor_round issue new_pool new_cache text_dec Assoc.lookup
ran = refl

accessed-Tracks : Tracks accessed
unfolding count
accessed-Tracks = record { same = λ k. refl; once = λ k. omega arith }

predictor_round-Tracks_example : Tracks after
predictor_round-Tracks_example =
    predictor_round-Tracks accessed after pool pool_after ran accessed-Tracks

abbrev numbers : Predictor
numbers = record predictor { manifest_mode = false; lookahead = pos 2 }

predict_and_prefetch-pattern_example :
    (q : Predictor) × (keys : List Text) × (predict_and_prefetch numbers pool
        (codes "s" ++ codes "041" ++ b'.' ∷ codes "bin")
      ≡ some (issue q pool keys))
    × Successors (codes "s") 3 (codes "bin") 41 2 keys
    × (q.in_flight ≡ numbers.in_flight)
unfolding has_newline
predict_and_prefetch-pattern_example =
    predict_and_prefetch-pattern (codes "s") (codes "bin") ((refl, refl), tt) refl numbers pool 2 41
      2 (codes "041") refl refl
      (0 ∷ 4 ∷ 1 ∷ [], refl, (omega arith, (omega arith, (omega arith, tt))), refl, refl)
      (omega arith) (omega arith)

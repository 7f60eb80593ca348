-- ===== src/System.antt =====
-- The parts at work together: the callbacks of src/fuse_ops.cpp, the workers of
-- src/s3_worker_pool.cpp and the predictor's thread of src/predictor.cpp on one context, in any
-- order. A `read` is several steps here: it asks for a chunk, and touches it when it is there.
pub mod Tasks
pub mod Work
pub mod Predictions
pub mod Invariant
pub mod Reads
pub mod Crew
pub mod Phases
pub mod Interleaved
pub mod Answers
pub mod Promises
pub mod Completion
pub mod Rounds
use valkyrie_fs.Base.{ℕ, ◌+◌, ◌%◌, ◌<◌, ◌≡◌, ◌≢◌, true, some, List, [], Text, size_mod}
use valkyrie_fs.Types.{default_chunk_size, urgent}
use valkyrie_fs.Cache.{uint64_max}
use valkyrie_fs.Pool.{S3Client, Pool, submit, worker_round}
use valkyrie_fs.Predictor.{Predictor, predictor_round}
use valkyrie_fs.Fuse.{FuseContext, Result, open_file, readdir, start, stop}
use valkyrie_fs.Fuse.Read.{touched}

module _ (s3 : S3Client) where
  -- The steps that are looked at: requests are for keys that are not empty and chunks that begin at
  -- multiples of the chunk size, the clock is below `UINT64_MAX`, a download leaves the counter
  -- below 2^64, and a round of the predictor does not overflow. A worker works only where one was
  -- started.
  pub data Step (c c' : FuseContext) : Type 0 where
    opens :
        (path : Text) (flags : ℕ) (r : Result (Unit {0}))
        → open_file (some c) path flags ≡ (some c', r)
        → Step c c'
    lists :
        (path : Text) (now : ℕ) (r : Result (List Text))
        → readdir s3 (some c) path now ≡ (some c', r)
        → Step c c'
    asks :
        (key : Text) (start : ℕ)
        → key ≢ []
        → start % default_chunk_size ≡ 0
        → c' ≡ record c { pool = (submit c.pool key start default_chunk_size urgent).0 }
        → Step c c'
    touches :
        (key : Text) (offset now : ℕ)
        → now < uint64_max
        → c' ≡ record c { pool = touched c.pool key offset now }
        → Step c c'
    predicts :
        (p : Predictor) (q : Pool)
        → predictor_round c.predictor c.pool ≡ some (p, q)
        → c' ≡ record c { predictor = p; pool = q }
        → Step c c'
    works :
        (now : ℕ) (q : Pool)
        → now < uint64_max
        → c.pool.working ≡ true
        → c.pool.cache.current_size + default_chunk_size < size_mod
        → worker_round s3 c.pool now ≡ some (some q)
        → c' ≡ record c { pool = q }
        → Step c c'
    starts : c' ≡ start c → Step c c'
    stops : c' ≡ stop c → Step c c'

  pub data Reach (c : FuseContext) : FuseContext → Type 0 where
    here : Reach c c
    next : {d e : FuseContext} → Reach c d → Step d e → Reach c e

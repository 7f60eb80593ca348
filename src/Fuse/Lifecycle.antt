-- ===== src/Fuse/Lifecycle.antt =====
-- The threads of a context, and the callbacks `init` and `destroy` of src/fuse_ops.cpp, with the
-- `start`, `stop` and destructors of src/s3_worker_pool.cpp and src/predictor.cpp. A thread that was
-- started and not joined is joinable; a worker is known by its number. `none` stands for
-- `std::terminate`, which destroying or overwriting a joinable thread calls.
use valkyrie_fs.Base.{
  ℕ, zero, suc, ◌*◌, ◌/◌, Bool, true, false, Option, none, some, List, [], ◌∷◌, ◌++◌, Text, codes,
  if◌then◌else◌, ◌>>=◌,
}
use valkyrie_fs.Numeric.{ℤ, pos, negsuc, to_string}
use valkyrie_fs.Cache.Stats.{get_stats}
use valkyrie_fs.Pool.{Pool}
use valkyrie_fs.Predictor.{Predictor}
use valkyrie_fs.Fuse.{FuseContext, start, stop}

-- A context with its threads.
pub record Mount : Type 0 where
  pub context : FuseContext
  pub workers : List ℕ
  pub predictor_thread : Bool

-- The numbers of the workers that the loop of `S3WorkerPool::start` makes.
abbrev pub worker_ids : ℕ → ℕ → List ℕ
worker_ids i zero = []
worker_ids i (suc n) = i ∷ worker_ids (suc i) n

-- `S3WorkerPool::start`
unfoldable pub start_workers : ℤ → List ℕ → List ℕ
start_workers (pos n) workers = workers ++ worker_ids 0 n
start_workers (negsuc n) workers = workers

-- `Predictor::start`
unfoldable pub start_predictor : Bool → Option Bool
start_predictor true = none
start_predictor false = some true

-- `FuseContext::start`
unfoldable pub start_mount : Mount → Option Mount
unfolding start start_workers start_predictor
start_mount m = if m.context.is_started then some m else (do
  thread ← start_predictor m.predictor_thread
  some (record {
    context = start m.context;
    workers = start_workers m.context.config.num_workers m.workers;
    predictor_thread = thread;
  }))

-- The joins of `Predictor::stop` and of `S3WorkerPool::shutdown`.
abbrev pub joined_predictor : Predictor → Bool → Bool
joined_predictor p thread = if p.stop_flag then thread else false

abbrev pub joined_workers : Pool → List ℕ → List ℕ
joined_workers p workers = if p.shutdown_flag then workers else []

-- `FuseContext::stop`
unfoldable pub stop_mount : Mount → Mount
unfolding stop
stop_mount m =
    if m.context.is_started
    then record {
      context = stop m.context;
      workers = joined_workers m.context.pool m.workers;
      predictor_thread = joined_predictor m.context.predictor m.predictor_thread;
    }
    else m

-- Whether the threads' destructors find nothing to be joined.
abbrev pub ends_quietly : List ℕ → Bool → Bool
ends_quietly [] false = true
ends_quietly [] true = false
ends_quietly (_ ∷ _) thread = false

-- `~FuseContext`, then `~Predictor` and `~S3WorkerPool`: whether the program goes on.
unfoldable pub destruct : Mount → Bool
unfolding stop_mount
destruct m =
    let m' = stop_mount m in
    ends_quietly (joined_workers m'.context.pool m'.workers)
      (joined_predictor m'.context.predictor m'.predictor_thread)

-- `struct fuse_config`, as far as `init` sets it; the timeouts are in seconds.
pub record FuseConfig : Type 0 where
  pub kernel_cache : Bool
  pub auto_cache : Bool
  pub entry_timeout : ℕ
  pub attr_timeout : ℕ
  pub negative_timeout : ℕ

-- `fuse_get_context` may give no context, or one without private data.
unfoldable pub get_valkyrie_context : Option (Option Mount) → Option Mount
get_valkyrie_context none = none
get_valkyrie_context (some none) = none
get_valkyrie_context (some (some m)) = some m

-- The mount after `init`, and whether `init` returns it: `nullptr` makes the mount fail.
pub record Initialized : Type 0 where
  pub mount : Option Mount
  pub returned : Bool

abbrev started : Option Mount → Option Initialized
started none = some (record { mount = none; returned = false })
started (some m) = do m' ← start_mount m; some (record { mount = some m'; returned = true })

-- `init` for macFUSE.
unfoldable pub mac_init : Option (Option Mount) → Option Initialized
unfolding get_valkyrie_context start_mount
mac_init fuse_ctx = started (get_valkyrie_context fuse_ctx)

-- `init` for libfuse3.
unfoldable pub init : Option (Option Mount) → FuseConfig → Option (FuseConfig × Initialized)
unfolding get_valkyrie_context start_mount
init fuse_ctx cfg = do
  result ← started (get_valkyrie_context fuse_ctx)
  some (
    record {
      kernel_cache = true;
      auto_cache = true;
      entry_timeout = 300;
      attr_timeout = 300;
      negative_timeout = 60;
    },
    result,
  )

abbrev megabytes : ℕ → Text
megabytes n = to_string (n / (1024 * 1024)) ++ codes "MB"

abbrev line : Text → Text
line t = t ++ codes "\n"

-- The statistics that `destroy` prints.
unfoldable pub statistics : FuseContext → Text
unfolding to_string get_stats
statistics c =
    let cache_stats = get_stats c.pool.cache in
    let worker_stats = c.pool.stats in
    let predictor_stats = c.predictor.stats in
    codes "\n=== Valkyrie-FS Statistics ===\n"
    ++ codes "Cache:\n"
    ++ line (codes "  Current size: " ++ megabytes cache_stats.current_size)
    ++ line (codes "  HOT zone: " ++ megabytes cache_stats.hot_zone_size)
    ++ line (codes "  PREFETCH zone: " ++ megabytes cache_stats.prefetch_zone_size)
    ++ line (codes "  Files cached: " ++ to_string cache_stats.num_files)
    ++ line (codes "  Chunks cached: " ++ to_string cache_stats.num_chunks)
    ++ codes "S3 Downloads:\n"
    ++ line (codes "  Total: " ++ to_string worker_stats.total_downloads)
    ++ line (codes "  Successful: " ++ to_string worker_stats.successful_downloads)
    ++ line (codes "  Failed: " ++ to_string worker_stats.failed_downloads)
    ++ line (codes "  Bytes downloaded: " ++ megabytes worker_stats.bytes_downloaded)
    ++ codes "Predictor:\n"
    ++ line (codes "  Predictions made: " ++ to_string predictor_stats.predictions_made)
    ++ line (codes "  Prefetches issued: " ++ to_string predictor_stats.prefetches_issued)
    ++ line (codes "  Pattern hits: " ++ to_string predictor_stats.pattern_hits)
    ++ line (codes "  Manifest hits: " ++ to_string predictor_stats.manifest_hits)

-- What `destroy` prints and leaves, for the private data.
unfoldable pub destroy : Option Mount → Text × Option Mount
unfolding statistics stop_mount
destroy none = ([], none)
destroy (some m) = (statistics m.context, some (stop_mount m))

-- ===== src/Fuse.antt =====
-- src/fuse_ops.hpp and src/fuse_ops.cpp, in the version for libfuse3. Time is an argument. The
-- context that `fuse_get_context` gives is one too: `none` where it is missing. The predictor's and
-- the workers' threads are `predictor_round` and `worker_round`; while a read waits for its promise,
-- one worker runs.
pub mod Read
pub mod Files
pub mod Bytes
pub mod Listing
pub mod Ends
pub mod Fetch
pub mod Misses
pub mod Objects
pub mod Ranges
pub mod Lifecycle
pub mod Created
pub mod Mac
pub mod Stopped
pub mod Restarts
use valkyrie_fs.Base.{
  ℕ, zero, suc, ◌+◌, ◌*◌, ◌-◌, ◌/◌, ◌%◌, ◌≤◌, ◌<◌, ◌≡◌, refl, Bool, true, false, not, ◌&&◌, ◌||◌,
  Option, none, some, List, [], ◌∷◌, ◌++◌, Text, text_dec, ℕ_discrete, codes, length, take, drop,
  ltb, leb, ◌==◌, ite, if◌then◌else◌, arith, add64, sub64, min, ◌>>=◌,
}
use valkyrie_fs.Base.Assoc
use valkyrie_fs.Types.{Priority, urgent, default_chunk_size}
use valkyrie_fs.Config.{Config, S3Config, is_empty}
use valkyrie_fs.Cache.{CacheManager, Chunk, new_cache, get_chunk, access}
use valkyrie_fs.Pool.{S3Client, Pool, ObjectInfo, new_pool, submit, worker_round, list_objects}
use valkyrie_fs.Pool
use valkyrie_fs.Predictor.{Predictor, new_predictor, on_file_accessed, load_manifest}

pub data Errno : Type 0 where
  eacces enoent eio : Errno

pub data Result {ℓ} (A : Type ℓ) : Type ℓ where
  ok : A → Result A
  err : Errno → Result A

-- `timestamp` is in nanoseconds.
pub record DirectoryCache : Type 0 where
  pub file_list : List Text
  pub timestamp : ℕ
  pub populated : Bool

-- The time to live, in seconds.
abbrev pub ttl : ℕ
ttl = 300

unfoldable pub is_expired : DirectoryCache → ℕ → Bool
is_expired d now = if not d.populated then true else leb ttl ((now - d.timestamp) / 1000000000)

pub record FuseContext : Type 0 where
  pub pool : Pool
  pub predictor : Predictor
  pub config : Config
  pub file_sizes : List (Text × ℕ)
  pub dir_cache : DirectoryCache
  pub worker_pool_ptr : Bool
  pub is_started : Bool

-- The constructor; `none` is an exception. `manifest` is what the configured file holds.
unfoldable pub new_context : Config → Option (List Text) → Option FuseContext
unfolding new_cache new_pool new_predictor load_manifest
new_context config manifest = do
  predictor ← new_predictor config.lookahead
  some (record {
    pool = new_pool config.s3_config (new_cache config.cache_size);
    predictor =
        if is_empty config.manifest_path then predictor else (load_manifest predictor manifest).0;
    config = config;
    file_sizes = [];
    dir_cache = record { file_list = []; timestamp = 0; populated = false };
    worker_pool_ptr = false;
    is_started = false;
  })

unfoldable pub start : FuseContext → FuseContext
start c = if c.is_started then c else record c {
  pool = Pool.start c.config.num_workers c.pool;
  is_started = true;
  worker_pool_ptr = true;
}

unfoldable pub stop : FuseContext → FuseContext
unfolding Pool.shutdown
stop c =
    if c.is_started
    then record c {
      is_started = false;
      predictor = record c.predictor { stop_flag = true };
      pool = Pool.shutdown c.pool;
      worker_pool_ptr = false;
    }
    else c

-- Whether `get_worker_pool` gives the pool.
unfoldable pub get_worker_pool : FuseContext → Bool
get_worker_pool c = if c.is_started then c.worker_pool_ptr else false

unfoldable pub path_to_s3_key : Text → Text
path_to_s3_key [] = []
path_to_s3_key (c ∷ cs) = if c == b'/' then cs else c ∷ cs

pub record Stat : Type 0 where
  pub st_mode : ℕ
  pub st_nlink : ℕ
  pub st_size : ℕ

-- `S_IFDIR | 0755` and `S_IFREG | 0444`
abbrev pub dir_mode : ℕ
dir_mode = 0o040755

abbrev pub file_mode : ℕ
file_mode = 0o100444

abbrev pub is_root : Text → Bool
is_root path = ite (text_dec path (b'/' ∷ [])) true false

abbrev pub file_stat : Option ℕ → Result Stat
file_stat none = err enoent
file_stat (some size) = ok (record { st_mode = file_mode; st_nlink = 1; st_size = size })

unfoldable pub getattr : Option FuseContext → Text → Result Stat
unfolding path_to_s3_key
getattr none path = err eio
getattr (some c) path =
    if is_root path
    then ok (record { st_mode = dir_mode; st_nlink = 2; st_size = 0 })
    else file_stat (Assoc.lookup text_dec (path_to_s3_key path) c.file_sizes)

-- `file_sizes[obj.key] = obj.size` for each object.
unfoldable pub put_sizes : List ObjectInfo → List (Text × ℕ) → List (Text × ℕ)
put_sizes [] sizes = sizes
put_sizes (obj ∷ objs) sizes = put_sizes objs (Assoc.insert text_dec obj.key obj.size sizes)

unfoldable pub object_keys : List ObjectInfo → List Text
object_keys [] = []
object_keys (obj ∷ objs) = obj.key ∷ object_keys objs

abbrev pub needs_refresh : FuseContext → ℕ → Bool
needs_refresh c now = not c.dir_cache.populated || is_expired c.dir_cache now

-- The update of the directory cache, with the second check.
unfoldable pub refresh : FuseContext → List ObjectInfo → ℕ → FuseContext
unfolding put_sizes object_keys is_expired
refresh c objects now =
    if needs_refresh c now
    then record c {
      file_sizes = put_sizes objects c.file_sizes;
      dir_cache = record { file_list = object_keys objects; timestamp = now; populated = true };
    }
    else c

abbrev pub entries : FuseContext → List Text
entries c = codes "." ∷ codes ".." ∷ c.dir_cache.file_list

-- The context afterwards, and the names given to `filler` or the error.
unfoldable pub readdir :
    S3Client → Option FuseContext → Text → ℕ → Option FuseContext × Result (List Text)
unfolding refresh get_worker_pool is_expired
readdir s3 none path now = (none, if is_root path then err eio else err enoent)
readdir s3 (some c) path now =
    if not (is_root path)
    then (some c, err enoent)
    else (if not (needs_refresh c now)
        then (some c, ok (entries c))
        else (if not (get_worker_pool c)
            then (some c, err eio)
            else elim (list_objects s3 c.pool.config) [
              | none ↦ (some c, err eio)
              | some objects ↦ (some (refresh c objects now), ok (entries (refresh c objects now)))
            ]))

-- The size of a file that has not been listed: 1 GB.
abbrev pub default_file_size : ℕ
default_file_size = 1024 * 1024 * 1024

abbrev pub with_size : List (Text × ℕ) → Text → Option ℕ → List (Text × ℕ)
with_size sizes key none = Assoc.insert text_dec key default_file_size sizes
with_size sizes key (some _) = sizes

-- `flags & O_ACCMODE` is the flags' remainder by 4.
unfoldable pub open_file : Option FuseContext → Text → ℕ → Option FuseContext × Result (Unit {0})
unfolding path_to_s3_key on_file_accessed
open_file ctx path flags = if not (flags % 4 == 0) then (ctx, err eacces) else elim ctx [
  | none ↦ (none, err eio)
  | some c ↦
      let key = path_to_s3_key path in
      (
        some (record c {
          predictor = on_file_accessed c.predictor key;
          file_sizes = with_size c.file_sizes key (Assoc.lookup text_dec key c.file_sizes);
        }),
        ok tt,
      )
]

-- `release`
unfoldable pub release : Result (Unit {0})
release = ok tt

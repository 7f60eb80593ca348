-- ===== src/Pool.antt =====
-- src/s3_worker_pool.hpp and src/s3_worker_pool.cpp. The AWS client is a parameter: what it answers
-- to each request. A promise is a number; `completed` holds the values that have been set. The cache
-- that the pool refers to is a field. `none` means that an eviction loop did not end.
pub mod Keys
pub mod Coherent
pub mod Objects
pub mod Progress
pub mod Range
pub mod Download
use valkyrie_fs.Base.{
  ℕ, zero, suc, ◌+◌, ◌*◌, ◌-◌, ◌≤◌, ◌<◌, ◌≡◌, refl, Bool, true, false, ◌&&◌, ◌||◌, Option, none,
  some, List, [], ◌∷◌, ◌++◌, map, Text, text_dec, ℕ_discrete, codes, length, take, drop, ltb,
  ==_iff, ◌==◌, ite, if◌then◌else◌, arith, add64, sub64, size_mod, ◌>>=◌,
}
use valkyrie_fs.Base.Assoc
use valkyrie_fs.Types.{CacheZone, hot, prefetch, Priority, urgent, normal, background}
use valkyrie_fs.Numeric.{ℤ, pos, int_ltb, to_string}
use valkyrie_fs.Config.{S3Config, is_empty}
use valkyrie_fs.Cache.{CacheManager, insert_chunk}
use valkyrie_fs.Queue.{QueueItem, ThreadSafeQueue, new_queue, push, Popped, waits, stopped, popped}
use valkyrie_fs.Queue

pub record PrefetchTask : Type 0 where
  pub s3_key : Text
  pub offset : ℕ
  pub size : ℕ
  pub priority : Priority
  pub completion : ℕ

pub record ObjectInfo : Type 0 where
  pub key : Text
  pub size : ℕ

pub record GetObjectRequest : Type 0 where
  pub bucket : Text
  pub key : Text
  pub range : Text

pub record ListRequest : Type 0 where
  pub bucket : Text
  pub prefix : Text
  pub token : Text

pub record ListResult : Type 0 where
  pub contents : List ObjectInfo
  pub is_truncated : Bool
  pub next_token : Text

-- The client's answers; `none` is an outcome that is no success.
pub record S3Client : Type 0 where
  pub get_object : GetObjectRequest → Option (List ℕ)
  pub list_objects_v2 : ListRequest → Option ListResult

pub record Stats : Type 0 where
  pub total_downloads : ℕ
  pub successful_downloads : ℕ
  pub failed_downloads : ℕ
  pub bytes_downloaded : ℕ

pub record Pool : Type 0 where
  pub config : S3Config
  pub cache : CacheManager
  pub task_queue : ThreadSafeQueue PrefetchTask
  pub shutdown_flag : Bool
  -- Whether `workers_` has a thread.
  pub working : Bool
  pub stats : Stats
  pub next_promise : ℕ
  pub completed : List (ℕ × Bool)

-- `S3Config::get_full_key`
unfoldable pub get_full_key : S3Config → Text → Text
get_full_key config file_key =
    if is_empty config.prefix then file_key else config.prefix ++ (codes "/" ++ file_key)

unfoldable pub new_pool : S3Config → CacheManager → Pool
unfolding new_queue
new_pool config cache = record {
  config = config;
  cache = cache;
  task_queue = new_queue;
  shutdown_flag = false;
  working = false;
  stats = record {
    total_downloads = 0;
    successful_downloads = 0;
    failed_downloads = 0;
    bytes_downloaded = 0;
  };
  next_promise = 0;
  completed = [];
}

-- `start`, with the number of workers.
abbrev pub start : ℤ → Pool → Pool
start num_workers p = record p { working = p.working || int_ltb (pos 0) num_workers }

-- The pool after a `submit`, and the promise's number. A queue that is shut down drops the task,
-- and with it the promise: `none` is then the broken promise.
unfoldable pub submit : Pool → Text → ℕ → ℕ → Priority → Pool × Option ℕ
unfolding push
submit p s3_key offset size priority =
    let task : PrefetchTask = record {
      s3_key = s3_key;
      offset = offset;
      size = size;
      priority = priority;
      completion = p.next_promise;
    } in
    (
      record p { task_queue = push p.task_queue task priority; next_promise = suc p.next_promise },
      if p.task_queue.shutdown_flag then none else some p.next_promise,
    )

unfoldable pub shutdown : Pool → Pool
unfolding Queue.shutdown
shutdown p =
    if p.shutdown_flag
    then p
    else record p { shutdown_flag = true; task_queue = Queue.shutdown p.task_queue }

-- The zone of a Downloaded chunk.
abbrev pub zone_of : Priority → CacheZone
zone_of urgent = hot
zone_of normal = prefetch
zone_of background = prefetch

unfoldable pub get_request : Pool → PrefetchTask → GetObjectRequest
unfolding get_full_key to_string
get_request p task = record {
  bucket = p.config.bucket;
  key = get_full_key p.config task.s3_key;
  range =
      codes "bytes="
      ++ to_string task.offset
      ++ codes "-"
      ++ to_string (sub64 (add64 task.offset task.size) 1);
}

unfoldable pub count_failure : Stats → Stats
count_failure s = record s { failed_downloads = add64 s.failed_downloads 1 }

unfoldable pub count_success : Stats → ℕ → Stats
count_success s bytes_read = record s {
  successful_downloads = add64 s.successful_downloads 1;
  bytes_downloaded = add64 s.bytes_downloaded bytes_read;
}

-- The part of `download_chunk` that has a response body: `data` is what `stream.read` gave.
unfoldable pub store_body : Pool → PrefetchTask → List ℕ → ℕ → Option (Pool × Bool)
unfolding count_failure count_success
store_body p task bytes now =
    if length bytes == 0 then some (record p { stats = count_failure p.stats }, false) else (do
      cache ← insert_chunk p.cache task.s3_key task.offset bytes (zone_of task.priority) now
      some (record p { cache = cache; stats = count_success p.stats (length bytes) }, true))

module _ (s3 : S3Client) where
  unfoldable pub download_chunk : Pool → PrefetchTask → ℕ → Option (Pool × Bool)
  unfolding get_request store_body
  download_chunk p task now =
      let begun : Pool = record p {
        stats = record p.stats { total_downloads = add64 p.stats.total_downloads 1 };
      } in
      elim (s3.get_object (get_request p task)) [
        | none ↦ some (record begun { stats = count_failure begun.stats }, false)
        | some body ↦ store_body begun task (take task.size body) now
      ]

  -- One task: the download, and the promise's value.
  unfoldable pub run_task : Pool → PrefetchTask → ℕ → Option Pool
  unfolding download_chunk
  run_task p task now = do
    (p', success) ← download_chunk p task now
    some (record p' { completed = (task.completion, success) ∷ p'.completed })

  -- One round of `worker_loop`: `none` inside `some` means that the worker has ended.
  unfoldable pub worker_round : Pool → ℕ → Option (Option Pool)
  unfolding run_task Queue.pop
  worker_round p now = if p.shutdown_flag then some none else elim (Queue.pop p.task_queue) [
    | waits ↦ some (some p)
    | stopped ↦ some none
    | popped item q ↦ do p' ← run_task (record p { task_queue = q }) item.item now; some (some p')
  ]

-- The key relative to the configured prefix.
unfoldable pub relative_key : S3Config → Text → Text
relative_key config full_key =
    if is_empty config.prefix
    then full_key
    else (let prefix_len = length config.prefix + 1 in
        if ltb (length full_key) prefix_len then full_key else drop prefix_len full_key)

unfoldable pub object_infos : S3Config → List ObjectInfo → List ObjectInfo
unfolding relative_key
object_infos config [] = []
object_infos config (obj ∷ objs) =
    record { key = relative_key config obj.key; size = obj.size } ∷ object_infos config objs

unfoldable pub list_request : S3Config → Text → ListRequest
list_request config token = record {
  bucket = config.bucket;
  prefix = if is_empty config.prefix then [] else config.prefix ++ codes "/";
  token = token;
}

abbrev pub max_pagination_iterations : ℕ
max_pagination_iterations = 1000

module _ (s3 : S3Client) (config : S3Config) where
  -- The pagination loop: the rounds that are left, the continuation token, the results so far.
  -- `none` is the exception.
  unfoldable pub list_pages : ℕ → Text → List ObjectInfo → Option (List ObjectInfo)
  unfolding object_infos list_request
  list_pages zero token results = some results
  list_pages (suc rounds) token results = elim (s3.list_objects_v2 (list_request config token)) [
    | none ↦ none
    | some page ↦
        let results' = results ++ object_infos config page.contents in
        let following = list_pages rounds page.next_token results' in
        if page.is_truncated
        then (if is_empty page.next_token then some results' else following)
        else some results'
  ]

  unfoldable pub list_objects : Option (List ObjectInfo)
  unfolding list_pages
  list_objects = list_pages max_pagination_iterations [] []

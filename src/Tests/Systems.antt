-- ===== src/Tests/Systems.antt =====
-- The parts at work: a mounted context that is asked for a chunk, and a worker that fetches it.
use valkyrie_fs.Pool.Objects.{Serves}
use valkyrie_fs.Base.Assoc
use valkyrie_fs.Types.{default_chunk_size, hot, urgent}
use valkyrie_fs.Numeric.{pos, stoull}
use valkyrie_fs.Config.{default_config}
use valkyrie_fs.Cache.Contents.{bytes_at, get_chunk-bytes_at}
use valkyrie_fs.Cache.Interleaving.{IsSound}
use valkyrie_fs.Predictor.{Predictor, new_predictor}
use valkyrie_fs.Fuse.{FuseContext, new_context, start, path_to_s3_key}
use valkyrie_fs.Fuse.Created.{created, new_context-created}
use valkyrie_fs.Fuse.Ranges.{Reads}
use valkyrie_fs.System.{asks, starts}
use valkyrie_fs.Base.{
  ap, ◌+◌, ◌≤◌, ◌≢◌, length, size_mod, ℕ, ◌≡◌, refl, true, false, none, some, List, [], ◌∷◌, Text,
  codes, text_dec, ℕ_discrete, arith, take, drop, map,
}
use valkyrie_fs.Queue.{new_queue, push, pop, QueueItem, popped}
use valkyrie_fs.Cache.{get_chunk, new_chunk, new_cache, store_chunk, evict_if_needed, evict_loop}
use valkyrie_fs.Pool.{count_success, Pool, new_pool, submit, PrefetchTask, get_request}
use valkyrie_fs.System.Tasks.{IsRight}
use valkyrie_fs.System.Completion.{work_left}
use valkyrie_fs.System.Crew.{
  Phase, fetching, holding, storing, done, Crew, CrewReach, here, next, others, takes, goes_on,
  keeps, answered, evicted, stored, count_begun,
}
use mathlib.Core.List.{Perm}
use valkyrie_fs.System.Promises.{owed}
use valkyrie_fs.Pool.Progress.{kept_promises}
use valkyrie_fs.Fuse.Read.{ReadResult, read, Env}
use valkyrie_fs.System.Answers.{alone, CrewReach-bytes, CrewReach-read, CrewReach-completes}
use valkyrie_fs.Tests.Buckets.{bucket, bucket-Serves, letters}
use valkyrie_fs.Tests.Files.{clock}

abbrev objects : Text → List ℕ
objects key = letters

abbrev a : Text
a = codes "a"

abbrev pub predictor : Predictor
predictor = record {
  lookahead = pos 3;
  manifest_mode = false;
  manifest = [];
  last_accessed = [];
  in_flight = [];
  in_flight_futures = [];
  stop_flag = false;
  stats = record {
    predictions_made = 0;
    prefetches_issued = 0;
    pattern_hits = 0;
    manifest_hits = 0;
  };
}

pub made_predictor : new_predictor default_config.lookahead ≡ some predictor
unfolding new_predictor
made_predictor = refl

abbrev pub mounted : FuseContext
mounted = created default_config none predictor

made : new_context default_config none ≡ some mounted
made = new_context-created default_config none predictor made_predictor

-- The pool once its workers have been started.
abbrev pub working_pool : Pool
working_pool = record mounted.pool { working = true }

abbrev asked : Pool
asked = (submit working_pool a 0 default_chunk_size urgent).0

abbrev pub fetched : Pool
fetched = record working_pool {
  cache = store_chunk (new_cache default_config.cache_size) a 0 letters hot 7;
  task_queue = record { items = []; shutdown_flag = false };
  stats = record {
    total_downloads = 1;
    successful_downloads = 1;
    failed_downloads = 0;
    bytes_downloaded = 6;
  };
  next_promise = 1;
  completed = (0, true) ∷ [];
}

small_objects : (k : Text) → length (objects k) + default_chunk_size ≤ size_mod
small_objects k = omega arith

serves : (k : Text) → Serves bucket default_config.s3_config k (objects k)
serves k = bucket-Serves default_config.s3_config k

-- A started context, with a chunk asked for and fetched.
abbrev pub running : FuseContext
running = record mounted { pool = working_pool; is_started = true; worker_pool_ptr = true }

started : running ≡ start mounted
unfolding start new_pool
started = refl

a_named : a ≢ []
a_named e = cc

fetched_size : asked.cache.current_size ≡ 0
unfolding submit new_pool new_cache
fetched_size = refl

-- The task in a worker's hands, and the pool as it goes on.
abbrev task : PrefetchTask
task = record {
  s3_key = a;
  offset = 0;
  size = default_chunk_size;
  priority = urgent;
  completion = 0;
}

abbrev crew : Pool → List Phase → Crew
crew p phases = record {
  context = record running { pool = p };
  running = map (λ (ph : Phase). record { task = task; phase = ph }) phases;
}

abbrev taken : Pool
taken = record asked { task_queue = record { items = []; shutdown_flag = false } }

abbrev one_item : QueueItem PrefetchTask
one_item = record { item = task; priority = urgent }

popped_task : pop asked.task_queue ≡ popped one_item (record { items = []; shutdown_flag = false })
unfolding submit new_pool new_queue push pop
popped_task = refl

asked_working : asked.working ≡ true
unfolding submit new_pool
asked_working = refl

asked_open : asked.shutdown_flag ≡ false
unfolding submit new_pool
asked_open = refl

abbrev begun : Pool
begun = record taken { stats = count_begun taken.stats }

abbrev kept : Pool
kept = record begun {
  cache = store_chunk begun.cache a 0 letters hot 7;
  stats = count_success begun.stats 6;
}

answer : bucket.get_object (get_request taken task) ≡ some letters
unfolding get_request stoull
answer = refl

room_made : evict_if_needed begun.cache 6 ≡ some begun.cache
unfolding submit new_pool new_cache evict_if_needed evict_loop
room_made = refl

finished_pool : fetched ≡ record kept { completed = (0, true) ∷ kept.completed }
unfolding submit new_pool new_cache count_success
finished_pool = refl

waiting : CrewReach bucket (alone mounted) (crew asked [])
waiting = next (next here (others (starts started) refl)) (others (asks a 0 a_named refl refl) refl)

reached : CrewReach bucket (alone mounted) (crew fetched [])
reached =
    next
      (next
        (next
          (next
            (next waiting (
              takes one_item (record { items = []; shutdown_flag = false }) asked_open asked_working
                popped_task refl refl))
            (goes_on [] [] (record { task = task; phase = fetching })
              (record { task = task; phase = holding letters }) begun refl
              (answered letters answer refl refl refl) refl refl))
          (goes_on [] [] (record { task = task; phase = holding letters })
            (record { task = task; phase = storing letters }) begun refl
            (evicted begun.cache room_made refl) refl refl))
        (goes_on [] [] (record { task = task; phase = storing letters })
          (record { task = task; phase = done true }) kept refl
          (stored 7 (omega arith) (omega (arith, fetched_size)) refl) refl refl))
      (keeps [] [] task true refl (ap (λ (p : Pool). record running { pool = p }) finished_pool)
        refl)

a_chunk : get_chunk fetched.cache a 0 ≡ some (new_chunk letters 7)
unfolding store_chunk new_cache Assoc.lookup Assoc.insert text_dec ℕ_discrete get_chunk
a_chunk = refl

a_cached : bytes_at fetched.cache a 0 ≡ some letters
a_cached = get_chunk-bytes_at fetched.cache a 0 (new_chunk letters 7) a_chunk

CrewReach-bytes_example :
    IsSound fetched.cache × (letters ≡ take default_chunk_size (drop 0 letters))
CrewReach-bytes_example =
    CrewReach-bytes bucket objects default_config none small_objects serves a 0 letters made reached
      refl (omega arith) a_cached

one_task : work_left (crew asked []) ≡ 5
unfolding submit new_pool new_queue push
one_task = refl

b_named : path_to_s3_key (codes "/b") ≢ []
unfolding path_to_s3_key
b_named e = cc

open_still : fetched.shutdown_flag ≡ false
unfolding new_pool
open_still = refl

has_workers : fetched.working ≡ true
unfolding new_pool
has_workers = refl

emptied : fetched.task_queue ≡ new_queue
unfolding new_queue
emptied = refl

counted : fetched.cache.current_size ≡ 6
unfolding store_chunk new_cache Assoc.lookup Assoc.insert text_dec
counted = refl

-- A reader that resumes three rounds late.
abbrev late_env : Env
late_env = record { client = bucket; late = 3 }

CrewReach-read_example :
    (q : Pool) × (r : ReadResult) × (read late_env clock 1
        (some (record running { pool = fetched }))
        (codes "/b")
        4
        1
      ≡ some (some (record running { pool = q }), r))
    × Reads late_env default_config.s3_config
        (path_to_s3_key (codes "/b"))
        (objects (path_to_s3_key (codes "/b")))
        4
        1
        r
CrewReach-read_example =
    CrewReach-read bucket objects default_config none small_objects serves 3 clock 1 (codes "/b") 4
      1 made reached open_still has_workers emptied refl (omega (arith, counted)) (λ n. omega arith)
      b_named (omega arith) (omega arith) (omega arith)

CrewReach-completes_example :
    (e : Crew) × CrewReach bucket (crew asked []) e
    × (e.running ≡ [])
    × (e.context.pool.task_queue.items ≡ [])
    × IsRight objects default_config.s3_config 0 e.context.pool
    × Perm (kept_promises e.context.pool) (owed (crew asked []))
CrewReach-completes_example =
    CrewReach-completes bucket objects default_config none small_objects serves 7 made waiting
      asked_open asked_working (omega (arith, fetched_size, one_task)) (omega arith)

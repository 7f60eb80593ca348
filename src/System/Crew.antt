-- ===== src/System/Crew.antt =====
-- Several workers at once: `worker_loop` and `download_chunk` of src/s3_worker_pool.cpp in their
-- steps, between which the other workers, the predictor and the callbacks go on. `insert_chunk`
-- gives the cache's lock back between the eviction and the store.
use valkyrie_fs.Base.{
  ℕ, ◌+◌, ◌<◌, ◌≡◌, Bool, true, false, none, some, List, ◌∷◌, ◌++◌, length, take, add64, size_mod,
  ◌==◌,
}
use valkyrie_fs.Cache.{CacheManager, evict_if_needed, store_chunk, uint64_max}
use valkyrie_fs.Queue.{QueueItem, ThreadSafeQueue, pop, popped}
use valkyrie_fs.Pool.{
  S3Client, PrefetchTask, Pool, Stats, get_request, count_failure, count_success, zone_of,
}
use valkyrie_fs.Fuse.{FuseContext}
use valkyrie_fs.System.{Step}

-- How far a worker has come with its task.
pub data Phase : Type 0 where
  fetching : Phase
  -- It has the bytes of the response, at least one.
  holding : List ℕ → Phase
  -- It has made room for them.
  storing : List ℕ → Phase
  -- The download has a result.
  done : Bool → Phase

pub record Running : Type 0 where
  pub task : PrefetchTask
  pub phase : Phase

-- The context, and the workers that have a task.
pub record Crew : Type 0 where
  pub context : FuseContext
  pub running : List Running

-- The counters when a download begins.
abbrev pub count_begun : Stats → Stats
count_begun s = record s { total_downloads = add64 s.total_downloads 1 }

module _ (s3 : S3Client) where
  -- What the step of one worker makes of the pool and of the worker, where the clock is below
  -- `UINT64_MAX` and the chunk that is stored leaves the counter below 2^64.
  pub data Works (p : Pool) : Running → Pool → Running → Type 0 where
    refused :
        {t : PrefetchTask} {p' : Pool}
        → s3.get_object (get_request p t) ≡ none
        → p' ≡ record p { stats = count_failure (count_begun p.stats) }
        → Works p
            (record { task = t; phase = fetching })
            p'
            (record { task = t; phase = done false })
    empty :
        {t : PrefetchTask} {p' : Pool} (body : List ℕ)
        → s3.get_object (get_request p t) ≡ some body
        → (length (take t.size body) == 0) ≡ true
        → p' ≡ record p { stats = count_failure (count_begun p.stats) }
        → Works p
            (record { task = t; phase = fetching })
            p'
            (record { task = t; phase = done false })
    answered :
        {t : PrefetchTask} {p' : Pool} {bytes : List ℕ} (body : List ℕ)
        → s3.get_object (get_request p t) ≡ some body
        → (length (take t.size body) == 0) ≡ false
        → bytes ≡ take t.size body
        → p' ≡ record p { stats = count_begun p.stats }
        → Works p
            (record { task = t; phase = fetching })
            p'
            (record { task = t; phase = holding bytes })
    evicted :
        {t : PrefetchTask} {p' : Pool} {bytes : List ℕ} (cache : CacheManager)
        → evict_if_needed p.cache (length bytes) ≡ some cache
        → p' ≡ record p { cache = cache }
        → Works p
            (record { task = t; phase = holding bytes })
            p'
            (record { task = t; phase = storing bytes })
    stored :
        {t : PrefetchTask} {p' : Pool} {bytes : List ℕ} (now : ℕ)
        → now < uint64_max
        → p.cache.current_size + length bytes < size_mod
        → p' ≡ record p {
          cache = store_chunk p.cache t.s3_key t.offset bytes (zone_of t.priority) now;
          stats = count_success p.stats (length bytes);
        }
        → Works p
            (record { task = t; phase = storing bytes })
            p'
            (record { task = t; phase = done true })

  pub data CrewStep (c c' : Crew) : Type 0 where
    -- A step of another part, or a whole round of a worker.
    others : Step s3 c.context c'.context → c'.running ≡ c.running → CrewStep c c'
    -- A worker takes a task.
    takes :
        (top : QueueItem PrefetchTask) (rest : ThreadSafeQueue PrefetchTask)
        → c.context.pool.shutdown_flag ≡ false
        → c.context.pool.working ≡ true
        → pop c.context.pool.task_queue ≡ popped top rest
        → c'.context ≡ record c.context { pool = record c.context.pool { task_queue = rest } }
        → c'.running ≡ record { task = top.item; phase = fetching } ∷ c.running
        → CrewStep c c'
    -- One of the workers goes on.
    goes_on :
        (before after : List Running) (r r' : Running) (p : Pool)
        → c.running ≡ before ++ r ∷ after
        → Works c.context.pool r p r'
        → c'.context ≡ record c.context { pool = p }
        → c'.running ≡ before ++ r' ∷ after
        → CrewStep c c'
    -- One of the workers sets the promise of its task.
    keeps :
        (before after : List Running) (t : PrefetchTask) (ok : Bool)
        → c.running ≡ before ++ record { task = t; phase = done ok } ∷ after
        → c'.context ≡ record c.context {
          pool = record c.context.pool {
            completed = (t.completion, ok) ∷ c.context.pool.completed;
          };
        }
        → c'.running ≡ before ++ after
        → CrewStep c c'

  pub data CrewReach (c : Crew) : Crew → Type 0 where
    here : CrewReach c c
    next : {d e : Crew} → CrewReach c d → CrewStep d e → CrewReach c e

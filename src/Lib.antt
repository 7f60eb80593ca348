-- ===== src/Lib.antt =====
-- Valkyrie-FS: a read-only FUSE filesystem over an S3 bucket, with a cache of chunks in memory and a
-- predictor that prefetches files.
--
-- A file system call becomes an operation on `FuseContext` (src/fuse_ops.cpp). `read` asks the cache
-- (src/cache_manager.cpp) for the chunk at an offset; where it is missing, `read` submits a task of
-- the highest priority to the worker pool (src/s3_worker_pool.cpp) and waits for its promise. The
-- pool's workers take tasks from a queue with priorities (src/thread_safe_queue.hpp), fetch ranges of
-- objects with the AWS client and insert them into the cache, which evicts files to make room. `open`
-- notes the key for the predictor (src/predictor.cpp), whose loop submits the files that a manifest
-- or a numbered name says will come next. `readdir` lists the bucket and keeps names and sizes.
-- src/config.cpp reads the command line, src/main.cpp makes the context and runs FUSE on it.
--
-- The files:
--   Base and its children: shared names, lists, association lists, tests, 64-bit arithmetic.
--   Types, Size: src/types.hpp. Numeric, Numeric/Decimal: `stoi`, `stoull` and `to_string` of the
--     standard library.
--   Config, Config/Accepts, Config/Numbers: src/config.hpp, src/config.cpp.
--   Cache and its children: src/cache_manager.hpp, src/cache_manager.cpp. `CacheManager` holds
--     `max_size_`, `current_size_`, `files_`, `hot_lru_`, `prefetch_fifo_`; each method is the function
--     of its name, with loops and locked parts as functions of their own. Invariant has the
--     well-formedness `Inv`, Eviction, Lru and Loop the evictions, Store, Insert and Capacity the
--     insertion, Access, Contents and Chunks what is read, Stats `get_stats`, Interleaving the threads,
--     Growth what a loop of insertions carries on.
--   Queue, Queue/Order, Queue/Items: src/thread_safe_queue.hpp.
--   Pool and its children: src/s3_worker_pool.hpp, src/s3_worker_pool.cpp. Keys and Range are about
--     the requests, Download, Coherent and Objects about `download_chunk`, Progress about the workers.
--   Predictor and its children: src/predictor.hpp, src/predictor.cpp. Names has
--     `predict_next_sequential`; Pattern and Padding are about it, Chain about the names a round
--     fetches with it, Manifest about `load_manifest`, Lookahead about the files that follow one of
--     the manifest, InFlight about the pending fetches.
--   Fuse and its children: src/fuse_ops.hpp, src/fuse_ops.cpp, for libfuse3. Read has `read`; Bytes
--     and Ends are about cached chunks, Fetch and Misses about others, Objects and Ranges about objects
--     of which some chunks are cached, Files and Listing about `open`, `getattr` and `readdir`.
--     Lifecycle has the threads, `init` and `destroy`, Created the constructor, Restarts and Stopped
--     what `start` and `stop` lead to, Mac the versions for macFUSE.
--   System and its children: the callbacks, the workers and the predictor on one context, in any
--     order, as a relation of steps. Tasks, Predictions and Work have what the steps keep, Invariant
--     puts them together. Reads is about what is read. Crew has several workers, each in single steps between those of the
--     others; Phases, Interleaved, Promises, Completion and Answers are about it, and Rounds relates
--     it to a round of the pool.
--   Main, Main/Outcomes: src/main.cpp.
--   Metrics, Metrics/Scrape: src/metrics_server.hpp, src/metrics_server.cpp.
--   Logger, Logger/Timestamps: src/logger.hpp, src/logger.cpp.
--   Tests and its children: runs on concrete inputs.
--
-- How the code is modelled. State is passed explicitly, and a mutex is a step that nothing
-- interrupts. The clock's reading is an argument of what reads it. A `size_t` is a natural number
-- with the wrap-around written out (`add64`, `sub64`). The AWS client is a parameter, `S3Client`: a
-- function from requests to answers. An exception is `none`, and an error of a file system call a
-- value of `Result`. The eviction loop runs on fuel for one round more than there are tracked keys,
-- the listing on the code's own bound of 1000 pages, `to_string` on the twenty digits of 64 bits,
-- `await` on one worker's round per queued task and two more; `read_from` takes fuel for the depth
-- of its recursion. Where fuel runs out, the result is `none`.
--
-- What the code calls and the repository does not hold is a parameter: the AWS client, `fuse_main`,
-- and the text of the date in the log. What the theorems ask of them is named: `Serves` is that S3
-- answers a range request, if it succeeds, with that range of the object; `RunsOnce` is that FUSE
-- starts and stops the context it is given, and does not start it again after a stop.
--
-- Not modelled: the messages on the console but for the statistics of `destroy`, `print_usage`, and
-- the setup of the AWS SDK. While a read of Fuse/Read waits, workers run whole rounds, where
-- there are workers, and `Env.late` of them after the promise has a value, before the reader resumes.
-- In System a read is several steps, and any worker may run between them, a whole round in System
-- and a single step in System/Crew. The steps within an insertion are also in Cache/Interleaving.
pub mod Base
pub mod Types
pub mod Numeric
pub mod Size
pub mod Config
pub mod Cache
pub mod Queue
pub mod Pool
pub mod Predictor
pub mod Fuse
pub mod Tests
pub mod Main
pub mod Metrics
pub mod Logger
pub mod System

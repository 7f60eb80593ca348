-- ===== src/System/Answers.antt =====
-- The cached bytes and what a read returns, in every state of the parts and several workers at work.
use mathlib.Core.List.{Perm}
use valkyrie_fs.System.Promises.{owed, owed_by}
use valkyrie_fs.Pool.Progress.{kept_promises}
use valkyrie_fs.Base.{
  true, ap, ◌∙◌, subst, inr, inl, List-cases, arith, suc, ℕ, ◌+◌, ◌*◌, ◌%◌, ◌≤◌, ◌<◌, ◌≡◌, ◌≢◌,
  false, some, Option, List, [], Text, length, take, drop, size_mod,
}
use valkyrie_fs.Types.{default_chunk_size}
use valkyrie_fs.Config.{Config}
use valkyrie_fs.Cache.{uint64_max}
use valkyrie_fs.Cache.Contents.{bytes_at}
use valkyrie_fs.Cache.Interleaving.{IsSound}
use valkyrie_fs.Queue.{QueueItem, new_queue}
use valkyrie_fs.Pool.{PrefetchTask, S3Client, Pool}
use valkyrie_fs.Pool.Objects.{Serves}
use valkyrie_fs.Fuse.{FuseContext, new_context, path_to_s3_key}
use valkyrie_fs.Fuse.Read.{ReadResult, read}
use valkyrie_fs.Fuse.Bytes.{in_chunk}
use valkyrie_fs.Fuse.Ranges.{Reads}
use valkyrie_fs.System.Tasks.{IsRight}
use valkyrie_fs.System.Invariant.{new_context-Runs}
use valkyrie_fs.System.Reads.{ready-Reads}
use valkyrie_fs.System.Crew.{Running, done, storing, holding, fetching, Phase, Crew, CrewReach}
use valkyrie_fs.System.Completion.{work_left, running_left, phase_left, crew_run}
use valkyrie_fs.System.Interleaved.{IsSafe, CrewReach-IsSafe}

idle_crew : (d : Crew) → work_left d ≡ 0 → (d.running ≡ []) × (d.context.pool.task_queue.items ≡ [])
idle_crew d e = (
  elim (List-cases d.running) [
    | inl none_left ↦ none_left
    | inr (r, rs, more) ↦ absurd (omega (arith, ap running_left more, phase_left-pos r.phase))
  ],
  elim (List-cases d.context.pool.task_queue.items) [
    | inl none_left ↦ none_left
    | inr (x, xs, more) ↦ absurd (omega (arith, ap length more))
  ],
)
  where
    phase_left-pos : (ph : Phase) → 0 < phase_left ph
    phase_left-pos fetching = omega arith
    phase_left-pos (holding bytes) = omega arith
    phase_left-pos (storing bytes) = omega arith
    phase_left-pos (done ok) = omega arith

owed-idle :
    (e : Crew)
    → e.running ≡ []
    → e.context.pool.task_queue.items ≡ []
    → owed e ≡ kept_promises e.context.pool
owed-idle e workers tasks =
    ap (λ (rs : List Running). owed_by rs e.context.pool.task_queue.items e.context.pool.completed)
      workers
    ∙ ap (λ (xs : List (QueueItem PrefetchTask)). owed_by [] xs e.context.pool.completed) tasks

-- A context without workers at work.
abbrev pub alone : FuseContext → Crew
alone c = record { context = c; running = [] }

module _ (s3 : S3Client) (objects : Text → List ℕ) (config : Config) (manifest : Option (List Text))
    (small : (k : Text) → length (objects k) + default_chunk_size ≤ size_mod)
    (serves : (k : Text) → Serves s3 config.s3_config k (objects k)) where
  reached :
      {c : FuseContext} {d : Crew}
      → new_context config manifest ≡ some c
      → CrewReach s3 (alone c) d
      → IsSafe objects config.s3_config d
  reached {c} made reach =
      let start : IsSafe objects config.s3_config (alone c) = record {
        runs = new_context-Runs objects config manifest c made;
        busy = tt;
      } in
      CrewReach-IsSafe s3 objects config.s3_config small serves reach start

  -- After any interleaving, from a newly made context, of opens, listings, requests, accesses,
  -- rounds of the predictor, starts, stops and the single steps of any number of workers (taking a
  -- task, the client's answer, making room, storing the chunk, setting the promise), the cache
  -- satisfies `Inv` and has no file with the empty key, and the bytes of a chunk that is cached at
  -- a multiple of the chunk size inside its object are the object's bytes from there on, up to the
  -- chunk size. The requests are for keys that are not empty and chunks that begin at multiples of
  -- the chunk size, accesses and stores happen with the clock below `UINT64_MAX`, stores leave the
  -- counter below 2^64, no predicted number overflows an `int`, and workers work only once they
  -- have been started. The client's successful answers have the bytes that were asked for, and the
  -- objects' sizes and a chunk more fit into a `size_t`.
  pub CrewReach-bytes :
      {c : FuseContext} {d : Crew} (key : Text) (start : ℕ) (bs : List ℕ)
      → new_context config manifest ≡ some c
      → CrewReach s3 (alone c) d
      → start % default_chunk_size ≡ 0
      → start < length (objects key)
      → bytes_at d.context.pool.cache key start ≡ some bs
      → IsSound d.context.pool.cache × (bs ≡ take default_chunk_size (drop start (objects key)))
  CrewReach-bytes key start bs made reach aligned inside e =
      let right = (reached made reach).runs.1 in
      (right.sound, right.holds key start bs aligned inside e)

  -- After any interleaving, from a newly made context, of opens, listings, requests, accesses,
  -- rounds of the predictor, starts, stops and the single steps of any number of workers (taking a
  -- task, the client's answer, making room, storing the chunk, setting the promise), where the pool
  -- is open, workers have been started, no task is queued and no worker has one, `read` of a non-
  -- empty range inside an object, under a key that is not empty, returns, where no other call and
  -- not the predictor runs meanwhile. Either it copies exactly the object's bytes of the range, and
  -- returns their number if that is below 2^31 and a negative number if not, or it returns -EIO,
  -- which it does only where the client refuses a chunk of the range. The requests are for keys
  -- that are not empty and chunks that begin at multiples of the chunk size, accesses and stores
  -- happen with the clock below `UINT64_MAX`, stores leave the counter below 2^64, no predicted
  -- number overflows an `int`, and workers work only once they have been started. The client's
  -- successful answers have the bytes that were asked for, and the objects' sizes and a chunk more
  -- fit into a `size_t`. The clock is below `UINT64_MAX`, the fuel is enough for the chunks of the
  -- range, and the counter has room for as many chunks.
  pub CrewReach-read :
      {c : FuseContext} {d : Crew} (late : ℕ) (clock : ℕ → ℕ) (fuel : ℕ) (path : Text)
      (size offset : ℕ)
      → new_context config manifest ≡ some c
      → CrewReach s3 (alone c) d
      → d.context.pool.shutdown_flag ≡ false
      → d.context.pool.working ≡ true
      → d.context.pool.task_queue ≡ new_queue
      → d.running ≡ []
      → d.context.pool.cache.current_size + fuel * default_chunk_size < size_mod
      → ((n : ℕ) → clock n < uint64_max)
      → path_to_s3_key path ≢ []
      → offset + size ≤ length (objects (path_to_s3_key path))
      → 0 < size
      → in_chunk offset + size ≤ fuel * default_chunk_size
      → (q : Pool) × (r : ReadResult) × (read
            (record { client = s3; late = late })
            clock
            fuel
            (some d.context)
            path
            size
            offset
          ≡ some (some (record d.context { pool = q }), r))
        × Reads
            (record { client = s3; late = late })
            config.s3_config
            (path_to_s3_key path)
            (objects (path_to_s3_key path))
            size
            offset
            r
  CrewReach-read {d = d} late clock fuel path size offset made reach up works empty idle room time
        named within some_size enough =
      ready-Reads (record { client = s3; late = late }) objects config.s3_config 0 small serves
        d.context clock fuel path size offset (reached made reach).runs.1 up works empty room time
        named within some_size enough

  -- After any such interleaving that leaves the pool open, where workers have been started, the
  -- counter has room for a chunk per step that is left and one more and the clock is below
  -- `UINT64_MAX`, some steps lead to a state in which no task is queued and no worker has a task,
  -- and the promises that have been set are those that had been set and, once for each task, those
  -- of the tasks that were queued or that a worker had. The cache is sound there, its bytes are
  -- right and no promise to come has a value. The requests are for keys that are not empty and
  -- chunks that begin at multiples of the chunk size, accesses and stores happen with the clock
  -- below `UINT64_MAX`, stores leave the counter below 2^64, no predicted number overflows an
  -- `int`, and workers work only once they have been started. The client's successful answers have
  -- the bytes that were asked for, and the objects' sizes and a chunk more fit into a `size_t`.
  pub CrewReach-completes :
      {c : FuseContext} {d : Crew} (now : ℕ)
      → new_context config manifest ≡ some c
      → CrewReach s3 (alone c) d
      → d.context.pool.shutdown_flag ≡ false
      → d.context.pool.working ≡ true
      → d.context.pool.cache.current_size + suc (work_left d) * default_chunk_size < size_mod
      → now < uint64_max
      → (e : Crew) × CrewReach s3 d e
        × (e.running ≡ [])
        × (e.context.pool.task_queue.items ≡ [])
        × IsRight objects config.s3_config 0 e.context.pool
        × Perm (kept_promises e.context.pool) (owed d)
  CrewReach-completes {c} {d} now made reach up works room time =
      let s = reached made reach in
      let (e, run, end, perm) =
        crew_run s3 objects config.s3_config now time small serves (work_left d) d s up works
          (omega arith) room in
      let (workers, tasks) = idle_crew e end in
      (
        e,
        run,
        workers,
        tasks,
        (CrewReach-IsSafe s3 objects config.s3_config small serves run s).runs.1,
        subst (λ (ps : List ℕ). Perm ps (owed d)) (owed-idle e workers tasks) perm,
      )

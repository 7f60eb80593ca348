-- ===== src/System/Reads.antt =====
-- What a read returns, between two steps of the parts at work.
use valkyrie_fs.Base.{
  ℕ, ◌+◌, ◌*◌, ◌≤◌, ◌<◌, ◌≡◌, ◌≢◌, subst, sym, true, false, some, List, [], Text, length, size_mod,
}
use valkyrie_fs.Types.{default_chunk_size}
use valkyrie_fs.Config.{S3Config}
use valkyrie_fs.Cache.{uint64_max}
use valkyrie_fs.Queue.{new_queue}
use valkyrie_fs.Pool.{Pool}
use valkyrie_fs.Pool.Objects.{Serves}
use valkyrie_fs.Fuse.{FuseContext, path_to_s3_key}
use valkyrie_fs.Fuse.Read.{Env, ReadResult, read}
use valkyrie_fs.Fuse.Bytes.{in_chunk}
use valkyrie_fs.Fuse.Objects.{IsServing}
use valkyrie_fs.Fuse.Ranges.{Reads, read-Reads}
use valkyrie_fs.System.Tasks.{IsRight}

-- Where the pool is open, has a worker and no task, a read returns the object's bytes.
pub ready-Reads :
    (env : Env) (objects : Text → List ℕ) (config : S3Config) (base : ℕ)
    → ((k : Text) → length (objects k) + default_chunk_size ≤ size_mod)
    → ((k : Text) → Serves env.client config k (objects k))
    → (d : FuseContext) (clock : ℕ → ℕ) (fuel : ℕ) (path : Text) (size offset : ℕ)
    → IsRight objects config base d.pool
    → d.pool.shutdown_flag ≡ false
    → d.pool.working ≡ true
    → d.pool.task_queue ≡ new_queue
    → d.pool.cache.current_size + fuel * default_chunk_size < size_mod
    → ((n : ℕ) → clock n < uint64_max)
    → path_to_s3_key path ≢ []
    → offset + size ≤ length (objects (path_to_s3_key path))
    → 0 < size
    → in_chunk offset + size ≤ fuel * default_chunk_size
    → (q : Pool) × (r : ReadResult) × (read env clock fuel (some d) path size offset
        ≡ some (some (record d { pool = q }), r))
      × Reads env config (path_to_s3_key path) (objects (path_to_s3_key path)) size offset r
ready-Reads env objects config base small serves d clock fuel path size offset right up works empty
      room time named within some_size enough =
    let key = path_to_s3_key path in
    let serving : IsServing config key (objects key) fuel d.pool = record {
      running = up;
      working = works;
      no_tasks = empty;
      fresh = right.fresh;
      sound = right.sound;
      configured = right.configured;
      holds = right.holds key;
      room = room;
    } in
    let same = sym right.configured in
    let (q, r, ran, _, reads) =
      read-Reads env clock fuel d path (objects key) size offset time named (small key)
        (subst (λ cfg. Serves env.client cfg key (objects key)) same (serves key))
        (subst (λ cfg. IsServing cfg key (objects key) fuel d.pool) same serving) within some_size
        enough in
    (q, r, ran, subst (λ cfg. Reads env cfg key (objects key) size offset r) right.configured reads)

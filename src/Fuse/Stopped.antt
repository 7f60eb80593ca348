-- ===== src/Fuse/Stopped.antt =====
-- What the callbacks of src/fuse_ops.cpp answer once the context has been stopped.
use valkyrie_fs.Base.{arith, ℕ, suc, ◌≡◌, ap, ◌∙◌, true, false, some, none, Text}
use valkyrie_fs.Cache.{CacheManager, get_chunk}
use valkyrie_fs.Queue
use valkyrie_fs.Queue.{push}
use valkyrie_fs.Pool.{Pool, submit}
use valkyrie_fs.Pool
use valkyrie_fs.Fuse.{
  FuseContext, stop, path_to_s3_key, getattr, readdir, needs_refresh, eio, err, get_worker_pool,
}
use valkyrie_fs.Fuse.Read.{Env, failed, read, fetch}
use valkyrie_fs.Fuse.Bytes.{chunk_start}
use valkyrie_fs.Fuse.Misses.{fetch_when_missing}
use valkyrie_fs.Fuse.Ends.{read_from-read}
use valkyrie_fs.Fuse.Ranges.{read_not_found}
use valkyrie_fs.Fuse.Listing.{is_root-root}
use valkyrie_fs.Fuse.Files.{root}

-- A pool that has been shut down drops a task, and the read's future has no value.
fetch_stopped :
    (env : Env) (p : Pool) (key : Text) (offset now : ℕ)
    → p.task_queue.shutdown_flag ≡ true
    → fetch env p key offset now ≡ some (record p { next_promise = suc p.next_promise }, none)
unfolding fetch submit push
fetch_stopped env p key offset now down = rw (down, fetch, submit, down)

stopped_queue :
    (c : FuseContext)
    → c.is_started ≡ true
    → c.pool.shutdown_flag ≡ false
    → ((stop c).pool.task_queue.shutdown_flag ≡ true)
      × ((stop c).pool.cache ≡ c.pool.cache)
      × (get_worker_pool (stop c) ≡ false)
      × ((stop c).dir_cache ≡ c.dir_cache)
      × ((stop c).file_sizes ≡ c.file_sizes)
unfolding stop Pool.shutdown Queue.shutdown get_worker_pool
stopped_queue c started up = ground arith

getattr-same :
    (c d : FuseContext) (path : Text)
    → d.file_sizes ≡ c.file_sizes
    → getattr (some d) path ≡ getattr (some c) path
unfolding getattr
getattr-same c d path e = rw e

readdir_stopped :
    (env : Env) (c : FuseContext) (now : ℕ)
    → get_worker_pool c ≡ false
    → needs_refresh c now ≡ true
    → readdir env.client (some c) root now ≡ (some c, err eio)
unfolding readdir
readdir_stopped env c now off stale = rw (is_root-root, stale, off)

needs_refresh-same :
    (c d : FuseContext) (now : ℕ)
    → d.dir_cache ≡ c.dir_cache
    → needs_refresh d now ≡ needs_refresh c now
needs_refresh-same c d now e = rw e

-- What a stopped context answers.
pub record Degrades (env : Env) (clock : ℕ → ℕ) (fuel : ℕ) (c : FuseContext) (path : Text)
    (size offset now : ℕ) : Type 0 where
  pub reads :
      (q : Pool) × (read env clock (suc fuel) (some (stop c)) path size offset
        ≡ some (some (record (stop c) { pool = q }), failed))
      × (q.cache ≡ c.pool.cache)
  pub lists : readdir env.client (some (stop c)) root now ≡ (some (stop c), err eio)
  pub stats : getattr (some (stop c)) path ≡ getattr (some c) path
  pub again : stop (stop c) ≡ stop c

stop-stop : (c : FuseContext) → stop (stop c) ≡ stop c
unfolding stop Pool.shutdown
stop-stop c = ground arith

-- After `stop` of a started context whose pool is open, `read` at a chunk that is not cached
-- returns -EIO, with the cache as it was, `readdir` of the root with an empty or expired directory
-- cache returns -EIO and changes nothing, `getattr` answers as before, and another `stop` changes
-- nothing.
pub stop-Degrades :
    (env : Env) (clock : ℕ → ℕ) (fuel : ℕ) (c : FuseContext) (path : Text) (size offset now : ℕ)
    → c.is_started ≡ true
    → c.pool.shutdown_flag ≡ false
    → get_chunk c.pool.cache (path_to_s3_key path) (chunk_start offset) ≡ none
    → needs_refresh c now ≡ true
    → Degrades env clock fuel c path size offset now
stop-Degrades env clock fuel c path size offset now started up missing stale =
    let (down, cache, off, dir, sizes) = stopped_queue c started up in
    let p = (stop c).pool in
    let key = path_to_s3_key path in
    let start = chunk_start offset in
    let q : Pool = record p { next_promise = suc p.next_promise } in
    let absent : get_chunk p.cache key start ≡ none =
      ap (λ (d : CacheManager). get_chunk d key start) cache ∙ missing in
    let ran = read_not_found env clock p q key size offset fuel (
      fetch_when_missing env p key start (clock fuel) absent
      ∙ fetch_stopped env p key start (clock fuel) down) in
    record {
      reads =
          (q, read_from-read env clock (suc fuel) (stop c) path size offset q failed ran, cache);
      lists = readdir_stopped env (stop c) now off (needs_refresh-same c (stop c) now dir ∙ stale);
      stats = getattr-same c (stop c) path sizes;
      again = stop-stop c;
    }

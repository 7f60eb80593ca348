-- ===== src/Fuse/Misses.antt =====
-- `read` of a chunk that is not cached.
use valkyrie_fs.Base.{ℕ, ◌≡◌, none, Text}
use valkyrie_fs.Cache.{get_chunk}
use valkyrie_fs.Pool.{Pool}
use valkyrie_fs.Fuse.Read.{Env, fetch, chunk_for}

pub fetch_when_missing :
    (env : Env) (p : Pool) (key : Text) (offset now : ℕ)
    → get_chunk p.cache key offset ≡ none
    → chunk_for env p key offset now ≡ fetch env p key offset now
unfolding chunk_for
fetch_when_missing env p key offset now e = rw (e, chunk_for)

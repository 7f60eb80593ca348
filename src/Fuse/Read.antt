-- ===== src/Fuse/Read.antt =====
-- `read` of src/fuse_ops.cpp. `clock` gives the time at each chunk. `none` is a call that has not
-- returned: out of fuel, or waiting for a promise that nobody sets.
use valkyrie_fs.Base.{
  ℕ, zero, suc, ◌+◌, ◌*◌, ◌-◌, ◌/◌, ◌%◌, ◌^◌, Bool, true, false, Option, none, some, List, ◌++◌,
  Text, ℕ_discrete, length, take, drop, ltb, if◌then◌else◌, sub64, min, ◌>>=◌,
}
use valkyrie_fs.Base.Assoc
use valkyrie_fs.Numeric.{ℤ, pos, negsuc, int_bound}
use valkyrie_fs.Types.{urgent, default_chunk_size}
use valkyrie_fs.Cache.{Chunk, get_chunk, access}
use valkyrie_fs.Pool.{S3Client, Pool, submit, worker_round}
use valkyrie_fs.Fuse.{FuseContext, path_to_s3_key}

-- What a read returns: the number of the bytes copied, -EIO, or a copy from outside the chunk's
-- buffer, whose behaviour C++ leaves undefined.
pub data ReadResult : Type 0 where
  copied : List ℕ → ReadResult
  -- The bytes copied, and an `int` that is not their number.
  miscounted : List ℕ → ℤ → ReadResult
  failed : ReadResult
  out_of_bounds : ReadResult

-- A `size_t` as an `int`.
abbrev pub to_int : ℕ → ℤ
to_int n = if ltb (n % 2 ^ 32) int_bound then pos (n % 2 ^ 32) else negsuc (2 ^ 32 - 1 - n % 2 ^ 32)

-- `return to_copy`, which makes an `int` of the number of bytes.
abbrev pub counted : List ℕ → ReadResult
counted bs = if ltb (length bs) int_bound then copied bs else miscounted bs (to_int (length bs))

abbrev pub narrowed : ReadResult → ReadResult
narrowed (copied bs) = counted bs
narrowed (miscounted bs z) = miscounted bs z
narrowed failed = failed
narrowed out_of_bounds = out_of_bounds

-- The result of the rest of the read, `bytes_read`, after some bytes: a negative number is returned
-- as it is, another one is added to the number of the bytes before.
abbrev pub prepend : List ℕ → ReadResult → ReadResult
prepend bs (copied cs) = counted (bs ++ cs)
prepend bs (miscounted cs (pos n)) = miscounted (bs ++ cs) (to_int (length bs + n))
prepend bs (miscounted cs (negsuc n)) = miscounted (bs ++ cs) (negsuc n)
prepend bs failed = failed
prepend bs out_of_bounds = out_of_bounds

-- `std::memcpy` of `to_copy` bytes from `offset` on.
abbrev pub copy : List ℕ → ℕ → ℕ → ReadResult
copy bytes offset to_copy =
    if ltb (length bytes) (offset + to_copy)
    then out_of_bounds
    else copied (take to_copy (drop offset bytes))

abbrev pub after : ReadResult → ReadResult → ReadResult
after (copied bs) r = prepend bs r
after (miscounted bs z) r = miscounted bs z
after failed r = failed
after out_of_bounds r = out_of_bounds

-- How much to copy: what is wanted or what the chunk has from `offset_in_chunk` on, which is
-- computed in `size_t`.
abbrev pub to_copy : List ℕ → ℕ → ℕ → ℕ
to_copy bytes size offset_in_chunk = min size (sub64 (length bytes) offset_in_chunk)

-- The part of `read` that has a chunk; `rest` is the recursive call for what is still wanted, and
-- `q` the state without it.
unfoldable pub copy_chunk :
    List ℕ → ℕ → ℕ → Pool → Option (Pool × ReadResult) → Option (Pool × ReadResult)
copy_chunk bytes size offset_in_chunk q rest =
    let here = copy bytes offset_in_chunk (to_copy bytes size offset_in_chunk) in
    if ltb (to_copy bytes size offset_in_chunk) size
    then elim rest [ none ↦ none | some (q', r) ↦ some (q', after here r) ]
    else some (q, narrowed here)

abbrev pub touched : Pool → Text → ℕ → ℕ → Pool
touched p s3_key chunk_offset now = record p { cache = access p.cache s3_key chunk_offset now }

-- What a read works with: the client, and the number of rounds that workers go on before the reader
-- resumes, once its promise has a value.
pub record Env : Type 0 where
  pub client : S3Client
  pub late : ℕ

module _ (env : Env) where
  -- Rounds of workers; one that has seen the shutdown does nothing more.
  unfoldable pub resume : ℕ → Pool → ℕ → Option Pool
  unfolding worker_round
  resume zero p now = some p
  resume (suc n) p now = elim (worker_round env.client p now) [
    | none ↦ none
    | some none ↦ some p
    | some (some p') ↦ resume n p' now
  ]

  -- `future.get()`, while workers run, where there are any.
  unfoldable pub await : ℕ → Pool → ℕ → ℕ → Option (Pool × Bool)
  unfolding worker_round resume
  await zero p promise now = none
  await (suc fuel) p promise now = elim (Assoc.lookup ℕ_discrete promise p.completed) [
    | some success ↦ do q ← resume env.late p now; some (q, success)
    | none ↦ elim p.working [
      | false ↦ none
      | true ↦ elim (worker_round env.client p now) [
        | none ↦ none
        | some none ↦ none
        | some (some p') ↦ await fuel p' promise now
      ]
    ]
  ]

  -- The download of a chunk that is not cached, and the second look into the cache.
  unfoldable pub fetch : Pool → Text → ℕ → ℕ → Option (Pool × Option Chunk)
  unfolding await submit get_chunk
  fetch p s3_key chunk_offset now =
      let (p', future) = submit p s3_key chunk_offset default_chunk_size urgent in
      elim future [
        | none ↦ some (p', none)
        | some promise ↦ do
          (p'', success) ← await (suc (suc (length p'.task_queue.items))) p' promise now
          some (p'', if success then get_chunk p''.cache s3_key chunk_offset else none)
      ]

  unfoldable pub chunk_for : Pool → Text → ℕ → ℕ → Option (Pool × Option Chunk)
  unfolding fetch
  chunk_for p s3_key chunk_offset now = elim (get_chunk p.cache s3_key chunk_offset) [
    | some chunk ↦ some (p, some chunk)
    | none ↦ fetch p s3_key chunk_offset now
  ]

  -- `clock` is read at each chunk; the fuel bounds the depth of the recursion.
  unfoldable pub read_from : (ℕ → ℕ) → ℕ → Pool → Text → ℕ → ℕ → Option (Pool × ReadResult)
  unfolding chunk_for access copy_chunk
  read_from clock zero p s3_key size offset = none
  read_from clock (suc fuel) p s3_key size offset =
      let chunk_offset = offset / default_chunk_size * default_chunk_size in
      let offset_in_chunk = offset % default_chunk_size in
      elim (chunk_for p s3_key chunk_offset (clock fuel)) [
        | none ↦ none
        | some (p', found) ↦ elim found [
          | none ↦ some (p', failed)
          | some chunk ↦
              let q = touched p' s3_key chunk_offset (clock fuel) in
              let copying = to_copy chunk.bytes size offset_in_chunk in
              let rest = read_from clock fuel q s3_key (size - copying) (offset + copying) in
              copy_chunk chunk.bytes size offset_in_chunk q rest
        ]
      ]

  unfoldable pub read :
      (ℕ → ℕ) → ℕ → Option FuseContext → Text → ℕ → ℕ → Option (Option FuseContext × ReadResult)
  unfolding read_from path_to_s3_key
  read clock fuel none path size offset = some (none, failed)
  read clock fuel (some c) path size offset = do
    (pool, result) ← read_from clock fuel c.pool (path_to_s3_key path) size offset
    some (some (record c { pool = pool }), result)

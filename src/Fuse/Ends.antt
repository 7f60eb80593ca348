-- ===== src/Fuse/Ends.antt =====
-- What a read does at the end of a file.
use valkyrie_fs.Fuse.{FuseContext, path_to_s3_key}
use valkyrie_fs.Fuse.Bytes.{chunk_start, in_chunk, after_copy, read_cached, copy_chunk_lem, copy_n}
use valkyrie_fs.Base.{
  ◌^◌, ℕ, zero, suc, ◌+◌, ◌<◌, ◌≡◌, refl, ap, ◌∙◌, true, Option, none, some, List, Text, length,
  ltb, lt→ltb, le→ltb, arith,
}
use valkyrie_fs.Cache.{uint64_max}
use valkyrie_fs.Cache.Invariant.{Inv}
use valkyrie_fs.Cache.Access.{access-Inv}
use valkyrie_fs.Cache.Contents.{bytes_at, bytes_at-access}
use valkyrie_fs.Pool.{Pool}
use valkyrie_fs.Fuse.Read.{Env, read, ReadResult, to_copy, out_of_bounds, read_from, touched}

pub read_from-read :
    (env : Env) (clock : ℕ → ℕ) (fuel : ℕ) (c : FuseContext) (path : Text) (size offset : ℕ)
    (q : Pool) (r : ReadResult)
    → read_from env clock fuel c.pool (path_to_s3_key path) size offset ≡ some (q, r)
    → read env clock fuel (some c) path size offset ≡ some (some (record c { pool = q }), r)
unfolding read
read_from-read env clock fuel c path size offset q r e = rw e

copy_n-none :
    (bs : List ℕ) (size j n : ℕ) (q : Pool) (rest : Option (Pool × ReadResult))
    → ltb n size ≡ true
    → rest ≡ none
    → copy_n bs size j q rest n ≡ none
copy_n-none bs size j n q rest more e = rw (more, e)

-- Where the cache satisfies `Inv`, the clock stays below `UINT64_MAX` and a cached chunk ends just
-- at the offset, short of the chunk size, no fuel is enough for a read of one byte or more: each
-- round copies nothing and starts the next one at the same place.
pub read_from-end_hangs :
    (env : Env) (clock : ℕ → ℕ) (fuel : ℕ) (p : Pool) (key : Text) (size offset : ℕ) (bs : List ℕ)
    → ((n : ℕ) → clock n < uint64_max)
    → Inv p.cache
    → bytes_at p.cache key (chunk_start offset) ≡ some bs
    → length bs ≡ in_chunk offset
    → 0 < size
    → read_from env clock fuel p key size offset ≡ none
unfolding read_from
read_from-end_hangs env clock zero p key size offset bs time v here end some_size = refl
read_from-end_hangs env clock (suc fuel) p key size offset bs time v here end some_size =
    let start = chunk_start offset in
    let next = touched p key start (clock fuel) in
    let nothing : to_copy bs size (in_chunk offset) ≡ 0 = omega (arith, end) in
    let here_again : after_copy env clock p key size offset fuel 0
        ≡ read_from env clock fuel next key size offset =
      ap (λ (k : ℕ). read_from env clock fuel next key k (offset + 0)) (omega arith)
      ∙ ap (λ (k : ℕ). read_from env clock fuel next key size k) (omega arith) in
    let same =
      ap (after_copy env clock p key size offset fuel) nothing
      ∙ here_again
      ∙ read_from-end_hangs env clock fuel next key size offset bs time
          (access-Inv p.cache key start (clock fuel) v (time fuel))
          (bytes_at-access p.cache key start (clock fuel) key start v (time fuel) ∙ here) end
          some_size in
    read_cached env clock p key size offset fuel bs here
    ∙ copy_chunk_lem bs size (in_chunk offset) next
        (after_copy env clock p key size offset fuel (to_copy bs size (in_chunk offset))) 0 nothing
    ∙ copy_n-none bs size (in_chunk offset) 0 next
        (after_copy env clock p key size offset fuel (to_copy bs size (in_chunk offset)))
        (lt→ltb 0 size some_size) same

-- Where the cached chunk of an offset ends before the offset, a read of 1 to 2^63 - 1 bytes copies
-- bytes from outside the chunk's buffer.
pub read_from-past_end :
    (env : Env) (clock : ℕ → ℕ) (fuel : ℕ) (p : Pool) (key : Text) (size offset : ℕ) (bs : List ℕ)
    → bytes_at p.cache key (chunk_start offset) ≡ some bs
    → length bs < in_chunk offset
    → 0 < size
    → size < 2 ^ 63
    → read_from env clock (suc fuel) p key size offset
      ≡ some (touched p key (chunk_start offset) (clock fuel), out_of_bounds)
read_from-past_end env clock fuel p key size offset bs here past some_size small =
    let next = touched p key (chunk_start offset) (clock fuel) in
    let rest = after_copy env clock p key size offset fuel (to_copy bs size (in_chunk offset)) in
    read_cached env clock p key size offset fuel bs here
    ∙ copy_chunk_lem bs size (in_chunk offset) next rest size (omega (arith, past))
    ∙ rw (le→ltb size size (omega arith)) (
        ap (λ (r : ReadResult). some (next, r))
          (rw (lt→ltb (length bs) (in_chunk offset + size) (omega (arith, past)))))

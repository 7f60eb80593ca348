-- ===== src/Cache/Sizes.antt =====
-- Sizes of files and of the cache, without the wrap-around of `size_t`.
use valkyrie_fs.Base.{
  ℕ, ◌%◌, ◌+◌, ◌≤◌, ◌<◌, ◌≡◌, some, List, [], ◌∷◌, Text, text_dec, ℕ_discrete, length, size_mod,
  arith,
}
use valkyrie_fs.Base.Assoc.{lookup, sum_by}
use valkyrie_fs.Cache.{Chunk, FileEntry, CacheManager, sum_chunks, calculate_file_size}

abbrev pub chunk_bytes : Chunk → ℕ
chunk_bytes c = length c.bytes

abbrev pub file_bytes : FileEntry → ℕ
file_bytes f = sum_by ℕ_discrete chunk_bytes f.chunks

abbrev pub total_bytes : CacheManager → ℕ
total_bytes c = sum_by text_dec file_bytes c.files

sum_chunks_exact :
    (total : ℕ) (cs : List (ℕ × Chunk))
    → total + sum_by ℕ_discrete chunk_bytes cs < size_mod
    → sum_chunks total cs ≡ total + sum_by ℕ_discrete chunk_bytes cs
unfolding sum_chunks sum_by
sum_chunks_exact total [] h = omega arith
sum_chunks_exact total ((o, c) ∷ cs) h =
    omega (arith, sum_chunks_exact ((total + length c.bytes) % size_mod) cs (omega arith))

-- Where the chunks fit into a `size_t`, the loop returns their sum.
pub file_size_exact :
    (f : FileEntry) → file_bytes f < size_mod → calculate_file_size f ≡ file_bytes f
unfolding calculate_file_size
file_size_exact f h = omega (arith, sum_chunks_exact 0 f.chunks (omega arith))

-- One file is no larger than all.
pub file_bytes-le-total :
    (key : Text) (f : FileEntry) (files : List (Text × FileEntry))
    → lookup text_dec key files ≡ some f
    → file_bytes f ≤ sum_by text_dec file_bytes files
unfolding lookup sum_by
file_bytes-le-total key f [] h = absurd (ground arith)
file_bytes-le-total key f ((k, g) ∷ files) h = ground (arith, file_bytes-le-total key f files)

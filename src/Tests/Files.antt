-- ===== src/Tests/Files.antt =====
-- A mounted context whose cache holds a file of three bytes.
use valkyrie_fs.Base.{
  ℕ, ◌≡◌, refl, ap, true, false, none, some, [], Text, text_dec, ℕ_discrete, codes, arith,
}
use valkyrie_fs.Base.Assoc
use valkyrie_fs.Config.{default_config}
use valkyrie_fs.Cache.{CacheManager, get_chunk}
use valkyrie_fs.Cache.Contents.{bytes_at, get_chunk-bytes_at}
use valkyrie_fs.Pool.{Pool, new_pool}
use valkyrie_fs.Fuse.{FuseContext, ok, open_file}
use valkyrie_fs.Fuse.Read.{Env, out_of_bounds, touched, read_from}
use valkyrie_fs.Fuse.Ends.{read_from-end_hangs, read_from-past_end}
use valkyrie_fs.Fuse.Files.{Opens, open_file-Opens}
use valkyrie_fs.Tests.Caches.{a, bytes_a, chunk_a, with_a, with_a_state, with_a-Inv}
use valkyrie_fs.Tests.Pools.{client, config}
use valkyrie_fs.Tests.Predictors.{predictor}

abbrev pub pool : Pool
pool = record (new_pool config with_a) { cache = with_a; working = true }

abbrev pub context : FuseContext
context = record {
  pool = pool;
  predictor = predictor;
  config = default_config;
  file_sizes = [];
  dir_cache = record { file_list = []; timestamp = 0; populated = false };
  worker_pool_ptr = true;
  is_started = true;
}

abbrev path : Text
path = codes "/a"

abbrev pub clock : ℕ → ℕ
clock n = 7

a_chunk : get_chunk with_a a 0 ≡ some chunk_a
unfolding get_chunk Assoc.lookup text_dec ℕ_discrete
a_chunk = ap (λ (c : CacheManager). get_chunk c a 0) with_a_state

a_bytes : bytes_at with_a a 0 ≡ some bytes_a
a_bytes = get_chunk-bytes_at with_a a 0 chunk_a a_chunk

abbrev pub env : Env
env = record { client = client; late = 0 }

read_from-end_hangs_example : read_from env clock 1000 pool a 4 3 ≡ none
read_from-end_hangs_example =
    read_from-end_hangs env clock 1000 pool a 4 3 bytes_a (λ n. omega arith) with_a-Inv a_bytes refl
      (omega arith)

read_from-past_end_example :
    read_from env clock 1 pool a 4 5 ≡ some (touched pool a 0 7, out_of_bounds)
read_from-past_end_example =
    read_from-past_end env clock 0 pool a 4 5 bytes_a a_bytes (omega arith) (omega arith)
      (omega arith)

open_file-Opens_example :
    (c : FuseContext) × (open_file (some context) path 0 ≡ (some c, ok tt)) × Opens context path c
unfolding text_dec
open_file-Opens_example = open_file-Opens context path 0 refl refl

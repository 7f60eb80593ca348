-- ===== src/Tests/Objects.antt =====
-- A read of an object of six bytes that is not cached.
use valkyrie_fs.Base.{
  subst, ◌≡◌, refl, sym, ap, none, some, Text, codes, text_dec, ℕ_discrete, arith,
}
use valkyrie_fs.Base.Assoc
use valkyrie_fs.Cache.{CacheManager, find_file}
use valkyrie_fs.Cache.Contents.{bytes_at-none}
use valkyrie_fs.Pool.{Pool, new_pool}
use valkyrie_fs.Fuse.{path_to_s3_key}
use valkyrie_fs.Fuse.Read.{Env, read, ReadResult}
use valkyrie_fs.Fuse.Objects.{IsServing}
use valkyrie_fs.Fuse.Ranges.{Reads, read-Reads}
use valkyrie_fs.Pool.Objects.{Holds}
use valkyrie_fs.Tests.Caches.{with_a, with_a_state, with_a-Inv, no_name_a, size_a}
use valkyrie_fs.Tests.Buckets.{bucket, bucket-Serves, letters}
use valkyrie_fs.Tests.Files.{context, pool, clock}

abbrev b : Text
b = codes "b"

no_b : find_file b with_a ≡ none
unfolding Assoc.lookup text_dec ℕ_discrete
no_b = ap (λ (c : CacheManager). find_file b c) with_a_state

b_of_path : path_to_s3_key (codes "/b") ≡ b
unfolding path_to_s3_key
b_of_path = refl

holds : Holds with_a b letters
holds start bs aligned inside e = absurd (cc (bytes_at-none with_a b start no_b, e))

serving : IsServing pool.config b letters 1 pool
unfolding new_pool Assoc.lookup
serving = record {
  running = refl;
  working = refl;
  no_tasks = refl;
  fresh = λ k h. refl;
  sound = record { inv = with_a-Inv; named = no_name_a };
  configured = refl;
  holds = holds;
  room = omega (arith, size_a);
}

abbrev env : Env
env = record { client = bucket; late = 2 }

read-Reads_example :
    (q : Pool) × (r : ReadResult) × (read env clock 1 (some context) (codes "/b") 4 1
      ≡ some (some (record context { pool = q }), r))
    × IsServing pool.config (path_to_s3_key (codes "/b")) letters 0 q
    × Reads env pool.config (path_to_s3_key (codes "/b")) letters 4 1 r
read-Reads_example =
    read-Reads env clock 1 context (codes "/b") letters 4 1 (λ n. omega arith)
      (λ e. absurd (cc (b_of_path, e))) (omega arith)
      (bucket-Serves pool.config (path_to_s3_key (codes "/b")))
      (subst (λ (k : Text). IsServing pool.config k letters 1 pool) (sym b_of_path) serving)
      (omega arith) (omega arith) (omega arith)

-- ===== src/Tests/Pools.antt =====
-- A client with one object, and a pool with an empty cache.
use valkyrie_fs.Base.Assoc
use valkyrie_fs.Base.{
  ◌+◌, ◌≡◌, ◌⊎◌, refl, Bool, true, false, none, some, List, [], ◌∷◌, codes, arith, ite, text_dec,
  ◌≢◌, Text, ◌++◌,
}
use valkyrie_fs.Types.{urgent}
use valkyrie_fs.Config.{S3Config}
use valkyrie_fs.Cache.{new_cache, find_file}
use valkyrie_fs.Cache.Invariant.{Inv, new_cache-Inv}
use valkyrie_fs.Pool.{
  count_failure, S3Client, ListRequest, ListResult, GetObjectRequest, ObjectInfo, PrefetchTask,
  Pool, new_pool, get_full_key, relative_key, list_objects, download_chunk,
}
use valkyrie_fs.Pool.Keys.{last, more, relative_key-get_full_key, list_objects-Listing}
use valkyrie_fs.Pool.Download.{
  Downloaded, Refused, download_chunk-cases, IsBalanced, download_chunk-IsBalanced,
}

abbrev object : ObjectInfo
object = record { key = codes "data/a"; size = 3 }

abbrev page : ListResult
page = record { contents = object ∷ []; is_truncated = false; next_token = [] }

abbrev pub client : S3Client
client = record {
  get_object = λ (r : GetObjectRequest). some (1 ∷ 2 ∷ 3 ∷ []);
  list_objects_v2 = λ (r : ListRequest). some (record {
    contents = record { key = codes "data/a"; size = 3 } ∷ [];
    is_truncated = false;
    next_token = [];
  });
}

abbrev pub config : S3Config
config = record { bucket = codes "b"; region = codes "eu"; prefix = codes "data" }

abbrev pool : Pool
pool = new_pool config (new_cache 10)

abbrev task : PrefetchTask
task = record { s3_key = codes "a"; offset = 0; size = 3; priority = urgent; completion = 0 }

relative_key-get_full_key_example :
    relative_key config (get_full_key config (codes "a")) ≡ codes "a"
relative_key-get_full_key_example = relative_key-get_full_key config (codes "a")

abbrev pub listed : List ObjectInfo
listed = record { key = codes "a"; size = 3 } ∷ []

pub client_lists : list_objects client config ≡ some listed
client_lists = list_objects-Listing client config 1 listed (last page refl refl refl) (omega arith)

-- A client with two pages, which answers only for the prefix and the tokens that it has given.
abbrev two_pages : S3Client
two_pages = record {
  get_object = λ (r : GetObjectRequest). none;
  list_objects_v2 = λ (r : ListRequest).
      ite (text_dec (r.prefix ++ r.token) (codes "data/"))
        (some (record {
          contents = record { key = codes "data/a"; size = 3 } ∷ [];
          is_truncated = true;
          next_token = codes "t";
        }))
        (some (record {
          contents = record { key = codes "data/b"; size = 4 } ∷ [];
          is_truncated = false;
          next_token = [];
        }));
}

t_named : ◌≢◌ {A = Text} (codes "t") []
t_named e = cc

list_objects-Listing_example :
    list_objects two_pages config
    ≡ some (record { key = codes "a"; size = 3 } ∷ record { key = codes "b"; size = 4 } ∷ [])
unfolding text_dec
list_objects-Listing_example =
    list_objects-Listing two_pages config 2
      (record { key = codes "a"; size = 3 } ∷ record { key = codes "b"; size = 4 } ∷ [])
      (more (record { key = codes "a"; size = 3 } ∷ [])
        (record {
          contents = record { key = codes "data/a"; size = 3 } ∷ [];
          is_truncated = true;
          next_token = codes "t";
        })
        refl refl refl t_named
        (last
          (record {
            contents = record { key = codes "data/b"; size = 4 } ∷ [];
            is_truncated = false;
            next_token = [];
          })
          refl refl refl))
      (omega arith)

pool-Inv : Inv pool.cache
unfolding new_pool
pool-Inv = new_cache-Inv 10

pool_unnamed : find_file [] pool.cache ≡ none
unfolding new_pool new_cache Assoc.lookup
pool_unnamed = refl

pool_size : pool.cache.current_size ≡ 0
unfolding new_pool new_cache
pool_size = refl

download_chunk-cases_example :
    (p : Pool) × (ok : Bool) × (download_chunk client pool task 5 ≡ some (p, ok))
    × Inv p.cache
    × (((ok ≡ true) × Downloaded client pool task 5 p)
        ⊎ ((ok ≡ false) × Refused client pool task × (p.cache ≡ pool.cache)))
download_chunk-cases_example =
    download_chunk-cases client pool task 5 pool-Inv pool_unnamed (omega arith)
      (omega (arith, pool_size))

-- The client refuses.
abbrev refusing : S3Client
refusing = record {
  get_object = λ (r : GetObjectRequest). none;
  list_objects_v2 = λ (r : ListRequest). none;
}

abbrev failed : Pool
failed = record pool {
  stats = record {
    total_downloads = 1;
    successful_downloads = 0;
    failed_downloads = 1;
    bytes_downloaded = 0;
  };
}

ran : download_chunk refusing pool task 5 ≡ some (failed, false)
unfolding download_chunk new_pool count_failure
ran = refl

balanced : IsBalanced pool.stats
unfolding new_pool
balanced = refl

total : pool.stats.total_downloads ≡ 0
unfolding new_pool
total = refl

download_chunk-IsBalanced_example :
    IsBalanced failed.stats × (failed.stats.total_downloads ≡ pool.stats.total_downloads + 1)
download_chunk-IsBalanced_example =
    download_chunk-IsBalanced refusing pool failed task 5 false ran balanced (omega (arith, total))

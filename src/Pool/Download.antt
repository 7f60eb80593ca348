-- ===== src/Pool/Download.antt =====
-- `download_chunk` on every branch, what a worker does with a task, and the counters.
use valkyrie_fs.Base.{
  ℕ, ◌+◌, ◌<◌, ◌≡◌, ◌≢◌, ◌⊎◌, inl, inr, refl, ◌∙◌, Bool, true, false, none, some, Option-cases,
  Bool-cases, List, [], ◌∷◌, length, length-take, take, arith, size_mod, add64, ◌==◌,
}
use valkyrie_fs.Cache.{CacheManager, new_chunk, find_file, get_chunk, insert_chunk, uint64_max}
use valkyrie_fs.Cache.Invariant.{Inv}
use valkyrie_fs.Cache.Capacity.{insert_chunk-get_chunk}
use valkyrie_fs.Pool.{
  S3Client, PrefetchTask, Pool, Stats, get_request, count_failure, count_success, store_body,
  zone_of, download_chunk,
}

-- The chunk that a download leaves in the cache.
abbrev pub Downloaded : S3Client → Pool → PrefetchTask → ℕ → Pool → Type 0
Downloaded s3 p task now p' =
    (body : List ℕ) × (s3.get_object (get_request p task) ≡ some body)
    × (take task.size body ≢ [])
    × (get_chunk p'.cache task.s3_key task.offset ≡ some (new_chunk (take task.size body) now))

-- The client refuses, or its answer has no byte of what was asked for.
abbrev pub Refused : S3Client → Pool → PrefetchTask → Type 0
Refused s3 p task =
    (s3.get_object (get_request p task) ≡ none)
    ⊎ ((body : List ℕ) × (s3.get_object (get_request p task) ≡ some body)
        × (take task.size body ≡ []))

length-zero : (bs : List ℕ) → (length bs == 0) ≡ true → bs ≡ []
length-zero [] h = refl
length-zero (b ∷ bs) h = ground arith

length-pos : (bs : List ℕ) → (length bs == 0) ≡ false → bs ≢ []
length-pos [] h e = ground arith
length-pos (b ∷ bs) h e = cc

abbrev pub begun : Pool → Pool
begun p = record p { stats = record p.stats { total_downloads = add64 p.stats.total_downloads 1 } }

module _ (s3 : S3Client) (p : Pool) (task : PrefetchTask) (now : ℕ) where
  pub download_refused :
      s3.get_object (get_request p task) ≡ none
      → download_chunk s3 p task now
        ≡ some (record (begun p) { stats = count_failure (begun p).stats }, false)
  unfolding download_chunk
  download_refused e = rw (e, download_chunk)

  pub download_body :
      (body : List ℕ)
      → s3.get_object (get_request p task) ≡ some body
      → download_chunk s3 p task now ≡ store_body (begun p) task (take task.size body) now
  unfolding download_chunk
  download_body body e = rw (e, download_chunk)

pub store_empty :
    (p : Pool) (task : PrefetchTask) (bytes : List ℕ) (now : ℕ)
    → (length bytes == 0) ≡ true
    → store_body p task bytes now ≡ some (record p { stats = count_failure p.stats }, false)
unfolding store_body
store_empty p task bytes now e = rw (e, store_body)

pub store_some :
    (p : Pool) (task : PrefetchTask) (bytes : List ℕ) (now : ℕ) (cache : CacheManager)
    → (length bytes == 0) ≡ false
    → insert_chunk p.cache task.s3_key task.offset bytes (zone_of task.priority) now ≡ some cache
    → store_body p task bytes now
      ≡ some (record p { cache = cache; stats = count_success p.stats (length bytes) }, true)
unfolding store_body
store_some p task bytes now cache e ran = rw (e, store_body, ran)

module _ (s3 : S3Client) (p : Pool) (task : PrefetchTask) (now : ℕ) (v : Inv p.cache)
    (named : find_file [] p.cache ≡ none) (time : now < uint64_max)
    (fits : p.cache.current_size + task.size < size_mod) where
  -- Where the cache satisfies `Inv` and has no file with the empty key, the clock has not reached
  -- `UINT64_MAX`, and the counter and the task's size together fit into a `size_t`,
  -- `download_chunk` ends and keeps `Inv`. Either it reports success, the client has answered with
  -- a body that is not empty once it is cut to the size asked for, and the chunk so cut is in the
  -- cache, or it reports failure, the client has refused or sent no byte, and the cache is as it
  -- was.
  pub download_chunk-cases :
      (p' : Pool) × (ok : Bool) × (download_chunk s3 p task now ≡ some (p', ok))
      × Inv p'.cache
      × (((ok ≡ true) × Downloaded s3 p task now p')
          ⊎ ((ok ≡ false) × Refused s3 p task × (p'.cache ≡ p.cache)))
  download_chunk-cases = elim (Option-cases (s3.get_object (get_request p task))) [
    | inl refused ↦
        (_, false, download_refused s3 p task now refused, v, inr (refl, inl refused, refl))
    | inr (body, answer) ↦ elim (Bool-cases (length (take task.size body) == 0)) [
      | inl no_bytes ↦ (
        _,
        false,
        download_body s3 p task now body answer
            ∙ store_empty (begun p) task (take task.size body) now no_bytes,
        v,
        inr (refl, inr (body, answer, length-zero (take task.size body) no_bytes), refl),
      )
      | inr some_bytes ↦
          let (cache, ran, w, limit, here) =
            insert_chunk-get_chunk p.cache task.s3_key task.offset (take task.size body)
              (zone_of task.priority) now v named time
              (omega (arith, length-take task.size body)) in
          (
            _,
            true,
            download_body s3 p task now body answer
                ∙ store_some (begun p) task (take task.size body) now cache some_bytes ran,
            w,
            inl (refl, (body, answer, length-pos (take task.size body) some_bytes, here)),
          )
    ]
  ]

-- Every download that was begun has succeeded or failed.
abbrev pub IsBalanced : Stats → Type 0
IsBalanced s = s.successful_downloads + s.failed_downloads ≡ s.total_downloads

-- A download that ends keeps the successes and the failures adding up to the downloads, and counts
-- one download more, whatever the client answers, if they added up before and the counter of
-- downloads does not wrap.
pub download_chunk-IsBalanced :
    (s3 : S3Client) (p p' : Pool) (task : PrefetchTask) (now : ℕ) (ok : Bool)
    → download_chunk s3 p task now ≡ some (p', ok)
    → IsBalanced p.stats
    → p.stats.total_downloads + 1 < size_mod
    → IsBalanced p'.stats × (p'.stats.total_downloads ≡ p.stats.total_downloads + 1)
unfolding download_chunk store_body count_failure count_success
download_chunk-IsBalanced s3 p p' task now ok e b h = ground arith

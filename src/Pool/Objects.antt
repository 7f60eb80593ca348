-- ===== src/Pool/Objects.antt =====
-- `download_chunk` for a chunk of an object that the bucket holds.
use valkyrie_fs.Base.{
  ==_iff, min, take-drop-take, Option-cases, ℕ, suc, ◌+◌, ◌-◌, ◌%◌, ◌≤◌, ◌<◌, ◌≡◌, ◌≢◌, ◌⊎◌, inl,
  inr, refl, sym, ap, ◌∙◌, Bool, true, false, none, some, Option, List, [], ◌++◌, Text, codes,
  length, length-take, length-drop, take, drop, arith, size_mod, add64, sub64, ◌==◌, Bool-cases,
}
use valkyrie_fs.Types.{default_chunk_size, Priority}
use valkyrie_fs.Numeric.{to_string}
use valkyrie_fs.Config.{S3Config}
use valkyrie_fs.Cache.{CacheManager, new_chunk, get_chunk, uint64_max}
use valkyrie_fs.Cache.Contents.{bytes_at}
use valkyrie_fs.Cache.Chunks.{insert_chunk-Origin}
use valkyrie_fs.Cache.Interleaving.{IsSound}
use valkyrie_fs.Cache.Growth.{insert_chunk-Grows}
use valkyrie_fs.Pool.{
  store_body, S3Client, GetObjectRequest, PrefetchTask, Pool, get_full_key, get_request, zone_of,
  download_chunk,
}
use valkyrie_fs.Pool.Download.{begun, download_refused, download_body, store_some}

-- The request for the bytes from `first` to `last`.
abbrev pub range_request : S3Config → Text → ℕ → ℕ → GetObjectRequest
range_request config key first last = record {
  bucket = config.bucket;
  key = get_full_key config key;
  range = codes "bytes=" ++ to_string first ++ codes "-" ++ to_string last;
}

-- What S3 documents of a range request that begins inside an object: an answer that succeeds has
-- the bytes of the range, as far as the object goes.
abbrev pub Serves : S3Client → S3Config → Text → List ℕ → Type 0
Serves s3 config key obj =
    (first last : ℕ) (body : List ℕ)
    → first ≤ last
    → first < length obj
    → last < size_mod
    → s3.get_object (range_request config key first last) ≡ some body
    → body ≡ take (suc last - first) (drop first obj)

-- Each cached chunk of the key that starts at a multiple of the chunk size inside the object holds
-- the object's bytes.
abbrev pub Holds : CacheManager → Text → List ℕ → Type 0
Holds c key obj =
    (start : ℕ) (bs : List ℕ)
    → start % default_chunk_size ≡ 0
    → start < length obj
    → bytes_at c key start ≡ some bs
    → bs ≡ take default_chunk_size (drop start obj)

-- What a download does not touch.
pub record Leaves (p q : Pool) : Type 0 where
  pub config : q.config ≡ p.config
  pub queue : q.task_queue ≡ p.task_queue
  pub running : q.shutdown_flag ≡ p.shutdown_flag
  pub promise : q.next_promise ≡ p.next_promise
  pub values : q.completed ≡ p.completed
  pub working : q.working ≡ p.working

-- The task for a chunk.
abbrev pub chunk_task : Text → ℕ → Priority → ℕ → PrefetchTask
chunk_task key start priority promise = record {
  s3_key = key;
  offset = start;
  size = default_chunk_size;
  priority = priority;
  completion = promise;
}

abbrev pub chunk_request : S3Config → Text → ℕ → GetObjectRequest
chunk_request config key start = range_request config key start (start + default_chunk_size - 1)

pub get_request_lem :
    (p : Pool) (key : Text) (start : ℕ) (priority : Priority) (promise : ℕ)
    → start + default_chunk_size ≤ size_mod
    → get_request p (chunk_task key start priority promise) ≡ chunk_request p.config key start
unfolding get_request
get_request_lem p key start priority promise fits =
    let last : sub64 (add64 start default_chunk_size) 1 ≡ start + default_chunk_size - 1 =
      omega arith in
    ap
      (λ (n : ℕ). record {
        bucket = p.config.bucket;
        key = get_full_key p.config key;
        range = codes "bytes=" ++ to_string start ++ codes "-" ++ to_string n;
      })
      last

-- A download's outcome: the object's chunk is cached, or the client has refused.
abbrev pub Outcome : S3Client → Pool → Text → List ℕ → ℕ → ℕ → Pool → Bool → Type 0
Outcome s3 p key obj start now q ok =
    ((ok ≡ true)
      × (get_chunk q.cache key start
          ≡ some (new_chunk (take default_chunk_size (drop start obj)) now)))
    ⊎ ((ok ≡ false) × (s3.get_object (chunk_request p.config key start) ≡ none))

pub record Fetches (s3 : S3Client) (p : Pool) (key : Text) (obj : List ℕ) (start now : ℕ) (q : Pool)
    (ok : Bool) : Type 0 where
  pub sound : IsSound q.cache
  pub size : q.cache.current_size ≤ p.cache.current_size + default_chunk_size
  pub holds : Holds q.cache key obj
  pub leaves : Leaves p q
  pub outcome : Outcome s3 p key obj start now q ok

same_option : {A : Type 0} {o : Option A} {x y : A} → o ≡ some x → o ≡ some y → x ≡ y
same_option a b = cc

pub cut :
    (obj : List ℕ) (start : ℕ)
    → take default_chunk_size (take (suc (start + default_chunk_size - 1) - start) (drop start obj))
      ≡ take default_chunk_size (drop start obj)
cut obj start =
    let whole : suc (start + default_chunk_size - 1) - start ≡ default_chunk_size = omega arith in
    ap (λ (n : ℕ). take default_chunk_size (take n (drop start obj))) whole
    ∙ take-drop-take 0 default_chunk_size default_chunk_size (drop start obj) (omega arith)

module _ (s3 : S3Client) (p : Pool) (key : Text) (obj : List ℕ) (start now : ℕ)
    (priority : Priority) (promise : ℕ) (s : IsSound p.cache) (named : key ≢ [])
    (time : now < uint64_max) (fits : p.cache.current_size + default_chunk_size < size_mod)
    (small : length obj + default_chunk_size ≤ size_mod) (inside : start < length obj)
    (aligned : start % default_chunk_size ≡ 0) (serves : Serves s3 p.config key obj)
    (holds : Holds p.cache key obj) where
  abbrev task : PrefetchTask
  task = chunk_task key start priority promise

  abbrev slice : List ℕ
  slice = take default_chunk_size (drop start obj)

  slice-length : (length slice == 0) ≡ false
  slice-length =
      let size =
        length-take default_chunk_size (drop start obj)
        ∙ ap (min default_chunk_size) (length-drop start obj) in
      elim (Bool-cases (length slice == 0)) [
        | inl e ↦ absurd (omega (arith, size, (==_iff (length slice) 0).0 e))
        | inr e ↦ e
      ]

  request : get_request p task ≡ chunk_request p.config key start
  request = get_request_lem p key start priority promise (omega arith)

  refused :
      s3.get_object (get_request p task) ≡ none
      → (q : Pool) × (ok : Bool) × (download_chunk s3 p task now ≡ some (q, ok))
        × Fetches s3 p key obj start now q ok
  refused e = (
    _,
    false,
    download_refused s3 p task now e,
    record {
      sound = s;
      size = omega arith;
      holds = holds;
      leaves = record {
        config = refl;
        queue = refl;
        running = refl;
        promise = refl;
        values = refl;
        working = refl;
      };
      outcome = inr (refl, ap s3.get_object (sym request) ∙ e);
    },
  )

  answered :
      (body : List ℕ)
      → s3.get_object (get_request p task) ≡ some body
      → (q : Pool) × (ok : Bool) × (download_chunk s3 p task now ≡ some (q, ok))
        × Fetches s3 p key obj start now q ok
  answered body e =
      let right =
        serves start (start + default_chunk_size - 1) body (omega arith) inside (omega arith)
          (ap s3.get_object (sym request) ∙ e) in
      let bytes : take default_chunk_size body ≡ slice =
        ap (take default_chunk_size) right ∙ cut obj start in
      let zone = zone_of priority in
      let room : p.cache.current_size + length slice < size_mod =
        omega (arith, length-take default_chunk_size (drop start obj)) in
      let (cache, ran, g) = insert_chunk-Grows p.cache key start slice zone now s named time room in
      (
        _,
        true,
        download_body s3 p task now body e
            ∙ ap (λ (bs : List ℕ). store_body (begun p) task bs now) bytes
            ∙ store_some (begun p) task slice now cache slice-length ran,
        record {
          sound = g.sound;
          size = omega (arith, g.size, length-take default_chunk_size (drop start obj));
          holds = λ at bs a i here.
              elim (insert_chunk-Origin p.cache cache key start slice zone now key at bs s.inv
                s.named time room ran here) [
                  | inl (_, same, new) ↦
                      new ∙ ap (λ (n : ℕ). take default_chunk_size (drop n obj)) (sym same)
                  | inr before ↦ holds at bs a i before
                ];
          leaves = record {
            config = refl;
            queue = refl;
            running = refl;
            promise = refl;
            values = refl;
            working = refl;
          };
          outcome = inl (refl, g.cached);
        },
      )

  -- Where the cache is sound and each of its chunks of the object is right, a download of a chunk
  -- inside the object ends, and caches the object's bytes or has been refused.
  pub download_chunk-Fetches :
      (q : Pool) × (ok : Bool) × (download_chunk s3 p task now ≡ some (q, ok))
      × Fetches s3 p key obj start now q ok
  download_chunk-Fetches = elim (Option-cases (s3.get_object (get_request p task))) [
    | inl e ↦ refused e
    | inr (body, e) ↦ answered body e
  ]

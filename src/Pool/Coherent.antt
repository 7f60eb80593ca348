-- ===== src/Pool/Coherent.antt =====
-- The bytes that downloads leave in the cache, against the bucket's objects.
use valkyrie_fs.Base.{
  Option, ℕ, ◌+◌, ◌<◌, ◌≡◌, inl, inr, sym, ap, ◌∙◌, Bool, none, some, Option-cases, Bool-cases,
  List, [], Text, length, length-take, take, drop, arith, size_mod, ◌==◌, subst,
}
use valkyrie_fs.Cache.{CacheManager, find_file, uint64_max}
use valkyrie_fs.Cache.Invariant.{Inv}
use valkyrie_fs.Cache.Contents.{bytes_at}
use valkyrie_fs.Cache.Capacity.{insert_chunk-get_chunk}
use valkyrie_fs.Cache.Chunks.{Origin, insert_chunk-Origin}
use valkyrie_fs.Pool.{S3Client, PrefetchTask, Pool, get_request, zone_of, download_chunk}
use valkyrie_fs.Pool.Download.{begun, download_refused, download_body, store_empty, store_some}

-- The client, if it answers the task's request, answers with bytes that begin like the object from
-- the task's offset on.
abbrev pub IsServed : S3Client → (Text → List ℕ) → Pool → PrefetchTask → Type 0
IsServed s3 objects p task =
    (body : List ℕ)
    → s3.get_object (get_request p task) ≡ some body
    → take task.size body ≡ take task.size (drop task.offset (objects task.s3_key))

-- Every cached chunk holds its object's bytes from the chunk's offset on.
abbrev pub IsCoherent : (Text → List ℕ) → CacheManager → Type 0
IsCoherent objects c =
    (k : Text) (start : ℕ) (bs : List ℕ)
    → bytes_at c k start ≡ some bs
    → (n : ℕ) × (bs ≡ take n (drop start (objects k)))

Origin-IsCoherent :
    (objects : Text → List ℕ) (c : CacheManager) (key : Text) (offset n : ℕ) (bytes : List ℕ)
    (k : Text) (start : ℕ) (bs : List ℕ)
    → IsCoherent objects c
    → bytes ≡ take n (drop offset (objects key))
    → Origin c key offset bytes k start bs
    → (m : ℕ) × (bs ≡ take m (drop start (objects k)))
Origin-IsCoherent objects c key offset n bytes k start bs old right
      (inl (same_key, same_start, new)) =
    (n, rw (same_key, same_start) (new ∙ right))
Origin-IsCoherent objects c key offset n bytes k start bs old right (inr before) =
    old k start bs before

same_cache :
    {p q : Pool} {a b : Bool}
    → ◌≡◌ {A = Option (Pool × Bool)} (some (p, a)) (some (q, b))
    → p.cache ≡ q.cache
same_cache {p} e =
    ap (λ (o : Option (Pool × Bool)). elim o [ none ↦ p.cache | some x ↦ x.0.cache ]) e

-- Where the cache satisfies `Inv` and has no file with the empty key, the clock has not reached
-- `UINT64_MAX`, the counter and the task's size together fit into a `size_t`, every cached chunk
-- holds its object's bytes from the chunk's offset on, and the client, if it answers the task's
-- request, answers with bytes that begin like the object from the task's offset on, every chunk
-- that is cached after a `download_chunk` that ends, whatever it reports, holds its object's bytes
-- from its offset on.
pub download_chunk-IsCoherent :
    (s3 : S3Client) (objects : Text → List ℕ) (p p' : Pool) (task : PrefetchTask) (now : ℕ)
    (ok : Bool)
    → Inv p.cache
    → find_file [] p.cache ≡ none
    → now < uint64_max
    → p.cache.current_size + task.size < size_mod
    → IsServed s3 objects p task
    → IsCoherent objects p.cache
    → download_chunk s3 p task now ≡ some (p', ok)
    → IsCoherent objects p'.cache
download_chunk-IsCoherent s3 objects p p' task now ok v named time fits served old ran =
    elim (Option-cases (s3.get_object (get_request p task))) [
      | inl refused ↦
          subst (IsCoherent objects)
            (same_cache (sym (download_refused s3 p task now refused) ∙ ran)) old
      | inr (body, answer) ↦
          let bytes = take task.size body in
          let stored = download_body s3 p task now body answer in
          elim (Bool-cases (length bytes == 0)) [
            | inl no_bytes ↦
                subst (IsCoherent objects)
                  (same_cache (sym (stored ∙ store_empty (begun p) task bytes now no_bytes) ∙ ran))
                  old
            | inr some_bytes ↦
                let zone = zone_of task.priority in
                let room : p.cache.current_size + length bytes < size_mod =
                  omega (arith, length-take task.size body) in
                let (cache, inserted, _, _, _) =
                  insert_chunk-get_chunk p.cache task.s3_key task.offset bytes zone now v named time
                    room in
                subst (IsCoherent objects)
                  (same_cache (
                    sym (stored ∙ store_some (begun p) task bytes now cache some_bytes inserted)
                    ∙ ran))
                  (λ k start bs e.
                    Origin-IsCoherent objects p.cache task.s3_key task.offset task.size bytes k
                      start bs old (served body answer)
                      (insert_chunk-Origin p.cache cache task.s3_key task.offset bytes zone now k
                        start bs v named time room inserted e))
          ]
    ]

-- ===== src/System/Rounds.antt =====
-- A worker's whole round as a sequence of its steps.
use valkyrie_fs.Base.{
  ℕ, ◌+◌, ◌<◌, ◌≡◌, refl, ◌∙◌, Bool, true, false, some, List, length, length-take, take, arith,
  size_mod, Option-cases, Bool-cases, inl, inr, ◌==◌,
}
use valkyrie_fs.Cache.{CacheManager, evict_if_needed, store_chunk, insert_chunk, uint64_max}
use valkyrie_fs.Cache.Interleaving.{IsSound}
use valkyrie_fs.Cache.Loop.{evict_if_needed-Evicted}
use valkyrie_fs.Pool.{S3Client, PrefetchTask, Pool, get_request, download_chunk, zone_of}
use valkyrie_fs.Pool.Download.{begun, download_refused, download_body, store_empty, store_some}
use valkyrie_fs.System.Crew.{
  Phase, fetching, done, Running, Works, refused, empty, answered, evicted, stored,
}

module _ (s3 : S3Client) where
  -- One worker's steps, without others between them.
  pub data Alone (p : Pool) (r : Running) : Pool → Running → Type 0 where
    here : Alone p r p r
    next :
        {p' q : Pool} {r' r'' : Running} → Alone p r p' r' → Works s3 p' r' q r'' → Alone p r q r''

  inserted :
      (c d : CacheManager) (t : PrefetchTask) (bytes : List ℕ) (now : ℕ)
      → evict_if_needed c (length bytes) ≡ some d
      → insert_chunk c t.s3_key t.offset bytes (zone_of t.priority) now
        ≡ some (store_chunk d t.s3_key t.offset bytes (zone_of t.priority) now)
  unfolding insert_chunk
  inserted c d t bytes now e = rw e refl

  abbrev pub running : PrefetchTask → Phase → Running
  running t ph = record { task = t; phase = ph }

  -- On a cache that satisfies `Inv` and has no file with the empty key, with the clock below
  -- `UINT64_MAX` and room in the counter for the task's size, `download_chunk` ends, and the single
  -- steps of a worker that nothing interrupts lead to the same pool and the same result, on every
  -- branch.
  pub download_chunk-Alone :
      (p : Pool) (t : PrefetchTask) (now : ℕ)
      → IsSound p.cache
      → now < uint64_max
      → p.cache.current_size + t.size < size_mod
      → (q : Pool) × (ok : Bool) × (download_chunk s3 p t now ≡ some (q, ok))
        × Alone p (running t fetching) q (running t (done ok))
  download_chunk-Alone p t now s time fits = elim (Option-cases (s3.get_object (get_request p t))) [
    | inl e ↦ (_, false, download_refused s3 p t now e, next here (refused e refl))
    | inr (body, e) ↦
        let bytes = take t.size body in
        let first = download_body s3 p t now body e in
        elim (Bool-cases (length bytes == 0)) [
          | inl no_bytes ↦ (
            _,
            false,
            first ∙ store_empty (begun p) t bytes now no_bytes,
            next here (empty body e no_bytes refl),
          )
          | inr some_bytes ↦
              let (d, ran, ev) = evict_if_needed-Evicted p.cache (length bytes) s.inv s.named in
              (
                _,
                true,
                first
                    ∙ store_some (begun p) t bytes now _ some_bytes
                        (inserted p.cache d t bytes now ran),
                next (next (next here (answered body e some_bytes refl refl)) (evicted d ran refl))
                    (stored now time (omega (arith, ev.shrinks, length-take t.size body)) refl),
              )
        ]
  ]

-- ===== src/System/Phases.antt =====
-- What holds of a worker's task in each phase, and the worker's own steps.
use valkyrie_fs.Base.{
  ℕ, ◌+◌, ◌≤◌, ◌<◌, ◌≡◌, refl, sym, ap, ◌∙◌, subst, some, List, Text, length, length-take, take,
  drop, arith, size_mod, inl, inr,
}
use valkyrie_fs.Types.{default_chunk_size}
use valkyrie_fs.Config.{S3Config}
use valkyrie_fs.Cache.{uint64_max, evict_if_needed, CacheManager, store_chunk}
use valkyrie_fs.Cache.Chunks.{others-bytes, store_chunk-Origin}
use valkyrie_fs.Cache.Insert.{store_chunk-Stores}
use valkyrie_fs.Cache.Interleaving.{Step-IsSound, evicts, stores}
use valkyrie_fs.Cache.Loop.{evict_if_needed-Evicted}
use valkyrie_fs.Cache.Contents.{bytes_at}
use valkyrie_fs.Pool.{get_request, Stats, S3Client, PrefetchTask, Pool, zone_of}
use valkyrie_fs.Pool.Objects.{Serves}
use valkyrie_fs.System.Tasks.{IsTask, IsRight}
use valkyrie_fs.System.Work.{served_bytes}
use valkyrie_fs.System.Crew.{
  Phase, fetching, holding, storing, done, Running, Works, refused, empty, answered, evicted,
  stored,
}

-- The bytes are those of the task's chunk, where it begins inside the object.
pub record IsPart (objects : Text → List ℕ) (t : PrefetchTask) (bytes : List ℕ) : Type 0 where
  pub short : length bytes ≤ default_chunk_size
  pub right :
      t.offset < length (objects t.s3_key)
      → bytes ≡ take default_chunk_size (drop t.offset (objects t.s3_key))

abbrev pub PhaseIsRight : (Text → List ℕ) → PrefetchTask → Phase → Type 0
PhaseIsRight objects t fetching = Unit
PhaseIsRight objects t (holding bytes) = IsPart objects t bytes
PhaseIsRight objects t (storing bytes) = IsPart objects t bytes
PhaseIsRight objects t (done ok) = Unit

pub record IsBusy (objects : Text → List ℕ) (n : ℕ) (r : Running) : Type 0 where
  pub task : IsTask n r.task
  pub phase : PhaseIsRight objects r.task r.phase

-- A pool with the same cache, tasks and promises.
same-IsRight :
    (objects : Text → List ℕ) (config : S3Config) (base : ℕ) (p : Pool) (stats : Stats)
    → IsRight objects config base p
    → IsRight objects config base (record p { stats = stats })
same-IsRight objects config base p stats r = record {
  sound = r.sound;
  holds = r.holds;
  configured = r.configured;
  issued = r.issued;
  tasks = r.tasks;
  fresh = r.fresh;
}

evicted-IsRight :
    (objects : Text → List ℕ) (config : S3Config) (base : ℕ) (p : Pool) (n : ℕ)
    (cache : CacheManager)
    → evict_if_needed p.cache n ≡ some cache
    → IsRight objects config base p
    → IsRight objects config base (record p { cache = cache })
evicted-IsRight objects config base p n cache ran r =
    let (d, ran', ev) = evict_if_needed-Evicted p.cache n r.sound.inv r.sound.named in
    let same : d ≡ cache = cc in
    record {
      sound = Step-IsSound (evicts n ran) r.sound;
      holds = λ k start bs a i e. r.holds k start bs a i (
          others-bytes p.cache d k start bs ev.kept
            (ap (λ (c : CacheManager). bytes_at c k start) same ∙ e));
      configured = r.configured;
      issued = r.issued;
      tasks = r.tasks;
      fresh = r.fresh;
    }

stored-IsRight :
    (objects : Text → List ℕ) (config : S3Config) (base : ℕ) (p : Pool) (t : PrefetchTask)
    (bytes : List ℕ) (now : ℕ) (stats : Stats)
    → IsTask p.next_promise t
    → IsPart objects t bytes
    → now < uint64_max
    → p.cache.current_size + length bytes < size_mod
    → IsRight objects config base p
    → IsRight objects config base (record p {
      cache = store_chunk p.cache t.s3_key t.offset bytes (zone_of t.priority) now;
      stats = stats;
    })
stored-IsRight objects config base p t bytes now stats h part time fits r =
    let zone = zone_of t.priority in
    let st = store_chunk-Stores p.cache t.s3_key t.offset bytes zone now r.sound.inv time fits in
    record {
      sound = Step-IsSound (stores t.s3_key t.offset bytes zone now h.named time fits refl) r.sound;
      holds = λ k start bs a i e.
          elim (store_chunk-Origin p.cache (store_chunk p.cache t.s3_key t.offset bytes zone now)
            t.s3_key t.offset bytes zone now k start bs st e) [
              | inl (same_key, same_start, new) ↦
                  new
                  ∙ part.right
                      (omega (arith, i, same_start, ap (λ (q : Text). length (objects q)) same_key))
                  ∙ ap (λ (n : ℕ). take default_chunk_size (drop n (objects t.s3_key)))
                      (sym same_start)
                  ∙ ap (λ (q : Text). take default_chunk_size (drop start (objects q)))
                      (sym same_key)
              | inr before ↦ r.holds k start bs a i before
            ];
      configured = r.configured;
      issued = r.issued;
      tasks = r.tasks;
      fresh = r.fresh;
    }

module _ (s3 : S3Client) (objects : Text → List ℕ) (config : S3Config) (base : ℕ)
    (small : (k : Text) → length (objects k) + default_chunk_size ≤ size_mod)
    (serves : (k : Text) → Serves s3 config k (objects k)) where
  answered-IsPart :
      (p : Pool) (t : PrefetchTask) (body bytes : List ℕ)
      → IsRight objects config base p
      → IsTask p.next_promise t
      → s3.get_object (get_request p t) ≡ some body
      → bytes ≡ take t.size body
      → IsPart objects t bytes
  answered-IsPart p t body bytes r h answer same = record {
    short = omega (arith, ap length same, length-take t.size body, h.size);
    right = λ inside.
        same
        ∙ served_bytes s3 p t (objects t.s3_key) body
            (subst (λ (c : S3Config). Serves s3 c t.s3_key (objects t.s3_key)) (sym r.configured)
              (serves t.s3_key))
            (small t.s3_key) h.size inside answer;
  }

  pub Works-IsBusy :
      {p p' : Pool} {r r' : Running}
      → Works s3 p r p' r'
      → IsRight objects config base p
      → IsBusy objects p.next_promise r
      → IsRight objects config base p'
        × IsBusy objects p.next_promise r'
        × (p'.next_promise ≡ p.next_promise)
  Works-IsBusy {p} (refused _ e) right busy =
      rw e
        (same-IsRight objects config base p _ right, record { task = busy.task; phase = tt }, refl)
  Works-IsBusy {p} (empty _ _ _ e) right busy =
      rw e
        (same-IsRight objects config base p _ right, record { task = busy.task; phase = tt }, refl)
  Works-IsBusy {p} (answered {t} {bytes = bytes} body answer _ same e) right busy = rw e (
    same-IsRight objects config base p _ right,
    record { task = busy.task; phase = answered-IsPart p t body bytes right busy.task answer same },
    refl,
  )
  Works-IsBusy {p} (evicted {bytes = bytes} cache ran e) right busy = rw e (
    evicted-IsRight objects config base p (length bytes) cache ran right,
    record { task = busy.task; phase = busy.phase },
    refl,
  )
  Works-IsBusy {p} (stored {t} {bytes = bytes} now time fits e) right busy = rw e (
    stored-IsRight objects config base p t bytes now _ busy.task busy.phase time fits right,
    record { task = busy.task; phase = tt },
    refl,
  )

-- ===== src/System/Work.antt =====
-- The steps of the workers.
use valkyrie_fs.Base.{
  ℕ, ◌+◌, ◌-◌, ◌≤◌, ◌<◌, ◌≡◌, refl, sym, ap, ◌∙◌, subst, Bool, true, false, some, List, ◌∷◌, Text,
  length, length-take, take, drop, arith, size_mod, Bool-cases, Option-cases, inl, inr, ◌==◌,
}
use valkyrie_fs.Types.{default_chunk_size}
use valkyrie_fs.Config.{S3Config}
use valkyrie_fs.Cache.{insert_chunk, CacheManager, uint64_max}
use valkyrie_fs.Cache.Chunks.{insert_chunk-Origin}
use valkyrie_fs.Cache.Growth.{insert_chunk-Grows}
use valkyrie_fs.Queue.{QueueItem, ThreadSafeQueue, pop, popped, waits, stopped}
use valkyrie_fs.Queue.Order.{pop-Pops}
use valkyrie_fs.Pool.{
  S3Client, PrefetchTask, Pool, get_request, zone_of, download_chunk, worker_round,
}
use valkyrie_fs.Pool.Download.{begun, download_refused, download_body, store_empty, store_some}
use valkyrie_fs.Pool.Objects.{Serves, Holds, Leaves, chunk_request, get_request_lem, cut}
use valkyrie_fs.Queue.Items.{pop-All}
use valkyrie_fs.Pool.Progress.{served}
use valkyrie_fs.Fuse.Objects.{fresh-finished}
use valkyrie_fs.System.Tasks.{IsTask, IsRight}

task_request :
    (p : Pool) (t : PrefetchTask)
    → t.size ≡ default_chunk_size
    → t.offset + default_chunk_size ≤ size_mod
    → get_request p t ≡ chunk_request p.config t.s3_key t.offset
task_request p t e fits =
    ap (λ (n : ℕ). get_request p (record t { size = n })) e
    ∙ get_request_lem p t.s3_key t.offset t.priority t.completion fits

-- The bytes of an answer, where the chunk begins inside the object.
pub served_bytes :
    (s3 : S3Client) (p : Pool) (t : PrefetchTask) (obj body : List ℕ)
    → Serves s3 p.config t.s3_key obj
    → length obj + default_chunk_size ≤ size_mod
    → t.size ≡ default_chunk_size
    → t.offset < length obj
    → s3.get_object (get_request p t) ≡ some body
    → take t.size body ≡ take default_chunk_size (drop t.offset obj)
served_bytes s3 p t obj body serves small e inside answer =
    ap (λ (n : ℕ). take n body) e
    ∙ ap (take default_chunk_size) (
        serves t.offset (t.offset + default_chunk_size - 1) body (omega arith) inside (omega arith)
          (ap s3.get_object (sym (task_request p t e (omega arith))) ∙ answer))
    ∙ cut obj t.offset

module _ (s3 : S3Client) (objects : Text → List ℕ) (config : S3Config) (base : ℕ)
    (small : (k : Text) → length (objects k) + default_chunk_size ≤ size_mod)
    (serves : (k : Text) → Serves s3 config k (objects k)) where
  -- A download on a right pool.
  abbrev Downloads : Pool → PrefetchTask → ℕ → Type 0
  Downloads p t now =
      (q : Pool) × (ok : Bool) × (download_chunk s3 p t now ≡ some (q, ok))
      × IsRight objects config base q
      × Leaves p q

  stored-Holds :
      (p : Pool) (t : PrefetchTask) (now : ℕ) (body : List ℕ) (cache : CacheManager)
      → IsRight objects config base p
      → IsTask p.next_promise t
      → now < uint64_max
      → p.cache.current_size + default_chunk_size < size_mod
      → s3.get_object (get_request p t) ≡ some body
      → insert_chunk p.cache t.s3_key t.offset (take t.size body) (zone_of t.priority) now
        ≡ some cache
      → (k : Text) → Holds cache k (objects k)
  stored-Holds p t now body cache r h time fits answer ran k start bs aligned inside here =
      let bytes = take t.size body in
      let serves' =
        subst (λ (c : S3Config). Serves s3 c t.s3_key (objects t.s3_key)) (sym r.configured)
          (serves t.s3_key) in
      elim (insert_chunk-Origin p.cache cache t.s3_key t.offset bytes (zone_of t.priority) now k
        start bs r.sound.inv r.sound.named time (omega (arith, length-take t.size body, h.size)) ran
        here) [
          | inl (same_key, same_start, new) ↦
              let inside' : t.offset < length (objects t.s3_key) =
                omega (arith, inside, same_start, ap (λ (q : Text). length (objects q)) same_key) in
              new
              ∙ served_bytes s3 p t (objects t.s3_key) body serves' (small t.s3_key) h.size inside'
                  answer
              ∙ ap (λ (n : ℕ). take default_chunk_size (drop n (objects t.s3_key))) (sym same_start)
              ∙ ap (λ (q : Text). take default_chunk_size (drop start (objects q))) (sym same_key)
          | inr before ↦ r.holds k start bs aligned inside before
        ]

  download_chunk-IsRight :
      (p : Pool) (t : PrefetchTask) (now : ℕ)
      → IsRight objects config base p
      → IsTask p.next_promise t
      → now < uint64_max
      → p.cache.current_size + default_chunk_size < size_mod
      → Downloads p t now
  download_chunk-IsRight p t now r h time fits =
      elim (Option-cases (s3.get_object (get_request p t))) [
        | inl e ↦ (
          _,
          false,
          download_refused s3 p t now e,
          record {
            sound = r.sound;
            holds = r.holds;
            configured = r.configured;
            issued = r.issued;
            tasks = r.tasks;
            fresh = r.fresh;
          },
          record {
            config = refl;
            queue = refl;
            running = refl;
            promise = refl;
            values = refl;
            working = refl;
          },
        )
        | inr (body, answer) ↦
            let bytes = take t.size body in
            let stored = download_body s3 p t now body answer in
            elim (Bool-cases (length bytes == 0)) [
              | inl no_bytes ↦ (
                _,
                false,
                stored ∙ store_empty (begun p) t bytes now no_bytes,
                record {
                  sound = r.sound;
                  holds = r.holds;
                  configured = r.configured;
                  issued = r.issued;
                  tasks = r.tasks;
                  fresh = r.fresh;
                },
                record {
                  config = refl;
                  queue = refl;
                  running = refl;
                  promise = refl;
                  values = refl;
                  working = refl;
                },
              )
              | inr some_bytes ↦
                  let (cache, ran, g) =
                    insert_chunk-Grows p.cache t.s3_key t.offset bytes (zone_of t.priority) now
                      r.sound h.named time (omega (arith, length-take t.size body, h.size)) in
                  (
                    _,
                    true,
                    stored ∙ store_some (begun p) t bytes now cache some_bytes ran,
                    record {
                      sound = g.sound;
                      holds = stored-Holds p t now body cache r h time fits answer ran;
                      configured = r.configured;
                      issued = r.issued;
                      tasks = r.tasks;
                      fresh = r.fresh;
                    },
                    record {
                      config = refl;
                      queue = refl;
                      running = refl;
                      promise = refl;
                      values = refl;
                      working = refl;
                    },
                  )
            ]
      ]

  -- The pool once a worker has set the promise of a task that it has popped.
  kept-IsRight :
      (p q : Pool) (rest : ThreadSafeQueue PrefetchTask) (t : PrefetchTask) (ok : Bool)
      → IsTask p.next_promise t
      → Leaves (record p { task_queue = rest }) q
      → IsRight objects config base q
      → IsRight objects config base (record q { completed = (t.completion, ok) ∷ q.completed })
  kept-IsRight p q rest t ok h l r = record {
    sound = r.sound;
    holds = r.holds;
    configured = r.configured;
    issued = r.issued;
    tasks = r.tasks;
    fresh = λ k le.
        fresh-finished t.completion k ok q.completed (omega (arith, h.promise, l.promise))
          (r.fresh k le);
  }

  popped-IsRight :
      (p q : Pool) (now : ℕ) (top : QueueItem PrefetchTask) (rest : ThreadSafeQueue PrefetchTask)
      → p.shutdown_flag ≡ false
      → IsRight objects config base p
      → now < uint64_max
      → p.cache.current_size + default_chunk_size < size_mod
      → pop p.task_queue ≡ popped top rest
      → worker_round s3 p now ≡ some (some q)
      → IsRight objects config base q
  popped-IsRight p q now top rest up r time fits e ran =
      let (task, tasks) =
        pop-All (λ x. IsTask p.next_promise x.item) p.task_queue rest top r.tasks e in
      let p' : Pool = record p { task_queue = rest } in
      let r' : IsRight objects config base p' = record {
        sound = r.sound;
        holds = r.holds;
        configured = r.configured;
        issued = r.issued;
        tasks = tasks;
        fresh = r.fresh;
      } in
      let (q', ok, downloaded, right, l) =
        download_chunk-IsRight p' top.item now r' task time fits in
      let next : Pool = record q' { completed = (top.item.completion, ok) ∷ q'.completed } in
      let ran' = served s3 p q' now top rest ok up e downloaded in
      let same : next ≡ q = cc in
      subst (IsRight objects config base) same (kept-IsRight p q' rest top.item ok task l right)

  waiting :
      (p q : Pool) (now : ℕ)
      → pop p.task_queue ≡ waits
      → worker_round s3 p now ≡ some (some q)
      → p ≡ q
  unfolding worker_round
  waiting p q now e ran = ground arith

  ended :
      (p q : Pool) (now : ℕ)
      → pop p.task_queue ≡ stopped
      → worker_round s3 p now ≡ some (some q)
      → ⊥
  unfolding worker_round
  ended p q now e ran = ground arith

  down_ended :
      (p q : Pool) (now : ℕ) → p.shutdown_flag ≡ true → worker_round s3 p now ≡ some (some q) → ⊥
  unfolding worker_round
  down_ended p q now e ran = ground arith

  pub worker_round-IsRight :
      (p q : Pool) (now : ℕ)
      → IsRight objects config base p
      → now < uint64_max
      → p.cache.current_size + default_chunk_size < size_mod
      → worker_round s3 p now ≡ some (some q)
      → IsRight objects config base q
  worker_round-IsRight p q now r time fits ran = elim (Bool-cases p.shutdown_flag) [
    | inl down ↦ absurd (down_ended p q now down ran)
    | inr up ↦ elim (pop-Pops p.task_queue) [
      | inl (_, _, e) ↦ subst (IsRight objects config base) (waiting p q now e ran) r
      | inr (inl (_, _, e)) ↦ absurd (ended p q now e ran)
      | inr (inr (top, rest, e, _, _)) ↦ popped-IsRight p q now top rest up r time fits e ran
    ]
  ]

-- ===== src/Pool/Progress.antt =====
-- What workers make of the tasks in the queue.
use mathlib.Core.Logic.Or
use mathlib.Core.List.{Mem-prop, not-mem-nil, mem-cons, Perm, Mem, mem-cons_self, mem-cons_of_mem}
use mathlib.Core.List.Perm
use valkyrie_fs.Base.{
  All, sym, subst, ℕ, zero, suc, ◌+◌, ◌*◌, ◌≤◌, ◌<◌, ◌≡◌, ◌≢◌, refl, ap, ◌∙◌, Bool, true, false,
  none, some, Option, List, [], ◌∷◌, map, length, take, length-take, arith, size_mod, Option-cases,
  Bool-cases, List-cases, inl, inr, ◌==◌,
}
use valkyrie_fs.Types.{default_chunk_size}
use valkyrie_fs.Cache.{CacheManager, uint64_max}
use valkyrie_fs.Cache.Interleaving.{IsSound}
use valkyrie_fs.Cache.Growth.{insert_chunk-Grows}
use valkyrie_fs.Queue.{QueueItem, ThreadSafeQueue, pop, popped}
use valkyrie_fs.Queue.Order.{pop-Pops, drain, drain-IsOrdered, IsOrdered}
use valkyrie_fs.Pool.{
  S3Client, PrefetchTask, Pool, get_request, zone_of, download_chunk, run_task, worker_round,
}
use valkyrie_fs.Pool.Download.{begun, download_refused, download_body, store_empty, store_some}
use valkyrie_fs.Pool.Objects.{Leaves}

-- A download that has ended, whatever came of it.
pub record Ends (p : Pool) (size : ℕ) (q : Pool) : Type 0 where
  pub sound : IsSound q.cache
  pub counter : q.cache.current_size ≤ p.cache.current_size + size
  pub leaves : Leaves p q

module _ (s3 : S3Client) (p : Pool) (task : PrefetchTask) (now : ℕ) (s : IsSound p.cache)
    (named : task.s3_key ≢ []) (time : now < uint64_max)
    (fits : p.cache.current_size + task.size < size_mod) where
  unchanged : (q : Pool) → q.cache ≡ p.cache → Leaves p q → Ends p task.size q
  unchanged q same l = record {
    sound = subst IsSound (sym same) s;
    counter = omega (arith, ap (λ (c : CacheManager). c.current_size) same);
    leaves = l;
  }

  pub download_chunk-Ends :
      (q : Pool) × (ok : Bool) × (download_chunk s3 p task now ≡ some (q, ok)) × Ends p task.size q
  download_chunk-Ends = elim (Option-cases (s3.get_object (get_request p task))) [
    | inl refused ↦ (
      _,
      false,
      download_refused s3 p task now refused,
      unchanged _ refl (record {
        config = refl;
        queue = refl;
        running = refl;
        promise = refl;
        values = refl;
        working = refl;
      }),
    )
    | inr (body, answer) ↦
        let bytes = take task.size body in
        let stored = download_body s3 p task now body answer in
        let size = length-take task.size body in
        elim (Bool-cases (length bytes == 0)) [
          | inl no_bytes ↦ (
            _,
            false,
            stored ∙ store_empty (begun p) task bytes now no_bytes,
            unchanged _ refl (record {
              config = refl;
              queue = refl;
              running = refl;
              promise = refl;
              values = refl;
              working = refl;
            }),
          )
          | inr some_bytes ↦
              let (cache, ran, g) =
                insert_chunk-Grows p.cache task.s3_key task.offset bytes (zone_of task.priority) now
                  s named time (omega (arith, size)) in
              (
                _,
                true,
                stored ∙ store_some (begun p) task bytes now cache some_bytes ran,
                record {
                  sound = g.sound;
                  counter = omega (arith, g.size, size);
                  leaves = record {
                    config = refl;
                    queue = refl;
                    running = refl;
                    promise = refl;
                    values = refl;
                    working = refl;
                  };
                },
              )
        ]
  ]

-- The promises that have a value, the latest first.
abbrev pub kept_promises : Pool → List ℕ
kept_promises p = map (λ x. x.0) p.completed

-- `n` rounds of workers, at the times of a clock.
pub work : S3Client → (ℕ → ℕ) → ℕ → Pool → Option Pool
work s3 clock zero p = some p
work s3 clock (suc n) p = elim (worker_round s3 p (clock n)) [
  | none ↦ none
  | some none ↦ some p
  | some (some p') ↦ work s3 clock n p'
]

-- An open pool whose tasks are chunks of files with a name, with room for them.
pub record IsOpen (n : ℕ) (p : Pool) : Type 0 where
  pub running : p.shutdown_flag ≡ false
  pub sound : IsSound p.cache
  pub queued : length p.task_queue.items ≡ n
  pub chunks :
      (x : QueueItem PrefetchTask)
      → Mem x p.task_queue.items
      → (x.item.s3_key ≢ []) × (x.item.size ≤ default_chunk_size)
  pub room : p.cache.current_size + n * default_chunk_size < size_mod

-- The promises that are kept after the tasks have been served in this order.
abbrev pub kept_after : List ℕ → List (QueueItem PrefetchTask) → List ℕ
kept_after kept [] = kept
kept_after kept (x ∷ xs) = kept_after (x.item.completion ∷ kept) xs

-- The round that serves a task.
pub served :
    (s3 : S3Client) (p q : Pool) (now : ℕ) (top : QueueItem PrefetchTask)
    (rest : ThreadSafeQueue PrefetchTask) (ok : Bool)
    → p.shutdown_flag ≡ false
    → pop p.task_queue ≡ popped top rest
    → download_chunk s3 (record p { task_queue = rest }) top.item now ≡ some (q, ok)
    → worker_round s3 p now
      ≡ some (some (record q { completed = (top.item.completion, ok) ∷ q.completed }))
unfolding worker_round run_task
served s3 p q now top rest ok up e ran = rw (up, worker_round, e, run_task, ran)

work-round :
    (s3 : S3Client) (clock : ℕ → ℕ) (n : ℕ) (p q : Pool)
    → worker_round s3 p (clock n) ≡ some (some q)
    → work s3 clock (suc n) p ≡ work s3 clock n q
unfolding work
work-round s3 clock n p q e = rw (e, work)

drain-popped :
    (n : ℕ) (q rest : ThreadSafeQueue PrefetchTask) (top : QueueItem PrefetchTask)
    → pop q ≡ popped top rest
    → drain (suc n) q ≡ top ∷ drain n rest
unfolding drain
drain-popped n q rest top e = rw (e, drain)

-- What the rounds leave.
abbrev pub Serves : ℕ → Pool → Pool → Type 0
Serves n p q =
    (q.task_queue.items ≡ [])
    × IsSound q.cache
    × (kept_promises q ≡ kept_after (kept_promises p) (drain n p.task_queue))

work-Serves :
    (s3 : S3Client) (clock : ℕ → ℕ) (n : ℕ) (p : Pool)
    → ((k : ℕ) → clock k < uint64_max)
    → IsOpen n p
    → (q : Pool) × (work s3 clock n p ≡ some q) × Serves n p q
unfolding work drain
work-Serves s3 clock zero p time o = (
  p,
  refl,
  (
    elim (List-cases p.task_queue.items) [
      | inl e ↦ e
      | inr (x, xs, e) ↦ absurd (omega (arith, ap length e, o.queued))
    ],
    o.sound,
    refl,
  ),
)
work-Serves s3 clock (suc n) p time o = elim (pop-Pops p.task_queue) [
  | inl (empty, _, _) ↦ absurd (omega (arith, ap length empty, o.queued))
  | inr (inl (empty, _, _)) ↦ absurd (omega (arith, ap length empty, o.queued))
  | inr (inr (top, rest, e, pops, _)) ↦
      let task = o.chunks top ((Perm.mem_iff pops.perm).1 mem-cons_self) in
      let p' = record p { task_queue = rest } in
      let (q, ok, ran, f) =
        download_chunk-Ends s3 p' top.item (clock n) o.sound task.0 (time n)
          (omega (arith, o.room, task.1)) in
      let next = record q { completed = (top.item.completion, ok) ∷ q.completed } in
      let still : IsOpen n next = record {
        running = f.leaves.running ∙ o.running;
        sound = f.sound;
        queued =
            ap (λ (t : ThreadSafeQueue PrefetchTask). length t.items) f.leaves.queue
            ∙ omega (arith, pops.counted, o.queued);
        chunks = λ x m. o.chunks x (
            (Perm.mem_iff pops.perm).1 (
              mem-cons_of_mem top
                (subst (λ (t : ThreadSafeQueue PrefetchTask). Mem x t.items) f.leaves.queue m)));
        room = omega (arith, f.counter, task.1, o.room);
      } in
      let (r, rest_ran, (none_left, sound, kept)) = work-Serves s3 clock n next time still in
      (
        r,
        work-round s3 clock n p next (served s3 p q (clock n) top rest ok o.running e ran)
            ∙ rest_ran,
        (
          none_left,
          sound,
          kept
              ∙ ap
                  (λ (t : ThreadSafeQueue PrefetchTask).
                    kept_after (kept_promises next) (drain n t))
                  f.leaves.queue
              ∙ ap
                  (λ (c : List (ℕ × Bool)).
                    kept_after (top.item.completion ∷ map (λ x. x.0) c) (drain n rest))
                  f.leaves.values
              ∙ ap (kept_after (kept_promises p)) (sym (drain-popped n p.task_queue rest top e)),
        ),
      )
]

kept_before :
    (k : ℕ) (kept : List ℕ) (xs : List (QueueItem PrefetchTask))
    → Mem k kept
    → Mem k (kept_after kept xs)
kept_before k kept [] m = m
kept_before k kept (x ∷ xs) m =
    kept_before k (x.item.completion ∷ kept) xs (mem-cons_of_mem x.item.completion m)

kept_after-mem :
    (kept : List ℕ) (xs : List (QueueItem PrefetchTask)) (x : QueueItem PrefetchTask)
    → Mem x xs
    → Mem x.item.completion (kept_after kept xs)
kept_after-mem kept [] x m = absurd (not-mem-nil m)
kept_after-mem kept (y ∷ ys) x m =
    Or.elim Mem-prop (mem-cons.0 m)
      (λ e.
        subst (λ z. Mem z.item.completion (kept_after kept (y ∷ ys))) (sym e)
          (kept_before y.item.completion (y.item.completion ∷ kept) ys mem-cons_self))
      (kept_after-mem (y.item.completion ∷ kept) ys x)

mem-All {ℓ} : {A : Type ℓ} (P : A → Type ℓ) (xs : List A) → ((x : A) → Mem x xs → P x) → All P xs
mem-All P [] h = tt
mem-All P (x ∷ xs) h = (h x mem-cons_self, mem-All P xs (λ y m. h y (mem-cons_of_mem x m)))

-- From an open pool with `n` queued tasks, each of at most the chunk size and for a key that is not
-- empty, with a cache that satisfies `Inv` and has no file with the empty key, room in the counter
-- for `n` chunks and a clock below `UINT64_MAX`, `n` rounds of workers end with an empty queue,
-- whatever the client answers. Each queued task's promise has been set, once for each task, in an
-- order of the queued tasks in which none comes before a more urgent one, and no other promise has
-- been set.
pub work-IsOrdered :
    (s3 : S3Client) (clock : ℕ → ℕ) (n : ℕ) (p : Pool)
    → ((k : ℕ) → clock k < uint64_max)
    → IsOpen n p
    → (q : Pool) × (order : List (QueueItem PrefetchTask)) × (work s3 clock n p ≡ some q)
      × (q.task_queue.items ≡ [])
      × IsSound q.cache
      × Perm order p.task_queue.items
      × IsOrdered order
      × (kept_promises q ≡ kept_after (kept_promises p) order)
      × All (λ x. Mem x.item.completion (kept_promises q)) p.task_queue.items
work-IsOrdered s3 clock n p time o =
    let (q, ran, (none_left, sound, kept)) = work-Serves s3 clock n p time o in
    let (perm, ordered) = drain-IsOrdered n p.task_queue o.queued in
    (
      q,
      drain n p.task_queue,
      ran,
      none_left,
      sound,
      perm,
      ordered,
      kept,
      mem-All (λ x. Mem x.item.completion (kept_promises q)) p.task_queue.items
          (λ x m.
            subst (λ (ks : List ℕ). Mem x.item.completion ks) (sym kept)
              (kept_after-mem (kept_promises p) (drain n p.task_queue) x
                ((Perm.mem_iff perm).1 m))),
    )

-- ===== src/System/Tasks.antt =====
-- What holds of the pool between two steps, and the steps that submit tasks.
use valkyrie_fs.Base.{
  ℕ, suc, ◌%◌, ◌≤◌, ◌<◌, ◌≡◌, ◌≢◌, refl, none, List, [], ◌∷◌, ◌++◌, Text, ℕ_discrete, arith, All,
  Bool-cases, inl, inr,
}
use valkyrie_fs.Base.Assoc
use valkyrie_fs.Types.{default_chunk_size, Priority, normal}
use valkyrie_fs.Config.{S3Config}
use valkyrie_fs.Cache.{contains}
use valkyrie_fs.Cache.Interleaving.{IsSound}
use valkyrie_fs.Queue.{QueueItem, ThreadSafeQueue, push}
use valkyrie_fs.Pool.{PrefetchTask, Pool, submit}
use valkyrie_fs.Pool.Objects.{Holds}
use valkyrie_fs.Predictor.{Predictor, issue_one, issue, is_in_flight}

-- A task for a whole chunk of a file with a name, whose promise has a number below `n`.
pub record IsTask (n : ℕ) (t : PrefetchTask) : Type 0 where
  pub named : t.s3_key ≢ []
  pub size : t.size ≡ default_chunk_size
  pub aligned : t.offset % default_chunk_size ≡ 0
  pub promise : t.completion < n

-- The cache is sound, each chunk of it holds its object's bytes, the tasks in the queue are for
-- whole chunks, and no promise to come has a value.
pub record IsRight (objects : Text → List ℕ) (config : S3Config) (base : ℕ) (p : Pool)
    : Type 0 where
  pub sound : IsSound p.cache
  pub holds : (k : Text) → Holds p.cache k (objects k)
  pub configured : p.config ≡ config
  -- The promises below `base` have been given away.
  pub issued : base ≤ p.next_promise
  pub tasks : All (λ (x : QueueItem PrefetchTask). IsTask p.next_promise x.item) p.task_queue.items
  pub fresh : (k : ℕ) → p.next_promise ≤ k → Assoc.lookup ℕ_discrete k p.completed ≡ none

later-tasks :
    (n : ℕ) (xs : List (QueueItem PrefetchTask))
    → All (λ x. IsTask n x.item) xs
    → All (λ x. IsTask (suc n) x.item) xs
later-tasks n [] a = tt
later-tasks n (x ∷ xs) a = (
  record {
    named = a.0.named;
    size = a.0.size;
    aligned = a.0.aligned;
    promise = omega (arith, a.0.promise);
  },
  later-tasks n xs a.1,
)

All-append :
    (n : ℕ) (xs : List (QueueItem PrefetchTask)) (y : QueueItem PrefetchTask)
    → All (λ x. IsTask n x.item) xs
    → IsTask n y.item
    → All (λ x. IsTask n x.item) (xs ++ y ∷ [])
All-append n [] y a h = (h, tt)
All-append n (x ∷ xs) y a h = (a.0, All-append n xs y a.1 h)

push-tasks :
    (n : ℕ) (q : ThreadSafeQueue PrefetchTask) (t : PrefetchTask) (priority : Priority)
    → All (λ x. IsTask n x.item) q.items
    → IsTask n t
    → All (λ x. IsTask n x.item) (push q t priority).items
unfolding push
push-tasks n q t priority a h = elim (Bool-cases q.shutdown_flag) [
  | inl down ↦ rw (down, push) a
  | inr up ↦ rw (up, push) (All-append n q.items (record { item = t; priority = priority }) a h)
]

pub submit-IsRight :
    (objects : Text → List ℕ) (config : S3Config) (base : ℕ) (p : Pool) (key : Text) (start : ℕ)
    (priority : Priority)
    → IsRight objects config base p
    → key ≢ []
    → start % default_chunk_size ≡ 0
    → IsRight objects config base (submit p key start default_chunk_size priority).0
unfolding submit
submit-IsRight objects config base p key start priority r named aligned = record {
  sound = r.sound;
  holds = r.holds;
  configured = r.configured;
  issued = omega (arith, r.issued);
  tasks =
      push-tasks (suc p.next_promise) p.task_queue
        (record {
          s3_key = key;
          offset = start;
          size = default_chunk_size;
          priority = priority;
          completion = p.next_promise;
        })
        priority (later-tasks p.next_promise p.task_queue.items r.tasks)
        (record { named = named; size = refl; aligned = aligned; promise = omega arith });
  fresh = λ k h. r.fresh k (omega arith);
}

issue_one-IsRight :
    (objects : Text → List ℕ) (config : S3Config) (base : ℕ) (p : Predictor) (pool : Pool)
    (key : Text)
    → IsRight objects config base pool
    → key ≢ []
    → IsRight objects config base (issue_one p pool key).1
unfolding issue_one
issue_one-IsRight objects config base p pool key r named =
    elim (Bool-cases (contains pool.cache key)) [
      | inl cached ↦ rw (cached, issue_one) r
      | inr new ↦ elim (Bool-cases (is_in_flight p.in_flight key)) [
        | inl pending ↦ rw (new, issue_one, pending) r
        | inr free ↦
            rw (new, issue_one, free)
              (submit-IsRight objects config base pool key 0 normal r named refl)
      ]
    ]

pub issue-IsRight :
    (objects : Text → List ℕ) (config : S3Config) (base : ℕ) (p : Predictor) (pool : Pool)
    (keys : List Text)
    → IsRight objects config base pool
    → All (λ k. k ≢ []) keys
    → IsRight objects config base (issue p pool keys).1
unfolding issue
issue-IsRight objects config base p pool [] r a = r
issue-IsRight objects config base p pool (key ∷ keys) r a =
    issue-IsRight objects config base (issue_one p pool key).0 (issue_one p pool key).1 keys
      (issue_one-IsRight objects config base p pool key r a.0) a.1

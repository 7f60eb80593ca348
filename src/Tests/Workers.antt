-- ===== src/Tests/Workers.antt =====
-- A pool with two tasks in its queue, and a worker.
use mathlib.Core.HLevel.{⊥_prop}
use mathlib.Core.Logic.Or
use native.Mathlib.Bridge.{le_prop}
use mathlib.Core.List.{Perm, Mem, mem-cons, not-mem-nil}
use valkyrie_fs.Base.{
  All, false, ℕ, ◌≤◌, ◌≡◌, ◌≢◌, refl, ap, some, List, [], ◌∷◌, Text, codes, arith,
}
use valkyrie_fs.Base.Assoc
use valkyrie_fs.Types.{urgent, background, default_chunk_size, Priority}
use valkyrie_fs.Cache.{new_cache}
use valkyrie_fs.Cache.Invariant.{new_cache-Inv}
use valkyrie_fs.Cache.Interleaving.{IsSound}
use valkyrie_fs.Queue.{QueueItem}
use valkyrie_fs.Queue.Order.{IsOrdered}
use valkyrie_fs.Pool.{Pool, PrefetchTask, new_pool}
use valkyrie_fs.Pool.Progress.{IsOpen, work, work-IsOrdered, kept_promises, kept_after}
use valkyrie_fs.Tests.Pools.{client, config}

abbrev task : Text → Priority → ℕ → PrefetchTask
task key priority promise = record {
  s3_key = key;
  offset = 0;
  size = default_chunk_size;
  priority = priority;
  completion = promise;
}

abbrev first : QueueItem PrefetchTask
first = record { item = task (codes "a") background 0; priority = background }

abbrev second : QueueItem PrefetchTask
second = record { item = task (codes "b") urgent 1; priority = urgent }

abbrev pool : Pool
pool = record (new_pool config (new_cache 10)) {
  task_queue = record { items = first ∷ second ∷ []; shutdown_flag = false };
}

abbrev clock : ℕ → ℕ
clock n = 7

two :
    {x : QueueItem PrefetchTask} {P : Type 0}
    → IsProp P
    → (x ≡ first → P)
    → (x ≡ second → P)
    → Mem x (first ∷ second ∷ [])
    → P
two p a b m =
    Or.elim p (mem-cons.0 m) a (λ n. Or.elim p (mem-cons.0 n) b (λ k. absurd (not-mem-nil k)))

named : (x : QueueItem PrefetchTask) → Mem x (first ∷ second ∷ []) → x.item.s3_key ≢ []
named x m e =
    two ⊥_prop (λ p. cc (ap (λ (y : QueueItem PrefetchTask). y.item.s3_key) p, e))
      (λ p. cc (ap (λ (y : QueueItem PrefetchTask). y.item.s3_key) p, e)) m

small :
    (x : QueueItem PrefetchTask) → Mem x (first ∷ second ∷ []) → x.item.size ≤ default_chunk_size
small x m =
    two le_prop (λ p. omega (arith, ap (λ (y : QueueItem PrefetchTask). y.item.size) p))
      (λ p. omega (arith, ap (λ (y : QueueItem PrefetchTask). y.item.size) p)) m

empty_cache : IsSound (new_cache 10)
unfolding new_cache Assoc.lookup
empty_cache = record { inv = new_cache-Inv 10; named = refl }

pool-IsOpen : IsOpen 2 pool
unfolding new_pool new_cache
pool-IsOpen = record {
  running = refl;
  sound = empty_cache;
  queued = refl;
  chunks = λ x m. (named x m, small x m);
  room = omega arith;
}

work-IsOrdered_example :
    (q : Pool) × (order : List (QueueItem PrefetchTask)) × (work client clock 2 pool ≡ some q)
    × (q.task_queue.items ≡ [])
    × IsSound q.cache
    × Perm order pool.task_queue.items
    × IsOrdered order
    × (kept_promises q ≡ kept_after (kept_promises pool) order)
    × All (λ x. Mem x.item.completion (kept_promises q)) pool.task_queue.items
work-IsOrdered_example = work-IsOrdered client clock 2 pool (λ n. omega arith) pool-IsOpen

-- ===== src/Fuse/Fetch.antt =====
-- `fetch` on a pool that has nothing else to do.
use valkyrie_fs.Base.Assoc
use valkyrie_fs.Types.{urgent, default_chunk_size}
use valkyrie_fs.Cache.{Chunk, get_chunk}
use valkyrie_fs.Queue.{ThreadSafeQueue, waits, push, new_queue, pop, empty}
use valkyrie_fs.Base.{
  zero, if◌then◌else◌, ℕ, suc, ◌≡◌, refl, ap, Bool, true, false, none, some, Option, List, ◌∷◌,
  Text, ℕ_discrete, length, if_pos, arith,
}
use valkyrie_fs.Pool.{S3Client, Pool, PrefetchTask, submit, download_chunk, run_task, worker_round}
use valkyrie_fs.Fuse.Read.{Env, resume, await, fetch}

-- The pool is open, no task is queued, and the next promise is new.
pub record IsIdle (p : Pool) : Type 0 where
  pub running : p.shutdown_flag ≡ false
  pub working : p.working ≡ true
  pub no_tasks : p.task_queue ≡ new_queue
  pub fresh : Assoc.lookup ℕ_discrete p.next_promise p.completed ≡ none

-- The task that a read submits.
abbrev pub task_for : Pool → Text → ℕ → PrefetchTask
task_for p key offset = record {
  s3_key = key;
  offset = offset;
  size = default_chunk_size;
  priority = urgent;
  completion = p.next_promise;
}

-- The pool while a worker runs the task.
abbrev pub busy : Pool → Pool
busy p = record p {
  shutdown_flag = false;
  task_queue = new_queue;
  next_promise = suc p.next_promise;
}

-- The pool after it.
abbrev pub finished : Pool → ℕ → Bool → Pool
finished p promise success = record p { completed = (promise, success) ∷ p.completed }

done :
    (n : ℕ) (ok : Bool) (rest : List (ℕ × Bool))
    → Assoc.lookup ℕ_discrete n ((n, ok) ∷ rest) ≡ some ok
unfolding Assoc.lookup
done n ok rest = if_pos (ℕ_discrete n n) refl _ _

idle_pop : (q : ThreadSafeQueue PrefetchTask) → q ≡ new_queue → pop q ≡ waits
unfolding pop empty new_queue
idle_pop q e = ap pop e

idle_round :
    (s3 : S3Client) (p : Pool) (now : ℕ)
    → p.shutdown_flag ≡ false
    → pop p.task_queue ≡ waits
    → worker_round s3 p now ≡ some (some p)
unfolding worker_round
idle_round s3 p now up e = ground arith

-- Workers that go on without a task change nothing.
resume_idle :
    (env : Env) (n : ℕ) (p : Pool) (now : ℕ)
    → p.shutdown_flag ≡ false
    → p.task_queue ≡ new_queue
    → resume env n p now ≡ some p
unfolding resume
resume_idle env zero p now up idle = refl
resume_idle env (suc n) p now up idle =
    rw (idle_round env.client p now up (idle_pop p.task_queue idle), resume)
      (resume_idle env n p now up idle)

module _ (env : Env) (p : Pool) (key : Text) (offset now : ℕ) (idle : IsIdle p) where
  abbrev submitted : Pool
  submitted = (submit p key offset default_chunk_size urgent).0

  future : (submit p key offset default_chunk_size urgent).1 ≡ some p.next_promise
  unfolding submit new_queue
  future = rw (idle.no_tasks, submit)

  one_task : length submitted.task_queue.items ≡ 1
  unfolding submit new_queue push
  one_task = rw (idle.no_tasks, submit)

  round :
      (q : Pool) (ok : Bool)
      → download_chunk env.client (busy p) (task_for p key offset) now ≡ some (q, ok)
      → worker_round env.client submitted now ≡ some (some (finished q p.next_promise ok))
  unfolding worker_round run_task submit new_queue push pop
  round q ok e = rw (idle.no_tasks, idle.running, worker_round, run_task, e)

  waited :
      (q : Pool) (ok : Bool)
      → download_chunk env.client (busy p) (task_for p key offset) now ≡ some (q, ok)
      → q.shutdown_flag ≡ false
      → q.task_queue ≡ new_queue
      → await env 3 submitted p.next_promise now ≡ some (finished q p.next_promise ok, ok)
  unfolding await submit
  waited q ok e up none_left = rw (
    idle.fresh,
    await,
    idle.working,
    round q ok e,
    done p.next_promise ok q.completed,
    resume_idle env env.late (finished q p.next_promise ok) now up none_left,
  )

  pub fetched :
      (q : Pool) (ok : Bool)
      → download_chunk env.client (busy p) (task_for p key offset) now ≡ some (q, ok)
      → q.shutdown_flag ≡ false
      → q.task_queue ≡ new_queue
      → fetch env p key offset now
        ≡ some (finished q p.next_promise ok, if ok then get_chunk q.cache key offset else none)
  unfolding fetch
  fetched q ok e up none_left = rw (future, fetch, one_task, waited q ok e up none_left)

pub chosen : (ok : Bool) (o : Option Chunk) → ok ≡ true → (if ok then o else none) ≡ o
chosen ok o e = rw e

pub not_chosen : (ok : Bool) (o : Option Chunk) → ok ≡ false → (if ok then o else none) ≡ none
not_chosen ok o e = rw e

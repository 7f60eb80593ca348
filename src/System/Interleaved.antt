-- ===== src/System/Interleaved.antt =====
-- What holds in every state of the parts and several workers at work.
use valkyrie_fs.Base.{
  ℕ, ◌+◌, ◌≤◌, ◌≡◌, refl, sym, subst, Bool, List, [], ◌∷◌, ◌++◌, Text, length, arith, size_mod, All,
}
use valkyrie_fs.Types.{default_chunk_size}
use valkyrie_fs.Config.{S3Config}
use valkyrie_fs.Queue.{QueueItem, ThreadSafeQueue, pop, popped}
use valkyrie_fs.Queue.Items.{pop-All}
use valkyrie_fs.Pool.{S3Client, PrefetchTask, Pool}
use valkyrie_fs.Pool.Objects.{Serves}
use valkyrie_fs.Fuse.{FuseContext}
use valkyrie_fs.Fuse.Objects.{fresh-finished}
use valkyrie_fs.System.Tasks.{IsTask, IsRight}
use valkyrie_fs.System.Invariant.{Runs, Step-Runs}
use valkyrie_fs.System.Phases.{IsBusy, Works-IsBusy}
use valkyrie_fs.System.Crew.{
  Running, Crew, done, CrewStep, others, takes, goes_on, keeps, CrewReach, here, next,
}

module _ (P : Running → Type 0) where
  picked : (xs ys : List Running) (r : Running) → All P (xs ++ r ∷ ys) → P r
  picked [] ys r a = a.0
  picked (x ∷ xs) ys r a = picked xs ys r a.1

  replaced :
      (xs ys : List Running) (r r' : Running) → All P (xs ++ r ∷ ys) → P r' → All P (xs ++ r' ∷ ys)
  replaced [] ys r r' a h = (h, a.1)
  replaced (x ∷ xs) ys r r' a h = (a.0, replaced xs ys r r' a.1 h)

  removed : (xs ys : List Running) (r : Running) → All P (xs ++ r ∷ ys) → All P (xs ++ ys)
  removed [] ys r a = a.1
  removed (x ∷ xs) ys r a = (a.0, removed xs ys r a.1)

later-IsBusy :
    (objects : Text → List ℕ) (m n : ℕ) (rs : List Running)
    → m ≤ n
    → All (IsBusy objects m) rs
    → All (IsBusy objects n) rs
later-IsBusy objects m n [] le a = tt
later-IsBusy objects m n (r ∷ rs) le a = (
  record {
    task = record {
      named = a.0.task.named;
      size = a.0.task.size;
      aligned = a.0.task.aligned;
      promise = omega (arith, a.0.task.promise, le);
    };
    phase = a.0.phase;
  },
  later-IsBusy objects m n rs le a.1,
)

-- The same with another bound on the promises given away.
rebased :
    (objects : Text → List ℕ) (config : S3Config) (m n : ℕ) (p : Pool)
    → n ≤ p.next_promise
    → IsRight objects config m p
    → IsRight objects config n p
rebased objects config m n p le r = record {
  sound = r.sound;
  holds = r.holds;
  configured = r.configured;
  issued = le;
  tasks = r.tasks;
  fresh = r.fresh;
}

-- The context between two steps, and the workers' tasks.
pub record IsSafe (objects : Text → List ℕ) (config : S3Config) (c : Crew) : Type 0 where
  pub runs : Runs objects config 0 c.context
  pub busy : All (IsBusy objects c.context.pool.next_promise) c.running

taken-IsRight :
    (objects : Text → List ℕ) (config : S3Config) (p : Pool) (top : QueueItem PrefetchTask)
    (rest : ThreadSafeQueue PrefetchTask)
    → pop p.task_queue ≡ popped top rest
    → IsRight objects config 0 p
    → IsTask p.next_promise top.item × IsRight objects config 0 (record p { task_queue = rest })
taken-IsRight objects config p top rest e r =
    let (task, tasks) =
      pop-All (λ x. IsTask p.next_promise x.item) p.task_queue rest top r.tasks e in
    (
      task,
      record {
        sound = r.sound;
        holds = r.holds;
        configured = r.configured;
        issued = r.issued;
        tasks = tasks;
        fresh = r.fresh;
      },
    )

kept-IsRight :
    (objects : Text → List ℕ) (config : S3Config) (p : Pool) (t : PrefetchTask) (ok : Bool)
    → IsTask p.next_promise t
    → IsRight objects config 0 p
    → IsRight objects config 0 (record p { completed = (t.completion, ok) ∷ p.completed })
kept-IsRight objects config p t ok h r = record {
  sound = r.sound;
  holds = r.holds;
  configured = r.configured;
  issued = r.issued;
  tasks = r.tasks;
  fresh = λ k le.
      fresh-finished t.completion k ok p.completed (omega (arith, h.promise)) (r.fresh k le);
}

-- A crew with the context and the workers of a step.
safe :
    (objects : Text → List ℕ) (config : S3Config) (c : Crew) (x : FuseContext) (rs : List Running)
    → c.context ≡ x
    → c.running ≡ rs
    → Runs objects config 0 x
    → All (IsBusy objects x.pool.next_promise) rs
    → IsSafe objects config c
safe objects config c x rs e f runs busy = record {
  runs = subst (Runs objects config 0) (sym e) runs;
  busy =
      subst (λ (y : FuseContext). All (IsBusy objects y.pool.next_promise) c.running) (sym e)
        (subst (All (IsBusy objects x.pool.next_promise)) (sym f) busy);
}

module _ (s3 : S3Client) (objects : Text → List ℕ) (config : S3Config)
    (small : (k : Text) → length (objects k) + default_chunk_size ≤ size_mod)
    (serves : (k : Text) → Serves s3 config k (objects k)) where
  pub CrewStep-IsSafe :
      {c d : Crew} → CrewStep s3 c d → IsSafe objects config c → IsSafe objects config d
  CrewStep-IsSafe {c} {d} (others st e) s =
      let n = c.context.pool.next_promise in
      let p = c.context.pool in
      let (named, right) = s.runs in
      let (named', right') =
        Step-Runs s3 objects config n small serves st
          (named, rebased objects config 0 n p (omega arith) right) in
      safe objects config d d.context c.running refl e
        (named', rebased objects config n 0 d.context.pool (omega arith) right')
        (later-IsBusy objects n d.context.pool.next_promise c.running right'.issued s.busy)
  CrewStep-IsSafe {c} {d} (takes top rest up works e x f) s =
      let (named, right) = s.runs in
      let (task, right') = taken-IsRight objects config c.context.pool top rest e right in
      safe objects config d _ _ x f (named, right') (record { task = task; phase = tt }, s.busy)
  CrewStep-IsSafe {c} {d} (goes_on before after r r' p e w x f) s =
      let (named, right) = s.runs in
      let n = c.context.pool.next_promise in
      let all : All (IsBusy objects n) (before ++ r ∷ after) =
        subst (All (IsBusy objects n)) e s.busy in
      let (right', busy, same) =
        Works-IsBusy s3 objects config 0 small serves w right
          (picked (IsBusy objects n) before after r all) in
      safe objects config d _ _ x f (named, right')
        (subst (λ (m : ℕ). All (IsBusy objects m) (before ++ r' ∷ after)) (sym same)
          (replaced (IsBusy objects n) before after r r' all busy))
  CrewStep-IsSafe {c} {d} (keeps before after t ok e x f) s =
      let (named, right) = s.runs in
      let n = c.context.pool.next_promise in
      let r : Running = record { task = t; phase = done ok } in
      let all : All (IsBusy objects n) (before ++ r ∷ after) =
        subst (All (IsBusy objects n)) e s.busy in
      let busy = picked (IsBusy objects n) before after r all in
      safe objects config d _ _ x f
        (named, kept-IsRight objects config c.context.pool t ok busy.task right)
        (removed (IsBusy objects n) before after r all)

  pub CrewReach-IsSafe :
      {c d : Crew} → CrewReach s3 c d → IsSafe objects config c → IsSafe objects config d
  CrewReach-IsSafe here s = s
  CrewReach-IsSafe (next r st) s = CrewStep-IsSafe st (CrewReach-IsSafe r s)

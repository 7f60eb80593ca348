-- ===== src/Fuse/Restarts.antt =====
-- Sequences of `start` and `stop`, and what they leave for the destructors.
use valkyrie_fs.Base.{◌⊎◌, ◌≡◌, sym, ◌∙◌, true, false, some, [], Bool-cases, inl, inr, arith}
use valkyrie_fs.Fuse.{start, stop}
use valkyrie_fs.Fuse.Lifecycle.{
  Mount, start_mount, stop_mount, start_workers, start_predictor, destruct,
}

-- A mount whose context has never been started.
pub record IsFresh (m : Mount) : Type 0 where
  pub not_started : m.context.is_started ≡ false
  pub pool_open : m.context.pool.shutdown_flag ≡ false
  pub predictor_open : m.context.predictor.stop_flag ≡ false
  pub no_workers : m.workers ≡ []
  pub no_predictor : m.predictor_thread ≡ false

-- The other callbacks and the threads leave the flags and the threads themselves as they are.
pub record Keeps (a b : Mount) : Type 0 where
  pub is_started : b.context.is_started ≡ a.context.is_started
  pub shutdown_flag : b.context.pool.shutdown_flag ≡ a.context.pool.shutdown_flag
  pub stop_flag : b.context.predictor.stop_flag ≡ a.context.predictor.stop_flag
  pub workers : b.workers ≡ a.workers
  pub predictor_thread : b.predictor_thread ≡ a.predictor_thread

-- What the program makes of a mount, where none is started that was stopped before.
pub data Life (m : Mount) : Mount → Type 0 where
  fresh : Life m m
  starts :
      {a b : Mount}
      → Life m a
      → a.context.pool.shutdown_flag ≡ false
      → start_mount a ≡ some b
      → Life m b
  serves : {a b : Mount} → Life m a → Keeps a b → Life m b
  stops : {a b : Mount} → Life m a → b ≡ stop_mount a → Life m b

-- The two flags agree, threads wait to be joined only while the context is started, and a started
-- context has not been shut down.
pub record IsTidy (m : Mount) : Type 0 where
  pub together : m.context.predictor.stop_flag ≡ m.context.pool.shutdown_flag
  pub idle : m.context.is_started ≡ false → (m.workers ≡ []) × (m.predictor_thread ≡ false)
  pub running : m.context.is_started ≡ true → m.context.pool.shutdown_flag ≡ false

IsFresh-IsTidy : (m : Mount) → IsFresh m → IsTidy m
IsFresh-IsTidy m f = record {
  together = f.predictor_open ∙ sym f.pool_open;
  idle = λ e. (f.no_workers, f.no_predictor);
  running = λ e. f.pool_open;
}

start-IsTidy :
    (a b : Mount)
    → a.context.pool.shutdown_flag ≡ false
    → IsTidy a
    → start_mount a ≡ some b
    → IsTidy b
unfolding start_mount start_predictor start
start-IsTidy a b up t e = ground arith

stop-IsTidy : (a : Mount) → IsTidy a → IsTidy (stop_mount a)
unfolding stop_mount stop
stop-IsTidy a t = ground arith

serve-IsTidy : (a b : Mount) → Keeps a b → IsTidy a → IsTidy b
serve-IsTidy a b k t = record {
  together = k.stop_flag ∙ t.together ∙ sym k.shutdown_flag;
  idle = λ e. let (w, p) = t.idle (sym k.is_started ∙ e) in (k.workers ∙ w, k.predictor_thread ∙ p);
  running = λ e. k.shutdown_flag ∙ t.running (sym k.is_started ∙ e);
}

Life-IsTidy : (m : Mount) {a : Mount} → IsFresh m → Life m a → IsTidy a
Life-IsTidy m f fresh = IsFresh-IsTidy m f
Life-IsTidy m f (starts l up e) = start-IsTidy _ _ up (Life-IsTidy m f l) e
Life-IsTidy m f (serves l k) = serve-IsTidy _ _ k (Life-IsTidy m f l)
Life-IsTidy m f (stops {a} l e) = rw e (stop-IsTidy a (Life-IsTidy m f l))

IsTidy-destruct : (a : Mount) → IsTidy a → destruct a ≡ true
unfolding destruct stop_mount stop
IsTidy-destruct a t = ground arith

-- The context is started, or no thread waits to be joined.
abbrev pub IsJoined : Mount → Type 0
IsJoined m =
    (m.context.is_started ≡ true)
    ⊎ ((m.context.is_started ≡ false) × (m.workers ≡ []) × (m.predictor_thread ≡ false))

IsTidy-IsJoined : (m : Mount) → IsTidy m → IsJoined m
IsTidy-IsJoined m t = elim (Bool-cases m.context.is_started) [
  | inl e ↦ inl e
  | inr e ↦ inr (e, (t.idle e).0, (t.idle e).1)
]

-- After any sequence of `start`, `stop` and calls that leave the flags and threads alone, from a
-- context that was never started, in which nothing is started after it has been shut down,
-- destroying the context does not terminate the program, also after one more `stop`, and while the
-- context is not started no thread waits to be joined.
pub Life-destruct :
    (m : Mount) {a : Mount}
    → IsFresh m
    → Life m a
    → (destruct a ≡ true) × IsJoined a × (destruct (stop_mount a) ≡ true)
Life-destruct m {a} f l =
    let t = Life-IsTidy m f l in
    (IsTidy-destruct a t, IsTidy-IsJoined a t, IsTidy-destruct (stop_mount a) (stop-IsTidy a t))

restarted-destruct :
    (a b : Mount)
    → a.context.pool.shutdown_flag ≡ true
    → IsTidy a
    → start_mount a ≡ some b
    → (destruct b ≡ false) × (destruct (stop_mount b) ≡ false)
unfolding destruct stop_mount stop start_mount start_predictor start
restarted-destruct a b down t e = ground arith

abbrev again : Mount → Mount
again a = record {
  context = start a.context;
  workers = start_workers a.context.config.num_workers a.workers;
  predictor_thread = true;
}

restart-runs :
    (a : Mount)
    → a.context.pool.shutdown_flag ≡ true
    → IsTidy a
    → (b : Mount) × (start_mount a ≡ some b) × (b.context.pool.shutdown_flag ≡ true)
unfolding start_mount start_predictor start
restart-runs a down t = elim (Bool-cases a.context.is_started) [
  | inl e ↦ absurd (ground arith)
  | inr e ↦ (again a, rw (e, (t.idle e).1, start_mount), ground arith)
]

-- Where such a sequence has shut the pool down, one more `start` succeeds, the pool stays shut
-- down, and destroying the context then calls `std::terminate`, with or without a `stop` before:
-- the second `stop` does not join the new threads.
pub restart-destruct :
    (m : Mount) {a : Mount}
    → IsFresh m
    → Life m a
    → a.context.pool.shutdown_flag ≡ true
    → (b : Mount) × (start_mount a ≡ some b)
      × (b.context.pool.shutdown_flag ≡ true)
      × (destruct b ≡ false)
      × (destruct (stop_mount b) ≡ false)
restart-destruct m {a} f l down =
    let t = Life-IsTidy m f l in
    let (b, e, still) = restart-runs a down t in
    let (gone, stopped) = restarted-destruct a b down t e in (b, e, still, gone, stopped)

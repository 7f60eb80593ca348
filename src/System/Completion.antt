-- ===== src/System/Completion.antt =====
-- That workers come to an end with the tasks.
use mathlib.Core.List.{Perm}
use mathlib.Core.List.Perm
use valkyrie_fs.System.Promises.{owed, owed_by, takes-Perm, keeps-Perm, same-Perm}
use valkyrie_fs.Base.{
  ◌⊎◌, sym, ℕ, zero, suc, ◌+◌, ◌*◌, ◌≤◌, ◌<◌, ◌≡◌, refl, ap, ◌∙◌, subst, Bool, true, false, List,
  [], ◌∷◌, Text, length, take, arith, size_mod, All, Option-cases, Bool-cases, List-cases, inl, inr,
  ◌==◌, ltb, ltb→lt, ltb→le,
}
use valkyrie_fs.Types.{default_chunk_size}
use valkyrie_fs.Config.{S3Config}
use valkyrie_fs.Cache.{uint64_max}
use valkyrie_fs.Cache.Loop.{evict_if_needed-Evicted}
use valkyrie_fs.Queue.{ThreadSafeQueue}
use valkyrie_fs.Queue.Order.{pop-Pops}
use valkyrie_fs.Pool.{S3Client, PrefetchTask, Pool, get_request, zone_of}
use valkyrie_fs.System.Tasks.{IsRight}
use valkyrie_fs.System.Phases.{IsBusy}
use valkyrie_fs.Cache.Insert.{store_chunk-Stores}
use valkyrie_fs.Pool.Objects.{Serves}
use valkyrie_fs.System.Interleaved.{IsSafe, CrewStep-IsSafe}
use valkyrie_fs.System.Crew.{
  Phase, fetching, holding, storing, done, Running, Crew, Works, refused, empty, answered, evicted,
  stored, CrewStep, takes, goes_on, keeps, CrewReach, here, next,
}

-- The steps that a worker has left for its task, and those that are left for all tasks.
abbrev pub phase_left : Phase → ℕ
phase_left fetching = 4
phase_left (holding bytes) = 3
phase_left (storing bytes) = 2
phase_left (done ok) = 1

abbrev pub running_left : List Running → ℕ
running_left [] = 0
running_left (r ∷ rs) = phase_left r.phase + running_left rs

abbrev pub work_left : Crew → ℕ
work_left c = 5 * length c.context.pool.task_queue.items + running_left c.running

first-step : {s3 : S3Client} {c d e : Crew} → CrewStep s3 c d → CrewReach s3 d e → CrewReach s3 c e
first-step st here = next here st
first-step st (next r last) = next (first-step st r) last

module _ (s3 : S3Client) (objects : Text → List ℕ) (config : S3Config) (now : ℕ)
    (time : now < uint64_max) where
  -- What a worker's step changes of the pool.
  abbrev pub Advances : Pool → Phase → Pool → Phase → Type 0
  Advances p ph p' ph' =
      (phase_left ph' < phase_left ph)
      × (p'.task_queue ≡ p.task_queue)
      × (p'.completed ≡ p.completed)
      × (p'.working ≡ p.working)
      × (p'.shutdown_flag ≡ p.shutdown_flag)
      × (p'.cache.current_size ≤ p.cache.current_size + default_chunk_size)

  abbrev running_of : PrefetchTask → Phase → Running
  running_of t ph = record { task = t; phase = ph }

  -- A worker that has a result is the next to set its promise; another one has a step to take.
  worker_step :
      (p : Pool) (t : PrefetchTask) (ph : Phase)
      → IsRight objects config 0 p
      → IsBusy objects p.next_promise (running_of t ph)
      → p.cache.current_size + default_chunk_size < size_mod
      → ((ok : Bool) × (ph ≡ done ok))
        ⊎ ((p' : Pool) × (ph' : Phase) × Works s3 p (running_of t ph) p' (running_of t ph')
            × Advances p ph p' ph')
  worker_step p t (done ok) right busy room = inl (ok, refl)
  worker_step p t fetching right busy room = elim (Option-cases (s3.get_object (get_request p t))) [
    | inl e ↦
        inr (_, done false, refused e refl, (omega arith, refl, refl, refl, refl, omega arith))
    | inr (body, e) ↦ elim (Bool-cases (length (take t.size body) == 0)) [
      | inl no_bytes ↦ inr (
        _,
        done false,
        empty body e no_bytes refl,
        (omega arith, refl, refl, refl, refl, omega arith),
      )
      | inr some_bytes ↦ inr (
        _,
        holding (take t.size body),
        answered body e some_bytes refl refl,
        (omega arith, refl, refl, refl, refl, omega arith),
      )
    ]
  ]
  worker_step p t (holding bytes) right busy room =
      let (d, ran, ev) =
        evict_if_needed-Evicted p.cache (length bytes) right.sound.inv right.sound.named in
      inr (
        _,
        storing bytes,
        evicted d ran refl,
        (omega arith, refl, refl, refl, refl, omega (arith, ev.shrinks)),
      )
  worker_step p t (storing bytes) right busy room =
      let fits : p.cache.current_size + length bytes < size_mod = omega (arith, busy.phase.short) in
      let st =
        store_chunk-Stores p.cache t.s3_key t.offset bytes (zone_of t.priority) now right.sound.inv
          time fits in
      inr (
        _,
        done true,
        stored now time fits refl,
        (omega arith, refl, refl, refl, refl, omega (arith, st.counter, busy.phase.short)),
      )

  -- What a step of the crew's workers changes.
  abbrev pub Lessens : Crew → Crew → Type 0
  Lessens c d =
      (work_left d < work_left c)
      × (d.context.pool.shutdown_flag ≡ c.context.pool.shutdown_flag)
      × (d.context.pool.working ≡ c.context.pool.working)
      × (d.context.pool.cache.current_size ≤ c.context.pool.cache.current_size + default_chunk_size)
      × Perm (owed d) (owed c)

  crew_step :
      (c : Crew)
      → IsSafe objects config c
      → c.context.pool.shutdown_flag ≡ false
      → c.context.pool.working ≡ true
      → c.context.pool.cache.current_size + default_chunk_size < size_mod
      → 0 < work_left c
      → (d : Crew) × CrewStep s3 c d × Lessens c d
  crew_step c s up works room more = elim (List-cases c.running) [
    | inl idle ↦ elim (pop-Pops c.context.pool.task_queue) [
      | inl (none_left, _, _) ↦ absurd (omega (arith, ap length none_left, ap running_left idle))
      | inr (inl (none_left, _, _)) ↦
          absurd (omega (arith, ap length none_left, ap running_left idle))
      | inr (inr (top, rest, e, pops, _)) ↦ (
        record {
          context = record c.context { pool = record c.context.pool { task_queue = rest } };
          running = record { task = top.item; phase = fetching } ∷ c.running;
        },
        takes top rest up works e refl refl,
        (
          omega (arith, pops.counted),
          refl,
          refl,
          omega arith,
          takes-Perm c.running (record { task = top.item; phase = fetching })
              c.context.pool.task_queue.items rest.items c.context.pool.completed top pops.perm
              refl,
        ),
      )
    ]
    | inr (r, rs, some_work) ↦
        let busy : All (IsBusy objects c.context.pool.next_promise) (r ∷ rs) =
          subst (All (IsBusy objects c.context.pool.next_promise)) some_work s.busy in
        let left = ap running_left some_work in
        elim (worker_step c.context.pool r.task r.phase s.runs.1 busy.0 room) [
          | inl (ok, e) ↦ (
            record {
              context = record c.context {
                pool = record c.context.pool {
                  completed = (r.task.completion, ok) ∷ c.context.pool.completed;
                };
              };
              running = rs;
            },
            keeps [] rs r.task ok (some_work ∙ ap (λ (ph : Phase). running_of r.task ph ∷ rs) e)
                refl refl,
            (
              omega (arith, left, ap phase_left e),
              refl,
              refl,
              omega arith,
              subst
                  (λ (ws : List Running).
                    Perm
                      (owed_by rs c.context.pool.task_queue.items
                        ((r.task.completion, ok) ∷ c.context.pool.completed))
                      (owed_by ws c.context.pool.task_queue.items c.context.pool.completed))
                  (sym some_work)
                  (keeps-Perm rs r c.context.pool.task_queue.items c.context.pool.completed ok),
            ),
          )
          | inr (p', ph', w, (less, queue, values, work, same, size)) ↦ (
            record {
              context = record c.context { pool = p' };
              running = running_of r.task ph' ∷ rs;
            },
            goes_on [] rs r (running_of r.task ph') p' some_work w refl refl,
            (
              omega (
                arith,
                left,
                less,
                ap (λ (q : ThreadSafeQueue PrefetchTask). length q.items) queue,
              ),
              same,
              work,
              size,
              subst
                  (λ (ws : List Running).
                    Perm (owed_by (r ∷ rs) p'.task_queue.items p'.completed)
                      (owed_by ws c.context.pool.task_queue.items c.context.pool.completed))
                  (sym some_work)
                  (same-Perm (r ∷ rs) (ap (λ (q : ThreadSafeQueue PrefetchTask). q.items) queue)
                    values),
            ),
          )
        ]
  ]

  module _ (small : (k : Text) → length (objects k) + default_chunk_size ≤ size_mod)
      (serves : (k : Text) → Serves s3 config k (objects k)) where
    pub crew_run :
        (n : ℕ) (c : Crew)
        → IsSafe objects config c
        → c.context.pool.shutdown_flag ≡ false
        → c.context.pool.working ≡ true
        → work_left c ≤ n
        → c.context.pool.cache.current_size + suc n * default_chunk_size < size_mod
        → (d : Crew) × CrewReach s3 c d × (work_left d ≡ 0) × Perm (owed d) (owed c)
    crew_run zero c s up works enough room = (c, here, omega arith, Perm.refl (owed c))
    crew_run (suc n) c s up works enough room = elim (Bool-cases (ltb 0 (work_left c))) [
      | inr rest ↦ (c, here, omega (arith, ltb→le 0 (work_left c) rest), Perm.refl (owed c))
      | inl more ↦
          let (d, st, (less, same, work, size, perm)) =
            crew_step c s up works (omega arith) (ltb→lt 0 (work_left c) more) in
          let (e, reach, end, perm') =
            crew_run n d (CrewStep-IsSafe s3 objects config small serves st s) (same ∙ up)
              (work ∙ works) (omega (arith, less)) (omega (arith, size)) in
          (e, first-step st reach, end, Perm.trans perm' perm)
    ]

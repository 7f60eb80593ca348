-- ===== src/System/Promises.antt =====
-- The promises of the tasks that are queued, that workers have, and that are done.
use mathlib.Core.List.{Perm}
use mathlib.Core.List.Perm
use valkyrie_fs.Base.{ℕ, ◌≡◌, sym, subst, Bool, List, [], ◌∷◌, ◌++◌, map}
use valkyrie_fs.Queue.{QueueItem}
use valkyrie_fs.Pool.{PrefetchTask}
use valkyrie_fs.System.Crew.{Running, Crew}

abbrev pub owed_by : List Running → List (QueueItem PrefetchTask) → List (ℕ × Bool) → List ℕ
owed_by running items completed =
    map (λ (r : Running). r.task.completion) running
    ++ (map (λ (x : QueueItem PrefetchTask). x.item.completion) items
        ++ map (λ (x : ℕ × Bool). x.0) completed)

-- The promises of all of a crew's tasks, and those that have a value.
abbrev pub owed : Crew → List ℕ
owed c = owed_by c.running c.context.pool.task_queue.items c.context.pool.completed

middle {ℓ} : {A : Type ℓ} (a : A) (xs ys : List A) → Perm (xs ++ a ∷ ys) (a ∷ (xs ++ ys))
middle a [] ys = Perm.refl (a ∷ ys)
middle a (x ∷ xs) ys = Perm.trans (Perm.cons x (middle a xs ys)) (Perm.swap a x (xs ++ ys))

-- A worker takes a task.
pub takes-Perm :
    (running : List Running) (r : Running) (items rest : List (QueueItem PrefetchTask))
    (completed : List (ℕ × Bool)) (top : QueueItem PrefetchTask)
    → Perm items (top ∷ rest)
    → r.task.completion ≡ top.item.completion
    → Perm (owed_by (r ∷ running) rest completed) (owed_by running items completed)
takes-Perm running r items rest completed top perm same =
    let before = map (λ (x : Running). x.task.completion) running in
    let kept = map (λ (x : ℕ × Bool). x.0) completed in
    let waiting = map (λ (x : QueueItem PrefetchTask). x.item.completion) rest in
    Perm.symm (
      Perm.trans
        (Perm.append_left before (
          Perm.append_right kept
            (Perm.map (λ (x : QueueItem PrefetchTask). x.item.completion) perm)))
        (subst
          (λ k.
            Perm (before ++ top.item.completion ∷ (waiting ++ kept))
              (k ∷ (before ++ (waiting ++ kept))))
          (sym same) (middle top.item.completion before (waiting ++ kept))))

-- A worker sets its task's promise.
pub keeps-Perm :
    (running : List Running) (r : Running) (items : List (QueueItem PrefetchTask))
    (completed : List (ℕ × Bool)) (ok : Bool)
    → Perm
        (owed_by running items ((r.task.completion, ok) ∷ completed))
        (owed_by (r ∷ running) items completed)
keeps-Perm running r items completed ok =
    let before = map (λ (x : Running). x.task.completion) running in
    let waiting = map (λ (x : QueueItem PrefetchTask). x.item.completion) items in
    let kept = map (λ (x : ℕ × Bool). x.0) completed in
    Perm.trans (Perm.append_left before (middle r.task.completion waiting kept))
      (middle r.task.completion before (waiting ++ kept))

-- A worker goes on with its task.
pub same-Perm :
    (running : List Running) {items rest : List (QueueItem PrefetchTask)}
    {completed kept : List (ℕ × Bool)}
    → items ≡ rest
    → completed ≡ kept
    → Perm (owed_by running items completed) (owed_by running rest kept)
same-Perm running {items} {completed = completed} {kept} e f =
    subst
      (λ (xs : List (QueueItem PrefetchTask)).
        Perm (owed_by running items completed) (owed_by running xs kept))
      e
      (subst
        (λ (ks : List (ℕ × Bool)).
          Perm (owed_by running items completed) (owed_by running items ks))
        f (Perm.refl (owed_by running items completed)))

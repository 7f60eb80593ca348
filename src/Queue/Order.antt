-- ===== src/Queue/Order.antt =====
-- Which item a `pop` returns, and what is left.
use mathlib.Core.List.{Perm, Mem, mem-cons, not-mem-nil, mem-cons_self, mem-cons_of_mem}
use mathlib.Core.Logic.Or
use native.Mathlib.Bridge.{le_prop}
use mathlib.Core.List.Perm
use valkyrie_fs.Base.{
  ℕ, zero, suc, ◌≤◌, ◌≡◌, refl, ap, true, false, some, List, [], ◌∷◌, length, ltb→lt, ltb→le,
  Bool-cases, List-cases, arith, ◌⊎◌, inl, inr, All,
}
use valkyrie_fs.Types.{priority_rank}
use valkyrie_fs.Queue.{
  QueueItem, ThreadSafeQueue, less, pop_top, try_pop, empty, waits, stopped, popped, pop,
}

abbrev pub rank {ℓ} : {T : Type ℓ} → QueueItem T → ℕ
rank x = priority_rank x.priority

-- `top` is one of the items, none of the others is more urgent, and the others stay.
pub record Pops {ℓ} {T : Type ℓ} (xs : List (QueueItem T)) (top : QueueItem T)
    (rest : List (QueueItem T)) : Type ℓ where
  pub perm : Perm xs (top ∷ rest)
  pub first : All (λ y. rank top ≤ rank y) xs
  pub left : All (λ y. rank top ≤ rank y) rest
  pub counted : length xs ≡ suc (length rest)

module _ {ℓ} {T : Type ℓ} where
  All-mono :
      (m n : ℕ) (xs : List (QueueItem T))
      → m ≤ n
      → All (λ y. n ≤ rank y) xs
      → All (λ y. m ≤ rank y) xs
  All-mono m n [] h a = tt
  All-mono m n (x ∷ xs) h a = (omega arith, All-mono m n xs h a.1)

  pop_top-Pops :
      (x : QueueItem T) (xs : List (QueueItem T)) → Pops (x ∷ xs) (pop_top x xs).0 (pop_top x xs).1
  unfolding pop_top
  pop_top-Pops x [] = record {
    perm = Perm.refl (x ∷ []);
    first = (omega arith, tt);
    left = tt;
    counted = refl;
  }
  pop_top-Pops x (y ∷ ys) =
      let p = pop_top-Pops y ys in
      let best = (pop_top y ys).0 in
      elim (Bool-cases (less x best)) [
        | inl worse ↦
            rw (worse, pop_top)
              (record {
                perm = Perm.trans (Perm.cons x p.perm) (Perm.swap best x (pop_top y ys).1);
                first = (omega (arith, ltb→lt _ _ worse), p.first);
                left = (omega (arith, ltb→lt _ _ worse), p.left);
                counted = omega (arith, p.counted);
              })
        | inr better ↦
            let all = All-mono (rank x) (rank best) (y ∷ ys) (ltb→le _ _ better) p.first in
            rw (better, pop_top)
              (record {
                perm = Perm.refl (x ∷ y ∷ ys);
                first = (omega arith, all);
                left = all;
                counted = refl;
              })
      ]

  pub try_pop_lem :
      (q : ThreadSafeQueue T) (x : QueueItem T) (xs : List (QueueItem T))
      → q.items ≡ x ∷ xs
      → try_pop q ≡ some ((pop_top x xs).0, record q { items = (pop_top x xs).1 })
  unfolding try_pop
  try_pop_lem q x xs e = ground arith

  -- The three results of a `pop`, with what each says of the queue.
  abbrev pub PopResult : ThreadSafeQueue T → Type ℓ
  PopResult q =
      ((q.items ≡ []) × (q.shutdown_flag ≡ false) × (pop q ≡ waits))
      ⊎ (((q.items ≡ []) × (q.shutdown_flag ≡ true) × (pop q ≡ stopped))
          ⊎ ((top : QueueItem T) × (q' : ThreadSafeQueue T) × (pop q ≡ popped top q')
              × Pops q.items top q'.items
              × (q'.shutdown_flag ≡ q.shutdown_flag)))

  -- For every queue, `pop` waits if it is empty and open, reports the end if it is empty and shut
  -- down, and otherwise returns an item than which none in the queue is more urgent, leaving the
  -- other items and the shutdown flag.
  pub pop-Pops : (q : ThreadSafeQueue T) → PopResult q
  unfolding pop empty
  pop-Pops q = elim (List-cases q.items) [
    | inl e ↦ elim (Bool-cases q.shutdown_flag) [
      | inl down ↦ inr (inl (e, down, ground arith))
      | inr up ↦ inl (e, up, ground arith)
    ]
    | inr (x, xs, e) ↦ inr (
        inr (
          (pop_top x xs).0,
          record q { items = (pop_top x xs).1 },
          ground (arith, try_pop_lem q x xs e),
          rw e (pop_top-Pops x xs),
          refl,
        ))
  ]

-- `pop` again and again, at most `n` times, until it waits or reports the end.
unfoldable pub drain {ℓ} : {T : Type ℓ} → ℕ → ThreadSafeQueue T → List (QueueItem T)
drain zero q = []
drain (suc n) q = elim (pop q) [ waits ↦ [] | stopped ↦ [] | popped top q' ↦ top ∷ drain n q' ]

-- Each item is at least as urgent as all that come later.
abbrev pub IsOrdered {ℓ} : {T : Type ℓ} → List (QueueItem T) → Type 0
IsOrdered [] = Unit
IsOrdered (x ∷ xs) = All (λ y. rank x ≤ rank y) xs × IsOrdered xs

module _ {ℓ} {T : Type ℓ} where
  All-mem :
      (n : ℕ) (xs : List (QueueItem T)) {y : QueueItem T}
      → All (λ y. n ≤ rank y) xs
      → Mem y xs
      → n ≤ rank y
  All-mem n [] a m = absurd (not-mem-nil m)
  All-mem n (x ∷ xs) a m = Or.elim le_prop (mem-cons.0 m) (λ e. rw e a.0) (All-mem n xs a.1)

  mem-All :
      (n : ℕ) (xs : List (QueueItem T))
      → ((y : QueueItem T) → Mem y xs → n ≤ rank y)
      → All (λ y. n ≤ rank y) xs
  mem-All n [] h = tt
  mem-All n (x ∷ xs) h = (h x mem-cons_self, mem-All n xs (λ y m. h y (mem-cons_of_mem x m)))

  -- What the items of a list have in common, a permutation of it has too.
  All-perm :
      (n : ℕ) {xs ys : List (QueueItem T)}
      → Perm xs ys
      → All (λ y. n ≤ rank y) xs
      → All (λ y. n ≤ rank y) ys
  All-perm n {xs} {ys} p a = mem-All n ys (λ y m. All-mem n xs a ((Perm.mem_iff p).1 m))

  drain_from :
      (n : ℕ) (q : ThreadSafeQueue T)
      → length q.items ≡ n
      → PopResult q
      → Perm (drain n q) q.items × IsOrdered (drain n q)
  unfolding drain
  drain_from zero q e r = (
    elim (List-cases q.items) [
      | inl none_left ↦ rw none_left (Perm.refl [])
      | inr (x, xs, more) ↦ absurd (omega (arith, ap length more))
    ],
    tt,
  )
  drain_from (suc n) q e (inl (none_left, up, w)) = absurd (omega (arith, ap length none_left))
  drain_from (suc n) q e (inr (inl (none_left, down, w))) =
      absurd (omega (arith, ap length none_left))
  drain_from (suc n) q e (inr (inr (top, q', w, p, same))) =
      let (perm, ordered) = drain_from n q' (omega (arith, p.counted)) (pop-Pops q') in
      rw (w, drain)
        (
          Perm.trans (Perm.cons top perm) (Perm.symm p.perm),
          (All-perm (rank top) (Perm.symm perm) p.left, ordered),
        )

  -- As many pops as a queue has items return exactly its items, the most urgent first.
  pub drain-IsOrdered :
      (n : ℕ) (q : ThreadSafeQueue T)
      → length q.items ≡ n
      → Perm (drain n q) q.items × IsOrdered (drain n q)
  drain-IsOrdered n q e = drain_from n q e (pop-Pops q)

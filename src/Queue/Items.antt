-- ===== src/Queue/Items.antt =====
-- What every item of a queue satisfies, a `pop` keeps.
use valkyrie_fs.Base.{◌≡◌, subst, List, [], ◌∷◌, All, Bool-cases, List-cases, inl, inr, arith}
use valkyrie_fs.Queue.{QueueItem, ThreadSafeQueue, less, pop_top, try_pop, empty, pop, popped}
use valkyrie_fs.Queue.Order.{try_pop_lem}

module _ {ℓ} {T : Type ℓ} (P : QueueItem T → Type ℓ) where
  pop_top-All :
      (x : QueueItem T) (xs : List (QueueItem T))
      → P x
      → All P xs
      → P (pop_top x xs).0 × All P (pop_top x xs).1
  unfolding pop_top
  pop_top-All x [] h a = (h, tt)
  pop_top-All x (y ∷ ys) h a =
      let (best, rest) = pop_top-All y ys a.0 a.1 in
      elim (Bool-cases (less x (pop_top y ys).0)) [
        | inl worse ↦ rw (worse, pop_top) (best, (h, rest))
        | inr better ↦ rw (better, pop_top) (h, a)
      ]

  pop_lem :
      (q : ThreadSafeQueue T) (x : QueueItem T) (xs : List (QueueItem T))
      → q.items ≡ x ∷ xs
      → pop q ≡ popped (pop_top x xs).0 (record q { items = (pop_top x xs).1 })
  unfolding pop empty
  pop_lem q x xs e = ground (arith, try_pop_lem q x xs e)

  nothing_popped :
      (q rest : ThreadSafeQueue T) (top : QueueItem T) → q.items ≡ [] → pop q ≡ popped top rest → ⊥
  unfolding pop empty try_pop
  nothing_popped q rest top e p = ground arith

  pub pop-All :
      (q rest : ThreadSafeQueue T) (top : QueueItem T)
      → All P q.items
      → pop q ≡ popped top rest
      → P top × All P rest.items
  pop-All q rest top a e = elim (List-cases q.items) [
    | inl none_left ↦ absurd (nothing_popped q rest top none_left e)
    | inr (x, xs, items) ↦
        let all : All P (x ∷ xs) = subst (All P) items a in
        let kept = pop_top-All x xs all.0 all.1 in
        let e' = pop_lem q x xs items in
        let same_top : (pop_top x xs).0 ≡ top = cc in
        let same_rest : record q { items = (pop_top x xs).1 } ≡ rest = cc in
        (subst P same_top kept.0, subst (λ (r : ThreadSafeQueue T). All P r.items) same_rest kept.1)
  ]

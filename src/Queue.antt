-- ===== src/Queue.antt =====
-- src/thread_safe_queue.hpp. `std::priority_queue` leaves open which of several greatest items is
-- at the top: `Pops` allows each of them, and `pop_top` takes the first. What a call does under the
-- mutex is a function; a `pop` that has to wait returns nothing yet.
pub mod Order
pub mod Items
use valkyrie_fs.Base.{
  ℕ, suc, ◌+◌, ◌≤◌, ◌<◌, ◌≡◌, ◌≢◌, refl, Bool, true, false, ◌&&◌, ◌||◌, not, Option, none, some,
  List, [], ◌∷◌, ◌++◌, length, ltb, if◌then◌else◌, arith, ◌⊎◌, inl, inr,
}
use valkyrie_fs.Types.{Priority, priority_rank}

pub record QueueItem {ℓ} (T : Type ℓ) : Type ℓ where
  pub item : T
  pub priority : Priority

pub record ThreadSafeQueue {ℓ} (T : Type ℓ) : Type ℓ where
  pub items : List (QueueItem T)
  pub shutdown_flag : Bool

module _ {ℓ} {T : Type ℓ} where
  -- `QueueItem::operator<`
  abbrev pub less : QueueItem T → QueueItem T → Bool
  less a b = ltb (priority_rank b.priority) (priority_rank a.priority)

  unfoldable pub new_queue : ThreadSafeQueue T
  new_queue = record { items = []; shutdown_flag = false }

  unfoldable pub push : ThreadSafeQueue T → T → Priority → ThreadSafeQueue T
  push q item priority =
      if q.shutdown_flag
      then q
      else record q { items = q.items ++ record { item = item; priority = priority } ∷ [] }

  -- A greatest item of `x ∷ xs`, and the others.
  unfoldable pub pop_top : QueueItem T → List (QueueItem T) → QueueItem T × List (QueueItem T)
  pop_top x [] = (x, [])
  pop_top x (y ∷ ys) =
      let (best, rest) = pop_top y ys in if less x best then (best, x ∷ rest) else (x, y ∷ ys)

  unfoldable pub try_pop : ThreadSafeQueue T → Option (QueueItem T × ThreadSafeQueue T)
  unfolding pop_top
  try_pop q = elim q.items [
    | [] ↦ none
    | x ∷ xs ↦ let (top, rest) = pop_top x xs in some (top, record q { items = rest })
  ]

  unfoldable pub shutdown : ThreadSafeQueue T → ThreadSafeQueue T
  shutdown q = record q { shutdown_flag = true }

  unfoldable pub empty : ThreadSafeQueue T → Bool
  empty q = elim q.items [ [] ↦ true | _ ∷ _ ↦ false ]

  unfoldable pub size : ThreadSafeQueue T → ℕ
  size q = length q.items

-- What `pop` finds: it has to wait, or it returns an item or nothing.
pub data Popped {ℓ} (T : Type ℓ) : Type ℓ where
  waits : Popped T
  stopped : Popped T
  popped : QueueItem T → ThreadSafeQueue T → Popped T

module _ {ℓ} {T : Type ℓ} where
  -- The predicate that `cv_.wait` waits for.
  abbrev pub ready : ThreadSafeQueue T → Bool
  ready q = not (empty q) || q.shutdown_flag

  abbrev from_try : Option (QueueItem T × ThreadSafeQueue T) → Popped T
  from_try none = stopped
  from_try (some (top, q)) = popped top q

  unfoldable pub pop : ThreadSafeQueue T → Popped T
  unfolding empty try_pop
  pop q =
      if ready q
      then (if q.shutdown_flag && empty q then stopped else from_try (try_pop q))
      else waits

-- ===== src/Cache/Interleaving.antt =====
-- The cache under several threads. Each step runs under `cache_mutex_`; `insert_chunk` is two
-- steps, since `evict_if_needed` gives the lock back before the chunk is stored.
use valkyrie_fs.Base.Assoc
use valkyrie_fs.Types.{CacheZone}
use valkyrie_fs.Cache.{
  CacheManager, new_cache, find_file, uint64_max, access, store_chunk, evict_if_needed, over,
  get_chunk, insert_chunk, new_chunk,
}
use valkyrie_fs.Cache.Invariant.{Inv, new_cache-Inv}
use valkyrie_fs.Cache.Access.{access-Inv, access-Accesses, access_missing}
use valkyrie_fs.Cache.Loop.{evict_if_needed-Evicted}
use valkyrie_fs.Cache.Capacity.{
  evict_fits, IsExact, opened-none, insert_chunk-get_chunk, insert_chunk-IsExact,
}
use valkyrie_fs.Cache.Store.{opened}
use valkyrie_fs.Cache.Insert.{store_chunk-Stores, Stores}
use valkyrie_fs.Base.{
  ℕ, ◌+◌, ◌<◌, ◌≡◌, ◌≢◌, refl, sym, ap, ◌∙◌, false, none, some, List, [], Text, arith, Option-cases,
  inl, inr, length, size_mod, ltb→le, add64, ◌≤◌, Option,
}

pub data Step (c c' : CacheManager) : Type 0 where
  evicts : (required : ℕ) → evict_if_needed c required ≡ some c' → Step c c'
  stores :
      (key : Text) (offset : ℕ) (bytes : List ℕ) (zone : CacheZone) (now : ℕ)
      → key ≢ []
      → now < uint64_max
      → c.current_size + length bytes < size_mod
      → c' ≡ store_chunk c key offset bytes zone now
      → Step c c'
  accesses :
      (key : Text) (offset now : ℕ) → now < uint64_max → c' ≡ access c key offset now → Step c c'

pub data Reach (c : CacheManager) : CacheManager → Type 0 where
  here : Reach c c
  next : {d e : CacheManager} → Reach c d → Step d e → Reach c e

pub record IsSound (c : CacheManager) : Type 0 where
  pub inv : Inv c
  pub named : find_file [] c ≡ none

pub Step-IsSound : {c c' : CacheManager} → Step c c' → IsSound c → IsSound c'
Step-IsSound {c} {c'} (evicts required ran) s =
    let (d, ran', ev) = evict_if_needed-Evicted c required s.inv s.named in
    let same : d ≡ c' = cc in
    rw (← same) (record {
      inv = ev.inv;
      named = elim (Option-cases (find_file [] d)) [
        | inl e ↦ e
        | inr (f, e) ↦ absurd (cc (ev.kept [] f e, s.named))
      ];
    })
Step-IsSound {c} (stores key offset bytes zone now named time fits e) s =
    let st = store_chunk-Stores c key offset bytes zone now s.inv time fits in
    rw e (record { inv = st.inv; named = st.others [] (λ p. named (sym p)) ∙ s.named })
Step-IsSound {c} (accesses key offset now time e) s = rw e (record {
  inv = access-Inv c key offset now s.inv time;
  named = elim (Option-cases (find_file key c)) [
    | inl missing ↦ rw (access_missing c key offset now missing) (s.named)
    | inr (f, found) ↦
        (access-Accesses c key f offset now s.inv found time).1.others []
          (λ p. absurd (cc (ap (λ q. find_file q c) p, s.named)))
        ∙ s.named
  ];
})

Reach-IsSound : (n : ℕ) {c : CacheManager} → Reach (new_cache n) c → IsSound c
unfolding new_cache Assoc.lookup
Reach-IsSound n here = record { inv = new_cache-Inv n; named = refl }
Reach-IsSound n (next r st) = Step-IsSound st (Reach-IsSound n r)

-- A cache that any sequence of evictions, stores and accesses makes of an empty one satisfies
-- `Inv`, holds no file with the empty key, and its next `evict_if_needed` ends. The sequence stores
-- under keys that are not empty, at times before `UINT64_MAX`, and without a wrap of the counter.
pub Reach-evict_if_needed :
    (n : ℕ) {c : CacheManager} (required : ℕ)
    → Reach (new_cache n) c
    → IsSound c × ((d : CacheManager) × (evict_if_needed c required ≡ some d))
Reach-evict_if_needed n {c} required r =
    let s = Reach-IsSound n r in
    let (d, ran, ev) = evict_if_needed-Evicted c required s.inv s.named in (s, (d, ran))

inserted :
    (c : CacheManager) (key : Text) (offset : ℕ) (bytes : List ℕ) (zone : CacheZone) (now : ℕ)
    → over c (length bytes) ≡ false
    → insert_chunk c key offset bytes zone now ≡ some (store_chunk c key offset bytes zone now)
unfolding insert_chunk
inserted c key offset bytes zone now fit = rw (evict_fits c (length bytes) fit, insert_chunk) refl

still_absent :
    (c d : CacheManager) (key : Text) (offset : ℕ)
    → find_file key d ≡ find_file key c
    → get_chunk c key offset ≡ none
    → get_chunk d key offset ≡ none
unfolding get_chunk
still_absent c d key offset same absent = rw same absent

same_cache : {o : Option CacheManager} {c d : CacheManager} → o ≡ some c → o ≡ some d → c ≡ d
same_cache a b = cc

-- What the two orders of the steps lead to.
pub record Overfills (c : CacheManager) (a b : Text) (xs ys : List ℕ) (zone : CacheZone) (now : ℕ)
    : Type 0 where
  -- Both threads evict before either stores, and neither has anything to evict.
  pub evict_a : evict_if_needed c (length xs) ≡ some c
  pub evict_b : evict_if_needed c (length ys) ≡ some c
  -- After both stores the counter is right, and above the limit.
  pub counted : IsExact (store_chunk (store_chunk c a 0 xs zone now) b 0 ys zone now)
  pub over_limit :
      (store_chunk (store_chunk c a 0 xs zone now) b 0 ys zone now).max_size
      < (store_chunk (store_chunk c a 0 xs zone now) b 0 ys zone now).current_size
  -- One insertion after the other stays within the limit.
  pub one_by_one :
      (d e : CacheManager) × (insert_chunk c a 0 xs zone now ≡ some d)
      × (insert_chunk d b 0 ys zone now ≡ some e)
      × (e.current_size ≤ e.max_size)

module _ (c : CacheManager) (a b : Text) (xs ys : List ℕ) (zone : CacheZone) (now : ℕ)
    (s : IsSound c) (exact : IsExact c) (na : a ≢ []) (other : b ≢ a)
    (no_a : get_chunk c a 0 ≡ none) (no_b : get_chunk c b 0 ≡ none) (time : now < uint64_max)
    (fa : over c (length xs) ≡ false) (fb : over c (length ys) ≡ false)
    (big : c.max_size < c.current_size + length xs + length ys)
    (fits : c.current_size + length xs + length ys < size_mod) where
  abbrev first : CacheManager
  first = store_chunk c a 0 xs zone now

  first-Stores : Stores c a (opened c a zone) 0 (new_chunk xs now) first
  first-Stores = store_chunk-Stores c a 0 xs zone now s.inv time (omega arith)

  first-IsExact : IsExact first
  first-IsExact = omega (
    arith,
    exact,
    first-Stores.total,
    first-Stores.counter,
    opened-none c c a zone 0 (λ k f e. e) no_a,
  )

  first_absent : get_chunk first b 0 ≡ none
  first_absent = still_absent c first b 0 (first-Stores.others b other) no_b

  serial :
      (d e : CacheManager) × (insert_chunk c a 0 xs zone now ≡ some d)
      × (insert_chunk d b 0 ys zone now ≡ some e)
      × (e.current_size ≤ e.max_size)
  serial =
      let named = first-Stores.others [] (λ p. na (sym p)) ∙ s.named in
      let room : first.current_size + length ys < size_mod = omega (arith, first-Stores.counter) in
      let (e, ran, _, limit, _) =
        insert_chunk-get_chunk first b 0 ys zone now first-Stores.inv named time room in
      let (e', ran', _, size) =
        insert_chunk-IsExact first b 0 ys zone now first-Stores.inv named time room first-IsExact
          first_absent in
      (
        first,
        e,
        inserted c a 0 xs zone now fa,
        ran,
        omega (
          arith,
          size,
          limit,
          first-Stores.limit,
          ap (λ (d : CacheManager). d.current_size) (same_cache ran ran'),
          ltb→le c.max_size (add64 c.current_size (length ys)) fb,
        ),
      )

  -- Where two threads insert at offset 0 of different files, and neither has a chunk there, each
  -- chunk fits into the cache without an eviction and the two together do not, the evictions of
  -- both, one after the other, leave the cache as it is, and the two stores then make a cache whose
  -- counter is exact and above the limit, while one whole `insert_chunk` after the other ends
  -- within the limit. The cache satisfies `Inv`, has no file with the empty key and an exact
  -- counter, the first key is not empty, the clock is below `UINT64_MAX`, and the sum of sizes fits
  -- into a `size_t`.
  pub interleaved_inserts-Overfills : Overfills c a b xs ys zone now
  interleaved_inserts-Overfills =
      let t =
        store_chunk-Stores first b 0 ys zone now first-Stores.inv time
          (omega (arith, first-Stores.counter)) in
      record {
        evict_a = evict_fits c (length xs) fa;
        evict_b = evict_fits c (length ys) fb;
        counted = omega (
          arith,
          first-IsExact,
          t.total,
          t.counter,
          opened-none first first b zone 0 (λ k f e. e) first_absent,
        );
        over_limit = omega (arith, first-Stores.counter, t.counter, first-Stores.limit, t.limit);
        one_by_one = serial;
      }

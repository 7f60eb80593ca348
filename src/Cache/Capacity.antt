-- ===== src/Cache/Capacity.antt =====
-- The whole of `insert_chunk`, eviction and store, and how large the cache gets.
use valkyrie_fs.Base.{
  ℕ, ◌+◌, ◌≤◌, ◌<◌, ◌≡◌, refl, sym, ap, ◌∙◌, false, none, some, List, [], Text, text_dec,
  ℕ_discrete, arith, Option-cases, inl, inr, length, size_mod, add64, ltb→le, max,
}
use valkyrie_fs.Base.Assoc
use valkyrie_fs.Types.{CacheZone}
use valkyrie_fs.Cache.{
  Chunk, FileEntry, CacheManager, new_chunk, find_file, find_chunk, store_chunk, uint64_max,
  get_chunk, insert_chunk, evict_if_needed, over, evict_loop,
}
use valkyrie_fs.Cache.Sizes.{total_bytes, file_bytes}
use valkyrie_fs.Cache.Invariant.{Inv}
use valkyrie_fs.Cache.Store.{opened}
use valkyrie_fs.Cache.Insert.{Stores, store_chunk-Stores, replaced_bytes}
use valkyrie_fs.Cache.Loop.{Evicted, evict_if_needed-Evicted}

-- The state after the eviction, and the one after the store.
pub record Inserts (c : CacheManager) (key : Text) (offset : ℕ) (bytes : List ℕ) (zone : CacheZone)
    (now : ℕ) (d c' : CacheManager) : Type 0 where
  pub evicted : Evicted (length bytes) c d
  pub stored : Stores d key (opened d key zone) offset (new_chunk bytes now) c'

pub insert_chunk-Inserts :
    (c : CacheManager) (key : Text) (offset : ℕ) (bytes : List ℕ) (zone : CacheZone) (now : ℕ)
    → Inv c
    → find_file [] c ≡ none
    → now < uint64_max
    → c.current_size + length bytes < size_mod
    → (d : CacheManager) × (c' : CacheManager) × (insert_chunk c key offset bytes zone now
        ≡ some c')
      × Inserts c key offset bytes zone now d c'
unfolding insert_chunk
insert_chunk-Inserts c key offset bytes zone now v named time fits =
    let (d, ran, ev) = evict_if_needed-Evicted c (length bytes) v named in
    (
      d,
      store_chunk d key offset bytes zone now,
      rw ran,
      record {
        evicted = ev;
        stored =
            store_chunk-Stores d key offset bytes zone now ev.inv time (omega (arith, ev.shrinks));
      },
    )

get_chunk-stored :
    {c c' : CacheManager} (key : Text) (f : FileEntry) (offset : ℕ) (chunk : Chunk)
    → Stores c key f offset chunk c'
    → get_chunk c' key offset ≡ some chunk
unfolding get_chunk
get_chunk-stored key f offset chunk s =
    rw (s.here) (Assoc.lookup-insert_self ℕ_discrete offset chunk f.chunks)

module _ (c : CacheManager) (key : Text) (offset : ℕ) (bytes : List ℕ) (zone : CacheZone) (now : ℕ)
    (v : Inv c) (named : find_file [] c ≡ none) (time : now < uint64_max)
    (fits : c.current_size + length bytes < size_mod) where
  -- Where the cache satisfies `Inv` and holds no file with the empty key, the clock has not reached
  -- `UINT64_MAX`, and the counter and the chunk together fit into a `size_t`, `insert_chunk` ends,
  -- keeps `Inv` and the limit, and the chunk is then read back with its bytes and its time.
  pub insert_chunk-get_chunk :
      (c' : CacheManager) × (insert_chunk c key offset bytes zone now ≡ some c')
      × Inv c'
      × (c'.max_size ≡ c.max_size)
      × (get_chunk c' key offset ≡ some (new_chunk bytes now))
  insert_chunk-get_chunk =
      let (d, c', ran, i) = insert_chunk-Inserts c key offset bytes zone now v named time fits in
      (
        c',
        ran,
        i.stored.inv,
        i.stored.limit ∙ i.evicted.limit,
        get_chunk-stored key (opened d key zone) offset (new_chunk bytes now) i.stored,
      )

get_chunk-found :
    (c : CacheManager) (key : Text) (f : FileEntry) (offset : ℕ)
    → find_file key c ≡ some f
    → get_chunk c key offset ≡ find_chunk offset f
unfolding get_chunk
get_chunk-found c key f offset found = rw found

-- No chunk at the offset: the file that `files_[key]` gives has none either.
pub opened-none :
    (c d : CacheManager) (key : Text) (zone : CacheZone) (offset : ℕ)
    → ((k : Text) (f : FileEntry) → find_file k d ≡ some f → find_file k c ≡ some f)
    → get_chunk c key offset ≡ none
    → replaced_bytes (find_chunk offset (opened d key zone)) ≡ 0
unfolding get_chunk opened Assoc.lookup
opened-none c d key zone offset kept e = elim (Option-cases (find_file key d)) [
  | inl missing ↦ rw (missing, opened)
  | inr (f, found) ↦
      rw (found, opened) (rw (sym (get_chunk-found c key f offset (kept key f found)) ∙ e) refl)
]

-- The counter is what the cache holds.
abbrev pub IsExact : CacheManager → Type 0
IsExact c = total_bytes c ≡ c.current_size

no_files-total : (c : CacheManager) → c.files ≡ [] → total_bytes c ≡ 0
unfolding Assoc.sum_by
no_files-total c e = ap (Assoc.sum_by text_dec file_bytes) e

Evicted-room :
    (c d : CacheManager) (n : ℕ)
    → IsExact c
    → c.current_size + n < size_mod
    → Evicted n c d
    → d.current_size + n ≤ max c.max_size n
Evicted-room c d n exact fits ev = elim ev.finished [
  | inl enough ↦
      omega (arith, ltb→le d.max_size (add64 d.current_size n) enough, ev.limit, ev.shrinks)
  | inr empty ↦ omega (arith, no_files-total d empty, ev.drift)
]

module _ (c : CacheManager) (key : Text) (offset : ℕ) (bytes : List ℕ) (zone : CacheZone) (now : ℕ)
    (v : Inv c) (named : find_file [] c ≡ none) (time : now < uint64_max)
    (fits : c.current_size + length bytes < size_mod) where
  -- Where the cache satisfies `Inv` and holds no file with the empty key, the clock has not reached
  -- `UINT64_MAX`, and the counter and the chunk together fit into a `size_t`, and where the counter
  -- is exactly what the cache holds and the key has no chunk at the offset, `insert_chunk` ends,
  -- the counter is exact again, and it is no larger than the limit, or than the chunk where that is
  -- larger.
  pub insert_chunk-IsExact :
      IsExact c
      → get_chunk c key offset ≡ none
      → (c' : CacheManager) × (insert_chunk c key offset bytes zone now ≡ some c')
        × IsExact c'
        × (c'.current_size ≤ max c.max_size (length bytes))
  insert_chunk-IsExact exact absent =
      let (d, c', ran, i) = insert_chunk-Inserts c key offset bytes zone now v named time fits in
      (
        c',
        ran,
        omega (
          arith,
          i.stored.total,
          i.stored.counter,
          i.evicted.drift,
          opened-none c d key zone offset i.evicted.kept absent,
        ),
        omega (arith, i.stored.counter, Evicted-room c d (length bytes) exact fits i.evicted),
      )

pub evict_fits :
    (c : CacheManager) (required : ℕ)
    → over c required ≡ false
    → evict_if_needed c required ≡ some c
unfolding evict_if_needed evict_loop
evict_fits c required h = ground arith

pub opened-found :
    (c : CacheManager) (key : Text) (zone : CacheZone) (f : FileEntry)
    → find_file key c ≡ some f
    → opened c key zone ≡ f
unfolding opened
opened-found c key zone f found = rw (found, opened)

-- Where the cache satisfies `Inv`, the clock has not reached `UINT64_MAX`, the sum of the counter
-- and the chunk fits into a `size_t` and under the limit, and another chunk is stored at the
-- offset, `insert_chunk` makes the counter exceed what the cache holds by the size of the chunk
-- that it replaces, besides what it exceeded before.
pub insert_chunk-leaks :
    (c : CacheManager) (key : Text) (f : FileEntry) (offset : ℕ) (old : Chunk) (bytes : List ℕ)
    (zone : CacheZone) (now : ℕ)
    → Inv c
    → now < uint64_max
    → c.current_size + length bytes < size_mod
    → over c (length bytes) ≡ false
    → find_file key c ≡ some f
    → find_chunk offset f ≡ some old
    → (c' : CacheManager) × (insert_chunk c key offset bytes zone now ≡ some c')
      × (c'.current_size + total_bytes c ≡ c.current_size + total_bytes c' + length old.bytes)
unfolding insert_chunk
insert_chunk-leaks c key f offset old bytes zone now v time fits room found here =
    let s = store_chunk-Stores c key offset bytes zone now v time fits in
    let e : replaced_bytes (find_chunk offset (opened c key zone)) ≡ length old.bytes =
      ap (λ (g : FileEntry). replaced_bytes (find_chunk offset g)) (opened-found c key zone f found)
      ∙ ap replaced_bytes here in
    (
      store_chunk c key offset bytes zone now,
      rw (evict_fits c (length bytes) room),
      omega (arith, s.counter, s.total, e),
    )

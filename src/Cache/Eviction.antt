-- ===== src/Cache/Eviction.antt =====
-- The two evictions, from what they do to the file map and to the lists.
use valkyrie_fs.Base.{
  ap, [], none, refl, erase, length-erase, count-erase_self, count-erase_ne, ◌∷◌, inl, inr,
  Option-cases, count, length, ◌<◌, ◌+◌, ◌≡◌, ◌≢◌, sym, ◌∙◌, some, List, Text, text_dec, arith,
  sub64,
}
use valkyrie_fs.Base.Assoc
use valkyrie_fs.Types.{CacheZone, hot, prefetch}
use valkyrie_fs.Cache.{
  evict_fifo_prefetch, evict_prefetch_file, evict_hot_file, tracked, FileEntry, CacheManager,
  find_file, calculate_file_size,
}
use valkyrie_fs.Cache.Sizes.{total_bytes, file_bytes, file_size_exact, file_bytes-le-total}
use valkyrie_fs.Cache.Invariant.{Inv, in_zone}

-- The cache without a file; the lists are given.
abbrev pub without : CacheManager → Text → FileEntry → List Text → List Text → CacheManager
without c key f lru fifo = record {
  max_size = c.max_size;
  current_size = sub64 c.current_size (calculate_file_size f);
  files = Assoc.erase text_dec key c.files;
  hot_lru = lru;
  prefetch_fifo = fifo;
}

module _ {c : CacheManager} (v : Inv c) (key : Text) (f : FileEntry)
    (e : find_file key c ≡ some f) where
  pub freed : sub64 c.current_size (calculate_file_size f) + file_bytes f ≡ c.current_size
  freed =
      omega (arith, v.accounted, v.in_range, file_size_exact f, file_bytes-le-total key f c.files e)

  pub total-without :
      (lru fifo : List Text) → total_bytes (without c key f lru fifo) + file_bytes f ≡ total_bytes c
  total-without lru fifo = Assoc.sum_by-erase text_dec file_bytes key f c.files v.unique e

  tracked_without :
      (z : CacheZone) (before after : List Text)
      → ((k : Text) → count text_dec k before ≡ in_zone z (find_file k c))
      → count text_dec key after ≡ 0
      → ((k : Text) → k ≢ key → count text_dec k after ≡ count text_dec k before)
      → (k : Text)
      → count text_dec k after
        ≡ in_zone z (Assoc.lookup text_dec k (Assoc.erase text_dec key c.files))
  tracked_without z before after t gone others k = elim (text_dec k key) [
    | yes p ↦ rw (p, Assoc.lookup-erase_self text_dec key c.files) gone
    | no p ↦ rw (Assoc.lookup-erase_ne text_dec key k c.files p) (others k p ∙ t k)
  ]

  pub without-Inv :
      (lru fifo : List Text)
      → count text_dec key lru ≡ 0
      → ((k : Text) → k ≢ key → count text_dec k lru ≡ count text_dec k c.hot_lru)
      → count text_dec key fifo ≡ 0
      → ((k : Text) → k ≢ key → count text_dec k fifo ≡ count text_dec k c.prefetch_fifo)
      → Inv (without c key f lru fifo)
  without-Inv lru fifo gone others gone' others' = record {
    unique = Assoc.erase-Unique text_dec key c.files v.unique;
    hot_tracked = tracked_without hot c.hot_lru lru v.hot_tracked gone others;
    prefetch_tracked =
        tracked_without prefetch c.prefetch_fifo fifo v.prefetch_tracked gone' others';
    filled = λ k g found. elim (text_dec k key) [
      | yes p ↦ absurd (cc (Assoc.lookup-erase_self text_dec key c.files, p, found))
      | no p ↦ v.filled k g (sym (Assoc.lookup-erase_ne text_dec key k c.files p) ∙ found)
    ];
    accounted = omega (arith, freed, total-without lru fifo, v.accounted);
    in_range = omega (arith, freed, v.in_range);
  }

-- `after` is `before` without the file of `key`.
pub record Evicts (before : CacheManager) (key : Text) (f : FileEntry) (after : CacheManager)
    : Type 0 where
  pub found : find_file key before ≡ some f
  pub gone : find_file key after ≡ none
  pub others : (k : Text) → k ≢ key → find_file k after ≡ find_file k before
  pub counter : after.current_size + file_bytes f ≡ before.current_size
  pub total : total_bytes after + file_bytes f ≡ total_bytes before
  pub fewer : tracked after + 1 ≡ tracked before
  pub limit : after.max_size ≡ before.max_size
  pub inv : Inv after

evict_fifo_lem :
    (c : CacheManager) (key : Text) (f : FileEntry) (rest : List Text)
    → c.prefetch_fifo ≡ key ∷ rest
    → find_file key c ≡ some f
    → evict_fifo_prefetch c ≡ without c key f c.hot_lru rest
unfolding evict_fifo_prefetch evict_prefetch_file
evict_fifo_lem c key f rest e found = ground arith

evict_hot_file_lem :
    (c : CacheManager) (key : Text) (f : FileEntry)
    → key ≢ []
    → find_file key c ≡ some f
    → evict_hot_file c key ≡ without c key f (erase text_dec key c.hot_lru) c.prefetch_fifo
unfolding evict_hot_file
evict_hot_file_lem c [] f named found = absurd (named refl)
evict_hot_file_lem c (b ∷ bs) f named found = rw (evict_hot_file, found)

module _ {c : CacheManager} (v : Inv c) (key : Text) where
  without-Evicts :
      (f : FileEntry) (e : find_file key c ≡ some f) (lru fifo : List Text)
      → Inv (without c key f lru fifo)
      → length fifo + length lru + 1 ≡ tracked c
      → Evicts c key f (without c key f lru fifo)
  without-Evicts f e lru fifo w fewer = record {
    found = e;
    gone = Assoc.lookup-erase_self text_dec key c.files;
    others = λ k p. Assoc.lookup-erase_ne text_dec key k c.files p;
    counter = freed v key f e;
    total = total-without v key f e lru fifo;
    fewer = fewer;
    limit = refl;
    inv = w;
  }

  -- On a cache that satisfies `Inv` and whose PREFETCH queue is not empty, `evict_fifo_prefetch`
  -- evicts the file at the head of the queue, which is of the PREFETCH zone. No other file changes,
  -- the counter goes down by exactly that file's bytes, and `Inv` holds.
  pub evict_fifo-Evicts :
      (rest : List Text)
      → c.prefetch_fifo ≡ key ∷ rest
      → (f : FileEntry) × (f.zone ≡ prefetch) × Evicts c key f (evict_fifo_prefetch c)
  unfolding count
  evict_fifo-Evicts rest e = elim (Option-cases (find_file key c)) [
    | inl missing ↦ absurd (ground (arith, v.prefetch_tracked key, missing))
    | inr (f, found) ↦
        let w : Inv (without c key f c.hot_lru rest) =
          without-Inv v key f found c.hot_lru rest
            (ground (arith, v.hot_tracked key, v.prefetch_tracked key)) (λ k p. refl)
            (ground (arith, v.prefetch_tracked key)) (λ k p. ground arith) in
        (
          f,
          ground (arith, v.prefetch_tracked key),
          rw (evict_fifo_lem c key f rest e found)
              (without-Evicts f found c.hot_lru rest w (omega (arith, ap length e))),
        )
  ]

  -- The same for a file of the HOT zone.
  pub evict_hot-Evicts :
      key ≢ []
      → 0 < count text_dec key c.hot_lru
      → (f : FileEntry) × (f.zone ≡ hot) × Evicts c key f (evict_hot_file c key)
  unfolding count
  evict_hot-Evicts named listed = elim (Option-cases (find_file key c)) [
    | inl missing ↦ absurd (ground (arith, v.hot_tracked key, missing))
    | inr (f, found) ↦
        let w : Inv (without c key f (erase text_dec key c.hot_lru) c.prefetch_fifo) =
          without-Inv v key f found (erase text_dec key c.hot_lru) c.prefetch_fifo
            (ground (arith, v.hot_tracked key, count-erase_self text_dec key c.hot_lru))
            (λ k p. count-erase_ne text_dec key k c.hot_lru p)
            (ground (arith, v.hot_tracked key, v.prefetch_tracked key)) (λ k p. refl) in
        (
          f,
          ground (arith, v.hot_tracked key),
          rw (evict_hot_file_lem c key f named found) (
              without-Evicts f found (erase text_dec key c.hot_lru) c.prefetch_fifo w
                (omega (arith, length-erase text_dec key c.hot_lru listed))),
        )
  ]

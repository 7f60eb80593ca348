-- ===== src/Cache/Chunks.antt =====
-- Where the chunks that are cached after `insert_chunk` come from.
use valkyrie_fs.Base.{
  subst, ℕ, ◌+◌, ◌<◌, ◌≡◌, ◌⊎◌, inl, inr, refl, sym, ap, ◌∙◌, none, some, Option-cases, List, [],
  Text, text_dec, ℕ_discrete, length, size_mod,
}
use valkyrie_fs.Base.Assoc
use valkyrie_fs.Types.{CacheZone}
use valkyrie_fs.Cache.{
  new_file, FileEntry, CacheManager, new_chunk, find_file, find_chunk, insert_chunk, uint64_max,
}
use valkyrie_fs.Cache.Invariant.{Inv}
use valkyrie_fs.Cache.Store.{opened}
use valkyrie_fs.Cache.Insert.{Stores, with_chunk}
use valkyrie_fs.Cache.Capacity.{insert_chunk-Inserts, opened-found}
use valkyrie_fs.Cache.Contents.{bytes_at, bytes_of, bytes_at_file, bytes_at-none, same_file}

opened_missing :
    (c : CacheManager) (key : Text) (zone : CacheZone)
    → find_file key c ≡ none
    → opened c key zone ≡ new_file key zone
unfolding opened
opened_missing c key zone e = rw (e, opened)

-- The chunks of a file that was found or made were there.
opened-bytes :
    (c d : CacheManager) (key : Text) (zone : CacheZone) (start : ℕ) (bs : List ℕ)
    → ((k : Text) (f : FileEntry) → find_file k d ≡ some f → find_file k c ≡ some f)
    → bytes_of (find_chunk start (opened d key zone)) ≡ some bs
    → bytes_at c key start ≡ some bs
unfolding Assoc.lookup
opened-bytes c d key zone start bs kept e = elim (Option-cases (find_file key d)) [
  | inl missing ↦ absurd (
      cc (
        ap (λ (f : FileEntry). bytes_of (find_chunk start f)) (opened_missing d key zone missing),
        e,
      ))
  | inr (f, found) ↦
      bytes_at_file c key f start (kept key f found)
      ∙ sym
          (ap (λ (g : FileEntry). bytes_of (find_chunk start g)) (opened-found d key zone f found))
      ∙ e
]

-- A chunk of a file that is there was there before.
pub others-bytes :
    (c d : CacheManager) (key : Text) (start : ℕ) (bs : List ℕ)
    → ((k : Text) (f : FileEntry) → find_file k d ≡ some f → find_file k c ≡ some f)
    → bytes_at d key start ≡ some bs
    → bytes_at c key start ≡ some bs
others-bytes c d key start bs kept e = elim (Option-cases (find_file key d)) [
  | inl missing ↦ absurd (cc (bytes_at-none d key start missing))
  | inr (f, found) ↦
      bytes_at_file c key f start (kept key f found) ∙ sym (bytes_at_file d key f start found) ∙ e
]

-- A chunk is the one inserted, or was there before.
abbrev pub Origin : CacheManager → Text → ℕ → List ℕ → Text → ℕ → List ℕ → Type 0
Origin c key offset bytes k start bs =
    ((k ≡ key) × (start ≡ offset) × (bs ≡ bytes)) ⊎ (bytes_at c k start ≡ some bs)

some_inj : {xs ys : List ℕ} → some xs ≡ some ys → ys ≡ xs
some_inj e = cc

stored-Origin :
    (c d c' : CacheManager) (key : Text) (offset : ℕ) (bytes : List ℕ) (zone : CacheZone) (now : ℕ)
    (start : ℕ) (bs : List ℕ)
    → ((k : Text) (f : FileEntry) → find_file k d ≡ some f → find_file k c ≡ some f)
    → Stores d key (opened d key zone) offset (new_chunk bytes now) c'
    → bytes_at c' key start ≡ some bs
    → Origin c key offset bytes key start bs
stored-Origin c d c' key offset bytes zone now start bs kept stored e =
    let f = opened d key zone in
    let chunk = new_chunk bytes now in
    let here : bytes_of (find_chunk start (with_chunk f offset chunk)) ≡ some bs =
      sym (bytes_at_file c' key (with_chunk f offset chunk) start stored.here) ∙ e in
    elim (ℕ_discrete start offset) [
      | yes p ↦
          let new : some bytes ≡ some bs =
            sym (
              ap (λ (o : ℕ). bytes_of (find_chunk o (with_chunk f offset chunk))) p
              ∙ ap bytes_of (Assoc.lookup-insert_self ℕ_discrete offset chunk f.chunks))
            ∙ here in
          inl (refl, p, some_inj new)
      | no p ↦ inr (
          opened-bytes c d key zone start bs kept (
            sym (ap bytes_of (Assoc.lookup-insert_ne ℕ_discrete offset start chunk f.chunks p))
            ∙ here))
    ]

-- Where the cache satisfies `Inv` and holds no file with the empty key, the clock has not reached
-- `UINT64_MAX`, and the counter and the chunk together fit into a `size_t`, every chunk that is
-- cached after an `insert_chunk` that ends is the one inserted, at its key and offset, or was
-- cached at the same place with the same bytes before.
pub insert_chunk-Origin :
    (c c' : CacheManager) (key : Text) (offset : ℕ) (bytes : List ℕ) (zone : CacheZone) (now : ℕ)
    (k : Text) (start : ℕ) (bs : List ℕ)
    → Inv c
    → find_file [] c ≡ none
    → now < uint64_max
    → c.current_size + length bytes < size_mod
    → insert_chunk c key offset bytes zone now ≡ some c'
    → bytes_at c' k start ≡ some bs
    → Origin c key offset bytes k start bs
insert_chunk-Origin c c' key offset bytes zone now k start bs v named time fits inserted e =
    let (d, c'', ran, i) = insert_chunk-Inserts c key offset bytes zone now v named time fits in
    let same : c'' ≡ c' = cc in
    let e' : bytes_at c'' k start ≡ some bs =
      ap (λ (x : CacheManager). bytes_at x k start) same ∙ e in
    elim (text_dec k key) [
      | yes p ↦
          subst (λ (q : Text). Origin c key offset bytes q start bs) (sym p)
            (stored-Origin c d c'' key offset bytes zone now start bs i.evicted.kept i.stored
              (ap (λ (q : Text). bytes_at c'' q start) (sym p) ∙ e'))
      | no p ↦ inr (
          others-bytes c d k start bs i.evicted.kept
            (sym (same_file d c'' k start (i.stored.others k p)) ∙ e'))
    ]

-- The same of `store_chunk` alone.
pub store_chunk-Origin :
    (c c' : CacheManager) (key : Text) (offset : ℕ) (bytes : List ℕ) (zone : CacheZone) (now : ℕ)
    (k : Text) (start : ℕ) (bs : List ℕ)
    → Stores c key (opened c key zone) offset (new_chunk bytes now) c'
    → bytes_at c' k start ≡ some bs
    → Origin c key offset bytes k start bs
store_chunk-Origin c c' key offset bytes zone now k start bs stored e = elim (text_dec k key) [
  | yes p ↦
      subst (λ (q : Text). Origin c key offset bytes q start bs) (sym p)
        (stored-Origin c c c' key offset bytes zone now start bs (λ q f h. h) stored
          (ap (λ (q : Text). bytes_at c' q start) (sym p) ∙ e))
  | no p ↦ inr (sym (same_file c c' k start (stored.others k p)) ∙ e)
]

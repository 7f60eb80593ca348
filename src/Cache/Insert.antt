-- ===== src/Cache/Insert.antt =====
-- The part of `insert_chunk` that stores a chunk.
use valkyrie_fs.Base.{
  ℕ, ◌+◌, ◌<◌, ◌≡◌, ◌≢◌, refl, sym, ap, ◌∙◌, none, some, Option, List, [], ◌∷◌, Text, text_dec,
  ℕ_discrete, arith, Option-cases, inl, inr, subst, length, All, add64, size_mod, if_pos, if_neg,
}
use valkyrie_fs.Base.Assoc
use valkyrie_fs.Base.Assoc.{Unique}
use valkyrie_fs.Types.{CacheZone, hot, prefetch}
use valkyrie_fs.Cache.{
  Chunk, FileEntry, CacheManager, new_chunk, find_file, find_chunk, open_file, put_chunk,
  store_chunk, uint64_max,
}
use valkyrie_fs.Cache.Sizes.{total_bytes, file_bytes, chunk_bytes}
use valkyrie_fs.Cache.Invariant.{Inv, in_zone, IsFilled}
use valkyrie_fs.Cache.Store.{Shape, Opens, opened, open_file-Opens, with_file, with_file-Shape}

-- The file with the chunk put in.
abbrev pub with_chunk : FileEntry → ℕ → Chunk → FileEntry
with_chunk f offset chunk = record f { chunks = Assoc.insert ℕ_discrete offset chunk f.chunks }

-- How many bytes a chunk at the offset already holds.
abbrev pub replaced_bytes : Option Chunk → ℕ
replaced_bytes none = 0
replaced_bytes (some chunk) = length chunk.bytes

pub with_chunk-bytes :
    (f : FileEntry) (offset : ℕ) (chunk : Chunk)
    → file_bytes (with_chunk f offset chunk) + replaced_bytes (find_chunk offset f)
      ≡ file_bytes f + length chunk.bytes
with_chunk-bytes f offset chunk = elim (Option-cases (find_chunk offset f)) [
  | inl missing ↦
      rw missing (
        omega (arith, Assoc.sum_by-insert_new ℕ_discrete chunk_bytes offset chunk f.chunks missing))
  | inr (old, found) ↦
      rw found (Assoc.sum_by-insert_old ℕ_discrete chunk_bytes offset chunk old f.chunks found)
]

-- Inserting keeps the bounds on the access times.
pub insert-All :
    (P : ℕ × Chunk → Type 0) (offset : ℕ) (chunk : Chunk) (cs : List (ℕ × Chunk))
    → P (offset, chunk)
    → All P cs
    → All P (Assoc.insert ℕ_discrete offset chunk cs)
unfolding Assoc.insert
insert-All P offset chunk [] p a = (p, tt)
insert-All P offset chunk ((o, c) ∷ cs) p a = elim (ℕ_discrete o offset) [
  | yes e ↦ rw (if_pos (ℕ_discrete o offset) e) (p, a.1)
  | no e ↦ rw (if_neg (ℕ_discrete o offset) e) (a.0, insert-All P offset chunk cs p a.1)
]

pub insert-ne-nil :
    (offset : ℕ) (chunk : Chunk) (cs : List (ℕ × Chunk))
    → Assoc.insert ℕ_discrete offset chunk cs ≢ []
unfolding Assoc.insert
insert-ne-nil offset chunk [] e = cc
insert-ne-nil offset chunk ((o, c) ∷ cs) e = ground arith

-- What `store_chunk` does: `f` is the file that `files_[s3_key]` gave.
pub record Stores (c : CacheManager) (key : Text) (f : FileEntry) (offset : ℕ) (chunk : Chunk)
    (c' : CacheManager) : Type 0 where
  pub here : find_file key c' ≡ some (with_chunk f offset chunk)
  pub others : (k : Text) → k ≢ key → find_file k c' ≡ find_file k c
  pub counter : c'.current_size ≡ c.current_size + length chunk.bytes
  -- The bytes that the chunk replaces are in the counter still, and in the cache no more.
  pub total :
      total_bytes c' + replaced_bytes (find_chunk offset f) ≡ total_bytes c + length chunk.bytes
  pub limit : c'.max_size ≡ c.max_size
  pub inv : Inv c'

opened-filled :
    (c : CacheManager) (key : Text) (zone : CacheZone)
    → Inv c
    → All (λ p. p.1.last_access_time < uint64_max) (opened c key zone).chunks
unfolding opened
opened-filled c key zone v = elim (Option-cases (find_file key c)) [
  | inl missing ↦ rw (missing, opened) tt
  | inr (f, found) ↦ rw (found, opened) (v.filled key f found).1
]

module _ {c : CacheManager} (v : Inv c) (key : Text) (f : FileEntry) (offset : ℕ)
    (chunk : Chunk) where
  abbrev g : FileEntry
  g = with_chunk f offset chunk

  abbrev filled : CacheManager → CacheManager
  filled d = record (with_file d key g d.hot_lru d.prefetch_fifo) {
    current_size = add64 d.current_size (length chunk.bytes);
  }

  filled-total :
      (d : CacheManager)
      → Opens c key f d
      → total_bytes (filled d) + replaced_bytes (find_chunk offset f)
        ≡ total_bytes c + length chunk.bytes
  filled-total d o = omega (
    arith,
    o.total,
    with_chunk-bytes f offset chunk,
    Assoc.sum_by-insert_old text_dec file_bytes key g f d.files o.updates.here,
  )

  filled-Shape :
      (d : CacheManager) → Opens c key f d → Shape (with_file d key g d.hot_lru d.prefetch_fifo)
  filled-Shape d o =
      with_file-Shape d key g d.hot_lru d.prefetch_fifo o.shape
        (o.shape.hot_tracked key ∙ ap (in_zone hot) o.updates.here, λ k p. refl)
        (o.shape.prefetch_tracked key ∙ ap (in_zone prefetch) o.updates.here, λ k p. refl)

  filled-IsFilled :
      (d : CacheManager)
      → Opens c key f d
      → All (λ p. p.1.last_access_time < uint64_max) f.chunks
      → chunk.last_access_time < uint64_max
      → (k : Text) (h : FileEntry) → find_file k (filled d) ≡ some h
      → IsFilled h
  filled-IsFilled d o times now k h e = elim (text_dec k key) [
    | yes p ↦
        let same : g ≡ h = cc (Assoc.lookup-insert_self text_dec key g d.files) in
        subst IsFilled same (
          insert-ne-nil offset chunk f.chunks,
          insert-All (λ p. p.1.last_access_time < uint64_max) offset chunk f.chunks now times,
        )
    | no p ↦
        v.filled k h
          (sym (o.updates.others k p) ∙ sym (Assoc.lookup-insert_ne text_dec key k g d.files p) ∙ e)
  ]

  filled-Stores :
      (d : CacheManager)
      → Opens c key f d
      → All (λ p. p.1.last_access_time < uint64_max) f.chunks
      → chunk.last_access_time < uint64_max
      → c.current_size + length chunk.bytes < size_mod
      → Stores c key f offset chunk (filled d)
  filled-Stores d o times now fits =
      let s = filled-Shape d o in
      record {
        here = Assoc.lookup-insert_self text_dec key g d.files;
        others = λ k p. Assoc.lookup-insert_ne text_dec key k g d.files p ∙ o.updates.others k p;
        counter = omega (arith, o.counter);
        total = filled-total d o;
        limit = o.limit;
        inv = record {
          unique = s.unique;
          hot_tracked = s.hot_tracked;
          prefetch_tracked = s.prefetch_tracked;
          filled = filled-IsFilled d o times now;
          accounted = omega (arith, filled-total d o, o.counter, v.accounted);
          in_range = omega (arith, o.counter);
        };
      }

  put_chunk-Stores :
      (d : CacheManager)
      → Opens c key f d
      → All (λ p. p.1.last_access_time < uint64_max) f.chunks
      → chunk.last_access_time < uint64_max
      → c.current_size + length chunk.bytes < size_mod
      → Stores c key f offset chunk (put_chunk d key offset chunk.bytes chunk.last_access_time)
  unfolding put_chunk
  put_chunk-Stores d o times now fits =
      rw (o.updates.here, put_chunk) (filled-Stores d o times now fits)

pub Inv-Shape : {c : CacheManager} → Inv c → Shape c
Inv-Shape v = record {
  unique = v.unique;
  hot_tracked = v.hot_tracked;
  prefetch_tracked = v.prefetch_tracked;
}

-- Where the cache satisfies `Inv`, the clock has not reached `UINT64_MAX`, and the counter and the
-- chunk together fit into a `size_t`, storing a chunk puts it into the file of its key, found or
-- made, changes no other file, adds the chunk's size to the counter, and keeps `Inv` and the limit.
pub store_chunk-Stores :
    (c : CacheManager) (key : Text) (offset : ℕ) (bytes : List ℕ) (zone : CacheZone) (now : ℕ)
    → Inv c
    → now < uint64_max
    → c.current_size + length bytes < size_mod
    → Stores c key
        (opened c key zone)
        offset
        (new_chunk bytes now)
        (store_chunk c key offset bytes zone now)
unfolding store_chunk
store_chunk-Stores c key offset bytes zone now v time fits =
    put_chunk-Stores v key (opened c key zone) offset (new_chunk bytes now) (open_file c key zone)
      (open_file-Opens c key zone (Inv-Shape v)) (opened-filled c key zone v) time fits

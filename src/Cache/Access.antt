-- ===== src/Cache/Access.antt =====
-- `access` of src/cache_manager.cpp.
use valkyrie_fs.Base.{
  ℕ, ◌<◌, ◌≡◌, ◌≢◌, refl, sym, ap, ◌∙◌, none, some, List, [], ◌∷◌, ◌++◌, Text, text_dec, ℕ_discrete,
  arith, count, count-erase_self, count-erase_ne, erase, Option-cases, inl, inr, subst,
}
use valkyrie_fs.Base.Assoc
use valkyrie_fs.Types.{CacheZone, hot, prefetch}
use valkyrie_fs.Cache.{
  Chunk, FileEntry, CacheManager, find_file, find_chunk, uint64_max, touch_chunk, promote, access,
}
use valkyrie_fs.Cache.Sizes.{total_bytes, file_bytes}
use valkyrie_fs.Cache.Invariant.{Inv, in_zone, same_zone, IsFilled}
use valkyrie_fs.Cache.Store.{Shape, with_file, with_file-Shape, Relists, count-push}
use valkyrie_fs.Cache.Insert.{
  with_chunk-bytes, replaced_bytes, insert-All, insert-ne-nil, Inv-Shape,
}

-- A file with the same bytes, in which the chunk at `offset` was last read at `now`.
pub record Touches (f : FileEntry) (offset now : ℕ) (g : FileEntry) : Type 0 where
  pub bytes : file_bytes g ≡ file_bytes f
  pub zone : g.zone ≡ f.zone
  pub filled : now < uint64_max → IsFilled f → IsFilled g
  pub read :
      (old : Chunk)
      → find_chunk offset f ≡ some old
      → find_chunk offset g ≡ some (record old { last_access_time = now })
  pub same : (o : ℕ) → o ≢ offset → find_chunk o g ≡ find_chunk o f
  pub missing : find_chunk offset f ≡ none → find_chunk offset g ≡ none

touch_chunk-Touches :
    (f : FileEntry) (offset now : ℕ) → Touches f offset now (touch_chunk f offset now)
unfolding touch_chunk
touch_chunk-Touches f offset now = elim (Option-cases (find_chunk offset f)) [
  | inl absent ↦
      rw (absent, touch_chunk)
        (record {
          bytes = refl;
          zone = refl;
          filled = λ t h. h;
          read = λ old e. absurd (cc);
          same = λ o p. refl;
          missing = λ e. e;
        })
  | inr (old, found) ↦
      let new : Chunk = record old { last_access_time = now } in
      rw (found, touch_chunk)
        (record {
          bytes = omega (arith, with_chunk-bytes f offset new, ap replaced_bytes found);
          zone = refl;
          filled = λ t h. (
            insert-ne-nil offset new f.chunks,
            insert-All (λ p. p.1.last_access_time < uint64_max) offset new f.chunks t h.1,
          );
          read = λ old' e.
              let e' : old ≡ old' = cc in
              Assoc.lookup-insert_self ℕ_discrete offset new f.chunks
              ∙ ap (λ (x : Chunk). some (record x { last_access_time = now })) e';
          same = λ o p. Assoc.lookup-insert_ne ℕ_discrete offset o new f.chunks p;
          missing = λ e. absurd (cc);
        })
]

-- What `access` does to a cached file `f`.
pub record Accesses (c : CacheManager) (key : Text) (f : FileEntry) (offset now : ℕ) (g : FileEntry)
    (c' : CacheManager) : Type 0 where
  pub here : find_file key c' ≡ some (record g { zone = hot })
  pub touches : Touches f offset now g
  pub others : (k : Text) → k ≢ key → find_file k c' ≡ find_file k c
  pub counter : c'.current_size ≡ c.current_size
  pub total : total_bytes c' ≡ total_bytes c
  pub limit : c'.max_size ≡ c.max_size
  pub inv : Inv c'

promote_hot :
    (c : CacheManager) (key : Text) (g : FileEntry)
    → g.zone ≡ hot
    → promote c key g ≡ with_file c key (record g { zone = hot }) c.hot_lru c.prefetch_fifo
unfolding promote
promote_hot c key g e = ground arith

promote_prefetch :
    (c : CacheManager) (key : Text) (g : FileEntry)
    → g.zone ≡ prefetch
    → promote c key g
      ≡ with_file c key
          (record g { zone = hot })
          (c.hot_lru ++ key ∷ [])
          (erase text_dec key c.prefetch_fifo)
unfolding promote
promote_prefetch c key g e = ground arith

module _ {c : CacheManager} (v : Inv c) (key : Text) (f : FileEntry)
    (found : find_file key c ≡ some f) (offset now : ℕ) (time : now < uint64_max) where
  hot_file-Accesses :
      (g : FileEntry)
      → Touches f offset now g
      → (lru fifo : List Text) → Relists hot key (record g { zone = hot }) c.hot_lru lru
      → Relists prefetch key (record g { zone = hot }) c.prefetch_fifo fifo
      → Accesses c key f offset now g (with_file c key (record g { zone = hot }) lru fifo)
  hot_file-Accesses g t lru fifo h p =
      let g' : FileEntry = record g { zone = hot } in
      let s : Shape (with_file c key g' lru fifo) =
        with_file-Shape c key g' lru fifo (Inv-Shape v) h p in
      let total : total_bytes (with_file c key g' lru fifo) ≡ total_bytes c =
        omega
          (arith, Assoc.sum_by-insert_old text_dec file_bytes key g' f c.files found, t.bytes) in
      record {
        here = Assoc.lookup-insert_self text_dec key g' c.files;
        touches = t;
        others = λ k q. Assoc.lookup-insert_ne text_dec key k g' c.files q;
        counter = refl;
        total = total;
        limit = refl;
        inv = record {
          unique = s.unique;
          hot_tracked = s.hot_tracked;
          prefetch_tracked = s.prefetch_tracked;
          filled = λ k x e. elim (text_dec k key) [
            | yes q ↦
                let same : g' ≡ x = cc (Assoc.lookup-insert_self text_dec key g' c.files) in
                subst IsFilled same (t.filled time (v.filled key f found))
            | no q ↦ v.filled k x (sym (Assoc.lookup-insert_ne text_dec key k g' c.files q) ∙ e)
          ];
          accounted = omega (arith, total, v.accounted);
          in_range = v.in_range;
        };
      }

  promote-Accesses :
      (g : FileEntry) (z : CacheZone)
      → Touches f offset now g
      → g.zone ≡ z
      → Accesses c key f offset now g (promote c key g)
  promote-Accesses g hot t e = rw (promote_hot c key g e) (
      hot_file-Accesses g t c.hot_lru c.prefetch_fifo
        (
          v.hot_tracked key ∙ ap (in_zone hot) found ∙ ap (same_zone hot) (sym t.zone ∙ e),
          λ k p. refl,
        )
        (
          v.prefetch_tracked key
              ∙ ap (in_zone prefetch) found
              ∙ ap (same_zone prefetch) (sym t.zone ∙ e),
          λ k p. refl,
        ))
  promote-Accesses g prefetch t e =
      let h : count text_dec key c.hot_lru ≡ 0 =
        v.hot_tracked key ∙ ap (in_zone hot) found ∙ ap (same_zone hot) (sym t.zone ∙ e) in
      let p : count text_dec key c.prefetch_fifo ≡ 1 =
        v.prefetch_tracked key
        ∙ ap (in_zone prefetch) found
        ∙ ap (same_zone prefetch) (sym t.zone ∙ e) in
      rw (promote_prefetch c key g e) (
        hot_file-Accesses g t (c.hot_lru ++ key ∷ []) (erase text_dec key c.prefetch_fifo)
          (omega (arith, (count-push key key c.hot_lru).0), λ k. (count-push key k c.hot_lru).1)
          (
            omega (arith, count-erase_self text_dec key c.prefetch_fifo),
            λ k q. count-erase_ne text_dec key k c.prefetch_fifo q,
          ))

-- Where the cache satisfies `Inv`, holds the file and the clock has not reached `UINT64_MAX`,
-- `access` moves the file into the HOT zone, sets the access time of the chunk at the offset if
-- there is one, changes no other chunk, no other file and no byte count, and keeps `Inv`.
pub access-Accesses :
    (c : CacheManager) (key : Text) (f : FileEntry) (offset now : ℕ)
    → Inv c
    → find_file key c ≡ some f
    → now < uint64_max
    → (g : FileEntry) × Accesses c key f offset now g (access c key offset now)
unfolding access
access-Accesses c key f offset now v found time =
    let g : FileEntry = touch_chunk f offset now in
    (
      g,
      rw (found, access)
          (promote-Accesses v key f found offset now time g g.zone
            (touch_chunk-Touches f offset now) refl),
    )

-- `access` to a key that is not cached does nothing.
pub access_missing :
    (c : CacheManager) (key : Text) (offset now : ℕ)
    → find_file key c ≡ none
    → access c key offset now ≡ c
unfolding access
access_missing c key offset now e = rw (e, access)

pub access-Inv :
    (c : CacheManager) (key : Text) (offset now : ℕ)
    → Inv c
    → now < uint64_max
    → Inv (access c key offset now)
access-Inv c key offset now v time = elim (Option-cases (find_file key c)) [
  | inl missing ↦ rw (access_missing c key offset now missing) v
  | inr (f, found) ↦ (access-Accesses c key f offset now v found time).1.inv
]

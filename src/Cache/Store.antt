-- ===== src/Cache/Store.antt =====
-- How one entry of the file map changes, with the lists that track it, and `files_[s3_key]`.
use valkyrie_fs.Base.Assoc.{Unique}
use valkyrie_fs.Base.{
  ◌+◌, ◌≡◌, ◌≢◌, refl, ◌∙◌, none, some, List, [], ◌∷◌, ◌++◌, Text, text_dec, arith, count,
  count-append, Option-cases, inl, inr,
}
use valkyrie_fs.Base.Assoc
use valkyrie_fs.Types.{CacheZone, hot, prefetch}
use valkyrie_fs.Cache.{FileEntry, CacheManager, new_file, find_file, open_file}
use valkyrie_fs.Cache.Sizes.{total_bytes, file_bytes}
use valkyrie_fs.Cache.Invariant.{in_zone, same_zone}

-- The invariant while a file is being filled: all but that each file holds a chunk.
pub record Shape (c : CacheManager) : Type 0 where
  pub unique : Unique text_dec c.files
  pub hot_tracked : (k : Text) → count text_dec k c.hot_lru ≡ in_zone hot (find_file k c)
  pub prefetch_tracked :
      (k : Text) → count text_dec k c.prefetch_fifo ≡ in_zone prefetch (find_file k c)

-- `after` maps `key` to `f`, and is `before` elsewhere.
pub record Updates (before : CacheManager) (key : Text) (f : FileEntry) (after : CacheManager)
    : Type 0 where
  pub here : find_file key after ≡ some f
  pub others : (k : Text) → k ≢ key → find_file k after ≡ find_file k before

abbrev pub with_file : CacheManager → Text → FileEntry → List Text → List Text → CacheManager
with_file c key f lru fifo = record c {
  files = Assoc.insert text_dec key f c.files;
  hot_lru = lru;
  prefetch_fifo = fifo;
}

-- The list `after` counts `key` once if the file is in the zone, and is `before` elsewhere.
abbrev pub Relists : CacheZone → Text → FileEntry → List Text → List Text → Type 0
Relists z key f before after =
    (count text_dec key after ≡ same_zone z f.zone)
    × ((k : Text) → k ≢ key → count text_dec k after ≡ count text_dec k before)

module _ (c : CacheManager) (key : Text) (f : FileEntry) (lru fifo : List Text) where
  pub with_file-Updates : Updates c key f (with_file c key f lru fifo)
  with_file-Updates = record {
    here = Assoc.lookup-insert_self text_dec key f c.files;
    others = λ k p. Assoc.lookup-insert_ne text_dec key k f c.files p;
  }

  relisted :
      (z : CacheZone) (before after : List Text)
      → ((k : Text) → count text_dec k before ≡ in_zone z (find_file k c))
      → Relists z key f before after
      → (k : Text) → count text_dec k after ≡ in_zone z (find_file k (with_file c key f lru fifo))
  relisted z before after t (here, others) k = elim (text_dec k key) [
    | yes p ↦ rw (p, Assoc.lookup-insert_self text_dec key f c.files) here
    | no p ↦ rw (Assoc.lookup-insert_ne text_dec key k f c.files p) (others k p ∙ t k)
  ]

  pub with_file-Shape :
      Shape c
      → Relists hot key f c.hot_lru lru
      → Relists prefetch key f c.prefetch_fifo fifo
      → Shape (with_file c key f lru fifo)
  with_file-Shape v h p = record {
    unique = Assoc.insert-Unique text_dec key f c.files v.unique;
    hot_tracked = relisted hot c.hot_lru lru v.hot_tracked h;
    prefetch_tracked = relisted prefetch c.prefetch_fifo fifo v.prefetch_tracked p;
  }

-- A key put at the end of a list.
pub count-push :
    (key k : Text) (l : List Text)
    → (count text_dec key (l ++ key ∷ []) ≡ count text_dec key l + 1)
      × (k ≢ key → count text_dec k (l ++ key ∷ []) ≡ count text_dec k l)
unfolding count
count-push key k l = (
  ground (arith, count-append text_dec key l (key ∷ [])),
  λ p. ground (arith, count-append text_dec k l (key ∷ [])),
)

-- The file that `files_[key]` gives.
unfoldable pub opened : CacheManager → Text → CacheZone → FileEntry
opened c key zone = elim (find_file key c) [ none ↦ new_file key zone | some f ↦ f ]

pub record Opens (c : CacheManager) (key : Text) (f : FileEntry) (c' : CacheManager) : Type 0 where
  pub shape : Shape c'
  pub updates : Updates c key f c'
  pub total : total_bytes c' ≡ total_bytes c
  pub counter : c'.current_size ≡ c.current_size
  pub limit : c'.max_size ≡ c.max_size

-- A new file is tracked in its zone, and holds no bytes.
module _ (c : CacheManager) (key : Text) (v : Shape c) (missing : find_file key c ≡ none) where
  new_file-Opens :
      (zone : CacheZone) (lru fifo : List Text)
      → Relists hot key (new_file key zone) c.hot_lru lru
      → Relists prefetch key (new_file key zone) c.prefetch_fifo fifo
      → Opens c key (new_file key zone) (with_file c key (new_file key zone) lru fifo)
  unfolding Assoc.sum_by
  new_file-Opens zone lru fifo h p = record {
    shape = with_file-Shape c key (new_file key zone) lru fifo v h p;
    updates = with_file-Updates c key (new_file key zone) lru fifo;
    total =
        Assoc.sum_by-insert_new text_dec file_bytes key (new_file key zone) c.files missing
        ∙ omega arith;
    counter = refl;
    limit = refl;
  }

  untracked_in : (z : CacheZone) → in_zone z (find_file key c) ≡ 0
  untracked_in z = rw missing

  pushed :
      (zone : CacheZone) (l : List Text)
      → count text_dec key l ≡ 0
      → Relists zone key (new_file key zone) l (l ++ key ∷ [])
  pushed hot l none_yet = (omega (arith, (count-push key key l).0), λ k. (count-push key k l).1)
  pushed prefetch l none_yet =
      (omega (arith, (count-push key key l).0), λ k. (count-push key k l).1)

  open_new-Opens : (zone : CacheZone) → Opens c key (new_file key zone) (open_file c key zone)
  unfolding open_file
  open_new-Opens hot =
      rw (missing, open_file)
        (new_file-Opens hot (c.hot_lru ++ key ∷ []) c.prefetch_fifo
          (pushed hot c.hot_lru (v.hot_tracked key ∙ untracked_in hot))
          (v.prefetch_tracked key ∙ untracked_in prefetch, λ k p. refl))
  open_new-Opens prefetch =
      rw (missing, open_file)
        (new_file-Opens prefetch c.hot_lru (c.prefetch_fifo ++ key ∷ [])
          (v.hot_tracked key ∙ untracked_in hot, λ k p. refl)
          (pushed prefetch c.prefetch_fifo (v.prefetch_tracked key ∙ untracked_in prefetch)))

pub open_file-Opens :
    (c : CacheManager) (key : Text) (zone : CacheZone)
    → Shape c
    → Opens c key (opened c key zone) (open_file c key zone)
unfolding opened open_file
open_file-Opens c key zone v = elim (Option-cases (find_file key c)) [
  | inl missing ↦ rw (missing, opened) (open_new-Opens c key v missing zone)
  | inr (f, found) ↦
      rw (found, opened, open_file)
        (record {
          shape = v;
          updates = record { here = found; others = λ k p. refl };
          total = refl;
          counter = refl;
          limit = refl;
        })
]

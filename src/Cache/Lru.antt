-- ===== src/Cache/Lru.antt =====
-- `evict_lru_hot` and its scan for the oldest access time.
use valkyrie_fs.Base.{
  subst, ltb→lt, ltb→le, ℕ, ◌≤◌, ◌<◌, ◌≡◌, ◌≢◌, refl, sym, ap, ◌∙◌, none, some, List, [], ◌∷◌, Text,
  text_dec, arith, All, count, ltb, Bool-cases, Option-cases, ◌⊎◌, inl, inr,
}
use valkyrie_fs.Base.Assoc.{lookup}
use valkyrie_fs.Types.{hot}
use valkyrie_fs.Cache.{
  Chunk, FileEntry, CacheManager, find_file, scan_chunks, scan_hot, lru_of, uint64_max,
  evict_lru_hot, evict_hot_file,
}
use valkyrie_fs.Cache.Invariant.{Inv}
use valkyrie_fs.Cache.Eviction.{Evicts, evict_hot-Evicts}

-- A chunk of the list was last read at time `t`.
abbrev pub HasTime : ℕ → List (ℕ × Chunk) → Type 0
HasTime t [] = ⊥
HasTime t (p ∷ ps) = (p.1.last_access_time ≡ t) ⊎ HasTime t ps

-- No chunk of the list was last read before `t`.
abbrev pub NoneBefore : ℕ → List (ℕ × Chunk) → Type 0
NoneBefore t = All λ p. t ≤ p.1.last_access_time

NoneBefore-mono : (s t : ℕ) (cs : List (ℕ × Chunk)) → s ≤ t → NoneBefore t cs → NoneBefore s cs
NoneBefore-mono s t [] h a = tt
NoneBefore-mono s t (p ∷ cs) h a = (omega arith, NoneBefore-mono s t cs h a.1)

-- What a scan of the chunks of `key` that starts from `best` has found.
record ScannedFile (key : Text) (cs : List (ℕ × Chunk)) (best r : Text × ℕ) : Type 0 where
  bound : r.1 ≤ best.1
  oldest : NoneBefore r.1 cs
  source : ((r.0 ≡ best.0) × (r.1 ≡ best.1)) ⊎ ((r.0 ≡ key) × HasTime r.1 cs)

module _ {key : Text} (o : ℕ) (c : Chunk) {cs : List (ℕ × Chunk)} {best r : Text × ℕ} where
  ScannedFile-older :
      c.last_access_time < best.1
      → ScannedFile key cs (key, c.last_access_time) r
      → ScannedFile key ((o, c) ∷ cs) best r
  ScannedFile-older older s = record {
    bound = omega (arith, s.bound);
    oldest = (s.bound, s.oldest);
    source = elim s.source [ inl (k, t) ↦ inr (k, inl (sym t)) | inr (k, t) ↦ inr (k, inr t) ];
  }

  ScannedFile-newer :
      best.1 ≤ c.last_access_time → ScannedFile key cs best r → ScannedFile key ((o, c) ∷ cs) best r
  ScannedFile-newer newer s = record {
    bound = s.bound;
    oldest = (omega (arith, s.bound), s.oldest);
    source = elim s.source [ inl same ↦ inl same | inr (k, t) ↦ inr (k, inr t) ];
  }

scan_chunks-ScannedFile :
    (key : Text) (cs : List (ℕ × Chunk)) (best : Text × ℕ)
    → ScannedFile key cs best (scan_chunks key cs best)
unfolding scan_chunks
scan_chunks-ScannedFile key [] best = record {
  bound = omega arith;
  oldest = tt;
  source = inl (refl, refl);
}
scan_chunks-ScannedFile key ((o, c) ∷ cs) best = elim (Bool-cases (ltb c.last_access_time best.1)) [
  | inl older ↦
      rw (older, scan_chunks)
        (ScannedFile-older o c (ltb→lt _ _ older)
          (scan_chunks-ScannedFile key cs (key, c.last_access_time)))
  | inr newer ↦
      rw (newer, scan_chunks)
        (ScannedFile-newer o c (ltb→le _ _ newer) (scan_chunks-ScannedFile key cs best))
]

-- What a scan over `keys` that starts from `best` has found.
record Scanned (files : List (Text × FileEntry)) (keys : List Text) (best r : Text × ℕ)
    : Type 0 where
  bound : r.1 ≤ best.1
  oldest :
      (k : Text) (f : FileEntry)
      → 0 < count text_dec k keys
      → lookup text_dec k files ≡ some f
      → NoneBefore r.1 f.chunks
  source :
      ((r.0 ≡ best.0) × (r.1 ≡ best.1))
      ⊎ ((f : FileEntry) × (0 < count text_dec r.0 keys)
          × (lookup text_dec r.0 files ≡ some f)
          × HasTime r.1 f.chunks)

-- A key on the list that is not `key` is on its rest.
count-tail :
    (key k : Text) (keys : List Text)
    → key ≢ k
    → 0 < count text_dec k (key ∷ keys)
    → 0 < count text_dec k keys
unfolding count
count-tail key k keys h listed = ground arith

count-cons :
    (key k : Text) (keys : List Text)
    → 0 < count text_dec k keys
    → 0 < count text_dec k (key ∷ keys)
unfolding count
count-cons key k keys listed = ground arith

count-head : (key : Text) (keys : List Text) → 0 < count text_dec key (key ∷ keys)
unfolding count
count-head key keys = ground arith

module _ {files : List (Text × FileEntry)} {key : Text} {keys : List Text} {best r : Text × ℕ} where
  -- A key with no file changes nothing.
  Scanned-skip :
      lookup text_dec key files ≡ none
      → Scanned files keys best r
      → Scanned files (key ∷ keys) best r
  Scanned-skip missing s = record {
    bound = s.bound;
    oldest = λ k f h e. elim (text_dec key k) [
      | yes p ↦ absurd (cc (ap (λ q. lookup text_dec q files) p))
      | no p ↦ s.oldest k f (count-tail key k keys p h) e
    ];
    source = elim s.source [
      | inl same ↦ inl same
      | inr (f, listed, found, time) ↦ inr (f, count-cons key r.0 keys listed, found, time)
    ];
  }

  Scanned-file :
      (f : FileEntry)
      → lookup text_dec key files ≡ some f
      → Scanned files keys (scan_chunks key f.chunks best) r
      → Scanned files (key ∷ keys) best r
  Scanned-file f found s =
      let t : ScannedFile key f.chunks best (scan_chunks key f.chunks best) =
        scan_chunks-ScannedFile key f.chunks best in
      record {
        bound = omega (arith, s.bound, t.bound);
        oldest = λ k g h e. elim (text_dec key k) [
          | yes p ↦
              let same : f ≡ g = cc (ap (λ q. lookup text_dec q files) p) in
              subst (λ (x : FileEntry). NoneBefore r.1 x.chunks) same
                (NoneBefore-mono r.1 (scan_chunks key f.chunks best).1 f.chunks s.bound t.oldest)
          | no p ↦ s.oldest k g (count-tail key k keys p h) e
        ];
        source = elim s.source [
          | inr (g, listed, here, time) ↦ inr (g, count-cons key r.0 keys listed, here, time)
          | inl (k, u) ↦ elim t.source [
            | inl (k', u') ↦ inl (k ∙ k', u ∙ u')
            | inr (k', time) ↦ inr (
              f,
              subst (λ q. 0 < count text_dec q (key ∷ keys)) (sym (k ∙ k')) (count-head key keys),
              subst (λ q. lookup text_dec q files ≡ some f) (sym (k ∙ k')) found,
              subst (λ u. HasTime u f.chunks) (sym u) time,
            )
          ]
        ];
      }

scan_hot-Scanned :
    (files : List (Text × FileEntry)) (keys : List Text) (best : Text × ℕ)
    → Scanned files keys best (scan_hot files keys best)
unfolding scan_hot count
scan_hot-Scanned files [] best = record {
  bound = omega arith;
  oldest = λ k f h e. absurd (omega arith);
  source = inl (refl, refl);
}
scan_hot-Scanned files (key ∷ keys) best = elim (Option-cases (lookup text_dec key files)) [
  | inl missing ↦ rw (missing, scan_hot) (Scanned-skip missing (scan_hot-Scanned files keys best))
  | inr (f, found) ↦
      rw (found, scan_hot)
        (Scanned-file f found (scan_hot-Scanned files keys (scan_chunks key f.chunks best)))
]

-- What an eviction from the HOT zone does: the file that goes holds a chunk last read at `time`,
-- and no chunk of the HOT zone was last read before that.
pub record EvictsOldest (before : CacheManager) (key : Text) (f : FileEntry) (time : ℕ)
    (after : CacheManager) : Type 0 where
  pub zone : f.zone ≡ hot
  pub read_at : HasTime time f.chunks
  pub oldest :
      (k : Text) (g : FileEntry)
      → find_file k before ≡ some g
      → g.zone ≡ hot
      → NoneBefore time g.chunks
  pub evicts : Evicts before key f after

listed-found :
    {c : CacheManager} (v : Inv c) (k : Text)
    → 0 < count text_dec k c.hot_lru
    → (f : FileEntry) × (find_file k c ≡ some f)
listed-found {c} v k listed = elim (Option-cases (find_file k c)) [
  | inl missing ↦ absurd (ground (arith, v.hot_tracked k, missing))
  | inr found ↦ found
]

-- The scan of a tracked list beats `UINT64_MAX`.
scan_below_max :
    {c : CacheManager} (v : Inv c) (k : Text) (f : FileEntry) (cs : List (ℕ × Chunk))
    (best r : Text × ℕ)
    → find_file k c ≡ some f
    → f.chunks ≡ cs
    → 0 < count text_dec k c.hot_lru
    → Scanned c.files c.hot_lru best r
    → r.1 < uint64_max
scan_below_max v k f [] best r found e listed s = absurd ((v.filled k f found).0 e)
scan_below_max v k f (p ∷ ps) best r found e listed s =
    let filled : All (λ p. p.1.last_access_time < uint64_max) (p ∷ ps) =
      subst (All (λ p. p.1.last_access_time < uint64_max)) e (v.filled k f found).1 in
    let old : NoneBefore r.1 (p ∷ ps) = subst (NoneBefore r.1) e (s.oldest k f listed found) in
    omega (arith, filled.0, old.0)

zone-listed :
    {c : CacheManager} (v : Inv c) (k : Text) (g : FileEntry)
    → find_file k c ≡ some g
    → g.zone ≡ hot
    → 0 < count text_dec k c.hot_lru
zone-listed v k g found z = ground (arith, v.hot_tracked k)

evict_lru_from :
    {c : CacheManager} (v : Inv c) (r : Text × ℕ)
    → find_file [] c ≡ none
    → r.1 < uint64_max
    → Scanned c.files c.hot_lru ([], uint64_max) r
    → (f : FileEntry) × EvictsOldest c r.0 f r.1 (evict_hot_file c r.0)
evict_lru_from {c} v r named below s = elim s.source [
  | inl (k, t) ↦ absurd (omega arith)
  | inr (f, listed, found, time) ↦
      let (g, zone, ev) = evict_hot-Evicts v r.0 (λ e. cc (ap (λ q. find_file q c) e)) listed in
      let same : g ≡ f = cc (ev.found) in
      (
        g,
        record {
          zone = zone;
          read_at = subst (λ (x : FileEntry). HasTime r.1 x.chunks) (sym same) time;
          oldest = λ k h e z. s.oldest k h (zone-listed v k h e z) e;
          evicts = ev;
        },
      )
]

pub evict_lru_hot_lem :
    (c : CacheManager) (key : Text) (keys : List Text)
    → c.hot_lru ≡ key ∷ keys
    → evict_lru_hot c ≡ evict_hot_file c (lru_of c).0
unfolding evict_lru_hot
evict_lru_hot_lem c key keys e = ground arith

-- On a cache that satisfies `Inv`, has no file with the empty key and tracks a key in its HOT zone,
-- `evict_lru_hot` evicts a HOT file that holds a chunk with the oldest access time of the zone. No
-- other file changes, the counter goes down by exactly that file's bytes, and `Inv` holds.
pub evict_lru-EvictsOldest :
    (c : CacheManager) (key : Text) (keys : List Text)
    → Inv c
    → find_file [] c ≡ none
    → c.hot_lru ≡ key ∷ keys
    → (f : FileEntry) × EvictsOldest c (lru_of c).0 f (lru_of c).1 (evict_lru_hot c)
evict_lru-EvictsOldest c key keys v named e =
    let s = scan_hot-Scanned c.files c.hot_lru ([], uint64_max) in
    let listed : 0 < count text_dec key c.hot_lru =
      subst (λ l. 0 < count text_dec key l) (sym e) (count-head key keys) in
    let (f, found) = listed-found v key listed in
    let below = scan_below_max v key f f.chunks ([], uint64_max) (lru_of c) found refl listed s in
    rw (evict_lru_hot_lem c key keys e) (evict_lru_from v (lru_of c) named below s)

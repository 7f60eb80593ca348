-- ===== src/Cache/Loop.antt =====
-- The loop of `evict_if_needed` against a specification: a sequence of evictions, in which the
-- HOT zone is touched only when the PREFETCH zone is empty.
use valkyrie_fs.Base.{
  ◌≤◌, ℕ, zero, suc, ◌+◌, ◌<◌, ◌≡◌, refl, sym, ap, ◌∙◌, true, false, none, some, List, [], ◌∷◌,
  Text, text_dec, arith, count, Bool-cases, ◌⊎◌, inl, inr, List-cases,
}
use valkyrie_fs.Base.Assoc.{lookup}
use valkyrie_fs.Types.{prefetch}
use valkyrie_fs.Cache.{
  FileEntry, CacheManager, find_file, lru_of, evict_lru_hot, evict_fifo_prefetch, evict_hot_file,
  evict_loop, evict_if_needed, over, tracked,
}
use valkyrie_fs.Cache.Sizes.{total_bytes}
use valkyrie_fs.Cache.Invariant.{Inv}
use valkyrie_fs.Cache.Eviction.{Evicts, evict_fifo-Evicts}
use valkyrie_fs.Cache.Lru.{EvictsOldest, evict_lru-EvictsOldest, evict_lru_hot_lem}

-- One round: the file that has waited longest in the PREFETCH zone goes, or, if that zone is empty,
-- a least recently used file of the HOT zone.
pub data Round (c c' : CacheManager) : Type 0 where
  fifo :
      (key : Text) (rest : List Text) (f : FileEntry)
      → c.prefetch_fifo ≡ key ∷ rest
      → f.zone ≡ prefetch
      → Evicts c key f c'
      → Round c c'
  lru :
      (key : Text) (f : FileEntry) (time : ℕ)
      → c.prefetch_fifo ≡ []
      → EvictsOldest c key f time c'
      → Round c c'

-- Rounds, each of them begun because `required` bytes did not fit.
pub data Rounds (required : ℕ) : CacheManager → CacheManager → Type 0 where
  done : {c : CacheManager} → Rounds required c c
  more :
      {c c' c'' : CacheManager}
      → over c required ≡ true
      → Round c c'
      → Rounds required c' c''
      → Rounds required c c''

Round-Evicts :
    {c c' : CacheManager} → Round c c' → (key : Text) × (f : FileEntry) × Evicts c key f c'
Round-Evicts (fifo key rest f e z ev) = (key, f, ev)
Round-Evicts (lru key f time e ev) = (key, f, ev.evicts)

pub record Evicted (required : ℕ) (c c' : CacheManager) : Type 0 where
  pub rounds : Rounds required c c'
  pub inv : Inv c'
  pub limit : c'.max_size ≡ c.max_size
  -- No file comes back or changes.
  pub kept : (k : Text) (f : FileEntry) → find_file k c' ≡ some f → find_file k c ≡ some f
  -- What the counter has too much stays too much.
  pub drift : c'.current_size + total_bytes c ≡ c.current_size + total_bytes c'
  pub shrinks : c'.current_size ≤ c.current_size
  pub finished : (over c' required ≡ false) ⊎ (c'.files ≡ [])

-- Where no key is tracked, no file is cached.
untracked-empty :
    {c : CacheManager} (files : List (Text × FileEntry)) (v : Inv c)
    → c.files ≡ files
    → c.prefetch_fifo ≡ []
    → c.hot_lru ≡ []
    → c.files ≡ []
unfolding count lookup
untracked-empty [] v e p h = e
untracked-empty {c} ((k, f) ∷ files) v e p h =
    absurd (ground (arith, v.hot_tracked k, v.prefetch_tracked k))

-- An eviction brings no file with the empty key.
still_named :
    {c c' : CacheManager} {key : Text} {f : FileEntry}
    → find_file [] c ≡ none
    → Evicts c key f c'
    → find_file [] c' ≡ none
still_named {c} {c'} {key} named ev = elim (text_dec [] key) [
  | yes p ↦ rw p ev.gone
  | no p ↦ ev.others [] p ∙ named
]

module _ (required : ℕ) where
  Evicted-stop :
      {c : CacheManager} → Inv c → (over c required ≡ false) ⊎ (c.files ≡ []) → Evicted required c c
  Evicted-stop v fin = record {
    rounds = done;
    inv = v;
    limit = refl;
    kept = λ k f e. e;
    drift = refl;
    shrinks = omega arith;
    finished = fin;
  }

  Evicted-Round :
      {c c' c'' : CacheManager}
      → over c required ≡ true
      → Round c c'
      → Evicted required c' c''
      → Evicted required c c''
  Evicted-Round {c} {c'} {c''} full round w =
      let (key, f, ev) = Round-Evicts round in
      record {
        rounds = more full round w.rounds;
        inv = w.inv;
        limit = w.limit ∙ ev.limit;
        kept = λ k g e. elim (text_dec k key) [
          | yes p ↦ absurd (cc (w.kept k g e, ap (λ q. find_file q c') p, ev.gone))
          | no p ↦ sym (ev.others k p) ∙ w.kept k g e
        ];
        drift = omega (arith, w.drift, ev.counter, ev.total);
        shrinks = omega (arith, w.shrinks, ev.counter);
        finished = w.finished;
      }

  module _ (fuel : ℕ) (c : CacheManager) where
    loop_fits : over c required ≡ false → evict_loop (suc fuel) c required ≡ some c
    unfolding evict_loop
    loop_fits fits = ground arith

    pub loop_fifo :
        (key : Text) (rest : List Text)
        → over c required ≡ true
        → c.prefetch_fifo ≡ key ∷ rest
        → evict_loop (suc fuel) c required ≡ evict_loop fuel (evict_fifo_prefetch c) required
    unfolding evict_loop
    loop_fifo key rest full e = ground arith

    pub loop_lru :
        (key : Text) (rest : List Text)
        → over c required ≡ true
        → c.prefetch_fifo ≡ []
        → c.hot_lru ≡ key ∷ rest
        → evict_loop (suc fuel) c required ≡ evict_loop fuel (evict_lru_hot c) required
    unfolding evict_loop
    loop_lru key rest full p e = ground arith

    loop_empty :
        over c required ≡ true
        → c.prefetch_fifo ≡ []
        → c.hot_lru ≡ []
        → evict_loop (suc fuel) c required ≡ some c
    unfolding evict_loop
    loop_empty full p e = ground arith

  Evicted-step :
      (fuel : ℕ) {c c' : CacheManager}
      → over c required ≡ true
      → Round c c'
      → evict_loop (suc fuel) c required ≡ evict_loop fuel c' required
      → (c'' : CacheManager) × (evict_loop fuel c' required ≡ some c'') × Evicted required c' c''
      → (c'' : CacheManager) × (evict_loop (suc fuel) c required ≡ some c'')
        × Evicted required c c''
  Evicted-step fuel full round e (c'', r, w) = (c'', e ∙ r, Evicted-Round full round w)

  -- The loop ends within one round more than there are tracked keys.
  evict_loop-Evicted :
      (fuel : ℕ) (c : CacheManager)
      → Inv c
      → find_file [] c ≡ none
      → tracked c < fuel
      → (c' : CacheManager) × (evict_loop fuel c required ≡ some c') × Evicted required c c'
  unfolding evict_loop
  evict_loop-Evicted zero c v named h = elim h [ ]
  evict_loop-Evicted (suc fuel) c v named h = elim (Bool-cases (over c required)) [
    | inl full ↦ elim (List-cases c.prefetch_fifo) [
      | inr (key, rest, e) ↦
          let (f, zone, ev) = evict_fifo-Evicts v key rest e in
          Evicted-step fuel full (fifo key rest f e zone ev) (loop_fifo fuel c key rest full e) (
            evict_loop-Evicted fuel (evict_fifo_prefetch c) ev.inv (still_named named ev)
              (omega (arith, ev.fewer)))
      | inl none_left ↦ elim (List-cases c.hot_lru) [
        | inr (key, rest, e) ↦
            let (f, o) = evict_lru-EvictsOldest c key rest v named e in
            Evicted-step fuel full (lru (lru_of c).0 f (lru_of c).1 none_left o)
              (loop_lru fuel c key rest full none_left e)
              (evict_loop-Evicted fuel (evict_lru_hot c) o.evicts.inv (still_named named o.evicts)
                (omega (arith, o.evicts.fewer)))
        | inl e ↦ (
          c,
          loop_empty fuel c full none_left e,
          Evicted-stop v (inr (untracked-empty c.files v refl none_left e)),
        )
      ]
    ]
    | inr fits ↦ (c, loop_fits fuel c fits, Evicted-stop v (inl fits))
  ]

stays :
    (c : CacheManager) (key : Text) (keys : List Text)
    → c.hot_lru ≡ key ∷ keys
    → (lru_of c).0 ≡ []
    → evict_lru_hot c ≡ c
unfolding evict_hot_file
stays c key keys e l = evict_lru_hot_lem c key keys e ∙ ap (evict_hot_file c) l

-- On a cache that satisfies `Inv` and has no file with the empty key, `evict_if_needed` ends. Its
-- result is reached by rounds, each begun because the required bytes did not fit, which take the
-- head of the PREFETCH queue, or, only if that is empty, a least recently used file of the HOT
-- zone. At the end the bytes fit or no file is left, `Inv` holds, no file has changed or come back,
-- and the counter has shrunk by what was dropped.
pub evict_if_needed-Evicted :
    (c : CacheManager) (required : ℕ)
    → Inv c
    → find_file [] c ≡ none
    → (c' : CacheManager) × (evict_if_needed c required ≡ some c') × Evicted required c c'
unfolding evict_if_needed
evict_if_needed-Evicted c required v named =
    evict_loop-Evicted required (suc (tracked c)) c v named (omega arith)

-- Where the PREFETCH zone is empty, the HOT zone is not, the scan for the oldest chunk finds the
-- empty key and the required bytes do not fit, the eviction loop ends with no fuel: the file with
-- the empty key is never evicted.
pub evict_loop_hangs :
    (fuel : ℕ) (c : CacheManager) (required : ℕ) (key : Text) (keys : List Text)
    → c.prefetch_fifo ≡ []
    → c.hot_lru ≡ key ∷ keys
    → (lru_of c).0 ≡ []
    → over c required ≡ true
    → evict_loop fuel c required ≡ none
unfolding evict_loop
evict_loop_hangs zero c required key keys p e l full = refl
evict_loop_hangs (suc fuel) c required key keys p e l full =
    loop_lru required fuel c key keys full p e
    ∙ ap (λ d. evict_loop fuel d required) (stays c key keys e l)
    ∙ evict_loop_hangs fuel c required key keys p e l full

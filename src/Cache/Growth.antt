-- ===== src/Cache/Growth.antt =====
-- `insert_chunk` and `access` on a sound cache, with what a loop that calls them carries on.
use valkyrie_fs.Base.{
  ◌∙◌, sym, ℕ, ◌+◌, ◌≤◌, ◌<◌, ◌≡◌, ◌≢◌, refl, ap, some, List, [], Text, length, arith, size_mod,
  Option-cases, inl, inr,
}
use valkyrie_fs.Types.{CacheZone}
use valkyrie_fs.Cache.{
  CacheManager, new_chunk, find_file, insert_chunk, get_chunk, access, uint64_max,
}
use valkyrie_fs.Cache.Access.{access-Accesses, access_missing}
use valkyrie_fs.Cache.Capacity.{insert_chunk-Inserts, insert_chunk-get_chunk}
use valkyrie_fs.Cache.Interleaving.{IsSound, Step-IsSound, accesses}

-- A cache after an insertion.
pub record Grows (c : CacheManager) (key : Text) (offset : ℕ) (bytes : List ℕ) (now : ℕ)
    (c' : CacheManager) : Type 0 where
  pub sound : IsSound c'
  pub size : c'.current_size ≤ c.current_size + length bytes
  pub cached : get_chunk c' key offset ≡ some (new_chunk bytes now)

pub insert_chunk-Grows :
    (c : CacheManager) (key : Text) (offset : ℕ) (bytes : List ℕ) (zone : CacheZone) (now : ℕ)
    → IsSound c
    → key ≢ []
    → now < uint64_max
    → c.current_size + length bytes < size_mod
    → (c' : CacheManager) × (insert_chunk c key offset bytes zone now ≡ some c')
      × Grows c key offset bytes now c'
insert_chunk-Grows c key offset bytes zone now s named time fits =
    let (d, c', ran, i) =
      insert_chunk-Inserts c key offset bytes zone now s.inv s.named time fits in
    let (c'', ran', _, _, here) =
      insert_chunk-get_chunk c key offset bytes zone now s.inv s.named time fits in
    let same : c'' ≡ c' = cc in
    (
      c',
      ran,
      record {
        sound = record {
          inv = i.stored.inv;
          named = elim (Option-cases (find_file [] d)) [
            | inl e ↦ i.stored.others [] (λ p. named (sym p)) ∙ e
            | inr (f, e) ↦ absurd (cc (i.evicted.kept [] f e, s.named))
          ];
        };
        size = omega (arith, i.stored.counter, i.evicted.shrinks);
        cached = ap (λ (x : CacheManager). get_chunk x key offset) (sym same) ∙ here;
      },
    )

pub access-IsSound :
    (c : CacheManager) (key : Text) (offset now : ℕ)
    → IsSound c
    → now < uint64_max
    → IsSound (access c key offset now)
access-IsSound c key offset now s time = Step-IsSound (accesses key offset now time refl) s

pub access-current_size :
    (c : CacheManager) (key : Text) (offset now : ℕ)
    → IsSound c
    → now < uint64_max
    → (access c key offset now).current_size ≡ c.current_size
access-current_size c key offset now s time = elim (Option-cases (find_file key c)) [
  | inl missing ↦ rw (access_missing c key offset now missing)
  | inr (f, found) ↦ (access-Accesses c key f offset now s.inv found time).1.counter
]
